-- ===== src/Multipart/Encoding.antt =====
-- src/async_impl/multipart.rs, `PercentEncoding` and `PartMetadata`: the headers of a part.
use reqwest.Prelude.{
  ℕ, ◌≡◌, Bool, true, not, ◌&&◌, ◌||◌, Option, none, some, List, [], ◌∷◌, ◌++◌, codes, all, any,
  leb, ltb, ◌==◌, if◌then◌else◌,
}

-- `Cow<str>`: unchanged or rewritten.
pub data Cow : Type 0 where
  borrowed owned : List ℕ → Cow

abbrev pub cow_bytes : Cow → List ℕ
cow_bytes (borrowed s) = s
cow_bytes (owned s) = s

abbrev pub is_upper_hex : ℕ → Bool
is_upper_hex b = (leb 48 b && leb b 57) || (leb 65 b && leb b 70)

abbrev pub is_alphanumeric : ℕ → Bool
is_alphanumeric b = (leb 48 b && leb b 57) || (leb 65 b && leb b 90) || (leb 97 b && leb b 122)

-- A byte that percent-encoding may leave behind.
abbrev pub is_encoded : (ℕ → Bool) → ℕ → Bool
is_encoded set b = (leb b 127 && not (set b)) || b == b'%' || is_upper_hex b

-- The crate `percent_encoding`. Its documentation: CONTROLS are the C0 controls and DEL,
-- NON_ALPHANUMERIC all other ASCII bytes but letters and digits; a byte of the set, or one that is
-- not ASCII, becomes `%` and two upper-case digits, and every other byte stays.
pub record Percent : Type 0 where
  pub controls : ℕ → Bool
  pub non_alphanumeric : ℕ → Bool
  pub utf8_percent_encode : (ℕ → Bool) → List ℕ → Cow
  pub controls_all : (b : ℕ) → controls b ≡ (ltb b 32 || b == 127)
  pub non_alphanumeric_all :
      (b : ℕ) → leb b 127 ≡ true → non_alphanumeric b ≡ not (is_alphanumeric b)
  pub encoded :
      (set : ℕ → Bool) (s : List ℕ)
      → all (is_encoded set) (cow_bytes (utf8_percent_encode set s)) ≡ true

pub data PercentEncoding : Type 0 where
  path_segment attr_char no_op : PercentEncoding

pub record PartMetadata : Type 0 where
  pub mime : Option (List ℕ)
  pub file_name : Option (List ℕ)
  pub headers : List (List ℕ × List ℕ)

abbrev pub no_metadata : PartMetadata
no_metadata = record { mime = none; file_name = none; headers = [] }

-- `.replace(c, …)` with the character behind a backslash.
unfoldable pub escape : ℕ → List ℕ → List ℕ
escape c [] = []
escape c (b ∷ s) = if b == c then b'\\' ∷ c ∷ escape c s else b ∷ escape c s

unfoldable pub legal_filename : List ℕ → List ℕ
unfolding escape
legal_filename s = escape b'\n' (escape b'\r' (escape b'"' (escape b'\\' s)))

module _ (percent : Percent) where
  unfoldable pub path_segment_set : ℕ → Bool
  path_segment_set b = percent.controls b || any (λ c. c == b) (codes " \"<>`#?{}/%")

  unfoldable pub attr_char_set : ℕ → Bool
  attr_char_set b = percent.non_alphanumeric b && not (any (λ c. c == b) (codes "!#$&+-.^_`|~"))

  unfoldable pub percent_encode : PercentEncoding → List ℕ → Cow
  unfolding path_segment_set attr_char_set
  percent_encode path_segment s = percent.utf8_percent_encode path_segment_set s
  percent_encode attr_char s = percent.utf8_percent_encode attr_char_set s
  percent_encode no_op s = borrowed s

  name_header : Cow → List ℕ
  name_header (borrowed value) = codes "name=\"" ++ value ++ codes "\""
  name_header (owned value) = codes "name*=utf-8''" ++ value

  file_header : Option (List ℕ) → List ℕ
  unfolding legal_filename
  file_header none = []
  file_header (some filename) = codes "; filename=\"" ++ legal_filename filename ++ codes "\""

  mime_header : Option (List ℕ) → List ℕ
  mime_header none = []
  mime_header (some mime) = codes "\r\nContent-Type: " ++ mime

  more_headers : List (List ℕ × List ℕ) → List ℕ
  more_headers [] = []
  more_headers ((k, v) ∷ rest) = codes "\r\n" ++ k ++ codes ": " ++ v ++ more_headers rest

  unfoldable pub encode_headers : PercentEncoding → List ℕ → PartMetadata → List ℕ
  unfolding percent_encode name_header file_header mime_header more_headers
  encode_headers encoding name field =
      codes "Content-Disposition: form-data; "
      ++ name_header (percent_encode encoding name)
      ++ file_header field.file_name
      ++ mime_header field.mime
      ++ more_headers field.headers
