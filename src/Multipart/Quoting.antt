-- ===== src/Multipart/Quoting.antt =====
-- src/async_impl/multipart.rs: the quoted file name of a part, and what a field's name may hold.
use reqwest.Prelude.{
  ℕ, ◌≡◌, refl, ◌∙◌, Bool, true, false, not, ◌&&◌, ◌||◌, Option, none, some, List, [], ◌∷◌, ◌++◌,
  all, ◌==◌, if◌then◌else◌, arith, Bool-cases, inl, inr, ◌≢◌,
}
use reqwest.Multipart.Encoding.{
  Percent, PercentEncoding, path_segment, attr_char, no_op, percent_encode, path_segment_set,
  attr_char_set, cow_bytes, is_encoded, escape, legal_filename,
}

-- Puts a byte in front of what was read.
abbrev pub push : ℕ → Option (List ℕ × List ℕ) → Option (List ℕ × List ℕ)
push b none = none
push b (some (read, rest)) = some (b ∷ read, rest)

-- A reader of quoted strings, behind the opening quote: a backslash takes the next byte as it is,
-- and a quote ends the string.
pub unquote : Bool → List ℕ → Option (List ℕ × List ℕ)
unquote escaped [] = none
unquote true (b ∷ s) = push b (unquote false s)
unquote false (b ∷ s) =
    let plain = push b (unquote false s) in
    let behind = unquote true s in
    if b == b'"' then some ([], s) else if b == b'\\' then behind else plain

abbrev pub has_crlf : List ℕ → Bool
has_crlf [] = false
has_crlf (b ∷ []) = false
has_crlf (b ∷ c ∷ s) = (b == b'\r' && c == b'\n') || has_crlf (c ∷ s)

abbrev special : ℕ → Bool
special b = b == b'\\' || b == b'"' || b == b'\r' || b == b'\n'

legal_filename-cons :
    (b : ℕ) (s : List ℕ)
    → legal_filename (b ∷ s)
      ≡ (if special b then b'\\' ∷ b ∷ legal_filename s else b ∷ legal_filename s)
unfolding legal_filename escape
legal_filename-cons b s = ground arith

-- Whatever a file name holds, a reader of quoted strings gets it back exactly, and reads on right
-- behind the closing quote.
pub unquote-legal_filename :
    (name rest : List ℕ) → unquote false (legal_filename name ++ b'"' ∷ rest) ≡ some (name, rest)
unfolding unquote legal_filename
unquote-legal_filename [] rest = refl
unquote-legal_filename (b ∷ s) rest =
    let ih = unquote-legal_filename s rest in
    elim (Bool-cases (special b)) [
      | inl e ↦ rw (legal_filename-cons b s, e, ih)
      | inr e ↦ rw (legal_filename-cons b s, e, ih) (ground arith)
    ]

abbrev starts_lf : List ℕ → Bool
starts_lf [] = false
starts_lf (b ∷ s) = b == b'\n'

starts_lf-legal_filename : (name : List ℕ) → starts_lf (legal_filename name) ≡ false
unfolding legal_filename
starts_lf-legal_filename [] = refl
starts_lf-legal_filename (b ∷ s) = elim (Bool-cases (special b)) [
  | inl e ↦ rw (legal_filename-cons b s, e)
  | inr e ↦ rw (legal_filename-cons b s, e) (ground arith)
]

has_crlf-cons : (b : ℕ) (s : List ℕ) → starts_lf s ≡ false → has_crlf (b ∷ s) ≡ has_crlf s
has_crlf-cons b [] h = refl
has_crlf-cons b (c ∷ s) h = ground arith

-- A file name never ends the header's line: its quoted form holds no line break of the protocol.
pub has_crlf-legal_filename : (name : List ℕ) → has_crlf (legal_filename name) ≡ false
unfolding legal_filename
has_crlf-legal_filename [] = refl
has_crlf-legal_filename (b ∷ s) =
    let rest =
      has_crlf-cons b (legal_filename s) (starts_lf-legal_filename s) ∙ has_crlf-legal_filename s in
    elim (Bool-cases (special b)) [
      | inl e ↦ rw (legal_filename-cons b s, e) (ground arith)
      | inr e ↦ rw (legal_filename-cons b s, e) rest
    ]

abbrev pub is_safe : ℕ → Bool
is_safe b = not (b == b'"' || b == b'\r' || b == b'\n')

all_mono :
    (q r : ℕ → Bool)
    → ((b : ℕ) → q b ≡ true → r b ≡ true)
    → (s : List ℕ) → all q s ≡ true
    → all r s ≡ true
all_mono q r h [] e = refl
all_mono q r h (b ∷ s) e = ground (arith, h b, all_mono q r h s)

path_segment-IsSafe :
    (percent : Percent) (b : ℕ) → is_encoded (path_segment_set percent) b ≡ true → is_safe b ≡ true
unfolding path_segment_set
path_segment-IsSafe percent b e = ground (arith, percent.controls_all b)

attr_char-IsSafe :
    (percent : Percent) (b : ℕ) → is_encoded (attr_char_set percent) b ≡ true → is_safe b ≡ true
unfolding attr_char_set
attr_char-IsSafe percent b e = ground (arith, percent.non_alphanumeric_all b)

-- Unless percent-encoding is switched off, a field's name cannot leave its place in the header: no
-- quote and no line break of it remains.
pub percent_encode-IsSafe :
    (percent : Percent) (encoding : PercentEncoding) (name : List ℕ)
    → encoding ≢ no_op
    → all is_safe (cow_bytes (percent_encode percent encoding name)) ≡ true
unfolding percent_encode
percent_encode-IsSafe percent path_segment name h =
    all_mono _ is_safe (path_segment-IsSafe percent)
      (cow_bytes (percent.utf8_percent_encode (path_segment_set percent) name))
      (percent.encoded (path_segment_set percent) name)
percent_encode-IsSafe percent attr_char name h =
    all_mono _ is_safe (attr_char-IsSafe percent)
      (cow_bytes (percent.utf8_percent_encode (attr_char_set percent) name))
      (percent.encoded (attr_char_set percent) name)
percent_encode-IsSafe percent no_op name h = absurd (h refl)
