-- ===== src/Multipart/Plain.antt =====
-- An instance of the crate `percent_encoding`, which shows that its laws can hold.
use reqwest.Prelude.{
  ℕ, ◌+◌, ◌/◌, ◌%◌, ◌<◌, ◌≡◌, refl, ap, Bool, true, not, ◌&&◌, ◌||◌, List, [], ◌∷◌, ◌++◌, all, leb,
  ltb, ◌==◌, if◌then◌else◌, arith, Bool-cases, inl, inr,
}
use reqwest.Multipart.Encoding.{
  Percent, Cow, borrowed, owned, cow_bytes, is_encoded, is_alphanumeric, is_upper_hex,
}
use reqwest.Multipart.Boundary.{all-append}

abbrev pub upper_hex : ℕ → ℕ
upper_hex d = if ltb d 10 then 48 + d else 55 + d

abbrev pub encode_byte : (ℕ → Bool) → ℕ → List ℕ
encode_byte set b =
    if leb b 127 && not (set b)
    then b ∷ []
    else b'%' ∷ upper_hex (b / 16 % 16) ∷ upper_hex (b % 16) ∷ []

abbrev pub encode_all : (ℕ → Bool) → List ℕ → List ℕ
encode_all set [] = []
encode_all set (b ∷ s) = encode_byte set b ++ encode_all set s

abbrev pub encode : (ℕ → Bool) → List ℕ → Cow
encode set s =
    if all (λ b. leb b 127 && not (set b)) s
    then borrowed (encode_all set s)
    else owned (encode_all set s)

upper_hex-lt : (d : ℕ) → d < 16 → is_upper_hex (upper_hex d) ≡ true
upper_hex-lt d h = ground arith

encoded_digits :
    (set : ℕ → Bool) (h l : ℕ)
    → is_upper_hex h ≡ true
    → is_upper_hex l ≡ true
    → all (is_encoded set) (b'%' ∷ h ∷ l ∷ []) ≡ true
encoded_digits set h l e e' = ground arith

all-encode_byte : (set : ℕ → Bool) (b : ℕ) → all (is_encoded set) (encode_byte set b) ≡ true
all-encode_byte set b = elim (Bool-cases (leb b 127 && not (set b))) [
  | inl e ↦ rw (e, e) refl
  | inr e ↦ rw e (
      encoded_digits set (upper_hex (b / 16 % 16)) (upper_hex (b % 16))
        (upper_hex-lt (b / 16 % 16) (omega arith)) (upper_hex-lt (b % 16) (omega arith)))
]

all-encode_all : (set : ℕ → Bool) (s : List ℕ) → all (is_encoded set) (encode_all set s) ≡ true
all-encode_all set [] = refl
all-encode_all set (b ∷ s) =
    rw (all-append (is_encoded set) (encode_byte set b) (encode_all set s), all-encode_byte set b)
      (all-encode_all set s)

pub all-encode :
    (set : ℕ → Bool) (s : List ℕ) → all (is_encoded set) (cow_bytes (encode set s)) ≡ true
all-encode set s = elim (Bool-cases (all (λ b. leb b 127 && not (set b)) s)) [
  | inl e ↦ rw e (all-encode_all set s)
  | inr e ↦ rw e (all-encode_all set s)
]

abbrev pub plain_percent : Percent
plain_percent = record {
  controls = λ b. ltb b 32 || b == 127;
  non_alphanumeric = λ b. leb b 127 && not (is_alphanumeric b);
  utf8_percent_encode = encode;
  controls_all = λ b. refl;
  non_alphanumeric_all = λ b h. ap (λ t. t && not (is_alphanumeric b)) h;
  encoded = all-encode;
}
