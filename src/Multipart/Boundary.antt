-- ===== src/Multipart/Boundary.antt =====
-- src/async_impl/multipart.rs, `gen_boundary`: what a boundary looks like.
use reqwest.Prelude.{
  ℕ, zero, suc, ◌+◌, ◌-◌, ◌*◌, ◌/◌, ◌%◌, ◌^◌, ◌<◌, ◌≡◌, refl, sym, ap, ◌∙◌, Bool, true, ◌&&◌, ◌||◌,
  List, [], ◌∷◌, ◌++◌, length, length-append, append-nil, take, drop, all, leb, ◌==◌, if◌then◌else◌,
  arith,
}
use reqwest.Multipart.{hex_digit, hex, gen_boundary}

abbrev pub is_boundary_byte : ℕ → Bool
is_boundary_byte b = (leb 48 b && leb b 57) || (leb 97 b && leb b 102) || b == b'-'

length-hex : (digits n : ℕ) → length (hex digits n) ≡ digits
unfolding hex
length-hex zero n = refl
length-hex (suc digits) n = omega (
  arith,
  length-append (hex digits (n / 16)) (hex_digit (n % 16) ∷ []),
  length-hex digits (n / 16),
)

pub all-append : (p : ℕ → Bool) (xs ys : List ℕ) → all p (xs ++ ys) ≡ (all p xs && all p ys)
all-append p [] ys = refl
all-append p (x ∷ xs) ys = ground (arith, all-append p xs ys)

hex_digit-IsHex : (d : ℕ) → d < 16 → is_boundary_byte (hex_digit d) ≡ true
hex_digit-IsHex d h = ground arith

all-hex : (digits n : ℕ) → all is_boundary_byte (hex digits n) ≡ true
unfolding hex
all-hex zero n = refl
all-hex (suc digits) n =
    rw
      (
        all-append is_boundary_byte (hex digits (n / 16)) (hex_digit (n % 16) ∷ []),
        all-hex digits (n / 16),
      )
      (ground (arith, hex_digit-IsHex (n % 16) (omega arith)))

-- The value of hexadecimal digits, read behind those before.
abbrev digit_value : ℕ → ℕ
digit_value c = if leb c 57 then c - 48 else c - 87

abbrev pub read_hex : ℕ → List ℕ → ℕ
read_hex before [] = before
read_hex before (c ∷ s) = read_hex (16 * before + digit_value c) s

read_hex-append :
    (before : ℕ) (xs ys : List ℕ) → read_hex before (xs ++ ys) ≡ read_hex (read_hex before xs) ys
read_hex-append before [] ys = refl
read_hex-append before (x ∷ xs) ys = read_hex-append (16 * before + digit_value x) xs ys

digit_value-hex_digit : (d : ℕ) → d < 16 → digit_value (hex_digit d) ≡ d
digit_value-hex_digit d h = ground arith

read_hex-hex : (digits n : ℕ) → n < 16 ^ digits → read_hex 0 (hex digits n) ≡ n
unfolding hex
read_hex-hex zero n h = omega arith
read_hex-hex (suc digits) n h =
    let low = digit_value-hex_digit (n % 16) (omega arith) in
    let high = read_hex-hex digits (n / 16) (omega arith) in
    rw (read_hex-append 0 (hex digits (n / 16)) (hex_digit (n % 16) ∷ []), high, low) (omega arith)

take-append : (k : ℕ) (xs ys : List ℕ) → length xs ≡ k → take k (xs ++ ys) ≡ xs
take-append zero [] ys e = refl
take-append (suc k) [] ys e = absurd (omega arith)
take-append zero (x ∷ xs) ys e = absurd (omega arith)
take-append (suc k) (x ∷ xs) ys e = ap (λ zs. x ∷ zs) (take-append k xs ys (omega arith))

drop-append :
    (k : ℕ) (xs : List ℕ) (y : ℕ) (ys : List ℕ) → length xs ≡ k → drop (suc k) (xs ++ y ∷ ys) ≡ ys
drop-append zero [] y ys e = refl
drop-append (suc k) [] y ys e = absurd (omega arith)
drop-append zero (x ∷ xs) y ys e = absurd (omega arith)
drop-append (suc k) (x ∷ xs) y ys e = drop-append k xs y ys (omega arith)

read_group : (n : ℕ) (ys : List ℕ) → n < 2 ^ 64 → read_hex 0 (take 16 (hex 16 n ++ ys)) ≡ n
read_group n ys h =
    ap (read_hex 0) (take-append 16 (hex 16 n) ys (length-hex 16 n)) ∙ read_hex-hex 16 n h

drop-hex : (n y : ℕ) (ys : List ℕ) → drop 17 (hex 16 n ++ y ∷ ys) ≡ ys
drop-hex n y ys = drop-append 16 (hex 16 n) y ys (length-hex 16 n)

ap4 :
    {a a' b b' c c' d d' : ℕ}
    → a ≡ a'
    → b ≡ b'
    → c ≡ c'
    → d ≡ d'
    → ◌≡◌ {A = ℕ × ℕ × ℕ × ℕ} (a, b, c, d) (a', b', c', d')
ap4 p q r s = cc

-- The four groups of a boundary, read as numbers.
pub read_boundary : List ℕ → ℕ × ℕ × ℕ × ℕ
read_boundary s =
    let behind_a = drop 17 s in
    let behind_b = drop 17 behind_a in
    let behind_c = drop 17 behind_b in
    (
      read_hex 0 (take 16 s),
      read_hex 0 (take 16 behind_a),
      read_hex 0 (take 16 behind_b),
      read_hex 0 (take 16 behind_c),
    )

-- The four random numbers, each of 64 bits, can be read back from the boundary that they make.
pub read_boundary-gen_boundary :
    (a b c d : ℕ)
    → a < 2 ^ 64
    → b < 2 ^ 64
    → c < 2 ^ 64
    → d < 2 ^ 64
    → read_boundary (gen_boundary a b c d) ≡ (a, b, c, d)
unfolding read_boundary gen_boundary
read_boundary-gen_boundary a b c d h i j k =
    let from_d = hex 16 d in
    let from_c = hex 16 c ++ b'-' ∷ from_d in
    let from_b = hex 16 b ++ b'-' ∷ from_c in
    let read : List ℕ → ℕ = λ s. read_hex 0 (take 16 s) in
    let behind_a : drop 17 (gen_boundary a b c d) ≡ from_b = drop-hex a b'-' from_b in
    let behind_b : drop 17 (drop 17 (gen_boundary a b c d)) ≡ from_c =
      ap (drop 17) behind_a ∙ drop-hex b b'-' from_c in
    let behind_c : drop 17 (drop 17 (drop 17 (gen_boundary a b c d))) ≡ from_d =
      ap (drop 17) behind_b ∙ drop-hex c b'-' from_d in
    ap4 (read_group a (b'-' ∷ from_b) h) (ap read behind_a ∙ read_group b (b'-' ∷ from_c) i)
      (ap read behind_b ∙ read_group c (b'-' ∷ from_d) j)
      (ap read behind_c ∙ ap read (sym (append-nil from_d)) ∙ read_group d [] k)

-- A boundary has 67 bytes, within the 70 that multipart allows, and only hexadecimal digits and
-- dashes, so it needs no quoting.
pub gen_boundary-format :
    (a b c d : ℕ)
    → (length (gen_boundary a b c d) ≡ 67) × (all is_boundary_byte (gen_boundary a b c d) ≡ true)
unfolding gen_boundary
gen_boundary-format a b c d =
    (simp (length-append, length-hex) refl, simp (all-append, all-hex) refl)
