-- ===== src/Util/Escape.antt =====
-- src/util.rs, `Escape`: bytes printed as the inside of a Rust byte string.
use reqwest.Prelude.{
  ℕ, ◌+◌, ◌*◌, ◌-◌, ◌/◌, ◌%◌, ◌<◌, ◌≡◌, refl, ap, ◌∙◌, Bool, true, ◌&&◌, ◌||◌, Option, none, some,
  List, [], ◌∷◌, ◌++◌, codes, all, All, leb, ltb, ◌==◌, if◌then◌else◌, append_assoc, arith,
}
use reqwest.Multipart.{hex_digit}
use reqwest.Multipart.Boundary.{all-append}

-- The text of one byte.
unfoldable pub escape_byte : ℕ → List ℕ
escape_byte c =
    if c == b'\n'
    then codes "\\n"
    else if c == b'\r'
    then codes "\\r"
    else if c == b'\t'
    then codes "\\t"
    else if c == b'\\' || c == b'"'
    then b'\\' ∷ c ∷ []
    else if c == 0
    then codes "\\0"
    else if leb 32 c && ltb c 127
    then c ∷ []
    else b'\\' ∷ b'x' ∷ hex_digit (c / 16) ∷ hex_digit (c % 16) ∷ []

unfoldable pub display : List ℕ → List ℕ
unfolding escape_byte
display [] = []
display (c ∷ bytes) = escape_byte c ++ display bytes

unfoldable pub debug : List ℕ → List ℕ
unfolding display
debug bytes = codes "b\"" ++ (display bytes ++ b'"' ∷ [])

-- A reader of byte strings, behind the opening quote: it ends at a quote that is not escaped.
pub data Mode : Type 0 where
  plain escaped high : Mode
  low : ℕ → Mode

abbrev pub push : ℕ → Option (List ℕ × List ℕ) → Option (List ℕ × List ℕ)
push b none = none
push b (some (read, rest)) = some (b ∷ read, rest)

abbrev pub digit : ℕ → ℕ
digit c = if ltb c 58 then c - 48 else c - 87

abbrev pub meaning : ℕ → ℕ
meaning c =
    if c == b'n'
    then 10
    else if c == b'r'
    then 13
    else if c == b't'
    then 9
    else if c == b'0'
    then 0
    else c

unfoldable pub unescape : Mode → List ℕ → Option (List ℕ × List ℕ)
unescape mode [] = none
unescape plain (c ∷ s) =
    let next = unescape escaped s in
    let more = push c (unescape plain s) in
    if c == b'"' then some ([], s) else if c == b'\\' then next else more
unescape escaped (c ∷ s) =
    let digits = unescape high s in
    let more = push (meaning c) (unescape plain s) in if c == b'x' then digits else more
unescape high (c ∷ s) = unescape (low (digit c)) s
unescape (low d) (c ∷ s) = push (d * 16 + digit c) (unescape plain s)

abbrev pub IsByte : ℕ → Type 0
IsByte c = c < 256

digit-hex_digit : (d : ℕ) → d < 16 → digit (hex_digit d) ≡ d
digit-hex_digit d h = ground arith

unescape-escape_byte :
    (c : ℕ) (s : List ℕ) → c < 256 → unescape plain (escape_byte c ++ s) ≡ push c (unescape plain s)
unfolding unescape escape_byte
unescape-escape_byte c s h =
    let top = digit-hex_digit (c / 16) (omega arith) in
    let bottom = digit-hex_digit (c % 16) (omega arith) in ground (arith, top, bottom)

abbrev pub is_shown : ℕ → Bool
is_shown c = leb 32 c && ltb c 127

hex_digit-shown : (d : ℕ) → d < 16 → is_shown (hex_digit d) ≡ true
hex_digit-shown d h = ground arith

escape_byte-shown : (c : ℕ) → c < 256 → all is_shown (escape_byte c) ≡ true
unfolding escape_byte
escape_byte-shown c h =
    let top = hex_digit-shown (c / 16) (omega arith) in
    let bottom = hex_digit-shown (c % 16) (omega arith) in ground (arith, top, bottom)

-- Printed bytes are ASCII that can be shown, and a reader of Rust's byte strings gets exactly the
-- bytes back and stops right behind the closing quote, whatever the bytes are.
pub unescape-display :
    (bytes rest : List ℕ)
    → All IsByte bytes
    → (unescape plain (display bytes ++ b'"' ∷ rest) ≡ some (bytes, rest))
      × (all is_shown (display bytes) ≡ true)
unfolding display unescape
unescape-display [] rest h = (refl, refl)
unescape-display (c ∷ bytes) rest (h, hs) =
    let (reads, shows) = unescape-display bytes rest hs in
    (
      ap (unescape plain) (append_assoc (escape_byte c) (display bytes) (b'"' ∷ rest))
          ∙ unescape-escape_byte c (display bytes ++ b'"' ∷ rest) h
          ∙ ap (push c) reads,
      all-append is_shown (escape_byte c) (display bytes) ∙ rw (escape_byte-shown c h) shows,
    )
