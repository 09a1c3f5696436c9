-- ===== src/Logging/Lines.antt =====
-- src/logging.rs, `headers_to_string`: the lines that are printed.
use reqwest.Prelude.{
  ℕ, suc, ◌+◌, ◌/◌, ◌%◌, ◌≡◌, refl, ap, ◌∙◌, false, String, some, List, [], ◌∷◌, ◌++◌, map, length,
  codes, ltb, ◌==◌, if◌then◌else◌, All, Bool-cases, Option-cases, inl, inr, arith,
}
use reqwest.Http.{Headers}
use reqwest.Logging.{
  decimal, commas, debug_bytes, join_lines, shown, header_line, headers_to_string,
}

unfoldable pub newlines : List ℕ → ℕ
newlines [] = 0
newlines (c ∷ cs) = let rest = newlines cs in if c == 10 then suc rest else rest

newlines-append : (xs ys : List ℕ) → newlines (xs ++ ys) ≡ newlines xs + newlines ys
unfolding newlines
newlines-append [] ys = omega arith
newlines-append (c ∷ cs) ys = elim (Bool-cases (c == 10)) [
  | inl line ↦ rw (line, newlines-append cs ys) (omega arith)
  | inr other ↦ rw (other, newlines-append cs ys) refl
]

newlines-cons : (c : ℕ) (cs : List ℕ) → (c == 10) ≡ false → newlines (c ∷ cs) ≡ newlines cs
unfolding newlines
newlines-cons c cs other = rw other refl

newlines-break : (cs : List ℕ) → newlines (10 ∷ cs) ≡ suc (newlines cs)
unfolding newlines
newlines-break cs = refl

length-map {ℓ κ} :
    {A : Type ℓ} {B : Type κ} (f : A → B) (xs : List A) → length (map f xs) ≡ length xs
length-map f [] = refl
length-map f (x ∷ xs) = ap suc (length-map f xs)

newlines-add : (n : ℕ) (cs : List ℕ) → newlines ((48 + n) ∷ cs) ≡ newlines cs
newlines-add n cs = newlines-cons (48 + n) cs (ground arith)

newlines-nil : newlines [] ≡ 0
unfolding newlines
newlines-nil = refl

newlines-decimal : (n : ℕ) → newlines (decimal n) ≡ 0
newlines-decimal n = elim (Bool-cases (ltb n 10)) [
  | inl one ↦ rw one (newlines-add n [] ∙ newlines-nil)
  | inr more ↦ elim (Bool-cases (ltb n 100)) [
    | inl two ↦
        rw (more, two)
          (newlines-add (n / 10) ((48 + n % 10) ∷ []) ∙ newlines-add (n % 10) [] ∙ newlines-nil)
    | inr three ↦
        rw (more, three)
          (newlines-add (n / 100) ((48 + n / 10 % 10) ∷ (48 + n % 10) ∷ [])
            ∙ newlines-add (n / 10 % 10) ((48 + n % 10) ∷ [])
            ∙ newlines-add (n % 10) []
            ∙ newlines-nil)
  ]
]

newlines-commas : (bytes : List ℕ) → newlines (commas bytes) ≡ 0
newlines-commas [] = newlines-nil
newlines-commas (b ∷ []) = newlines-decimal b
newlines-commas (b ∷ c ∷ rest) =
    newlines-append (decimal b) (b',' ∷ b' ' ∷ commas (c ∷ rest))
    ∙ rw
        (
          newlines-decimal b,
          newlines-cons b',' (b' ' ∷ commas (c ∷ rest)) refl,
          newlines-cons b' ' (commas (c ∷ rest)) refl,
          newlines-commas (c ∷ rest),
        )
        refl

newlines-debug_bytes : (bytes : List ℕ) → newlines (debug_bytes bytes) ≡ 0
newlines-debug_bytes bytes =
    newlines-cons b'[' (commas bytes ++ b']' ∷ []) refl
    ∙ newlines-append (commas bytes) (b']' ∷ [])
    ∙ rw (newlines-commas bytes, newlines-cons b']' [] refl, newlines-nil) refl

-- A text without a line break.
abbrev pub OneLine : List ℕ → Type 0
OneLine text = newlines text ≡ 0

newlines-join_lines :
    (l : List ℕ) (ls : List (List ℕ))
    → All OneLine (l ∷ ls)
    → newlines (join_lines (l ∷ ls)) ≡ length ls
newlines-join_lines l [] (one, none_left) = one
newlines-join_lines l (m ∷ ls) (one, more) =
    newlines-append l (10 ∷ join_lines (m ∷ ls))
    ∙ rw (one, newlines-break (join_lines (m ∷ ls)), newlines-join_lines m ls more) (omega arith)

module _ (h : Headers) (as_bytes : h.HeaderValue → List ℕ) where
  shown-OneLine :
      (value : h.HeaderValue)
      → ((text : List ℕ) → h.to_str value ≡ some text → OneLine text)
      → OneLine (shown h as_bytes value)
  shown-OneLine value read = elim (Option-cases (h.to_str value)) [
    | inl a ↦ rw (shown, a) (newlines-debug_bytes (as_bytes value))
    | inr (text, a) ↦ rw (shown, a) (read text a)
  ]

  header_line-OneLine :
      (dir : ℕ) (name : String) (value : h.HeaderValue)
      → (dir == 10) ≡ false
      → OneLine (codes name)
      → ((text : List ℕ) → h.to_str value ≡ some text → OneLine text)
      → OneLine (header_line h as_bytes dir (name, value))
  header_line-OneLine dir name value ahead named read =
      newlines-cons dir (b' ' ∷ codes name ++ b':' ∷ b' ' ∷ shown h as_bytes value) ahead
      ∙ newlines-cons b' ' (codes name ++ b':' ∷ b' ' ∷ shown h as_bytes value) refl
      ∙ newlines-append (codes name) (b':' ∷ b' ' ∷ shown h as_bytes value)
      ∙ rw
          (
            named,
            newlines-cons b':' (b' ' ∷ shown h as_bytes value) refl,
            newlines-cons b' ' (shown h as_bytes value) refl,
            shown-OneLine value read,
          )
          refl

  lines-OneLine :
      (dir : ℕ) (entries : List (String × h.HeaderValue))
      → (dir == 10) ≡ false
      → All (λ e. OneLine (codes e.0)) entries
      → ((value : h.HeaderValue) (text : List ℕ) → h.to_str value ≡ some text → OneLine text)
      → All OneLine (map (header_line h as_bytes dir) entries)
  lines-OneLine dir [] ahead named read = tt
  lines-OneLine dir ((name, value) ∷ entries) ahead (one, more) read = (
    header_line-OneLine dir name value ahead one (read value),
    lines-OneLine dir entries ahead more read,
  )

  -- No header can forge a line of the log: where neither names nor the texts that values are read as
  -- have a line break, the headers are printed as exactly one line each, whatever the bytes of the
  -- values that are no text.
  pub newlines-headers_to_string :
      (m : h.HeaderMap) (dir : ℕ) (e : String × h.HeaderValue)
      (entries : List (String × h.HeaderValue))
      → h.iter m ≡ e ∷ entries
      → (dir == 10) ≡ false
      → All (λ entry. OneLine (codes entry.0)) (e ∷ entries)
      → ((value : h.HeaderValue) (text : List ℕ) → h.to_str value ≡ some text → OneLine text)
      → newlines (headers_to_string h as_bytes m dir) ≡ length entries
  unfolding headers_to_string
  newlines-headers_to_string m dir e entries holds ahead named read = rw holds (
      newlines-join_lines (header_line h as_bytes dir e) (map (header_line h as_bytes dir) entries)
        (lines-OneLine dir (e ∷ entries) ahead named read)
      ∙ length-map (header_line h as_bytes dir) entries)
