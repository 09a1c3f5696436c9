-- ===== src/Cookie/Jars.antt =====
-- src/cookie.rs, `Jar`: the text of the header `Cookie`.
use reqwest.Prelude.{
  ℕ, ◌≡◌, refl, sym, ap, ◌∙◌, true, not, List, [], ◌∷◌, ◌++◌, codes, all, All, ◌==◌, if◌then◌else◌,
  append_assoc, append-nil, arith,
}
use reqwest.Http.{Headers, HeaderValues, Urls}
use reqwest.Cookie.{Cookies, join, cookies}

-- A server's reader of the header: a name up to `=`, a value up to `;`, and a blank.
pub data Mode : Type 0 where
  in_name in_value in_blank : Mode

abbrev pub on_name : ℕ → List (List ℕ × List ℕ) → List (List ℕ × List ℕ)
on_name b [] = []
on_name b ((name, value) ∷ ps) = (b ∷ name, value) ∷ ps

abbrev pub on_value : ℕ → List (List ℕ × List ℕ) → List (List ℕ × List ℕ)
on_value b [] = []
on_value b ((name, value) ∷ ps) = (name, b ∷ value) ∷ ps

unfoldable pub read : Mode → List ℕ → List (List ℕ × List ℕ)
read in_blank [] = []
read in_name [] = ([], []) ∷ []
read in_value [] = ([], []) ∷ []
read in_blank (b ∷ s) = read in_name s
read in_name (b ∷ s) =
    let value = read in_value s in
    let name = on_name b (read in_name s) in if b == b'=' then value else name
read in_value (b ∷ s) =
    let more = ([], []) ∷ read in_blank s in
    let value = on_value b (read in_value s) in if b == b';' then more else value

-- A name without `=`, and a value without `;`.
abbrev pub IsPlain : List ℕ × List ℕ → Type 0
IsPlain (name, value) =
    (all (λ b. not (b == b'=')) name ≡ true) × (all (λ b. not (b == b';')) value ≡ true)

read-name :
    (name rest : List ℕ) (value : List ℕ) (ps : List (List ℕ × List ℕ))
    → all (λ b. not (b == b'=')) name ≡ true
    → read in_value rest ≡ ([], value) ∷ ps
    → read in_name (name ++ b'=' ∷ rest) ≡ (name, value) ∷ ps
unfolding read
read-name [] rest value ps h e = e
read-name (b ∷ name) rest value ps h e =
    let ih = read-name name rest value ps (ground arith) e in rw ih (ground arith)

read-value :
    (value rest : List ℕ) (ps : List (List ℕ × List ℕ))
    → all (λ b. not (b == b';')) value ≡ true
    → read in_value rest ≡ ([], []) ∷ ps
    → read in_value (value ++ rest) ≡ ([], value) ∷ ps
unfolding read
read-value [] rest ps h e = e
read-value (b ∷ value) rest ps h e =
    let ih = read-value value rest ps (ground arith) e in rw ih (ground arith)

module _ {u : Urls} (c : Cookies u) where
  read-join :
      (p : List ℕ × List ℕ) (ps : List (List ℕ × List ℕ))
      → All IsPlain (p ∷ ps)
      → read in_name (join c (p ∷ ps)) ≡ p ∷ ps
  unfolding join read
  read-join (name, value) [] ((n, v), _) =
      read-name name value value [] n
        (ap (read in_value) (sym (append-nil value)) ∙ read-value value [] [] v refl)
  read-join (name, value) (q ∷ ps) ((n, v), plain) =
      let rest = codes "; " ++ join c (q ∷ ps) in
      ap (read in_name) (append_assoc name (b'=' ∷ value) rest)
      ∙ read-name name (value ++ rest) value (q ∷ ps) n
          (read-value value rest (q ∷ ps) v (ap (λ more. ([], []) ∷ more) (read-join q ps plain)))

  join-nonempty :
      (p : List ℕ × List ℕ) (ps : List (List ℕ × List ℕ))
      → (b : ℕ) × (bs : List ℕ) × (join c (p ∷ ps) ≡ b ∷ bs)
  unfolding join
  join-nonempty ([], value) [] = (_, _, refl)
  join-nonempty (b ∷ name, value) [] = (_, _, refl)
  join-nonempty ([], value) (q ∷ ps) = (_, _, refl)
  join-nonempty (b ∷ name, value) (q ∷ ps) = (_, _, refl)

  -- The header `Cookie` of a jar: a server that reads it gets back exactly the names and values that
  -- the store has for the URL, in their order, where no name has a `=` and no value a `;`.
  pub cookies-read :
      {h : Headers} (v : HeaderValues h) (store : c.Store) (url : u.Url) (p : List ℕ × List ℕ)
      (ps : List (List ℕ × List ℕ))
      → c.get_request_values store url ≡ p ∷ ps
      → All IsPlain (p ∷ ps)
      → (text : List ℕ) × (cookies c v store url ≡ v.from_bytes text) × (read in_name text ≡ p ∷ ps)
  unfolding cookies
  cookies-read v store url p ps e plain =
      let (b, bs, same) = join-nonempty p ps in
      (b ∷ bs, rw (cookies, e, same) refl, ap (read in_name) (sym same) ∙ read-join p ps plain)
