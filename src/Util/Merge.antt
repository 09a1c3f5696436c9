-- ===== src/Util/Merge.antt =====
-- src/util.rs, `replace_headers`: what the merged map holds.
use reqwest.Prelude.{
  ◌≡◌, refl, sym, ap, ◌∙◌, String, Option, none, some, List, [], ◌∷◌, ◌++◌, str_eq, eq_iff,
  if◌then◌else◌, Bool-cases, inl, inr, arith, append_assoc, append-nil,
}
use reqwest.Http.{Headers, HeaderValues, in_group, Unnamed, Distinct}
use reqwest.Util.{unnamed, into_iter, replace, replace_headers}

-- One list, or another where it is empty.
abbrev pub or_all {ℓ} : {V : Type ℓ} → List V → List V → List V
or_all [] ys = ys
or_all (x ∷ xs) ys = x ∷ xs

in_group-Unnamed {ℓ} :
    {V : Type ℓ} (k : String) (gs : List (String × V × List V)) → Unnamed k gs → in_group k gs ≡ []
in_group-Unnamed k [] u = refl
in_group-Unnamed k ((j, x, xs) ∷ gs) (a, u) = rw a (in_group-Unnamed k gs u)

module _ {h : Headers} (v : HeaderValues h) where
  -- A result of the loop with what it holds under each name.
  abbrev Holds : (String → List h.HeaderValue) → Option h.HeaderMap → Type 0
  Holds wanted result =
      (out : h.HeaderMap) × (result ≡ some out) × ((k : String) → h.get_all out k ≡ wanted k)

  abbrev appended : String → List h.HeaderValue → h.HeaderMap → String → List h.HeaderValue
  appended key xs dst k = if str_eq key k then h.get_all dst k ++ xs else h.get_all dst k

  -- The further values of a name are appended to its entry.
  replace-unnamed :
      (dst : h.HeaderMap) (key : String) (xs : List h.HeaderValue)
      (rest : List (Option String × h.HeaderValue))
      → (mid : h.HeaderMap) × (replace v dst (some key) (unnamed v xs ++ rest)
          ≡ replace v mid (some key) rest)
        × ((k : String) → h.get_all mid k ≡ appended key xs dst k)
  unfolding replace
  replace-unnamed dst key [] rest =
      (dst, refl, λ k. let same = append-nil (h.get_all dst k) in ground arith)
  replace-unnamed dst key (x ∷ xs) rest =
      let (mid, runs, holds) = replace-unnamed (v.append dst key x) key xs rest in
      (
        mid,
        runs,
        λ k. holds k ∙ elim (Bool-cases (str_eq key k)) [
          | inl same ↦
              rw (same, v.get_all-append, same) (append_assoc (h.get_all dst k) (x ∷ []) xs)
          | inr other ↦ rw (other, v.get_all-append, other) refl
        ],
      )

  replace-groups :
      (dst : h.HeaderMap) (prev : Option String)
      (gs : List (String × h.HeaderValue × List h.HeaderValue))
      → Distinct gs
      → Holds (λ k. or_all (in_group k gs) (h.get_all dst k)) (replace v dst prev (into_iter v gs))
  unfolding replace
  replace-groups dst prev [] d = (dst, refl, λ k. refl)
  replace-groups dst prev ((name, x, xs) ∷ gs) (u, d) =
      let (mid, runs, holds) = replace-unnamed (h.insert dst name x) name xs (into_iter v gs) in
      let (out, ends, has) = replace-groups mid (some name) gs d in
      (
        out,
        runs ∙ ends,
        λ k. has k ∙ elim (Bool-cases (str_eq name k)) [
          | inl same ↦
              let there = (eq_iff name k).0 same in
              let none_left = ap (λ j. in_group j gs) (sym there) ∙ in_group-Unnamed name gs u in
              rw (same, none_left, holds k, same, h.get_all-insert, same) refl
          | inr other ↦ rw (other, holds k, other, h.get_all-insert, other) refl
        ],
      )

  -- Merging headers into those of a request never panics. A name of the new headers has exactly
  -- their values, in their order, in place of the old ones; every other name keeps its values.
  pub replace_headers_lem :
      (dst src : h.HeaderMap)
      → (out : h.HeaderMap) × (replace_headers v dst src ≡ some out)
        × ((k : String) → h.get_all out k ≡ or_all (h.get_all src k) (h.get_all dst k))
  unfolding replace_headers
  replace_headers_lem dst src =
      let (out, ends, has) = replace-groups dst none (v.groups src) (v.groups-Distinct src) in
      (out, ends, λ k. rw (v.get_all-groups src k) (has k))
