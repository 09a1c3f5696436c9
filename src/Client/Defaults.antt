-- ===== src/Client/Defaults.antt =====
-- src/async_impl/client.rs: how a client's default headers join those of a request.
use reqwest.Prelude.{
  ◌≡◌, refl, sym, ap, ◌∙◌, true, false, String, List, [], ◌∷◌, take, is_some, str_eq, eq_iff,
  if◌then◌else◌, Bool-cases, inl, inr,
}
use reqwest.Http.{Headers, head?, values}
use reqwest.Client.{insert_defaults}

-- What is in a list, or else the first of another.
abbrev pub or_first {ℓ} : {V : Type ℓ} → List V → List V → List V
or_first [] ys = take 1 ys
or_first (x ∷ xs) ys = x ∷ xs

or_first-nil {ℓ} : {V : Type ℓ} (xs : List V) → or_first xs [] ≡ xs
or_first-nil [] = refl
or_first-nil (x ∷ xs) = refl

or_first-or_first {ℓ} :
    {V : Type ℓ} (xs : List V) (v : V) (ys : List V)
    → or_first (or_first xs (v ∷ [])) ys ≡ or_first xs (v ∷ ys)
or_first-or_first [] v ys = refl
or_first-or_first (x ∷ xs) v ys = refl

or_first_full {ℓ} : {V : Type ℓ} (xs ys : List V) → is_some (head? xs) ≡ true → or_first xs ys ≡ xs
or_first_full [] ys e = cc
or_first_full (x ∷ xs) ys e = refl

or_first_empty {ℓ} :
    {V : Type ℓ} (xs : List V) (v : V) → is_some (head? xs) ≡ false → or_first xs (v ∷ []) ≡ v ∷ []
or_first_empty [] v e = refl
or_first_empty (x ∷ xs) v e = cc

module _ (h : Headers) where
  contains_key-get_all :
      (m : h.HeaderMap) (k : String) → h.contains_key m k ≡ is_some (head? (h.get_all m k))
  contains_key-get_all m k = h.contains_key-get m k ∙ ap is_some (h.get_head m k)

  -- One round of the loop.
  get_all-step :
      (m : h.HeaderMap) (j : String) (v : h.HeaderValue) (k : String)
      → h.get_all (if h.contains_key m j then m else h.insert m j v) k
        ≡ (if str_eq j k then or_first (h.get_all m k) (v ∷ []) else h.get_all m k)
  get_all-step m j v k = elim (Bool-cases (h.contains_key m j)) [
    | inl has ↦ elim (Bool-cases (str_eq j k)) [
      | inl same ↦
          let there =
            sym (contains_key-get_all m k)
            ∙ ap (h.contains_key m) (sym ((eq_iff j k).0 same))
            ∙ has in
          rw (has, same) (sym (or_first_full (h.get_all m k) (v ∷ []) there))
      | inr other ↦ rw (has, other) refl
    ]
    | inr lacks ↦ elim (Bool-cases (str_eq j k)) [
      | inl same ↦
          let absent =
            sym (contains_key-get_all m k)
            ∙ ap (h.contains_key m) (sym ((eq_iff j k).0 same))
            ∙ lacks in
          rw (lacks, h.get_all-insert, same) (sym (or_first_empty (h.get_all m k) v absent))
      | inr other ↦ rw (lacks, h.get_all-insert, other) refl
    ]
  ]

  -- A default header adds to a request exactly where the request has no value of that name, and then
  -- only its first value: further values of a default header are never sent.
  pub get_all-insert_defaults :
      (m : h.HeaderMap) (defaults : List (String × h.HeaderValue)) (k : String)
      → h.get_all (insert_defaults h m defaults) k ≡ or_first (h.get_all m k) (values k defaults)
  unfolding insert_defaults
  get_all-insert_defaults m [] k = sym (or_first-nil (h.get_all m k))
  get_all-insert_defaults m ((j, v) ∷ rest) k =
      get_all-insert_defaults (if h.contains_key m j then m else h.insert m j v) rest k
      ∙ rw (get_all-step m j v k) (elim (Bool-cases (str_eq j k)) [
        | inl same ↦ rw same (or_first-or_first (h.get_all m k) v (values k rest))
        | inr other ↦ rw other refl
      ])
