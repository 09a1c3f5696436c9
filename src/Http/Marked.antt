-- ===== src/Http/Marked.antt =====
-- Header maps whose values carry the mark of a sensitive value, as association lists.
use reqwest.Prelude.{
  ℕ, ◌≡◌, refl, ap, ◌∙◌, Bool, false, String, some, List, [], ◌∷◌, ◌++◌, is_some, codes, str_eq,
  eq_iff, if◌then◌else◌, arith, Bool-cases, inl, inr,
}
use reqwest.Http.{Headers, HeaderValues, head?, values, in_group, Unnamed, Distinct}
use reqwest.Http.Plain.{delete, values-delete, values-put}

abbrev pub Marked : Type 0
Marked = List ℕ × Bool

abbrev pub plain : String → Marked
plain s = (codes s, false)

abbrev pub marked_headers : Headers
marked_headers = record {
  HeaderValue = Marked;
  to_str = λ v. some v.0;
  from_str = λ s. some (plain s);
  HeaderMap = List (String × Marked);
  get_all = λ m k. values k m;
  get = λ m k. head? (values k m);
  contains_key = λ m k. is_some (head? (values k m));
  insert = λ m k v. (k, v) ∷ delete m k;
  remove = delete;
  get_head = λ m k. refl;
  contains_key-get = λ m k. refl;
  get_all-insert = values-put;
  get_all-remove = values-delete;
  iter = λ m. m;
  get_all-iter = λ m k. refl;
}

module _ {ℓ} {V : Type ℓ} where
  pub values-append :
      (m : List (String × V)) (k : String) (v : V) (j : String)
      → values j (m ++ (k, v) ∷ []) ≡ (if str_eq k j then values j m ++ v ∷ [] else values j m)
  values-append [] k v j = refl
  values-append ((i, x) ∷ m) k v j = ground (arith, values-append m k v j)

  -- Puts a value in front of its group.
  abbrev pub add : String → V → List (String × V × List V) → List (String × V × List V)
  add k v [] = (k, v, []) ∷ []
  add k v ((j, x, xs) ∷ rest) =
      if str_eq j k then (j, v, x ∷ xs) ∷ rest else (j, x, xs) ∷ add k v rest

  abbrev pub group : List (String × V) → List (String × V × List V)
  group [] = []
  group ((k, v) ∷ m) = add k v (group m)

  in_group-add :
      (k : String) (v : V) (gs : List (String × V × List V)) (j : String)
      → in_group j (add k v gs) ≡ (if str_eq k j then v ∷ in_group j gs else in_group j gs)
  in_group-add k v [] j = ground arith
  in_group-add k v ((i, x, xs) ∷ gs) j =
      ground (arith, in_group-add k v gs j, eq_iff i k, eq_iff i j, eq_iff k j)

  pub in_group-group : (m : List (String × V)) (k : String) → values k m ≡ in_group k (group m)
  in_group-group [] k = refl
  in_group-group ((j, v) ∷ m) k =
      ap (λ vs. if str_eq j k then v ∷ vs else vs) (in_group-group m k)
      ∙ ground (arith, in_group-add j v (group m) k)

  add-Unnamed :
      (k : String) (v : V) (gs : List (String × V × List V)) (j : String)
      → str_eq k j ≡ false
      → Unnamed j gs
      → Unnamed j (add k v gs)
  add-Unnamed k v [] j e u = (e, tt)
  add-Unnamed k v ((i, x, xs) ∷ gs) j e (a, u) = elim (Bool-cases (str_eq i k)) [
    | inl same ↦ rw same (a, u)
    | inr other ↦ rw other (a, add-Unnamed k v gs j e u)
  ]

  add-Distinct :
      (k : String) (v : V) (gs : List (String × V × List V)) → Distinct gs → Distinct (add k v gs)
  add-Distinct k v [] d = (tt, tt)
  add-Distinct k v ((i, x, xs) ∷ gs) (u, d) = elim (Bool-cases (str_eq i k)) [
    | inl same ↦ rw same (u, d)
    | inr other ↦
        rw other
          (add-Unnamed k v gs i (ground (arith, eq_iff k i, eq_iff i k)) u, add-Distinct k v gs d)
  ]

  pub group-Distinct : (m : List (String × V)) → Distinct (group m)
  group-Distinct [] = tt
  group-Distinct ((k, v) ∷ m) = add-Distinct k v (group m) (group-Distinct m)

abbrev pub marked_values : HeaderValues marked_headers
marked_values = record {
  empty = [];
  append = λ m k v. m ++ (k, v) ∷ [];
  groups = group;
  from_bytes = λ bytes. some (bytes, false);
  from_u64 = λ n. (n ∷ [], false);
  set_sensitive = λ v b. (v.0, b);
  is_sensitive = λ v. v.1;
  get_all-empty = λ k. refl;
  get_all-append = values-append;
  get_all-groups = in_group-group;
  groups-Distinct = group-Distinct;
  is_sensitive-set_sensitive = λ v b. refl;
  to_str-set_sensitive = λ v b. refl;
}
