-- ===== src/Retry/Budget/Isolation.antt =====
-- src/retry.rs, `mod budget`: the invariant of the map, and the budgets of other hosts.
use reqwest.Prelude.{
  ℕ, zero, suc, ◌≤◌, ◌<◌, ◌≡◌, ◌≢◌, refl, ap, ◌∙◌, false, String, Option, some, List, [], ◌∷◌, ◌++◌,
  length, length-append, leb, str_eq, eq_iff, arith, ◌>>=◌, Bool-cases, Option-cases, inl, inr,
}
use text.Mathlib.TextPositions.{eq_refl}
use reqwest.Retry.Budget.{
  host_key, TpsBudget, max_hosts, get_elem?, modify, lookup, Hosts, add, get, deposit_at,
  withdraw_at,
}

length-modify {ℓ} :
    {A : Type ℓ} (xs : List A) (i : ℕ) (f : A → A) → length (modify xs i f) ≡ length xs
length-modify [] i f = refl
length-modify (x ∷ xs) zero f = refl
length-modify (x ∷ xs) (suc i) f = ap suc (length-modify xs i f)

get_elem?-modify_ne {ℓ} :
    {A : Type ℓ} (xs : List A) (i j : ℕ) (f : A → A)
    → i ≢ j
    → get_elem? (modify xs i f) j ≡ get_elem? xs j
get_elem?-modify_ne [] i j f h = refl
get_elem?-modify_ne (x ∷ xs) zero zero f h = absurd (h refl)
get_elem?-modify_ne (x ∷ xs) zero (suc j) f h = refl
get_elem?-modify_ne (x ∷ xs) (suc i) zero f h = refl
get_elem?-modify_ne (x ∷ xs) (suc i) (suc j) f h = get_elem?-modify_ne xs i j f (λ e. h (ap suc e))

get_elem?-append {ℓ} :
    {A : Type ℓ} (xs ys : List A) (i : ℕ) → i < length xs → get_elem? (xs ++ ys) i ≡ get_elem? xs i
get_elem?-append [] ys i h = elim h [ ]
get_elem?-append (x ∷ xs) ys zero h = refl
get_elem?-append (x ∷ xs) ys (suc i) h = get_elem?-append xs ys i (omega arith)

-- Handles fall along the map and stay under the bound, so no two entries have one handle.
abbrev pub Below : ℕ → List (String × ℕ) → Type 0
Below n [] = Unit {0}
Below n ((k, arc) ∷ m) = (arc < n) × Below arc m

Below-mono : {n n' : ℕ} (m : List (String × ℕ)) → n ≤ n' → Below n m → Below n' m
Below-mono [] h b = tt
Below-mono ((k, arc) ∷ m) h b = (omega arith, b.1)

lookup-lt :
    (n : ℕ) (m : List (String × ℕ)) (k : String) {arc : ℕ}
    → Below n m
    → lookup k m ≡ some arc
    → arc < n
lookup-lt n [] k b e = cc
lookup-lt n ((j, i) ∷ m) k {arc} (lt, b) e = elim (Bool-cases (str_eq j k)) [
  | inl same ↦ let hit : i ≡ arc = ground arith in omega arith
  | inr other ↦ let later = lookup-lt i m k b (rw other at e) in omega arith
]

lookup_injective :
    (n : ℕ) (m : List (String × ℕ)) (j k : String) {arc : ℕ}
    → Below n m
    → lookup j m ≡ some arc
    → lookup k m ≡ some arc
    → j ≡ k
lookup_injective n [] j k b e e' = cc
lookup_injective n ((i, x) ∷ m) j k {arc} (lt, b) e e' = ground (
  arith,
  eq_iff i j,
  eq_iff i k,
  lookup-lt x m j {arc = arc} b,
  lookup-lt x m k {arc = arc} b,
  lookup_injective x m j k {arc = arc} b,
)

module _ {t : TpsBudget} where
  pub record IsValid (hosts : Hosts t) : Type 0 where
    pub bounded : length hosts.map ≤ max_hosts
    pub handles : Below (length hosts.store) hosts.map

  add-IsValid :
      (percent : t.Percent) (host : String) (hosts : Hosts t)
      → IsValid hosts
      → IsValid (add percent host hosts).0
  unfolding add
  add-IsValid percent host hosts v =
      let len = length-append hosts.store (t.new percent ∷ []) in
      record { bounded = ground arith; handles = ground arith }

  -- `get` keeps the map of budgets valid: at most 512 hosts, and for each of them a handle that the
  -- store has and that no other host has.
  pub get-IsValid :
      (percent : t.Percent) (authority : Option String) (hosts : Hosts t)
      → IsValid hosts
      → IsValid (get percent authority hosts).0
  unfolding get
  get-IsValid percent authority hosts v =
      elim (Option-cases (lookup (host_key authority) hosts.map)) [
        | inl e ↦ rw (e, get) (add-IsValid percent (host_key authority) hosts v)
        | inr (arc, e) ↦ rw (e, get) v
      ]

  pub deposit_at-IsValid :
      (now arc : ℕ) (hosts : Hosts t) → IsValid hosts → IsValid (deposit_at now arc hosts)
  unfolding deposit_at
  deposit_at-IsValid now arc hosts v = record {
    bounded = v.bounded;
    handles = rw (length-modify hosts.store arc (t.deposit now)) v.handles;
  }

  pub withdraw_at-IsValid :
      (now arc : ℕ) (hosts : Hosts t) → IsValid hosts → IsValid (withdraw_at now arc hosts).0
  unfolding withdraw_at
  withdraw_at-IsValid now arc hosts v = record {
    bounded = v.bounded;
    handles = rw (length-modify hosts.store arc (λ b. (t.withdraw now b).0)) v.handles;
  }

  -- The handle that `get` returns is the one that the map then holds for the host.
  lookup-get :
      (percent : t.Percent) (authority : Option String) (hosts : Hosts t)
      → lookup (host_key authority) (get percent authority hosts).0.map
        ≡ some (get percent authority hosts).1
  unfolding get add
  lookup-get percent authority hosts = ground (arith, eq_refl (host_key authority))

  get_known :
      (percent : t.Percent) (authority : Option String) (hosts : Hosts t) (arc : ℕ)
      → lookup (host_key authority) hosts.map ≡ some arc
      → get percent authority hosts ≡ (hosts, arc)
  unfolding get
  get_known percent authority hosts arc e = rw (e, get)

  -- Asking again for the same host changes nothing and gives the same handle.
  pub get-get :
      (percent : t.Percent) (authority : Option String) (hosts : Hosts t)
      → get percent authority (get percent authority hosts).0 ≡ get percent authority hosts
  get-get percent authority hosts =
      get_known percent authority (get percent authority hosts).0 _
        (lookup-get percent authority hosts)

  -- The budget that the map holds for a host.
  abbrev pub budget_of : String → Hosts t → Option t.Budget
  budget_of host hosts = lookup host hosts.map >>= get_elem? hosts.store

  modify-budget_of :
      (j k : String) (hosts : Hosts t) (arc : ℕ) (f : t.Budget → t.Budget)
      → IsValid hosts
      → lookup k hosts.map ≡ some arc
      → j ≢ k
      → budget_of j (record hosts { store = modify hosts.store arc f }) ≡ budget_of j hosts
  modify-budget_of j k hosts arc f v e h = elim (Option-cases (lookup j hosts.map)) [
    | inl missing ↦ rw missing
    | inr (i, found) ↦ rw found (
        get_elem?-modify_ne hosts.store arc i f
          (λ same. h (lookup_injective _ hosts.map j k v.handles (rw (← same) at found) e)))
  ]

  add-budget_of :
      (percent : t.Percent) (host j : String) (hosts : Hosts t)
      → IsValid hosts
      → length hosts.map < max_hosts
      → j ≢ host
      → budget_of j (add percent host hosts).0 ≡ budget_of j hosts
  unfolding add
  add-budget_of percent host j hosts v room h =
      let small : leb max_hosts (length hosts.map) ≡ false = ground arith in
      let differs : str_eq host j ≡ false = ground (arith, eq_iff host j, h) in
      elim (Option-cases (lookup j hosts.map)) [
        | inl missing ↦ rw (small, differs, missing)
        | inr (i, found) ↦
            rw (small, differs, found)
              (get_elem?-append hosts.store (t.new percent ∷ []) i
                (lookup-lt (length hosts.store) hosts.map j v.handles found))
      ]

  get-budget_of :
      (percent : t.Percent) (authority : Option String) (j : String) (hosts : Hosts t)
      → IsValid hosts
      → length hosts.map < max_hosts
      → j ≢ host_key authority
      → budget_of j (get percent authority hosts).0 ≡ budget_of j hosts
  unfolding get
  get-budget_of percent authority j hosts v room h =
      elim (Option-cases (lookup (host_key authority) hosts.map)) [
        | inl e ↦ rw (e, get) (add-budget_of percent (host_key authority) j hosts v room h)
        | inr (arc, e) ↦ rw (e, get)
      ]

  -- While a valid map has room for one more host, looking a host's budget up and depositing to it
  -- or withdrawing from it leaves the budget of every other host as it was.
  pub budget_of_other :
      (percent : t.Percent) (now : ℕ) (authority : Option String) (j : String) (hosts : Hosts t)
      → IsValid hosts
      → length hosts.map < max_hosts
      → j ≢ host_key authority
      → let found = get percent authority hosts in
        (budget_of j (deposit_at now found.1 found.0) ≡ budget_of j hosts)
        × (budget_of j (withdraw_at now found.1 found.0).0 ≡ budget_of j hosts)
  unfolding deposit_at withdraw_at
  budget_of_other percent now authority j hosts v room h =
      let found = get percent authority hosts in
      let held = lookup-get percent authority hosts in
      let valid = get-IsValid percent authority hosts v in
      let kept = get-budget_of percent authority j hosts v room h in
      (
        modify-budget_of j (host_key authority) found.0 found.1 (t.deposit now) valid held h ∙ kept,
        modify-budget_of j (host_key authority) found.0 found.1 (λ b. (t.withdraw now b).0) valid
              held h
            ∙ kept,
      )
