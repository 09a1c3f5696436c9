-- ===== src/Retry/Budget.antt =====
-- src/retry.rs, `mod budget`: a retry budget for each host.
-- The budgets lie in a store of all that were ever created, and an `Arc<TpsBudget>` is an index of
-- it, so a handle that outlives a reset of the map still has its budget.
pub mod Isolation
use reqwest.Prelude.{
  ℕ, zero, suc, Bool, false, String, Option, none, some, List, [], ◌∷◌, ◌++◌, length, leb, str_eq,
  if◌then◌else◌,
}

-- `tower::retry::budget::TpsBudget`: the state, its construction from the extra load, and the two
-- operations at an instant. The extra load is an `f32`, of which the code uses 0.2 and two
-- comparisons.
pub record TpsBudget : Type 1 where
  pub Percent : Type 0
  pub fifth : Percent
  pub at_least_zero : Percent → Bool
  pub at_most_thousand : Percent → Bool
  pub Budget : Type 0
  pub new : Percent → Budget
  pub deposit : ℕ → Budget → Budget
  pub withdraw : ℕ → Budget → Budget × Bool

abbrev pub max_hosts : ℕ
max_hosts = 512

abbrev pub get_elem? {ℓ} : {A : Type ℓ} → List A → ℕ → Option A
get_elem? [] i = none
get_elem? (x ∷ xs) zero = some x
get_elem? (x ∷ xs) (suc i) = get_elem? xs i

abbrev pub modify {ℓ} : {A : Type ℓ} → List A → ℕ → (A → A) → List A
modify [] i f = []
modify (x ∷ xs) zero f = f x ∷ xs
modify (x ∷ xs) (suc i) f = x ∷ modify xs i f

-- A `HashMap<Box<str>, _>` as an association list.
abbrev pub lookup {ℓ} : {V : Type ℓ} → String → List (String × V) → Option V
lookup k [] = none
lookup k ((j, v) ∷ m) = if str_eq j k then some v else lookup k m

pub record Hosts (t : TpsBudget) : Type 0 where
  pub map : List (String × ℕ)
  pub store : List t.Budget

-- `hosts.clear()`, if there are too many.
abbrev pub make_room : List (String × ℕ) → List (String × ℕ)
make_room m = if leb max_hosts (length m) then [] else m

-- The host that a request is counted under.
abbrev pub host_key : Option String → String
host_key none = ""
host_key (some authority) = authority

module _ {t : TpsBudget} where
  abbrev pub no_hosts : Hosts t
  no_hosts = record { map = []; store = [] }

  add : t.Percent → String → Hosts t → Hosts t × ℕ
  add percent host hosts = (
    record {
      map = (host, length hosts.store) ∷ make_room hosts.map;
      store = hosts.store ++ t.new percent ∷ [];
    },
    length hosts.store,
  )

  -- `Budgets::get`, at the authority of the request's URI.
  unfoldable pub get : t.Percent → Option String → Hosts t → Hosts t × ℕ
  unfolding add
  get percent authority hosts = elim (lookup (host_key authority) hosts.map) [
    | some arc ↦ (hosts, arc)
    | none ↦ add percent (host_key authority) hosts
  ]

  -- `deposit` through a handle.
  unfoldable pub deposit_at : ℕ → ℕ → Hosts t → Hosts t
  deposit_at now arc hosts = record hosts { store = modify hosts.store arc (t.deposit now) }

  -- `withdraw` through a handle.
  unfoldable pub withdraw_at : ℕ → ℕ → Hosts t → Hosts t × Bool
  withdraw_at now arc hosts = (
    record hosts { store = modify hosts.store arc (λ b. (t.withdraw now b).0) },
    elim (get_elem? hosts.store arc) [ none ↦ false | some b ↦ (t.withdraw now b).1 ],
  )
