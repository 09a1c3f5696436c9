-- ===== src/Config.antt =====
-- src/config.rs: the configuration that a request carries in its extensions.
-- Of the typed map `http::Extensions` the entry for the total timeout and the rest, as numbers.
use reqwest.Prelude.{ℕ, Option, none, some, ◌>>=◌, List}

-- `RequestConfig<TotalTimeout>`.
pub record RequestConfig : Type 0 where
  pub value : Option ℕ

pub record Extensions : Type 0 where
  pub total_timeout : Option RequestConfig
  pub others : List ℕ

abbrev pub or_else {ℓ} : {A : Type ℓ} → Option A → Option A → Option A
or_else none other = other
or_else (some v) other = some v

abbrev pub get : Extensions → Option ℕ
get ext = ext.total_timeout >>= λ config. config.value

-- The request's value, or the client's.
abbrev pub fetch : RequestConfig → Extensions → Option ℕ
fetch client ext = or_else (get ext) client.value

-- `get_mut`, with a default entry where there is none: what a write through it leaves.
abbrev pub set : Extensions → Option ℕ → Extensions
set ext v = record ext { total_timeout = some (record { value = v }) }
