-- ===== src/Redirect/Policy.antt =====
-- src/redirect.rs, `Policy`, `Attempt` and the headers that do not cross to another origin.
pub mod Sensitive
use reqwest.Prelude.{
  ℕ, Bool, true, false, not, ◌&&◌, ◌||◌, String, Option, List, [], ◌∷◌, length, last, leb, ltb,
  ◌==◌, str_eq, if◌then◌else◌,
}
use reqwest.Http.{Headers, Urls}
use reqwest.Error.{Source, too_many_redirects}

pub record Attempt (Url : Type 0) : Type 0 where
  pub status : ℕ
  pub next : Url
  pub previous : List Url

pub data Action (Url : Type 0) : Type 0 where
  follow stop : Action Url
  error : Source Url → Action Url

pub data PolicyKind (Url : Type 0) : Type 0 where
  custom : (Attempt Url → Action Url) → PolicyKind Url
  limit : ℕ → PolicyKind Url
  none : PolicyKind Url

module _ {Url : Type 0} where
  abbrev pub limited : ℕ → PolicyKind Url
  limited max = limit max

  abbrev pub default : PolicyKind Url
  default = limited 10

  -- `Policy::redirect`.
  pub redirect : PolicyKind Url → Attempt Url → Action Url
  redirect (custom f) attempt = f attempt
  redirect (limit max) attempt =
      if ltb max (length attempt.previous) then error too_many_redirects else follow
  redirect none attempt = stop

  -- `Policy::check`.
  unfoldable pub check : PolicyKind Url → ℕ → Url → List Url → Action Url
  unfolding redirect
  check p status next previous =
      redirect p (record { status = status; next = next; previous = previous })

  pub is_default : PolicyKind Url → Bool
  is_default (limit max) = max == 10
  is_default _ = false

-- Equality of optional values.
abbrev opt_eq {ℓ} : {A : Type ℓ} → (A → A → Bool) → Option A → Option A → Bool
opt_eq eq Option.none Option.none = true
opt_eq eq (Option.some a) (Option.some b) = eq a b
opt_eq eq _ _ = false

module _ (u : Urls) where
  -- Whether two URLs differ in host, port or scheme.
  unfoldable pub cross_host : u.Url → u.Url → Bool
  cross_host next previous =
      not (opt_eq str_eq (u.host_str next) (u.host_str previous))
      || not (opt_eq ◌==◌ (u.port_or_known_default next) (u.port_or_known_default previous))
      || not (str_eq (u.scheme next) (u.scheme previous))

  -- The URL that a referrer shows: without credentials and fragment.
  pub stripped : u.Url → u.Url
  stripped url = u.set_fragment (u.set_password (u.set_username url "") Option.none) Option.none

module _ (h : Headers) where
  drop_sensitive : h.HeaderMap → h.HeaderMap
  drop_sensitive m =
      h.remove
        (h.remove (h.remove (h.remove (h.remove m "authorization") "cookie") "cookie2")
          "proxy-authorization")
        "www-authenticate"

module _ (h : Headers) (u : Urls) where
  -- `remove_sensitive_headers`, against the last of the previous URLs.
  pub remove_sensitive_headers : h.HeaderMap → u.Url → List u.Url → h.HeaderMap
  unfolding cross_host drop_sensitive
  remove_sensitive_headers m next previous = elim (last previous) [
    | Option.none ↦ m
    | Option.some before ↦ if cross_host u next before then drop_sensitive h m else m
  ]

  -- `make_referer`.
  pub make_referer : u.Url → u.Url → Option h.HeaderValue
  unfolding stripped
  make_referer next previous =
      if str_eq (u.scheme next) "http" && str_eq (u.scheme previous) "https"
      then Option.none
      else h.from_str (u.as_str (stripped u previous))
