-- ===== src/Redirect/Tower.antt =====
-- src/redirect.rs, `TowerRedirectPolicy`: the state that a chain of redirects keeps.
pub mod Limits
pub mod Requests
use reqwest.Prelude.{
  ℕ, Bool, true, false, not, ◌&&◌, String, Option, none, some, ◌>>=◌, List, [], ◌∷◌, ◌++◌, last,
  str_eq, if◌then◌else◌, Result, ok, err,
}
use reqwest.Http.{Headers, Urls}
use reqwest.Error.{Error, Source, end, other, builder_error, redirect_error, url_bad_scheme, boxed}
use reqwest.Redirect.Policy.{
  PolicyKind, Action, error, check, remove_sensitive_headers, make_referer,
}

pub record Tower (Url : Type 0) : Type 0 where
  pub policy : PolicyKind Url
  pub referer : Bool
  pub urls : List Url
  pub https_only : Bool
  pub deadline : Option ℕ

-- `tower_http`'s `Attempt`; its URIs are printed before they are parsed as URLs.
pub record TowerAttempt : Type 0 where
  pub status : ℕ
  pub previous : String
  pub location : String

pub data TowerAction : Type 0 where
  follow stop : TowerAction

module _ {Url : Type 0} where
  abbrev pub new : PolicyKind Url → Tower Url
  new p = record { policy = p; referer = false; urls = []; https_only = false; deadline = none }

  pub with_referer : Tower Url → Bool → Tower Url
  with_referer p b = record p { referer = b }

  pub with_https_only : Tower Url → Bool → Tower Url
  with_https_only p b = record p { https_only = b }

module _ (u : Urls) where
  abbrev is_scheme : String → u.Url → Bool
  is_scheme s url = str_eq (u.scheme url) s

  -- The checks of a redirect that the policy wants to follow.
  checked_follow : Bool → u.Url → Result TowerAction (Error u.Url)
  checked_follow https_only next =
      if not (is_scheme "http" next) && not (is_scheme "https" next)
      then err (url_bad_scheme next)
      else if https_only && not (is_scheme "https" next)
      then err (redirect_error (boxed (url_bad_scheme next)) next)
      else ok TowerAction.follow

  decide : Bool → u.Url → u.Url → Action u.Url → Result TowerAction (Error u.Url)
  unfolding checked_follow
  decide https_only next previous Action.follow = checked_follow https_only next
  decide https_only next previous Action.stop = ok TowerAction.stop
  decide https_only next previous (error e) = err (redirect_error e previous)

  -- `TowerPolicy::redirect`; `none` is the panic on a previous URL that does not parse.
  unfoldable pub redirect :
      Tower u.Url → TowerAttempt → Option (Tower u.Url × Result TowerAction (Error u.Url))
  unfolding decide
  redirect p attempt = do
    previous ← u.parse attempt.previous
    some (elim (u.parse attempt.location) [
      | none ↦ (p, err (builder_error (other end)))
      | some next ↦
          let urls = p.urls ++ previous ∷ [] in
          (
            record p { urls = urls },
            decide p.https_only next previous (check p.policy attempt.status next urls),
          )
    ])

module _ (h : Headers) (u : Urls) where
  -- A request as `on_request` sees it: its URI, printed, its headers and its deadline.
  pub record Request : Type 0 where
    pub uri : String
    pub headers : h.HeaderMap
    pub deadline : Option ℕ

  -- The first part of `on_request`: the deadline is remembered, or set again.
  unfoldable pub carry_deadline : Tower u.Url → Request → Tower u.Url × Request
  carry_deadline p req = elim req.deadline [
    | some at ↦ (record p { deadline = some at }, req)
    | none ↦ (p, record req { deadline = p.deadline })
  ]

  add_referer : Tower u.Url → u.Url → h.HeaderMap → h.HeaderMap
  add_referer p next m =
      if p.referer
      then elim (last p.urls >>= make_referer h u next) [
        | none ↦ m
        | some v ↦ h.insert m "referer" v
      ]
      else m

  -- The headers of the next request.
  pub next_headers : Tower u.Url → String → h.HeaderMap → h.HeaderMap
  unfolding add_referer
  next_headers p uri m = elim (u.parse uri) [
    | none ↦ m
    | some next ↦ add_referer p next (remove_sensitive_headers h u m next p.urls)
  ]

  -- `TowerPolicy::on_request`.
  pub on_request : Tower u.Url → Request → Tower u.Url × Request
  unfolding carry_deadline
  on_request p req =
      let (p', req') = carry_deadline p req in
      (p', record req' { headers = next_headers p' req'.uri req'.headers })
