-- ===== src/Response/Status.antt =====
-- src/async_impl/response.rs, `error_for_status`: which statuses are errors.
use reqwest.Prelude.{◌≤◌, ◌<◌, ◌≡◌, refl, ◌⊎◌, inl, inr, ◌||◌, some, ok, err, Bool-cases, arith}
use reqwest.Http.{Headers, Urls}
use reqwest.Error
use reqwest.Error.{Error, status_of}
use reqwest.Response.{Response, error_for_status, is_client_error, is_server_error}

module _ {h : Headers} {u : Urls} where
  -- A status of an error, from 400 to 599, becomes an error that says that status and the URL of the
  -- response; with any other status the response is returned as it is.
  pub error_for_status_lem :
      (r : Response h u)
      → ((400 ≤ r.res.status)
          × (r.res.status < 600)
          × (e : Error u.Url) × (error_for_status r ≡ err e)
          × (status_of e ≡ some r.res.status)
          × (e.url ≡ some r.url))
        ⊎ (((r.res.status < 400) ⊎ (600 ≤ r.res.status)) × (error_for_status r ≡ ok r))
  unfolding error_for_status status_of
  error_for_status_lem r =
      elim (Bool-cases (is_client_error r.res.status || is_server_error r.res.status)) [
        | inl bad ↦ inl (
          ground arith,
          ground arith,
          Error.status_code r.url r.res.status r.res.reason,
          rw (error_for_status, bad) refl,
          refl,
          refl,
        )
        | inr good ↦ inr (ground arith, rw (error_for_status, good) refl)
      ]
