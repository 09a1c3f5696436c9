-- ===== src/Response/Conversion.antt =====
-- src/async_impl/response.rs: a response out of the crate `http`, and back into it.
use reqwest.Prelude.{get_or, ◌≡◌, refl, none, some, Option-cases, inl, inr}
use reqwest.Http.{Headers, Urls}
use reqwest.Response.{HttpResponse, Response, from_http, into_http, wrap}

module _ {h : Headers} {u : Urls} where
  -- A response takes its URL from the extension of the `http` response, or the stand-in address where
  -- there is none. Turned into an `http` response and back, it always has the stand-in address: the
  -- conversion back does not put the URL into the extensions again.
  pub from_http-into_http_url :
      (res : HttpResponse h u) (stand_in : u.Url)
      → u.parse "http://no.url.provided.local" ≡ some stand_in
      → (r : Response h u) × (again : Response h u) × (from_http res ≡ some r)
        × (r.url ≡ get_or stand_in res.response_url)
        × (from_http (into_http r) ≡ some again)
        × (again.url ≡ stand_in)
        × (again.res.status ≡ res.status)
  unfolding from_http into_http
  from_http-into_http_url res stand_in e =
      let r : Response h u = record {
        res = record res { response_url = none };
        url = get_or stand_in res.response_url;
      } in
      let again : Response h u = record {
        res = record res { response_url = none; frames = wrap res.frames };
        url = stand_in;
      } in
      (
        r,
        again,
        elim (Option-cases res.response_url) [
          | inl absent ↦ rw (from_http, absent, e) refl
          | inr (url, found) ↦ rw (from_http, found) refl
        ],
        refl,
        rw (from_http, into_http, e) refl,
        refl,
        refl,
      )
