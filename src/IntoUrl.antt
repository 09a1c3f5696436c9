-- ===== src/IntoUrl.antt =====
-- src/into_url.rs: how what a caller names becomes a URL, and how that becomes a URI.
pub mod Accepted
use Prim.Native.String.{◌++◌ as append}
use reqwest.Prelude.{String, Option, none, some, Result, ok, err, if◌then◌else◌}
use reqwest.Http.{Urls}
use reqwest.Error.{Error, builder_error, url_bad_scheme, url_invalid_uri, other, end}

-- The types that `IntoUrl` is implemented for: `Url`, and those of texts.
pub data Given (u : Urls) : Type 0 where
  url : u.Url → Given u
  text : String → Given u

module _ (u : Urls) where
  abbrev pub as_str : Given u → String
  as_str (url x) = u.as_str x
  as_str (text s) = s

  -- `IntoUrlSealed for Url`, outside of wasm.
  abbrev pub checked : u.Url → Result u.Url (Error u.Url)
  checked x = if u.has_host x then ok x else err (url_bad_scheme x)

  unfoldable pub into_url : Given u → Result u.Url (Error u.Url)
  into_url (url x) = checked x
  into_url (text s) = elim (u.parse s) [
    | none ↦ err (builder_error (other end))
    | some x ↦ checked x
  ]

  unfoldable pub into_url_with_base : Given u → Option String → Result u.Url (Error u.Url)
  unfolding into_url
  into_url_with_base given none = into_url given
  into_url_with_base given (some base) = into_url (text (append base (as_str given)))

  -- With the parser of `http::Uri`.
  pub try_uri : {Uri : Type 0} → (String → Option Uri) → u.Url → Result Uri (Error u.Url)
  try_uri parse_uri x = elim (parse_uri (u.as_str x)) [
    | none ↦ err (url_invalid_uri x)
    | some uri ↦ ok uri
  ]
