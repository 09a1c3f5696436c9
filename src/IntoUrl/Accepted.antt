-- ===== src/IntoUrl/Accepted.antt =====
-- src/into_url.rs: which URLs are accepted, with a base URL and without.
use Prim.Native.String.{◌++◌ as append}
use reqwest.Prelude.{
  ◌≡◌, refl, true, false, String, Option, none, some, Result, ok, err, ◌⊎◌, inl, inr, Bool-cases,
  Option-cases,
}
use reqwest.Http.{Urls}
use reqwest.Error.{Error, Kind, builder_error, url_bad_scheme, other, end}
use reqwest.IntoUrl.{Given, url, text, as_str, checked, into_url, into_url_with_base}

module _ (u : Urls) where
  -- What a caller means: the URL that is given, or the one that the text behind the base parses to.
  abbrev pub meant : Given u → Option String → Option u.Url
  meant (url x) none = some x
  meant (text s) none = u.parse s
  meant given (some base) = u.parse (append base (as_str u given))

  -- The URL that is meant is accepted, or there is an error of the builder.
  abbrev pub Outcome : Option u.Url → Result u.Url (Error u.Url) → Type 0
  Outcome target result =
      ((x : u.Url) × (target ≡ some x) × (u.has_host x ≡ true) × (result ≡ ok x))
      ⊎ ((e : Error u.Url) × ((target ≡ none)
            ⊎ ((x : u.Url) × (target ≡ some x) × (u.has_host x ≡ false) × (e.url ≡ some x)))
          × (e.kind ≡ Kind.builder)
          × (result ≡ err e))

  checked-Outcome :
      (target : Option u.Url) (x : u.Url) → target ≡ some x → Outcome target (checked u x)
  checked-Outcome target x e = elim (Bool-cases (u.has_host x)) [
    | inl has ↦ inl (x, e, has, rw has refl)
    | inr lacks ↦ inr (url_bad_scheme x, inr (x, e, lacks, refl), refl, rw lacks refl)
  ]

  text-Outcome : (s : String) → Outcome (u.parse s) (into_url u (text s))
  unfolding into_url
  text-Outcome s = elim (Option-cases (u.parse s)) [
    | inl bad ↦ inr (builder_error (other end), inl bad, refl, rw (into_url, bad) refl)
    | inr (x, good) ↦ rw (into_url, good) (checked-Outcome (some x) x refl)
  ]

  -- The URL that a request is sent to is exactly the one that the caller means, with a base URL put in
  -- front of its text where the client has one, and it has a host; everything else is an error of the
  -- kind `builder`, which names the URL if only the host is missing.
  pub into_url_with_base_lem :
      (given : Given u) (base : Option String)
      → Outcome (meant given base) (into_url_with_base u given base)
  unfolding into_url_with_base into_url
  into_url_with_base_lem (url x) none = checked-Outcome (some x) x refl
  into_url_with_base_lem (text s) none = text-Outcome s
  into_url_with_base_lem (url x) (some base) = text-Outcome (append base (u.as_str x))
  into_url_with_base_lem (text s) (some base) = text-Outcome (append base s)
