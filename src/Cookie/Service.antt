-- ===== src/Cookie/Service.antt =====
-- src/cookie.rs, the service: which cookies a request carries.
use reqwest.Prelude.{
  ◌≡◌, refl, sym, ap, ◌∙◌, true, false, String, Option, none, some, List, [], ◌∷◌, is_some, str_eq,
  eq_iff, if◌then◌else◌, Bool-cases, Option-cases, inl, inr, arith,
}
use reqwest.Http.{Headers, Urls, head?}
use reqwest.Util.{add_cookie_header}
use reqwest.Util.Merge.{or_all}
use reqwest.Cookie.{CookieStore, call}

abbrev pub to_list {ℓ} : {A : Type ℓ} → Option A → List A
to_list none = []
to_list (some x) = x ∷ []

or_all_full {ℓ} : {V : Type ℓ} (xs ys : List V) → is_some (head? xs) ≡ true → or_all xs ys ≡ xs
or_all_full [] ys e = cc
or_all_full (x ∷ xs) ys e = refl

or_all_empty {ℓ} : {V : Type ℓ} (xs ys : List V) → is_some (head? xs) ≡ false → or_all xs ys ≡ ys
or_all_empty [] ys e = refl
or_all_empty (x ∷ xs) ys e = cc

or_all-nil {ℓ} : {V : Type ℓ} (xs : List V) → or_all xs [] ≡ xs
or_all-nil [] = refl
or_all-nil (x ∷ xs) = refl

module _ {h : Headers} {u : Urls} (s : CookieStore h u) where
  -- What a request carries once the service has seen it.
  abbrev pub WithCookies : h.HeaderMap → Option h.HeaderValue → h.HeaderMap → Type 0
  WithCookies headers stored out =
      (k : String)
      → h.get_all out k ≡ (
          if str_eq "cookie" k
          then or_all (h.get_all headers k) (to_list stored)
          else h.get_all headers k)

  -- A request whose URI is a URL is sent with its own `Cookie` header, where it has one, and otherwise
  -- with what the store has for that URL, if anything; its other headers are left alone.
  pub call_lem :
      (state : s.State) (uri : String) (headers : h.HeaderMap) (url : u.Url)
      → u.parse uri ≡ some url
      → (out : h.HeaderMap) × (call s (some state) uri headers ≡ some (url, out))
        × WithCookies headers (s.cookies state url) out
  unfolding call
  call_lem state uri headers url e = elim (Bool-cases (is_some (h.get headers "cookie"))) [
    | inl own ↦ (
      headers,
      rw (call, e, own) refl,
      λ k. elim (Bool-cases (str_eq "cookie" k)) [
        | inl same ↦
            let there = sym (ap is_some (h.get_head headers "cookie")) ∙ own in
            rw (same, sym ((eq_iff "cookie" k).0 same)) (sym (or_all_full _ _ there))
        | inr different ↦ rw different refl
      ],
    )
    | inr absent ↦ elim (Option-cases (s.cookies state url)) [
      | inl nothing ↦ (
        headers,
        rw (call, e, absent, add_cookie_header, nothing) refl,
        λ k. rw nothing (ground (arith, or_all-nil (h.get_all headers k))),
      )
      | inr (value, found) ↦ (
        h.insert headers "cookie" value,
        rw (call, e, absent, add_cookie_header, found) refl,
        λ k. h.get_all-insert headers "cookie" value k ∙ elim (Bool-cases (str_eq "cookie" k)) [
          | inl same ↦
              let there = sym (ap is_some (h.get_head headers "cookie")) ∙ absent in
              rw (same, found, sym ((eq_iff "cookie" k).0 same)) (sym (or_all_empty _ _ there))
          | inr different ↦ rw different refl
        ],
      )
    ]
  ]
