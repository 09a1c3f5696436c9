-- ===== src/Redirect/Policy/Sensitive.antt =====
-- src/redirect.rs, `remove_sensitive_headers` and `make_referer`.
use reqwest.Prelude.{
  ◌≡◌, refl, ap, ◌∙◌, Bool, true, false, not, ◌&&◌, ◌||◌, String, Option, List, [], last, str_eq,
  eq_iff, ◌==◌, ==_iff, if◌then◌else◌, arith, Bool-cases, Option-cases, inl, inr, ◌↔◌,
}
use reqwest.Http.{Headers, Urls}
use reqwest.Redirect.Policy.{opt_eq, cross_host, drop_sensitive, remove_sensitive_headers, stripped}

abbrev pub is_sensitive : String → Bool
is_sensitive k =
    str_eq "authorization" k
    || str_eq "cookie" k
    || str_eq "cookie2" k
    || str_eq "proxy-authorization" k
    || str_eq "www-authenticate" k

-- Whether the last of the previous URLs is of another origin than the next one.
abbrev pub leaves_origin : (u : Urls) → u.Url → Option u.Url → Bool
leaves_origin u next Option.none = false
leaves_origin u next (Option.some before) = cross_host u next before

opt_eq_iff {ℓ} :
    {A : Type ℓ} (eq : A → A → Bool)
    → ((a b : A) → (eq a b ≡ true) ↔ (a ≡ b))
    → (o o' : Option A) → (opt_eq eq o o' ≡ true) ↔ (o ≡ o')
opt_eq_iff eq h Option.none Option.none = (λ e. refl, λ e. refl)
opt_eq_iff eq h (Option.some a) (Option.some b) =
    (λ e. ap Option.some ((h a b).0 e), λ e. (h a b).1 (cc))
opt_eq_iff eq h Option.none (Option.some b) = (λ e. cc, λ e. cc)
opt_eq_iff eq h (Option.some a) Option.none = (λ e. cc, λ e. cc)

all_agree :
    (a b c : Bool) → (not a || not b || not c ≡ false) ↔ ((a ≡ true) × (b ≡ true) × (c ≡ true))
all_agree a b c = ground arith

module _ (h : Headers) where
  get_all-drop_sensitive :
      (m : h.HeaderMap) (k : String)
      → h.get_all (drop_sensitive h m) k ≡ (if is_sensitive k then [] else h.get_all m k)
  unfolding drop_sensitive
  get_all-drop_sensitive m k = simp (h.get_all-remove) (ground arith)

module _ (h : Headers) (u : Urls) where
  -- On a redirect to another host, port or scheme the five sensitive headers lose all their values;
  -- every other header, and on a redirect within the origin each header, keeps its values.
  pub get_all-remove_sensitive_headers :
      (m : h.HeaderMap) (next : u.Url) (previous : List u.Url) (k : String)
      → h.get_all (remove_sensitive_headers h u m next previous) k
        ≡ (if leaves_origin u next (last previous) && is_sensitive k then [] else h.get_all m k)
  unfolding remove_sensitive_headers
  get_all-remove_sensitive_headers m next previous k = elim (Option-cases (last previous)) [
    | inl e ↦ rw (e, remove_sensitive_headers)
    | inr (before, e) ↦ elim (Bool-cases (cross_host u next before)) [
      | inl c ↦ rw (e, remove_sensitive_headers, c) (get_all-drop_sensitive h m k)
      | inr c ↦ rw (e, remove_sensitive_headers, c)
    ]
  ]

module _ (u : Urls) where
  -- A redirect stays within the origin exactly when host, port and scheme agree.
  pub cross_host_iff :
      (next before : u.Url)
      → (cross_host u next before ≡ false) ↔ (
          (u.host_str next ≡ u.host_str before)
          × (u.port_or_known_default next ≡ u.port_or_known_default before)
          × (u.scheme next ≡ u.scheme before))
  unfolding cross_host
  cross_host_iff next before =
      let host = opt_eq_iff str_eq eq_iff (u.host_str next) (u.host_str before) in
      let port =
        opt_eq_iff ◌==◌ ==_iff (u.port_or_known_default next) (u.port_or_known_default before) in
      let scheme = eq_iff (u.scheme next) (u.scheme before) in
      let tests = all_agree _ _ _ in
      (
        λ e. let (a, b, c) = tests.0 e in (host.0 a, port.0 b, scheme.0 c),
        λ e. tests.1 (host.1 e.0, port.1 e.1, scheme.1 e.2),
      )

  -- The URL that a referrer shows has no user name, no password and no fragment.
  pub stripped_lem :
      (url : u.Url)
      → (u.username (stripped u url) ≡ "")
        × (u.password (stripped u url) ≡ Option.none)
        × (u.fragment (stripped u url) ≡ Option.none)
  unfolding stripped
  stripped_lem url =
      let named = u.set_username url "" in
      let plain = u.set_password named Option.none in
      (
        u.username-set_fragment plain Option.none
            ∙ u.username-set_password named Option.none
            ∙ u.username-set_username url,
        u.password-set_fragment plain Option.none ∙ u.password-set_password named,
        u.fragment-set_fragment plain Option.none,
      )
