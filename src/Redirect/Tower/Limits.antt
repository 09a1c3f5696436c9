-- ===== src/Redirect/Tower/Limits.antt =====
-- src/redirect.rs, `TowerRedirectPolicy::redirect`: where a chain of redirects may go, and how far.
use mathlib.Core.Path.{subst}
use reqwest.Prelude.{
  ℕ, suc, ◌+◌, ◌≤◌, ◌≡◌, ◌⊎◌, inl, inr, refl, sym, ap, ◌∙◌, Bool, true, false, Option, none, some,
  List, [], ◌∷◌, ◌++◌, length, length-append, ltb, eq_iff, arith, Option-cases, Result, ok, err,
}
use reqwest.Http.{Urls}
use reqwest.Error.{Error, redirect_error, too_many_redirects}
use reqwest.Redirect.Policy.{PolicyKind, Action, limit, check}
use reqwest.Redirect.Tower.{Tower, TowerAttempt, TowerAction, redirect, decide, checked_follow}

module _ (u : Urls) where
  checked_follow-scheme :
      (https_only : Bool) (next : u.Url)
      → checked_follow u https_only next ≡ ok TowerAction.follow
      → (u.scheme next ≡ "https") ⊎ ((u.scheme next ≡ "http") × (https_only ≡ false))
  unfolding checked_follow
  checked_follow-scheme https_only next e =
      ground (arith, eq_iff (u.scheme next) "http", eq_iff (u.scheme next) "https")

  decide-scheme :
      (https_only : Bool) (next previous : u.Url) (a : Action u.Url)
      → decide u https_only next previous a ≡ ok TowerAction.follow
      → (a ≡ Action.follow)
        × ((u.scheme next ≡ "https") ⊎ ((u.scheme next ≡ "http") × (https_only ≡ false)))
  unfolding decide
  decide-scheme https_only next previous Action.follow e =
      (refl, checked_follow-scheme https_only next e)
  decide-scheme https_only next previous Action.stop e = cc
  decide-scheme https_only next previous (Action.error x) e = cc

  -- What a step that follows a redirect did: the next URL parsed, the policy wanted to follow it,
  -- its scheme was allowed, and the previous URL joined the chain.
  pub record Followed (p p' : Tower u.Url) (attempt : TowerAttempt) : Type 0 where
    pub next : u.Url
    pub previous : u.Url
    pub parsed : u.parse attempt.location ≡ some next
    pub joined : p' ≡ record p { urls = p.urls ++ previous ∷ [] }
    pub wanted : check p.policy attempt.status next p'.urls ≡ Action.follow
    pub allowed : (u.scheme next ≡ "https") ⊎ ((u.scheme next ≡ "http") × (p.https_only ≡ false))

  -- A redirect is followed only to an `https` URL, or to an `http` URL where the client is not
  -- restricted to `https`, whatever the policy, a custom one included.
  pub redirect-Followed :
      (p p' : Tower u.Url) (attempt : TowerAttempt)
      → redirect u p attempt ≡ some (p', ok TowerAction.follow)
      → Followed p p' attempt
  unfolding redirect
  redirect-Followed p p' attempt e = elim (Option-cases (u.parse attempt.previous)) [
    | inl bad ↦ cc (rw (bad, redirect) at e)
    | inr (previous, good) ↦ elim (Option-cases (u.parse attempt.location)) [
      | inl bad ↦ cc (rw (good, bad, redirect) at e)
      | inr (next, parsed) ↦
          let e' = rw (good, parsed, redirect) at e in
          let joined : record p { urls = p.urls ++ previous ∷ [] } ≡ p' = cc in
          let decided : decide u p.https_only next previous
                (check p.policy attempt.status next (p.urls ++ previous ∷ []))
              ≡ ok TowerAction.follow =
            cc in
          let (wanted, allowed) = decide-scheme p.https_only next previous _ decided in
          record {
            next = next;
            previous = previous;
            parsed = parsed;
            joined = sym joined;
            wanted =
                subst (λ q. check p.policy attempt.status next q.urls ≡ Action.follow) joined
                  wanted;
            allowed = allowed;
          }
    ]
  ]

  check_limit :
      (max status : ℕ) (next : u.Url) (previous : List u.Url)
      → check (limit max) status next previous ≡ Action.follow
      → length previous ≤ max
  unfolding check
  check_limit max status next previous e = ground arith

  -- The redirects that are followed along a chain, up to the first that is not.
  abbrev pub hops : List TowerAttempt → Tower u.Url → ℕ
  hops [] p = 0
  hops (a ∷ as') p = elim (redirect u p a) [
    | some (p', ok TowerAction.follow) ↦ suc (hops as' p')
    | _ ↦ 0
  ]

  -- A policy with the limit `max` follows at most `max` redirects, less the URLs that its chain has
  -- already, wherever they lead.
  pub hops-le :
      (max : ℕ) (attempts : List TowerAttempt) (p : Tower u.Url)
      → p.policy ≡ limit max
      → length p.urls ≤ max
      → length p.urls + hops attempts p ≤ max
  hops-le max [] p e k = omega arith
  hops-le max (a ∷ as') p e k = go (λ q. hops-le max as' q) (redirect u p a) refl
    where
      Bounded : Tower u.Url → Type 0
      Bounded q = q.policy ≡ limit max → length q.urls ≤ max → length q.urls + hops as' q ≤ max

      step :
          (p' : Tower u.Url)
          → Followed p p' a
          → Bounded p'
          → length p.urls + suc (hops as' p') ≤ max
      step p' f ih =
          let policy : p'.policy ≡ limit max = ap (λ t. t.policy) f.joined ∙ e in
          let room =
            check_limit max a.status f.next p'.urls
              (subst (λ c. check c a.status f.next p'.urls ≡ Action.follow) e f.wanted) in
          let grown = ap (λ t. length t.urls) f.joined ∙ length-append p.urls (f.previous ∷ []) in
          let rest = ih policy room in omega arith

      go :
          ((q : Tower u.Url) → Bounded q)
          → (o : Option (Tower u.Url × Result TowerAction (Error u.Url))) → redirect u p a ≡ o
          → length p.urls + elim o [ some (p', ok TowerAction.follow) ↦ suc (hops as' p') | _ ↦ 0 ]
            ≤ max
      go ih none q = omega arith
      go ih (some (p', err x)) q = omega arith
      go ih (some (p', ok TowerAction.stop)) q = omega arith
      go ih (some (p', ok TowerAction.follow)) q = step p' (redirect-Followed p p' a q) (ih p')

  check_over :
      (max status : ℕ) (next : u.Url) (previous : List u.Url) (p : PolicyKind u.Url)
      → p ≡ limit max
      → ltb max (length previous) ≡ true
      → check p status next previous ≡ Action.error too_many_redirects
  unfolding check
  check_over max status next previous p e over = rw (e, over)

  -- Once the chain of a policy with the limit `max` has `max` URLs or more, a redirect whose URLs
  -- parse fails with the error `too many redirects` for the previous URL, which joins the chain.
  pub redirect_too_many :
      (max : ℕ) (p : Tower u.Url) (attempt : TowerAttempt) (previous next : u.Url)
      → p.policy ≡ limit max
      → max ≤ length p.urls
      → u.parse attempt.previous ≡ some previous
      → u.parse attempt.location ≡ some next
      → redirect u p attempt
        ≡ some (
          record p { urls = p.urls ++ previous ∷ [] },
          err (redirect_error too_many_redirects previous),
        )
  unfolding redirect check decide
  redirect_too_many max p attempt previous next e k good parsed =
      let urls = p.urls ++ previous ∷ [] in
      let grown = length-append p.urls (previous ∷ []) in
      let over : ltb max (length urls) ≡ true = ground arith in
      rw (good, parsed)
        (ap (λ c. some (record p { urls = urls }, decide u p.https_only next previous c))
          (check_over max attempt.status next urls p.policy e over))
