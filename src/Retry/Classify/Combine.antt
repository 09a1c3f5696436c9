-- ===== src/Retry/Classify/Combine.antt =====
-- src/retry.rs, `Classifier::or`: combining classifiers.
use reqwest.Prelude.{◌≡◌, refl, sym, arith}
use reqwest.Http.{Http}
use reqwest.Retry.Classify.{
  Request, Outcome, Action, success, retryable, Classifier, never, any_of, Classifiers, nil, cons,
  append, push, or, classify, classify_any,
}

abbrev pub either : Action → Action → Action
either retryable b = retryable
either success b = b

either-success : (a : Action) → either a success ≡ a
either-success retryable = refl
either-success success = refl

module _ {h : Http} (req : Request h) (res : Outcome h) where
  classify_any-append :
      (xs ys : Classifiers h)
      → classify_any (append xs ys) req res
        ≡ either (classify_any xs req res) (classify_any ys req res)
  unfolding append classify_any
  classify_any-append nil ys = refl
  classify_any-append (cons x xs) ys = ground (arith, classify_any-append xs ys)

  classify_any-push :
      (xs : Classifiers h) (y : Classifier h)
      → classify_any (push xs y) req res ≡ either (classify_any xs req res) (classify y req res)
  unfolding push classify_any
  classify_any-push nil y = ground arith
  classify_any-push (cons x xs) y = ground (arith, classify_any-push xs y)

  -- A combined classifier retries exactly what one of the two retries, whatever their forms.
  pub classify-or :
      (a b : Classifier h)
      → classify (or a b) req res ≡ either (classify a req res) (classify b req res)
  unfolding or classify
  classify-or never b = refl
  classify-or (any_of xs) (any_of ys) = classify_any-append xs ys
  classify-or (any_of xs) never = sym (either-success _)
  classify-or (any_of xs) b = ground (arith, classify_any-push xs b)
  classify-or a b = ground arith
