-- ===== src/Error/Chain.antt =====
-- src/error.rs: when an error is a timeout or a failure to connect, as a relation on its sources.
use reqwest.Prelude.{◌≡◌, refl, ◌↔◌, ◌⊎◌, inl, inr, true, false, arith}
use reqwest.Error.{
  Source, timed_out, elapsed, own, hyper, legacy, io, h2, h3_connection, other, Error, cause,
  times_out, is_timeout, fails_to_connect, is_connect, cast_to_internal_error, request_error,
}

module _ {Url : Type 0} where
  -- Some error of the chain has the property.
  pub data Reaches (P : Source Url → Type 0) : Source Url → Type 0 where
    here : {s : Source Url} → P s → Reaches P s
    there : {s : Source Url} → Reaches P (cause s) → Reaches P s

  -- The errors that count as a timeout: the library's, hyper's, and an io error of that kind.
  pub data TimesOut : Source Url → Type 0 where
    own_timeout : TimesOut timed_out
    hyper_timeout : {s : Source Url} → TimesOut (hyper true s)
    io_timeout : {s : Source Url} → TimesOut (io true s)

  pub data FailsToConnect : Source Url → Type 0 where
    legacy_connect : {s : Source Url} → FailsToConnect (legacy true s)

  times_out_sound : (s : Source Url) → times_out s ≡ true → Reaches TimesOut s
  unfolding times_out
  times_out_sound timed_out h = here own_timeout
  times_out_sound (own k u s) h = there (times_out_sound s h)
  times_out_sound (hyper true s) h = here hyper_timeout
  times_out_sound (hyper false s) h = there (times_out_sound s h)
  times_out_sound (legacy c s) h = there (times_out_sound s h)
  times_out_sound (io true s) h = here io_timeout
  times_out_sound (io false s) h = there (times_out_sound s h)
  times_out_sound (h2 e s) h = there (times_out_sound s h)
  times_out_sound (h3_connection t s) h = there (times_out_sound s h)
  times_out_sound (other s) h = there (times_out_sound s h)
  times_out_sound _ h = cc

  TimesOut-times_out : {s : Source Url} → TimesOut s → times_out s ≡ true
  unfolding times_out
  TimesOut-times_out own_timeout = refl
  TimesOut-times_out hyper_timeout = refl
  TimesOut-times_out io_timeout = refl

  times_out-cause : (s : Source Url) → times_out (cause s) ≡ true → times_out s ≡ true
  unfolding times_out
  times_out-cause (hyper t s) h = ground arith
  times_out-cause (io t s) h = ground arith
  times_out-cause (own k u s) h = h
  times_out-cause (legacy c s) h = h
  times_out-cause (h2 e s) h = h
  times_out-cause (h3_connection t s) h = h
  times_out-cause (other s) h = h
  times_out-cause _ h = cc

  times_out_complete : {s : Source Url} → Reaches TimesOut s → times_out s ≡ true
  times_out_complete (here p) = TimesOut-times_out p
  times_out_complete (there {s} r) = times_out-cause s (times_out_complete r)

  -- An error is a timeout exactly when its chain of sources reaches the library's own `TimedOut`, a
  -- hyper error that is a timeout, or an io error of the kind `TimedOut`.
  pub is_timeout_iff : (e : Error Url) → (is_timeout e ≡ true) ↔ Reaches TimesOut e.source
  unfolding is_timeout
  is_timeout_iff e = (times_out_sound e.source, times_out_complete)

  connect_sound : (s : Source Url) → fails_to_connect s ≡ true → Reaches FailsToConnect s
  unfolding fails_to_connect
  connect_sound (own k u s) h = there (connect_sound s h)
  connect_sound (hyper t s) h = there (connect_sound s h)
  connect_sound (legacy true s) h = here legacy_connect
  connect_sound (legacy false s) h = there (connect_sound s h)
  connect_sound (io t s) h = there (connect_sound s h)
  connect_sound (h2 e s) h = there (connect_sound s h)
  connect_sound (h3_connection t s) h = there (connect_sound s h)
  connect_sound (other s) h = there (connect_sound s h)
  connect_sound _ h = cc

  connect-cause : (s : Source Url) → fails_to_connect (cause s) ≡ true → fails_to_connect s ≡ true
  unfolding fails_to_connect
  connect-cause (legacy c s) h = ground arith
  connect-cause (own k u s) h = h
  connect-cause (hyper t s) h = h
  connect-cause (io t s) h = h
  connect-cause (h2 e s) h = h
  connect-cause (h3_connection t s) h = h
  connect-cause (other s) h = h
  connect-cause _ h = cc

  FailsToConnect-true : {s : Source Url} → FailsToConnect s → fails_to_connect s ≡ true
  unfolding fails_to_connect
  FailsToConnect-true legacy_connect = refl

  connect_complete : {s : Source Url} → Reaches FailsToConnect s → fails_to_connect s ≡ true
  connect_complete (here p) = FailsToConnect-true p
  connect_complete (there {s} r) = connect-cause s (connect_complete r)

  -- An error is a failure to connect exactly when its chain of sources reaches an error of the
  -- pooled client that is one.
  pub is_connect_iff : (e : Error Url) → (is_connect e ≡ true) ↔ Reaches FailsToConnect e.source
  unfolding is_connect
  is_connect_iff e = (connect_sound e.source, connect_complete)

  -- Sending a failure through `cast_to_internal_error` before it becomes a request error makes a
  -- timeout of `tower` one of this library, and keeps the verdict on every other error, also where
  -- an error of this library is boxed again.
  pub is_timeout-cast :
      (s : Source Url)
      → (is_timeout (request_error (cast_to_internal_error s)) ≡ true)
        ↔ ((s ≡ elapsed) ⊎ Reaches TimesOut s)
  unfolding is_timeout cast_to_internal_error
  is_timeout-cast elapsed = (λ h. inl refl, λ h. refl)
  is_timeout-cast s =
      (λ h. inr (times_out_sound s h), λ h. elim h [ inl e ↦ cc | inr r ↦ times_out_complete r ])
