-- ===== src/Error/Tests.antt =====
-- The theorems on errors at concrete values.
use reqwest.Prelude.{◌≡◌, refl, String, true}
use reqwest.Error.{timed_out, legacy, other, Error, request_error, is_timeout}

abbrev late : Error String
late = request_error (legacy true (other timed_out))

late-is_timeout : is_timeout late ≡ true
unfolding is_timeout
late-is_timeout = refl
