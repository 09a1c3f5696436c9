-- ===== src/Multipart/Tests.antt =====
-- The theorems on multipart forms at concrete values.
use reqwest.Prelude.{◌≡◌, false, some, ◌∷◌, ◌++◌, codes}
use reqwest.Multipart.Encoding.{legal_filename}
use reqwest.Multipart.Quoting.{unquote, unquote-legal_filename}
use reqwest.Multipart.{FormParts, new, text}

unquote-legal_filename_example :
    unquote false (legal_filename (codes "a\"b\\\r\n") ++ b'"' ∷ codes "; x")
    ≡ some (codes "a\"b\\\r\n", codes "; x")
unquote-legal_filename_example = unquote-legal_filename (codes "a\"b\\\r\n") (codes "; x")

abbrev form : FormParts
form = text (new (codes "xy")) (codes "key") (codes "value")
