-- ===== src/Util/Tests.antt =====
-- The theorems on merging headers at concrete values.
use reqwest.Prelude.{◌++◌, codes, true, all, arith, ℕ, String, ◌≡◌, some, List, [], ◌∷◌}
use reqwest.Http.Marked.{Marked, plain, marked_headers, marked_values}
use reqwest.Util.{replace_headers}
use reqwest.Util.Escape.{unescape, plain as unquoted, display, is_shown, unescape-display}
use reqwest.Util.Merge.{or_all, replace_headers_lem}

abbrev before : List (String × Marked)
before = ("accept", plain "a") ∷ ("accept", plain "b") ∷ ("host", plain "c") ∷ []

abbrev more : List (String × Marked)
more = ("accept", plain "d") ∷ ("cookie", plain "e") ∷ ("accept", plain "f") ∷ []

replace_headers_lem_example :
    (out : List (String × Marked)) × (replace_headers marked_values before more ≡ some out)
    × ((k : String)
        → marked_headers.get_all out k
          ≡ or_all (marked_headers.get_all more k) (marked_headers.get_all before k))
replace_headers_lem_example = replace_headers_lem marked_values before more

abbrev odd : List ℕ
odd = 0 ∷ 10 ∷ 34 ∷ 65 ∷ 255 ∷ []

unescape-display_example :
    (unescape unquoted (display odd ++ b'"' ∷ codes "; x") ≡ some (odd, codes "; x"))
    × (all is_shown (display odd) ≡ true)
unescape-display_example =
    unescape-display odd (codes "; x")
      (omega arith, (omega arith, (omega arith, (omega arith, (omega arith, tt)))))
