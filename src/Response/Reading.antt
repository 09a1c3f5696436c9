-- ===== src/Response/Reading.antt =====
-- src/async_impl/response.rs: a body read piece by piece against the body read whole.
use reqwest.Prelude.{
  ℕ, zero, suc, ◌<◌, ◌≡◌, refl, ap, sym, ◌∙◌, none, some, List, [], ◌∷◌, length, Result, ok, err,
  arith,
}
use reqwest.Http.{Headers, Urls}
use reqwest.Error.{Error, Source, decode_error, with_url}
use reqwest.Body.{Frame, chunk, trailers}
use reqwest.Response.{Response, prepend, collect, next_chunk, read_chunk, bytes, do_bytes}

module _ {Url : Type 0} where
  -- An error of the library, with the URL that only the whole read gives it.
  abbrev pub located : Url → Result (List ℕ) (Error Url) → Result (List ℕ) (Error Url)
  located url (ok read) = ok read
  located url (err e) = err (with_url e url)

  located-prepend :
      (url : Url) (piece : List ℕ) (read : Result (List ℕ) (Error Url))
      → located url (prepend piece read) ≡ prepend piece (located url read)
  located-prepend url piece (ok read) = refl
  located-prepend url piece (err e) = refl

  whole : Url → Result (List ℕ) (Source Url) → Result (List ℕ) (Error Url)
  whole url (ok read) = ok read
  whole url (err e) = err (with_url (decode_error e) url)

  whole-prepend :
      (url : Url) (piece : List ℕ) (read : Result (List ℕ) (Source Url))
      → whole url (prepend piece read) ≡ prepend piece (whole url read)
  unfolding whole
  whole-prepend url piece (ok read) = refl
  whole-prepend url piece (err e) = refl

module _ {h : Headers} {u : Urls} where
  -- A client that reads chunk after chunk, with fuel, until there is none or an error.
  unfoldable pub read_all : ℕ → Response h u → Result (List ℕ) (Error u.Url)
  read_all zero r = ok []
  read_all (suc n) r =
      let (rest, answer) = read_chunk r in
      let more = read_all n rest in
      elim answer [ err e ↦ err e | ok none ↦ ok [] | ok (some piece) ↦ prepend piece more ]

  bytes-whole : (r : Response h u) → bytes r ≡ whole r.url (collect r.res.frames)
  unfolding bytes do_bytes whole
  bytes-whole r = go (collect r.res.frames) refl
    where
      go :
          (read : Result (List ℕ) (Source u.Url))
          → collect r.res.frames ≡ read
          → bytes r ≡ whole r.url read
      go (ok read) e = rw (bytes, do_bytes, e) refl
      go (err cause) e = rw (bytes, do_bytes, e) refl

  read_all-frames :
      (n : ℕ) (r : Response h u) (frames : List (Result Frame (Source u.Url)))
      → length frames < n
      → located r.url (read_all n (record r { res = record r.res { frames = frames } }))
        ≡ whole r.url (collect frames)
  unfolding read_all read_chunk next_chunk collect whole
  read_all-frames (suc n) r [] l = refl
  read_all-frames (suc n) r (err e ∷ frames) l = refl
  read_all-frames (suc n) r (ok (chunk piece) ∷ frames) l =
      located-prepend r.url piece (read_all n (record r { res = record r.res { frames = frames } }))
      ∙ ap (prepend piece) (read_all-frames n r frames (omega arith))
      ∙ sym (whole-prepend r.url piece (collect frames))
  read_all-frames (suc n) r (ok trailers ∷ frames) l =
      read_all-frames (suc n) r frames (omega arith)
  read_all-frames zero r frames l = absurd (omega arith)

  -- Read chunk by chunk, more often than the body has frames, a response yields the same bytes as
  -- when it is read whole, and ends in the same error, to which only the whole read adds the URL.
  pub read_all-bytes :
      (n : ℕ) (r : Response h u) → length r.res.frames < n → located r.url (read_all n r) ≡ bytes r
  read_all-bytes n r l = read_all-frames n r r.res.frames l ∙ sym (bytes-whole r)
