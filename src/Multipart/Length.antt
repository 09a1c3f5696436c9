-- ===== src/Multipart/Length.antt =====
-- src/async_impl/multipart.rs, `compute_length` against what the stream yields.
use reqwest.Prelude.{
  ℕ, ◌+◌, ◌^◌, ◌<◌, ◌≡◌, refl, ap, ◌∙◌, Bool, some, List, [], ◌∷◌, ◌++◌, length, length-append,
  append_assoc, append-nil, All, codes, ok, err, arith,
}
use reqwest.Body.Frames.{frames_of}
use reqwest.Multipart.Encoding.{Percent, encode_headers}
use reqwest.Multipart.{
  Part, FormParts, Chunks, value_len, data_stream, add_u64, sum_u64, part_stream, chain_parts,
  into_stream, measure, with_last, finish, compute_length,
}

-- The bytes that a stream yields.
abbrev pub bytes : Chunks → List ℕ
bytes [] = []
bytes (ok s ∷ cs) = s ++ bytes cs
bytes (err e ∷ cs) = bytes cs

-- A part whose length is known and is what its body yields.
abbrev pub IsHonest : List ℕ × Part → Type 0
IsHonest f = value_len f.1 ≡ some (length (bytes (data_stream (frames_of f.1.value))))

length-bytes-append :
    (xs ys : Chunks) → length (bytes (xs ++ ys)) ≡ length (bytes xs) + length (bytes ys)
length-bytes-append [] ys = omega arith
length-bytes-append (ok s ∷ xs) ys = omega (
  arith,
  length-bytes-append xs ys,
  length-append s (bytes (xs ++ ys)),
  length-append s (bytes xs),
)
length-bytes-append (err e ∷ xs) ys = length-bytes-append xs ys

add_u64-fits : (checks : Bool) (a b : ℕ) → a + b < 2 ^ 64 → add_u64 checks a b ≡ some (a + b)
unfolding add_u64
add_u64-fits checks a b h = ground arith

abbrev total : List ℕ → ℕ
total [] = 0
total (n ∷ ns) = n + total ns

sum_u64-fits :
    (checks : Bool) (sum : ℕ) (ns : List ℕ)
    → sum + total ns < 2 ^ 64
    → sum_u64 checks sum ns ≡ some (sum + total ns)
unfolding sum_u64
sum_u64-fits checks sum [] h = ap some (omega arith)
sum_u64-fits checks sum (n ∷ ns) h =
    rw (add_u64-fits checks sum n (omega arith))
      (sum_u64-fits checks (sum + n) ns (omega arith) ∙ ap some (omega arith))

module _ (percent : Percent) (form : FormParts) where
  -- The length of one part as the stream yields it.
  part_size : List ℕ × Part → ℕ
  part_size f = length (bytes (part_stream percent form f.0 f.1))

  size : List (List ℕ × Part) → ℕ
  unfolding part_size
  size [] = 0
  size (f ∷ rest) = part_size f + size rest

  abbrev header : List ℕ × Part → List ℕ
  header f = encode_headers percent form.percent_encoding f.0 f.1.meta

  abbrev pub headers_of : List (List ℕ × Part) → List (List ℕ)
  headers_of [] = []
  headers_of (f ∷ rest) = header f ∷ headers_of rest

  part_size_sum :
      (f : List ℕ × Part)
      → part_size f
        ≡ 2
          + (length form.boundary + 2)
          + (length (header f) + 4)
          + (length (bytes (data_stream (frames_of f.1.value))) + 2)
  unfolding part_size part_stream
  part_size_sum f = simp (length-append, length-bytes-append) (omega arith)

  length-chain_parts :
      (memo : Chunks) (fields : List (List ℕ × Part))
      → length (bytes (chain_parts percent form memo fields)) ≡ length (bytes memo) + size fields
  unfolding chain_parts size part_size
  length-chain_parts memo [] = omega arith
  length-chain_parts memo ((name, p) ∷ rest) = omega (
    arith,
    length-chain_parts (memo ++ part_stream percent form name p) rest,
    length-bytes-append memo (part_stream percent form name p),
  )

  -- The number that the loop adds for an honest part.
  added :
      (checks : Bool) (f : List ℕ × Part) (v : ℕ)
      → v ≡ length (bytes (data_stream (frames_of f.1.value)))
      → part_size f < 2 ^ 64
      → sum_u64 checks 2 (length form.boundary ∷ 2 ∷ length (header f) ∷ 4 ∷ v ∷ 2 ∷ [])
        ≡ some (part_size f)
  added checks f v e h =
      let sum = part_size_sum f in
      sum_u64-fits checks 2 (length form.boundary ∷ 2 ∷ length (header f) ∷ 4 ∷ v ∷ 2 ∷ [])
        (omega arith)
      ∙ ap some (omega arith)

  measure-size :
      (checks : Bool) (fields : List (List ℕ × Part)) (len : ℕ) (headers : List (List ℕ))
      → All IsHonest fields
      → len + size fields < 2 ^ 64
      → measure percent checks form fields len headers
        ≡ some (headers ++ headers_of fields, some (len + size fields))
  unfolding measure size
  measure-size checks [] len headers honest h = ground (arith, append-nil headers)
  measure-size checks ((name, p) ∷ rest) len headers (known, honest) h =
      let v = length (bytes (data_stream (frames_of p.value))) in
      let step = added checks (name, p) v refl (omega arith) in
      let next = add_u64-fits checks len (part_size (name, p)) (omega arith) in
      let later =
        measure-size checks rest (len + part_size (name, p)) (headers ++ header (name, p) ∷ [])
          honest (omega arith) in
      rw (known, measure, step, next, later)
        (ground (arith, append_assoc headers (header (name, p) ∷ []) (headers_of rest)))

  abbrev last_size : List (List ℕ × Part) → ℕ
  last_size [] = 0
  last_size (f ∷ rest) = 2 + (length form.boundary + 4)

  length-into_stream :
      length (bytes (into_stream percent form)) ≡ size form.fields + last_size form.fields
  unfolding into_stream size
  length-into_stream = go form.fields refl
    where
      go :
          (fields : List (List ℕ × Part))
          → form.fields ≡ fields
          → length (bytes (into_stream percent form)) ≡ size fields + last_size fields
      go [] e = rw (e, into_stream)
      go (f ∷ rest) e =
          let parts = chain_parts percent form (part_stream percent form f.0 f.1) rest in
          let final = codes "--" ++ form.boundary ++ codes "--\r\n" in
          let sum = length-chain_parts (part_stream percent form f.0 f.1) rest in
          rw (e, into_stream)
            (omega (
              arith,
              length-bytes-append parts (ok final ∷ []),
              length-append final [],
              length-append form.boundary (codes "--\r\n"),
            ))

  with_last-size :
      (checks : Bool) (len : ℕ)
      → len + last_size form.fields < 2 ^ 64
      → with_last percent checks form len ≡ some (len + last_size form.fields)
  unfolding with_last
  with_last-size checks len h = go form.fields refl
    where
      go :
          (fields : List (List ℕ × Part))
          → form.fields ≡ fields
          → with_last percent checks form len ≡ some (len + last_size fields)
      go [] e = rw (e, with_last) (ground arith)
      go (f ∷ rest) e =
          let k = rw e at h in
          let tail = sum_u64-fits checks 2 (length form.boundary ∷ 4 ∷ []) (omega arith) in
          let sum = add_u64-fits checks len (2 + (length form.boundary + 4)) (omega arith) in
          rw (e, with_last) (ground arith)

  -- If the length of every part is known and true, and the stream has less than 2 ^ 64 bytes, the
  -- length that is computed is the number of bytes of the stream, in every build profile; only the
  -- cached headers change.
  pub compute_length-into_stream :
      (checks : Bool)
      → All IsHonest form.fields
      → length (bytes (into_stream percent form)) < 2 ^ 64
      → compute_length percent checks form
        ≡ some (
          record form { computed_headers = form.computed_headers ++ headers_of form.fields },
          some (length (bytes (into_stream percent form))),
        )
  unfolding compute_length finish
  compute_length-into_stream checks honest h =
      let all_parts = length-into_stream in
      let loop = measure-size checks form.fields 0 form.computed_headers honest (omega arith) in
      let end = with_last-size checks (0 + size form.fields) (omega arith) in
      rw (loop, compute_length, finish, end, all_parts) (ground arith)
