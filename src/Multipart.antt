-- ===== src/Multipart.antt =====
-- src/async_impl/multipart.rs: forms of several parts, their stream and their length.
-- A text is the list of its UTF-8 bytes; the characters that are replaced are ASCII.
pub mod Encoding
pub mod Quoting
pub mod Length
pub mod Sent
pub mod Boundary
pub mod Plain
mod Tests
use mathlib.Core.Option
use reqwest.Prelude.{
  ℕ, zero, suc, ◌+◌, ◌/◌, ◌%◌, ◌^◌, Bool, true, false, Option, none, some, ◌>>=◌, List, [], ◌∷◌,
  ◌++◌, length, codes, ltb, if◌then◌else◌, Result, ok, err, is_some,
}
use reqwest.Body.{
  Body, BodyError, body_error, chunk, trailers, Frame, reusable, streaming, Stream, empty,
  content_length,
}
use reqwest.Body.Frames.{frames_of}
use reqwest.Multipart.Encoding.{
  Percent, PercentEncoding, path_segment, attr_char, no_op, PartMetadata, encode_headers,
  no_metadata,
}

pub record Part : Type 0 where
  pub meta : PartMetadata
  pub value : Body
  pub body_length : Option ℕ

pub record FormParts : Type 0 where
  pub boundary : List ℕ
  pub computed_headers : List (List ℕ)
  pub fields : List (List ℕ × Part)
  pub percent_encoding : PercentEncoding

abbrev pub Chunks : Type 0
Chunks = List (Result (List ℕ) BodyError)

-- `{:016x}`: the hexadecimal digits of a number, the lowest last.
abbrev pub hex_digit : ℕ → ℕ
hex_digit d = if ltb d 10 then 48 + d else 87 + d

pub hex : ℕ → ℕ → List ℕ
hex zero n = []
hex (suc digits) n = hex digits (n / 16) ++ hex_digit (n % 16) ∷ []

-- `gen_boundary`, from four random numbers.
pub gen_boundary : ℕ → ℕ → ℕ → ℕ → List ℕ
gen_boundary a b c d = hex 16 a ++ b'-' ∷ (hex 16 b ++ b'-' ∷ (hex 16 c ++ b'-' ∷ hex 16 d))

unfoldable pub new : List ℕ → FormParts
new boundary = record {
  boundary = boundary;
  computed_headers = [];
  fields = [];
  percent_encoding = path_segment;
}

unfoldable pub part : FormParts → List ℕ → Part → FormParts
part form name p = record form { fields = form.fields ++ (name, p) ∷ [] }

pub with_encoding : FormParts → PercentEncoding → FormParts
with_encoding form encoding = record form { percent_encoding = encoding }

abbrev pub part_new : Body → Option ℕ → Part
part_new value body_length = record { meta = no_metadata; value = value; body_length = body_length }

-- `Form::text`.
unfoldable pub text : FormParts → List ℕ → List ℕ → FormParts
unfolding part
text form name value = part form name (part_new (reusable value) none)

unfoldable pub value_len : Part → Option ℕ
value_len p = if is_some p.body_length then p.body_length else content_length p.value

-- `Body::into_data_stream`: the data of the frames, and the errors.
abbrev pub data_stream : List (Result Frame BodyError) → Chunks
data_stream [] = []
data_stream (ok (chunk bytes) ∷ fs) = ok bytes ∷ data_stream fs
data_stream (ok trailers ∷ fs) = data_stream fs
data_stream (err e ∷ fs) = err e ∷ data_stream fs

-- `+` on u64: `none` is the panic of a profile with overflow checks.
pub add_u64 : Bool → ℕ → ℕ → Option ℕ
add_u64 checks a b =
    if ltb (a + b) (2 ^ 64) then some (a + b) else if checks then none else some ((a + b) % 2 ^ 64)

pub sum_u64 : Bool → ℕ → List ℕ → Option ℕ
sum_u64 checks sum [] = some sum
sum_u64 checks sum (n ∷ ns) = do next ← add_u64 checks sum n; sum_u64 checks next ns

-- The data of a stream as the frames of a body.
abbrev pub frames_in : Chunks → List (Result Frame ℕ)
frames_in [] = []
frames_in (ok bytes ∷ rest) = ok (chunk bytes) ∷ frames_in rest
frames_in (err (body_error e) ∷ rest) = err e ∷ frames_in rest

abbrev pub body_of_stream : List (List ℕ × Part) → List (Result Frame ℕ) → Body
body_of_stream [] frames = empty
body_of_stream (f ∷ rest) frames = streaming (record { frames = frames; exact = none })

module _ (percent : Percent) where
  pub part_stream : FormParts → List ℕ → Part → Chunks
  part_stream form name p =
      ok (codes "--" ++ form.boundary ++ codes "\r\n") ∷ []
      ++ ok (encode_headers percent form.percent_encoding name p.meta ++ codes "\r\n\r\n") ∷ []
      ++ data_stream (frames_of p.value)
      ++ ok (codes "\r\n") ∷ []

  -- The fold that chains the parts' streams.
  pub chain_parts : FormParts → Chunks → List (List ℕ × Part) → Chunks
  unfolding part_stream
  chain_parts form memo [] = memo
  chain_parts form memo ((name, p) ∷ rest) = chain_parts form (memo ++ part_stream form name p) rest

  unfoldable pub into_stream : FormParts → Chunks
  unfolding chain_parts
  into_stream form = elim form.fields [
    | [] ↦ []
    | f ∷ rest ↦
        chain_parts form (part_stream form f.0 f.1) rest
        ++ ok (codes "--" ++ form.boundary ++ codes "--\r\n") ∷ []
  ]

  -- `Form::stream`, with `Body::stream`, which has no size hint.
  unfoldable pub stream : FormParts → Body
  unfolding into_stream
  stream form = body_of_stream form.fields (frames_in (into_stream form))

  -- The loop of `compute_length`, with the headers that it has cached.
  pub measure :
      Bool
      → FormParts
      → List (List ℕ × Part)
      → ℕ
      → List (List ℕ)
      → Option (List (List ℕ) × Option ℕ)
  unfolding sum_u64
  measure checks form [] len headers = some (headers, some len)
  measure checks form ((name, p) ∷ rest) len headers = elim (value_len p) [
    | none ↦ some (headers, none)
    | some value_length ↦
        (let header = encode_headers percent form.percent_encoding name p.meta in
          sum_u64 checks 2 (length form.boundary ∷ 2 ∷ length header ∷ 4 ∷ value_length ∷ 2 ∷ [])
          >>= λ added. add_u64 checks len added >>= λ next.
              measure checks form rest next (headers ++ header ∷ []))
  ]

  -- The boundary behind the last field.
  pub with_last : Bool → FormParts → ℕ → Option ℕ
  with_last checks form len = elim form.fields [
    | [] ↦ some len
    | f ∷ rest ↦
        sum_u64 checks 2 (length form.boundary ∷ 4 ∷ []) >>= λ added. add_u64 checks len added
  ]

  pub finish : Bool → FormParts → List (List ℕ) × Option ℕ → Option (FormParts × Option ℕ)
  unfolding with_last
  finish checks form (headers, none) = some (record form { computed_headers = headers }, none)
  finish checks form (headers, some len) = with_last checks form len >>= λ total.
      some (record form { computed_headers = headers }, some total)

  -- The form with its cached headers, and the length, if it is known.
  unfoldable pub compute_length : Bool → FormParts → Option (FormParts × Option ℕ)
  unfolding measure finish
  compute_length checks form =
      measure checks form form.fields 0 form.computed_headers >>= finish checks form
