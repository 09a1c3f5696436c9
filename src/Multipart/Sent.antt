-- ===== src/Multipart/Sent.antt =====
-- src/async_impl/multipart.rs, `Form::stream`: what the body of a form yields.
use reqwest.Prelude.{ℕ, ◌≡◌, refl, ap, sym, List, [], ◌∷◌, ◌++◌, codes, ok, err}
use reqwest.Body.{body_error}
use reqwest.Body.Frames.{frames_of, chunks, reports}
use reqwest.Multipart.{
  Part, FormParts, Chunks, part_stream, chain_parts, into_stream, frames_in, body_of_stream, stream,
}
use reqwest.Multipart.Encoding.{Percent}
use reqwest.Multipart.Length.{bytes}

chunks-frames_in : (cs : Chunks) → chunks (reports (frames_in cs)) ≡ bytes cs
chunks-frames_in [] = refl
chunks-frames_in (ok s ∷ cs) = ap (λ rest. s ++ rest) (chunks-frames_in cs)
chunks-frames_in (err (body_error e) ∷ cs) = chunks-frames_in cs

chunks-body_of_stream :
    (fields : List (List ℕ × Part)) (cs : Chunks)
    → (fields ≡ [] → bytes cs ≡ [])
    → chunks (frames_of (body_of_stream fields (frames_in cs))) ≡ bytes cs
chunks-body_of_stream [] cs h = sym (h refl)
chunks-body_of_stream (f ∷ rest) cs h = chunks-frames_in cs

-- The body of a form yields the bytes of its stream.
pub chunks-stream :
    (percent : Percent) (form : FormParts)
    → chunks (frames_of (stream percent form)) ≡ bytes (into_stream percent form)
unfolding stream into_stream
chunks-stream percent form =
    chunks-body_of_stream form.fields (into_stream percent form) (λ e. rw (e, into_stream) refl)

module _ (percent : Percent) (form : FormParts) (cached : List (List ℕ)) where
  -- The stream does not depend on the headers that measuring caches.
  chain_parts-cached :
      (memo : Chunks) (fields : List (List ℕ × Part))
      → chain_parts percent (record form { computed_headers = cached }) memo fields
        ≡ chain_parts percent form memo fields
  unfolding chain_parts part_stream
  chain_parts-cached memo [] = refl
  chain_parts-cached memo ((name, p) ∷ rest) =
      chain_parts-cached (memo ++ part_stream percent form name p) rest

  pub into_stream-cached :
      into_stream percent (record form { computed_headers = cached }) ≡ into_stream percent form
  unfolding into_stream part_stream
  into_stream-cached = go form.fields refl
    where
      go :
          (fields : List (List ℕ × Part))
          → form.fields ≡ fields
          → into_stream percent (record form { computed_headers = cached })
            ≡ into_stream percent form
      go [] e = rw (e, into_stream) refl
      go (f ∷ rest) e =
          rw (e, into_stream)
            (ap (λ parts. parts ++ ok (codes "--" ++ form.boundary ++ codes "--\r\n") ∷ [])
              (chain_parts-cached (part_stream percent form f.0 f.1) rest))
