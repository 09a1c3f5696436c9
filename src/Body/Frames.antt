-- ===== src/Body/Frames.antt =====
-- src/async_impl/body.rs: the frames that a body yields when it is polled to its end.
use reqwest.Prelude.{
  ℕ, zero, suc, ◌<◌, ◌≡◌, refl, sym, ap, Option, none, some, List, [], ◌∷◌, ◌++◌, length, Result,
  ok, arith,
}
use reqwest.Body.{
  Frame, chunk, Body, reusable, streaming, content_length, size_hint, BodyError, as_body_error,
  poll_frame,
}

-- Polling with fuel: a frame takes one step, the end one more.
pub drain : ℕ → Body → List (Result Frame BodyError)
drain zero body = []
drain (suc n) body =
    let (rest, frame) = poll_frame body in elim frame [ none ↦ [] | some f ↦ f ∷ drain n rest ]

abbrev pub reports : List (Result Frame ℕ) → List (Result Frame BodyError)
reports [] = []
reports (f ∷ fs) = as_body_error f ∷ reports fs

-- What a body holds, independent of polling, and the number of its frames.
abbrev pub frames_of : Body → List (Result Frame BodyError)
frames_of (reusable []) = []
frames_of (reusable (b ∷ bytes)) = ok (chunk (b ∷ bytes)) ∷ []
frames_of (streaming s) = reports s.frames

abbrev pub chunks : List (Result Frame BodyError) → List ℕ
chunks [] = []
chunks (ok (chunk bytes) ∷ fs) = bytes ++ chunks fs
chunks (_ ∷ fs) = chunks fs

append_nil : (bytes : List ℕ) → bytes ++ [] ≡ bytes
append_nil [] = refl
append_nil (b ∷ bytes) = ap (λ xs. b ∷ xs) (append_nil bytes)

drain-streaming :
    (n : ℕ) (fs : List (Result Frame ℕ)) (exact : Option ℕ)
    → length fs < n
    → drain n (streaming (record { frames = fs; exact = exact })) ≡ reports fs
unfolding drain poll_frame
drain-streaming zero fs exact h = absurd (omega arith)
drain-streaming (suc n) [] exact h = refl
drain-streaming (suc n) (f ∷ fs) exact h =
    ap (λ xs. as_body_error f ∷ xs) (drain-streaming n fs exact (omega arith))

length-reports : (fs : List (Result Frame ℕ)) → length (reports fs) ≡ length fs
length-reports [] = refl
length-reports (f ∷ fs) = ap suc (length-reports fs)

-- Polled more often than it has frames, a body yields each of its frames in order, with every
-- failure of the stream reported as the library's body error, and nothing after the last.
pub drain_lem : (n : ℕ) (body : Body) → length (frames_of body) < n → drain n body ≡ frames_of body
unfolding drain poll_frame
drain_lem (suc n) (reusable []) h = refl
drain_lem (suc (suc n)) (reusable (b ∷ bytes)) h = refl
drain_lem n (streaming s) h =
    drain-streaming n s.frames s.exact (let same = length-reports s.frames in omega arith)
drain_lem zero (reusable []) h = absurd (omega arith)
drain_lem zero (reusable (b ∷ bytes)) h = absurd (omega arith)
drain_lem (suc zero) (reusable (b ∷ bytes)) h = absurd (omega arith)

-- A body in memory yields exactly its bytes, as many as its content length and its size hint say.
pub drain-content_length :
    (n : ℕ) (bytes : List ℕ)
    → 1 < n
    → (chunks (drain n (reusable bytes)) ≡ bytes)
      × (content_length (reusable bytes) ≡ some (length (chunks (drain n (reusable bytes)))))
      × (size_hint (reusable bytes) ≡ content_length (reusable bytes))
unfolding drain poll_frame content_length size_hint
drain-content_length (suc (suc n)) [] h = (refl, refl, refl)
drain-content_length (suc (suc n)) (b ∷ bytes) h =
    let same = append_nil (b ∷ bytes) in (same, ap (λ xs. some (length xs)) (sym same), refl)
drain-content_length (suc zero) bytes h = absurd (omega arith)
drain-content_length zero bytes h = absurd (omega arith)
