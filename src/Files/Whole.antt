-- ===== src/Files/Whole.antt =====
-- A write that succeeds wrote everything, and it succeeds when the system keeps taking bytes.
use mathlib.Core.Path.{subst}
use native_pipe.Base.{
  ℕ, zero, suc, ◌-◌, ◌≤◌, ◌<◌, ◌≡◌, refl, sym, ◌∙◌, ap, List, [], ◌∷◌, ◌++◌, length, take, drop,
  arith, take-append-drop, append_assoc, append-nil, length-drop, All, Bool-cases, inl, inr, ltb,
  length-append, length-take,
}
use native_pipe.Files.{
  WriteAnswer, wrote, write_interrupted, write_error, WriteResult, write_done, write_failed,
  write_waits, write_full, ReadAnswer, got, at_end, read_interrupted, read_error, ReadResult,
  read_done, read_failed, read_waits, read_full,
}

-- What reached the file after these answers, and whether the loop ended well.
abbrev pub IsPartOf : List ℕ → WriteResult → Type 0
IsPartOf whole (write_done sent) = sent ≡ whole
IsPartOf whole (write_failed sent) = (rest : List ℕ) × (sent ++ rest ≡ whole)
IsPartOf whole (write_waits sent) = (rest : List ℕ) × (sent ++ rest ≡ whole)

-- Whatever the system answers, the bytes that it took are a beginning of what np_write_full was given to
-- write, in order and without a gap; after success they are all of it.
pub write_full-IsPartOf :
    (answers : List WriteAnswer) (sent left : List ℕ)
    → IsPartOf (sent ++ left) (write_full answers sent left)
unfolding write_full
write_full-IsPartOf answers sent [] = sym (append-nil sent)
write_full-IsPartOf [] sent (b ∷ left) = (b ∷ left, refl)
write_full-IsPartOf (write_interrupted ∷ answers) sent (b ∷ left) =
    write_full-IsPartOf answers sent (b ∷ left)
write_full-IsPartOf (write_error ∷ answers) sent (b ∷ left) = (b ∷ left, refl)
write_full-IsPartOf (wrote w ∷ answers) sent (b ∷ left) =
    subst (λ t. IsPartOf t (write_full (wrote w ∷ answers) sent (b ∷ left)))
      (append_assoc sent (take w (b ∷ left)) (drop w (b ∷ left))
        ∙ ap (λ t. sent ++ t) (take-append-drop w (b ∷ left)))
      (write_full-IsPartOf answers (sent ++ take w (b ∷ left)) (drop w (b ∷ left)))

-- The answers in which write takes at least one byte.
abbrev pub progress : List WriteAnswer → ℕ
progress [] = 0
progress (wrote zero ∷ answers) = progress answers
progress (wrote (suc w) ∷ answers) = suc (progress answers)
progress (write_interrupted ∷ answers) = progress answers
progress (write_error ∷ answers) = progress answers

-- No answer is an error.
abbrev pub IsCalm : WriteAnswer → Type 0
IsCalm (wrote w) = Unit {0}
IsCalm write_interrupted = Unit {0}
IsCalm write_error = ⊥

-- Without errors, and with interruptions and writes of no bytes at any place, np_write_full is done with
-- everything once the system has taken at least one byte as many times as there are bytes.
pub write_full-done :
    (answers : List WriteAnswer) (sent left : List ℕ)
    → All IsCalm answers
    → length left ≤ progress answers
    → write_full answers sent left ≡ write_done (sent ++ left)
unfolding write_full
write_full-done answers sent [] calm h = ap write_done (sym (append-nil sent))
write_full-done [] sent (b ∷ left) calm h = absurd (omega arith)
write_full-done (write_interrupted ∷ answers) sent (b ∷ left) (c, calm) h =
    write_full-done answers sent (b ∷ left) calm h
write_full-done (write_error ∷ answers) sent (b ∷ left) (c, calm) h = absurd c
write_full-done (wrote zero ∷ answers) sent (b ∷ left) (c, calm) h =
    write_full-done answers (sent ++ []) (b ∷ left) calm h
    ∙ ap (λ t. write_done (t ++ (b ∷ left))) (append-nil sent)
write_full-done (wrote (suc w) ∷ answers) sent (b ∷ left) (c, calm) h =
    write_full-done answers (sent ++ (b ∷ take w left)) (drop w left) calm
      (omega (arith, length-drop w left))
    ∙ ap write_done (
        append_assoc sent (b ∷ take w left) (drop w left)
        ∙ ap (λ t. sent ++ (b ∷ t)) (take-append-drop w left))

-- The buffer holds as many bytes as were asked for after success, and fewer otherwise.
abbrev pub FillsTo : ℕ → ReadResult → Type 0
FillsTo n (read_done buffer) = length buffer ≡ n
FillsTo n (read_failed buffer) = length buffer < n
FillsTo n (read_waits buffer) = length buffer < n

-- Whatever the system answers, np_read_full never writes past the n bytes of its buffer, reports success
-- only when it has filled all of them, and stops as failed or waits only before that.
pub read_full-FillsTo :
    (answers : List ReadAnswer) (n : ℕ) (buffer : List ℕ)
    → length buffer ≤ n
    → FillsTo n (read_full answers n buffer)
unfolding read_full
read_full-FillsTo [] n buffer h = elim (Bool-cases (ltb (length buffer) n)) [
  | inl less ↦ ground (arith, less)
  | inr full ↦ ground (arith, full)
]
read_full-FillsTo (at_end ∷ answers) n buffer h = ground arith
read_full-FillsTo (read_error ∷ answers) n buffer h = ground arith
read_full-FillsTo (read_interrupted ∷ answers) n buffer h =
    ground (arith, read_full-FillsTo answers n buffer h)
read_full-FillsTo (got [] ∷ answers) n buffer h = ground arith
read_full-FillsTo (got (b ∷ bs) ∷ answers) n buffer h =
    let more = take (n - length buffer) (b ∷ bs) in
    let fits : length (buffer ++ more) ≤ n =
      omega (arith, length-append buffer more, length-take (n - length buffer) (b ∷ bs)) in
    ground (arith, read_full-FillsTo answers n (buffer ++ more) fits)
