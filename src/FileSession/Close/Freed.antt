-- ===== src/FileSession/Close/Freed.antt =====
-- Closing frees what no caller holds, and the session itself if no stream is held.
use mathlib.Core.Path.{subst₂}
use native_pipe.Base.{
  ◌+◌, ◌^◌, ◌≤◌, ◌<◌, ◌≡◌, ◌≢◌, refl, sym, ◌∙◌, ap, Bool, true, false, List, [], ◌∷◌, ◌++◌, ◌↔◌,
  append_assoc, length-append, All-append, All-prefix, All-suffix, if◌then◌else◌, length, All,
  arith, Bool-cases, inl, inr, is_some,
}
use native_pipe.FileSession.State.{Session, Stream, Errno, econnreset}
use native_pipe.FileSession.Streams.{fail, unlink, maybe_destroy}
use native_pipe.FileSession.Close.{sweep, close_session, close}
use native_pipe.FileSession.Invariant.{IsValid, Distinct}
use native_pipe.FileSession.Invariant.Called.{fail-IsValid}

-- The streams that callers still hold, in their order.
pub held : List Stream → List Stream
held [] = []
held (t ∷ ts) = if t.referenced then t ∷ held ts else held ts

-- Unlinking the stream behind some that have other identifiers leaves those and what follows it.
pub unlink-behind :
    (kept : List Stream) (t : Stream) (ts : List Stream)
    → All (λ u. u.id ≢ t.id) kept
    → unlink t.id (kept ++ (t ∷ ts)) ≡ kept ++ ts
unfolding unlink
unlink-behind [] t ts h = ground arith
unlink-behind (u ∷ kept) t ts h = ground (arith, unlink-behind kept t ts h.1)

-- One stream of a failed session with its owner gone.
maybe_destroy-held :
    (s : Session) (t : Stream) → t.referenced ≡ true → maybe_destroy s t ≡ (s, false)
unfolding maybe_destroy
maybe_destroy-held s t h = rw h

maybe_destroy-free :
    (s : Session) (t : Stream)
    → t.referenced ≡ false
    → is_some s.error ≡ true
    → 1 < s.references
    → s.references < 2 ^ 32
    → ((maybe_destroy s t).1 ≡ false)
      × ((maybe_destroy s t).0.streams ≡ unlink t.id s.streams)
      × ((maybe_destroy s t).0.references + 1 ≡ s.references)
      × ((maybe_destroy s t).0.error ≡ s.error)
unfolding maybe_destroy
maybe_destroy-free s t h e lo hi = ground arith

-- A stream differs from those before it, and these and those after it from each other.
pub Distinct-split :
    (kept : List Stream) (t : Stream) (ts : List Stream)
    → Distinct (kept ++ (t ∷ ts))
    → All (λ u. u.id ≢ t.id) kept × Distinct (kept ++ ts)
Distinct-split [] t ts d = (tt, d.1)
Distinct-split (u ∷ kept) t ts (apart, d) =
    let (before, rest) = Distinct-split kept t ts d in
    (
      (λ e. (All-suffix (λ v. v.id ≢ u.id) kept (t ∷ ts) apart).0 (sym e), before),
      (
        All-append (λ v. v.id ≢ u.id) kept ts (All-prefix (λ v. v.id ≢ u.id) kept (t ∷ ts) apart)
            (All-suffix (λ v. v.id ≢ u.id) kept (t ∷ ts) apart).1,
        rest,
      ),
    )

-- What a sweep leaves: the streams that are held, and a reference for each beside the owner's.
abbrev pub Swept : List Stream → Session × Bool → Type 0
Swept left r = (r.1 ≡ false) × (r.0.streams ≡ left) × (r.0.references ≡ length left + 1)

module _ (t : Stream) (ts : List Stream) where
  held-kept : t.referenced ≡ true → held (t ∷ ts) ≡ t ∷ held ts
  unfolding held
  held-kept h = ground arith

  held-gone : t.referenced ≡ false → held (t ∷ ts) ≡ held ts
  unfolding held
  held-gone h = ground arith

module _ (s : Session) (t : Stream) (ts : List Stream) where
  sweep-kept : t.referenced ≡ true → sweep (t ∷ ts) s ≡ sweep ts s
  unfolding sweep
  sweep-kept h = cc

  sweep-gone : (maybe_destroy s t).1 ≡ false → sweep (t ∷ ts) s ≡ sweep ts (maybe_destroy s t).0
  unfolding sweep
  sweep-gone h = cc h

-- The sweep of the streams behind those that it has kept.
pub sweep-held :
    (kept ts : List Stream) (s : Session)
    → s.streams ≡ kept ++ ts
    → Distinct (kept ++ ts)
    → is_some s.error ≡ true
    → s.references ≡ length (kept ++ ts) + 1
    → s.references < 2 ^ 32
    → Swept (kept ++ held ts) (sweep ts s)
unfolding sweep held
sweep-held kept [] s e d f r hi = (refl, e, r)
sweep-held kept (t ∷ ts) s e d f r hi = elim (Bool-cases t.referenced) [
  | inl in_use ↦
      let snoc = append_assoc kept (t ∷ []) ts in
      subst₂ Swept
        (append_assoc kept (t ∷ []) (held ts) ∙ ap (λ k. kept ++ k) (sym (held-kept t ts in_use)))
        (sym (sweep-kept s t ts in_use))
        (sweep-held (kept ++ (t ∷ [])) ts s (e ∙ sym snoc) (rw snoc d) f (rw snoc r) hi)
  | inr free ↦
      let (apart, d') = Distinct-split kept t ts d in
      let size = length-append kept (t ∷ ts) in
      let (going, streams, count, error) = maybe_destroy-free s t free f (omega arith) hi in
      subst₂ Swept (ap (λ k. kept ++ k) (sym (held-gone t ts free))) (sym (sweep-gone s t ts going))
        (sweep-held kept ts (maybe_destroy s t).0
          (streams ∙ ap (unlink t.id) e ∙ unlink-behind kept t ts apart) d' (rw error f)
          (omega (arith, length-append kept ts)) (omega arith))
]

length-zero_iff : (ts : List Stream) → (length ts ≡ 0) ↔ (ts ≡ [])
length-zero_iff [] = (λ e. refl, λ e. refl)
length-zero_iff (t ∷ ts) = (λ e. absurd (omega arith), λ e. cc)

pub held-All : (ts : List Stream) → All (λ t. t.referenced ≡ true) (held ts)
unfolding held
held-All [] = tt
held-All (t ∷ ts) = ground (arith, held-All ts)

held-le : (ts : List Stream) → length (held ts) ≤ length ts
unfolding held
held-le [] = omega arith
held-le (t ∷ ts) = ground (arith, held-le ts)

-- The locked part, on a valid session that has failed.
pub close_session-held :
    (s : Session)
    → IsValid s
    → is_some s.error ≡ true
    → s.owner_closed ≡ false
    → let (u, freed) = close_session s in
      (u.streams ≡ held s.streams)
      × (u.references ≡ length (held s.streams))
      × ((freed ≡ true) ↔ (held s.streams ≡ []))
unfolding close_session
close_session-held s v failed owned =
    let closing : Session = record s { owner_closed = true } in
    let count : s.references ≡ length s.streams + 1 = ground (arith, v.counted) in
    let swept = sweep-held [] s.streams closing refl v.distinct failed count (ground (arith, v)) in
    ground (arith, swept, length-zero_iff (held s.streams), held-le s.streams, v)

fail-facts :
    (s : Session) (e : Errno)
    → ((fail s e).streams ≡ s.streams)
      × (is_some (fail s e).error ≡ true)
      × ((fail s e).owner_closed ≡ s.owner_closed)
unfolding fail
fail-facts s e = ground arith

-- np_file2_session_close on a valid session: what is left are the streams that callers hold, in their
-- order, with one reference for each; and the session itself is freed exactly if there are none.
pub close-held :
    (s : Session)
    → IsValid s
    → s.owner_closed ≡ false
    → let (u, freed) = close s in
      (u.streams ≡ held s.streams)
      × (u.references ≡ length (held s.streams))
      × ((freed ≡ true) ↔ (held s.streams ≡ []))
unfolding close fail
close-held s v owned =
    let (streams, failed, owner) = fail-facts s econnreset in
    rw streams at
      (close_session-held (fail s econnreset) (fail-IsValid s econnreset v) failed (owner ∙ owned))
