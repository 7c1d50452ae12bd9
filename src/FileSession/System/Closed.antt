-- ===== src/FileSession/System/Closed.antt =====
-- The steps of a session that its owner has closed.
use mathlib.Core.Path.{subst}
use native_pipe.Base.{
  ℕ, ◌≡◌, refl, sym, ap, ◌∙◌, List-cases, Bool, true, false, Option, some, none, List, [], ◌∷◌, ◌⊎◌,
  inl, inr, is_some, All, arith,
}
use native_pipe.FileSession.State.{
  Session, Stream, Inbound, Errno, FrameType, hello, request, response, payload, notify, cancel,
}
use native_pipe.FileSession.Streams.{
  find_stream, put_stream, unlink, fail, fail_locked, queue_cancel, maybe_destroy,
}
use native_pipe.FileSession.Dispatch.{
  dispatch, on_cancel, on_request, on_response, on_data, on_notify,
}
use native_pipe.FileSession.Calls.{
  Frame, notify_admit, request_admit, respond_admit, send_admit, receive, cancel_stream,
  drop_reference, message, taken, control_take, control_admit, finish_write,
}
use native_pipe.FileSession.Close.{close_session}
use native_pipe.FileSession.Close.Freed.{held-All, close_session-held}
use native_pipe.FileSession.Close.Kept.{close_session-kept}
use native_pipe.FileSession.Invariant.{IsValid}
use native_pipe.FileSession.Invariant.Received.{session_of}
use native_pipe.FileSession.Invariant.StreamList.{find_stream-All, put_stream-All, unlink-All}
use native_pipe.FileSession.System.{
  Admits, notifies, requests, responds, sends, cancels, Acts, reads, fails, takes, receives,
  abandons, releases, closes,
}

-- A caller holds the stream.
abbrev pub IsHeld : Stream → Type 0
IsHeld t = t.referenced ≡ true

abbrev pub HoldsOnly : Session → Type 0
HoldsOnly s = (s.owner_closed ≡ false) ⊎ ((is_some s.error ≡ true) × All IsHeld s.streams)

-- A write to a stream does not matter to its unlinking.
unlink-put_stream : (u : Stream) (ts : List Stream) → unlink u.id (put_stream u ts) ≡ unlink u.id ts
unfolding unlink put_stream
unlink-put_stream u [] = refl
unlink-put_stream u (t ∷ ts) = ground (arith, unlink-put_stream u ts)

dispatch-owner :
    (alloc : Bool) (s : Session) (kind : FrameType) (flags id : ℕ) (body : List ℕ)
    → (session_of (dispatch alloc s kind flags id body)).owner_closed ≡ s.owner_closed
unfolding dispatch
dispatch-owner alloc s hello flags id body = refl
dispatch-owner alloc s request flags id body = unfold on_request queue_cancel in ground arith
dispatch-owner alloc s response flags id body = unfold on_response in ground arith
dispatch-owner alloc s payload flags id body = unfold on_data in ground arith
dispatch-owner alloc s notify flags id body = unfold on_notify in ground arith
dispatch-owner alloc s cancel flags id body = unfold on_cancel in ground arith

module _ (s : Session) (u : Stream) (found : find_stream s.streams u.id ≡ some u)
    (h : HoldsOnly s) where
  -- A write that keeps the reference.
  written-IsHeld :
      (v : Stream)
      → v.referenced ≡ u.referenced
      → All IsHeld s.streams
      → All IsHeld (put_stream v s.streams)
  written-IsHeld v e k =
      put_stream-All IsHeld s.streams v
        (ground (arith, e, find_stream-All IsHeld s.streams u.id {t = u} k found)) k

  drop_reference-HoldsOnly : HoldsOnly (drop_reference s u).0
  unfolding drop_reference maybe_destroy
  drop_reference-HoldsOnly = elim h [
    | inl owned ↦ inl (ground (arith, owned))
    | inr (failed, all) ↦
        let left : Stream = record u { referenced = false } in
        let gone = unlink-put_stream left s.streams in
        inr (ground (arith, failed, gone, unlink-All IsHeld s.streams u.id all))
  ]

  receive-HoldsOnly : {t : Session} {m : Inbound} → receive s u ≡ message t m → HoldsOnly t
  unfolding receive
  receive-HoldsOnly e = elim (List-cases u.inbox) [
    | inl nothing ↦ absurd (let e' = rw nothing at e in ground arith)
    | inr (m, ms, some_more) ↦ elim h [
      | inl owned ↦ inl (ground (arith, owned, some_more))
      | inr (failed, all) ↦
          inr (ground (arith, failed, some_more, written-IsHeld (record u { inbox = ms }) refl all))
    ]
  ]

  cancel_stream-HoldsOnly : (alloc : Bool) → HoldsOnly (cancel_stream alloc s u)
  unfolding cancel_stream queue_cancel fail_locked
  cancel_stream-HoldsOnly alloc = elim h [
    | inl owned ↦ inl (ground (arith, owned))
    | inr (failed, all) ↦
        let gone : Stream = record u { cancelled = true; inbox = [] } in
        inr (ground (arith, failed, all, written-IsHeld gone refl all))
  ]

fail-HoldsOnly : (s : Session) (e : Errno) → HoldsOnly s → HoldsOnly (fail s e)
unfolding fail fail_locked
fail-HoldsOnly s e h = ground (arith, h)

control_take-owner :
    (s : Session) {t : Session} {id : ℕ}
    → control_take s ≡ taken t id
    → t.owner_closed ≡ s.owner_closed
unfolding control_take
control_take-owner s e = ground arith

pub finish_write-HoldsOnly :
    (s : Session) (o : Option Errno) → HoldsOnly s → HoldsOnly (finish_write s o)
unfolding finish_write fail_locked
finish_write-HoldsOnly s none h = ground (arith, h)
finish_write-HoldsOnly s (some e) h = ground (arith, h)

close_session-HoldsOnly :
    (s : Session)
    → IsValid s
    → is_some s.error ≡ true
    → s.owner_closed ≡ false
    → HoldsOnly (close_session s).0
close_session-HoldsOnly s v failed owned =
    let (streams, count, freed) = close_session-held s v failed owned in
    let (valid, writing, next, error) = close_session-kept s v failed owned in
    inr (ap is_some error ∙ failed, subst (All IsHeld) (sym streams) (held-All s.streams))

pub Acts-HoldsOnly : {s t : Session} → IsValid s → Acts s t → HoldsOnly s → HoldsOnly t
Acts-HoldsOnly {s} v (reads alloc kind flags id body owned hid hb) h =
    inl (dispatch-owner alloc s kind flags id body ∙ owned)
Acts-HoldsOnly {s} v (fails e) h = fail-HoldsOnly s e h
Acts-HoldsOnly {s} v (takes owned e) h = inl (control_take-owner s e ∙ owned)
Acts-HoldsOnly {s} v (receives u found e) h = receive-HoldsOnly s u found h e
Acts-HoldsOnly {s} v (abandons alloc u found) h = cancel_stream-HoldsOnly s u found h alloc
Acts-HoldsOnly {s} v (releases u found) h = drop_reference-HoldsOnly s u found h
Acts-HoldsOnly {s} v (closes failed calm owned) h = close_session-HoldsOnly s v failed owned

-- A frame passes the gate of a live session only.
Admits-live :
    {s t : Session} {f : Frame}
    → Admits s t f
    → (is_some s.error ≡ false) × (t.owner_closed ≡ s.owner_closed)
Admits-live (notifies opcode body h) = unfold notify_admit in ground arith
Admits-live (requests alloc opcode body end h) = unfold request_admit in ground arith
Admits-live (responds u status body end found h) = unfold respond_admit in ground arith
Admits-live (sends u left end found h) = unfold send_admit in ground arith
Admits-live (cancels id owned h) = unfold control_admit in ground arith

pub Admits-HoldsOnly : {s t : Session} {f : Frame} → Admits s t f → HoldsOnly s → HoldsOnly t
Admits-HoldsOnly a h = ground (arith, Admits-live a, h)
