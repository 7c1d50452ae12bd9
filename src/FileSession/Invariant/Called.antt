-- ===== src/FileSession/Invariant/Called.antt =====
-- The calls of the session's users keep the invariant.
use native_pipe.Base.{
  ℕ, ◌+◌, ◌%◌, ◌^◌, ◌≡◌, ◌≢◌, refl, ◌∙◌, inl, inr, Bool, true, false, ◌&&◌, ◌||◌, Option, some,
  List, length, All, arith, ◌==◌, All-map_pred, List-cases, ap,
}
use native_pipe.FileSession.State.{Session, Stream, Inbound, Role, Errno}
use native_pipe.FileSession.Streams.{
  find_stream, put_stream, store, fail, queue_cancel, is_peer_id, discard_inbound, maybe_destroy,
}
use native_pipe.FileSession.Calls.{
  Frame, admitted, finish_write, notify_admit, request_admit, respond_admit, send_admit, message,
  receive, cancel_stream, drop_reference, taken, control_take, control_admit, chunk_size,
}
use native_pipe.FileSession.Invariant.{IsValid, StreamIsValid, inbox_bytes}
use native_pipe.FileSession.Invariant.StreamList.{
  find_stream-All, unlink-All, unlink-Distinct, length-unlink, responders-unlink,
  find_stream-put_stream,
}
use native_pipe.FileSession.Invariant.Received.{
  store-IsValid, queue_cancel-IsValid, StreamIsValid-mono,
}

pub fail-IsValid : (s : Session) (e : Errno) → IsValid s → IsValid (fail s e)
unfolding fail
fail-IsValid s e v = ground arith

pub finish_write-IsValid : (s : Session) (o : Option Errno) → IsValid s → IsValid (finish_write s o)
unfolding finish_write
finish_write-IsValid s o v = ground arith

pub notify_admit-IsValid :
    (s : Session) (opcode : ℕ) (body : List ℕ) {t : Session} {f : Frame}
    → notify_admit s opcode body ≡ admitted t f
    → IsValid s
    → IsValid t
unfolding notify_admit
notify_admit-IsValid s opcode body h v = ground arith

pub control_admit-IsValid :
    (s : Session) (id : ℕ) {t : Session} {f : Frame}
    → control_admit s id ≡ admitted t f
    → IsValid s
    → IsValid t
unfolding control_admit
control_admit-IsValid s id h v = ground arith

-- The identifier that the next request takes is none of the streams'.
unused_next_id :
    (role : Role) (next last : ℕ) (ts : List Stream)
    → is_peer_id role next ≡ false
    → All (StreamIsValid role next last) ts
    → All (λ u. u.id ≢ next) ts
unused_next_id role next last ts mine =
    All-map_pred ts (λ u v e. omega (arith, v.below (v.mine ∙ rw e mine)))

is_peer_id-add_two :
    (role : Role) (n : ℕ) → n ≢ 0 → is_peer_id role n ≡ false → is_peer_id role (n + 2) ≡ false
unfolding is_peer_id
is_peer_id-add_two role n h e = ground arith

pub request_admit-IsValid :
    (alloc : Bool) (s : Session) (opcode : ℕ) (body : List ℕ) (end : Bool) {t : Session} {f : Frame}
    → request_admit alloc s opcode body end ≡ admitted t f
    → IsValid s
    → IsValid t
unfolding request_admit
request_admit-IsValid alloc s opcode body end h v = ground (
  arith,
  unused_next_id s.role s.next_id s.last_peer_id s.streams v.next_mine v.each,
  is_peer_id-add_two s.role s.next_id v.next_ne v.next_mine,
  StreamIsValid-mono s.role s.next_id s.last_peer_id (s.next_id + 2) s.last_peer_id s.streams,
)

pub queue_cancel-keeps :
    (alloc : Bool) (s : Session) (id : ℕ)
    → let q = queue_cancel alloc s id in
      (q.streams ≡ s.streams)
      × (q.role ≡ s.role)
      × (q.next_id ≡ s.next_id)
      × (q.last_peer_id ≡ s.last_peer_id)
unfolding queue_cancel
queue_cancel-keeps alloc s id = ground arith

module _ (s : Session) (t : Stream) (found : find_stream s.streams t.id ≡ some t)
    (v : IsValid s) where
  stream-IsValid : StreamIsValid s.role s.next_id s.last_peer_id t
  stream-IsValid =
      (find_stream-All (StreamIsValid s.role s.next_id s.last_peer_id) s.streams t.id {t = t} v.each
        found).0

  -- A change of a stream's own flags and counters that leaves what the invariant reads.
  pub respond_admit-IsValid :
      (status : ℕ) (body : List ℕ) (end : Bool) {u : Session} {f : Frame}
      → respond_admit s t status body end ≡ admitted u f
      → IsValid u
  unfolding respond_admit
  respond_admit-IsValid status body end h = ground (
    arith,
    stream-IsValid,
    store-IsValid (record s { writing = true }) t
        (record t { responded = true; local_ended = t.local_ended || end }),
  )

  pub send_admit-IsValid :
      (left : List ℕ) (end : Bool) {u : Session} {f : Frame}
      → send_admit s t left end ≡ admitted u f
      → IsValid u
  unfolding send_admit
  send_admit-IsValid left end h =
      let size = chunk_size left in
      ground (
        arith,
        stream-IsValid,
        store-IsValid (record s { writing = true }) t
            (record t {
              sent = (t.sent + size) % 2 ^ 32;
              local_ended = t.local_ended || (size == length left && end);
            }),
      )

  pub receive-IsValid : {u : Session} {m : Inbound} → receive s t ≡ message u m → IsValid u
  unfolding receive
  receive-IsValid h = elim (List-cases t.inbox) [
    | inl nothing ↦ absurd (let h' = rw nothing at h in ground arith)
    | inr (m, ms, e) ↦
        ground
          (arith, stream-IsValid, ap inbox_bytes e, store-IsValid s t (record t { inbox = ms }))
  ]

  pub cancel_stream-IsValid : (alloc : Bool) → IsValid (cancel_stream alloc s t)
  unfolding cancel_stream
  cancel_stream-IsValid alloc =
      let gone : Stream = discard_inbound (record t { cancelled = true }) in
      ground (
        arith,
        stream-IsValid,
        queue_cancel-IsValid alloc s t.id v,
        queue_cancel-keeps alloc s t.id,
        store-IsValid s t gone,
        store-IsValid (queue_cancel alloc s t.id) t gone,
      )

  pub drop_reference-IsValid : IsValid (drop_reference s t).0
  unfolding drop_reference maybe_destroy
  drop_reference-IsValid =
      let left : Stream = record t { referenced = false } in
      let kept : IsValid (store s left) =
        store-IsValid s t left found refl (ground (arith, stream-IsValid)) v in
      let streams : List Stream = put_stream left s.streams in
      let still = find_stream-put_stream left s.streams {t = t} found in
      ground (
        arith,
        kept,
        unlink-All (StreamIsValid s.role s.next_id s.last_peer_id) streams t.id kept.each,
        unlink-Distinct t.id streams kept.distinct,
        length-unlink t.id streams {t = left} still,
        responders-unlink t.id streams {t = left} still,
      )

pub control_take-IsValid :
    (s : Session) {t : Session} {id : ℕ} → control_take s ≡ taken t id → IsValid s → IsValid t
unfolding control_take
control_take-IsValid s h v = ground arith
