-- ===== src/FileSession/Invariant/Received.antt =====
-- dispatch keeps the invariant, whatever frame the peer sends.
use native_pipe.Base.{
  ℕ, ◌+◌, ◌%◌, ◌^◌, ◌≤◌, ◌<◌, ◌≡◌, ◌≢◌, ◌∙◌, inl, inr, Option-cases, Bool, true, ◌||◌, some, List,
  [], ◌∷◌, ◌++◌, length, All, All-map_pred, arith, ◌==◌, length-append, length-drop, drop,
}
use native_pipe.Base.Bytes.{u32_at}
use native_pipe.FileSession.State.{
  Session, Stream, Inbound, Role, FrameType, hello, request, response, payload, notify, cancel,
  frame_max,
}
use native_pipe.FileSession.Streams.{find_stream, store, queue_cancel, is_peer_id, discard_inbound}
use native_pipe.FileSession.Dispatch.{
  Outcome, done, failed, on_cancel, on_request, on_response, on_data, on_notify, dispatch,
}
use native_pipe.FileSession.Invariant.{IsValid, StreamIsValid}
use native_pipe.FileSession.Invariant.StreamList.{
  find_stream-All, put_stream-All, put_stream-Distinct, length-put_stream, responders-put_stream,
  inbox_bytes-append,
}

-- The session that an outcome leaves.
abbrev pub session_of : Outcome → Session
session_of (done s e) = s
session_of (failed s e) = s

-- A write to a stream keeps the invariant, if the stream stays valid and stays whose it was.
pub store-IsValid :
    (s : Session) (t u : Stream)
    → find_stream s.streams u.id ≡ some t
    → u.responder ≡ t.responder
    → StreamIsValid s.role s.next_id s.last_peer_id u
    → IsValid s
    → IsValid (store s u)
store-IsValid s t u found same ok v = record {
  each = put_stream-All (StreamIsValid s.role s.next_id s.last_peer_id) s.streams u ok v.each;
  distinct = put_stream-Distinct u s.streams v.distinct;
  inbound = responders-put_stream u s.streams {t = t} found same ∙ v.inbound;
  inbound_le = v.inbound_le;
  locals = rw length-put_stream v.locals;
  counted = rw length-put_stream v.counted;
  queued = v.queued;
  queued_le = v.queued_le;
  next_lt = v.next_lt;
  next_ne = v.next_ne;
  next_mine = v.next_mine;
  last_lt = v.last_lt;
}

pub queue_cancel-IsValid :
    (alloc : Bool) (s : Session) (id : ℕ) → IsValid s → IsValid (queue_cancel alloc s id)
unfolding queue_cancel
queue_cancel-IsValid alloc s id v = ground (arith, length-append s.controls (id ∷ []))

on_cancel-IsValid :
    (s : Session) (id : ℕ) (body : List ℕ) → IsValid s → IsValid (session_of (on_cancel s id body))
unfolding on_cancel
on_cancel-IsValid s id body v = elim (Option-cases (find_stream s.streams id)) [
  | inl none_found ↦ ground arith
  | inr (t, found) ↦ ground (
    arith,
    find_stream-All (StreamIsValid s.role s.next_id s.last_peer_id) s.streams id {t = t} v.each
        found,
    store-IsValid s t (discard_inbound (record t { cancelled = true })),
  )
]

-- The counters that a new stream adds to.
pub StreamIsValid-mono :
    (role : Role) (next last next' last' : ℕ) (ts : List Stream)
    → next ≤ next'
    → last ≤ last'
    → All (StreamIsValid role next last) ts
    → All (StreamIsValid role next' last') ts
StreamIsValid-mono role next last next' last' ts h k = All-map_pred ts (λ t v. record {
  named = v.named;
  mine = v.mine;
  below = λ e. omega (arith, v.below e);
  seen = λ e. omega (arith, v.seen e);
  quota = v.quota;
  buffered = v.buffered;
  emptied = v.emptied;
})

-- An identifier above those that the peer has used is none of the streams'.
unused_peer_id :
    (role : Role) (next last id : ℕ) (ts : List Stream)
    → is_peer_id role id ≡ true
    → last < id
    → All (StreamIsValid role next last) ts
    → All (λ u. u.id ≢ id) ts
unused_peer_id role next last id ts peer h =
    All-map_pred ts (λ u v e. omega (arith, v.seen (v.mine ∙ rw e peer)))

on_request-IsValid :
    (alloc : Bool) (s : Session) (end : Bool) (id : ℕ) (body : List ℕ)
    → id < 2 ^ 32
    → IsValid s
    → IsValid (session_of (on_request alloc s end id body))
unfolding on_request
on_request-IsValid alloc s end id body hid v =
    let seen : Session = record s { last_peer_id = id } in
    ground (
      arith,
      StreamIsValid-mono s.role s.next_id s.last_peer_id s.next_id id s.streams,
      unused_peer_id s.role s.next_id s.last_peer_id id s.streams,
      queue_cancel-IsValid alloc seen id,
    )

on_response-IsValid :
    (alloc : Bool) (s : Session) (end : Bool) (id : ℕ) (body : List ℕ)
    → length body ≤ frame_max
    → IsValid s
    → IsValid (session_of (on_response alloc s end id body))
unfolding on_response
on_response-IsValid alloc s end id body hb v = elim (Option-cases (find_stream s.streams id)) [
  | inl none_found ↦ ground arith
  | inr (t, found) ↦
      let answered : Stream = record t { responded = true } in
      let m : Inbound = record {
        kind = response;
        end = end;
        status = u32_at body 0;
        body = drop 4 body;
      } in
      ground (
        arith,
        find_stream-All (StreamIsValid s.role s.next_id s.last_peer_id) s.streams id {t = t} v.each
            found,
        length-drop 4 body,
        inbox_bytes-append t.inbox m,
        store-IsValid s t answered,
        store-IsValid s t
            (record answered { remote_ended = t.remote_ended || end; inbox = t.inbox ++ (m ∷ []) }),
      )
]

on_data-IsValid :
    (alloc : Bool) (s : Session) (end : Bool) (id : ℕ) (body : List ℕ)
    → IsValid s
    → IsValid (session_of (on_data alloc s end id body))
unfolding on_data
on_data-IsValid alloc s end id body v = elim (Option-cases (find_stream s.streams id)) [
  | inl none_found ↦ ground arith
  | inr (t, found) ↦
      let counted : Stream = record t { received = t.received + length body } in
      let m : Inbound = record { kind = payload; end = end; status = 0; body = body } in
      ground (
        arith,
        find_stream-All (StreamIsValid s.role s.next_id s.last_peer_id) s.streams id {t = t} v.each
            found,
        inbox_bytes-append t.inbox m,
        store-IsValid s t counted,
        store-IsValid s t (record counted { remote_ended = t.remote_ended || end }),
        store-IsValid s t
            (record counted { remote_ended = t.remote_ended || end; inbox = t.inbox ++ (m ∷ []) }),
      )
]

-- Any frame with a 32-bit identifier and a body of at most frame_max bytes leaves a valid session,
-- whether it is served, ignored, refused or ends the session, and whether or not memory is given.
pub dispatch-IsValid :
    (alloc : Bool) (s : Session) (kind : FrameType) (flags id : ℕ) (body : List ℕ)
    → id < 2 ^ 32
    → length body ≤ frame_max
    → IsValid s
    → IsValid (session_of (dispatch alloc s kind flags id body))
unfolding dispatch
dispatch-IsValid alloc s hello flags id body hid hb v = v
dispatch-IsValid alloc s request flags id body hid hb v =
    on_request-IsValid alloc s (flags % 2 == 1) id body hid v
dispatch-IsValid alloc s response flags id body hid hb v =
    on_response-IsValid alloc s (flags % 2 == 1) id body hb v
dispatch-IsValid alloc s payload flags id body hid hb v =
    on_data-IsValid alloc s (flags % 2 == 1) id body v
dispatch-IsValid alloc s notify flags id body hid hb v = unfold on_notify in ground arith
dispatch-IsValid alloc s cancel flags id body hid hb v = on_cancel-IsValid s id body v
