-- ===== src/FileSession/Dispatch.antt =====
-- dispatch of np_file_session.c, a function for each frame type. `alloc` says whether the one
-- allocation that the frame asks for succeeds; a callback is reported as an event.
use native_pipe.Base.{
  ℕ, ◌+◌, ◌-◌, ◌%◌, Bool, true, false, not, ◌&&◌, ◌||◌, Option, none, some, List, [], ◌∷◌, ltb, leb,
  ◌==◌, if◌then◌else◌, length, drop, get_or,
}
use native_pipe.Base.Bytes.{from_le16, u32_at, inc32}
use native_pipe.FileSession.State.{
  Session, Stream, Errno, eproto, enomem, FrameType, hello, request, response, payload, notify,
  cancel, stream_data_max, max_inbound_streams,
}
use native_pipe.FileSession.Streams.{
  find_stream, store, queue_cancel, discard_inbound, enqueue, is_peer_id,
}

-- The calls of `handlers.request` and `handlers.notify`, made with the lock released.
pub data Event : Type 0 where
  requested : (id opcode : ℕ) → List ℕ → Event
  notified : (opcode : ℕ) → List ℕ → Event

-- `done` is `return 0`; `failed` is `return -1` with errno.
pub data Outcome : Type 0 where
  done : Session → Option Event → Outcome
  failed : Session → Errno → Outcome

abbrev pub opcode_of : List ℕ → ℕ
opcode_of body = from_le16 (get_or body 0 0) (get_or body 1 0)

abbrev pub stream_of : Session → ℕ → Option Stream
stream_of s id = if id == 0 then none else find_stream s.streams id

unfoldable pub on_cancel : Session → ℕ → List ℕ → Outcome
on_cancel s id body =
    if id == 0 || not (length body == 0) then failed s eproto else elim (stream_of s id) [
      | none ↦ done s none
      | some t ↦
          if t.cancelled
          then done s none
          else done (store s (discard_inbound (record t { cancelled = true }))) none
    ]

-- The stream that a REQUEST opens on this side.
abbrev pub inbound_stream : ℕ → Bool → Stream
inbound_stream id end = record {
  id = id;
  referenced = true;
  responder = true;
  responded = false;
  local_ended = false;
  remote_ended = end;
  cancelled = false;
  sent = 0;
  received = 0;
  inbox = [];
}

unfoldable pub on_request : Bool → Session → Bool → ℕ → List ℕ → Outcome
on_request alloc s end id body =
    if not (is_peer_id s.role id) || (leb id s.last_peer_id || ltb (length body) 4)
    then failed s eproto
    else let seen = record s { last_peer_id = id } in
      if not s.has_request || leb max_inbound_streams s.inbound_streams
      then done (queue_cancel alloc seen id) none
      else if not alloc
      then failed seen enomem
      else done
          (record seen {
            streams = inbound_stream id end ∷ s.streams;
            inbound_streams = inc32 s.inbound_streams;
            references = inc32 s.references;
          })
          (some (requested id (opcode_of body) (drop 4 body)))

unfoldable pub on_response : Bool → Session → Bool → ℕ → List ℕ → Outcome
on_response alloc s end id body =
    if id == 0 || (is_peer_id s.role id || ltb (length body) 4)
    then failed s eproto
    else elim (stream_of s id) [
      | none ↦ if ltb id s.next_id then done s none else failed s eproto
      | some t ↦
          if t.cancelled
          then done s none
          else if t.responded || t.remote_ended
          then failed s eproto
          else let answered = record t { responded = true } in
            if not alloc
            then failed (store s answered) enomem
            else let queued = enqueue answered response end (u32_at body 0) (drop 4 body) in
              done (store s (record queued { remote_ended = t.remote_ended || end })) none
    ]

unfoldable pub on_data : Bool → Session → Bool → ℕ → List ℕ → Outcome
on_data alloc s end id body =
    if id == 0
      || ((not (is_peer_id s.role id) && leb s.next_id id)
          || (is_peer_id s.role id && ltb s.last_peer_id id))
    then failed s eproto
    else elim (stream_of s id) [
      | none ↦ done s none
      | some t ↦
          if t.cancelled
          then done s none
          else if t.remote_ended
              || ((not t.responder && not t.responded)
                  || ltb (stream_data_max - t.received) (length body))
          then failed s eproto
          else let counted = record t { received = t.received + length body } in
            if length body == 0
            then done (store s (record counted { remote_ended = t.remote_ended || end })) none
            else if not alloc
            then failed (store s counted) enomem
            else let queued = enqueue counted payload end 0 body in
              done (store s (record queued { remote_ended = t.remote_ended || end })) none
    ]

unfoldable pub on_notify : Session → ℕ → List ℕ → Outcome
on_notify s id body =
    if not (id == 0) || ltb (length body) 4
    then failed s eproto
    else done s (if s.has_notify then some (notified (opcode_of body) (drop 4 body)) else none)

-- dispatch; `end` is `flags & NP_FILE2_END_STREAM`.
unfoldable pub dispatch : Bool → Session → FrameType → ℕ → ℕ → List ℕ → Outcome
dispatch alloc s hello flags id body = failed s eproto
dispatch alloc s request flags id body = on_request alloc s (flags % 2 == 1) id body
dispatch alloc s response flags id body = on_response alloc s (flags % 2 == 1) id body
dispatch alloc s payload flags id body = on_data alloc s (flags % 2 == 1) id body
dispatch alloc s notify flags id body = on_notify s id body
dispatch alloc s cancel flags id body = on_cancel s id body
