-- ===== src/FileSession/Streams.antt =====
-- The helpers of np_file_session.c that run with the lock held: the stream list, the first error, the
-- queue of CANCELs, the inbox, and the end of a stream.
use native_pipe.Base.{
  ℕ, ◌%◌, Bool, true, false, not, ◌&&◌, Option, none, some, List, [], ◌∷◌, ◌++◌, ltb, ◌==◌,
  if◌then◌else◌, is_some,
}
use native_pipe.Base.Bytes.{inc32, dec32}
use native_pipe.FileSession.State.{
  Session, Stream, Errno, enomem, enobufs, Role, host, guest, FrameType, max_pending_control,
  is_done,
}

-- find_stream
unfoldable pub find_stream : List Stream → ℕ → Option Stream
find_stream [] id = none
find_stream (t ∷ ts) id = if t.id == id then some t else find_stream ts id

-- A write through a stream pointer: the entry with the stream's identifier is replaced.
unfoldable pub put_stream : Stream → List Stream → List Stream
put_stream s [] = []
put_stream s (t ∷ ts) = if t.id == s.id then s ∷ ts else t ∷ put_stream s ts

-- `*link = stream->next` where `*link` is the stream.
unfoldable pub unlink : ℕ → List Stream → List Stream
unlink id [] = []
unlink id (t ∷ ts) = if t.id == id then ts else t ∷ unlink id ts

abbrev pub store : Session → Stream → Session
store s t = record s { streams = put_stream t s.streams }

-- fail_locked: only the first error is kept.
unfoldable pub fail_locked : Session → Errno → Session × Bool
fail_locked s e = if is_some s.error then (s, false) else (record s { error = some e }, true)

-- fail: the first error also shuts the socket down.
unfoldable pub fail : Session → Errno → Session
unfolding fail_locked
fail s e = let (t, first) = fail_locked s e in if first then record t { shut = true } else t

-- queue_cancel. `alloc` says whether calloc would give a cell.
unfoldable pub queue_cancel : Bool → Session → ℕ → Session
unfolding fail_locked
queue_cancel alloc s id =
    if is_some s.error
    then s
    else if ltb s.pending_controls max_pending_control && alloc
    then record s {
      pending_controls = inc32 s.pending_controls;
      controls = s.controls ++ (id ∷ []);
    }
    else let e = if ltb s.pending_controls max_pending_control then enomem else enobufs in
      let (t, first) = fail_locked s e in record t { shut = true }

-- discard_inbound
abbrev pub discard_inbound : Stream → Stream
discard_inbound t = record t { inbox = [] }

-- enqueue: the message goes to the tail of the inbox.
abbrev pub enqueue : Stream → FrameType → Bool → ℕ → List ℕ → Stream
enqueue t kind end status body = record t {
  inbox = t.inbox ++ (record { kind = kind; end = end; status = status; body = body } ∷ []);
}

-- is_peer_id: identifiers of streams that the host opens are even, the guest's odd.
unfoldable pub is_peer_id : Role → ℕ → Bool
is_peer_id host id = not (id == 0) && not (id % 2 == 0)
is_peer_id guest id = not (id == 0) && not (id % 2 == 1)

-- maybe_destroy, with the stream as it is in the list. The flag says that no reference to the session
-- is left.
unfoldable pub maybe_destroy : Session → Stream → Session × Bool
maybe_destroy s t =
    if t.referenced
    then (s, false)
    else if not t.cancelled && (not (is_some s.error) && not (is_done t))
    then (s, false)
    else let left = dec32 s.references in
      (
        record s {
          streams = unlink t.id s.streams;
          inbound_streams = if t.responder then dec32 s.inbound_streams else s.inbound_streams;
          references = left;
        },
        left == 0,
      )
