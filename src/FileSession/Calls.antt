-- ===== src/FileSession/Calls.antt =====
-- The calls of np_file_session.h on a live session. Each is split where the code gives up the lock: a
-- check, an admission through the writer gate, and what follows the socket write. A thread that waits
-- runs its part again.
use native_pipe.Base.{
  ℕ, ◌+◌, ◌-◌, ◌%◌, ◌^◌, Bool, true, false, not, ◌&&◌, ◌||◌, Option, none, some, List, [], ◌∷◌,
  ◌++◌, ltb, ◌==◌, if◌then◌else◌, is_some, length, take,
}
use native_pipe.Base.Bytes.{le16, le32, inc32, dec32}
use native_pipe.FileSession.State.{
  Session, Stream, Inbound, Errno, econnreset, enomem, ecanceled, epipe, einval, emsgsize,
  eoverflow, FrameType, request, response, payload, notify, cancel, frame_max, stream_data_max,
  is_done,
}
use native_pipe.FileSession.Frame.{frame_bytes}
use native_pipe.FileSession.Streams.{
  store, fail_locked, queue_cancel, discard_inbound, maybe_destroy,
}

-- What a call hands to write_frame_unlocked.
pub record Frame : Type 0 where
  pub kind : FrameType
  pub flags : ℕ
  pub id : ℕ
  pub prefix : List ℕ
  pub body : List ℕ

abbrev pub bytes_of : Frame → List ℕ
bytes_of f = frame_bytes f.kind f.flags f.id f.prefix f.body

abbrev pub end_flag : Bool → ℕ
end_flag end = if end then 1 else 0

-- The end of a locked part: an error, a wait on `changed`, or a frame to write with the gate held.
pub data Admission : Type 0 where
  refused : Session → Errno → Admission
  waiting : Admission
  admitted : Session → Frame → Admission

pub data Gate : Type 0 where
  broken : Gate
  busy : Gate
  free : Session → Gate

-- acquire_writer
unfoldable pub acquire_writer : Session → Gate
acquire_writer s =
    if is_some s.error
    then broken
    else if s.writing
    then busy
    else free (record s { writing = true })

-- The last part of write_frame_unlocked, with the outcome of the socket writes.
unfoldable pub finish_write : Session → Option Errno → Session
unfolding fail_locked
finish_write s none = record s { writing = false }
finish_write s (some e) =
    let (t, first) = fail_locked (record s { writing = false }) e in
    if first then record t { shut = true } else t

-- np_file2_notify: the frame of write_frame.
unfoldable pub notify_admit : Session → ℕ → List ℕ → Admission
unfolding acquire_writer
notify_admit s opcode body =
    if ltb (frame_max - 4) (length body) then refused s emsgsize else elim (acquire_writer s) [
      | broken ↦ refused s econnreset
      | busy ↦ waiting
      | free t ↦ admitted t (record {
        kind = notify;
        flags = 0;
        id = 0;
        prefix = le16 opcode ++ (0 ∷ 0 ∷ []);
        body = body;
      })
    ]

-- The stream that a local request opens.
abbrev pub outbound_stream : ℕ → Bool → Stream
outbound_stream id end = record {
  id = id;
  referenced = true;
  responder = false;
  responded = false;
  local_ended = end;
  remote_ended = false;
  cancelled = false;
  sent = 0;
  received = 0;
  inbox = [];
}

-- np_file2_request up to its write. `alloc` says whether calloc gives a stream.
unfoldable pub request_admit : Bool → Session → ℕ → List ℕ → Bool → Admission
unfolding acquire_writer
request_admit alloc s opcode body end =
    if ltb (frame_max - 4) (length body)
    then refused s emsgsize
    else if not alloc
    then refused s enomem
    else elim (acquire_writer s) [
      | broken ↦ refused s econnreset
      | busy ↦ waiting
      | free t ↦
          if ltb (0xffff_ffff - 2) s.next_id
          then refused (record t { writing = false }) eoverflow
          else admitted
              (record t {
                next_id = s.next_id + 2;
                streams = outbound_stream s.next_id end ∷ s.streams;
                references = inc32 s.references;
              })
              (record {
                kind = request;
                flags = end_flag end;
                id = s.next_id;
                prefix = le16 opcode ++ (0 ∷ 0 ∷ []);
                body = body;
              })
    ]

-- stream_unusable
unfoldable pub stream_unusable : Session → Stream → Option Errno
stream_unusable s t =
    if t.cancelled
    then some ecanceled
    else if is_some s.error
    then some econnreset
    else if t.local_ended
    then some epipe
    else none

-- np_file2_respond before it waits for the gate.
unfoldable pub respond_check : Session → Stream → List ℕ → Option Errno
unfolding stream_unusable
respond_check s t body =
    if ltb (frame_max - 4) (length body) then some emsgsize else elim (stream_unusable s t) [
      | some e ↦ some e
      | none ↦ if not t.responder || t.responded then some einval else none
    ]

-- np_file2_respond from the gate to its write.
unfoldable pub respond_admit : Session → Stream → ℕ → List ℕ → Bool → Admission
unfolding acquire_writer stream_unusable
respond_admit s t status body end = elim (acquire_writer s) [
  | broken ↦ refused s econnreset
  | busy ↦ waiting
  | free u ↦ elim (stream_unusable u t) [
    | some e ↦ refused (record u { writing = false }) e
    | none ↦
        admitted (store u (record t { responded = true; local_ended = t.local_ended || end }))
          (record {
            kind = response;
            flags = end_flag end;
            id = t.id;
            prefix = le32 status;
            body = body;
          })
  ]
]

-- np_file2_send before its loop. `stream->sent` is at most the limit unless two threads send at once.
unfoldable pub send_check : Stream → ℕ → Option Errno
send_check t size =
    if t.responder && not t.responded
    then some einval
    else if ltb ((2 ^ 32 + stream_data_max - t.sent) % 2 ^ 32) size
    then some emsgsize
    else none

-- The size of the next chunk of np_file2_send.
abbrev pub chunk_size : List ℕ → ℕ
chunk_size left = if ltb frame_max (length left) then frame_max else length left

-- One round of the loop of np_file2_send, up to its write; `left` are the bytes not yet sent.
unfoldable pub send_admit : Session → Stream → List ℕ → Bool → Admission
unfolding acquire_writer stream_unusable
send_admit s t left end = elim (acquire_writer s) [
  | broken ↦ refused s econnreset
  | busy ↦ waiting
  | free u ↦ elim (stream_unusable u t) [
    | some e ↦ refused (record u { writing = false }) e
    | none ↦
        let size = chunk_size left in
        let last = size == length left && end in
        admitted
          (store u
            (record t { sent = (t.sent + size) % 2 ^ 32; local_ended = t.local_ended || last }))
          (record {
            kind = payload;
            flags = end_flag last;
            id = t.id;
            prefix = [];
            body = take size left;
          })
  ]
]

-- What np_file2_receive finds once it does not wait: a message, the end (0) or an error.
pub data Received : Type 0 where
  message : Session → Inbound → Received
  ended : Received
  broke : Errno → Received
  blocked : Received

-- np_file2_receive
unfoldable pub receive : Session → Stream → Received
receive s t = elim t.inbox [
  | m ∷ ms ↦ message (store s (record t { inbox = ms })) m
  | [] ↦
      if t.cancelled
      then broke ecanceled
      else if t.remote_ended
      then ended
      else if is_some s.error
      then broke econnreset
      else blocked
]

-- np_file2_cancel
unfoldable pub cancel_stream : Bool → Session → Stream → Session
cancel_stream alloc s t =
    if t.cancelled
    then s
    else let queued = if is_done t then s else queue_cancel alloc s t.id in
      store queued (discard_inbound (record t { cancelled = true }))

-- np_file2_stream_release: whether it cancels first, and what it does then. The flag says that the
-- session itself is freed.
unfoldable pub is_unfinished : Session → Stream → Bool
is_unfinished s t = not t.cancelled && (not (is_some s.error) && not (is_done t))

unfoldable pub drop_reference : Session → Stream → Session × Bool
unfolding maybe_destroy
drop_reference s t =
    let unreferenced = record t { referenced = false } in
    let (u, gone) = maybe_destroy (store s unreferenced) unreferenced in (u, gone && s.owner_closed)

-- np_file2_stream_cancelled
unfoldable pub stream_cancelled : Session → Stream → Bool
stream_cancelled s t = t.cancelled || is_some s.error

-- The control writer: the next CANCEL, or its end. `none` waits.
pub data Control : Type 0 where
  stopped : Control
  idle : Control
  taken : Session → ℕ → Control

unfoldable pub control_take : Session → Control
control_take s = if is_some s.error then stopped else elim s.controls [
  | [] ↦ idle
  | c ∷ cs ↦ taken (record s { controls = cs; pending_controls = dec32 s.pending_controls }) c
]

-- The frame that the control writer sends, once through the gate.
unfoldable pub control_admit : Session → ℕ → Admission
unfolding acquire_writer
control_admit s id = elim (acquire_writer s) [
  | broken ↦ refused s econnreset
  | busy ↦ waiting
  | free t ↦ admitted t (record { kind = cancel; flags = 0; id = id; prefix = []; body = [] })
]
