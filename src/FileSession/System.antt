-- ===== src/FileSession/System.antt =====
-- A session with its threads: the reader, the control writer and any number of callers. A step is one
-- locked part of one thread, or the end of one thread's socket write; their order is arbitrary. The reader
-- and the control writer end before the owner closes the session: their steps need an owner.
pub mod Closed
pub mod Safety
use native_pipe.Base.{
  ℕ, ◌+◌, ◌^◌, ◌≤◌, ◌<◌, ◌≡◌, Bool, true, false, Option, some, none, List, [], ◌∷◌, ◌++◌, length,
  is_some,
}
use native_pipe.FileSession.State.{
  Session, Stream, Inbound, Errno, Role, host, guest, FrameType, frame_max,
}
use native_pipe.FileSession.Streams.{find_stream, fail}
use native_pipe.FileSession.Dispatch.{Outcome, dispatch}
use native_pipe.FileSession.Calls.{
  Frame, admitted, refused, finish_write, notify_admit, request_admit, respond_admit, send_admit,
  message, receive, cancel_stream, drop_reference, taken, control_take, control_admit,
}
use native_pipe.FileSession.Close.{close_session}
use native_pipe.FileSession.Invariant.Received.{session_of}

-- The session that np_file2_session_start sets up before it starts its threads.
unfoldable pub start : Role → Bool → Bool → Session
start role has_request has_notify = record {
  role = role;
  has_request = has_request;
  has_notify = has_notify;
  streams = [];
  controls = [];
  pending_controls = 0;
  next_id = elim role [ host ↦ 2 | guest ↦ 1 ];
  last_peer_id = 0;
  inbound_streams = 0;
  writing = false;
  error = none;
  shut = false;
  owner_closed = false;
  references = 1;
}

-- The session, the frames that a thread is writing, and those that were written whole.
pub record System : Type 0 where
  pub session : Session
  pub in_flight : List Frame
  pub wire : List Frame

-- A thread passes the gate with a frame.
pub data Admits (s : Session) : Session → Frame → Type 0 where
  notifies :
      (opcode : ℕ) (body : List ℕ) {t : Session} {f : Frame}
      → notify_admit s opcode body ≡ admitted t f
      → Admits s t f
  requests :
      (alloc : Bool) (opcode : ℕ) (body : List ℕ) (end : Bool) {t : Session} {f : Frame}
      → request_admit alloc s opcode body end ≡ admitted t f
      → Admits s t f
  responds :
      (u : Stream) (status : ℕ) (body : List ℕ) (end : Bool) {t : Session} {f : Frame}
      → find_stream s.streams u.id ≡ some u
      → respond_admit s u status body end ≡ admitted t f
      → Admits s t f
  sends :
      (u : Stream) (left : List ℕ) (end : Bool) {t : Session} {f : Frame}
      → find_stream s.streams u.id ≡ some u
      → send_admit s u left end ≡ admitted t f
      → Admits s t f
  cancels :
      (id : ℕ) {t : Session} {f : Frame}
      → s.owner_closed ≡ false
      → control_admit s id ≡ admitted t f
      → Admits s t f

-- A locked part that writes nothing.
pub data Acts (s : Session) : Session → Type 0 where
  reads :
      (alloc : Bool) (kind : FrameType) (flags id : ℕ) (body : List ℕ)
      → s.owner_closed ≡ false
      → id < 2 ^ 32
      → length body ≤ frame_max
      → Acts s (session_of (dispatch alloc s kind flags id body))
  fails : (e : Errno) → Acts s (fail s e)
  takes : {t : Session} {id : ℕ} → s.owner_closed ≡ false → control_take s ≡ taken t id → Acts s t
  receives :
      (u : Stream) {t : Session} {m : Inbound}
      → find_stream s.streams u.id ≡ some u
      → receive s u ≡ message t m
      → Acts s t
  abandons :
      (alloc : Bool) (u : Stream)
      → find_stream s.streams u.id ≡ some u
      → Acts s (cancel_stream alloc s u)
  releases : (u : Stream) → find_stream s.streams u.id ≡ some u → Acts s (drop_reference s u).0
  -- The locked part of np_file2_session_close, once the session has failed and no thread writes. Streams
  -- that callers hold stay, and their calls, their releases among them, come after it.
  closes :
      is_some s.error ≡ true
      → s.writing ≡ false
      → s.owner_closed ≡ false
      → Acts s (close_session s).0

-- The frames that were written whole, after one more write and its outcome.
abbrev pub written : Option Errno → Frame → List Frame
written none f = f ∷ []
written (some e) f = []

pub data Step : System → System → Type 0 where
  act : {x : System} {t : Session} → Acts x.session t → Step x (record x { session = t })
  admit :
      {x : System} {t : Session} {f : Frame}
      → Admits x.session t f
      → Step x (record x { session = t; in_flight = x.in_flight ++ (f ∷ []) })
  finish :
      {x : System} (f : Frame) (before after : List Frame) (o : Option Errno)
      → x.in_flight ≡ before ++ (f ∷ after)
      → Step x (record {
        session = finish_write x.session o;
        in_flight = before ++ after;
        wire = x.wire ++ written o f;
      })

abbrev pub fresh : Role → Bool → Bool → System
fresh role r n = record { session = start role r n; in_flight = []; wire = [] }

pub data Reach (x : System) : System → Type 0 where
  here : Reach x x
  later : {y z : System} → Reach x y → Step y z → Reach x z
