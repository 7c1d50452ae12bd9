-- ===== src/FileSession/State.antt =====
-- The data of common/file_rpc/np_file_session.h and .c: limits, streams, the session.
-- Pointers to streams are read as stream identifiers; a null pointer or 0 errno is `none`.
use native_pipe.Base.{ℕ, ◌*◌, Bool, ◌&&◌, Option, List}

-- The errno values that the session sets itself; `other` is what the socket reported.
pub data Errno : Type 0 where
  eproto econnreset enomem enobufs ecanceled epipe einval emsgsize eoverflow : Errno
  other : ℕ → Errno

pub data Role : Type 0 where
  host guest : Role

pub data FrameType : Type 0 where
  hello request response payload notify cancel : FrameType

abbrev pub header_size : ℕ
header_size = 16

abbrev pub frame_max : ℕ
frame_max = 65536

abbrev pub stream_data_max : ℕ
stream_data_max = 1024 * 1024

abbrev pub max_inbound_streams : ℕ
max_inbound_streams = 64

abbrev pub max_pending_control : ℕ
max_pending_control = 65536

-- `struct inbound`: a message that waits for np_file2_receive. `length` is that of `body`.
pub record Inbound : Type 0 where
  pub kind : FrameType
  pub end : Bool
  pub status : ℕ
  pub body : List ℕ

-- `struct np_file2_stream`. `inbox` is the list from `head` to `tail`.
pub record Stream : Type 0 where
  pub id : ℕ
  pub referenced : Bool
  pub responder : Bool
  pub responded : Bool
  pub local_ended : Bool
  pub remote_ended : Bool
  pub cancelled : Bool
  pub sent : ℕ
  pub received : ℕ
  pub inbox : List Inbound

-- `struct np_file2_session`. `shut` says that the socket was shut down, and `has_request` and
-- `has_notify` that the handler was given.
pub record Session : Type 0 where
  pub role : Role
  pub has_request : Bool
  pub has_notify : Bool
  pub streams : List Stream
  pub controls : List ℕ
  pub pending_controls : ℕ
  pub next_id : ℕ
  pub last_peer_id : ℕ
  pub inbound_streams : ℕ
  pub writing : Bool
  pub error : Option Errno
  pub shut : Bool
  pub owner_closed : Bool
  pub references : ℕ

-- Both directions are over.
abbrev pub is_done : Stream → Bool
is_done t = t.local_ended && t.remote_ended
