-- ===== src/FileSession/Frame.antt =====
-- The frame header: write_frame_unlocked writes it and read_frame checks it.
pub mod RoundTrip
use native_pipe.Base.{
  ℕ, ◌+◌, ◌/◌, ◌%◌, ◌≤◌, ◌<◌, ◌≡◌, Bool, true, false, ◌&&◌, ◌||◌, not, Option, none, some, List, [],
  ◌∷◌, ◌++◌, ltb, leb, ◌==◌, if◌then◌else◌, length, take, drop, get_or,
}
use native_pipe.Base.Bytes.{le32, u32_at}
use native_pipe.FileSession.State.{
  FrameType, hello, request, response, payload, notify, cancel, Errno, eproto, econnreset,
  header_size, frame_max,
}

-- The numbers of `enum np_file2_type`.
abbrev pub code_of : FrameType → ℕ
code_of hello = 1
code_of request = 2
code_of response = 3
code_of payload = 4
code_of notify = 5
code_of cancel = 6

abbrev pub type_of : ℕ → Option FrameType
type_of n =
    if n == 1
    then some hello
    else if n == 2
    then some request
    else if n == 3
    then some response
    else if n == 4
    then some payload
    else if n == 5
    then some notify
    else if n == 6
    then some cancel
    else none

-- `'N','P','2','F'`
abbrev pub magic : List ℕ
magic = b'N' ∷ b'P' ∷ b'2' ∷ b'F' ∷ []

pub record Header : Type 0 where
  pub kind : FrameType
  pub flags : ℕ
  pub id : ℕ
  pub length : ℕ

-- The header of write_frame_unlocked for a body of `size` bytes (its prefix included).
unfoldable pub frame_header : FrameType → ℕ → ℕ → ℕ → List ℕ
frame_header kind flags id size =
    b'N' ∷ b'P' ∷ b'2' ∷ b'F' ∷ code_of kind ∷ flags ∷ 0 ∷ 0 ∷ (le32 id ++ le32 size)

-- All that write_frame_unlocked hands to the socket when no write fails.
unfoldable pub frame_bytes : FrameType → ℕ → ℕ → List ℕ → List ℕ → List ℕ
frame_bytes kind flags id prefix body =
    frame_header kind flags id (length prefix + length body) ++ (prefix ++ body)

abbrev pub may_end : FrameType → Bool
may_end request = true
may_end response = true
may_end payload = true
may_end _ = false

-- `*flags & ~(may_end ? NP_FILE2_END_STREAM : 0u)` is zero.
abbrev pub flags_allowed : FrameType → ℕ → Bool
flags_allowed kind flags = if may_end kind then flags / 2 == 0 else flags == 0

abbrev pub is_magic : List ℕ → Bool
is_magic h =
    get_or h 0 0 == b'N' && (get_or h 1 0 == b'P' && (get_or h 2 0 == b'2' && get_or h 3 0 == b'F'))

pub data Read : Type 0 where
  frame : Header → List ℕ → List ℕ → Read
  bad : Errno → Read

-- The checks of read_frame on the 16 bytes of a header.
unfoldable pub check_header : List ℕ → Option Header
check_header h = elim (type_of (get_or h 4 0)) [
  | none ↦ none
  | some kind ↦
      if is_magic h
        && (get_or h 6 0 == 0 && get_or h 7 0 == 0)
        && (leb (u32_at h 12) frame_max && flags_allowed kind (get_or h 5 0))
      then some
          (record { kind = kind; flags = get_or h 5 0; id = u32_at h 8; length = u32_at h 12 })
      else none
]

-- The last read_all of read_frame: the body that the header announces.
unfoldable pub read_body : Option Header → List ℕ → Read
read_body none rest = bad eproto
read_body (some h) rest =
    if ltb (length rest) h.length
    then bad econnreset
    else frame h (take h.length rest) (drop h.length rest)

-- read_frame on the bytes that the peer has sent and will send before it disconnects: the header, the
-- body in `session->buffer`, and what follows; a short read is the ECONNRESET of read_all.
unfoldable pub read_frame : List ℕ → Read
unfolding read_body
read_frame bytes =
    if ltb (length bytes) header_size
    then bad econnreset
    else read_body (check_header (take header_size bytes)) (drop header_size bytes)
