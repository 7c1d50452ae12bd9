-- ===== src/FileSession/Reader.antt =====
-- The reader thread of np_file_session.c, over the bytes that the peer sends before it disconnects,
-- with no other thread in between; FileSession/System.antt has the interleavings.
pub mod Total
use native_pipe.Base.{
  ℕ, zero, suc, ◌≡◌, Bool, true, false, ◌&&◌, Option, none, some, List, [], ◌∷◌, ◌++◌, leb, ◌==◌,
  if◌then◌else◌, length, get_or, not,
}
use native_pipe.FileSession.State.{
  Session, Errno, econnreset, eproto, Role, host, guest, FrameType, hello,
}
use native_pipe.FileSession.Frame.{Header, Read, frame, bad, read_frame, frame_bytes}
use native_pipe.FileSession.Streams.{fail}
use native_pipe.FileSession.Dispatch.{Event, Outcome, done, failed, dispatch}

-- `version`, and the role byte of a HELLO.
abbrev pub version : ℕ
version = 2

abbrev pub role_code : Role → ℕ
role_code host = 0
role_code guest = 1

-- The HELLO that np_file2_session_start writes.
unfoldable pub hello_bytes : Role → List ℕ
hello_bytes role = frame_bytes hello 0 0 [] (version ∷ role_code role ∷ 0 ∷ 0 ∷ 0 ∷ 0 ∷ 0 ∷ 0 ∷ [])

abbrev is_hello : FrameType → Bool
is_hello hello = true
is_hello _ = false

-- What the reader demands of the first frame.
unfoldable pub hello_accepted : Role → Header → List ℕ → Bool
hello_accepted role h body =
    is_hello h.kind
    && (h.id == 0 && h.length == 8)
    && (get_or body 0 0 == version && not (get_or body 1 0 == role_code role))
    && (leb (get_or body 1 0) 1 && (get_or body 2 0 == 0 && get_or body 3 0 == 0))

-- How the reader ends: the session after its `fail`, the callbacks made, and the error given to
-- `closed`. `spent` is no behaviour of the code: the fuel ran out.
pub data ReaderEnd : Type 0 where
  closed : Session → List Event → Errno → ReaderEnd
  spent : ReaderEnd

abbrev pub events_of : Option Event → List Event
events_of none = []
events_of (some e) = e ∷ []

-- What follows the loop: the first error stays, and `closed` gets it.
unfoldable pub reader_end : Session → List Event → Errno → ReaderEnd
unfolding fail
reader_end s events e =
    let t = fail s e in closed t events (elim t.error [ none ↦ e | some first ↦ first ])

-- `while (!error)` of the reader. `alloc` answers the allocations of each round, by the rounds left.
unfoldable pub reader_loop : ℕ → (ℕ → Bool) → Session → List Event → List ℕ → ReaderEnd
unfolding reader_end
reader_loop zero alloc s events bytes = spent
reader_loop (suc fuel) alloc s events bytes = elim (read_frame bytes) [
  | bad e ↦ reader_end s events e
  | frame h body rest ↦ elim s.error [
    | some e ↦ reader_end s events e
    | none ↦ elim (dispatch (alloc fuel) s h.kind h.flags h.id body) [
      | failed t e ↦ reader_end t events e
      | done t event ↦ reader_loop fuel alloc t (events ++ events_of event) rest
    ]
  ]
]

-- A frame takes 16 bytes at least, so a round for each byte, and one more, is enough.
unfoldable pub reader : (ℕ → Bool) → Session → List ℕ → ReaderEnd
unfolding hello_accepted reader_loop
reader alloc s bytes = elim (read_frame bytes) [
  | bad e ↦ reader_end s [] e
  | frame h body rest ↦
      let served = reader_loop (suc (length rest)) alloc s [] rest in
      if hello_accepted s.role h body then served else reader_end s [] eproto
]
