-- ===== src/FileSession/Transfer.antt =====
-- np_file2_send by one thread with a socket that takes everything, and the peer's dispatch of the
-- frames that it wrote.
pub mod Sender
pub mod Receiver
pub mod Delivery
use native_pipe.Base.{
  ℕ, zero, suc, ◌+◌, ◌≤◌, ◌≡◌, Bool, true, false, not, ◌&&◌, Option, none, some, List, [], ◌∷◌,
  ◌++◌, ◌==◌, if◌then◌else◌, length, drop, All,
}
use native_pipe.FileSession.State.{Session, Stream, Inbound, Errno, FrameType, payload, frame_max}
use native_pipe.FileSession.Streams.{find_stream}
use native_pipe.FileSession.Dispatch.{Outcome, done, failed, dispatch}
use native_pipe.FileSession.Calls.{
  Frame, Admission, refused, waiting, admitted, send_check, send_admit, chunk_size, finish_write,
  end_flag,
}

-- How np_file2_send ends, with the frames that it wrote: `parked` waits for the gate; `dangling` is a
-- stream that is no more, and `spent` the end of the fuel, which is no behaviour of the code.
pub data Sent : Type 0 where
  finished : Session → List Frame → Sent
  stopped : Session → Errno → Sent
  parked : Sent
  dangling : Sent
  spent : Sent

abbrev pub after_frame : Frame → Sent → Sent
after_frame f (finished s fs) = finished s (f ∷ fs)
after_frame f other = other

abbrev pub is_nil : List ℕ → Bool
is_nil [] = true
is_nil (x ∷ xs) = false

-- The `do … while (length)` of np_file2_send.
unfoldable pub send_loop : ℕ → Session → ℕ → List ℕ → Bool → Sent
send_loop zero s id left end = spent
send_loop (suc fuel) s id left end = elim (find_stream s.streams id) [
  | none ↦ dangling
  | some t ↦ elim (send_admit s t left end) [
    | refused u e ↦ stopped u e
    | waiting ↦ parked
    | admitted u f ↦
        let more = drop (chunk_size left) left in
        let next = after_frame f (send_loop fuel (finish_write u none) id more end) in
        if is_nil more then finished (finish_write u none) (f ∷ []) else next
  ]
]

-- np_file2_send. Each round but the last takes a byte at least.
unfoldable pub send : Session → Stream → List ℕ → Bool → Sent
unfolding send_loop send_check
send s t bytes end =
    let run = send_loop (suc (length bytes)) s t.id bytes end in
    if is_nil bytes && not end
    then finished s []
    else elim (send_check t (length bytes)) [ some e ↦ stopped s e | none ↦ run ]

-- The bytes that frames carry, in order.
abbrev pub carried : List Frame → List ℕ
carried [] = []
carried (f ∷ fs) = f.body ++ carried fs

-- DATA frames of one stream, each within the limit; the last one alone may end the stream.
abbrev pub IsDataOf : ℕ → Bool → List Frame → Type 0
IsDataOf id end [] = ⊥
IsDataOf id end (f ∷ []) =
    (f.kind ≡ payload)
    × (f.id ≡ id)
    × (f.prefix ≡ [])
    × (length f.body ≤ frame_max)
    × (f.flags ≡ end_flag end)
IsDataOf id end (f ∷ g ∷ fs) =
    (f.kind ≡ payload)
    × (f.id ≡ id)
    × (f.prefix ≡ [])
    × (length f.body ≤ frame_max)
    × (f.flags ≡ 0)
    × IsDataOf id end (g ∷ fs)

-- The peer's reader on these frames, as far as dispatch accepts them.
unfoldable pub deliver : Bool → Session → List Frame → Option Session
deliver alloc s [] = some s
deliver alloc s (f ∷ fs) = elim (dispatch alloc s f.kind f.flags f.id (f.prefix ++ f.body)) [
  | failed t e ↦ none
  | done t event ↦ deliver alloc t fs
]

-- The bytes of the messages that wait to be received.
abbrev pub inbox_data : List Inbound → List ℕ
inbox_data [] = []
inbox_data (m ∷ ms) = m.body ++ inbox_data ms
