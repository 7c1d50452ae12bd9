-- ===== src/FileSession/Tests.antt =====
-- Runs of np_file_session.c on small sessions, and its theorems at concrete inputs.
use native_pipe.Base.{
  ℕ, ◌+◌, ◌^◌, ◌≤◌, ◌<◌, ◌≡◌, ◌↔◌, refl, true, false, none, some, List, [], ◌∷◌, ◌++◌, arith,
  length, is_some, Bool, not, ◌==◌,
}
use native_pipe.FileSession.State.{
  Session, Stream, host, guest, request, payload, cancel, eproto, econnreset,
}
use native_pipe.FileSession.Streams.{is_peer_id, find_stream, fail, fail_locked}
use native_pipe.FileSession.Frame.{
  frame, bad, frame_bytes, check_header, read_body, read_frame, flags_allowed,
}
use native_pipe.FileSession.Frame.RoundTrip.{read_frame-frame_bytes, read_frame_sound}
use native_pipe.FileSession.Dispatch.{done, failed, requested, dispatch, on_request}
use native_pipe.FileSession.Calls.{outbound_stream, send_check}
use native_pipe.FileSession.Invariant.{IsValid}
use native_pipe.FileSession.Invariant.Received.{session_of, dispatch-IsValid}
use native_pipe.FileSession.System.{start, fresh, here, later, act, reads, fails, closes}
use native_pipe.FileSession.System.Safety.{IsOrderly, Reach-IsOrderly}
use native_pipe.FileSession.Reader.{reader, reader_end, hello_bytes}
use native_pipe.FileSession.Reader.Total.{ClosedWell, reader-ClosedWell, reader-hello}
use native_pipe.FileSession.Close.{close, close_session}
use native_pipe.FileSession.Close.Freed.{held, close-held}
use native_pipe.FileSession.Transfer.{send}
use native_pipe.FileSession.Transfer.Sender.{CanSend, Wrote, send-Wrote, after_send}
use native_pipe.FileSession.Transfer.Receiver.{CanReceive}
use native_pipe.FileSession.Transfer.Delivery.{Delivered, send-Delivered}

-- A host with one stream that it opened and that was answered.
abbrev answered : Stream
answered = record (outbound_stream 2 false) { responded = true }

abbrev host_side : Session
host_side = record {
  role = host;
  has_request = true;
  has_notify = true;
  streams = answered ∷ [];
  controls = [];
  pending_controls = 0;
  next_id = 4;
  last_peer_id = 0;
  inbound_streams = 0;
  writing = false;
  error = none;
  shut = false;
  owner_closed = false;
  references = 2;
}

-- The guest, which opened nothing and serves that stream.
abbrev served : Stream
served = record (outbound_stream 2 false) { responder = true; responded = true }

abbrev guest_side : Session
guest_side = record host_side {
  role = guest;
  streams = served ∷ [];
  next_id = 1;
  last_peer_id = 2;
  inbound_streams = 1;
}

host_side-IsValid : IsValid host_side
unfolding is_peer_id
host_side-IsValid = ground arith

guest_side-IsValid : IsValid guest_side
unfolding is_peer_id
guest_side-IsValid = ground arith

-- A request of the peer opens a stream; one with an old identifier ends the session.
request_opens :
    dispatch true (start guest true true) request 1 2 (7 ∷ 0 ∷ 0 ∷ 0 ∷ 5 ∷ [])
    ≡ done
        (record (start guest true true) {
          streams = record (outbound_stream 2 false) { responder = true; remote_ended = true } ∷ [];
          last_peer_id = 2;
          inbound_streams = 1;
          references = 2;
        })
        (some (requested 2 7 (5 ∷ [])))
unfolding dispatch on_request is_peer_id start
request_opens = refl

request_again : dispatch true guest_side request 0 2 (0 ∷ 0 ∷ 0 ∷ 0 ∷ []) ≡ failed guest_side eproto
unfolding dispatch on_request is_peer_id
request_again = refl

-- A frame of another version of the magic, and one cut short.
bad_magic :
    read_frame (b'N' ∷ b'P' ∷ b'1' ∷ b'F' ∷ 1 ∷ 0 ∷ 0 ∷ 0 ∷ 0 ∷ 0 ∷ 0 ∷ 0 ∷ 0 ∷ 0 ∷ 0 ∷ 0 ∷ [])
    ≡ bad eproto
unfolding read_frame read_body check_header
bad_magic = refl

cut_short : read_frame (b'N' ∷ []) ≡ bad econnreset
unfolding read_frame
cut_short = refl

dispatch-IsValid_example :
    IsValid (session_of (dispatch true guest_side payload 1 2 (1 ∷ 2 ∷ 3 ∷ [])))
dispatch-IsValid_example =
    dispatch-IsValid true guest_side payload 1 2 (1 ∷ 2 ∷ 3 ∷ []) (omega arith) (omega arith)
      guest_side-IsValid

-- A guest that is asked, and asks.
abbrev asked : Session
asked = session_of (dispatch true (start guest true true) request 1 2 (7 ∷ 0 ∷ 0 ∷ 0 ∷ []))

-- The guest fails and is closed after it.
abbrev closing : Session
closing = fail asked econnreset

closing_fields :
    (is_some closing.error ≡ true) × (closing.writing ≡ false) × (closing.owner_closed ≡ false)
unfolding fail fail_locked dispatch on_request is_peer_id start
closing_fields = (refl, refl, refl)

start_owned : (start guest true true).owner_closed ≡ false
unfolding start
start_owned = refl

Reach-IsOrderly_example :
    IsOrderly (record (fresh guest true true) { session = (close_session closing).0 })
Reach-IsOrderly_example = Reach-IsOrderly guest true true (
    later
      (later
        (later here (
          act
            (reads true request 1 2 (7 ∷ 0 ∷ 0 ∷ 0 ∷ []) start_owned (omega arith) (omega arith))))
        (act (fails econnreset)))
      (act (closes closing_fields.0 closing_fields.1 closing_fields.2)))

read_frame-frame_bytes_example :
    read_frame (frame_bytes payload 1 2 [] (8 ∷ 9 ∷ []) ++ (4 ∷ []))
    ≡ frame (record { kind = payload; flags = 1; id = 2; length = 0 + 2 }) (8 ∷ 9 ∷ []) (4 ∷ [])
read_frame-frame_bytes_example =
    read_frame-frame_bytes payload 1 2 [] (8 ∷ 9 ∷ []) (4 ∷ []) (omega arith) (omega arith) refl

abbrev small_frame : List ℕ
small_frame = b'N' ∷ b'P' ∷ b'2' ∷ b'F' ∷ 6 ∷ 0 ∷ 0 ∷ 0 ∷ 3 ∷ 0 ∷ 0 ∷ 0 ∷ 0 ∷ 0 ∷ 0 ∷ 0 ∷ []

small_frame_read :
    read_frame small_frame ≡ frame (record { kind = cancel; flags = 0; id = 3; length = 0 }) [] []
unfolding read_frame read_body check_header
small_frame_read = refl

read_frame_sound_example :
    (small_frame ≡ frame_bytes cancel 0 3 [] [] ++ [])
    × (3 < 2 ^ 32)
    × ◌≡◌ {A = ℕ} 0 0
    × (0 ≤ 65536)
    × (flags_allowed cancel 0 ≡ true)
read_frame_sound_example = read_frame_sound small_frame (omega arith) small_frame_read

-- Memory in every round but the second.
abbrev gives : ℕ → Bool
gives n = not (n == 1)

reader-ClosedWell_example : ClosedWell (reader gives guest_side small_frame)
reader-ClosedWell_example =
    reader-ClosedWell gives guest_side small_frame (omega arith) guest_side-IsValid

reader-hello_example :
    reader gives guest_side (hello_bytes guest ++ []) ≡ reader_end guest_side [] eproto
reader-hello_example = reader-hello gives guest_side guest []

close-held_example :
    let (u, freed) = close host_side in
    (u.streams ≡ held host_side.streams)
    × (u.references ≡ length (held host_side.streams))
    × ((freed ≡ true) ↔ (held host_side.streams ≡ []))
close-held_example = close-held host_side host_side-IsValid refl

host_side-CanSend : CanSend host_side answered
unfolding find_stream
host_side-CanSend = record {
  live = refl;
  open_gate = refl;
  found = refl;
  kept = refl;
  unended = refl;
}

guest_side-CanReceive : CanReceive guest_side served
unfolding find_stream
guest_side-CanReceive = record {
  valid = guest_side-IsValid;
  found = refl;
  kept = refl;
  unended = refl;
  answered = refl;
}

three_allowed : send_check answered 3 ≡ none
unfolding send_check
three_allowed = refl

send-Wrote_example :
    Wrote 2
      (1 ∷ 2 ∷ 3 ∷ [])
      true
      (after_send answered 3 true)
      (send host_side answered (1 ∷ 2 ∷ 3 ∷ []) true)
send-Wrote_example =
    send-Wrote host_side answered (1 ∷ 2 ∷ 3 ∷ []) true host_side-CanSend three_allowed refl

send-Delivered_example :
    Delivered guest_side served
      (1 ∷ 2 ∷ 3 ∷ [])
      true
      (send host_side answered (1 ∷ 2 ∷ 3 ∷ []) true)
send-Delivered_example =
    send-Delivered host_side guest_side answered served (1 ∷ 2 ∷ 3 ∷ []) true host_side-CanSend
      guest_side-CanReceive refl three_allowed refl (omega arith)
