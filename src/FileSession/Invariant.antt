-- ===== src/FileSession/Invariant.antt =====
-- The invariant of a session: identifiers, counters and the memory that the peer can use.
pub mod StreamList
pub mod Received
pub mod Called
use native_pipe.Base.{
  ℕ, ◌+◌, ◌/◌, ◌^◌, ◌≤◌, ◌<◌, ◌≡◌, ◌≢◌, Bool, true, false, not, ◌&&◌, List, [], ◌∷◌, length, All,
  if◌then◌else◌,
}
use native_pipe.FileSession.State.{
  Session, Stream, Inbound, Role, frame_max, stream_data_max, max_inbound_streams,
  max_pending_control,
}
use native_pipe.FileSession.Streams.{is_peer_id}

-- The bytes that wait in an inbox.
abbrev pub inbox_bytes : List Inbound → ℕ
inbox_bytes [] = 0
inbox_bytes (m ∷ ms) = length m.body + inbox_bytes ms

-- Streams that the peer opened.
abbrev pub responders : List Stream → ℕ
responders [] = 0
responders (t ∷ ts) = if t.responder then responders ts + 1 else responders ts

-- No two streams have one identifier.
abbrev pub Distinct : List Stream → Type 0
Distinct [] = Unit {0}
Distinct (t ∷ ts) = All (λ u. u.id ≢ t.id) ts × Distinct ts

-- What one stream may buffer: its DATA, and one response to a stream that this side opened.
abbrev pub room : Stream → ℕ
room t = t.received + (if t.responded && not t.responder then frame_max else 0)

-- A stream of a session in `role` that has assigned the identifiers below `next` and has seen the
-- peer's up to `last`.
pub record StreamIsValid (role : Role) (next last : ℕ) (t : Stream) : Type 0 where
  pub named : t.id ≢ 0
  pub mine : t.responder ≡ is_peer_id role t.id
  pub below : t.responder ≡ false → t.id < next
  pub seen : t.responder ≡ true → t.id ≤ last
  pub quota : t.received ≤ stream_data_max
  pub buffered : inbox_bytes t.inbox ≤ room t
  pub emptied : t.cancelled ≡ true → t.inbox ≡ []

abbrev pub owner_count : Bool → ℕ
owner_count closed = if closed then 0 else 1

pub record IsValid (s : Session) : Type 0 where
  pub each : All (StreamIsValid s.role s.next_id s.last_peer_id) s.streams
  pub distinct : Distinct s.streams
  pub inbound : responders s.streams ≡ s.inbound_streams
  pub inbound_le : s.inbound_streams ≤ max_inbound_streams
  pub locals : length s.streams ≤ s.inbound_streams + s.next_id / 2
  pub counted : s.references ≡ length s.streams + owner_count s.owner_closed
  pub queued : s.pending_controls ≡ length s.controls
  pub queued_le : s.pending_controls ≤ max_pending_control
  pub next_lt : s.next_id < 2 ^ 32
  pub next_ne : s.next_id ≢ 0
  pub next_mine : is_peer_id s.role s.next_id ≡ false
  pub last_lt : s.last_peer_id < 2 ^ 32
