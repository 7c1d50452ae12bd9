-- ===== src/HostOpen/Io.antt =====
-- client_ready, io_expired and accept_ready. What the system answers to recv, send and accept4 is a list;
-- a call without an answer is one that would block.
use native_pipe.Base.{
  ℕ, zero, suc, ◌+◌, ◌-◌, Bool, true, not, ◌&&◌, ◌||◌, Option, none, some, List, [], ◌∷◌, ◌++◌, ltb,
  leb, ◌==◌, if◌then◌else◌, length, take,
}
use native_pipe.Base.Bytes.{inc32}
use native_pipe.OpenWire.{header_size}
use native_pipe.HostOpen.State.{
  max_pending, Client, HostOpen, OpenEvent, open_requested, peer_refused, find_client,
  update_client, cancel_event, close_client,
}
use native_pipe.HostOpen.Request.{
  failure_frame, respond_failure, request_header_valid, forward_request,
}

-- What recv says: bytes (none at the end), EINTR, or an error; EAGAIN is no answer.
pub data RecvAnswer : Type 0 where
  received : List ℕ → RecvAnswer
  recv_interrupted : RecvAnswer
  recv_error : RecvAnswer

-- How the read loop of client_ready leaves the client.
pub data Reading : Type 0 where
  closes : Reading
  waits : Client → Reading
  bad_header : Client → Reading
  complete : Client → Reading

-- A round of the loop that got bytes.
unfoldable pub take_input : Client → List ℕ → Reading
take_input c bytes =
    let grown : Client = record c { input = c.input ++ bytes } in
    if (length grown.input == header_size) && (c.expected == header_size)
    then elim (request_header_valid grown.input) [
      | none ↦ bad_header grown
      | some expected ↦
          let known : Client = record grown { expected = expected } in
          if length grown.input == expected then complete known else waits known
    ]
    else if length grown.input == c.expected
    then complete grown
    else waits grown

-- The read loop; recv gives no more than `available`.
unfoldable pub read_client : List RecvAnswer → Client → Reading
read_client [] c = waits c
read_client (recv_interrupted ∷ answers) c = read_client answers c
read_client (recv_error ∷ answers) c = closes
read_client (received [] ∷ answers) c = closes
read_client (received (b ∷ bs) ∷ answers) c =
    let step = take_input c (take (c.expected - length c.input) (b ∷ bs)) in
    if length c.input == c.expected then closes else elim step [
      | closes ↦ closes
      | waits d ↦ read_client answers d
      | bad_header d ↦ bad_header d
      | complete d ↦ complete d
    ]

-- What send says: how many bytes it took, EINTR, or an error; EAGAIN is no answer.
pub data SendAnswer : Type 0 where
  took : ℕ → SendAnswer
  send_interrupted : SendAnswer
  send_error : SendAnswer

-- The write loop of client_ready: the client while it blocks, nothing when the client is closed.
unfoldable pub write_client : List SendAnswer → Client → Option Client
write_client [] c = if ltb c.sent (length c.output) then some c else none
write_client (send_interrupted ∷ answers) c =
    let rest = write_client answers c in if ltb c.sent (length c.output) then rest else none
write_client (send_error ∷ answers) c = none
write_client (took n ∷ answers) c =
    let room = length c.output - c.sent in
    let count = if ltb room n then room else n in
    let rest = write_client answers (record c { sent = c.sent + count; timed = true }) in
    if not (ltb c.sent (length c.output)) || (count == 0) then none else rest

abbrev pub with_client : HostOpen → Client → HostOpen
with_client o c = record o { clients = update_client o.clients c }

-- "Invalid host open request."
abbrev pub invalid_text : List ℕ
invalid_text =
    b'I' ∷ b'n' ∷ b'v' ∷ b'a' ∷ b'l' ∷ b'i' ∷ b'd' ∷ b' ' ∷ b'h' ∷ b'o' ∷ b's' ∷ b't' ∷ b' ' ∷ b'o'
    ∷ b'p' ∷ b'e' ∷ b'n' ∷ b' ' ∷ b'r' ∷ b'e' ∷ b'q' ∷ b'u' ∷ b'e' ∷ b's' ∷ b't' ∷ b'.' ∷ []

-- "The Mac cannot receive this open request."
abbrev pub refused_text : List ℕ
refused_text =
    b'T' ∷ b'h' ∷ b'e' ∷ b' ' ∷ b'M' ∷ b'a' ∷ b'c' ∷ b' ' ∷ b'c' ∷ b'a' ∷ b'n' ∷ b'n' ∷ b'o' ∷ b't'
    ∷ b' ' ∷ b'r' ∷ b'e' ∷ b'c' ∷ b'e' ∷ b'i' ∷ b'v' ∷ b'e' ∷ b' ' ∷ b't' ∷ b'h' ∷ b'i' ∷ b's'
    ∷ b' ' ∷ b'o' ∷ b'p' ∷ b'e' ∷ b'n' ∷ b' ' ∷ b'r' ∷ b'e' ∷ b'q' ∷ b'u' ∷ b'e' ∷ b's' ∷ b't'
    ∷ b'.' ∷ []

-- "Too many pending host open requests."
abbrev pub many_text : List ℕ
many_text =
    b'T' ∷ b'o' ∷ b'o' ∷ b' ' ∷ b'm' ∷ b'a' ∷ b'n' ∷ b'y' ∷ b' ' ∷ b'p' ∷ b'e' ∷ b'n' ∷ b'd' ∷ b'i'
    ∷ b'n' ∷ b'g' ∷ b' ' ∷ b'h' ∷ b'o' ∷ b's' ∷ b't' ∷ b' ' ∷ b'o' ∷ b'p' ∷ b'e' ∷ b'n' ∷ b' '
    ∷ b'r' ∷ b'e' ∷ b'q' ∷ b'u' ∷ b'e' ∷ b's' ∷ b't' ∷ b's' ∷ b'.' ∷ []

module _ (utf8_validate : List ℕ → Bool) where
  -- What client_ready does with what the read loop found: the request is answered or forwarded. The
  -- client is nothing once it is closed.
  unfoldable pub after_read :
      Bool → Bool → HostOpen → Client → Reading → HostOpen × Option Client × List OpenEvent
  after_read ready host o c closes = let closed = close_client o c in (closed.0, none, closed.1)
  after_read ready host o c (waits d) = (with_client o d, some d, [])
  after_read ready host o c (bad_header d) =
      let e = respond_failure d invalid_text in (with_client o e, some e, [])
  after_read ready host o c (complete d) =
      let out = forward_request utf8_validate ready host o d in
      let e = if out.queued then out.client else respond_failure out.client refused_text in
      (
        record (with_client o e) { next_token = out.next },
        some e,
        if out.queued then open_requested out.client.token d.input ∷ [] else [],
      )

  -- The readable part of client_ready.
  abbrev pub read_part :
      Bool → Bool → HostOpen → List RecvAnswer → Client → HostOpen × Option Client × List OpenEvent
  read_part ready host o answers c = after_read ready host o c (read_client answers c)

  -- The writable part of client_ready; when all is written or a write fails the client is closed.
  unfoldable pub write_part : HostOpen → List SendAnswer → Client → HostOpen × List OpenEvent
  write_part o answers c = if length c.output == 0 then (o, []) else elim (write_client answers c) [
    | none ↦ close_client o c
    | some d ↦ (with_client o d, [])
  ]

  -- client_ready after its readable part.
  unfoldable pub write_after :
      HostOpen → Option Client → List OpenEvent → Bool → List SendAnswer → HostOpen × List OpenEvent
  write_after o none events writable writes = (o, events)
  write_after o (some d) events writable writes =
      let written : HostOpen × List OpenEvent =
        if writable then write_part o writes d else (o, []) in
      (written.0, events ++ written.1)

  -- client_ready on a client, with the bits of its mask.
  unfoldable pub ready_client :
      Bool
      → Bool
      → HostOpen
      → Client
      → Bool
      → Bool
      → Bool
      → List RecvAnswer
      → List SendAnswer
      → HostOpen × List OpenEvent
  ready_client ready host o c hangup readable writable reads writes =
      let read : HostOpen × Option Client × List OpenEvent =
        if readable then read_part ready host o reads c else (o, some c, []) in
      if hangup then close_client o c else write_after read.0 read.1 read.2 writable writes

  -- client_ready on the client of a descriptor.
  unfoldable pub client_ready :
      Bool
      → Bool
      → HostOpen
      → ℕ
      → Bool
      → Bool
      → Bool
      → List RecvAnswer
      → List SendAnswer
      → HostOpen × List OpenEvent
  client_ready ready host o fd hangup readable writable reads writes =
      elim (find_client o.clients fd) [
        | none ↦ (o, [])
        | some c ↦ ready_client ready host o c hangup readable writable reads writes
      ]

-- io_expired
unfoldable pub io_expired : HostOpen → ℕ → HostOpen × List OpenEvent
io_expired o fd = elim (find_client o.clients fd) [ none ↦ (o, []) | some c ↦ close_client o c ]

-- What accept4 says: a peer, with its descriptor, whether it is of the same user, and whether calloc and
-- the event loop give what its client needs; or EINTR.
pub data AcceptAnswer : Type 0 where
  accepted : ℕ → Bool → Bool → Bool → AcceptAnswer
  accept_interrupted : AcceptAnswer

abbrev pub new_client : ℕ → Client
new_client fd = record {
  fd = fd;
  token = 0;
  input = [];
  expected = header_size;
  output = [];
  sent = 0;
  timed = true;
}

-- A peer of accept_ready.
unfoldable pub accept_peer : HostOpen → ℕ → Bool → Bool → Bool → HostOpen × List OpenEvent
accept_peer o fd same_user allocated watched =
    let joined : HostOpen = record o {
      clients = o.clients ++ (new_client fd ∷ []);
      count = inc32 o.count;
    } in
    if not same_user
    then (o, [])
    else if leb max_pending o.count
    then (o, peer_refused fd (failure_frame many_text) ∷ [])
    else if not allocated
    then (o, [])
    else if not watched
    then close_client joined (new_client fd)
    else (joined, [])

-- accept_ready: at most as many peers as the first number.
unfoldable pub accept_ready : ℕ → List AcceptAnswer → HostOpen → HostOpen × List OpenEvent
accept_ready zero answers o = (o, [])
accept_ready (suc rounds) [] o = (o, [])
accept_ready (suc rounds) (accept_interrupted ∷ answers) o = accept_ready (suc rounds) answers o
accept_ready (suc rounds) (accepted fd same_user allocated watched ∷ answers) o =
    let step = accept_peer o fd same_user allocated watched in
    let rest = accept_ready rounds answers (step.0) in (rest.0, step.1 ++ rest.1)

abbrev pub close_all : List Client → List OpenEvent
close_all [] = []
close_all (c ∷ cs) = cancel_event c ++ close_all cs

-- np_host_open_finish, as far as the host sees it.
abbrev pub open_finish : HostOpen → List OpenEvent
open_finish o = close_all o.clients
