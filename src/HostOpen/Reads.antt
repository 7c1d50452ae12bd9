-- ===== src/HostOpen/Reads.antt =====
-- What the read and write loops of client_ready do to a client.
use mathlib.Core.Path.{subst}
use native_pipe.Base.{
  ℕ, ◌+◌, ◌-◌, ◌≤◌, ◌<◌, ◌≡◌, refl, ◌∙◌, true, not, ◌||◌, some, List, [], ◌∷◌, ◌++◌, if◌then◌else◌,
  ◌==◌, ltb, length, length-append, length-take, take, arith, Bool-cases, inl, inr, Option-cases,
}
use native_pipe.OpenWire.{header_size, max_payload}
use native_pipe.HostOpen.State.{Client}
use native_pipe.HostOpen.Request.{request_header_valid}
use native_pipe.HostOpen.Io.{
  RecvAnswer, received, recv_interrupted, recv_error, Reading, closes, waits, bad_header, complete,
  take_input, read_client, SendAnswer, took, send_interrupted, send_error, write_client,
}
use native_pipe.HostOpen.Valid.{IsClient}

-- `d` is `c` with more of its request.
pub record Advanced (c d : Client) : Type 0 where
  pub same_fd : d.fd ≡ c.fd
  pub same_token : d.token ≡ c.token
  pub same_output : d.output ≡ c.output
  pub valid : IsClient d

-- What the read loop leaves. Bytes of a request come in only while the client has no token.
abbrev pub Reads : Client → Reading → Type 0
Reads c closes = Unit {0}
Reads c (waits d) = Advanced c d
Reads c (bad_header d) = Advanced c d × (d.token ≡ 0)
Reads c (complete d) = Advanced c d × (d.token ≡ 0) × (length d.input ≡ d.expected)

request_header_bound :
    (frame : List ℕ) {n : ℕ}
    → request_header_valid frame ≡ some n
    → (header_size < n) × (n ≤ header_size + max_payload)
unfolding request_header_valid
request_header_bound frame e = ground arith

take_input-Reads :
    (c : Client) (bytes : List ℕ)
    → IsClient c
    → c.token ≡ 0
    → length bytes ≤ c.expected - length c.input
    → Reads c (take_input c bytes)
unfolding take_input
take_input-Reads c bytes v t h =
    let grown = length-append c.input bytes in
    elim (Option-cases (request_header_valid (c.input ++ bytes))) [
      | inl bad ↦ ground (arith, bad, v, t, h, grown)
      | inr (n, good) ↦
          ground (arith, good, v, t, h, grown, request_header_bound (c.input ++ bytes) {n = n})
    ]

Advanced-trans : (c d e : Client) → Advanced c d → Advanced d e → Advanced c e
Advanced-trans c d e a b = record {
  same_fd = b.same_fd ∙ a.same_fd;
  same_token = b.same_token ∙ a.same_token;
  same_output = b.same_output ∙ a.same_output;
  valid = b.valid;
}

Reads-later : (c d : Client) (r : Reading) → Advanced c d → Reads d r → Reads c r
Reads-later c d closes a h = tt
Reads-later c d (waits e) a h = Advanced-trans c d e a h
Reads-later c d (bad_header e) a (h, t) = (Advanced-trans c d e a h, t)
Reads-later c d (complete e) a (h, t, l) = (Advanced-trans c d e a h, t, l)

-- What follows a round of the loop.
abbrev rest_of : (Client → Reading) → Reading → Reading
rest_of f closes = closes
rest_of f (waits d) = f d
rest_of f (bad_header d) = bad_header d
rest_of f (complete d) = complete d

Reads-rest_of :
    (c : Client) (f : Client → Reading) (r : Reading)
    → ((d : Client) → IsClient d → Reads d (f d))
    → Reads c r
    → Reads c (rest_of f r)
Reads-rest_of c f closes k h = tt
Reads-rest_of c f (waits d) k h = Reads-later c d (f d) h (k d h.valid)
Reads-rest_of c f (bad_header d) k h = h
Reads-rest_of c f (complete d) k h = h

pub read_client-Reads :
    (answers : List RecvAnswer) (c : Client) → IsClient c → Reads c (read_client answers c)
unfolding read_client
read_client-Reads [] c v = record {
  same_fd = refl;
  same_token = refl;
  same_output = refl;
  valid = v;
}
read_client-Reads (recv_interrupted ∷ answers) c v = read_client-Reads answers c v
read_client-Reads (recv_error ∷ answers) c v = tt
read_client-Reads (received [] ∷ answers) c v = tt
read_client-Reads (received (b ∷ bs) ∷ answers) c v =
    elim (Bool-cases (length c.input == c.expected)) [
      | inl full ↦ rw full tt
      | inr more ↦
          let bytes = take (c.expected - length c.input) (b ∷ bs) in
          let short : length bytes ≤ c.expected - length c.input =
            omega (arith, length-take (c.expected - length c.input) (b ∷ bs)) in
          let free : c.token ≡ 0 = ground (arith, more, v) in
          rw more (
            Reads-rest_of c (read_client answers) (take_input c bytes) (read_client-Reads answers)
              (take_input-Reads c bytes v free short))
    ]

-- The write loop only counts what is written.
pub record Written (c d : Client) : Type 0 where
  pub same_fd : d.fd ≡ c.fd
  pub same_token : d.token ≡ c.token
  pub valid : IsClient d

pub write_client-Written :
    (answers : List SendAnswer) (c : Client) {d : Client}
    → IsClient c
    → write_client answers c ≡ some d
    → Written c d
unfolding write_client
write_client-Written [] c {d} v e = elim (Bool-cases (ltb c.sent (length c.output))) [
  | inl left ↦
      let same : c ≡ d = cc (left, e) in
      subst (Written c) same (record { same_fd = refl; same_token = refl; valid = v })
  | inr full ↦ cc (full, e)
]
write_client-Written (send_interrupted ∷ answers) c {d} v e =
    write_client-Written answers c {d = d} v (ground (arith, e))
write_client-Written (send_error ∷ answers) c v e = ground arith
write_client-Written (took n ∷ answers) c {d} v e =
    let room = length c.output - c.sent in
    let count = if ltb room n then room else n in
    let more : Client = record c { sent = c.sent + count; timed = true } in
    let ends = not (ltb c.sent (length c.output)) || (count == 0) in
    elim (Bool-cases ends) [
      | inl over ↦ cc (over, e)
      | inr on ↦
          let good : IsClient more = ground (arith, v) in
          let later = write_client-Written answers more {d = d} good (cc (on, e)) in
          record { same_fd = later.same_fd; same_token = later.same_token; valid = later.valid }
    ]
