-- ===== src/HostOpen/Handlers.antt =====
-- The events of a client in host_open.c on a valid state of the clients.
use native_pipe.Base.{
  ℕ, suc, ◌≡◌, refl, ◌∙◌, ap, Bool, true, false, Option, none, some, List, [], ◌∷◌, if◌then◌else◌,
  ◌==◌, length, length-take, arith, Bool-cases, inl, inr, ◌⊎◌, Option-cases,
}
use native_pipe.Base.Bytes.{IsU32}
use native_pipe.OpenWire.{max_message}
use native_pipe.HostOpen.State.{Client, HostOpen, OpenEvent, find_client, update_client}
use native_pipe.HostOpen.Request.{
  mem, tokens, token_rounds, Forwarded, forward_request, respond_failure,
}
use native_pipe.HostOpen.Io.{
  RecvAnswer, Reading, closes, waits, bad_header, complete, read_client, SendAnswer, write_client,
  invalid_text, refused_text, after_read, write_after, ready_client, write_part, client_ready,
  io_expired,
}
use native_pipe.HostOpen.Tokens.{pick_token-IsFresh}
use native_pipe.HostOpen.Valid.{
  IsClient, IsValid, All-find_client, with_client-IsValid, close_client-IsValid,
}
use native_pipe.HostOpen.Reads.{Reads, read_client-Reads, write_client-Written}

respond_failure-IsClient :
    (c : Client) (m : List ℕ) → c.token ≡ 0 → IsClient c → IsClient (respond_failure c m)
respond_failure-IsClient c m t v =
    let short = length-take max_message m in
    record {
      read_some = v.read_some;
      header = v.header;
      bounded = v.bounded;
      waiting = inl t;
      token_fits = v.token_fits;
      written = omega arith;
      answer = omega (arith, short);
    }

-- What forward_request does to a client whose request is complete.
record Forwards (o : HostOpen) (c : Client) (f : Forwarded) : Type 0 where
  same_fd : f.client.fd ≡ c.fd
  valid : IsClient f.client
  next_fits : IsU32 f.next
  token :
      ((f.queued ≡ false) × (f.client.token ≡ 0))
      ⊎ ((f.queued ≡ true) × (mem f.client.token (tokens o.clients) ≡ false))

find_client-update :
    (cs : List Client) (d : Client) {c : Client}
    → find_client cs d.fd ≡ some c
    → find_client (update_client cs d) d.fd ≡ some d
find_client-update [] d e = ground arith
find_client-update (g ∷ cs) d {c} e = ground (arith, find_client-update cs d {c = c})

tokens-length : (cs : List Client) → length (tokens cs) ≡ length cs
tokens-length [] = refl
tokens-length (c ∷ cs) = ap suc (tokens-length cs)

module _ (utf8_validate : List ℕ → Bool) where
  forward_request-Forwards :
      (ready host : Bool) (o : HostOpen) (c : Client)
      → IsValid o
      → IsClient c
      → c.token ≡ 0
      → length c.input ≡ c.expected
      → Forwards o c (forward_request utf8_validate ready host o c)
  unfolding forward_request
  forward_request-Forwards ready host o c v k t whole =
      let few = tokens-length o.clients in
      let (p, found, fresh) =
        pick_token-IsFresh token_rounds (tokens o.clients) o.next_token v.next_fits
          (omega (arith, few, v.counted, v.few)) (omega arith) in
      ground (arith, k, t, whole, found, fresh, v.next_fits)

  -- The client that a handler leaves is the one of its descriptor.
  Left : HostOpen → Option Client → Type 0
  Left o none = Unit {0}
  Left o (some d) = IsClient d × (find_client o.clients d.fd ≡ some d)

  after_read-IsValid :
      (ready host : Bool) (o : HostOpen) (c : Client) (r : Reading)
      → IsValid o
      → find_client o.clients c.fd ≡ some c
      → Reads c r
      → let out = after_read utf8_validate ready host o c r in IsValid out.0 × Left out.0 out.1
  unfolding after_read Left
  after_read-IsValid ready host o c closes v there h = (close_client-IsValid o c v there, tt)
  after_read-IsValid ready host o c (waits d) v there h = (
    with_client-IsValid o c v there d h.same_fd h.valid (inl h.same_token),
    (
      h.valid,
      find_client-update o.clients d {c = c} (ap (find_client o.clients) h.same_fd ∙ there),
    ),
  )
  after_read-IsValid ready host o c (bad_header d) v there (h, t) =
      let e = respond_failure d invalid_text in
      let good = respond_failure-IsClient d invalid_text t h.valid in
      (
        with_client-IsValid o c v there e h.same_fd good (inr (inl t)),
        (
          good,
          find_client-update o.clients e {c = c} (ap (find_client o.clients) h.same_fd ∙ there),
        ),
      )
  after_read-IsValid ready host o c (complete d) v there (h, t, whole) =
      let out = forward_request utf8_validate ready host o d in
      let f = forward_request-Forwards ready host o d v h.valid t whole in
      let e = if out.queued then out.client else respond_failure out.client refused_text in
      let refusal = respond_failure-IsClient out.client refused_text in
      let good : IsClient e = ground (arith, refusal, f) in
      let fd : e.fd ≡ c.fd = ground (arith, f, h.same_fd) in
      let token : (e.token ≡ 0) ⊎ (mem e.token (tokens o.clients) ≡ false) = ground (arith, f) in
      let w = with_client-IsValid o c v there e fd good (inr token) in
      (
        record {
          each = w.each;
          apart = w.apart;
          counted = w.counted;
          few = w.few;
          next_fits = f.next_fits;
        },
        (good, find_client-update o.clients e {c = c} (ap (find_client o.clients) fd ∙ there)),
      )

  write_part-IsValid :
      (o : HostOpen) (answers : List SendAnswer) (c : Client)
      → IsValid o
      → IsClient c
      → find_client o.clients c.fd ≡ some c
      → IsValid (write_part utf8_validate o answers c).0
  unfolding write_part
  write_part-IsValid o answers c v k there = elim (Bool-cases (length c.output == 0)) [
    | inl nothing ↦ rw nothing v
    | inr some_output ↦ elim (Option-cases (write_client answers c)) [
      | inl over ↦ rw (some_output, over) (close_client-IsValid o c v there)
      | inr (d, on) ↦
          let w = write_client-Written answers c {d = d} k on in
          rw (some_output, on)
            (with_client-IsValid o c v there d w.same_fd w.valid (inl w.same_token))
    ]
  ]

  write_after-IsValid :
      (o : HostOpen) (r : Option Client) (events : List OpenEvent) (writable : Bool)
      (answers : List SendAnswer)
      → IsValid o
      → Left o r
      → IsValid (write_after utf8_validate o r events writable answers).0
  unfolding write_after Left
  write_after-IsValid o none events writable answers v h = v
  write_after-IsValid o (some d) events true answers v (k, there) =
      write_part-IsValid o answers d v k there
  write_after-IsValid o (some d) events false answers v h = v

  ready_client-IsValid :
      (ready host : Bool) (o : HostOpen) (c : Client) (hangup readable writable : Bool)
      (reads : List RecvAnswer) (writes : List SendAnswer)
      → IsValid o
      → IsClient c
      → find_client o.clients c.fd ≡ some c
      → IsValid (ready_client utf8_validate ready host o c hangup readable writable reads writes).0
  unfolding ready_client Left
  ready_client-IsValid ready host o c true readable writable reads writes v k there =
      close_client-IsValid o c v there
  ready_client-IsValid ready host o c false true writable reads writes v k there =
      let read = after_read utf8_validate ready host o c (read_client reads c) in
      let (good, left) =
        after_read-IsValid ready host o c (read_client reads c) v there
          (read_client-Reads reads c k) in
      write_after-IsValid read.0 read.1 read.2 writable writes good left
  ready_client-IsValid ready host o c false false writable reads writes v k there =
      write_after-IsValid o (some c) [] writable writes v (k, there)

  pub client_ready-IsValid :
      (ready host : Bool) (o : HostOpen) (fd : ℕ) (hangup readable writable : Bool)
      (reads : List RecvAnswer) (writes : List SendAnswer)
      → IsValid o
      → IsValid (client_ready utf8_validate ready host o fd hangup readable writable reads writes).0
  unfolding client_ready
  client_ready-IsValid ready host o fd hangup readable writable reads writes v =
      elim (Option-cases (find_client o.clients fd)) [
        | inl gone ↦ rw (client_ready, gone) v
        | inr (c, there) ↦
            let (k, e) = All-find_client IsClient o.clients fd {c = c} there v.each in
            rw (client_ready, there)
              (ready_client-IsValid ready host o c hangup readable writable reads writes v k
                (ap (find_client o.clients) e ∙ there))
      ]

pub io_expired-IsValid : (o : HostOpen) (fd : ℕ) → IsValid o → IsValid (io_expired o fd).0
unfolding io_expired
io_expired-IsValid o fd v = elim (Option-cases (find_client o.clients fd)) [
  | inl gone ↦ rw (io_expired, gone) v
  | inr (c, there) ↦
      let (k, e) = All-find_client IsClient o.clients fd {c = c} there v.each in
      rw (io_expired, there) (close_client-IsValid o c v (ap (find_client o.clients) e ∙ there))
]
