-- ===== src/HostOpen/Routing.antt =====
-- Where an answer of the host goes.
use native_pipe.Base.{
  ℕ, ◌≡◌, ◌≢◌, Bool, true, ◌&&◌, some, List, [], ◌∷◌, if◌then◌else◌, ◌==◌, arith, Bool-cases, inl,
  inr, Option-cases,
}
use native_pipe.OpenWire.{parse_response_header}
use native_pipe.HostOpen.State.{Client, HostOpen, find_client}
use native_pipe.HostOpen.Request.{mem, tokens, well_formed, answer_client, open_response}
use native_pipe.HostOpen.Valid.{IsValid, Distinct}

-- The client with the frame to be sent and without a token.
abbrev pub answered : Client → List ℕ → Client
answered c frame = record c { token = 0; output = frame; sent = 0; timed = true }

find_client-mem :
    (cs : List Client) (fd : ℕ) {c : Client}
    → find_client cs fd ≡ some c
    → mem c.token (tokens cs) ≡ true
find_client-mem [] fd e = ground arith
find_client-mem (g ∷ cs) fd {c} e = ground (arith, find_client-mem cs fd {c = c})

module _ (utf8_validate : List ℕ → Bool) where
  well_formed-live :
      (token : ℕ) (frame : List ℕ) → well_formed utf8_validate token frame ≡ true → token ≢ 0
  unfolding well_formed
  well_formed-live token frame h = elim (Option-cases (parse_response_header frame)) [
    | inl nothing ↦ cc (nothing, h)
    | inr (p, found) ↦ ground (arith, found, h)
  ]

  answer_client-routes :
      (cs : List Client) (token : ℕ) (frame : List ℕ) (fd : ℕ) {c : Client}
      → token ≢ 0
      → Distinct (tokens cs)
      → find_client cs fd ≡ some c
      → find_client (answer_client utf8_validate cs token frame) fd
        ≡ some (if c.token == token then answered c frame else c)
  answer_client-routes [] token frame fd n d e = ground arith
  answer_client-routes (g ∷ cs) token frame fd {c} n (d, ds) e =
      ground
        (arith, answer_client-routes cs token frame fd {c = c}, find_client-mem cs fd {c = c}, ds)

  -- On a valid state, an answer of the host that is well formed goes to the client whose token it names and
  -- to no other: that client is to be sent the frame and has no token any more; every other client is as it
  -- was. An answer that is not well formed changes no client.
  pub open_response-routes :
      (o : HostOpen) (token : ℕ) (frame : List ℕ) (fd : ℕ) {c : Client}
      → IsValid o
      → find_client o.clients fd ≡ some c
      → find_client (open_response utf8_validate o token frame).0.clients fd
        ≡ some (
            if well_formed utf8_validate token frame && (c.token == token)
            then answered c frame
            else c)
  unfolding open_response
  open_response-routes o token frame fd {c} v there =
      elim (Bool-cases (well_formed utf8_validate token frame)) [
        | inl good ↦ rw good (
            answer_client-routes o.clients token frame fd {c = c}
              (well_formed-live token frame good) v.apart there)
        | inr bad ↦ rw bad there
      ]
