-- ===== src/HostOpen/Request.antt =====
-- Requests to the host and its answers: forward_request, np_host_open_response and what they use.
use native_pipe.Base.{
  ℕ, zero, suc, ◌+◌, Bool, true, false, not, ◌&&◌, ◌||◌, Option, none, some, List, [], ◌∷◌, ◌++◌,
  ltb, leb, ◌==◌, if◌then◌else◌, length, take, drop, get_or,
}
use native_pipe.Base.Bytes.{le32, u32_at, inc32}
use native_pipe.OpenWire.{header_size, max_payload, max_message, has_control, parse_response_header}
use native_pipe.Wire.{
  WindowReader, read_u32, read_bytes, reader_finished, present_bytes, refused_bytes, absent,
}
use native_pipe.HostOpen.State.{max_pending, Client, HostOpen}

-- failure_frame
abbrev pub failure_frame : List ℕ → List ℕ
failure_frame message =
    let text = take max_message message in
    (b'N' ∷ b'P' ∷ b'O' ∷ b'R' ∷ 1 ∷ 2 ∷ 0 ∷ 0 ∷ []) ++ (le32 (length text) ++ text)

-- respond_failure
abbrev pub respond_failure : Client → List ℕ → Client
respond_failure c message = record c { output = failure_frame message; sent = 0; timed = true }

-- request_header_valid: the length that the whole frame has, or nothing.
unfoldable pub request_header_valid : List ℕ → Option ℕ
request_header_valid frame =
    let size = u32_at frame 8 in
    let magic =
      (get_or frame 0 0 == b'N')
      && ((get_or frame 1 0 == b'P')
          && ((get_or frame 2 0 == b'O') && (get_or frame 3 0 == b'P'))) in
    if not magic
      || (not (get_or frame 4 0 == 1)
          || ((not (get_or frame 5 0 == 1) && not (get_or frame 5 0 == 2))
              || (not (get_or frame 6 0 == 0)
                  || (not (get_or frame 7 0 == 0) || ((size == 0) || ltb max_payload size)))))
    then none
    else some (header_size + size)

abbrev pub mem : ℕ → List ℕ → Bool
mem x [] = false
mem x (y ∷ ys) = (y == x) || mem x ys

abbrev pub tokens : List Client → List ℕ
tokens [] = []
tokens (c ∷ cs) = c.token ∷ tokens cs

-- The loop of forward_request: the first token that is neither 0 nor some client's, and the next one.
unfoldable pub pick_token : ℕ → List ℕ → ℕ → Option (ℕ × ℕ)
pick_token zero used next = none
pick_token (suc fuel) used next =
    let later = pick_token fuel used (inc32 next) in
    if (next == 0) || mem next used then later else some (next, inc32 next)

-- One round more than there can be clients and the token 0.
abbrev pub token_rounds : ℕ
token_rounds = suc (suc max_pending)

-- What forward_request leaves: the client, the next token, and whether it was forwarded.
pub record Forwarded : Type 0 where
  pub client : Client
  pub next : ℕ
  pub queued : Bool

module _ (utf8_validate : List ℕ → Bool) where
  -- forward_request; after the last round without a token nothing is sent.
  unfoldable pub forward_request : Bool → Bool → HostOpen → Client → Forwarded
  forward_request ready host o c =
      let payload = drop header_size c.input in
      let stays : Forwarded = record { client = c; next = o.next_token; queued = false } in
      if has_control payload || not (utf8_validate payload)
      then stays
      else if not ready
      then stays
      else elim (pick_token token_rounds (tokens o.clients) o.next_token) [
        | none ↦ stays
        | some p ↦
            if host
            then record {
              client = record c { token = p.0; timed = false };
              next = p.1;
              queued = true;
            }
            else record { client = record c { token = 0 }; next = p.1; queued = false }
      ]

  -- np_host_open_response: whether the frame is well formed, and the clients.
  unfoldable pub well_formed : ℕ → List ℕ → Bool
  well_formed token frame = elim (parse_response_header frame) [
    | none ↦ false
    | some p ↦
        not (token == 0)
        && (leb header_size (length frame)
            && ((length frame == header_size + p.1) && utf8_validate (drop header_size frame)))
  ]

  abbrev pub answer_client : List Client → ℕ → List ℕ → List Client
  answer_client [] token frame = []
  answer_client (c ∷ cs) token frame =
      if c.token == token
      then record c { token = 0; output = frame; sent = 0; timed = true } ∷ cs
      else c ∷ answer_client cs token frame

  unfoldable pub open_response : HostOpen → ℕ → List ℕ → HostOpen × Bool
  open_response o token frame =
      if not (well_formed token frame)
      then (o, false)
      else (record o { clients = answer_client o.clients token frame }, true)

  -- np_host_open_handle_command, on the reader of windowwire.c.
  unfoldable pub handle_command : HostOpen → WindowReader → HostOpen
  handle_command o r =
      let first = read_u32 r in
      let second = read_bytes (first.0) false in
      elim second.1 [
        | refused_bytes ↦ o
        | absent ↦ o
        | present_bytes frame ↦
            if reader_finished (second.0) then (open_response o first.1 frame).0 else o
      ]
