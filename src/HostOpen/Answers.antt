-- ===== src/HostOpen/Answers.antt =====
-- The answers of the host in host_open.c on a valid state of the clients.
use native_pipe.Base.{
  ℕ, ◌+◌, ◌≤◌, ◌≡◌, ◌≢◌, refl, sym, ◌∙◌, Bool, true, false, not, ◌&&◌, some, List, [], ◌∷◌,
  if◌then◌else◌, ◌==◌, leb, length, drop, arith, Bool-cases, inl, inr, ◌⊎◌, Option-cases, All,
}
use native_pipe.OpenWire.{header_size, max_message, parse_response_header}
use native_pipe.Wire.{
  WindowReader, ReadBytes, read_u32, read_bytes, reader_finished, present_bytes, refused_bytes,
  absent,
}
use native_pipe.HostOpen.State.{Client, HostOpen}
use native_pipe.HostOpen.Request.{
  mem, tokens, well_formed, answer_client, open_response, handle_command,
}
use native_pipe.HostOpen.Valid.{IsClient, IsValid, Distinct}

module _ (utf8_validate : List ℕ → Bool) where
  -- The answer of the host.
  keeps_apart :
      (x : ℕ) (xs ys : List ℕ)
      → (x ≡ 0) ⊎ (mem x xs ≡ false)
      → (x ≢ 0 → mem x xs ≡ false → mem x ys ≡ false)
      → (x ≡ 0) ⊎ (mem x ys ≡ false)
  keeps_apart x xs ys (inl none_yet) h = inl none_yet
  keeps_apart x xs ys (inr apart) h = elim (Bool-cases (x == 0)) [
    | inl none_yet ↦ inl (ground (arith, none_yet))
    | inr live ↦ inr (h (ground (arith, live)) apart)
  ]

  mem-answer_client :
      (x : ℕ) (cs : List Client) (token : ℕ) (frame : List ℕ)
      → x ≢ 0
      → mem x (tokens cs) ≡ false
      → mem x (tokens (answer_client utf8_validate cs token frame)) ≡ false
  mem-answer_client x [] token frame n h = h
  mem-answer_client x (c ∷ cs) token frame n h =
      ground (arith, mem-answer_client x cs token frame n)

  answered-IsClient :
      (c : Client) (frame : List ℕ)
      → length frame ≤ header_size + max_message
      → IsClient c
      → IsClient (record c { token = 0; output = frame; sent = 0; timed = true })
  answered-IsClient c frame h k = record {
    read_some = k.read_some;
    header = k.header;
    bounded = k.bounded;
    waiting = inl refl;
    token_fits = omega arith;
    written = omega arith;
    answer = h;
  }

  All-answer_client :
      (cs : List Client) (token : ℕ) (frame : List ℕ)
      → length frame ≤ header_size + max_message
      → All IsClient cs
      → All IsClient (answer_client utf8_validate cs token frame)
  All-answer_client [] token frame h k = tt
  All-answer_client (c ∷ cs) token frame h (k, ks) =
      ground (arith, answered-IsClient c frame h k, All-answer_client cs token frame h ks, k, ks)

  Distinct-answer_client :
      (cs : List Client) (token : ℕ) (frame : List ℕ)
      → Distinct (tokens cs)
      → Distinct (tokens (answer_client utf8_validate cs token frame))
  Distinct-answer_client [] token frame d = tt
  Distinct-answer_client (c ∷ cs) token frame (d, ds) = elim (Bool-cases (c.token == token)) [
    | inl here ↦ rw here (inl refl, ds)
    | inr on ↦
        let rest = Distinct-answer_client cs token frame ds in
        let later = mem-answer_client c.token cs token frame in
        rw on (keeps_apart c.token _ _ d later, rest)
  ]

  length-answer_client :
      (cs : List Client) (token : ℕ) (frame : List ℕ)
      → length (answer_client utf8_validate cs token frame) ≡ length cs
  length-answer_client [] token frame = refl
  length-answer_client (c ∷ cs) token frame = ground (arith, length-answer_client cs token frame)

  parse_response_header-short :
      (frame : List ℕ) {p : ℕ × ℕ} → parse_response_header frame ≡ some p → p.1 ≤ max_message
  unfolding parse_response_header
  parse_response_header-short frame {p} e = ground (arith, e)

  well_formed-bounds :
      (token : ℕ) (frame : List ℕ)
      → well_formed utf8_validate token frame ≡ true
      → length frame ≤ header_size + max_message
  unfolding well_formed
  well_formed-bounds token frame h = elim (Option-cases (parse_response_header frame)) [
    | inl nothing ↦ cc (nothing, h)
    | inr (p, found) ↦
        let short = parse_response_header-short frame {p = p} found in
        let exact : (not (token == 0)
              && (leb header_size (length frame)
                  && ((length frame == header_size + p.1)
                      && utf8_validate (drop header_size frame))))
            ≡ true =
          cc (found, h) in
        ground (arith, exact, short)
  ]

  pub open_response-IsValid :
      (o : HostOpen) (token : ℕ) (frame : List ℕ)
      → IsValid o
      → IsValid (open_response utf8_validate o token frame).0
  unfolding open_response
  open_response-IsValid o token frame v =
      elim (Bool-cases (well_formed utf8_validate token frame)) [
        | inl good ↦
            let short = well_formed-bounds token frame good in
            rw good (record {
              each = All-answer_client o.clients token frame short v.each;
              apart = Distinct-answer_client o.clients token frame v.apart;
              counted = v.counted ∙ sym (length-answer_client o.clients token frame);
              few = v.few;
              next_fits = v.next_fits;
            })
        | inr bad ↦ rw bad v
      ]

  pub handle_command-IsValid :
      (o : HostOpen) (r : WindowReader) → IsValid o → IsValid (handle_command utf8_validate o r)
  unfolding handle_command
  handle_command-IsValid o r v = handle (read_bytes (read_u32 r).0 false)
    where
      handle :
          (second : WindowReader × ReadBytes)
          → IsValid (elim second.1 [
            | refused_bytes ↦ o
            | absent ↦ o
            | present_bytes frame ↦
                if reader_finished (second.0)
                then (open_response utf8_validate o (read_u32 r).1 frame).0
                else o
          ])
      handle (w, refused_bytes) = v
      handle (w, absent) = v
      handle (w, present_bytes frame) = elim (Bool-cases (reader_finished w)) [
        | inl whole ↦ rw whole (open_response-IsValid o (read_u32 r).1 frame v)
        | inr more ↦ rw more v
      ]
