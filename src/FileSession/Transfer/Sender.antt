-- ===== src/FileSession/Transfer/Sender.antt =====
-- np_file2_send writes the bytes that it was given, cut into frames.
use mathlib.Core.Path.{subst}
use native_pipe.Base.{
  ℕ, zero, suc, ◌%◌, ◌^◌, ◌+◌, ◌≤◌, ◌<◌, ◌≡◌, refl, sym, ◌∙◌, ap, Bool, true, false, not, ◌&&◌,
  ◌||◌, none, some, List, [], ◌∷◌, ◌++◌, ◌==◌, leb, if◌then◌else◌, length, take, drop, arith, inl,
  inr, Bool-cases, take-append-drop, length-take, length-drop,
}
use native_pipe.FileSession.State.{Session, Stream, payload, frame_max}
use native_pipe.FileSession.Streams.{find_stream, store}
use native_pipe.FileSession.Calls.{
  Frame, admitted, send_check, send_admit, chunk_size, finish_write, end_flag,
}
use native_pipe.FileSession.Invariant.StreamList.{find_stream-put_stream}
use native_pipe.FileSession.Transfer.{
  Sent, finished, send_loop, send, carried, IsDataOf, is_nil, after_frame,
}

-- A session that a thread may write through at once, and a stream that may still be written.
pub record CanSend (s : Session) (t : Stream) : Type 0 where
  pub live : s.error ≡ none
  pub open_gate : s.writing ≡ false
  pub found : find_stream s.streams t.id ≡ some t
  pub kept : t.cancelled ≡ false
  pub unended : t.local_ended ≡ false

-- The stream after `n` more bytes, with its half ended if `end`.
abbrev pub after_send : Stream → ℕ → Bool → Stream
after_send t n end = record t { sent = (t.sent + n) % 2 ^ 32; local_ended = t.local_ended || end }

-- One round: its frame, and the session with the gate open again.
abbrev round_frame : Stream → List ℕ → Bool → Frame
round_frame t left end = record {
  kind = payload;
  flags = end_flag (chunk_size left == length left && end);
  id = t.id;
  prefix = [];
  body = take (chunk_size left) left;
}

abbrev round_stream : Stream → List ℕ → Bool → Stream
round_stream t left end = after_send t (chunk_size left) (chunk_size left == length left && end)

module _ (s : Session) (t : Stream) (left : List ℕ) (end : Bool) (can : CanSend s t) where
  admits_round :
      send_admit s t left end
      ≡ admitted
          (store (record s { writing = true }) (round_stream t left end))
          (round_frame t left end)
  unfolding send_admit
  admits_round = ground arith

  finishes_round :
      finish_write (store (record s { writing = true }) (round_stream t left end)) none
      ≡ store s (round_stream t left end)
  unfolding finish_write
  finishes_round = ground arith

  still_found :
      find_stream (store s (round_stream t left end)).streams t.id ≡ some (round_stream t left end)
  still_found = find_stream-put_stream (round_stream t left end) s.streams {t = t} can.found

send_loop_step :
    (fuel : ℕ) (s : Session) (t : Stream) (left : List ℕ) (end : Bool)
    → CanSend s t
    → send_loop (suc fuel) s t.id left end ≡ (
        if is_nil (drop (chunk_size left) left)
        then finished (store s (round_stream t left end)) (round_frame t left end ∷ [])
        else after_frame (round_frame t left end) (
            send_loop fuel
              (store s (round_stream t left end))
              t.id
              (drop (chunk_size left) left)
              end))
unfolding send_loop
send_loop_step fuel s t left end can =
    cc (can.found, admits_round s t left end can, finishes_round s t left end can)

nil_of_length : (xs : List ℕ) → length xs ≡ 0 → xs ≡ []
nil_of_length [] h = refl
nil_of_length (x ∷ xs) h = absurd (omega arith)

not_nil_of_length : (xs : List ℕ) → 0 < length xs → is_nil xs ≡ false
not_nil_of_length [] h = absurd (omega arith)
not_nil_of_length (x ∷ xs) h = refl

-- What a whole run of the loop has done on the stream `id`, which it leaves as `final`.
abbrev pub Wrote : ℕ → List ℕ → Bool → Stream → Sent → Type 0
Wrote id left end final (finished u fs) =
    (carried fs ≡ left) × IsDataOf id end fs × (find_stream u.streams id ≡ some final)
Wrote id left end final _ = ⊥

-- The frame of a full round goes before those of the rest.
more_frames :
    (id : ℕ) (left more : List ℕ) (end : Bool) (final : Stream) (f : Frame) (r : Sent)
    → (f.kind ≡ payload)
      × (f.id ≡ id)
      × (f.prefix ≡ [])
      × (length f.body ≤ frame_max)
      × (f.flags ≡ 0)
    → f.body ++ more ≡ left
    → Wrote id more end final r
    → Wrote id left end final (after_frame f r)
more_frames id left more end final f (finished v []) head cut w = absurd w.1
more_frames id left more end final f (finished v (g ∷ fs)) (a, b, c, d, e) cut w =
    (ap (λ bytes. f.body ++ bytes) w.0 ∙ cut, (a, b, c, d, e, w.1), w.2)
more_frames id left more end final f _ head cut w = w

length-chunk : (left : List ℕ) → length (take (chunk_size left) left) ≡ chunk_size left
length-chunk left = ground (arith, length-take (chunk_size left) left)

send_loop-Wrote :
    (fuel : ℕ) (s : Session) (t : Stream) (left : List ℕ) (end : Bool)
    → length left < fuel
    → CanSend s t
    → Wrote t.id left end (after_send t (length left) end) (send_loop fuel s t.id left end)
send_loop-Wrote zero s t left end enough can = elim enough [ ]
send_loop-Wrote (suc fuel) s t left end enough can =
    let size = chunk_size left in
    let more = drop size left in
    let cut = take-append-drop size left in
    let u = round_stream t left end in
    let found = still_found s t left end can in
    elim (Bool-cases (leb (length left) frame_max)) [
      | inl small ↦
          let whole : size ≡ length left = ground arith in
          let no_more : more ≡ [] = nil_of_length more (omega (arith, length-drop size left)) in
          rw (send_loop_step fuel s t left end can, no_more)
            (
              rw no_more at cut,
              (refl, refl, refl, ground (arith, length-chunk left), ground arith),
              found ∙ ap some (ground arith),
            )
      | inr large ↦
          let full : size ≡ frame_max = ground arith in
          let some_more = not_nil_of_length more (ground (arith, length-drop size left)) in
          let final : after_send u (length more) end ≡ after_send t (length left) end =
            ground (arith, length-drop size left) in
          let can' : CanSend (store s u) u = record {
            live = can.live;
            open_gate = can.open_gate;
            found = found;
            kept = can.kept;
            unended = ground (arith, can.unended);
          } in
          rw (send_loop_step fuel s t left end can, some_more)
            (more_frames t.id left more end (after_send t (length left) end)
              (round_frame t left end) _
              (refl, refl, refl, ground (arith, length-chunk left), ground arith) cut
              (subst (λ v. Wrote t.id more end v (send_loop fuel (store s u) t.id more end)) final
                (send_loop-Wrote fuel (store s u) u more end (ground (arith, length-drop size left))
                  can')))
    ]

-- np_file2_send by one thread, with the gate open and a socket that takes everything, on a stream of a
-- live session whose half is open and that was not cancelled; a responder has responded, and the bytes are
-- no more than the limit for a stream less what was sent on it, as an unsigned number. Unless there is nothing to do, np_file2_send ends, and
-- has written DATA frames that carry the bytes in order, each of at most frame_max bytes, of which the last ends the half if that was asked.
pub send-Wrote :
    (s : Session) (t : Stream) (bytes : List ℕ) (end : Bool)
    → CanSend s t
    → send_check t (length bytes) ≡ none
    → (is_nil bytes && not end) ≡ false
    → Wrote t.id bytes end (after_send t (length bytes) end) (send s t bytes end)
unfolding send
send-Wrote s t bytes end can allowed some_work =
    subst (Wrote t.id bytes end (after_send t (length bytes) end)) (sym (cc (allowed, some_work)))
      (send_loop-Wrote (suc (length bytes)) s t bytes end (omega arith) can)
