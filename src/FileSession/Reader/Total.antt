-- ===== src/FileSession/Reader/Total.antt =====
-- The reader ends on every input, and what it leaves.
use mathlib.Core.Path.{subst}
use native_pipe.Base.{
  ℕ, zero, suc, ◌+◌, ◌^◌, ◌≤◌, ◌<◌, ◌≡◌, refl, ◌∙◌, Bool, true, false, not, Option, none, some,
  List, [], ◌∷◌, ◌++◌, arith, length, length-append, All, All-suffix, ◌⊎◌, inl, inr, Option-cases,
  Bool-cases, ◌==◌, if◌then◌else◌, ap,
}
use native_pipe.Base.Bytes.{IsByte}
use native_pipe.FileSession.State.{Session, Errno, Role, FrameType, frame_max, hello, eproto}
use native_pipe.FileSession.Frame.{Header, Read, frame, bad, read_frame, frame_bytes, frame_header}
use native_pipe.FileSession.Frame.RoundTrip.{read_frame_sound, read_frame-frame_bytes}
use native_pipe.FileSession.Streams.{fail}
use native_pipe.FileSession.Dispatch.{Event, Outcome, done, failed, dispatch}
use native_pipe.FileSession.Reader.{
  ReaderEnd, closed, spent, reader_end, reader_loop, reader, hello_accepted, hello_bytes, role_code,
  events_of,
}
use native_pipe.FileSession.Invariant.{IsValid}
use native_pipe.FileSession.Invariant.Received.{dispatch-IsValid}
use native_pipe.FileSession.Invariant.Called.{fail-IsValid}

-- The reader closed the session: it is valid, failed for good, and `closed` heard the error it keeps.
abbrev pub ClosedWell : ReaderEnd → Type 0
ClosedWell spent = ⊥
ClosedWell (closed s events e) = IsValid s × (s.error ≡ some e)

reader_end-ClosedWell :
    (s : Session) (events : List Event) (e : Errno) → IsValid s → ClosedWell (reader_end s events e)
unfolding reader_end
reader_end-ClosedWell s events e v = (fail-IsValid s e v, unfold fail in ground arith)

length-frame_bytes :
    (kind : FrameType) (flags id : ℕ) (body rest : List ℕ)
    → length (frame_bytes kind flags id [] body ++ rest) ≡ length body + length rest + 16
unfolding frame_bytes frame_header
length-frame_bytes kind flags id body rest = omega (arith, length-append body rest)

-- A frame that was read leaves fewer bytes, and is one that dispatch may be given.
read_frame-shorter :
    (bytes : List ℕ) {h : Header} {body rest : List ℕ}
    → All IsByte bytes
    → read_frame bytes ≡ frame h body rest
    → (length rest < length bytes) × All IsByte rest × (h.id < 2 ^ 32) × (length body ≤ frame_max)
read_frame-shorter bytes {h} {body} {rest} small e =
    let (whole, id_ok, size, size_ok, flags_ok) = read_frame_sound bytes small e in
    (
      omega (arith, ap length whole, length-frame_bytes h.kind h.flags h.id body rest),
      All-suffix IsByte (frame_bytes h.kind h.flags h.id [] body) rest
          (subst (All IsByte) whole small),
      id_ok,
      omega arith,
    )

Read-cases :
    (r : Read)
    → ((e : Errno) × (r ≡ bad e))
      ⊎ ((h : Header) × (body : List ℕ) × (rest : List ℕ) × (r ≡ frame h body rest))
Read-cases (bad e) = inl (e, refl)
Read-cases (frame h body rest) = inr (h, body, rest, refl)

Outcome-cases :
    (o : Outcome)
    → ((s : Session) × (e : Errno) × (o ≡ failed s e))
      ⊎ ((s : Session) × (e : Option Event) × (o ≡ done s e))
Outcome-cases (failed s e) = inl (s, e, refl)
Outcome-cases (done s e) = inr (s, e, refl)

-- One round of the loop, once the frame is read and dispatched.
module _ (fuel : ℕ) (alloc : ℕ → Bool) (s : Session) (events : List Event) (bytes : List ℕ)
    {h : Header} {body rest : List ℕ} (got : read_frame bytes ≡ frame h body rest)
    (live : s.error ≡ none) where
  pub reader_loop-done :
      {t : Session} {event : Option Event}
      → dispatch (alloc fuel) s h.kind h.flags h.id body ≡ done t event
      → reader_loop (suc fuel) alloc s events bytes
        ≡ reader_loop fuel alloc t (events ++ events_of event) rest
  unfolding reader_loop
  reader_loop-done e = cc (got, live, e)

  pub reader_loop-failed :
      {t : Session} {errno : Errno}
      → dispatch (alloc fuel) s h.kind h.flags h.id body ≡ failed t errno
      → reader_loop (suc fuel) alloc s events bytes ≡ reader_end t events errno
  unfolding reader_loop
  reader_loop-failed e = cc (got, live, e)

reader_loop-bad :
    (fuel : ℕ) (alloc : ℕ → Bool) (s : Session) (events : List Event) (bytes : List ℕ) {e : Errno}
    → read_frame bytes ≡ bad e
    → reader_loop (suc fuel) alloc s events bytes ≡ reader_end s events e
unfolding reader_loop
reader_loop-bad fuel alloc s events bytes got = rw (got, reader_loop)

reader_loop-broken :
    (fuel : ℕ) (alloc : ℕ → Bool) (s : Session) (events : List Event) (bytes : List ℕ) {h : Header}
    {body rest : List ℕ} {e : Errno}
    → read_frame bytes ≡ frame h body rest
    → s.error ≡ some e
    → reader_loop (suc fuel) alloc s events bytes ≡ reader_end s events e
unfolding reader_loop
reader_loop-broken fuel alloc s events bytes got broken = cc (got, broken)

reader_loop-ClosedWell :
    (fuel : ℕ) (alloc : ℕ → Bool) (s : Session) (events : List Event) (bytes : List ℕ)
    → length bytes < fuel
    → All IsByte bytes
    → IsValid s
    → ClosedWell (reader_loop fuel alloc s events bytes)
reader_loop-ClosedWell zero alloc s events bytes enough small v = elim enough [ ]
reader_loop-ClosedWell (suc fuel) alloc s events bytes enough small v =
    elim (Read-cases (read_frame bytes)) [
      | inl (e, got) ↦
          rw (reader_loop-bad fuel alloc s events bytes got) (reader_end-ClosedWell s events e v)
      | inr (h, body, rest, got) ↦
          let (less, small', id_ok, size_ok) = read_frame-shorter bytes small got in
          let after = dispatch-IsValid (alloc fuel) s h.kind h.flags h.id body id_ok size_ok v in
          elim (Option-cases s.error) [
            | inr (e, broken) ↦
                rw (reader_loop-broken fuel alloc s events bytes got broken)
                  (reader_end-ClosedWell s events e v)
            | inl live ↦ elim (Outcome-cases (dispatch (alloc fuel) s h.kind h.flags h.id body)) [
              | inl (t, e, out) ↦
                  rw (reader_loop-failed fuel alloc s events bytes got live out)
                    (reader_end-ClosedWell t events e (rw out at after))
              | inr (t, event, out) ↦ rw (reader_loop-done fuel alloc s events bytes got live out) (
                  reader_loop-ClosedWell fuel alloc t (events ++ events_of event) rest (omega arith)
                    small' (rw out at after))
            ]
          ]
    ]

reader-frame :
    (alloc : ℕ → Bool) (s : Session) (bytes : List ℕ) {h : Header} {body rest : List ℕ} (ok : Bool)
    → read_frame bytes ≡ frame h body rest
    → hello_accepted s.role h body ≡ ok
    → reader alloc s bytes
      ≡ (if ok then reader_loop (suc (length rest)) alloc s [] rest else reader_end s [] eproto)
unfolding reader
reader-frame alloc s bytes ok got e = cc (got, e)

-- On every input the reader ends, with the session valid and failed for good: `closed` is called with
-- the error that the session keeps.
pub reader-ClosedWell :
    (alloc : ℕ → Bool) (s : Session) (bytes : List ℕ)
    → All IsByte bytes
    → IsValid s
    → ClosedWell (reader alloc s bytes)
unfolding reader
reader-ClosedWell alloc s bytes small v = elim (Read-cases (read_frame bytes)) [
  | inl (e, got) ↦ rw (got, ClosedWell, reader) (reader_end-ClosedWell s [] e v)
  | inr (h, body, rest, got) ↦
      let (less, small', r, r') = read_frame-shorter bytes small got in
      elim (Bool-cases (hello_accepted s.role h body)) [
        | inl ok ↦
            rw (reader-frame alloc s bytes true got ok)
              (reader_loop-ClosedWell (suc (length rest)) alloc s [] rest (omega arith) small' v)
        | inr refused ↦
            rw (reader-frame alloc s bytes false got refused) (reader_end-ClosedWell s [] eproto v)
      ]
]

-- The first frame decides: with the HELLO of the other role the reader serves what follows, and with
-- that of its own role it ends at once, with EPROTO.
pub reader-hello :
    (alloc : ℕ → Bool) (s : Session) (peer : Role) (rest : List ℕ)
    → reader alloc s (hello_bytes peer ++ rest) ≡ (
        if role_code s.role == role_code peer
        then reader_end s [] eproto
        else reader_loop (suc (length rest)) alloc s [] rest)
unfolding hello_bytes
reader-hello alloc s peer rest =
    let body : List ℕ = 2 ∷ role_code peer ∷ 0 ∷ 0 ∷ 0 ∷ 0 ∷ 0 ∷ 0 ∷ [] in
    reader-frame alloc s _ (not (role_code s.role == role_code peer))
      (read_frame-frame_bytes hello 0 0 [] body rest (omega arith) (omega arith) refl)
      (unfold hello_accepted in ground arith)
    ∙ ground arith
