-- ===== src/FileSession/Invariant/StreamList.antt =====
-- The stream list under find_stream, a write to one stream, and the unlinking of one.
use mathlib.Core.Path.{subst}
use native_pipe.Base.{
  ℕ, ◌+◌, ◌≡◌, ◌≢◌, refl, inl, inr, some, List, [], ◌∷◌, ◌++◌, length, All, arith, ◌==◌, ==_iff,
  Bool-cases, if◌then◌else◌,
}
use native_pipe.FileSession.State.{Stream, Inbound}
use native_pipe.FileSession.Streams.{find_stream, put_stream, unlink}
use native_pipe.FileSession.Invariant.{responders, Distinct, inbox_bytes}

-- What holds of all streams holds of the one that is found, which has the identifier asked for.
pub find_stream-All :
    (P : Stream → Type 0) (ts : List Stream) (id : ℕ) {t : Stream}
    → All P ts
    → find_stream ts id ≡ some t
    → P t × (t.id ≡ id)
unfolding find_stream
find_stream-All P [] id h e = absurd (ground arith)
find_stream-All P (u ∷ ts) id {t} h e = ground (arith, find_stream-All P ts id {t = t} h.1)

pub put_stream-All :
    (P : Stream → Type 0) (ts : List Stream) (s : Stream) → P s → All P ts → All P (put_stream s ts)
unfolding put_stream
put_stream-All P [] s p h = tt
put_stream-All P (t ∷ ts) s p h = ground (arith, put_stream-All P ts s p h.1)

pub unlink-All : (P : Stream → Type 0) (ts : List Stream) (id : ℕ) → All P ts → All P (unlink id ts)
unfolding unlink
unlink-All P [] id h = tt
unlink-All P (t ∷ ts) id h = ground (arith, unlink-All P ts id h.1)

pub length-put_stream : (s : Stream) (ts : List Stream) → length (put_stream s ts) ≡ length ts
unfolding put_stream
length-put_stream s [] = refl
length-put_stream s (t ∷ ts) = ground (arith, length-put_stream s ts)

-- A write keeps the identifiers distinct.
pub put_stream-Distinct : (s : Stream) (ts : List Stream) → Distinct ts → Distinct (put_stream s ts)
unfolding put_stream
put_stream-Distinct s [] d = tt
put_stream-Distinct s (t ∷ ts) d = elim (Bool-cases (t.id == s.id)) [
  | inl same ↦
      rw same (subst (λ k. All (λ (u : Stream). u.id ≢ k) ts) ((==_iff t.id s.id).0 same) d.0, d.1)
  | inr other ↦
      rw other
        (put_stream-All (λ u. u.id ≢ t.id) ts s (ground arith) d.0, put_stream-Distinct s ts d.1)
]

pub unlink-Distinct : (id : ℕ) (ts : List Stream) → Distinct ts → Distinct (unlink id ts)
unfolding unlink
unlink-Distinct id [] d = tt
unlink-Distinct id (t ∷ ts) d =
    ground (arith, unlink-Distinct id ts d.1, unlink-All (λ u. u.id ≢ t.id) ts id d.0)

-- A write that leaves who opened the stream as it was keeps the count of the peer's streams.
pub responders-put_stream :
    (s : Stream) (ts : List Stream) {t : Stream}
    → find_stream ts s.id ≡ some t
    → s.responder ≡ t.responder
    → responders (put_stream s ts) ≡ responders ts
unfolding put_stream find_stream
responders-put_stream s [] h e = refl
responders-put_stream s (u ∷ ts) {t} h e = ground (arith, responders-put_stream s ts {t = t})

pub length-unlink :
    (id : ℕ) (ts : List Stream) {t : Stream}
    → find_stream ts id ≡ some t
    → length ts ≡ length (unlink id ts) + 1
unfolding unlink find_stream
length-unlink id [] h = absurd (ground arith)
length-unlink id (u ∷ ts) {t} h = ground (arith, length-unlink id ts {t = t})

pub responders-unlink :
    (id : ℕ) (ts : List Stream) {t : Stream}
    → find_stream ts id ≡ some t
    → responders ts ≡ responders (unlink id ts) + (if t.responder then 1 else 0)
unfolding unlink find_stream
responders-unlink id [] h = absurd (ground arith)
responders-unlink id (u ∷ ts) {t} h = ground (arith, responders-unlink id ts {t = t})

-- After a write the stream that was found is found as it was written.
pub find_stream-put_stream :
    (s : Stream) (ts : List Stream) {t : Stream}
    → find_stream ts s.id ≡ some t
    → find_stream (put_stream s ts) s.id ≡ some s
unfolding put_stream find_stream
find_stream-put_stream s [] h = absurd (ground arith)
find_stream-put_stream s (u ∷ ts) {t} h = ground (arith, find_stream-put_stream s ts {t = t})

pub inbox_bytes-append :
    (ms : List Inbound) (m : Inbound)
    → inbox_bytes (ms ++ (m ∷ [])) ≡ inbox_bytes ms + length m.body
inbox_bytes-append [] m = omega arith
inbox_bytes-append (n ∷ ms) m = omega (arith, inbox_bytes-append ms m)
