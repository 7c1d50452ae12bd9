-- ===== src/Flow/Acked.antt =====
-- An acknowledgement takes its bytes from the front of the queue.
use mathlib.Core.Path.{subst}
use native_pipe.Base.{
  ℕ, zero, suc, ◌+◌, ◌-◌, ◌%◌, ◌≤◌, ◌<◌, ◌≡◌, refl, sym, ◌∙◌, ap, true, false, List, [], ◌∷◌, ltb,
  leb, ◌==◌, if◌then◌else◌, arith, inl, inr, Bool-cases, ==_refl, ℕ-cases,
}
use native_pipe.Base.Bytes.{dec32}
use native_pipe.Flow.{Times, Pending, RemoteFlow, put, slots, ack_loop}
use native_pipe.Flow.Ring.{view, total, view-put}

module _ (t : Times) where
  open t use {Time, minus, nought}

  -- The queue without its first `n` bytes.
  abbrev pub take_front : List (Pending t) → ℕ → List (Pending t)
  take_front [] n = []
  take_front (x ∷ xs) n =
      let rest = take_front xs (n - x.bytes) in
      if n == 0
      then x ∷ xs
      else if leb x.bytes n
      then rest
      else record x { bytes = x.bytes - n } ∷ xs

  -- The chunks in flight, oldest first.
  abbrev pub queue : RemoteFlow t → List (Pending t)
  queue f = view t f.pending f.head f.count

  take_front-zero : (xs : List (Pending t)) → take_front xs 0 ≡ xs
  take_front-zero [] = refl
  take_front-zero (x ∷ xs) = refl

  pub total-take_front :
      (xs : List (Pending t)) (n : ℕ) → n ≤ total t xs → total t (take_front xs n) + n ≡ total t xs
  total-take_front [] n h = omega arith
  total-take_front (x ∷ xs) n h = ground (arith, total-take_front xs (n - x.bytes))

  pub record IsRing (f : RemoteFlow t) : Type 0 where
    pub head_lt : f.head < slots
    pub count_le : f.count ≤ slots

  -- `g` is `f` with the first `n` bytes of the queue taken.
  pub record Took (f : RemoteFlow t) (n : ℕ) (g : RemoteFlow t) : Type 0 where
    pub ring : IsRing g
    pub queued : queue g ≡ take_front (queue f) n
    pub same_bytes : g.bytes ≡ f.bytes
    pub same_window : g.window ≡ f.window

  ack_loop-zero :
      (fuel : ℕ) (f : RemoteFlow t) (now rtt : Time) → ack_loop t fuel f 0 now rtt ≡ (f, rtt)
  unfolding ack_loop
  ack_loop-zero zero f now rtt = refl
  ack_loop-zero (suc fuel) f now rtt = refl

  -- The first chunk is emptied.
  pop : (f : RemoteFlow t) → RemoteFlow t
  pop f = record f {
    pending = put t f.pending f.head (record (f.pending f.head) { bytes = 0 });
    head = (f.head + 1) % slots;
    count = dec32 f.count;
  }

  -- The first chunk keeps some bytes.
  cut : (f : RemoteFlow t) (n : ℕ) → RemoteFlow t
  cut f n = record f {
    pending =
        put t f.pending f.head (record (f.pending f.head) { bytes = (f.pending f.head).bytes - n });
  }

  queue-pop :
      (f : RemoteFlow t) (n : ℕ)
      → IsRing f
      → f.count ≡ suc n
      → queue (pop f) ≡ view t f.pending ((f.head + 1) % slots) n
  unfolding pop
  queue-pop f n r e =
      let shrunk : dec32 f.count ≡ n = omega arith in
      rw shrunk (
        view-put t f.pending f.head (record (f.pending f.head) { bytes = 0 }) ((f.head + 1) % slots)
          n (omega arith) r.head_lt (omega arith))

  queue-cut :
      (f : RemoteFlow t) (m n : ℕ)
      → IsRing f
      → f.count ≡ suc n
      → queue (cut f m)
        ≡ record (f.pending f.head) { bytes = (f.pending f.head).bytes - m }
          ∷ view t f.pending ((f.head + 1) % slots) n
  unfolding cut
  queue-cut f m n r e = rw (
    e,
    ==_refl f.head,
    view-put t f.pending f.head (record (f.pending f.head) { bytes = (f.pending f.head).bytes - m })
        ((f.head + 1) % slots) n (omega arith) r.head_lt (omega arith),
  )

  queue_first :
      (f : RemoteFlow t) (n : ℕ)
      → f.count ≡ suc n
      → queue f ≡ f.pending f.head ∷ view t f.pending ((f.head + 1) % slots) n
  queue_first f n e = rw e

  -- One round that empties the first chunk, and one that ends the loop.
  ack_loop-pop :
      (fuel : ℕ) (f : RemoteFlow t) (left : ℕ) (now rtt : Time)
      → 0 < left
      → (f.pending f.head).bytes ≤ left
      → ack_loop t (suc fuel) f left now rtt
        ≡ ack_loop t fuel
            (pop f)
            (left - (f.pending f.head).bytes)
            now
            (minus now (f.pending f.head).sent)
  unfolding ack_loop pop
  ack_loop-pop fuel f left now rtt h k =
      let some_left : (left == 0) ≡ false = ground arith in
      let all_taken : ltb left (f.pending f.head).bytes ≡ false = ground arith in
      let none_kept : (f.pending f.head).bytes - (f.pending f.head).bytes ≡ 0 = omega arith in
      rw (some_left, all_taken, none_kept)

  ack_loop-cut :
      (fuel : ℕ) (f : RemoteFlow t) (left : ℕ) (now rtt : Time)
      → 0 < left
      → left < (f.pending f.head).bytes
      → ack_loop t (suc fuel) f left now rtt ≡ (cut f left, minus now (f.pending f.head).sent)
  unfolding ack_loop cut
  ack_loop-cut fuel f left now rtt h k =
      let some_left : (left == 0) ≡ false = ground arith in
      let part_taken : ltb left (f.pending f.head).bytes ≡ true = ground arith in
      let some_kept : ((f.pending f.head).bytes - left == 0) ≡ false = ground arith in
      let none_left : left - left ≡ 0 = omega arith in
      rw (some_left, part_taken, some_kept, none_left)
        (ack_loop-zero fuel (cut f left) now (minus now (f.pending f.head).sent))

  pop-IsRing : (f : RemoteFlow t) → 0 < f.count → IsRing f → IsRing (pop f)
  unfolding pop
  pop-IsRing f k r = record { head_lt = omega arith; count_le = omega arith }

  pop_count :
      (f : RemoteFlow t) (n : ℕ)
      → IsRing f
      → f.count ≡ suc n
      → (fuel : ℕ) → f.count < suc fuel
      → (pop f).count < fuel
  unfolding pop
  pop_count f n r e fuel k = omega arith

  pop_bytes : (f : RemoteFlow t) → (pop f).bytes ≡ f.bytes
  unfolding pop
  pop_bytes f = refl

  pop_window : (f : RemoteFlow t) → (pop f).window ≡ f.window
  unfolding pop
  pop_window f = refl

  Took-none : (f : RemoteFlow t) → IsRing f → Took f 0 f
  Took-none f r = record {
    ring = r;
    queued = sym (take_front-zero (queue f));
    same_bytes = refl;
    same_window = refl;
  }

  Took-cut :
      (f : RemoteFlow t) (m n : ℕ)
      → IsRing f
      → f.count ≡ suc n
      → record (f.pending f.head) { bytes = (f.pending f.head).bytes - m }
          ∷ view t f.pending ((f.head + 1) % slots) n
        ≡ take_front (queue f) m
      → Took f m (cut f m)
  unfolding cut
  Took-cut f m n r e q = record {
    ring = record { head_lt = r.head_lt; count_le = r.count_le };
    queued = queue-cut f m n r e ∙ q;
    same_bytes = refl;
    same_window = refl;
  }

  pub ack_loop-Took :
      (fuel : ℕ) (f : RemoteFlow t) (left : ℕ) (now rtt : Time)
      → IsRing f
      → f.count < fuel
      → left ≤ total t (queue f)
      → Took f left (ack_loop t fuel f left now rtt).0
  ack_loop-Took zero f left now rtt r k h = absurd (omega arith)
  ack_loop-Took (suc fuel) f zero now rtt r k h =
      subst (λ x. Took f 0 x.0) (sym (ack_loop-zero (suc fuel) f now rtt)) (Took-none f r)
  ack_loop-Took (suc fuel) f (suc left) now rtt r k h = elim (ℕ-cases f.count) [
    | inl none_there ↦
        let nil : queue f ≡ [] = rw none_there in absurd (omega (arith, ap (total t) nil))
    | inr (n, e) ↦
        let first = f.pending f.head in
        let behind = view t f.pending ((f.head + 1) % slots) n in
        let split = queue_first f n e in
        let sum = ap (total t) split in
        let more : (suc left == 0) ≡ false = ground arith in
        elim (Bool-cases (leb first.bytes (suc left))) [
          | inl all ↦
              let whole : first.bytes ≤ suc left = ground arith in
              let popped = queue-pop f n r e in
              let later =
                ack_loop-Took fuel (pop f) (suc left - first.bytes) now (minus now first.sent)
                  (pop-IsRing f (omega (arith, e)) r) (pop_count f n r e fuel k)
                  (omega (arith, sum, ap (total t) popped)) in
              subst (λ x. Took f (suc left) x.0)
                (sym (ack_loop-pop fuel f (suc left) now rtt (omega arith) whole))
                (record {
                  ring = later.ring;
                  queued =
                      later.queued
                      ∙ ap (λ q. take_front q (suc left - first.bytes)) popped
                      ∙ sym (ap (λ q. take_front q (suc left)) split ∙ rw (more, all));
                  same_bytes = later.same_bytes ∙ pop_bytes f;
                  same_window = later.same_window ∙ pop_window f;
                })
          | inr some_stay ↦
              let part : suc left < first.bytes = ground arith in
              subst (λ x. Took f (suc left) x.0)
                (sym (ack_loop-cut fuel f (suc left) now rtt (omega arith) part))
                (Took-cut f (suc left) n r e
                  (sym (ap (λ q. take_front q (suc left)) split ∙ rw (more, some_stay))))
        ]
  ]
