-- ===== src/Wire/Writer.antt =====
-- What the put functions append to a message, when they fit and that they stay within its memory.
use native.Mathlib.Nat.{pow-suc}
use native_pipe.Base.{
  ℕ, zero, suc, ◌+◌, ◌*◌, ◌^◌, ◌≤◌, ◌≡◌, refl, ◌∙◌, ap, Bool, true, false, ◌&&◌, some, List, ◌++◌,
  ltb, leb, ◌==◌, if◌then◌else◌, length, length-append, arith, Bool-cases, inl, inr, ◌⊎◌,
  append_assoc,
}
use native_pipe.Wire.{Message, message_max, double_cap, reserve, append}

double_cap-enough :
    (fuel cap needed : ℕ)
    → needed ≤ message_max
    → needed ≤ cap * 2 ^ fuel
    → (c : ℕ) × (double_cap fuel cap needed ≡ some c) × (needed ≤ c)
unfolding double_cap
double_cap-enough zero cap needed h k = (cap, refl, omega arith)
double_cap-enough (suc fuel) cap needed h k =
    let twice : cap * 2 ^ suc fuel ≡ cap * 2 * 2 ^ fuel = simp pow-suc (grind arith) in
    let (c, e, l) = double_cap-enough fuel (cap * 2) needed h (omega (arith, twice)) in
    elim (Bool-cases (ltb cap needed)) [
      | inl more ↦ (c, ground (arith, e), l)
      | inr enough ↦ (cap, ground arith, ground arith)
    ]

-- The allocator always gives memory.
abbrev pub Gives : (ℕ → Bool) → Type 0
Gives realloc = (n : ℕ) → realloc n ≡ true

-- What reserve did: there is room for the bytes, or the message is not ok.
abbrev HasRoom : Message → ℕ → Message × Bool → Type 0
HasRoom m count r =
    (r.1 ≡ true)
    × (m.ok ≡ true)
    × (r.0.ok ≡ true)
    × (r.0.bytes ≡ m.bytes)
    × (length m.bytes + count ≤ r.0.cap)
    × (length m.bytes + count ≤ message_max)

abbrev HasNone : (ℕ → Bool) → Message → ℕ → Message × Bool → Type 0
HasNone realloc m count r =
    (r.1 ≡ false)
    × (r.0.ok ≡ false)
    × (r.0.bytes ≡ m.bytes)
    × (r.0.cap ≡ m.cap)
    × (Gives realloc → (m.ok && leb (length m.bytes + count) message_max) ≡ false)

-- `m'` is `m` after bytes were put, or is not ok. It stays in its memory, and with memory for all it is ok
-- if and only if the message is not too long.
pub record Wrote (realloc : ℕ → Bool) (m : Message) (bs : List ℕ) (m' : Message) : Type 0 where
  pub sound : m'.ok ≡ true → (m.ok ≡ true) × (m'.bytes ≡ m.bytes ++ bs)
  pub room : length m.bytes ≤ m.cap → length m'.bytes ≤ m'.cap
  pub short : length m'.bytes ≤ message_max
  pub exact : Gives realloc → m'.ok ≡ (m.ok && leb (length m.bytes + length bs) message_max)

abbrev pub IsShort : Message → Type 0
IsShort m = length m.bytes ≤ message_max

module _ (realloc : ℕ → Bool) where
  reserve-room :
      (m : Message) (count : ℕ)
      → IsShort m
      → count ≤ 2 ^ 32
      → HasRoom m count (reserve realloc m count)
        ⊎ HasNone realloc m count (reserve realloc m count)
  unfolding reserve
  reserve-room m count h k =
      let first : ℕ = if m.cap == 0 then 128 else m.cap in
      let needed = length m.bytes + count in
      elim (Bool-cases m.ok) [
        | inr bad ↦ inr (ground (arith, bad))
        | inl good ↦ elim (Bool-cases (leb needed message_max)) [
          | inr long ↦ inr (ground (arith, good, long))
          | inl fits ↦
              let (c, e, l) = double_cap-enough 64 first needed (ground arith) (ground arith) in
              elim (Bool-cases (leb needed m.cap)) [
                | inl there ↦ inl (ground (arith, good, fits, there))
                | inr more ↦ elim (Bool-cases (realloc c)) [
                  | inl given ↦ inl (ground (arith, good, fits, more, e, l, given))
                  | inr kept ↦
                      let none_given : ((reserve realloc m count).1 ≡ false)
                          × ((reserve realloc m count).0 ≡ record m { ok = false }) =
                        ground (arith, good, fits, more, e, kept) in
                      inr (
                        none_given.0,
                        ap (λ t. t.ok) none_given.1,
                        ap (λ t. t.bytes) none_given.1,
                        ap (λ t. t.cap) none_given.1,
                        (λ g. ground (arith, g c, kept)),
                      )
                ]
              ]
        ]
      ]

  pub append-Wrote :
      (m : Message) (bs : List ℕ)
      → IsShort m
      → length bs ≤ 2 ^ 32
      → Wrote realloc m bs (append realloc m bs)
  unfolding append
  append-Wrote m bs h k = elim (reserve-room m (length bs) h k) [
    | inl ready ↦ ground (arith, ready, length-append m.bytes bs)
    | inr refused ↦ record {
      sound = λ e. ground (arith, refused);
      room = λ r. ground (arith, refused);
      short = ground (arith, refused);
      exact = λ g. ground (arith, refused, refused.4 g);
    }
  ]

  pub Wrote-trans :
      (m m1 m2 : Message) (xs ys : List ℕ)
      → Wrote realloc m xs m1
      → Wrote realloc m1 ys m2
      → Wrote realloc m (xs ++ ys) m2
  Wrote-trans m m1 m2 xs ys h k = elim (Bool-cases m1.ok) [
    | inl good ↦
        let there = (h.sound good).1 in
        let l1 : length m1.bytes ≡ length m.bytes + length xs =
          ap length there ∙ length-append m.bytes xs in
        record {
          sound = λ e. (
            (h.sound good).0,
            (k.sound e).1 ∙ ap (λ t. t ++ ys) there ∙ append_assoc m.bytes xs ys,
          );
          room = λ r. k.room (h.room r);
          short = k.short;
          exact = λ g. ground (arith, good, h.exact g, k.exact g, l1, length-append xs ys);
        }
    | inr bad ↦ record {
      sound = λ e. ground (arith, bad, k.sound e);
      room = λ r. k.room (h.room r);
      short = k.short;
      exact = λ g. ground (arith, bad, h.exact g, k.exact g, length-append xs ys);
    }
  ]
