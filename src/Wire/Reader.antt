-- ===== src/Wire/Reader.antt =====
-- A reader of windowwire.c before the bytes of a value.
use native_pipe.Base.{
  ℕ, ◌+◌, ◌-◌, ◌*◌, ◌/◌, ◌%◌, ◌^◌, ◌≤◌, ◌<◌, ◌≡◌, sym, ◌∙◌, ap, Bool, true, false, not, ◌||◌, some,
  List, ◌++◌, ltb, ◌==◌, length, length-append, length-drop, drop-drop, arith, Bool-cases, inl, inr,
  take, drop, take-append, drop-append,
}
use native_pipe.Base.Bytes.{le32, from_le32-le32, IsU32, IsU64}
use native_pipe.Base.Int.{ℤ, pos_part, neg_part}
use native_pipe.Wire.{
  WindowReader, take_bytes, read_u32, read_i32, read_u64, read_bytes, bytes_after, present_bytes,
  max_field, u32_of, i32_of,
}

-- The reader stands before these bytes.
pub record StandsAt (r : WindowReader) (ahead : List ℕ) : Type 0 where
  pub ready : r.ok ≡ true
  pub within : r.offset ≤ length r.bytes
  pub next_bytes : drop r.offset r.bytes ≡ ahead

abbrev pub moved : WindowReader → ℕ → WindowReader
moved r n = record r { offset = r.offset + n }

module _ (r : WindowReader) (bs rest : List ℕ) where
  pub StandsAt-moved : StandsAt r (bs ++ rest) → StandsAt (moved r (length bs)) rest
  StandsAt-moved s =
      let left : length r.bytes - r.offset ≡ length bs + length rest =
        sym (length-drop r.offset r.bytes) ∙ ap length s.next_bytes ∙ length-append bs rest in
      record {
        ready = s.ready;
        within = omega (arith, left);
        next_bytes =
            drop-drop r.offset (length bs) r.bytes
            ∙ ap (drop (length bs)) s.next_bytes
            ∙ drop-append bs rest;
      }

  pub take_bytes-StandsAt :
      StandsAt r (bs ++ rest) → take_bytes r (length bs) ≡ (moved r (length bs), some bs)
  unfolding take_bytes
  take_bytes-StandsAt s =
      let left : length r.bytes - r.offset ≡ length bs + length rest =
        sym (length-drop r.offset r.bytes) ∙ ap length s.next_bytes ∙ length-append bs rest in
      let same : take (length bs) (drop r.offset r.bytes) ≡ bs =
        ap (take (length bs)) s.next_bytes ∙ take-append bs rest in
      let open_now : (not r.ok
            || (ltb (length r.bytes) r.offset || ltb (length r.bytes - r.offset) (length bs)))
          ≡ false =
        ground (arith, s, left) in
      rw (open_now, same)

-- A 32-bit word ahead.
pub read_u32-StandsAt :
    (r : WindowReader) (n : ℕ) (rest : List ℕ)
    → IsU32 n
    → StandsAt r (le32 n ++ rest)
    → read_u32 r ≡ (moved r 4, n)
read_u32-StandsAt r n rest h s = rw (take_bytes-StandsAt r (le32 n) rest s, from_le32-le32 n h)

i32_of-u32_of : (a : ℤ) → pos_part a < 2 ^ 31 → neg_part a ≤ 2 ^ 31 → i32_of (u32_of a) ≡ a
i32_of-u32_of a h k = ground arith

u32_of-IsU32 : (a : ℤ) → IsU32 (u32_of a)
u32_of-IsU32 a = ground arith

u64_parts : (n : ℕ) → IsU64 n → (n % 2 ^ 32) + (n / 2 ^ 32 % 2 ^ 32) * 2 ^ 32 ≡ n
u64_parts n h = omega arith

pub read_u64-StandsAt :
    (r : WindowReader) (n : ℕ) (rest : List ℕ)
    → IsU64 n
    → StandsAt r ((le32 (n % 2 ^ 32) ++ le32 (n / 2 ^ 32 % 2 ^ 32)) ++ rest)
    → read_u64 r ≡ (moved (moved r 4) 4, n)
read_u64-StandsAt r n rest h s =
    let high = n / 2 ^ 32 % 2 ^ 32 in
    let low = n % 2 ^ 32 in
    let first = read_u32-StandsAt r low (le32 high ++ rest) (omega arith) s in
    let second =
      read_u32-StandsAt (moved r 4) high rest (omega arith)
        (StandsAt-moved r (le32 low) (le32 high ++ rest) s) in
    rw (first, second, u64_parts n h)

pub read_i32-StandsAt :
    (r : WindowReader) (a : ℤ) (rest : List ℕ)
    → pos_part a < 2 ^ 31
    → neg_part a ≤ 2 ^ 31
    → StandsAt r (le32 (u32_of a) ++ rest)
    → read_i32 r ≡ (moved r 4, a)
read_i32-StandsAt r a rest h k s =
    rw (read_u32-StandsAt r (u32_of a) rest (u32_of-IsU32 a) s, i32_of-u32_of a h k)

bytes_after-StandsAt :
    (r : WindowReader) (bs rest : List ℕ) (optional : Bool)
    → length bs ≤ max_field
    → StandsAt r (bs ++ rest)
    → bytes_after r (length bs) optional ≡ (moved r (length bs), present_bytes bs)
unfolding bytes_after
bytes_after-StandsAt r bs rest optional h s =
    let taken = take_bytes-StandsAt r bs rest s in
    let not_absent : (length bs == 2 ^ 32 - 1) ≡ false = ground arith in
    let short : ltb max_field (length bs) ≡ false = ground arith in
    let open_now : not r.ok ≡ false = ap not s.ready in
    let end = ap (λ t. (t.0, present_bytes bs)) taken in
    elim (Bool-cases optional) [
      | inl may ↦ rw (open_now, may, not_absent, short, taken) end
      | inr must ↦ rw (open_now, must, not_absent, short, taken) end
    ]

pub read_bytes-StandsAt :
    (r : WindowReader) (bs rest : List ℕ) (optional : Bool)
    → length bs ≤ max_field
    → StandsAt r ((le32 (length bs) ++ bs) ++ rest)
    → read_bytes r optional ≡ (moved (moved r 4) (length bs), present_bytes bs)
read_bytes-StandsAt r bs rest optional h s =
    ap (λ t. bytes_after (t.0) t.1 optional)
      (read_u32-StandsAt r (length bs) (bs ++ rest) (omega arith) s)
    ∙ bytes_after-StandsAt (moved r 4) bs rest optional h
        (StandsAt-moved r (le32 (length bs)) (bs ++ rest) s)
