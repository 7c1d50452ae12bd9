-- ===== src/Wire/Bounds.antt =====
-- The reader of windowwire.c on any bytes.
use native_pipe.Base.{ℕ, ◌≤◌, ◌≡◌, Bool, true, false, List, [], ◌∷◌, length, arith}
use native_pipe.Wire.{
  WindowReader, reader_init, take_bytes, read_u32, read_bytes, read_string, bytes_after,
}
use native_pipe.Wire.Fields.{
  Field, u8_field, u16_field, u32_field, u64_field, bool_field, i32_field, bytes_field,
  string_field, optional_field, read_as,
}

-- The reads for these types, in their order.
abbrev pub read_all : Bool → List Field → WindowReader → WindowReader
read_all malloc [] r = r
read_all malloc (f ∷ fs) r = read_all malloc fs ((read_as malloc f r).0)

-- The reader after it has read on: on the same bytes, within them if it was, and where it was if it had
-- failed.
pub record Onward (r u : WindowReader) : Type 0 where
  pub same_bytes : u.bytes ≡ r.bytes
  pub forward : r.offset ≤ u.offset
  pub within : r.offset ≤ length r.bytes → u.offset ≤ length r.bytes
  pub failed : r.ok ≡ false → (u.ok ≡ false) × (u.offset ≡ r.offset)

Onward-refl : (r : WindowReader) → Onward r r
Onward-refl r = ground arith

Onward-trans : (r u v : WindowReader) → Onward r u → Onward u v → Onward r v
Onward-trans r u v h k = ground (arith, h, k)

take_bytes-Onward : (r : WindowReader) (n : ℕ) → Onward r (take_bytes r n).0
unfolding take_bytes
take_bytes-Onward r n = ground arith

read_u32-Onward : (r : WindowReader) → Onward r (read_u32 r).0
read_u32-Onward r = ground (arith, take_bytes-Onward r 4)

bytes_after-Onward :
    (r : WindowReader) (count : ℕ) (optional : Bool) → Onward r (bytes_after r count optional).0
unfolding bytes_after
bytes_after-Onward r count optional = ground (arith, take_bytes-Onward r count)

read_bytes-Onward : (r : WindowReader) (optional : Bool) → Onward r (read_bytes r optional).0
read_bytes-Onward r optional =
    let (u, n) = read_u32 r in
    Onward-trans r u (bytes_after u n optional).0 (read_u32-Onward r)
      (bytes_after-Onward u n optional)

read_string-Onward : (malloc : Bool) (r : WindowReader) → Onward r (read_string malloc r).0
unfolding read_string
read_string-Onward malloc r = ground (arith, read_bytes-Onward r false)

read_as-Onward : (malloc : Bool) (f : Field) (r : WindowReader) → Onward r (read_as malloc f r).0
read_as-Onward malloc (u8_field n) r = ground (arith, take_bytes-Onward r 1)
read_as-Onward malloc (u16_field n) r = ground (arith, take_bytes-Onward r 2)
read_as-Onward malloc (u32_field n) r = read_u32-Onward r
read_as-Onward malloc (u64_field n) r =
    Onward-trans r _ _ (read_u32-Onward r) (read_u32-Onward (read_u32 r).0)
read_as-Onward malloc (bool_field b) r = ground (arith, take_bytes-Onward r 1)
read_as-Onward malloc (i32_field a) r = read_u32-Onward r
read_as-Onward malloc (bytes_field bs) r = read_bytes-Onward r false
read_as-Onward malloc (string_field bs) r = read_string-Onward malloc r
read_as-Onward malloc (optional_field o) r = read_bytes-Onward r true

read_all-Onward :
    (malloc : Bool) (fs : List Field) (r : WindowReader) → Onward r (read_all malloc fs r)
read_all-Onward malloc [] r = Onward-refl r
read_all-Onward malloc (f ∷ fs) r =
    let next = (read_as malloc f r).0 in
    Onward-trans r next (read_all malloc fs next) (read_as-Onward malloc f r)
      (read_all-Onward malloc fs next)

reader_init-within :
    (d : List ℕ) (expected : ℕ)
    → ((reader_init d expected).bytes ≡ d) × ((reader_init d expected).offset ≤ length d)
unfolding reader_init
reader_init-within d expected = ground arith

-- Whatever the bytes of a message are, and whatever the types that are read from it one after the other: the
-- reader that np_window_reader_init sets up keeps those bytes and never passes their end, each read leaves
-- it where it was or further on, and once it has failed it stays failed and moves no more.
pub read_all-within :
    (malloc : Bool) (d : List ℕ) (expected : ℕ) (fs gs : List Field)
    → let first = read_all malloc fs (reader_init d expected) in
      let second = read_all malloc gs first in
      (second.bytes ≡ d)
      × (first.offset ≤ second.offset)
      × (second.offset ≤ length d)
      × (first.ok ≡ false → (second.ok ≡ false) × (second.offset ≡ first.offset))
read_all-within malloc d expected fs gs =
    let start = reader_init d expected in
    let first = read_all malloc fs start in
    let h = read_all-Onward malloc fs start in
    let k = read_all-Onward malloc gs first in ground (arith, reader_init-within d expected, h, k)
