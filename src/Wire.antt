-- ===== src/Wire.antt =====
-- guest/compositor/windowwire.c: the messages to and from the host. The bytes of a message are a list, of
-- which `len` is the length; a double is its 64-bit pattern; whether realloc gives memory is a parameter.
pub mod Writer
pub mod Reader
pub mod Layout
pub mod Fields
pub mod Bounds
pub mod RoundTrip
mod Tests
use native_pipe.Base.{
  ℕ, zero, suc, ◌+◌, ◌-◌, ◌*◌, ◌/◌, ◌%◌, ◌^◌, Bool, true, false, not, ◌&&◌, ◌||◌, Option, none,
  some, List, [], ◌∷◌, ◌++◌, ltb, leb, ◌==◌, if◌then◌else◌, is_some, length, take, drop, get_or,
}
use native_pipe.Base.Bytes.{le16, le32, u32_at, from_le16, from_le32}
use native_pipe.Base.Int.{ℤ, pos, negsuc, pos_part, neg_part}

-- `struct np_window_message`
pub record Message : Type 0 where
  pub bytes : List ℕ
  pub cap : ℕ
  pub ok : Bool

abbrev pub size_max : ℕ
size_max = 2 ^ 64 - 1

abbrev pub max_field : ℕ
max_field = 8388608

abbrev pub max_collection : ℕ
max_collection = 4096

abbrev pub guest_to_host : ℕ
guest_to_host = 1

abbrev pub host_to_guest : ℕ
host_to_guest = 2

-- The longest message that reserve allows.
abbrev pub message_max : ℕ
message_max = max_field + 65536

abbrev pub failed : Message → Message
failed m = record m { ok = false }

-- `while (cap < needed)` of reserve; `none` is the overflow.
unfoldable pub double_cap : ℕ → ℕ → ℕ → Option ℕ
double_cap zero cap needed = some cap
double_cap (suc fuel) cap needed =
    let rest = double_cap fuel (cap * 2) needed in
    if not (ltb cap needed) then some cap else if ltb (size_max / 2) cap then none else rest

-- `struct np_window_rect`
pub record Rect : Type 0 where
  pub x : ℤ
  pub y : ℤ
  pub width : ℤ
  pub height : ℤ

-- `struct np_window_float_rect`, each double as its 64-bit pattern.
pub record FloatRect : Type 0 where
  pub x : ℕ
  pub y : ℕ
  pub width : ℕ
  pub height : ℕ

-- `struct np_window_frame`. A field with a `has_` flag, and `codec`, which may be null, is an option.
pub record WindowFrame : Type 0 where
  pub resource_id : ℕ
  pub width : ℤ
  pub height : ℤ
  pub bytes_per_row : ℤ
  pub scale : ℤ
  pub format : ℕ
  pub source : ℕ
  pub bitstream_epoch : ℕ
  pub presentation_id : ℕ
  pub viewport_source : Option FloatRect
  pub viewport_destination : Option (ℤ × ℤ)
  pub window_geometry : Option Rect
  pub codec : Option (List ℕ)
  pub gpu_source_id : Option ℕ
  pub damage : List Rect
  pub presentation_context : Option (ℕ × ℕ × ℕ)
  pub requests_presentation_feedback : Bool

-- `(uint32_t)value` of an int32_t, and back.
abbrev pub u32_of : ℤ → ℕ
u32_of (pos n) = n % 2 ^ 32
u32_of (negsuc n) = 2 ^ 32 - 1 - n % 2 ^ 32

abbrev pub i32_of : ℕ → ℤ
i32_of n = if ltb n (2 ^ 31) then pos n else negsuc (2 ^ 32 - 1 - n)

abbrev pub bit : Bool → ℕ → ℕ
bit b value = if b then value else 0

-- The flags of np_window_put_frame; the bits are distinct, so that `|` is a sum.
unfoldable pub frame_flags : WindowFrame → ℕ
frame_flags f =
    bit (is_some f.viewport_source) 1
    + bit (is_some f.viewport_destination) 2
    + bit (is_some f.window_geometry) 4
    + bit (is_some f.codec) 8
    + bit (is_some f.gpu_source_id) 16
    + bit (is_some f.presentation_context) 32
    + bit f.requests_presentation_feedback 64

-- A field that is put only if it is there.
abbrev pub put_if {ℓ} : {A : Type ℓ} → (Message → A → Message) → Message → Option A → Message
put_if put m none = m
put_if put m (some a) = put m a

module _ (realloc : ℕ → Bool) where
  -- reserve, with its answer. A capacity of at least one passes every allowed size in 64 doublings.
  unfoldable pub reserve : Message → ℕ → Message × Bool
  reserve m count =
      let needed = length m.bytes + count in
      let grown = double_cap 64 (if m.cap == 0 then 128 else m.cap) needed in
      if not m.ok || ltb (size_max - length m.bytes) count
      then (m, false)
      else if ltb message_max needed
      then (failed m, false)
      else if leb needed m.cap
      then (m, true)
      else elim grown [
        | none ↦ (failed m, false)
        | some cap ↦ if realloc cap then (record m { cap = cap }, true) else (failed m, false)
      ]

  unfoldable pub append : Message → List ℕ → Message
  append m bytes =
      let reserved = reserve m (length bytes) in
      if reserved.1 then record (reserved.0) { bytes = reserved.0.bytes ++ bytes } else reserved.0

  abbrev pub put_u8 : Message → ℕ → Message
  put_u8 m value = append m (value ∷ [])

  abbrev pub put_bool : Message → Bool → Message
  put_bool m value = put_u8 m (if value then 1 else 0)

  abbrev pub put_u16 : Message → ℕ → Message
  put_u16 m value = append m (le16 value)

  abbrev pub put_u32 : Message → ℕ → Message
  put_u32 m value = append m (le32 value)

  abbrev pub put_i32 : Message → ℤ → Message
  put_i32 m value = put_u32 m (u32_of value)

  abbrev pub put_u64 : Message → ℕ → Message
  put_u64 m value = put_u32 (put_u32 m (value % 2 ^ 32)) (value / 2 ^ 32 % 2 ^ 32)

  -- np_window_message_init
  unfoldable pub message_init : ℕ → ℕ → Message
  message_init direction opcode =
      let blank : Message = record {
        bytes = [];
        cap = 0;
        ok = (direction == guest_to_host) || (direction == host_to_guest);
      } in
      let magic = append blank (b'N' ∷ b'P' ∷ b'W' ∷ b'2' ∷ []) in
      put_u16 (put_u8 (put_u8 magic direction) opcode) 0

  unfoldable pub put_bytes : Message → List ℕ → Message
  put_bytes m bytes =
      if ltb max_field (length bytes) then failed m else append (put_u32 m (length bytes)) bytes

  -- np_window_put_optional_bytes; `none` is `!present`.
  unfoldable pub put_optional_bytes : Message → Option (List ℕ) → Message
  put_optional_bytes m none = put_u32 m (2 ^ 32 - 1)
  put_optional_bytes m (some bytes) = put_bytes m bytes

  abbrev pub put_rect : Message → Rect → Message
  put_rect m r = put_i32 (put_i32 (put_i32 (put_i32 m r.x) r.y) r.width) r.height

  abbrev pub put_float_rect : Message → FloatRect → Message
  put_float_rect m r = put_u64 (put_u64 (put_u64 (put_u64 m r.x) r.y) r.width) r.height

  abbrev pub put_pair : Message → ℤ × ℤ → Message
  put_pair m p = put_i32 (put_i32 m p.0) p.1

  abbrev pub put_context : Message → ℕ × ℕ × ℕ → Message
  put_context m c = put_u64 (put_u64 (put_u64 m c.0) c.1) c.2

  abbrev pub put_rects : Message → List Rect → Message
  put_rects m [] = m
  put_rects m (r ∷ rs) = put_rects (put_rect m r) rs

  -- The fields of np_window_put_frame that every frame has.
  unfoldable pub put_fixed : Message → WindowFrame → Message
  put_fixed m f =
      let a = put_i32 (put_i32 (put_u32 m f.resource_id) f.width) f.height in
      let b = put_i32 (put_i32 a f.bytes_per_row) f.scale in
      let c = put_u16 (put_u8 (put_u8 b f.format) f.source) f.bitstream_epoch in
      put_u32 (put_u32 (put_u32 c f.presentation_id) (frame_flags f)) (length f.damage)

  -- The fields that a frame may have, in the order of the wire.
  unfoldable pub put_extras : Message → WindowFrame → Message
  put_extras m f =
      let a = put_if put_float_rect m f.viewport_source in
      let b = put_if put_pair a f.viewport_destination in
      let c = put_if put_rect b f.window_geometry in
      let e = put_if put_bytes c f.codec in
      let g = put_if put_u32 e f.gpu_source_id in
      put_if put_context (put_rects g f.damage) f.presentation_context

  unfoldable pub put_frame : Message → WindowFrame → Message
  put_frame m f =
      if ltb max_collection (length f.damage) then failed m else put_extras (put_fixed m f) f

-- `struct np_window_reader`; the bytes before `offset` stay in `bytes`.
pub record WindowReader : Type 0 where
  pub bytes : List ℕ
  pub offset : ℕ
  pub opcode : ℕ
  pub ok : Bool

abbrev pub refused : WindowReader → WindowReader
refused r = record r { ok = false }

-- take of windowwire.c; `none` is NULL.
unfoldable pub take_bytes : WindowReader → ℕ → WindowReader × Option (List ℕ)
take_bytes r count =
    if not r.ok || (ltb (length r.bytes) r.offset || ltb (length r.bytes - r.offset) count)
    then (refused r, none)
    else (record r { offset = r.offset + count }, some (take count (drop r.offset r.bytes)))

-- `memcmp(data, "NPW2", 4) == 0`
abbrev pub has_magic : List ℕ → Bool
has_magic d =
    (get_or d 0 0 == b'N')
    && ((get_or d 1 0 == b'P') && ((get_or d 2 0 == b'W') && (get_or d 3 0 == b'2')))

-- np_window_reader_init, with its answer as `ok` of the reader.
unfoldable pub reader_init : List ℕ → ℕ → WindowReader
reader_init d expected =
    let ok =
      leb 8 (length d)
      && (has_magic d
          && ((get_or d 4 0 == expected) && ((get_or d 6 0 == 0) && (get_or d 7 0 == 0)))) in
    if ok
    then record { bytes = d; offset = 8; opcode = get_or d 5 0; ok = true }
    else record { bytes = d; offset = 0; opcode = 0; ok = false }

-- What a read gives for the bytes taken, or 0.
abbrev pub value_of : (List ℕ → ℕ) → WindowReader × Option (List ℕ) → WindowReader × ℕ
value_of f (r, none) = (r, 0)
value_of f (r, some bytes) = (r, f bytes)

abbrev pub read_u8 : WindowReader → WindowReader × ℕ
read_u8 r = value_of (λ b. get_or b 0 0) (take_bytes r 1)

abbrev pub read_bool : WindowReader → WindowReader × Bool
read_bool r = let read = read_u8 r in (if ltb 1 read.1 then refused read.0 else read.0, read.1 == 1)

abbrev pub read_u16 : WindowReader → WindowReader × ℕ
read_u16 r = value_of (λ b. from_le16 (get_or b 0 0) (get_or b 1 0)) (take_bytes r 2)

abbrev pub read_u32 : WindowReader → WindowReader × ℕ
read_u32 r = value_of (λ b. u32_at b 0) (take_bytes r 4)

abbrev pub read_i32 : WindowReader → WindowReader × ℤ
read_i32 r = let read = read_u32 r in (read.0, i32_of read.1)

abbrev pub read_u64 : WindowReader → WindowReader × ℕ
read_u64 r = let low = read_u32 r in let high = read_u32 low.0 in (high.0, low.1 + high.1 * 2 ^ 32)

-- What np_window_read_bytes answers: `refused_bytes` is false, `absent` is true without bytes.
pub data ReadBytes : Type 0 where
  refused_bytes : ReadBytes
  absent : ReadBytes
  present_bytes : List ℕ → ReadBytes

-- np_window_read_bytes once it has read the count.
unfoldable pub bytes_after : WindowReader → ℕ → Bool → WindowReader × ReadBytes
bytes_after r count optional =
    let taken = take_bytes r count in
    if not r.ok
    then (r, refused_bytes)
    else if optional && (count == 2 ^ 32 - 1)
    then (r, absent)
    else if (count == 2 ^ 32 - 1) || ltb max_field count
    then (refused r, refused_bytes)
    else elim taken.1 [
      | none ↦ (taken.0, refused_bytes)
      | some bytes ↦ (taken.0, present_bytes bytes)
    ]

abbrev pub read_bytes : WindowReader → Bool → WindowReader × ReadBytes
read_bytes r optional = let read = read_u32 r in bytes_after (read.0) read.1 optional

abbrev pub has_nul : List ℕ → Bool
has_nul [] = false
has_nul (b ∷ bs) = (b == 0) || has_nul bs

-- np_window_read_string with its malloc.
unfoldable pub read_string : Bool → WindowReader → WindowReader × Option (List ℕ)
read_string malloc r =
    let read = read_bytes r false in
    elim read.1 [
      | refused_bytes ↦ (read.0, none)
      | absent ↦ (read.0, none)
      | present_bytes bytes ↦
          if not malloc
          then (refused (read.0), none)
          else if has_nul bytes
          then (refused (read.0), none)
          else (read.0, some bytes)
    ]

-- np_window_reader_finished
unfoldable pub reader_finished : WindowReader → Bool
reader_finished r = r.ok && (r.offset == length r.bytes)
