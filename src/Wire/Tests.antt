-- ===== src/Wire/Tests.antt =====
-- A frame with one damage rectangle, and a reader on a few written values.
use native_pipe.Base.{ℕ, ◌≤◌, ◌≡◌, refl, Bool, true, false, none, some, List, [], ◌∷◌, ◌++◌, arith}
use native_pipe.Base.Int.{pos, negsuc}
use native_pipe.Wire.{
  Message, WindowFrame, put_frame, message_init, WindowReader, append, reserve, double_cap,
  put_bytes, put_optional_bytes, reader_init, take_bytes,
}
use native_pipe.Wire.Writer.{Wrote}
use native_pipe.Wire.Layout.{put_frame-Wrote, fixed_layout, extras_layout}
use native_pipe.Wire.Fields.{
  Field, u8_field, u16_field, u32_field, u64_field, bool_field, i32_field, string_field,
  optional_field, put_fields, ReadsBack,
}
use native_pipe.Wire.RoundTrip.{read_as-put_fields}
use native_pipe.Wire.Bounds.{read_all, read_all-within}

abbrev gives : ℕ → Bool
gives n = true

abbrev header : Message
header = record { bytes = b'N' ∷ b'P' ∷ b'W' ∷ b'2' ∷ 1 ∷ 20 ∷ 0 ∷ 0 ∷ []; cap = 128; ok = true }

starts : message_init gives 1 20 ≡ header
unfolding message_init append reserve double_cap
starts = refl

abbrev small_frame : WindowFrame
small_frame = record {
  resource_id = 5;
  width = pos 64;
  height = pos 32;
  bytes_per_row = pos 256;
  scale = pos 1;
  format = 1;
  source = 1;
  bitstream_epoch = 0;
  presentation_id = 0;
  viewport_source = none;
  viewport_destination = some (pos 64, pos 32);
  window_geometry = none;
  codec = some (b'h' ∷ b'v' ∷ b'c' ∷ b'1' ∷ []);
  gpu_source_id = none;
  damage = record { x = negsuc 2; y = pos 0; width = pos 8; height = pos 8 } ∷ [];
  presentation_context = some (1, 2, 3);
  requests_presentation_feedback = true;
}

put_frame-Wrote_example :
    Wrote gives header
      (fixed_layout small_frame ++ extras_layout small_frame)
      (put_frame gives header small_frame)
put_frame-Wrote_example =
    put_frame-Wrote gives header small_frame (omega arith) (omega arith) (omega arith)

-- Some values behind the header, with a byte more.
abbrev values : List Field
values =
    u16_field 300
    ∷ i32_field (negsuc 1)
    ∷ bool_field true
    ∷ optional_field none
    ∷ u64_field 5000000000
    ∷ string_field (b'o' ∷ b'k' ∷ [])
    ∷ []

abbrev at_values : WindowReader
at_values = record {
  bytes = (put_fields gives header values).bytes ++ (77 ∷ []);
  offset = 8;
  opcode = 20;
  ok = true;
}

values_fit : (put_fields gives header values).ok ≡ true
unfolding append reserve double_cap put_bytes put_optional_bytes
values_fit = refl

read_as-put_fields_example : ReadsBack values at_values (77 ∷ [])
read_as-put_fields_example =
    read_as-put_fields gives header values at_values (77 ∷ []) (omega arith)
      (
        omega arith,
        ((omega arith, omega arith), (tt, (tt, (omega arith, ((omega arith, refl), tt))))),
      )
      values_fit refl refl refl

-- A message of the host that ends within a number.
abbrev cut_message : List ℕ
cut_message = b'N' ∷ b'P' ∷ b'W' ∷ b'2' ∷ 2 ∷ 20 ∷ 0 ∷ 0 ∷ 7 ∷ 1 ∷ 2 ∷ []

read_all-within_example :
    let first = read_all true (u8_field 0 ∷ u32_field 0 ∷ []) (reader_init cut_message 2) in
    let second = read_all true (string_field [] ∷ []) first in
    (second.bytes ≡ cut_message)
    × (first.offset ≤ second.offset)
    × (second.offset ≤ 11)
    × (first.ok ≡ false → (second.ok ≡ false) × (second.offset ≡ first.offset))
read_all-within_example =
    read_all-within true cut_message 2 (u8_field 0 ∷ u32_field 0 ∷ []) (string_field [] ∷ [])

stops_at_cut :
    read_all true (u8_field 0 ∷ u32_field 0 ∷ []) (reader_init cut_message 2)
    ≡ record { bytes = cut_message; offset = 9; opcode = 20; ok = false }
unfolding reader_init take_bytes
stops_at_cut = refl
