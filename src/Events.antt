-- ===== src/Events.antt =====
-- guest/compositor/window_events.c: the messages about windows. What goes to np_backend_send_binary is the
-- answer: bytes, or nothing where the function returns false before it.
pub mod Exact
mod Tests
use native_pipe.Base.{
  ℕ, ◌%◌, ◌/◌, ◌^◌, Bool, true, Option, none, some, List, [], ◌∷◌, ◌++◌, ltb, if◌then◌else◌, length,
}
use native_pipe.Base.Bytes.{le32}
use native_pipe.Base.Int.{ℤ}
use native_pipe.Wire.{
  Message, WindowFrame, guest_to_host, message_init, put_u8, put_u32, put_i32, put_frame,
}

-- The codes of `enum np_window_guest_opcode` that the file uses.
abbrev pub committed : ℕ
committed = 21

abbrev pub popup_placement_requested : ℕ
popup_placement_requested = 35

abbrev pub force_quit_capability_changed : ℕ
force_quit_capability_changed = 36

-- np_window_event_send_message
abbrev pub send_message : Message → Option (List ℕ)
send_message m = if m.ok then some m.bytes else none

-- The loop of np_window_event_send over the values.
abbrev pub value_bytes : List ℕ → List ℕ
value_bytes [] = []
value_bytes (v ∷ vs) =
    (v % 256 ∷ v / 2 ^ 8 % 256 ∷ v / 2 ^ 16 % 256 ∷ v / 2 ^ 24 % 256 ∷ []) ++ value_bytes vs

-- np_window_event_send
unfoldable pub event_send : ℕ → List ℕ → Option (List ℕ)
event_send opcode values =
    if ltb 16 (length values)
    then none
    else some
        ((b'N' ∷ b'P' ∷ b'W' ∷ b'2' ∷ guest_to_host ∷ opcode ∷ 0 ∷ 0 ∷ []) ++ value_bytes values)

-- The arguments of np_window_event_send_popup_placement.
pub record PopupPlacement : Type 0 where
  pub window : ℕ
  pub parent : ℕ
  pub x : ℤ
  pub y : ℤ
  pub flip_x : ℤ
  pub flip_y : ℤ
  pub width : ℤ
  pub height : ℤ
  pub adjustment : ℕ
  pub token : ℕ
  pub reactive : Bool

-- np_window_put_bool
abbrev pub bool_byte : Bool → ℕ
bool_byte b = if b then 1 else 0

-- The values in the context fields of a frame.
abbrev pub context_or : Option (ℕ × ℕ × ℕ) → (ℕ × ℕ × ℕ) → (ℕ × ℕ × ℕ)
context_or none idle = idle
context_or (some c) idle = c

module _ (realloc : ℕ → Bool) where
  -- np_window_event_send_force_quit_capability
  unfoldable pub send_force_quit_capability : ℕ → Bool → Option (List ℕ)
  send_force_quit_capability window supported =
      let m = message_init realloc guest_to_host force_quit_capability_changed in
      send_message (put_u8 realloc (put_u32 realloc m window) (bool_byte supported))

  -- The fields that np_window_event_send_popup_placement puts.
  unfoldable pub put_placement : Message → PopupPlacement → Message
  put_placement m p =
      let a = put_u32 realloc (put_u32 realloc m p.window) p.parent in
      let b = put_i32 realloc (put_i32 realloc a p.x) p.y in
      let c = put_i32 realloc (put_i32 realloc b p.flip_x) p.flip_y in
      let d = put_i32 realloc (put_i32 realloc c p.width) p.height in
      let e = put_u32 realloc (put_u32 realloc d p.adjustment) p.token in
      put_u8 realloc e (bool_byte p.reactive)

  -- np_window_event_send_popup_placement
  unfoldable pub send_popup_placement : PopupPlacement → Option (List ℕ)
  send_popup_placement p =
      send_message (put_placement (message_init realloc guest_to_host popup_placement_requested) p)

  -- np_window_event_send_frame: the bytes that it leaves to the caller. `idle` is what the fields of the
  -- context hold in a frame that has none.
  unfoldable pub send_frame : ℕ → WindowFrame → (ℕ × ℕ × ℕ) → Option (List ℕ)
  send_frame surface frame idle =
      let outbound : WindowFrame = record frame {
        presentation_context = some (context_or frame.presentation_context idle);
      } in
      let m = put_u32 realloc (message_init realloc guest_to_host committed) surface in
      send_message (put_frame realloc m outbound)
