-- ===== src/Events/Exact.antt =====
-- The bytes of the messages about windows.
use native_pipe.Base.{
  ℕ, ◌*◌, ◌≤◌, ◌≡◌, refl, sym, ◌∙◌, ap, Bool, true, false, Option, none, some, List, [], ◌∷◌, ◌++◌,
  ltb, leb, if◌then◌else◌, length, arith, Bool-cases, inl, inr,
}
use native_pipe.Base.Bytes.{le16, le32}
use native_pipe.Wire.{
  Message, WindowFrame, guest_to_host, message_init, message_max, max_collection, put_u32,
}
use native_pipe.Wire.Writer.{Wrote, Wrote-trans, Gives}
use native_pipe.Wire.Layout.{
  ◌<+>◌, i32_layout, fixed_layout, extras_layout, IsShortName, Puts, Puts-nil, Puts-append,
  Puts-trans, Puts-u32, Puts-i32, put_frame-Wrote,
}
use native_pipe.Events.{
  committed, popup_placement_requested, force_quit_capability_changed, send_message, value_bytes,
  event_send, PopupPlacement, bool_byte, send_force_quit_capability, put_placement,
  send_popup_placement, send_frame, context_or,
}

-- The header of a message to the host.
abbrev pub header_layout : ℕ → List ℕ
header_layout opcode = b'N' ∷ b'P' ∷ b'W' ∷ b'2' ∷ guest_to_host ∷ opcode ∷ 0 ∷ 0 ∷ []

abbrev pub placement_layout : PopupPlacement → List ℕ
placement_layout p =
    le32 p.window
    <+> le32 p.parent
    <+> i32_layout p.x
    <+> i32_layout p.y
    <+> i32_layout p.flip_x
    <+> i32_layout p.flip_y
    <+> i32_layout p.width
    <+> i32_layout p.height
    <+> le32 p.adjustment
    <+> le32 p.token
    <+> (bool_byte p.reactive ∷ [])

-- Some bytes, unless they are too many for a message.
abbrev pub if_short : List ℕ → Option (List ℕ)
if_short bs = if leb (length bs) message_max then some bs else none

abbrev blank : Message
blank = record { bytes = []; cap = 0; ok = true }

-- The values written one by one.
abbrev pub put_values : (ℕ → Bool) → Message → List ℕ → Message
put_values realloc m [] = m
put_values realloc m (v ∷ vs) = put_values realloc (put_u32 realloc m v) vs

module _ (realloc : ℕ → Bool) where
  send_message-exact :
      (m : Message) (bs : List ℕ)
      → Wrote realloc blank bs m
      → Gives realloc
      → send_message m ≡ if_short bs
  send_message-exact m bs w g = elim (Bool-cases (leb (length bs) message_max)) [
    | inl short ↦
        let good : m.ok ≡ true = ground (arith, w.exact g, short) in
        rw (short, good) (ap some (w.sound good).1)
    | inr long ↦ let bad : m.ok ≡ false = ground (arith, w.exact g, long) in rw (long, bad) refl
  ]

  message_init-Wrote :
      (opcode : ℕ)
      → Wrote realloc blank (header_layout opcode) (message_init realloc guest_to_host opcode)
  unfolding message_init
  message_init-Wrote opcode =
      let a = Puts-append realloc (b'N' ∷ b'P' ∷ b'W' ∷ b'2' ∷ []) (omega arith) in
      let b = Puts-trans realloc _ _ a (Puts-append realloc (guest_to_host ∷ []) (omega arith)) in
      let c = Puts-trans realloc _ _ b (Puts-append realloc (opcode ∷ []) (omega arith)) in
      Puts-trans realloc _ _ c (Puts-append realloc (le16 0) (omega arith)) blank (omega arith)

  -- A message that starts with the header.
  headed :
      {put : Message → Message} (opcode : ℕ) (bs : List ℕ)
      → Puts realloc put bs
      → Wrote realloc blank
          (header_layout opcode ++ bs)
          (put (message_init realloc guest_to_host opcode))
  headed {put} opcode bs h =
      let start = message_init-Wrote opcode in
      let m = message_init realloc guest_to_host opcode in
      Wrote-trans realloc blank m (put m) (header_layout opcode) bs start (h m start.short)

  Puts-placement :
      (p : PopupPlacement) → Puts realloc (λ m. put_placement realloc m p) (placement_layout p)
  unfolding put_placement
  Puts-placement p =
      let a = Puts-trans realloc _ _ (Puts-u32 realloc p.window) (Puts-u32 realloc p.parent) in
      let b = Puts-trans realloc _ _ a (Puts-i32 realloc p.x) in
      let c = Puts-trans realloc _ _ b (Puts-i32 realloc p.y) in
      let d = Puts-trans realloc _ _ c (Puts-i32 realloc p.flip_x) in
      let e = Puts-trans realloc _ _ d (Puts-i32 realloc p.flip_y) in
      let f = Puts-trans realloc _ _ e (Puts-i32 realloc p.width) in
      let g = Puts-trans realloc _ _ f (Puts-i32 realloc p.height) in
      let h = Puts-trans realloc _ _ g (Puts-u32 realloc p.adjustment) in
      let i = Puts-trans realloc _ _ h (Puts-u32 realloc p.token) in
      Puts-trans realloc _ _ i (Puts-append realloc (bool_byte p.reactive ∷ []) (omega arith))

  -- When the allocator always gives memory, the messages about a window are exactly these bytes: the header
  -- with the opcode, then each argument in little-endian order, a truth value as one byte; and a frame is
  -- the surface, then the fields of the frame with its clock context always there. A frame of at most 4096
  -- damage rectangles and with a codec name of at most 8 MiB, if it has one, is sent unless the whole is
  -- longer than a message can be.
  pub messages-exact :
      (window : ℕ) (supported : Bool) (p : PopupPlacement) (frame : WindowFrame) (idle : ℕ × ℕ × ℕ)
      → Gives realloc
      → length frame.damage ≤ max_collection
      → IsShortName frame.codec
      → let outbound : WindowFrame = record frame {
        presentation_context = some (context_or frame.presentation_context idle);
      } in
        (send_force_quit_capability realloc window supported
          ≡ some (
              header_layout force_quit_capability_changed
              ++ (le32 window <+> (bool_byte supported ∷ []))))
        × (send_popup_placement realloc p
            ≡ some (header_layout popup_placement_requested ++ placement_layout p))
        × (send_frame realloc window frame idle
            ≡ if_short (
                header_layout committed
                ++ (le32 window ++ (fixed_layout outbound ++ extras_layout outbound))))
  unfolding send_force_quit_capability send_popup_placement send_frame
  messages-exact window supported p frame idle g few named =
      let capability =
        Puts-trans realloc _ _ (Puts-u32 realloc window)
          (Puts-append realloc (bool_byte supported ∷ []) (omega arith)) in
      let outbound : WindowFrame = record frame {
        presentation_context = some (context_or frame.presentation_context idle);
      } in
      let frame_put =
        Puts-trans realloc _ _ (Puts-u32 realloc window)
          (λ m s. put_frame-Wrote realloc m outbound s few named) in
      (
        send_message-exact _ _ (headed force_quit_capability_changed _ capability) g,
        send_message-exact _ _ (headed popup_placement_requested _ (Puts-placement p)) g,
        send_message-exact _ _ (headed committed _ frame_put) g,
      )

  Puts-values : (vs : List ℕ) → Puts realloc (λ m. put_values realloc m vs) (value_bytes vs)
  Puts-values [] = Puts-nil realloc
  Puts-values (v ∷ vs) =
      Puts-trans realloc (le32 v) (value_bytes vs) (Puts-u32 realloc v) (Puts-values vs)

  length-value_bytes : (vs : List ℕ) → length (value_bytes vs) ≡ 4 * length vs
  length-value_bytes [] = refl
  length-value_bytes (v ∷ vs) = omega (arith, length-value_bytes vs)

  -- For at most sixteen values, the fixed array that np_window_event_send sends has the same bytes as the
  -- message that the writer makes of the values one by one, when the allocator always gives memory; more
  -- values are refused.
  pub event_send-writer :
      (opcode : ℕ) (values : List ℕ)
      → Gives realloc
      → event_send opcode values ≡ (
          if ltb 16 (length values)
          then none
          else send_message (put_values realloc (message_init realloc guest_to_host opcode) values))
  unfolding event_send
  event_send-writer opcode values g = elim (Bool-cases (ltb 16 (length values))) [
    | inl many ↦ rw many refl
    | inr few ↦
        let bs = header_layout opcode ++ value_bytes values in
        let size = length-value_bytes values in
        let short : leb (length bs) message_max ≡ true = ground (arith, few, size) in
        let sent = send_message-exact _ bs (headed opcode _ (Puts-values values)) g in
        let whole : if_short bs ≡ some bs = rw short refl in rw few (sym (sent ∙ whole))
  ]
