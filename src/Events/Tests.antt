-- ===== src/Events/Tests.antt =====
-- The messages for one frame and one popup.
use native_pipe.Base.{
  ℕ, ◌≡◌, refl, Bool, true, none, some, List, [], ◌∷◌, ◌++◌, ltb, if◌then◌else◌, length, arith,
}
use native_pipe.Base.Bytes.{le32}
use native_pipe.Base.Int.{pos, negsuc}
use native_pipe.Wire.{WindowFrame, guest_to_host, message_init}
use native_pipe.Wire.Layout.{◌<+>◌, fixed_layout, extras_layout}
use native_pipe.Events.{
  committed, popup_placement_requested, force_quit_capability_changed, send_message, event_send,
  PopupPlacement, send_force_quit_capability, send_popup_placement, send_frame,
}
use native_pipe.Events.Exact.{
  header_layout, placement_layout, if_short, put_values, messages-exact, event_send-writer,
}

abbrev gives : ℕ → Bool
gives n = true

abbrev plain_frame : WindowFrame
plain_frame = record {
  resource_id = 3;
  width = pos 16;
  height = pos 16;
  bytes_per_row = pos 64;
  scale = pos 2;
  format = 1;
  source = 0;
  bitstream_epoch = 0;
  presentation_id = 9;
  viewport_source = none;
  viewport_destination = none;
  window_geometry = none;
  codec = none;
  gpu_source_id = some 4;
  damage = [];
  presentation_context = none;
  requests_presentation_feedback = true;
}

abbrev beside : PopupPlacement
beside = record {
  window = 4;
  parent = 2;
  x = pos 10;
  y = negsuc 3;
  flip_x = pos 0;
  flip_y = pos 0;
  width = pos 200;
  height = pos 90;
  adjustment = 5;
  token = 77;
  reactive = true;
}

abbrev outbound : WindowFrame
outbound = record plain_frame { presentation_context = some (0, 0, 0) }

messages-exact_example :
    (send_force_quit_capability gives 4 true
      ≡ some (header_layout force_quit_capability_changed ++ (le32 4 <+> (1 ∷ []))))
    × (send_popup_placement gives beside
        ≡ some (header_layout popup_placement_requested ++ placement_layout beside))
    × (send_frame gives 4 plain_frame (0, 0, 0)
        ≡ if_short (
            header_layout committed
            ++ (le32 4 ++ (fixed_layout outbound ++ extras_layout outbound))))
messages-exact_example =
    messages-exact gives 4 true beside plain_frame (0, 0, 0) (λ n. refl) (omega arith) tt

abbrev one_value : List ℕ
one_value = 7 ∷ []

event_send-writer_example : event_send 41 one_value ≡ (
    if ltb 16 (length one_value)
    then none
    else send_message (put_values gives (message_init gives guest_to_host 41) one_value))
event_send-writer_example = event_send-writer gives 41 one_value (λ n. refl)
