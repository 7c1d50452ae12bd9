-- ===== src/Outbox/Tests.antt =====
-- An outbox that takes a Close while the fixed reset record is half written.
use native_pipe.Base.{ℕ, ◌≡◌, ◌<◌, ◌≤◌, refl, true, false, some, List, [], ◌∷◌, drop, arith, length}
use native_pipe.Outbox.{
  Outbox, empty_outbox, reset_record, notification_outbox_send, notification_outbox_next,
  notification_outbox_consume, notification_outbox_started, offered,
}
use native_pipe.Outbox.Valid.{IsValid, outbox-IsValid}
use native_pipe.Outbox.Pinned.{consume-pinned}

-- A Close of the notification 7 in revision 1.
abbrev close_payload : List ℕ
close_payload =
    b'N' ∷ b'P' ∷ b'W' ∷ b'2' ∷ 1 ∷ 39 ∷ 0 ∷ 0 ∷ 7 ∷ 0 ∷ 0 ∷ 0 ∷ 1 ∷ 0 ∷ 0 ∷ 0 ∷ 0 ∷ 0 ∷ 0 ∷ 0 ∷ []

abbrev begun : Outbox
begun = record empty_outbox { active_reset = true; reset_offset = 3 }

begun-IsValid : IsValid begun
begun-IsValid = ground arith

queues : (notification_outbox_send true begun close_payload).0.closed_count ≡ 1
unfolding notification_outbox_send native_pipe.Outbox.notification_payload
    native_pipe.Outbox.remove_posted native_pipe.Outbox.remove_closed native_pipe.Outbox.make_room
    native_pipe.Outbox.append_frame
queues = refl

outbox-IsValid_example :
    IsValid (notification_outbox_send true begun close_payload).0
    × IsValid (notification_outbox_next begun).0
    × ((n : ℕ) (left : List ℕ)
        → offered begun ≡ some left
        → n ≤ length left
        → 0 < n
        → IsValid (notification_outbox_consume begun n))
outbox-IsValid_example = outbox-IsValid true begun close_payload begun-IsValid

consume-pinned_example :
    let sent = notification_outbox_consume begun 4 in
    let later = (notification_outbox_send true sent close_payload).0 in
    (4 < length (drop 3 reset_record)
      → (notification_outbox_next later).1 ≡ some (drop 7 reset_record))
    × (4 ≡ length (drop 3 reset_record) → notification_outbox_started sent ≡ false)
unfolding offered
consume-pinned_example =
    consume-pinned true begun 4 (drop 3 reset_record) close_payload begun-IsValid refl (omega arith)
