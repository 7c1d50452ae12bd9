-- ===== src/Outbox/Pinned.antt =====
-- A record that was begun is finished before anything else is offered.
use native_pipe.Base.{
  ℕ, ◌≤◌, ◌<◌, ◌≡◌, refl, ◌∙◌, Bool, false, some, List, ◌==◌, length, arith, Option-cases,
  Bool-cases, inl, inr, drop, length-drop, drop-drop, get_or,
}
use native_pipe.Base.Bytes.{u32_at}
use native_pipe.Outbox.{
  Frame, Outbox, remove_posted, remove_closed, make_room, append_frame, notification_outbox_send,
  select_record, offered, notification_outbox_next, notification_outbox_consume,
  notification_outbox_started, new_frame, reset_record, closed_opcode,
}
use native_pipe.Outbox.Valid.{IsValid}

-- The same record is selected, at the same place.
pub record IsSame (q r : Outbox) : Type 0 where
  pub same_active : r.active ≡ q.active
  pub same_flag : r.active_reset ≡ q.active_reset
  pub same_offset : r.reset_offset ≡ q.reset_offset

remove_posted-IsSame : (q : Outbox) (id : ℕ) → IsSame q (remove_posted q id)
unfolding remove_posted
remove_posted-IsSame q id = ground arith

remove_closed-IsSame : (q : Outbox) (id : ℕ) → IsSame q (remove_closed q id)
unfolding remove_closed
remove_closed-IsSame q id = ground arith

make_room-IsSame : (closing : Bool) (q : Outbox) → IsSame q (make_room closing q)
unfolding make_room
make_room-IsSame closing q = ground arith

append_frame-IsSame :
    (malloc closing : Bool) (q : Outbox) (f : Frame) → IsSame q (append_frame malloc closing q f).0
unfolding append_frame
append_frame-IsSame malloc closing q f = ground arith

IsSame-trans : (q r s : Outbox) → IsSame q r → IsSame r s → IsSame q s
IsSame-trans q r s h k = record {
  same_active = k.same_active ∙ h.same_active;
  same_flag = k.same_flag ∙ h.same_flag;
  same_offset = k.same_offset ∙ h.same_offset;
}

-- Queueing a payload leaves the selected record alone.
send-IsSame :
    (malloc : Bool) (q : Outbox) (p : List ℕ) → IsSame q (notification_outbox_send malloc q p).0
unfolding notification_outbox_send
send-IsSame malloc q p =
    let id = u32_at p 8 in
    let closing = get_or p 5 0 == closed_opcode in
    let q1 = remove_posted q id in
    let q2 = remove_closed q1 id in
    let q3 = make_room closing q2 in
    let q4 = (append_frame malloc closing q3 (new_frame id p)).0 in
    let to_q2 = IsSame-trans q q1 q2 (remove_posted-IsSame q id) (remove_closed-IsSame q1 id) in
    let to_q3 = IsSame-trans q q2 q3 to_q2 (make_room-IsSame closing q2) in
    let to_q4 =
      IsSame-trans q q3 q4 to_q3 (append_frame-IsSame malloc closing q3 (new_frame id p)) in
    let kept : IsSame q q = record { same_active = refl; same_flag = refl; same_offset = refl } in
    ground (arith, kept, to_q4)

offered-IsSame : (q r : Outbox) → IsSame q r → offered r ≡ offered q
unfolding offered
offered-IsSame q r h = rw (h.same_active, h.same_flag, h.same_offset)

-- While a record is selected, the selection does not change.
next-offered :
    (q : Outbox) (left : List ℕ)
    → offered q ≡ some left
    → (notification_outbox_next q).1 ≡ some left
unfolding notification_outbox_next select_record offered
next-offered q left e = ground arith

consume-offered :
    (q : Outbox) (n : ℕ) (left : List ℕ)
    → IsValid q
    → offered q ≡ some left
    → n < length left
    → offered (notification_outbox_consume q n) ≡ some (drop n left)
unfolding offered notification_outbox_consume
consume-offered q n left v e h = elim (Bool-cases q.active_reset) [
  | inl k ↦
      ground
        (arith, k, drop-drop q.reset_offset n reset_record, length-drop q.reset_offset reset_record)
  | inr k ↦ elim (Option-cases q.active) [
    | inl none_there ↦ cc (k, none_there, e)
    | inr (f, there) ↦
        ground
          (arith, k, there, v.selected, drop-drop f.offset n f.bytes, length-drop f.offset f.bytes)
  ]
]

consume-done :
    (q : Outbox) (n : ℕ) (left : List ℕ)
    → IsValid q
    → offered q ≡ some left
    → n ≡ length left
    → notification_outbox_started (notification_outbox_consume q n) ≡ false
unfolding offered notification_outbox_consume notification_outbox_started
consume-done q n left v e h = elim (Bool-cases q.active_reset) [
  | inl k ↦ elim (Option-cases q.active) [
    | inl none_there ↦
        ground (arith, k, none_there, v.reset_left, length-drop q.reset_offset reset_record)
    | inr (f, there) ↦ ground (arith, k, there, v.one_selected)
  ]
  | inr k ↦ elim (Option-cases q.active) [
    | inl none_there ↦ cc (k, none_there, e)
    | inr (f, there) ↦ ground (arith, k, there, v.selected, length-drop f.offset f.bytes)
  ]
]

-- Once a record is begun, the stream carries all of it before anything else: when fewer bytes than the
-- record has left are written, the next bytes offered are exactly those that are left of it, also if any
-- payload, a reset among them, is queued in between. When all are written, no record is begun.
pub consume-pinned :
    (malloc : Bool) (q : Outbox) (n : ℕ) (left p : List ℕ)
    → IsValid q
    → offered q ≡ some left
    → n ≤ length left
    → let sent = notification_outbox_consume q n in
      let later = (notification_outbox_send malloc sent p).0 in
      (n < length left → (notification_outbox_next later).1 ≡ some (drop n left))
      × (n ≡ length left → notification_outbox_started sent ≡ false)
consume-pinned malloc q n left p v e h =
    let sent = notification_outbox_consume q n in
    let later = (notification_outbox_send malloc sent p).0 in
    (
      (λ less. next-offered later (drop n left) (
          offered-IsSame sent later (send-IsSame malloc sent p)
          ∙ consume-offered q n left v e less)),
      consume-done q n left v e,
    )
