-- ===== src/Outbox/Valid.antt =====
-- The bookkeeping of the outbox: its counts and its byte total are those of its lists.
use native_pipe.Base.{
  ℕ, suc, ◌+◌, ◌≤◌, ◌<◌, ◌≡◌, Bool, true, false, Option, none, some, List, [], ◌∷◌, ◌++◌, ◌==◌,
  is_some, length, length-append, All, All-append, arith, Option-cases, List-cases, inl, inr,
  length-drop, get_or,
}
use native_pipe.Outbox.{
  Frame, Outbox, total_size, notification_find, without, remove_posted, remove_closed, make_room,
  append_frame, notification_outbox_send, select_record, offered, notification_outbox_next,
  notification_outbox_consume, new_frame, outbox_ids, outbox_bytes, closed_opcode, reset_record,
}
use native_pipe.Base.Bytes.{u32_at}

-- A frame in a queue is whole and unsent.
pub record IsQueued (f : Frame) : Type 0 where
  pub whole : length f.bytes ≡ f.size
  pub some_bytes : 0 < f.size
  pub unsent : f.offset ≡ 0

-- The selected frame has bytes left.
abbrev pub IsSelected : Option Frame → Type 0
IsSelected none = Unit {0}
IsSelected (some f) = (length f.bytes ≡ f.size) × (f.offset < f.size)

abbrev pub active_size : Option Frame → ℕ
active_size none = 0
active_size (some f) = f.size

pub record IsValid (q : Outbox) : Type 0 where
  pub posted_queued : All IsQueued q.posted
  pub closed_queued : All IsQueued q.closed
  pub selected : IsSelected q.active
  pub posted_counted : q.posted_count ≡ length q.posted
  pub closed_counted : q.closed_count ≡ length q.closed
  pub posted_few : q.posted_count ≤ outbox_ids
  pub closed_few : q.closed_count ≤ outbox_ids
  pub summed : q.bytes ≡ total_size q.posted + total_size q.closed + active_size q.active
  pub bounded : q.bytes ≤ outbox_bytes
  pub one_selected : is_some q.active ≡ true → q.active_reset ≡ false
  pub reset_left : q.reset_offset < 20

total_size-append : (fs gs : List Frame) → total_size (fs ++ gs) ≡ total_size fs + total_size gs
total_size-append [] gs = omega arith
total_size-append (f ∷ fs) gs = omega (arith, total_size-append fs gs)

-- Removing the frame that was found.
module _ (id : ℕ) where
  total_size-without :
      (fs : List Frame) (f : Frame)
      → notification_find fs id ≡ some f
      → total_size fs ≡ f.size + total_size (without fs id)
  total_size-without [] f e = ground arith
  total_size-without (g ∷ fs) f e = ground (arith, total_size-without fs f)

  length-without :
      (fs : List Frame) (f : Frame)
      → notification_find fs id ≡ some f
      → length fs ≡ suc (length (without fs id))
  length-without [] f e = ground arith
  length-without (g ∷ fs) f e = ground (arith, length-without fs f)

  All-without : (P : Frame → Type 0) (fs : List Frame) → All P fs → All P (without fs id)
  All-without P [] h = h
  All-without P (g ∷ fs) (h, hs) = ground (arith, All-without P fs hs)

  remove_posted-IsValid : (q : Outbox) → IsValid q → IsValid (remove_posted q id)
  unfolding remove_posted
  remove_posted-IsValid q v = elim (Option-cases (notification_find q.posted id)) [
    | inl nothing ↦ ground (arith, nothing, v)
    | inr (f, found) ↦ ground (
      arith,
      found,
      v,
      total_size-without q.posted f found,
      length-without q.posted f found,
      All-without IsQueued q.posted v.posted_queued,
    )
  ]

  remove_closed-IsValid : (q : Outbox) → IsValid q → IsValid (remove_closed q id)
  unfolding remove_closed
  remove_closed-IsValid q v = elim (Option-cases (notification_find q.closed id)) [
    | inl nothing ↦ ground (arith, nothing, v)
    | inr (f, found) ↦ ground (
      arith,
      found,
      v,
      total_size-without q.closed f found,
      length-without q.closed f found,
      All-without IsQueued q.closed v.closed_queued,
    )
  ]

make_room-IsValid : (closing : Bool) (q : Outbox) → IsValid q → IsValid (make_room closing q)
unfolding make_room
make_room-IsValid closing q v = ground (arith, v)

append_frame-IsValid :
    (malloc closing : Bool) (q : Outbox) (f : Frame)
    → IsQueued f
    → IsValid q
    → IsValid (append_frame malloc closing q f).0
unfolding append_frame
append_frame-IsValid malloc closing q f w v = ground (
  arith,
  v,
  w,
  length-append q.closed (f ∷ []),
  length-append q.posted (f ∷ []),
  total_size-append q.closed (f ∷ []),
  total_size-append q.posted (f ∷ []),
  All-append IsQueued q.closed (f ∷ []) v.closed_queued,
  All-append IsQueued q.posted (f ∷ []) v.posted_queued,
)

send-IsValid :
    (malloc : Bool) (q : Outbox) (p : List ℕ)
    → IsValid q
    → IsValid (notification_outbox_send malloc q p).0
unfolding notification_outbox_send
send-IsValid malloc q p v =
    let flagged : IsValid (record q { reset = true }) = ground (arith, v) in
    let id = u32_at p 8 in
    let closing = get_or p 5 0 == closed_opcode in
    let cleared = remove_closed-IsValid id (remove_posted q id) (remove_posted-IsValid id q v) in
    let room = make_room-IsValid closing (remove_closed (remove_posted q id) id) cleared in
    let queued : IsQueued (new_frame id p) = ground arith in
    let appended =
      append_frame-IsValid malloc closing
        (make_room closing (remove_closed (remove_posted q id) id)) (new_frame id p) queued room in
    ground (arith, v, flagged, appended)

next-IsValid : (q : Outbox) → IsValid q → IsValid (notification_outbox_next q).0
unfolding notification_outbox_next select_record
next-IsValid q v = elim (List-cases q.closed) [
  | inl e ↦ elim (List-cases q.posted) [
    | inl k ↦ ground (arith, v, e, k)
    | inr (g, gs, k) ↦ ground (arith, v, e, k)
  ]
  | inr (f, fs, e) ↦ ground (arith, v, e)
]

consume-IsValid :
    (q : Outbox) (n : ℕ) {left : List ℕ}
    → offered q ≡ some left
    → n ≤ length left
    → 0 < n
    → IsValid q
    → IsValid (notification_outbox_consume q n)
unfolding notification_outbox_consume offered
consume-IsValid q n {left} e h some_n v = elim (Option-cases q.active) [
  | inl k ↦ ground (arith, v, k, length-drop q.reset_offset reset_record)
  | inr (f, k) ↦ ground (arith, v, k, length-drop f.offset f.bytes)
]

-- The bookkeeping of the outbox is right after every operation: a payload that is queued with any answer
-- of malloc, the selection of a record, and the report that some of the bytes offered were written. The
-- counts are those of the queues and at most 64, and the byte total is the sum of the frames that the
-- outbox holds, the selected one included, and at most 512 KiB.
pub outbox-IsValid :
    (malloc : Bool) (q : Outbox) (p : List ℕ)
    → IsValid q
    → IsValid (notification_outbox_send malloc q p).0
      × IsValid (notification_outbox_next q).0
      × ((n : ℕ) (left : List ℕ)
          → offered q ≡ some left
          → n ≤ length left
          → 0 < n
          → IsValid (notification_outbox_consume q n))
outbox-IsValid malloc q p v =
    (send-IsValid malloc q p v, next-IsValid q v, (λ n left e h k. consume-IsValid q n e h k v))
