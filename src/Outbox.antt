-- ===== src/Outbox.antt =====
-- guest/compositor/notification_outbox.h: the queue of optional desktop notifications on the stream that
-- also carries window state. Payloads are byte lists; whether malloc gives memory is a parameter.
pub mod Valid
pub mod Pinned
mod Tests
use native_pipe.Base.{
  ℕ, suc, ◌+◌, ◌-◌, ◌*◌, ◌^◌, Bool, true, false, not, ◌&&◌, ◌||◌, Option, none, some, List, [], ◌∷◌,
  ◌++◌, ltb, leb, ◌==◌, if◌then◌else◌, is_some, length, take, drop, get_or,
}
use native_pipe.Base.Bytes.{le32, u32_at}

abbrev pub outbox_ids : ℕ
outbox_ids = 64

abbrev pub outbox_bytes : ℕ
outbox_bytes = 524288

abbrev pub outbox_payload : ℕ
outbox_payload = 8192

-- The opcodes of windowwire.h that the queue takes.
abbrev pub posted_opcode : ℕ
posted_opcode = 38

abbrev pub closed_opcode : ℕ
closed_opcode = 39

abbrev pub reset_opcode : ℕ
reset_opcode = 42

-- `struct np_notification_frame`; the list holds `next`.
pub record Frame : Type 0 where
  pub id : ℕ
  pub revision : ℕ
  pub size : ℕ
  pub offset : ℕ
  pub bytes : List ℕ

-- `struct np_notification_outbox`
pub record Outbox : Type 0 where
  pub posted : List Frame
  pub closed : List Frame
  pub active : Option Frame
  pub posted_count : ℕ
  pub closed_count : ℕ
  pub bytes : ℕ
  pub reset_offset : ℕ
  pub reset : Bool
  pub active_reset : Bool

abbrev pub empty_outbox : Outbox
empty_outbox = record {
  posted = [];
  closed = [];
  active = none;
  posted_count = 0;
  closed_count = 0;
  bytes = 0;
  reset_offset = 0;
  reset = false;
  active_reset = false;
}

-- `memcmp(p, "NPW2\1", 5)` finds no difference.
abbrev pub has_prefix : List ℕ → Bool
has_prefix p =
    (get_or p 0 0 == b'N')
    && ((get_or p 1 0 == b'P')
        && ((get_or p 2 0 == b'W') && ((get_or p 3 0 == b'2') && (get_or p 4 0 == 1))))

-- np_notification_payload
unfoldable pub notification_payload : List ℕ → Bool
notification_payload p =
    leb 8 (length p)
    && (has_prefix p
        && ((get_or p 5 0 == posted_opcode)
            || ((get_or p 5 0 == closed_opcode) || (get_or p 5 0 == reset_opcode))))

-- The sizes that np_notification_free_list gives back.
abbrev pub total_size : List Frame → ℕ
total_size [] = 0
total_size (f ∷ fs) = f.size + total_size fs

-- np_notification_find: the first frame of the id.
abbrev pub notification_find : List Frame → ℕ → Option Frame
notification_find [] id = none
notification_find (f ∷ fs) id = if f.id == id then some f else notification_find fs id

-- The list without the frame that np_notification_find stops at.
abbrev pub without : List Frame → ℕ → List Frame
without [] id = []
without (f ∷ fs) id = if f.id == id then fs else f ∷ without fs id

-- np_notification_remove of what np_notification_find gives, on each of the two lists.
unfoldable pub remove_posted : Outbox → ℕ → Outbox
remove_posted q id = elim (notification_find q.posted id) [
  | none ↦ q
  | some old ↦ record q {
    posted = without q.posted id;
    bytes = q.bytes - old.size;
    posted_count = q.posted_count - 1;
  }
]

unfoldable pub remove_closed : Outbox → ℕ → Outbox
remove_closed q id = elim (notification_find q.closed id) [
  | none ↦ q
  | some old ↦ record q {
    closed = without q.closed id;
    bytes = q.bytes - old.size;
    closed_count = q.closed_count - 1;
  }
]

-- A frame that is there has a later revision.
abbrev pub is_newer : Option Frame → ℕ → Bool
is_newer none revision = false
is_newer (some f) revision = ltb revision f.revision

abbrev pub is_active : Option Frame → ℕ → ℕ → Bool
is_active none id revision = false
is_active (some f) id revision = (f.id == id) && ltb revision f.revision

-- `revision` as memcpy reads it on a little-endian machine.
abbrev pub revision_of : List ℕ → ℕ
revision_of p = u32_at p 12 + u32_at p 16 * 2 ^ 32

-- The NPIP record of a payload.
abbrev pub record_bytes : List ℕ → List ℕ
record_bytes p = (b'N' ∷ b'P' ∷ b'I' ∷ b'P' ∷ 1 ∷ 0 ∷ 0 ∷ 0 ∷ []) ++ (le32 (length p) ++ p)

abbrev pub new_frame : ℕ → List ℕ → Frame
new_frame id p = record {
  id = id;
  revision = revision_of p;
  size = 12 + length p;
  offset = 0;
  bytes = record_bytes p;
}

-- Without a free identity for a Close, all the queued ones go and one reset stands for them.
unfoldable pub make_room : Bool → Outbox → Outbox
make_room closing q =
    if closing && (q.closed_count == outbox_ids)
    then record q {
      closed = [];
      bytes = q.bytes - total_size q.closed;
      closed_count = 0;
      reset = true;
    }
    else q

-- The last part of np_notification_outbox_send, from `size_t size` on.
unfoldable pub append_frame : Bool → Bool → Outbox → Frame → Outbox × Bool
append_frame malloc closing q f =
    let count = if closing then q.closed_count else q.posted_count in
    if (count == outbox_ids) || ltb (outbox_bytes - q.bytes) f.size
    then (record q { reset = true }, closing)
    else if not malloc
    then (record q { reset = true }, closing)
    else if closing
    then (
      record q {
        closed = q.closed ++ (f ∷ []);
        closed_count = suc q.closed_count;
        bytes = q.bytes + f.size;
      },
      true,
    )
    else (
      record q {
        posted = q.posted ++ (f ∷ []);
        posted_count = suc q.posted_count;
        bytes = q.bytes + f.size;
      },
      true,
    )

-- np_notification_outbox_send
unfoldable pub notification_outbox_send : Bool → Outbox → List ℕ → Outbox × Bool
notification_outbox_send malloc q p =
    let opcode = get_or p 5 0 in
    let id = u32_at p 8 in
    let revision = revision_of p in
    let closing = opcode == closed_opcode in
    if not (notification_payload p) || (not (get_or p 6 0 == 0) || not (get_or p 7 0 == 0))
    then (q, false)
    else if opcode == reset_opcode
    then (if not (length p == 8) then (q, false) else (record q { reset = true }, true))
    else if ltb (length p) 20 || ltb outbox_payload (length p)
    then (q, false)
    else if (id == 0) || ((revision == 0) || (closing && not (length p == 20)))
    then (q, false)
    else if is_active q.active id revision
        || (is_newer (notification_find q.posted id) revision
            || is_newer (notification_find q.closed id) revision)
    then (q, true)
    else append_frame malloc closing (make_room closing (remove_closed (remove_posted q id) id))
        (new_frame id p)

-- np_notification_outbox_pending
unfoldable pub notification_outbox_pending : Outbox → Bool
notification_outbox_pending q =
    not (length q.posted == 0)
    || (not (length q.closed == 0) || (is_some q.active || (q.reset || q.active_reset)))

-- np_notification_outbox_started
unfoldable pub notification_outbox_started : Outbox → Bool
notification_outbox_started q =
    elim q.active [ none ↦ false | some f ↦ not (f.offset == 0) ]
    || (q.active_reset && not (q.reset_offset == 0))

abbrev pub reset_record : List ℕ
reset_record = record_bytes (b'N' ∷ b'P' ∷ b'W' ∷ b'2' ∷ 1 ∷ reset_opcode ∷ 0 ∷ 0 ∷ [])

-- np_notification_outbox_next, first half: a record is selected unless one is.
unfoldable pub select_record : Outbox → Outbox
select_record q =
    if is_some q.active || q.active_reset
    then q
    else if q.reset
    then record q { active_reset = true; reset = false; reset_offset = 0 }
    else elim q.closed [
      | f ∷ fs ↦ record q { active = some f; closed = fs; closed_count = q.closed_count - 1 }
      | [] ↦ elim q.posted [
        | f ∷ fs ↦ record q { active = some f; posted = fs; posted_count = q.posted_count - 1 }
        | [] ↦ q
      ]
    ]

-- What is left of the selected record; `none` is NULL.
unfoldable pub offered : Outbox → Option (List ℕ)
offered q =
    if q.active_reset
    then some (drop q.reset_offset reset_record)
    else elim q.active [ none ↦ none | some f ↦ some (drop f.offset f.bytes) ]

-- np_notification_outbox_next
unfoldable pub notification_outbox_next : Outbox → Outbox × Option (List ℕ)
notification_outbox_next q = (select_record q, offered (select_record q))

-- np_notification_outbox_consume; without a selected record the code follows a null pointer, so that no
-- caller does so.
unfoldable pub notification_outbox_consume : Outbox → ℕ → Outbox
notification_outbox_consume q count =
    if q.active_reset
    then if q.reset_offset + count == 20
      then record q { active_reset = false; reset_offset = 0 }
      else record q { reset_offset = q.reset_offset + count }
    else elim q.active [
      | none ↦ q
      | some f ↦
          if f.offset + count == f.size
          then record q { bytes = q.bytes - f.size; active = none }
          else record q { active = some (record f { offset = f.offset + count }) }
    ]
