-- ===== src/Region.antt =====
-- guest/compositor/region.c: the exact rectangle set of a wl_region. `int64_t` values are integers; that
-- none of them overflows is part of the invariant. Whether realloc gives memory is a parameter.
pub mod Bounds
pub mod Cover
pub mod Exact
mod Tests
use native_pipe.Base.{◌≡◌}
use native_pipe.Base.{
  ℕ, zero, suc, ◌+◌, ◌-◌, ◌*◌, ◌/◌, ◌^◌, ◌≤◌, Bool, true, false, not, ◌&&◌, ◌||◌, Option, none,
  some, List, [], ◌∷◌, ◌++◌, ltb, leb, ◌==◌, if◌then◌else◌, length,
}
use native_pipe.Base.Int.{ℤ, pos, pos_part, neg_part, ◌+ℤ◌, ◌-ℤ◌, ltb_ℤ, leb_ℤ}

-- `struct np_region_box`
pub record Box : Type 0 where
  pub x : ℤ
  pub y : ℤ
  pub width : ℤ
  pub height : ℤ

-- `struct np_region_state`; `count` is the length of `boxes`.
pub record RegionState : Type 0 where
  pub capacity : ℕ
  pub boxes : List Box

abbrev pub u32_max : ℕ
u32_max = 0xffff_ffff

abbrev pub size_max : ℕ
size_max = 2 ^ 64 - 1

-- `sizeof(struct np_region_box)`: four int64_t.
abbrev pub box_size : ℕ
box_size = 32

abbrev pub empty_region : RegionState
empty_region = record { capacity = 0; boxes = [] }

-- `width` and `height` are int32_t here.
unfoldable pub valid_box : ℤ → ℤ → Bool
valid_box width height = ltb_ℤ (pos 0) width && ltb_ℤ (pos 0) height

-- `while (capacity < needed)` of reserve_boxes.
unfoldable pub grow_capacity : ℕ → ℕ → ℕ → ℕ
grow_capacity zero capacity needed = capacity
grow_capacity (suc fuel) capacity needed =
    let doubled = grow_capacity fuel (capacity * 2) needed in
    if ltb capacity needed then if ltb (u32_max / 2) capacity then needed else doubled else capacity

-- np_region_fini on a state of its own is `empty_region`. np_region_move between two states.
unfoldable pub region_move : RegionState → RegionState → RegionState × RegionState
region_move destination source = (source, empty_region)

-- `realloc` says whether that many bytes are given.
module _ (realloc : ℕ → Bool) where
  -- reserve_boxes; `none` is false. A uint32_t of at least 1 passes 2 ^ 31 in 32 doublings.
  unfoldable pub reserve_boxes : RegionState → ℕ → Option RegionState
  unfolding grow_capacity
  reserve_boxes state needed =
      let first = if state.capacity == 0 then 8 else state.capacity in
      let capacity = grow_capacity 32 first needed in
      if leb needed state.capacity
      then some state
      else if ltb (size_max / capacity) box_size
      then none
      else if realloc (capacity * box_size)
      then some (record state { capacity = capacity })
      else none

  unfoldable pub append_piece : RegionState → Box → Option RegionState
  append_piece state box =
      if leb_ℤ box.width (pos 0) || leb_ℤ box.height (pos 0)
      then some state
      else if length state.boxes == u32_max
      then none
      else elim (reserve_boxes state (length state.boxes + 1)) [
        | none ↦ none
        | some grown ↦ some (record grown { boxes = grown.boxes ++ (box ∷ []) })
      ]

  -- region_add. The flag says that wl_client_post_no_memory is called.
  unfoldable pub region_add : RegionState → Box → RegionState × Bool
  unfolding valid_box
  region_add region box =
      if not (valid_box box.width box.height)
      then (region, false)
      else elim (append_piece region box) [ none ↦ (region, true) | some grown ↦ (grown, false) ]

  -- Pieces one after the other, as `!append_piece(…) || !append_piece(…)` tries them.
  unfoldable pub append_pieces : RegionState → List Box → Option RegionState
  append_pieces state [] = some state
  append_pieces state (b ∷ bs) = elim (append_piece state b) [
    | none ↦ none
    | some next ↦ append_pieces next bs
  ]

abbrev pub max_ℤ : ℤ → ℤ → ℤ
max_ℤ a b = if ltb_ℤ b a then a else b

abbrev pub min_ℤ : ℤ → ℤ → ℤ
min_ℤ a b = if ltb_ℤ a b then a else b

abbrev pub right : Box → ℤ
right b = b.x +ℤ b.width

abbrev pub bottom : Box → ℤ
bottom b = b.y +ℤ b.height

-- The piece from one corner to another, as region_subtract computes its sizes.
abbrev pub span : ℤ → ℤ → ℤ → ℤ → Box
span x0 y0 x1 y1 = record { x = x0; y = y0; width = x1 -ℤ x0; height = y1 -ℤ y0 }

-- The parts of a box above, below, left and right of the part that it shares with the rectangle.
abbrev pub parts_around : Box → ℤ → ℤ → ℤ → ℤ → List Box
parts_around b ix0 iy0 ix1 iy1 =
    span b.x b.y (right b) iy0
    ∷ span b.x iy1 (right b) (bottom b)
    ∷ span b.x iy0 ix0 iy1
    ∷ span ix1 iy0 (right b) iy1
    ∷ []

-- The common part is empty.
abbrev pub is_apart : ℤ → ℤ → ℤ → ℤ → Bool
is_apart ix0 iy0 ix1 iy1 = leb_ℤ ix1 ix0 || leb_ℤ iy1 iy0

-- What the loop of region_subtract appends for the box `b`: the box itself where it does not meet the
-- rectangle `s`, or else the parts around.
unfoldable pub pieces : Box → Box → List Box
pieces s b =
    let ix0 = max_ℤ b.x s.x in
    let iy0 = max_ℤ b.y s.y in
    let ix1 = min_ℤ (right b) (right s) in
    let iy1 = min_ℤ (bottom b) (bottom s) in
    if is_apart ix0 iy0 ix1 iy1
    then span b.x b.y (right b) (bottom b) ∷ []
    else parts_around b ix0 iy0 ix1 iy1

module _ (realloc : ℕ → Bool) where
  -- The loop of region_subtract over the boxes not yet cut.
  unfoldable pub subtract_loop : RegionState → Box → List Box → Option RegionState
  unfolding pieces append_pieces
  subtract_loop result s [] = some result
  subtract_loop result s (b ∷ bs) = elim (append_pieces realloc result (pieces s b)) [
    | none ↦ none
    | some next ↦ subtract_loop next s bs
  ]

  -- region_subtract. Without memory the region stays as it was.
  unfoldable pub region_subtract : RegionState → Box → RegionState × Bool
  unfolding valid_box region_move
  region_subtract region s =
      if not (valid_box s.width s.height)
      then (region, false)
      else elim (subtract_loop empty_region s region.boxes) [
        | none ↦ (region, true)
        | some result ↦ ((region_move region result).0, false)
      ]

  -- np_region_copy_resource on a region that is there; `none` is false.
  unfoldable pub region_copy : RegionState → RegionState → Option RegionState
  unfolding reserve_boxes region_move
  region_copy region destination =
      if length region.boxes == 0
      then some (region_move destination empty_region).0
      else elim (reserve_boxes realloc empty_region (length region.boxes)) [
        | none ↦ none
        | some copy ↦ some (region_move destination (record copy { boxes = region.boxes })).0
      ]

-- Integers that a double holds exactly.
abbrev pub IsSmall : ℤ → Type 0
IsSmall a = (pos_part a ≤ 2 ^ 53) × (neg_part a ≤ 2 ^ 53)

-- What np_region_contains uses of `double`: the conversion of an integer, the order and the sum, as
-- IEEE 754 has them. A point that is no number (NaN) is in no box.
pub record Doubles : Type 1 where
  pub Double : Type 0
  pub of_int : ℤ → Double
  pub le : Double → Double → Bool
  pub lt : Double → Double → Bool
  pub plus : Double → Double → Double
  pub IsNumber : Double → Type 0
  -- Conversion keeps the order.
  pub le_mono :
      (a b : ℤ) (p : Double) → leb_ℤ a b ≡ true → le (of_int b) p ≡ true → le (of_int a) p ≡ true
  -- The order of numbers is total.
  pub lt_not_le : (a : ℤ) (p : Double) → IsNumber p → lt p (of_int a) ≡ not (le (of_int a) p)
  -- Sums of exact integers are exact.
  pub plus_exact :
      (a b : ℤ)
      → IsSmall a
      → IsSmall b
      → IsSmall (a +ℤ b)
      → plus (of_int a) (of_int b) ≡ of_int (a +ℤ b)

module _ (d : Doubles) where
  open d use {Double, of_int, le, lt, plus}

  -- One round of np_region_contains.
  unfoldable pub box_contains : Box → Double → Double → Bool
  box_contains b x y =
      le (of_int b.x) x
      && (le (of_int b.y) y
          && (lt x (plus (of_int b.x) (of_int b.width))
              && lt y (plus (of_int b.y) (of_int b.height))))

  -- np_region_contains
  unfoldable pub contains : List Box → Double → Double → Bool
  unfolding box_contains
  contains [] x y = false
  contains (b ∷ bs) x y = box_contains b x y || contains bs x y
