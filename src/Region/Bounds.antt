-- ===== src/Region/Bounds.antt =====
-- The boxes of a region: never empty, in the range that int64_t sums need, and no more than there is
-- room for.
use native.Mathlib.Nat.{pow-suc}
use mathlib.Core.Option
use mathlib.Core.Path.{subst}
use native_pipe.Base.{
  ℕ, zero, suc, ◌+◌, ◌*◌, ◌^◌, ◌≤◌, ◌<◌, ◌≡◌, Bool, false, ◌||◌, some, List, [], ◌∷◌, ◌==◌,
  if◌then◌else◌, length, length-append, All, All-append, arith, Option-cases, Bool-cases, inl, inr,
}
use native_pipe.Base.Int.{ℤ, pos, pos_part, neg_part, ◌-ℤ◌, ◌≤ℤ◌, leb_ℤ, int_laws, parts_split}
use native_pipe.Region.{
  Box, RegionState, u32_max, grow_capacity, reserve_boxes, append_piece, append_pieces, region_add,
  region_subtract, subtract_loop, pieces, right, bottom, empty_region, region_copy, span,
  parts_around, is_apart, max_ℤ, min_ℤ,
}

-- The range of the coordinates that a client's int32_t rectangles give.
pub record IsInside (b : Box) : Type 0 where
  pub x_lo : neg_part b.x ≤ 2 ^ 31
  pub y_lo : neg_part b.y ≤ 2 ^ 31
  pub wide : 0 < pos_part b.width
  pub tall : 0 < pos_part b.height
  pub x_hi : right b ≤ℤ pos (2 ^ 32)
  pub y_hi : bottom b ≤ℤ pos (2 ^ 32)

-- A piece that append_piece would keep.
abbrev pub IsKept : Box → Type 0
IsKept b = (leb_ℤ b.width (pos 0) || leb_ℤ b.height (pos 0)) ≡ false

-- A piece between corners of the box.
span-IsInside :
    (b : Box) (x0 y0 x1 y1 : ℤ)
    → IsInside b
    → b.x ≤ℤ x0
    → b.y ≤ℤ y0
    → x1 ≤ℤ right b
    → y1 ≤ℤ bottom b
    → IsKept (span x0 y0 x1 y1)
    → IsInside (span x0 y0 x1 y1)
span-IsInside b x0 y0 x1 y1 v hx hy hr hb kept =
    let wide : 0 < pos_part (x1 -ℤ x0) = ground arith in
    let tall : 0 < pos_part (y1 -ℤ y0) = ground arith in
    omega (int_laws, parts_split x0, parts_split y0)

max_ℤ-le : (a b : ℤ) → (a ≤ℤ max_ℤ a b) × (b ≤ℤ max_ℤ a b)
max_ℤ-le a b = ground arith

min_ℤ-le : (a b : ℤ) → (min_ℤ a b ≤ℤ a) × (min_ℤ a b ≤ℤ b)
min_ℤ-le a b = ground arith

parts_around-IsInside :
    (b : Box) (x0 y0 x1 y1 : ℤ)
    → IsInside b
    → b.x ≤ℤ x0
    → b.y ≤ℤ y0
    → x1 ≤ℤ right b
    → y1 ≤ℤ bottom b
    → is_apart x0 y0 x1 y1 ≡ false
    → All (λ p. IsKept p → IsInside p) (parts_around b x0 y0 x1 y1)
parts_around-IsInside b x0 y0 x1 y1 v hx hy hr hb meets =
    let wide : x0 ≤ℤ x1 = ground arith in
    let tall : y0 ≤ℤ y1 = ground arith in
    let above =
      span-IsInside b b.x b.y (right b) y0 v (omega arith) (omega arith) (omega arith)
        (omega arith) in
    let below =
      span-IsInside b b.x y1 (right b) (bottom b) v (omega arith) (omega arith) (omega arith)
        (omega arith) in
    let before =
      span-IsInside b b.x y0 x0 y1 v (omega arith) (omega arith) (omega arith) (omega arith) in
    let after =
      span-IsInside b x1 y0 (right b) y1 v (omega arith) (omega arith) (omega arith)
        (omega arith) in
    (above, (below, (before, (after, tt))))

-- Every piece that is kept is inside, wherever the rectangle lies.
pieces-IsInside : (s b : Box) → IsInside b → All (λ p. IsKept p → IsInside p) (pieces s b)
unfolding pieces
pieces-IsInside s b v =
    let x0 = max_ℤ b.x s.x in
    let y0 = max_ℤ b.y s.y in
    let x1 = min_ℤ (right b) (right s) in
    let y1 = min_ℤ (bottom b) (bottom s) in
    elim (Bool-cases (is_apart x0 y0 x1 y1)) [
      | inl apart ↦ rw apart (
        span-IsInside b b.x b.y (right b) (bottom b) v (omega arith) (omega arith) (omega arith)
            (omega arith),
        tt,
      )
      | inr meets ↦ rw meets (
          parts_around-IsInside b x0 y0 x1 y1 v (max_ℤ-le b.x s.x).0 (max_ℤ-le b.y s.y).0
            (min_ℤ-le (right b) (right s)).0 (min_ℤ-le (bottom b) (bottom s)).0 meets)
    ]

grow_capacity-enough :
    (fuel capacity needed : ℕ)
    → needed ≤ capacity * 2 ^ fuel
    → needed ≤ grow_capacity fuel capacity needed
unfolding grow_capacity
grow_capacity-enough zero capacity needed h = omega arith
grow_capacity-enough (suc fuel) capacity needed h =
    let twice : capacity * 2 ^ suc fuel ≡ capacity * 2 * 2 ^ fuel = simp pow-suc (grind arith) in
    ground (arith, twice, grow_capacity-enough fuel (capacity * 2) needed)

-- What reserve_boxes gives has room for as many boxes as were asked for, and the same boxes.
reserve_boxes-enough :
    (realloc : ℕ → Bool) (r : RegionState) (needed : ℕ) {grown : RegionState}
    → needed < 2 ^ 32
    → reserve_boxes realloc r needed ≡ some grown
    → (needed ≤ grown.capacity) × (grown.boxes ≡ r.boxes)
unfolding reserve_boxes
reserve_boxes-enough realloc r needed h e =
    let first : ℕ = if r.capacity == 0 then 8 else r.capacity in
    let pos_first : 0 < first = ground arith in
    let room : needed ≤ first * 2 ^ 32 = grind arith in
    ground (arith, grow_capacity-enough 32 first needed room)

pub record IsValid (r : RegionState) : Type 0 where
  pub inside : All IsInside r.boxes
  pub fits : length r.boxes ≤ r.capacity
  pub counted : length r.boxes ≤ u32_max

append_piece-IsValid :
    (realloc : ℕ → Bool) (r : RegionState) (b : Box) {grown : RegionState}
    → (IsKept b → IsInside b)
    → append_piece realloc r b ≡ some grown
    → IsValid r
    → IsValid grown
unfolding append_piece
append_piece-IsValid realloc r b {grown} ok e v =
    elim (Option-cases (reserve_boxes realloc r (length r.boxes + 1))) [
      | inl nothing ↦ ground arith
      | inr (g, got) ↦ ground (
        arith,
        ok,
        reserve_boxes-enough realloc r (length r.boxes + 1) {grown = g},
        length-append r.boxes (b ∷ []),
        All-append IsInside r.boxes (b ∷ []) v.inside,
      )
    ]

append_pieces-IsValid :
    (realloc : ℕ → Bool) (r : RegionState) (bs : List Box) {grown : RegionState}
    → All (λ p. IsKept p → IsInside p) bs
    → append_pieces realloc r bs ≡ some grown
    → IsValid r
    → IsValid grown
unfolding append_pieces
append_pieces-IsValid realloc r [] {grown} ok e v =
    let same : r ≡ grown = cc e in subst IsValid same v
append_pieces-IsValid realloc r (b ∷ bs) {grown} (ok, oks) e v =
    elim (Option-cases (append_piece realloc r b)) [
      | inl nothing ↦ cc (nothing, e)
      | inr (g, got) ↦
          append_pieces-IsValid realloc g bs oks (cc (got, e))
            (append_piece-IsValid realloc r b ok got v)
    ]

subtract_loop-IsValid :
    (realloc : ℕ → Bool) (r : RegionState) (s : Box) (bs : List Box) {result : RegionState}
    → All IsInside bs
    → subtract_loop realloc r s bs ≡ some result
    → IsValid r
    → IsValid result
unfolding subtract_loop
subtract_loop-IsValid realloc r s [] {result} ok e v =
    let same : r ≡ result = cc e in subst IsValid same v
subtract_loop-IsValid realloc r s (b ∷ bs) {result} (ok, oks) e v =
    elim (Option-cases (append_pieces realloc r (pieces s b))) [
      | inl nothing ↦ cc (nothing, e)
      | inr (g, got) ↦
          subtract_loop-IsValid realloc g s bs oks (cc (got, e))
            (append_pieces-IsValid realloc r (pieces s b) (pieces-IsInside s b ok) got v)
    ]

-- The rectangle of a request: four int32_t.
pub record IsRequest (b : Box) : Type 0 where
  pub x_lo : neg_part b.x ≤ 2 ^ 31
  pub y_lo : neg_part b.y ≤ 2 ^ 31
  pub x_lt : pos_part b.x < 2 ^ 31
  pub y_lt : pos_part b.y < 2 ^ 31
  pub width_lt : pos_part b.width < 2 ^ 31
  pub height_lt : pos_part b.height < 2 ^ 31

request-IsInside : (b : Box) → IsRequest b → IsKept b → IsInside b
request-IsInside b q kept =
    let wide : 0 < pos_part b.width = ground arith in
    let tall : 0 < pos_part b.height = ground arith in
    omega (int_laws, parts_split b.width, parts_split b.height)

module _ (realloc : ℕ → Bool) (r : RegionState) (b : Box) where
  added-IsValid : IsRequest b → IsValid r → IsValid (region_add realloc r b).0
  unfolding region_add
  added-IsValid q v = elim (Option-cases (append_piece realloc r b)) [
    | inl nothing ↦ ground arith
    | inr (g, got) ↦
        ground (arith, append_piece-IsValid realloc r b {grown = g} (request-IsInside b q) got v)
  ]

  cut-IsValid : IsValid r → IsValid (region_subtract realloc r b).0
  unfolding region_subtract
  cut-IsValid v = elim (Option-cases (subtract_loop realloc empty_region b r.boxes)) [
    | inl nothing ↦ ground arith
    | inr (g, got) ↦ ground (
      arith,
      subtract_loop-IsValid realloc empty_region b r.boxes {result = g} v.inside got (omega arith),
    )
  ]

copied-IsValid :
    (realloc : ℕ → Bool) (r other : RegionState)
    → IsValid r
    → IsValid other
    → IsValid (Option.get_or (region_copy realloc r other) other)
unfolding region_copy
copied-IsValid realloc r other v w =
    elim (Option-cases (reserve_boxes realloc empty_region (length r.boxes))) [
      | inl nothing ↦ ground arith
      | inr (g, got) ↦ ground (
        arith,
        v,
        reserve_boxes-enough realloc empty_region (length r.boxes) {grown = g} (ground (arith, v))
            got,
      )
    ]

-- wl_region.add and wl_region.subtract, with any answer of the allocator, and the copy that a commit
-- takes keep a region valid: its boxes are not empty, lie in the range where no int64_t sum overflows,
-- and are no more than there is room for.
pub region-IsValid :
    (realloc : ℕ → Bool) (r other : RegionState) (b : Box)
    → IsRequest b
    → IsValid r
    → IsValid other
    → IsValid (region_add realloc r b).0
      × IsValid (region_subtract realloc r b).0
      × IsValid (Option.get_or (region_copy realloc r other) other)
region-IsValid realloc r other b q v w =
    (added-IsValid realloc r b q v, cut-IsValid realloc r b v, copied-IsValid realloc r other v w)
