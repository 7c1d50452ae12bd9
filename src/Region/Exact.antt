-- ===== src/Region/Exact.antt =====
-- A region contains exactly the points that its requests say.
use mathlib.Core.Path.{subst}
use native_pipe.Base.{
  ℕ, ◌+◌, ◌≡◌, sym, ◌∙◌, Bool, true, false, not, ◌&&◌, ◌||◌, some, List, [], ◌∷◌, length, All,
  arith, Option-cases, Bool-cases, inl, inr,
}
use native_pipe.Base.Int.{ℤ}
use native_pipe.Region.{
  Box, RegionState, Doubles, box_contains, contains, append_piece, append_pieces, region_add,
  region_subtract, subtract_loop, pieces, right, bottom, valid_box, region_move, empty_region, span,
  parts_around, is_apart, max_ℤ, min_ℤ, reserve_boxes,
}
use native_pipe.Region.Bounds.{IsInside, IsValid, IsRequest}
use native_pipe.Region.Cover.{
  IsNear, IsNearBox, inside-IsNearBox, request-IsNearBox, span-IsNearBox, span-right, between,
  apart, around, dropped, contains-append, box_contains-between,
}

reserve_boxes-same :
    (realloc : ℕ → Bool) (r : RegionState) (needed : ℕ) {grown : RegionState}
    → reserve_boxes realloc r needed ≡ some grown
    → grown.boxes ≡ r.boxes
unfolding reserve_boxes
reserve_boxes-same realloc r needed e = ground arith

or_false : (a : Bool) → (a || false) ≡ a
or_false a = ground arith

and_true : (a : Bool) → (a && true) ≡ a
and_true a = ground arith

or_false3 : (a b c e : Bool) → (a || (b || (c || (e || false)))) ≡ (a || (b || (c || e)))
or_false3 a b c e = ground arith

IsNear-max : (a b : ℤ) → IsNear a → IsNear b → IsNear (max_ℤ a b)
IsNear-max a b h k = ground arith

IsNear-min : (a b : ℤ) → IsNear a → IsNear b → IsNear (min_ℤ a b)
IsNear-min a b h k = ground arith

-- The pieces of a cut lie between near lines.
pieces-IsNearBox : (s b : Box) → IsNearBox s → IsNearBox b → All IsNearBox (pieces s b)
unfolding pieces
pieces-IsNearBox s b v w =
    let x0 = max_ℤ b.x s.x in
    let y0 = max_ℤ b.y s.y in
    let x1 = min_ℤ (right b) (right s) in
    let y1 = min_ℤ (bottom b) (bottom s) in
    let near_x0 = IsNear-max b.x s.x w.near_x v.near_x in
    let near_y0 = IsNear-max b.y s.y w.near_y v.near_y in
    let near_x1 = IsNear-min (right b) (right s) w.near_right v.near_right in
    let near_y1 = IsNear-min (bottom b) (bottom s) w.near_bottom v.near_bottom in
    elim (Bool-cases (is_apart x0 y0 x1 y1)) [
      | inl e ↦ rw e (
        span-IsNearBox b.x b.y (right b) (bottom b) w.near_x w.near_y w.near_right w.near_bottom,
        tt,
      )
      | inr e ↦ rw e (
        span-IsNearBox b.x b.y (right b) y0 w.near_x w.near_y w.near_right near_y0,
        (
          span-IsNearBox b.x y1 (right b) (bottom b) w.near_x near_y1 w.near_right w.near_bottom,
          (
            span-IsNearBox b.x y0 x0 y1 w.near_x near_y0 near_x0 near_y1,
            (span-IsNearBox x1 y0 (right b) y1 near_x1 near_y0 w.near_right near_y1, tt),
          ),
        ),
      )
    ]

-- A point whose coordinates are numbers, and any answer of the allocator.
module _ (d : Doubles) (x y : d.Double) (number_x : d.IsNumber x) (number_y : d.IsNumber y)
    (realloc : ℕ → Bool) where
  span-contains :
      (x0 y0 x1 y1 : ℤ)
      → IsNearBox (span x0 y0 x1 y1)
      → box_contains d (span x0 y0 x1 y1) x y ≡ between d x y number_x number_y x0 y0 x1 y1
  span-contains x0 y0 x1 y1 v =
      box_contains-between d x y number_x number_y (span x0 y0 x1 y1) v
      ∙ rw (span-right x0 x1, span-right y0 y1)

  -- The parts around a rectangle between near lines, by the lines.
  parts_around-contains :
      (b : Box) (x0 y0 x1 y1 : ℤ)
      → IsNearBox b
      → IsNear x0
      → IsNear y0
      → IsNear x1
      → IsNear y1
      → let m = between d x y number_x number_y in
        contains d (parts_around b x0 y0 x1 y1) x y ≡ (
          m b.x b.y (right b) y0
          || (m b.x y1 (right b) (bottom b) || (m b.x y0 x0 y1 || m x1 y0 (right b) y1)))
  unfolding contains
  parts_around-contains b x0 y0 x1 y1 v near_x0 near_y0 near_x1 near_y1 =
      let m = between d x y number_x number_y in
      let above = span-IsNearBox b.x b.y (right b) y0 v.near_x v.near_y v.near_right near_y0 in
      let below =
        span-IsNearBox b.x y1 (right b) (bottom b) v.near_x near_y1 v.near_right v.near_bottom in
      let before = span-IsNearBox b.x y0 x0 y1 v.near_x near_y0 near_x0 near_y1 in
      let after = span-IsNearBox x1 y0 (right b) y1 near_x1 near_y0 v.near_right near_y1 in
      rw
        (
          span-contains b.x b.y (right b) y0 above,
          span-contains b.x y1 (right b) (bottom b) below,
          span-contains b.x y0 x0 y1 before,
          span-contains x1 y0 (right b) y1 after,
        )
        (or_false3 (m b.x b.y (right b) y0) (m b.x y1 (right b) (bottom b)) (m b.x y0 x0 y1)
          (m x1 y0 (right b) y1))

  -- The pieces of a cut hold what lies in the box and not in the rectangle.
  pieces-contains :
      (s b : Box)
      → IsNearBox s
      → IsNearBox b
      → contains d (pieces s b) x y ≡ (box_contains d b x y && not (box_contains d s x y))
  unfolding pieces contains
  pieces-contains s b v w =
      let x0 = max_ℤ b.x s.x in
      let y0 = max_ℤ b.y s.y in
      let x1 = min_ℤ (right b) (right s) in
      let y1 = min_ℤ (bottom b) (bottom s) in
      let in_b = box_contains-between d x y number_x number_y b w in
      let in_s = box_contains-between d x y number_x number_y s v in
      elim (Bool-cases (is_apart x0 y0 x1 y1)) [
        | inl e ↦ rw e (
            rw
              (
                span-contains b.x b.y (right b) (bottom b) (
                    span-IsNearBox b.x b.y (right b) (bottom b) w.near_x w.near_y w.near_right
                      w.near_bottom),
                in_b,
                in_s,
              )
              (or_false (between d x y number_x number_y b.x b.y (right b) (bottom b))
                ∙ apart d x y number_x number_y b s e))
        | inr e ↦ rw e (
            rw
              (
                parts_around-contains b x0 y0 x1 y1 w (IsNear-max b.x s.x w.near_x v.near_x)
                    (IsNear-max b.y s.y w.near_y v.near_y)
                    (IsNear-min (right b) (right s) w.near_right v.near_right)
                    (IsNear-min (bottom b) (bottom s) w.near_bottom v.near_bottom),
                in_b,
                in_s,
              )
              (around d x y number_x number_y b s e))
      ]

  append_piece-contains :
      (r : RegionState) (b : Box) {grown : RegionState}
      → IsNearBox b
      → append_piece realloc r b ≡ some grown
      → contains d grown.boxes x y ≡ (contains d r.boxes x y || box_contains d b x y)
  unfolding append_piece contains
  append_piece-contains r b {grown} v e =
      elim (Option-cases (reserve_boxes realloc r (length r.boxes + 1))) [
        | inl nothing ↦ ground (arith, dropped d x y number_x number_y b v)
        | inr (g, got) ↦ ground (
          arith,
          dropped d x y number_x number_y b v,
          reserve_boxes-same realloc r (length r.boxes + 1) {grown = g},
          contains-append d x y number_x number_y r.boxes (b ∷ []),
        )
      ]

  append_pieces-contains :
      (r : RegionState) (bs : List Box) {grown : RegionState}
      → All IsNearBox bs
      → append_pieces realloc r bs ≡ some grown
      → contains d grown.boxes x y ≡ (contains d r.boxes x y || contains d bs x y)
  unfolding append_pieces contains
  append_pieces-contains r [] {grown} v e =
      let same : r ≡ grown = cc e in
      subst (λ g. contains d g.boxes x y ≡ (contains d r.boxes x y || false)) same (ground arith)
  append_pieces-contains r (b ∷ bs) {grown} (v, vs) e =
      elim (Option-cases (append_piece realloc r b)) [
        | inl nothing ↦ cc (nothing, e)
        | inr (g, got) ↦ ground (
          arith,
          append_pieces-contains g bs {grown = grown} vs (cc (got, e)),
          append_piece-contains r b {grown = g} v got,
        )
      ]

  subtract_loop-contains :
      (r : RegionState) (s : Box) (bs : List Box) {result : RegionState}
      → IsNearBox s
      → All IsInside bs
      → subtract_loop realloc r s bs ≡ some result
      → contains d result.boxes x y
        ≡ (contains d r.boxes x y || (contains d bs x y && not (box_contains d s x y)))
  unfolding subtract_loop contains
  subtract_loop-contains r s [] {result} v ok e =
      let same : r ≡ result = cc e in
      subst (λ g. contains d g.boxes x y ≡ (contains d r.boxes x y || false)) same (ground arith)
  subtract_loop-contains r s (b ∷ bs) {result} v (ok, oks) e =
      let w = inside-IsNearBox b ok in
      elim (Option-cases (append_pieces realloc r (pieces s b))) [
        | inl nothing ↦ cc (nothing, e)
        | inr (g, got) ↦ ground (
          arith,
          subtract_loop-contains g s bs {result = result} v oks (cc (got, e)),
          append_pieces-contains r (pieces s b) {grown = g} (pieces-IsNearBox s b v w) got,
          pieces-contains s b v w,
        )
      ]

  added-contains :
      (r : RegionState) (b : Box)
      → IsRequest b
      → (region_add realloc r b).1 ≡ false
      → contains d (region_add realloc r b).0.boxes x y
        ≡ (contains d r.boxes x y || (valid_box b.width b.height && box_contains d b x y))
  unfolding region_add
  added-contains r b q e = elim (Bool-cases (valid_box b.width b.height)) [
    | inr empty ↦ rw empty (sym (or_false (contains d r.boxes x y)))
    | inl full ↦ elim (Option-cases (append_piece realloc r b)) [
      | inl nothing ↦ ground arith
      | inr (g, got) ↦
          cc (full, got, append_piece-contains r b {grown = g} (request-IsNearBox b q full) got)
    ]
  ]

  cut-contains :
      (r : RegionState) (b : Box)
      → IsRequest b
      → IsValid r
      → (region_subtract realloc r b).1 ≡ false
      → contains d (region_subtract realloc r b).0.boxes x y
        ≡ (contains d r.boxes x y && not (valid_box b.width b.height && box_contains d b x y))
  unfolding region_subtract region_move contains
  cut-contains r b q v e = elim (Bool-cases (valid_box b.width b.height)) [
    | inr empty ↦ rw empty (sym (and_true (contains d r.boxes x y)))
    | inl full ↦ elim (Option-cases (subtract_loop realloc empty_region b r.boxes)) [
      | inl nothing ↦ ground arith
      | inr (g, got) ↦
          let exact =
            subtract_loop-contains empty_region b r.boxes {result = g} (request-IsNearBox b q full)
              v.inside got in
          rw (full, got) exact
    ]
  ]

  -- A successful wl_region.add or wl_region.subtract of a request on a valid region changes its points as
  -- the request says: a point is in the region after an add if and only if it was before or lies in the
  -- rectangle, and after a subtract if and only if it was before and does not lie in it. A rectangle
  -- without area changes nothing, and neither does a request for which there is no memory.
  pub region-Exact :
      (r : RegionState) (b : Box)
      → IsRequest b
      → IsValid r
      → let added = region_add realloc r b in
        let cut = region_subtract realloc r b in
        let inside = λ (s : RegionState). contains d s.boxes x y in
        let given = valid_box b.width b.height && box_contains d b x y in
        (added.1 ≡ false → inside added.0 ≡ (inside r || given))
        × (cut.1 ≡ false → inside cut.0 ≡ (inside r && not given))
        × (added.1 ≡ true → added.0 ≡ r)
        × (cut.1 ≡ true → cut.0 ≡ r)
  unfolding region_add region_subtract
  region-Exact r b q v =
      (added-contains r b q, cut-contains r b q v, (λ e. ground arith), (λ e. ground arith))
