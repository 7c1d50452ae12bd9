-- ===== src/Region/Cover.antt =====
-- Points and boxes: which lines a point passes, and which of the pieces of a cut it lies in.
use mathlib.Core.Path.{subst}
use native_pipe.Base.{
  ◌^◌, ◌≤◌, ◌<◌, ◌≡◌, refl, sym, ◌∙◌, Bool, true, false, not, ◌&&◌, ◌||◌, List, [], ◌∷◌, ◌++◌,
  arith, Bool-cases, inl, inr, ◌⊎◌,
}
use native_pipe.Base.Int.{
  ℤ, pos, pos_part, neg_part, ◌+ℤ◌, ◌-ℤ◌, +ℤ_parts, leb_ℤ, int_laws, parts_split,
}
use native_pipe.Region.{
  Box, Doubles, IsSmall, box_contains, contains, right, bottom, valid_box, span, is_apart, max_ℤ,
  min_ℤ,
}
use native_pipe.Region.Bounds.{IsInside, IsRequest}

-- A line that a sum of two fits in a double with.
abbrev pub IsNear : ℤ → Type 0
IsNear a = (pos_part a ≤ 2 ^ 32) × (neg_part a ≤ 2 ^ 32)

-- A box between such lines; it may be empty.
pub record IsNearBox (b : Box) : Type 0 where
  pub near_x : IsNear b.x
  pub near_y : IsNear b.y
  pub near_right : IsNear (right b)
  pub near_bottom : IsNear (bottom b)

pub inside-IsNearBox : (b : Box) → IsInside b → IsNearBox b
inside-IsNearBox b v = omega (
  int_laws,
  parts_split b.x,
  parts_split b.y,
  parts_split b.width,
  parts_split b.height,
  parts_split (right b),
  parts_split (bottom b),
)

pub request-IsNearBox : (b : Box) → IsRequest b → valid_box b.width b.height ≡ true → IsNearBox b
unfolding valid_box
request-IsNearBox b q v =
    let wide : 0 < pos_part b.width = ground arith in
    let tall : 0 < pos_part b.height = ground arith in
    omega (
      int_laws,
      parts_split b.width,
      parts_split b.height,
      parts_split (right b),
      parts_split (bottom b),
    )

pub span-right : (a b : ℤ) → a +ℤ (b -ℤ a) ≡ b
span-right a b = omega (int_laws)

pub span-IsNearBox :
    (x0 y0 x1 y1 : ℤ) → IsNear x0 → IsNear y0 → IsNear x1 → IsNear y1 → IsNearBox (span x0 y0 x1 y1)
span-IsNearBox x0 y0 x1 y1 hx hy kx ky = record {
  near_x = hx;
  near_y = hy;
  near_right = subst IsNear (sym (span-right x0 x1)) kx;
  near_bottom = subst IsNear (sym (span-right y0 y1)) ky;
}

-- Four parts around the common part, by the tests of a point against the eight lines.
parts_bool :
    (ax ay bx by cx cy dx dy : Bool)
    → (bx ≡ true → cx ≡ true)
    → (dx ≡ true → ax ≡ true)
    → (by ≡ true → cy ≡ true)
    → (dy ≡ true → ay ≡ true)
    → ((ax && (ay && (not bx && not (ay && cy))))
        || ((ax && ((by || dy) && (not bx && not by)))
            || ((ax && ((ay && cy) && (not (ax && cx) && not (by || dy))))
                || ((bx || dx) && ((ay && cy) && (not bx && not (by || dy)))))))
      ≡ ((ax && (ay && (not bx && not by))) && not (cx && (cy && (not dx && not dy))))
parts_bool ax ay bx by cx cy dx dy h1 h2 h3 h4 = ground arith

-- Where there is no common part, no point lies in both.
apart_bool :
    (ax ay bx by cx cy dx dy : Bool)
    → (ax && cx ≡ true → bx || dx ≡ true) ⊎ (ay && cy ≡ true → by || dy ≡ true)
    → (ax && (ay && (not bx && not by)))
      ≡ ((ax && (ay && (not bx && not by))) && not (cx && (cy && (not dx && not dy))))
apart_bool ax ay bx by cx cy dx dy (inl h) = ground arith
apart_bool ax ay bx by cx cy dx dy (inr h) = ground arith

-- A point whose coordinates are numbers.
module _ (d : Doubles) (x y : d.Double) (number_x : d.IsNumber x) (number_y : d.IsNumber y) where
  open d use {Double, of_int, le, lt, plus, le_mono, lt_not_le, plus_exact}

  -- The point lies on or behind the line at `a`, on each axis.
  abbrev pub px : ℤ → Bool
  px a = le (of_int a) x

  abbrev pub py : ℤ → Bool
  py a = le (of_int a) y

  -- The point lies between four lines.
  abbrev pub between : ℤ → ℤ → ℤ → ℤ → Bool
  between x0 y0 x1 y1 = px x0 && (py y0 && (not (px x1) && not (py y1)))

  px-max : (a b : ℤ) → px (max_ℤ a b) ≡ (px a && px b)
  px-max a b = ground (arith, le_mono a b x, le_mono b a x)

  px-min : (a b : ℤ) → px (min_ℤ a b) ≡ (px a || px b)
  px-min a b = ground (arith, le_mono a b x, le_mono b a x)

  py-max : (a b : ℤ) → py (max_ℤ a b) ≡ (py a && py b)
  py-max a b = ground (arith, le_mono a b y, le_mono b a y)

  py-min : (a b : ℤ) → py (min_ℤ a b) ≡ (py a || py b)
  py-min a b = ground (arith, le_mono a b y, le_mono b a y)

  -- On a box between near lines the test of np_region_contains is the one by lines.
  pub box_contains-between :
      (b : Box) → IsNearBox b → box_contains d b x y ≡ between b.x b.y (right b) (bottom b)
  unfolding box_contains
  box_contains-between b v =
      let small_x : IsSmall b.x = omega arith in
      let small_y : IsSmall b.y = omega arith in
      let small_r : IsSmall (right b) = omega arith in
      let small_b : IsSmall (bottom b) = omega arith in
      let small_w : IsSmall b.width = omega (int_laws, parts_split b.width) in
      let small_h : IsSmall b.height = omega (int_laws, parts_split b.height) in
      let sum_x = plus_exact b.x b.width small_x small_w small_r in
      let sum_y = plus_exact b.y b.height small_y small_h small_b in
      rw (sum_x, sum_y, lt_not_le (right b) x number_x, lt_not_le (bottom b) y number_y)

  -- The parts around the common part are what is left of the box.
  pub around :
      (b s : Box)
      → let x0 = max_ℤ b.x s.x in
        let y0 = max_ℤ b.y s.y in
        let x1 = min_ℤ (right b) (right s) in
        let y1 = min_ℤ (bottom b) (bottom s) in
        is_apart x0 y0 x1 y1 ≡ false
        → (between b.x b.y (right b) y0
            || (between b.x y1 (right b) (bottom b)
                || (between b.x y0 x0 y1 || between x1 y0 (right b) y1)))
          ≡ (between b.x b.y (right b) (bottom b) && not (between s.x s.y (right s) (bottom s)))
  around b s meets =
      let r = right b in
      let q = right s in
      let m = bottom b in
      let n = bottom s in
      let h1 : px r ≡ true → px s.x ≡ true = λ e. le_mono s.x r x (ground arith) e in
      let h2 : px q ≡ true → px b.x ≡ true = λ e. le_mono b.x q x (ground arith) e in
      let h3 : py m ≡ true → py s.y ≡ true = λ e. le_mono s.y m y (ground arith) e in
      let h4 : py n ≡ true → py b.y ≡ true = λ e. le_mono b.y n y (ground arith) e in
      rw (px-max b.x s.x, py-max b.y s.y, px-min r q, py-min m n)
        (parts_bool (px b.x) (py b.y) (px r) (py m) (px s.x) (py s.y) (px q) (py n) h1 h2 h3 h4)

  -- Boxes that do not meet share no point.
  pub apart :
      (b s : Box)
      → is_apart
          (max_ℤ b.x s.x)
          (max_ℤ b.y s.y)
          (min_ℤ (right b) (right s))
          (min_ℤ (bottom b) (bottom s))
        ≡ true
      → between b.x b.y (right b) (bottom b)
        ≡ (between b.x b.y (right b) (bottom b) && not (between s.x s.y (right s) (bottom s)))
  apart b s e =
      let x0 = max_ℤ b.x s.x in
      let y0 = max_ℤ b.y s.y in
      let x1 = min_ℤ (right b) (right s) in
      let y1 = min_ℤ (bottom b) (bottom s) in
      let bools =
        apart_bool (px b.x) (py b.y) (px (right b)) (py (bottom b)) (px s.x) (py s.y) (px (right s))
          (py (bottom s)) in
      elim (Bool-cases (leb_ℤ x1 x0)) [
        | inl none_x ↦ bools (
            inl
              (λ k. sym (px-min (right b) (right s)) ∙ le_mono x1 x0 x none_x (px-max b.x s.x ∙ k)))
        | inr some_x ↦
            let none_y : leb_ℤ y1 y0 ≡ true = cc (some_x, e) in
            bools (
              inr (λ k.
                sym (py-min (bottom b) (bottom s)) ∙ le_mono y1 y0 y none_y (py-max b.y s.y ∙ k)))
      ]

  -- A box of near lines that append_piece drops contains no point.
  pub dropped :
      (b : Box)
      → IsNearBox b
      → (leb_ℤ b.width (pos 0) || leb_ℤ b.height (pos 0)) ≡ true
      → box_contains d b x y ≡ false
  dropped b v e =
      let by_x : leb_ℤ b.width (pos 0) ≡ true → px b.x ≡ true → px (right b) ≡ true =
        λ k. le_mono (right b) b.x x (ground (arith, +ℤ_parts b.x b.width)) in
      let by_y : leb_ℤ b.height (pos 0) ≡ true → py b.y ≡ true → py (bottom b) ≡ true =
        λ k. le_mono (bottom b) b.y y (ground (arith, +ℤ_parts b.y b.height)) in
      rw (box_contains-between b v) (elim (Bool-cases (leb_ℤ b.width (pos 0))) [
        | inl k ↦ ground (arith, by_x k)
        | inr k ↦ ground (arith, by_y (cc (k, e)))
      ])

  pub contains-append :
      (bs cs : List Box) → contains d (bs ++ cs) x y ≡ (contains d bs x y || contains d cs x y)
  unfolding contains
  contains-append [] cs = refl
  contains-append (b ∷ bs) cs = ground (arith, contains-append bs cs)
