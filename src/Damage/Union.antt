-- ===== src/Damage/Union.antt =====
-- The union is the least box around both.
use native_pipe.Base.{◌≡◌, ◌^◌, ◌≤◌, ◌<◌}
use native_pipe.Base.Int.{ℤ, pos_part, neg_part, ◌+ℤ◌, ◌-ℤ◌, ◌≤ℤ◌, ◌<ℤ◌}
use native_pipe.Damage.{Box, lower, higher}

-- The box has the point.
pub record Has (b : Box) (p q : ℤ) : Type 0 where
  pub left : b.x ≤ℤ p
  pub right : p <ℤ (b.x +ℤ b.width)
  pub top : b.y ≤ℤ q
  pub bottom : q <ℤ (b.y +ℤ b.height)

-- No size is negative.
abbrev pub IsBox : Box → Type 0
IsBox b = (neg_part b.width ≡ 0) × (neg_part b.height ≡ 0)

abbrev pub given : ℤ → ℤ → ℤ → ℤ → Box
given x y width height = record { x = x; y = y; width = width; height = height }

-- The first box lies in the second.
pub record Within (b c : Box) : Type 0 where
  pub left : c.x ≤ℤ b.x
  pub right : (b.x +ℤ b.width) ≤ℤ (c.x +ℤ c.width)
  pub top : c.y ≤ℤ b.y
  pub bottom : (b.y +ℤ b.height) ≤ℤ (c.y +ℤ c.height)

-- A value of an int64_t, and a line that is less than 2 ^ 62 from zero.
abbrev pub IsI64 : ℤ → Type 0
IsI64 a = (pos_part a < 2 ^ 63) × (neg_part a ≤ 2 ^ 63)

abbrev pub IsNear : ℤ → Type 0
IsNear a = (pos_part a < 2 ^ 62) × (neg_part a < 2 ^ 62)

-- The four lines around the box.
abbrev pub InRange : Box → Type 0
InRange b = IsNear b.x × IsNear (b.x +ℤ b.width) × IsNear b.y × IsNear (b.y +ℤ b.height)

-- No sum that np_box_union computes for two rectangles overflows.
pub record SumsFit (b g : Box) : Type 0 where
  pub right : IsI64 (b.x +ℤ b.width)
  pub given_right : IsI64 (g.x +ℤ g.width)
  pub bottom : IsI64 (b.y +ℤ b.height)
  pub given_bottom : IsI64 (g.y +ℤ g.height)
  pub width : IsI64 (higher (b.x +ℤ b.width) (g.x +ℤ g.width) -ℤ lower b.x g.x)
  pub height : IsI64 (higher (b.y +ℤ b.height) (g.y +ℤ g.height) -ℤ lower b.y g.y)

-- The box between the outer lines of two.
module _ (b g : Box) where
  abbrev joined : Box
  joined =
      let left = lower b.x g.x in
      let top = lower b.y g.y in
      record {
        x = left;
        y = top;
        width = higher (b.x +ℤ b.width) (g.x +ℤ g.width) -ℤ left;
        height = higher (b.y +ℤ b.height) (g.y +ℤ g.height) -ℤ top;
      }
