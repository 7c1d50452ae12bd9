-- ===== src/Damage.antt =====
-- guest/compositor/damage.h: the box around the damage of a surface. `int64_t` values are integers; their
-- range is a hypothesis of Damage.Union.
pub mod Union
mod Tests
use native_pipe.Base.{Bool, ◌&&◌, ◌||◌, if◌then◌else◌}
use native_pipe.Base.Int.{ℤ, pos, negsuc, pos_part, neg_part, ◌+ℤ◌, ◌-ℤ◌, ltb_ℤ, leb_ℤ}

-- `struct np_box`
pub record Box : Type 0 where
  pub x : ℤ
  pub y : ℤ
  pub width : ℤ
  pub height : ℤ

-- np_box_clear
abbrev pub box_clear : Box
box_clear = record { x = pos 0; y = pos 0; width = pos 0; height = pos 0 }

-- `a == 0` on an integer.
abbrev pub is_zero : ℤ → Bool
is_zero a = leb_ℤ a (pos 0) && leb_ℤ (pos 0) a

abbrev pub lower : ℤ → ℤ → ℤ
lower a b = if ltb_ℤ a b then a else b

abbrev pub higher : ℤ → ℤ → ℤ
higher a b = if ltb_ℤ b a then a else b

-- np_box_union
unfoldable pub box_union : Box → ℤ → ℤ → ℤ → ℤ → Box
box_union box x y width height =
    let left = lower box.x x in
    let top = lower box.y y in
    let right = higher (box.x +ℤ box.width) (x +ℤ width) in
    let bottom = higher (box.y +ℤ box.height) (y +ℤ height) in
    if leb_ℤ width (pos 0) || leb_ℤ height (pos 0)
    then box
    else if is_zero box.width || is_zero box.height
    then record { x = x; y = y; width = width; height = height }
    else record { x = left; y = top; width = right -ℤ left; height = bottom -ℤ top }
