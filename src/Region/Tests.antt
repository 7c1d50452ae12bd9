-- ===== src/Region/Tests.antt =====
-- A region of one square from which another is cut, with the integers for the doubles.
use native_pipe.Base.{ℕ, ◌≡◌, refl, Bool, true, false, not, ◌&&◌, List, [], ◌∷◌, Option, arith}
use native_pipe.Base.Int.{ℤ, pos, negsuc, ◌+ℤ◌, ltb_ℤ, leb_ℤ, int_laws, parts_split}
use mathlib.Core.Option
use native_pipe.Region.{
  Box, RegionState, Doubles, contains, region_add, region_subtract, region_copy, box_contains,
}
use native_pipe.Region.Bounds.{IsInside, IsValid, IsRequest, region-IsValid}
use native_pipe.Region.Exact.{region-Exact}

leb_ℤ-mono : (a b p : ℤ) → leb_ℤ a b ≡ true → leb_ℤ b p ≡ true → leb_ℤ a p ≡ true
leb_ℤ-mono a b p h k = ground arith

ltb_ℤ-leb_ℤ : (a p : ℤ) → ltb_ℤ p a ≡ not (leb_ℤ a p)
ltb_ℤ-leb_ℤ a p = ground arith

abbrev whole : Doubles
whole = record {
  Double = ℤ;
  of_int = λ a. a;
  le = leb_ℤ;
  lt = ltb_ℤ;
  plus = ◌+ℤ◌;
  IsNumber = λ a. Unit {0};
  le_mono = leb_ℤ-mono;
  lt_not_le = λ a p n. ltb_ℤ-leb_ℤ a p;
  plus_exact = λ a b h k l. refl;
}

abbrev square : Box
square = record { x = pos 0; y = pos 0; width = pos 10; height = pos 10 }

abbrev hole : Box
hole = record { x = pos 4; y = negsuc 1; width = pos 4; height = pos 6 }

abbrev one_square : RegionState
one_square = record { capacity = 8; boxes = square ∷ [] }

square-IsInside : IsInside square
unfolding ◌+ℤ◌
square-IsInside = omega arith

one_square-IsValid : IsValid one_square
one_square-IsValid = record {
  inside = (square-IsInside, tt);
  fits = omega arith;
  counted = omega arith;
}

hole-IsRequest : IsRequest hole
hole-IsRequest = omega arith

abbrev gives : ℕ → Bool
gives n = true

region-IsValid_example :
    IsValid (region_add gives one_square hole).0
    × IsValid (region_subtract gives one_square hole).0
    × IsValid (Option.get_or (region_copy gives one_square one_square) one_square)
region-IsValid_example =
    region-IsValid gives one_square one_square hole hole-IsRequest one_square-IsValid
      one_square-IsValid

region-Exact_example :
    let inside = λ (s : RegionState). contains whole s.boxes (pos 5) (pos 5) in
    inside (region_subtract gives one_square hole).0
    ≡ (inside one_square && not (box_contains whole hole (pos 5) (pos 5)))
unfolding region_subtract ◌+ℤ◌ contains native_pipe.Region.subtract_loop
    native_pipe.Region.append_piece native_pipe.Base.Int.◌-ℤ◌ native_pipe.Region.reserve_boxes
region-Exact_example =
    (region-Exact whole (pos 5) (pos 5) tt tt gives one_square hole hole-IsRequest
        one_square-IsValid).1
      refl
