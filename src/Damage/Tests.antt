-- ===== src/Damage/Tests.antt =====
-- Two small boxes and their union.
use native_pipe.Base.{◌≡◌, refl}
use native_pipe.Base.Int.{pos, negsuc, ◌+ℤ◌, ◌-ℤ◌}
use native_pipe.Damage.{Box, box_union}

abbrev first : Box
first = record { x = pos 0; y = pos 0; width = pos 4; height = pos 4 }

abbrev around : Box
around = record { x = negsuc 2; y = pos 0; width = pos 7; height = pos 6 }

unites : box_union first (negsuc 2) (pos 2) (pos 5) (pos 4) ≡ around
unfolding box_union ◌+ℤ◌ ◌-ℤ◌
unites = refl
