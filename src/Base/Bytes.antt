-- ===== src/Base/Bytes.antt =====
-- Little-endian words as byte lists. A byte is a number below 256.
use Prim.Native.Nat.{ℕ, ◌+◌, ◌-◌, ◌*◌, ◌/◌, ◌%◌, ◌^◌, ◌<◌}
use mathlib.Core.Path.{◌≡◌}
use mathlib.Core.List.{List, [], ◌∷◌}
use native.Mathlib.Omega.{arith}
use native_pipe.Base.Lists.{All, get_or}

abbrev pub IsByte : ℕ → Type 0
IsByte b = b < 256

abbrev pub IsU16 : ℕ → Type 0
IsU16 v = v < 2 ^ 16

abbrev pub IsU32 : ℕ → Type 0
IsU32 v = v < 2 ^ 32

abbrev pub IsU64 : ℕ → Type 0
IsU64 v = v < 2 ^ 64

-- `n + 1` and `n - 1` on a 32-bit word.
abbrev pub inc32 : ℕ → ℕ
inc32 n = (n + 1) % 2 ^ 32

abbrev pub dec32 : ℕ → ℕ
dec32 n = (n + (2 ^ 32 - 1)) % 2 ^ 32

-- `(unsigned char)(n >> 8 k)` for each k, lowest first.
abbrev pub le16 : ℕ → List ℕ
le16 n = n % 256 ∷ n / 256 % 256 ∷ []

abbrev pub le32 : ℕ → List ℕ
le32 n = n % 256 ∷ n / 256 % 256 ∷ n / 65536 % 256 ∷ n / 16777216 % 256 ∷ []

abbrev pub from_le16 : ℕ → ℕ → ℕ
from_le16 a b = a + b * 256

abbrev pub from_le32 : ℕ → ℕ → ℕ → ℕ → ℕ
from_le32 a b c d = a + b * 256 + c * 65536 + d * 16777216

-- The word at an offset of a buffer (C reads p[i] .. p[i + 3]).
abbrev pub u32_at : List ℕ → ℕ → ℕ
u32_at p i = from_le32 (get_or p i 0) (get_or p (i + 1) 0) (get_or p (i + 2) 0) (get_or p (i + 3) 0)

pub from_le32-le32 :
    (n : ℕ)
    → IsU32 n
    → from_le32 (n % 256) (n / 256 % 256) (n / 65536 % 256) (n / 16777216 % 256) ≡ n
from_le32-le32 n h = omega arith

pub le32-IsByte : (n : ℕ) → All IsByte (le32 n)
le32-IsByte n = omega arith
