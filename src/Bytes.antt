-- ===== src/Bytes.antt =====
-- Bytes, and the little-endian form of `u32` (`u32::to_le_bytes`, `u32::from_le_bytes`).
use clf.Prelude.{ℕ, ◌+◌, ◌*◌, ◌/◌, ◌%◌, ◌^◌, ◌≤◌, ◌<◌, ◌≡◌, List, [], ◌∷◌, arith}
use clf.Prelude.{length, All}

abbrev pub IsByte : ℕ → Type 0
IsByte b = b < 256

abbrev pub u32_mod : ℕ
u32_mod = 2 ^ 32

abbrev pub u64_mod : ℕ
u64_mod = 2 ^ 64

-- `x as u32`
abbrev pub as_u32 : ℕ → ℕ
as_u32 x = x % u32_mod

unfoldable pub to_le_bytes : ℕ → List ℕ
to_le_bytes x = (x % 256) ∷ (x / 256 % 256) ∷ (x / 65536 % 256) ∷ (x / 16777216 % 256) ∷ []

unfoldable pub from_le_bytes : List ℕ → ℕ
from_le_bytes [] = 0
from_le_bytes (b ∷ bs) = b + 256 * from_le_bytes bs

pub from_le_bytes-to_le_bytes : (x : ℕ) → x < u32_mod → from_le_bytes (to_le_bytes x) ≡ x
unfolding to_le_bytes from_le_bytes
from_le_bytes-to_le_bytes x h = omega arith

pub to_le_bytes-IsByte : (x : ℕ) → All IsByte (to_le_bytes x)
unfolding to_le_bytes
to_le_bytes-IsByte x = omega arith

pub length-to_le_bytes : (x : ℕ) → length (to_le_bytes x) ≡ 4
unfolding to_le_bytes
length-to_le_bytes x = omega arith

-- Four bytes make a `u32`.
pub from_le_bytes-lt_u32 :
    (bs : List ℕ) → length bs ≤ 4 → All IsByte bs → from_le_bytes bs < u32_mod
unfolding from_le_bytes
from_le_bytes-lt_u32 [] n h = omega arith
from_le_bytes-lt_u32 (a ∷ []) n h = omega arith
from_le_bytes-lt_u32 (a ∷ b ∷ []) n h = omega arith
from_le_bytes-lt_u32 (a ∷ b ∷ c ∷ []) n h = omega arith
from_le_bytes-lt_u32 (a ∷ b ∷ c ∷ d ∷ []) n h = omega arith
from_le_bytes-lt_u32 (a ∷ b ∷ c ∷ d ∷ e ∷ r) n h = absurd (omega arith)
