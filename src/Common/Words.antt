-- ===== src/Common/Words.antt =====
-- Machine words and their little-endian bytes (`to_le_bytes`, `from_le_bytes` of u16 and u32).
use Prim.Native.Nat.{ℕ, ◌+◌, ◌*◌, ◌/◌, ◌%◌, ◌^◌, ◌<◌}
use mathlib.Core.Path.{◌≡◌}
use mathlib.Core.List.{List, [], ◌∷◌}
use native.Mathlib.Omega.{arith}

abbrev pub IsByte : ℕ → Type 0
IsByte b = b < 256

abbrev pub IsU32 : ℕ → Type 0
IsU32 v = v < 2 ^ 32

abbrev pub u32_max : ℕ
u32_max = 0xffff_ffff

-- `n as u32`.
abbrev pub as_u32 : ℕ → ℕ
as_u32 n = n % 2 ^ 32

abbrev pub u16_le : ℕ → List ℕ
u16_le v = v % 256 ∷ v / 256 % 256 ∷ []

abbrev pub u32_le : ℕ → List ℕ
u32_le v = v % 256 ∷ v / 256 % 256 ∷ v / 65536 % 256 ∷ v / 16777216 % 256 ∷ []

abbrev pub of_le2 : ℕ → ℕ → ℕ
of_le2 a b = a + 256 * b

abbrev pub of_le4 : ℕ → ℕ → ℕ → ℕ → ℕ
of_le4 a b c d = a + 256 * b + 65536 * c + 16777216 * d

pub of_le4-u32_le :
    (v : ℕ) → of_le4 (v % 256) (v / 256 % 256) (v / 65536 % 256) (v / 16777216 % 256) ≡ v % 2 ^ 32
of_le4-u32_le v = omega arith

pub u32_le-of_le4 :
    (a b c d : ℕ)
    → IsByte a
    → IsByte b
    → IsByte c
    → IsByte d
    → u32_le (of_le4 a b c d) ≡ a ∷ b ∷ c ∷ d ∷ []
u32_le-of_le4 a b c d ha hb hc hd = ground arith

pub mod_u32 : (v : ℕ) → v < 2 ^ 32 → v % 2 ^ 32 ≡ v
mod_u32 v h = omega arith
