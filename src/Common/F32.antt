-- ===== src/Common/F32.antt =====
-- The f32 arithmetic that the program does on samples, on IEEE 754 bit patterns: `clamp`, a product
-- rounded to nearest even, `as i16`, and the exact quotient of an i16 by 32768. An i16 is its
-- two's complement pattern, a number below 2 ^ 16.
use Prim.Native.Nat.{ℕ, zero, suc, ◌+◌, ◌-◌, ◌*◌, ◌/◌, ◌%◌, ◌^◌}
use mathlib.Core.Path.{◌≡◌, refl}
use mii_sound.Common.Tests.{ltb, ◌==◌, if◌then◌else◌}

-- The parts of a pattern.
abbrev pub sign_of : ℕ → ℕ
sign_of x = x / 2 ^ 31

abbrev pub exponent_of : ℕ → ℕ
exponent_of x = x / 2 ^ 23 % 2 ^ 8

abbrev pub fraction_of : ℕ → ℕ
fraction_of x = x % 2 ^ 23

abbrev pub magnitude_of : ℕ → ℕ
magnitude_of x = x % 2 ^ 31

-- 1.0 and infinity, without their sign. Magnitudes are ordered like their patterns.
abbrev pub one_bits : ℕ
one_bits = 0x3f80_0000

abbrev pub infinity_bits : ℕ
infinity_bits = 0x7f80_0000

-- `x.clamp(-1.0, 1.0)`, which leaves a NaN alone.
unfoldable pub clamp_one : ℕ → ℕ
clamp_one x =
    if ltb infinity_bits (magnitude_of x)
    then x
    else if ltb one_bits (magnitude_of x)
    then sign_of x * 2 ^ 31 + one_bits
    else x

-- The number of binary digits of `n`, for `n` below 2 ^ fuel.
bit_length : ℕ → ℕ → ℕ
bit_length zero n = 0
bit_length (suc fuel) n = let rest = bit_length fuel (n / 2) in if n == 0 then 0 else suc rest

-- `n / 2 ^ k` rounded to the nearest, ties to even.
round_even : ℕ → ℕ → ℕ
round_even n k =
    let q = n / 2 ^ k in
    let twice = 2 * (n % 2 ^ k) in
    if ltb twice (2 ^ k)
    then q
    else if ltb (2 ^ k) twice
    then suc q
    else if q % 2 == 0
    then q
    else suc q

-- A positive integer cut to the 24 digits of a significand, with its value kept in place.
round_24 : ℕ → ℕ
unfolding bit_length round_even
round_24 n = let k = bit_length 64 n - 24 in round_even n k * 2 ^ k

-- The integer part of the f32 product of 32767 and a value of magnitude at most 1. Such a value is
-- `significand / 2 ^ (150 - exponent)`; a subnormal one has integer part 0.
scaled_magnitude : ℕ → ℕ
unfolding round_24
scaled_magnitude x =
    if exponent_of x == 0
    then 0
    else round_24 ((2 ^ 23 + fraction_of x) * 32767) / 2 ^ (150 - exponent_of x)

-- `(x.clamp(-1.0, 1.0) * i16::MAX as f32) as i16`: a NaN becomes 0.
unfoldable pub f32_to_i16 : ℕ → ℕ
unfolding clamp_one scaled_magnitude
f32_to_i16 x =
    if ltb infinity_bits (magnitude_of x)
    then 0
    else let m = scaled_magnitude (clamp_one x) in
      if sign_of x == 0 then m else (2 ^ 16 - m) % 2 ^ 16

-- `m / 32768` for an integer `m` of at most 16 digits: exact, with `b` digits the exponent is
-- `b - 16`.
unit_bits : ℕ → ℕ
unfolding bit_length
unit_bits m =
    if m == 0
    then 0
    else let b = bit_length 17 m in (111 + b) * 2 ^ 23 + (m * 2 ^ (24 - b) - 2 ^ 23)

-- `s as f32 / 32768.0`
unfoldable pub i16_to_f32 : ℕ → ℕ
unfolding unit_bits
i16_to_f32 s = if ltb s (2 ^ 15) then unit_bits s else 2 ^ 31 + unit_bits (2 ^ 16 - s)

-- 1.0, -1.0, 0.5, a NaN, -2.0 and the smallest positive number.
quantised : f32_to_i16 0x3f80_0000 ≡ 32767
unfolding f32_to_i16
quantised = refl

quantised_low : f32_to_i16 0xbf80_0000 ≡ 0x8001
unfolding f32_to_i16
quantised_low = refl

quantised_half : f32_to_i16 0x3f00_0000 ≡ 16383
unfolding f32_to_i16
quantised_half = refl

quantised_nan : f32_to_i16 0x7fc0_0000 ≡ 0
unfolding f32_to_i16
quantised_nan = refl

quantised_loud : f32_to_i16 0xc000_0000 ≡ 0x8001
unfolding f32_to_i16
quantised_loud = refl

quantised_tiny : f32_to_i16 1 ≡ 0
unfolding f32_to_i16
quantised_tiny = refl

-- 16384 / 32768 = 0.5, and -32768 / 32768 = -1.0.
unit_half : i16_to_f32 16384 ≡ 0x3f00_0000
unfolding i16_to_f32
unit_half = refl

unit_low : i16_to_f32 0x8000 ≡ 0xbf80_0000
unfolding i16_to_f32
unit_low = refl

unit_one : i16_to_f32 1 ≡ 0x3800_0000
unfolding i16_to_f32
unit_one = refl
