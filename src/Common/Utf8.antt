-- ===== src/Common/Utf8.antt =====
-- The standard library's UTF-8: `String::from_utf8` and `String::from_utf8_lossy`.
use Prim.Native.Nat.{ℕ, zero, suc, ◌-◌}
use mathlib.Core.Path.{◌≡◌, refl, ap}
use mathlib.Core.Logic.{◌⊎◌, inl, inr}
use mathlib.Core.Bool.{Bool, true, false, ◌&&◌}
use mathlib.Core.Option.{Option, none, some}
use mathlib.Core.List.{List, [], ◌∷◌, ◌++◌}
use mii_sound.Common.Tests.{ltb, leb, ◌==◌, if◌then◌else◌, Bool-cases}
use mii_sound.Common.Lists.{drop}

abbrev within : ℕ → ℕ → ℕ → Bool
within lo hi b = leb lo b && leb b hi

-- Past the end the standard library reads a zero byte.
abbrev head_or_zero : List ℕ → ℕ
head_or_zero [] = 0
head_or_zero (b ∷ s) = b

-- The second bytes that may follow a first byte of three or of four.
second_of_3 : ℕ → ℕ → Bool
second_of_3 a b =
    if a == 0xe0
    then within 0xa0 0xbf b
    else if a == 0xed
    then within 0x80 0x9f b
    else within 0xe1 0xef a && within 0x80 0xbf b

second_of_4 : ℕ → ℕ → Bool
second_of_4 a b =
    if a == 0xf0
    then within 0x90 0xbf b
    else if a == 0xf4
    then within 0x80 0x8f b
    else within 0xf1 0xf3 a && within 0x80 0xbf b

-- What stands at the front of a text: a character of `valid n` bytes, or `broken n` bytes that a
-- lossy reading replaces.
pub data Scan : Type 0 where
  valid broken : ℕ → Scan

-- The tests after the first byte `a`, on the bytes `s` behind it.
scan : ℕ → List ℕ → Scan
unfolding second_of_3 second_of_4
scan a s =
    let b = head_or_zero s in
    let c = head_or_zero (drop 1 s) in
    let d = head_or_zero (drop 2 s) in
    if ltb a 0x80
    then valid 1
    else if within 0xc2 0xdf a
    then (if within 0x80 0xbf b then valid 2 else broken 1)
    else if second_of_3 a b
    then (if within 0x80 0xbf c then valid 3 else broken 2)
    else if second_of_4 a b
    then (if within 0x80 0xbf c
        then (if within 0x80 0xbf d then valid 4 else broken 3)
        else broken 2)
    else broken 1

-- U+FFFD.
replacement : List ℕ
replacement = 0xef ∷ 0xbf ∷ 0xbd ∷ []

-- `skip` counts the bytes of the character at hand that are still to be passed over.
check : ℕ → List ℕ → Bool
check skip [] = true
check (suc skip) (a ∷ s) = check skip s
check zero (a ∷ s) = elim (scan a s) [ valid n ↦ check (n - 1) s | broken n ↦ false ]

unfoldable pub from_utf8 : List ℕ → Option (List ℕ)
unfolding check scan
from_utf8 s = if check 0 s then some s else none

-- With `keep` the bytes passed over are copied, without they are dropped.
lossy : Bool → ℕ → List ℕ → List ℕ
unfolding replacement
lossy keep skip [] = []
lossy true (suc skip) (a ∷ s) = a ∷ lossy true skip s
lossy false (suc skip) (a ∷ s) = lossy false skip s
lossy keep zero (a ∷ s) = elim (scan a s) [
  | valid n ↦ a ∷ lossy true (n - 1) s
  | broken n ↦ replacement ++ lossy false (n - 1) s
]

unfoldable pub from_utf8_lossy : List ℕ → List ℕ
unfolding lossy scan
from_utf8_lossy s = lossy true 0 s

Scan-cases : (r : Scan) → ((n : ℕ) × (r ≡ valid n)) ⊎ ((n : ℕ) × (r ≡ broken n))
Scan-cases (valid n) = inl (n, refl)
Scan-cases (broken n) = inr (n, refl)

lossy-check : (skip : ℕ) (s : List ℕ) → check skip s ≡ true → lossy true skip s ≡ s
unfolding check lossy
lossy-check zero [] h = refl
lossy-check (suc skip) [] h = refl
lossy-check (suc skip) (a ∷ s) h = ap (◌∷◌ a) (lossy-check skip s h)
lossy-check zero (a ∷ s) h = elim (Scan-cases (scan a s)) [
  | inl (n, e) ↦ rw (e, lossy) (ap (◌∷◌ a) (lossy-check (n - 1) s (rw (e, check) at h)))
  | inr (n, e) ↦ absurd (cc (rw (e, check) at h))
]

-- A valid text is read as it stands.
pub from_utf8_lossy-from_utf8 :
    (s t : List ℕ) → from_utf8 s ≡ some t → (t ≡ s) × (from_utf8_lossy s ≡ s)
unfolding from_utf8 from_utf8_lossy
from_utf8_lossy-from_utf8 s t h = elim (Bool-cases (check 0 s)) [
  | inl good ↦ (cc (rw good at h), lossy-check 0 s good)
  | inr bad ↦ absurd (cc (rw bad at h))
]
