-- ===== src/Common/Strings.antt =====
-- Texts are their UTF-8 bytes.
use Prim.Native.Nat.{ℕ, zero, suc, ◌+◌, ◌/◌, ◌%◌}
use Prim.Native.Char.{code}
use Prim.Native.String.{String}
use mathlib.Core.List.{List, [], ◌∷◌}
use mathlib.Core.Path.{◌≡◌, refl}
use mathlib.Core.Logic.{◌↔◌}
use mathlib.Core.Bool.{Bool, true, false, ◌&&◌, ◌||◌}
use native.Mathlib.Omega.{arith}
use mii_sound.Common.Tests.{ltb, leb, ◌==◌, if◌then◌else◌}

abbrev pub Text : Type 0
Text = List ℕ

-- The bytes of an ASCII literal.
unfoldable pub text : String → Text
text String.[] = []
text (String.◌∷◌ c s) = code c ∷ text s

-- `{n}` in a format string. A u32 has at most ten digits; the fuel is for any number below 10 ^ 20.
digits_loop : ℕ → ℕ → Text → Text
digits_loop zero n acc = acc
digits_loop (suc fuel) n acc =
    let more = digits_loop fuel (n / 10) ((n % 10 + b'0') ∷ acc) in
    if ltb n 10 then (n + b'0') ∷ acc else more

unfoldable pub decimal : ℕ → Text
unfolding digits_loop
decimal n = digits_loop 20 n []

-- `a == b` on bytes.
unfoldable pub bytes_eq : List ℕ → List ℕ → Bool
bytes_eq [] [] = true
bytes_eq [] (y ∷ ys) = false
bytes_eq (x ∷ xs) [] = false
bytes_eq (x ∷ xs) (y ∷ ys) = x == y && bytes_eq xs ys

pub bytes_eq_iff : (xs ys : List ℕ) → (bytes_eq xs ys ≡ true) ↔ (xs ≡ ys)
unfolding bytes_eq
bytes_eq_iff [] [] = (λ h. refl, λ h. refl)
bytes_eq_iff [] (y ∷ ys) = (λ h. cc h, λ h. cc h)
bytes_eq_iff (x ∷ xs) [] = (λ h. cc h, λ h. cc h)
bytes_eq_iff (x ∷ xs) (y ∷ ys) = ground (arith, bytes_eq_iff xs ys)

-- `xs.is_empty()`
abbrev pub is_empty : List ℕ → Bool
is_empty [] = true
is_empty (x ∷ xs) = false

-- `u8::is_ascii_whitespace`: space, tab, line feed, form feed and carriage return.
abbrev pub is_ascii_whitespace : ℕ → Bool
is_ascii_whitespace b = b == 0x20 || (b == 0x09 || (b == 0x0a || (b == 0x0c || b == 0x0d)))

head_or_zero : List ℕ → ℕ
head_or_zero [] = 0
head_or_zero (b ∷ s) = b

second_or_zero : List ℕ → ℕ
second_or_zero [] = 0
second_or_zero (a ∷ []) = 0
second_or_zero (a ∷ b ∷ s) = b

-- The number of bytes of the white space character at the front, `a` and what is behind it; 0 if
-- there is none. These are the characters with the Unicode property White_Space.
space_len : ℕ → List ℕ → ℕ
unfolding head_or_zero second_or_zero
space_len a s =
    let b = head_or_zero s in
    let c = second_or_zero s in
    if a == 0x20 || (leb 0x09 a && leb a 0x0d)
    then 1
    else if a == 0xc2 && (b == 0x85 || b == 0xa0)
    then 2
    else if a == 0xe1 && (b == 0x9a && c == 0x80)
    then 3
    else if a == 0xe2
        && (b == 0x80 && ((leb 0x80 c && leb c 0x8a) || (c == 0xa8 || (c == 0xa9 || c == 0xaf))))
    then 3
    else if a == 0xe2 && (b == 0x81 && c == 0x9f)
    then 3
    else if a == 0xe3 && (b == 0x80 && c == 0x80)
    then 3
    else 0

blank_from : ℕ → Text → Bool
unfolding space_len
blank_from skip [] = true
blank_from (suc skip) (a ∷ s) = blank_from skip s
blank_from zero (a ∷ s) = elim (space_len a s) [ zero ↦ false | suc n ↦ blank_from n s ]

-- `text.trim().is_empty()`
unfoldable pub is_blank : Text → Bool
unfolding blank_from
is_blank = blank_from 0

trim_start_from : ℕ → Text → Text
unfolding space_len
trim_start_from skip [] = []
trim_start_from (suc skip) (a ∷ s) = trim_start_from skip s
trim_start_from zero (a ∷ s) = elim (space_len a s) [ zero ↦ a ∷ s | suc n ↦ trim_start_from n s ]

-- A suffix of white space begins at a character, since no later byte of one begins another.
trim_blank_end : Text → Text
unfolding blank_from
trim_blank_end [] = []
trim_blank_end (a ∷ s) =
    let rest = trim_blank_end s in if blank_from 0 (a ∷ s) then [] else a ∷ rest

-- `text.trim()`
unfoldable pub trim : Text → Text
unfolding trim_start_from trim_blank_end
trim s = trim_blank_end (trim_start_from 0 s)

-- `text.trim_end_matches(c)`, for an ASCII character.
unfoldable pub trim_end_matches : ℕ → Text → Text
trim_end_matches c [] = []
trim_end_matches c (a ∷ s) =
    let rest = trim_end_matches c s in if is_empty rest && a == c then [] else a ∷ rest

-- `text.starts_with(prefix)`
unfoldable pub starts_with : Text → Text → Bool
starts_with [] s = true
starts_with (p ∷ prefix) [] = false
starts_with (p ∷ prefix) (a ∷ s) = p == a && starts_with prefix s
