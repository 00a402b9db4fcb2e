-- ===== src/Server/Relay/Cfg.antt =====
-- `format_cfg` of src/server/relay.rs: the text of a number, as the endpoints of mii-sound.http
-- expect it.
use mii_sound.Common.{
  ℕ, ◌≤◌, ◌≡◌, Text, false, ◌∷◌, ◌++◌, All, is_empty, trim_end_matches, if◌then◌else◌,
}

-- The characters `0` and `.`.
abbrev pub digit_zero : ℕ
digit_zero = 0x30

abbrev pub point : ℕ
point = 0x2e

abbrev pub AreDigits : Text → Type 0
AreDigits = All (λ b. (0x30 ≤ b) × (b ≤ 0x39))

-- `[0-9]+(\.[0-9]+)?`
pub record IsNumber (s : Text) : Type 0 where
  pub int : Text
  pub frac : Text
  pub int_digits : AreDigits int
  pub frac_digits : AreDigits frac
  pub some_int : is_empty int ≡ false
  pub parts : s ≡ (if is_empty frac then int else int ++ point ∷ frac)

-- The text without the zeros at the end.
kept : Text → Text
kept frac = trim_end_matches digit_zero frac
