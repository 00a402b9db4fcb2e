-- ===== src/Io.antt =====
-- Byte streams under the wire protocol, and the errors of the functions that use them.
-- A reader is the bytes that the peer still sends before it closes its side; a writer keeps what
-- was sent and how many more bytes the peer takes before it hangs up. Buffering and waiting have
-- no state here: `flush` sends nothing of its own.
pub mod Read
pub mod Write
use mii_sound.Common.{Text, List, ◌++◌, ◌≡◌, refl, ◌⊎◌, inl, inr}

-- What tokio's `read_exact` and `write_all` and the library's `String::from_utf8` fail with.
pub data Fault : Type 0 where
  unexpected_eof broken_pipe invalid_utf8 : Fault

-- An `anyhow::Error`: one that `?` passed on, the text of a `bail!` or `anyhow!`, or a text that
-- ends in another error's (`anyhow!("…: {e}")`).
pub data Error : Type 0 where
  fault : Fault → Error
  msg : Text → Error
  msg_of : Text → Error → Error

pub data Result {ℓ} (A : Type ℓ) : Type ℓ where
  ok : A → Result A
  err : Error → Result A

-- `{e}`: the text of an error. How a library's fault reads is not in the program.
abbrev pub display : (Fault → Text) → Error → Text
display fault_text (fault f) = fault_text f
display fault_text (msg t) = t
display fault_text (msg_of t e) = t ++ display fault_text e

pub Result-cases {ℓ} :
    {A : Type ℓ} (r : Result A) → ((a : A) × (r ≡ ok a)) ⊎ ((e : Error) × (r ≡ err e))
Result-cases (ok a) = inl (a, refl)
Result-cases (err e) = inr (e, refl)

-- `Ok` or the text of a library's error.
pub data Parsed {ℓ} (A : Type ℓ) : Type ℓ where
  good : A → Parsed A
  bad : Text → Parsed A

pub Parsed-cases {ℓ} :
    {A : Type ℓ} (r : Parsed A) → ((a : A) × (r ≡ good a)) ⊎ ((e : Text) × (r ≡ bad e))
Parsed-cases (good a) = inl (a, refl)
Parsed-cases (bad e) = inr (e, refl)
