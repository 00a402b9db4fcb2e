-- ===== src/Server/Engine/Paths.antt =====
-- Runs of the engine of src/server/tts.rs: steps of its tasks, one after the other.
pub mod Arrivals
pub mod Window
pub mod Rounds
pub mod Final
use mii_sound.Common.{ℕ}
use mii_sound.Server.Engine.System.{System, Step, Reach, later}

pub data Steps : System → System → Type 0 where
  here : {s : System} → Steps s s
  then : {s t u : System} → Step s t → Steps t u → Steps s u

pub Steps-trans : {s t u : System} → Steps s t → Steps t u → Steps s u
Steps-trans here q = q
Steps-trans (then st p) q = then st (Steps-trans p q)

pub Steps-Reach :
    {ttl parallel batch_window : ℕ} {s t : System}
    → Reach ttl parallel batch_window s
    → Steps s t
    → Reach ttl parallel batch_window t
Steps-Reach r here = r
Steps-Reach r (then st p) = Steps-Reach (later r st) p
