-- ===== src/Worker/Slot.antt =====
-- The slot of the cancel token in src/worker.rs: the handlers of requests set and clear it. A signal
-- that arrives is kept until the task of `install_cancel_handler` receives it; only then, and under
-- its lock, that task looks into the slot. The sequences here begin when that task is installed.
pub mod Caused
pub mod Reach
use mii_sound.Common.{
  ℕ, ◌≡◌, Bool, true, false, not, ◌&&◌, List, [], ◌∷◌, ◌++◌, Option, none, some, if◌then◌else◌,
}

-- A request's token is named by a number. `arrives` is the process's SIGUSR1, `received` the return
-- of `sig.recv().await`, and `looks` the lock of the slot behind it.
pub data Event : Type 0 where
  begins : (token : ℕ) → Event
  ends : Event
  arrives : Event
  received : Event
  looks : Event

-- The slot; whether a signal waits to be received (more than one are received as one); whether the
-- handler has received one and has not looked yet; and the calls of `cancel()` so far, by token.
pub record Slot : Type 0 where
  pub current : Option ℕ
  pub pending : Bool
  pub woken : Bool
  pub cancelled : List ℕ

abbrev pub empty_slot : Slot
empty_slot = record { current = none; pending = false; woken = false; cancelled = [] }

-- `token.cancel()` on what the slot holds.
abbrev pub cancel : Option ℕ → List ℕ → List ℕ
cancel none cancelled = cancelled
cancel (some token) cancelled = cancelled ++ token ∷ []

unfoldable pub on_event : Event → Slot → Slot
on_event (begins token) s = record s { current = some token }
on_event ends s = record s { current = none }
on_event arrives s = record s { pending = true }
on_event received s =
    if s.pending && not s.woken then record s { pending = false; woken = true } else s
on_event looks s =
    if s.woken then record s { woken = false; cancelled = cancel s.current s.cancelled } else s

unfoldable pub on_events : List Event → Slot → Slot
unfolding on_event
on_events [] s = s
on_events (e ∷ events) s = on_events events (on_event e s)

-- The loop of the handler receives a signal only while one waits and it is not about to look, and
-- looks only behind one that it has received.
abbrev pub happens : Event → Slot → Bool
happens (begins token) s = true
happens ends s = true
happens arrives s = true
happens received s = s.pending && not s.woken
happens looks s = s.woken

unfoldable pub Happens : List Event → Slot → Type 0
unfolding on_event
Happens [] s = Unit
Happens (e ∷ events) s = (happens e s ≡ true) × Happens events (on_event e s)
