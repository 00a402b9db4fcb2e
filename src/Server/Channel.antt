-- ===== src/Server/Channel.antt =====
-- The bounded channels of stream frames (`tokio::sync::mpsc`), as their sender sees them: what the
-- receiver has taken, and how many more frames it takes before it is gone. A full channel only
-- makes the sender wait, so the bound is no part of the state.
use mii_sound.Common.{ℕ, zero, suc, ◌≡◌, refl, List, [], ◌∷◌, ◌++◌, Bool, true, false}
use mii_sound.Proto.{StreamFrame}

pub record Sender : Type 0 where
  pub taken : List StreamFrame
  pub room : ℕ

-- `send(frame).await`: whether the receiver took it.
unfoldable pub send : StreamFrame → Sender → Bool × Sender
send frame out = elim out.room [
  | zero ↦ (false, out)
  | suc n ↦ (true, record { taken = out.taken ++ frame ∷ []; room = n })
]

pub send_ok :
    (frame : StreamFrame) (taken : List StreamFrame) (n : ℕ)
    → send frame (record { taken = taken; room = suc n })
      ≡ (true, record { taken = taken ++ frame ∷ []; room = n })
unfolding send
send_ok frame taken n = refl
