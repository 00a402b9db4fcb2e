-- ===== src/Server/Engine/Promise.antt =====
-- What the engine of src/server/tts.rs promises to those who wait in `generate`: each request is
-- unknown, waits, or has its reply for good. How it gets there is left out.
pub mod Replies
pub mod Steps
use mii_sound.Common.{
  ℕ, ◌+◌, ◌≤◌, ◌≡◌, ◌≢◌, refl, sym, ap, ◌∙◌, subst, arith, Text, text, Bool-cases, Option-cases,
  ==_iff, inl, inr, ◌⊎◌, List, [], ◌∷◌, ◌++◌, Option, some, none, count, count-append, ◌==◌,
  if◌then◌else◌,
}
use native.Mathlib.Decide.{dec_lt}
use mii_sound.Io.{Parsed, Parsed-cases}
use mii_sound.Proto.{TtsRequest}
use mii_sound.Server.Engine.{TtsResult, failed, Engine}
use mii_sound.Server.Engine.Dispatch.{Env, dispatch_batch}
use mii_sound.Server.Engine.Delivery.{answered, tickets, dispatch_batch_outcome}
use mii_sound.Server.Engine.System.{
  System, generate, Step, submit, take_first, collect, dispatch, stream, unload, crash, output,
  Reach,
}
use mii_sound.Server.Engine.System.Counts.{waiting}
use mii_sound.Server.Engine.System.Keeps.{Keeps, stream_relay-Keeps, evict-Keeps}
use mii_sound.Server.Engine.System.Accounts.{Accounted, Reach-Accounted, Step-Accounted}

-- What the receiver of a reply channel sees.
pub data Status : Type 0 where
  unknown : Status
  waits : Status
  has : TtsResult → Status

-- The promise: a request comes in, or is refused at once; some that wait get their replies; or
-- nothing happens that anybody could see.
pub data Promise (v w : ℕ → Status) : Type 0 where
  enters : (t : ℕ) → v t ≡ unknown → w t ≡ waits → ((n : ℕ) → n ≢ t → w n ≡ v n) → Promise v w
  refuses :
      (t : ℕ) (why : Text)
      → v t ≡ unknown
      → w t ≡ has (failed (text "invalid tts json: " ++ why))
      → ((n : ℕ) → n ≢ t → w n ≡ v n)
      → Promise v w
  answers :
      ((n : ℕ) → (w n ≡ v n) ⊎ ((v n ≡ waits) × (r : TtsResult) × (w n ≡ has r))) → Promise v w
  idles : w ≡ v → Promise v w

-- `rx.await`: the reply with this ticket that was sent first.
unfoldable pub first_reply : ℕ → List (ℕ × TtsResult) → Option TtsResult
first_reply n [] = none
first_reply n ((t, r) ∷ replies) =
    let rest = first_reply n replies in if t == n then some r else rest

unfoldable pub status_by : ℕ → Option TtsResult → List ℕ → Status
status_by n (some r) submitted = has r
status_by n none submitted = if count n submitted == 0 then unknown else waits

-- What the engine shows of its state.
unfoldable pub status_at : List (ℕ × TtsResult) → List ℕ → ℕ → Status
unfolding status_by
status_at replies submitted n = status_by n (first_reply n replies) submitted

abbrev pub view : System → ℕ → Status
view s = status_at s.engine.replies s.submitted
