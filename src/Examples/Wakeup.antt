-- ===== src/Examples/Wakeup.antt =====
-- A wake-up of the dispatcher.
use mii_sound.Common.{◌≢◌, refl, Bool, true, false, text, [], ◌∷◌, Option, none, some}
use mii_sound.Server.Engine.{new}
use mii_sound.Server.Engine.System as System
use mii_sound.Server.Engine.System.{generate}
use mii_sound.Server.Engine.Wakeup.{
  Notify, asleep, Tasks, sleep, push, notify, Reach, start, moved, happened,
}
use mii_sound.Server.Engine.Wakeup.Kept.{Reach-Steps}
use mii_sound.Server.Engine.Wakeup.Progress.{Leads, Reach-Leads}
use mii_sound.Examples.System.{from_slice, item}

-- One permit at most.
abbrev take_permit : Bool → Option Bool
take_permit true = some false
take_permit false = none

kept : (p : Bool) → take_permit true ≢ none
kept p e = cc

abbrev one_permit : Notify
one_permit = record {
  Permit = Bool;
  fresh = false;
  notify_one = λ p. true;
  notified = take_permit;
  kept_for_wait = kept;
}

-- The dispatcher found the queue empty and sleeps; then a request comes, and its notice.
abbrev noticed : Tasks one_permit
noticed = record {
  sys = record {
    engine = generate from_slice (text "hi") none 1 (new 60000 2 0);
    in_hand = [];
    submitted = 1 ∷ [];
  };
  phase = asleep;
  permit = true;
  notifying = 0;
}

noticed-Reach : Reach one_permit 60000 2 0 noticed
unfolding new
noticed-Reach =
    happened
      (happened (moved start (sleep refl refl)) (push from_slice (text "hi") none 1 _ refl refl))
      (notify 0 refl)

Reach-Leads_example : Leads one_permit noticed (item 1)
unfolding generate new
Reach-Leads_example = Reach-Leads one_permit (item 1) noticed-Reach refl refl

Reach-Steps_example : System.Reach 60000 2 0 noticed.sys
Reach-Steps_example = Reach-Steps one_permit noticed-Reach
