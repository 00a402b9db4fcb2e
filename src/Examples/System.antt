-- ===== src/Examples/System.antt =====
-- Orders of the engine's tasks.
use mii_sound.Common.{ℕ, refl, arith, text, false, List, [], ◌∷◌, none, some}
use mii_sound.Io.{Parsed, good, ok}
use mii_sound.Proto.{TtsRequest}
use mii_sound.Server.Engine.{BatchKey, PendingItem, Engine, new}
use mii_sound.Server.Engine.Queue.{drain_matching}
use mii_sound.Server.Engine.Dispatch.{Env, dispatch_batch}
use mii_sound.Server.Engine.System.{
  System, generate, submit, take_first, collect, dispatch, Reach, start, later,
}
use mii_sound.Server.Engine.System.Accounts.{Accounted, Reach-Accounted}
use mii_sound.Server.Engine.Promise.{Promise, view}
use mii_sound.Server.Engine.Promise.Steps.{Held, Reach-Promise}
use mii_sound.Server.Engine.System.Rounds.{Turn}

-- A reader that takes every text for a request.
abbrev pub from_slice : List ℕ → Parsed TtsRequest
from_slice json = good (record {
  text = json;
  reference = none;
  continuation = none;
  cfg = 0x40000000;
  steps = 10;
  inline_reference = false;
})

abbrev pub key : BatchKey
key = record { cfg_bits = 0x40000000; steps = 10 }

abbrev pub item : ℕ → PendingItem
item ticket = record { json = text "hi"; audio = none; key = key; ticket = ticket }

abbrev pub env : Env
env = record {
  now = 500;
  child = ok (record {
    pid = some 78;
    stdin = record { sent = []; room = 1000 };
    stdout = 0 ∷ [];
    exited = none;
  });
  gone = λ t. false;
  fault_text = λ f. text "fault";
}

-- Two requests come in, then the dispatcher takes both and has a worker started for them.
abbrev two_queued : System
two_queued = record {
  engine =
      generate from_slice (text "hi") none 2
        (generate from_slice (text "hi") none 1 (new 60000 2 0));
  in_hand = [];
  submitted = 1 ∷ 2 ∷ [];
}

two_come : Reach 60000 2 0 two_queued
two_come =
    later (later start (submit from_slice (text "hi") none 1 refl))
      (submit from_slice (text "hi") none 2 refl)

abbrev taken : System
taken = record {
  engine = record two_queued.engine { queue = item 2 ∷ [] };
  in_hand = item 1 ∷ [];
  submitted = 1 ∷ 2 ∷ [];
}

one_taken : Reach 60000 2 0 taken
unfolding generate new
one_taken = later two_come (take_first (item 1) (item 2 ∷ []) refl refl)

abbrev collected : System
collected = record {
  engine = record taken.engine { queue = (drain_matching key 2 (item 1 ∷ []) (item 2 ∷ [])).1 };
  in_hand = (drain_matching key 2 (item 1 ∷ []) (item 2 ∷ [])).0;
  submitted = 1 ∷ 2 ∷ [];
}

both_taken : Reach 60000 2 0 collected
unfolding generate new
both_taken = later one_taken (collect (item 1) [] refl (omega arith))

abbrev served : System
served = record {
  engine = dispatch_batch env (item 1 ∷ item 2 ∷ []) collected.engine;
  in_hand = [];
  submitted = 1 ∷ 2 ∷ [];
}

both_served : Reach 60000 2 0 served
unfolding drain_matching
both_served = later both_taken (dispatch env (item 1) (item 2 ∷ []) refl)

Reach-Accounted_example : Accounted served
Reach-Accounted_example = Reach-Accounted 60000 2 0 served both_served

-- Two rounds for an engine that takes one request at a time.
abbrev calm : Turn
calm = record { env = env; window = []; during = item 3 ∷ [] }

abbrev one_at_a_time : Engine
one_at_a_time = record (new 60000 1 0) { queue = item 1 ∷ item 2 ∷ [] }

Reach-Promise_example : Promise (view collected) (view served) × ((n : ℕ) → Held served n)
unfolding generate new drain_matching
Reach-Promise_example =
    Reach-Promise 60000 2 0 collected served both_taken (dispatch env (item 1) (item 2 ∷ []) refl)
