-- ===== src/Examples/Queued.antt =====
-- A request that waits behind another one.
use mii_sound.Common.{refl, arith, text, List, [], ◌∷◌, some, none}
use mii_sound.Io.{good}
use mii_sound.Proto.{op_tts, Request}
use mii_sound.Server.Engine.{new}
use mii_sound.Server.Engine.Queue.{concat}
use mii_sound.Server.Engine.System.{System, generate, submit, Reach, start, later}
use mii_sound.Server.Engine.System.Rounds.{Turn, rounds}
use mii_sound.Server.Engine.Paths.{Steps, here}
use mii_sound.Server.Engine.Paths.Arrivals.{Comes, AreNew}
use mii_sound.Server.Engine.Paths.Rounds.{all_arrivals, arrivals, after, rounds-Steps}
use mii_sound.Server.Connection.{Ctx}
use mii_sound.EndToEnd.Queued.{Replied, queued_by, rounds-Replied}
use mii_sound.Examples.System.{from_slice, item, env}
use mii_sound.Examples.Relay.{hello}

abbrev waiting : System
waiting = record {
  engine =
      generate from_slice (text "hi") none 2
        (generate from_slice (text "hi") none 1 (new 60000 1 0));
  in_hand = [];
  submitted = 1 ∷ 2 ∷ [];
}

waiting-Reach : Reach 60000 1 0 waiting
waiting-Reach =
    later (later start (submit from_slice (text "hi") none 1 refl))
      (submit from_slice (text "hi") none 2 refl)

-- A third request comes while the first is with the worker.
abbrev turns : List Turn
turns =
    record { env = env; window = []; during = item 3 ∷ [] }
    ∷ record { env = env; window = []; during = [] }
    ∷ []

third-Comes : Comes (item 3)
third-Comes = record { from_slice = from_slice; req = _; parses = refl; keyed = refl }

third-AreNew : AreNew (item 3 ∷ []) waiting
third-AreNew t = ground arith

abbrev behind : System
behind = after (rounds turns waiting.engine) (item 3 ∷ []) waiting

abbrev ctx : Ctx
ctx = record {
  tts = some (queued_by behind 2);
  relay = none;
  expected_token = none;
  from_slice = λ json. good hello;
  waits = 1;
}

abbrev request : Request
request = record { op = op_tts; json = text "hi"; audio = none }

rounds-Steps_example : Steps waiting behind
unfolding all_arrivals arrivals concat
rounds-Steps_example = rounds-Steps turns waiting refl (third-Comes, tt) third-AreNew

rounds-Replied_example : Replied behind behind (item 2) ctx request
unfolding all_arrivals arrivals concat generate new
rounds-Replied_example =
    rounds-Replied waiting behind (item 2) 1 turns ctx request hello waiting-Reach refl
      (record { before = item 1 ∷ []; behind = []; place = refl; near = omega arith }) tt
      (refl, (refl, tt)) (omega arith) (third-Comes, tt) third-AreNew here refl refl refl refl
