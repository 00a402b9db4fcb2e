-- ===== src/Examples/Turns.antt =====
-- Clients that leave.
use mii_sound.Common.{ℕ, refl, zero, suc, List, [], ◌∷◌, none}
use mii_sound.Io.{Result, ok, err, fault, unexpected_eof}
use mii_sound.Server.Engine.{RunningWorker, new}
use mii_sound.Server.Engine.Dispatch.{Env, await_response}
use mii_sound.Server.Connection.Relaying.{Relayed}
use mii_sound.Server.Connection.Turns.{
  ClientTurn, read, next, handle_turns, stays, watcher, HasEnded, handle_turns-Relayed,
}
use mii_sound.Server.Connection.Cancel.{Signalled, await_response-Signalled}
use mii_sound.Examples.Relay.{api, hello, ctx, stream_request}
use mii_sound.Examples.System.{env, item}

-- The client sends a byte, gets a frame, and leaves.
abbrev turns : List ClientTurn
turns = read (ok 1) ∷ next ∷ read (ok 0) ∷ next ∷ []

handle_turns-Relayed_example : Relayed (stays turns) (handle_turns turns ctx api stream_request)
handle_turns-Relayed_example = handle_turns-Relayed turns ctx api stream_request hello refl

-- One client hangs up, and the connection of the other fails.
abbrev reads : ℕ → List (Result ℕ)
reads zero = ok 1 ∷ ok 0 ∷ []
reads (suc n) = err (fault unexpected_eof) ∷ []

abbrev leaving : Env
leaving = record env { gone = λ t. watcher (reads t) }

abbrev busy : RunningWorker
busy = record {
  pid = 77;
  stdin = record { sent = []; room = 100 };
  stdout = [];
  exited = none;
  last_used = 0;
}

await_response-Signalled_example :
    Signalled leaving.gone
      (λ x. HasEnded (reads x.ticket))
      (item 0 ∷ item 1 ∷ [])
      77
      []
      (await_response leaving (item 0 ∷ item 1 ∷ []) busy (new 60000 2 0)).signals
unfolding new
await_response-Signalled_example =
    await_response-Signalled leaving reads (item 0) (item 1 ∷ []) busy (new 60000 2 0) (λ t. refl)
