-- ===== src/Start/Serve.antt =====
-- `run` of src/server/mod.rs with its accept loops: the set-up, the binding, and each connection in
-- a task of its own until a signal or an error of the listener ends the process.
pub mod Guard
pub mod Ends
use mii_sound.Common.{
  ℕ, Text, text, Bool, List, [], ◌∷◌, ◌++◌, Option, none, some, is_some, if◌then◌else◌,
}
use mii_sound.Io.{Result, ok, err, Parsed, Error, msg}
use mii_sound.Io.Write.{Writer}
use mii_sound.Proto.{TtsRequest}
use mii_sound.Server.Relay.Requests.{Api}
use mii_sound.Server.Connection.{Local, Ctx, handle}
use mii_sound.Start.{ServeArgs}
use mii_sound.Start.Transport.{Platform}
use mii_sound.Start.Configure.{Config, configure, Listen, on_tcp, on_socket, listen, expects_token}

-- A client's connection: its bytes, what it takes of the answer, how long it stays, and what the
-- engine answers to it.
pub record Visit : Type 0 where
  pub incoming : List ℕ
  pub outgoing : Writer
  pub engine : Local
  pub from_slice : List ℕ → Parsed TtsRequest
  pub waits : ℕ

-- What the listener and the signals give.
pub data Event : Type 0 where
  accepted : Visit → Event
  accept_failed : Error → Event
  signal : Event

-- The shared `ServerCtx`, for one connection.
unfoldable pub ctx_for : Config → Visit → Ctx
ctx_for config v = record {
  tts = if is_some config.tts then some v.engine else none;
  relay = config.relay;
  expected_token = config.expected_token;
  from_slice = v.from_slice;
  waits = v.waits;
}

-- How the connections end, each by itself, and how the loop ends, if it does.
abbrev pub Served : Type 0
Served = List (Result (Unit {0}) × Writer) × Option (Result (Unit {0}))

-- `handle_tcp` and `handle_local`
unfoldable pub handle_visit : Config → Bool → Visit → Result (Unit {0}) × Writer
handle_visit config expect_token v = handle (ctx_for config v) expect_token v.incoming v.outgoing

-- The `select!` of an accept loop and the signals.
unfoldable pub accept_loop : Config → (expect_token : Bool) → List Event → Served
unfolding handle_visit
accept_loop config expect_token [] = ([], none)
accept_loop config expect_token (accept_failed e ∷ _) = ([], some (err e))
accept_loop config expect_token (signal ∷ _) = ([], some (ok tt))
accept_loop config expect_token (accepted v ∷ events) =
    let (results, end) = accept_loop config expect_token events in
    (handle_visit config expect_token v ∷ results, end)

abbrev pub failed_with : Error → Served
failed_with e = ([], some (err e))

-- `.with_context(..)` on the listener.
abbrev pub unbound : {platform : Platform} → Listen platform → Error
unbound (on_tcp bind) = msg (text "binding " ++ bind)
unbound (on_socket name) = msg (text "binding local socket")

unfoldable pub run :
    (new_relay : Text → Result Api) (platform : Platform)
    (bind : Listen platform → Result (List Event)) (args : ServeArgs)
    (socket_override : Option Text)
    → Served
unfolding accept_loop
run new_relay platform bind args socket_override = elim (configure new_relay platform args) [
  | err e ↦ failed_with e
  | ok config ↦ elim (listen platform args socket_override) [
    | err e ↦ failed_with e
    | ok l ↦ elim (bind l) [
      | err _ ↦ failed_with (unbound l)
      | ok events ↦ accept_loop config (expects_token l) events
    ]
  ]
]
