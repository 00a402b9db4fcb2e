-- ===== src/Start/Configure.antt =====
-- `run` of src/server/mod.rs up to its accept loops: what a server has, and where it listens.
use mii_sound.Common.{
  Text, text, decimal, Bool, true, false, [], ◌++◌, Option, none, some, is_some, if◌then◌else◌,
}
use mii_sound.Io.{Result, ok, err, msg}
use mii_sound.Server.Engine.{Engine}
use mii_sound.Server.Engine as Engine
use mii_sound.Server.Relay.Requests.{Api}
use mii_sound.Start.{ServeArgs}
use mii_sound.Start.Transport.{Platform, resolve_name, token_from_env}

-- `ServerCtx`, before any connection.
pub record Config : Type 0 where
  pub tts : Option Engine
  pub relay : Option Api
  pub expected_token : Option Text

-- `unwrap_or_default()`
unfoldable pub or_default : Result Text → Text
or_default (ok t) = t
or_default (err e) = []

-- The engine, if there is no relay: `TtsEngine::new` for the directory of a model.
unfoldable pub tts_engine : Option Api → ServeArgs → Option Engine
tts_engine (some relay) args = none
tts_engine none args = elim args.tts_dir [
  | some dir ↦ some (Engine.new args.holds args.parallel args.batch_window)
  | none ↦ none
]

unfoldable pub configured : Platform → ServeArgs → Option Api → Config
unfolding tts_engine or_default
configured platform args relay = record {
  tts = tts_engine relay args;
  relay = relay;
  expected_token =
      if is_some args.network then some (or_default (token_from_env platform)) else none;
}

-- `Relay::new` sets up the HTTP client, which is a parameter.
unfoldable pub configure : (new_relay : Text → Result Api) → Platform → ServeArgs → Result Config
unfolding configured
configure new_relay platform args = elim args.relay [
  | none ↦ ok (configured platform args none)
  | some url ↦ elim (new_relay url) [
    | ok relay ↦ ok (configured platform args (some relay))
    | err e ↦ err (msg (text "setting up relay client"))
  ]
]

-- Where the server listens.
pub data Listen (platform : Platform) : Type 0 where
  on_tcp : (bind : Text) → Listen platform
  on_socket : platform.Name → Listen platform

unfoldable pub listen :
    (platform : Platform) → ServeArgs → (socket_override : Option Text) → Result (Listen platform)
listen platform args socket_override = elim args.network [
  | some port ↦ ok (on_tcp (text "0.0.0.0:" ++ decimal port))
  | none ↦ elim (resolve_name platform socket_override) [
    | ok name ↦ ok (on_socket name)
    | err e ↦ err e
  ]
]

-- The argument of `handle`: `handle_tcp` and `handle_local`.
unfoldable pub expects_token : {platform : Platform} → Listen platform → Bool
expects_token (on_tcp bind) = true
expects_token (on_socket name) = false
