-- ===== src/Examples/Serve.antt =====
-- Servers that start, are visited and stop.
use mii_sound.Common.{Each, ◌≡◌, refl, text, List, [], ◌∷◌, Text, Option, none, some}
use mii_sound.Io.{ok, good}
use mii_sound.Proto.Wire.{encode_token}
use mii_sound.Exit
use mii_sound.Server.Relay.Setup.{Http, new_api}
use mii_sound.Start.{ServeArgs, World, main}
use mii_sound.Start.Configure.{Config, listen, or_default, configure}
use mii_sound.Start.Transport.{token_from_env}
use mii_sound.Start.Upstream.{Relays, configure-Relays}
use mii_sound.Start.Serve.{Visit, Event, accepted, signal, run}
use mii_sound.Start.Serve.Guard.{Guarded, visits, run-Guarded}
use mii_sound.Start.Serve.Ends.{Stopped, main-Stopped}
use mathlib.Core.Logic.{◌↔◌}
use mii_sound.Examples.Network.{platform, serve_args, no_relay, config, world, command_line}
use mii_sound.Examples.EndToEnd.{engine, ctx}
use mii_sound.Examples.Relay.{api}

fresh_client : (url : Text) (c : Text × Option Text) → good (url, none) ≡ good c → c.1 ≡ none
fresh_client url c h = cc

fresh_url : (url : Text) (c : Text × Option Text) → good (url, none) ≡ good c → c.0 ≡ url
fresh_url url c h = cc

-- A client that is its address and its token.
abbrev http : Http
http = record {
  Client = Text × Option Text;
  client = λ url. good (url, none);
  bearer_token = λ c token. (c.0, some token);
  api = λ c. api;
  authorization = λ c. c.1;
  base_url = λ c. c.0;
  built_for = fresh_url;
  same_url = λ c token. refl;
  without_token = fresh_client;
  with_token = λ c token. refl;
}

abbrev relay_args : ServeArgs
relay_args = record serve_args { relay = some (text " tts.example ") }

configure-Relays_example :
    (c : Config) × (configure (new_api http (some (text "key"))) platform relay_args ≡ ok c)
    × Relays http (some (text "key")) (text " tts.example ") c
configure-Relays_example =
    configure-Relays http (some (text "key")) platform relay_args (text " tts.example ") _ refl refl

-- A client with the right token, and one with a wrong one.
abbrev visit : Text → Visit
visit token = record {
  incoming = encode_token token;
  outgoing = record { sent = []; room = 50 };
  engine = engine;
  from_slice = ctx.from_slice;
  waits = 1;
}

abbrev events : List Event
events = accepted (visit (text "secret")) ∷ accepted (visit (text "guess")) ∷ signal ∷ []

run-Guarded_example :
    Each
      (Guarded (or_default (token_from_env platform)) config)
      (visits events)
      (run no_relay platform (λ l. ok events) serve_args none).0
unfolding configure
run-Guarded_example =
    run-Guarded no_relay platform (λ l. ok events) serve_args none 8080 config events refl refl refl

abbrev stopping : World
stopping = record world { served = λ args socket. ok tt }

main-Stopped_example :
    ((main stopping command_line).code ≡ Exit.success)
    ↔ Stopped no_relay platform (λ l. ok events) serve_args none
unfolding run configure listen
main-Stopped_example =
    main-Stopped no_relay platform (λ l. ok events) serve_args stopping command_line (ok tt) refl
      refl refl refl
