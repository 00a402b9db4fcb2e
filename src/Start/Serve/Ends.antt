-- ===== src/Start/Serve/Ends.antt =====
-- When the process of a server, src/main.rs with `run` of src/server/mod.rs, ends with success.
use mii_sound.Common.{
  ℕ, Text, ◌≡◌, refl, sym, ap, ◌∙◌, arith, Bool, false, inl, inr, List, [], ◌∷◌, ◌++◌, map, Option,
  some,
}
use mathlib.Core.Logic.{◌↔◌}
use mii_sound.Io.{Result, ok, err, Result-cases}
use mii_sound.Server.Relay.Requests.{Api}
use mii_sound.Exit
use mii_sound.Start.{ServeArgs, serve, Cli, World, exit_of, run_command, main}
use mii_sound.Start.Transport.{Platform}
use mii_sound.Start.Configure.{Config, configure, Listen, listen, expects_token}
use mii_sound.Start.Serve.{Visit, Event, accepted, accept_failed, signal, accept_loop, run}
use mii_sound.Start.Serve.Guard.{run-bound}

-- A signal comes before any error of the listener.
pub record IsStopped (events : List Event) : Type 0 where
  pub before : List Visit
  pub behind : List Event
  pub parts : events ≡ map accepted before ++ signal ∷ behind

accept_loop-IsStopped :
    (config : Config) (asks : Bool) (events : List Event)
    → (accept_loop config asks events).1 ≡ some (ok tt)
    → IsStopped events
unfolding accept_loop
accept_loop-IsStopped config asks [] h = absurd (cc h)
accept_loop-IsStopped config asks (accept_failed e ∷ events) h = absurd (ground (arith, h))
accept_loop-IsStopped config asks (signal ∷ events) h = record {
  before = [];
  behind = events;
  parts = refl;
}
accept_loop-IsStopped config asks (accepted v ∷ events) h =
    let s = accept_loop-IsStopped config asks events h in
    record { before = v ∷ s.before; behind = s.behind; parts = ap (◌∷◌ (accepted v)) s.parts }

accept_loop-stops :
    (config : Config) (asks : Bool) (before : List Visit) (behind : List Event)
    → (accept_loop config asks (map accepted before ++ signal ∷ behind)).1 ≡ some (ok tt)
unfolding accept_loop
accept_loop-stops config asks [] behind = refl
accept_loop-stops config asks (v ∷ before) behind = accept_loop-stops config asks before behind

abbrev code_of : Result (Unit {0}) → ℕ
code_of (ok _) = Exit.success
code_of (err e) = Exit.unknown

main-code :
    (w : World) (cli : Cli) (args : ServeArgs) (r : Result (Unit {0}))
    → cli.status ≡ false
    → cli.command ≡ some (serve args)
    → w.served args cli.socket ≡ r
    → (main w cli).code ≡ code_of r
unfolding main run_command exit_of
main-code w cli args (ok _) status command served = rw (status, command) (rw (served) refl)
main-code w cli args (err e) status command served = rw (status, command) (rw (served) refl)

module _ (new_relay : Text → Result Api) (platform : Platform)
    (bind : Listen platform → Result (List Event)) (args : ServeArgs) (socket : Option Text) where
  -- The server was set up and bound, and then a signal came.
  pub record Stopped : Type 0 where
    pub config : Config
    pub set_up : configure new_relay platform args ≡ ok config
    pub at : Listen platform
    pub listens : listen platform args socket ≡ ok at
    pub events : List Event
    pub bound : bind at ≡ ok events
    pub stops : IsStopped events

  run-Stopped : (run new_relay platform bind args socket).1 ≡ some (ok tt) → Stopped
  unfolding run
  run-Stopped h = elim (Result-cases (configure new_relay platform args)) [
    | inr (e, c) ↦ absurd (ground (arith, rw (c, run) at h))
    | inl (config, c) ↦ elim (Result-cases (listen platform args socket)) [
      | inr (e, s) ↦ absurd (ground (arith, rw (c, s, run) at h))
      | inl (l, s) ↦ elim (Result-cases (bind l)) [
        | inr (e, b) ↦ absurd (ground (arith, rw (c, s, b, run) at h))
        | inl (events, b) ↦ record {
          config = config;
          set_up = c;
          at = l;
          listens = s;
          events = events;
          bound = b;
          stops = accept_loop-IsStopped config (expects_token l) events (
              sym (
                ap (λ r. r.1) (run-bound new_relay platform bind args socket config l events c s b))
              ∙ h);
        }
      ]
    ]
  ]

  Stopped-run : Stopped → (run new_relay platform bind args socket).1 ≡ some (ok tt)
  Stopped-run s =
      ap (λ r. r.1)
        (run-bound new_relay platform bind args socket s.config s.at s.events s.set_up s.listens
          s.bound)
      ∙ ap (λ (events : List Event). (accept_loop s.config (expects_token s.at) events).1)
          s.stops.parts
      ∙ accept_loop-stops s.config (expects_token s.at) s.stops.before s.stops.behind

-- The process of a server that ends, ends with success exactly if the server was set up and bound
-- and a signal came before any error of the listener.
pub main-Stopped :
    (new_relay : Text → Result Api) (platform : Platform)
    (bind : Listen platform → Result (List Event)) (args : ServeArgs) (w : World) (cli : Cli)
    (r : Result (Unit {0}))
    → cli.status ≡ false
    → cli.command ≡ some (serve args)
    → w.served args cli.socket ≡ r
    → (run new_relay platform bind args cli.socket).1 ≡ some r
    → ((main w cli).code ≡ Exit.success) ↔ Stopped new_relay platform bind args cli.socket
main-Stopped new_relay platform bind args w cli (ok _) status command served ends = (
  λ h. run-Stopped new_relay platform bind args cli.socket ends,
  λ s. main-code w cli args (ok tt) status command served,
)
main-Stopped new_relay platform bind args w cli (err e) status command served ends = (
  λ h. absurd (ground (arith, sym (main-code w cli args (err e) status command served) ∙ h)),
  λ s. absurd (ground (arith, sym ends ∙ Stopped-run new_relay platform bind args cli.socket s)),
)
