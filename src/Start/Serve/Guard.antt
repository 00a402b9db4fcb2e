-- ===== src/Start/Serve/Guard.antt =====
-- Who is answered by a server of src/server/mod.rs that listens on TCP.
use mii_sound.Common.{
  ℕ, Each, Text, text, decimal, ◌≡◌, ◌≢◌, refl, sym, ap, ◌∙◌, Bool, true, Bool-cases, inl, inr,
  List, [], ◌∷◌, ◌++◌, Option, some, none, is_some, Option-cases, bytes_eq, bytes_eq_iff,
  if◌then◌else◌, arith,
}
use mii_sound.Io.{Result, ok, err, Error, msg, Result-cases}
use mii_sound.Io.Write.{Writer}
use mii_sound.Proto.Read.{read_token}
use mii_sound.Server.Relay.Requests.{Api}
use mii_sound.Server.Connection.{expected, read_and_answer, invalid_token, handle}
use mii_sound.Start.{ServeArgs}
use mii_sound.Start.Transport.{Platform, token_from_env}
use mii_sound.Start.Configure.{
  Config, or_default, configure, configured, Listen, on_tcp, listen, expects_token,
}
use mii_sound.Start.Serve.{
  Visit, Event, accepted, accept_failed, signal, ctx_for, handle_visit, accept_loop, run,
}

-- What a connection gets: its answer behind the right token, the refusal behind another one, and
-- nothing without one.
pub data Guarded (token : Text) (config : Config) (v : Visit) (r : Result (Unit {0}) × Writer)
    : Type 0 where
  passed :
      (rest : List ℕ)
      → read_token v.incoming ≡ ok (token, rest)
      → r ≡ read_and_answer (ctx_for config v) rest v.outgoing
      → Guarded token config v r
  refused :
      (other : Text) (rest : List ℕ)
      → read_token v.incoming ≡ ok (other, rest)
      → other ≢ token
      → r ≡ invalid_token v.outgoing
      → Guarded token config v r
  unread :
      (e : Error)
      → read_token v.incoming ≡ err e
      → r ≡ (err (msg (text "reading token")), v.outgoing)
      → Guarded token config v r

handle_visit-Guarded :
    (token : Text) (config : Config) (v : Visit)
    → config.expected_token ≡ some token
    → Guarded token config v (handle_visit config true v)
unfolding handle_visit handle ctx_for
handle_visit-Guarded token config v h = elim (Result-cases (read_token v.incoming)) [
  | inr (e, r) ↦ unread e r (rw (r, handle) refl)
  | inl ((other, rest), r) ↦ elim (Bool-cases (bytes_eq other (expected config.expected_token))) [
    | inl same ↦
        let right : other ≡ token =
          (bytes_eq_iff other (expected config.expected_token)).0 same ∙ ap expected h in
        passed rest (r ∙ ap (λ (t : Text). ok (t, rest)) right) (rw (r, handle) (rw same refl))
    | inr differ ↦
        refused other rest r
          (λ (right : other ≡ token). absurd (
            cc (
              (bytes_eq_iff other (expected config.expected_token)).1
                (right ∙ sym (ap expected h)))))
          (rw (r, handle) (rw differ refl))
  ]
]

-- The connections that were accepted before a signal or an error of the listener.
unfoldable pub visits : List Event → List Visit
visits [] = []
visits (accept_failed e ∷ _) = []
visits (signal ∷ _) = []
visits (accepted v ∷ events) = v ∷ visits events

accept_loop-Each :
    (P : Visit → Result (Unit {0}) × Writer → Type 0) (config : Config) (asks : Bool)
    → ((v : Visit) → P v (handle_visit config asks v))
    → (events : List Event) → Each P (visits events) (accept_loop config asks events).0
unfolding visits accept_loop
accept_loop-Each P config asks h [] = tt
accept_loop-Each P config asks h (accept_failed e ∷ _) = tt
accept_loop-Each P config asks h (signal ∷ _) = tt
accept_loop-Each P config asks h (accepted v ∷ events) =
    (h v, accept_loop-Each P config asks h events)

configure-token :
    (new_relay : Text → Result Api) (platform : Platform) (args : ServeArgs) (config : Config)
    → configure new_relay platform args ≡ ok config
    → config.expected_token
      ≡ (if is_some args.network then some (or_default (token_from_env platform)) else none)
unfolding configure configured
configure-token new_relay platform args config h = elim (Option-cases args.relay) [
  | inl e ↦ ground (arith, rw (e, configure) at h)
  | inr (url, e) ↦ elim (Result-cases (new_relay url)) [
    | inl (relay, r) ↦ ground (arith, rw (e, r, configure) at h)
    | inr (x, r) ↦ absurd (cc (rw (e, r, configure) at h))
  ]
]

pub run-bound :
    (new_relay : Text → Result Api) (platform : Platform)
    (bind : Listen platform → Result (List Event)) (args : ServeArgs) (socket : Option Text)
    (config : Config) (l : Listen platform) (events : List Event)
    → configure new_relay platform args ≡ ok config
    → listen platform args socket ≡ ok l
    → bind l ≡ ok events
    → run new_relay platform bind args socket ≡ accept_loop config (expects_token l) events
unfolding run
run-bound new_relay platform bind args socket config l events c s b = rw (c, run) (rw s (rw b refl))

-- A server with --network answers a connection exactly if it begins with the token of the server's
-- environment, which is the empty one if none is set; another one gets the refusal and one without
-- a token nothing. This holds for every connection that it accepts, whatever the others do.
pub run-Guarded :
    (new_relay : Text → Result Api) (platform : Platform)
    (bind : Listen platform → Result (List Event)) (args : ServeArgs) (socket : Option Text)
    (port : ℕ) (config : Config) (events : List Event)
    → args.network ≡ some port
    → configure new_relay platform args ≡ ok config
    → bind (on_tcp (text "0.0.0.0:" ++ decimal port)) ≡ ok events
    → Each
        (Guarded (or_default (token_from_env platform)) config)
        (visits events)
        (run new_relay platform bind args socket).0
unfolding listen expects_token
run-Guarded new_relay platform bind args socket port config events n c b =
    rw
      (run-bound new_relay platform bind args socket config
        (on_tcp (text "0.0.0.0:" ++ decimal port)) events c (rw (n, listen) refl) b)
      (accept_loop-Each _ config true
        (λ v.
          handle_visit-Guarded _ config v
            (configure-token new_relay platform args config c ∙ rw n refl))
        events)
