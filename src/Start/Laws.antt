-- ===== src/Start/Laws.antt =====
-- What a server of src/server/mod.rs is set up with, and how a run of src/main.rs ends.
use mii_sound.Common.{
  ◌≡◌, inl, inr, ap, sym, subst, decimal, ◌∙◌, arith, Text, text, not, ◌&&◌, Option, none, some,
  is_some, Option-cases, ◌++◌,
}
use mii_sound.Io.{Result, ok, Result-cases}
use mii_sound.Server.Relay.Requests.{Api}
use mii_sound.Start.{ServeArgs}
use mii_sound.Start.Transport.{Platform, resolve_name}
use mii_sound.Start.Configure.{
  Config, tts_engine, configured, configure, Listen, on_tcp, on_socket, listen, expects_token,
}

-- The modes of a server: a relay or an engine, never both; with a token exactly on TCP, where it is
-- asked for.
pub record Modes (platform : Platform) (args : ServeArgs) (c : Config) (l : Listen platform)
    : Type 0 where
  pub relays : is_some c.relay ≡ is_some args.relay
  pub speaks : is_some c.tts ≡ (is_some args.tts_dir && not (is_some args.relay))
  pub tokens : is_some c.expected_token ≡ is_some args.network
  pub asks : expects_token l ≡ is_some c.expected_token

listen-network :
    (platform : Platform) (args : ServeArgs) (socket : Option Text) (l : Listen platform)
    → listen platform args socket ≡ ok l
    → expects_token l ≡ is_some args.network
unfolding listen expects_token
listen-network platform args socket l h = elim (Option-cases args.network) [
  | inr (port, e) ↦
      let same : on_tcp (text "0.0.0.0:" ++ decimal port) ≡ l = cc (rw (e, listen) at h) in
      ap expects_token (sym same) ∙ ap is_some (sym e)
  | inl e ↦ elim (Result-cases (resolve_name platform socket)) [
    | inl (name, r) ↦
        let same : on_socket name ≡ l = cc (rw (e, r, listen) at h) in
        ap expects_token (sym same) ∙ ap is_some (sym e)
    | inr (x, r) ↦ absurd (cc (rw (e, r, listen) at h))
  ]
]

configure-Modes_at :
    (platform : Platform) (args : ServeArgs) (relay : Option Api)
    → is_some relay ≡ is_some args.relay
    → (is_some (configured platform args relay).tts
        ≡ (is_some args.tts_dir && not (is_some args.relay)))
      × (is_some (configured platform args relay).expected_token ≡ is_some args.network)
unfolding configured tts_engine
configure-Modes_at platform args relay h = ground (arith, h)

configured-Modes :
    (platform : Platform) (args : ServeArgs) (relay : Option Api) (l : Listen platform)
    → is_some relay ≡ is_some args.relay
    → expects_token l ≡ is_some args.network
    → Modes platform args (configured platform args relay) l
configured-Modes platform args relay l h at_port =
    let (speaks, tokens) = configure-Modes_at platform args relay h in
    record { relays = has_relay; speaks = speaks; tokens = tokens; asks = at_port ∙ sym tokens }
  where
    has_relay : is_some (configured platform args relay).relay ≡ is_some args.relay
    has_relay = unfold configured in h

-- A server that starts is a relay exactly if it was asked to be one, else it has an engine exactly
-- if it was given a model; it has a token exactly if it listens on TCP, and asks each connection for
-- it exactly then.
pub configure-Modes :
    (new_relay : Text → Result Api) (platform : Platform) (args : ServeArgs) (socket : Option Text)
    (c : Config) (l : Listen platform)
    → configure new_relay platform args ≡ ok c
    → listen platform args socket ≡ ok l
    → Modes platform args c l
unfolding configure
configure-Modes new_relay platform args socket c l set_up listens = elim (Option-cases args.relay) [
  | inl e ↦
      let same : configured platform args none ≡ c = cc (rw (e, configure) at set_up) in
      subst (λ (c : Config). Modes platform args c l) same
        (configured-Modes platform args none l (ap is_some (sym e)) at_port)
  | inr (url, e) ↦ elim (Result-cases (new_relay url)) [
    | inl (relay, r) ↦
        let same : configured platform args (some relay) ≡ c =
          cc (rw (e, r, configure) at set_up) in
        subst (λ (c : Config). Modes platform args c l) same
          (configured-Modes platform args (some relay) l (ap is_some (sym e)) at_port)
    | inr (x, r) ↦ absurd (cc (rw (e, r, configure) at set_up))
  ]
]
  where
    at_port : expects_token l ≡ is_some args.network
    at_port = listen-network platform args socket l listens
