-- ===== src/EndToEnd/Token.antt =====
-- `connect` of src/client/mod.rs over TCP with a server of src/server/mod.rs.
use mii_sound.Common.{
  Option, Option-cases, inl, inr, is_some, none, ℕ, ◌-◌, ◌≤◌, ◌≡◌, refl, sym, ap, ◌∙◌, arith, Text,
  text, true, List, [], ◌++◌, some, length,
}
use native.Mathlib.Decide.{dec_lt}
use mii_sound.Server.Relay.Requests.{Api}
use mii_sound.Start.{ServeArgs}
use mii_sound.Start.Transport.{Platform, token_from_env}
use mii_sound.Start.Configure.{Config, or_default, configured, configure}
use mii_sound.Common.Utf8.{from_utf8}
use mii_sound.Exit
use mii_sound.Io.{Result, ok, Result-cases}
use mii_sound.Io.Write.{write_all_fits, write_all_full}
use mii_sound.Proto.{st_bad_request, max_token, Request, Response}
use mii_sound.Proto.Wire.{encode_token, write_token-encode}
use mii_sound.Client.Session.{Conn, tcp, connect, send_token}
use mii_sound.Client.Tts.{Env, finish_single, deliver}
use mii_sound.Server.Connection.{Ctx, handle, response_to, error_reply}
use mii_sound.Server.Connection.Replies.{handle-token}
use mii_sound.EndToEnd.{arrived, Wired, delivers}

token_sent :
    (token : Text) (c conn : Conn)
    → c.outgoing.sent ≡ []
    → length token ≤ max_token
    → send_token token c ≡ ok conn
    → conn.outgoing.sent ≡ encode_token token
unfolding send_token
token_sent token c conn empty short h =
    elim (dec_lt c.outgoing.room (length (encode_token token))) [
      | yes full ↦
          let cut =
            write_token-encode token short c.outgoing
            ∙ write_all_full (encode_token token) c.outgoing full in
          absurd (cc (rw (cut, send_token) at h))
      | no fits ↦
          let whole =
            write_token-encode token short c.outgoing
            ∙ write_all_fits (encode_token token) c.outgoing (omega arith) in
          let same : record c {
            outgoing = record {
              sent = c.outgoing.sent ++ encode_token token;
              room = c.outgoing.room - length (encode_token token);
            };
          }
              ≡ conn =
            cc (rw (whole, send_token) at h) in
          ap (λ (k : Conn). k.outgoing.sent) (sym same)
          ∙ ap (λ (pre : List ℕ). pre ++ encode_token token) empty
    ]

token-delivers :
    (ctx : Ctx) (token : Text) (c conn : Conn) (env : Env) (req : Request) (room : ℕ)
    → length token ≤ max_token
    → from_utf8 token ≡ some token
    → ctx.expected_token ≡ some token
    → c.outgoing.sent ≡ []
    → send_token token c ≡ ok conn
    → Wired ctx true req conn room
    → finish_single env req conn ≡ deliver env (response_to ctx (arrived req))
token-delivers ctx token c conn env req room short utf8 same empty h wired =
    delivers ctx true req conn room
      (λ s.
        ap (λ (pre : List ℕ). handle ctx true (pre ++ s)) (token_sent token c conn empty short h)
        ∙ handle-token ctx token s short utf8 same)
      wired env

-- The client's token, and the server's, for the same `$TOKEN`: empty if it is not set.
abbrev pub env_token : Platform → Text
env_token platform = or_default (token_from_env platform)

connect-env_token :
    (platform : Platform) (url : Text) (c : Conn)
    → connect (tcp url (ok c) platform.token) ≡ send_token (env_token platform) c
unfolding connect token_from_env or_default
connect-env_token platform url c = elim (Option-cases platform.token) [
  | inl h ↦ rw (h, connect, token_from_env) refl
  | inr (t, h) ↦ rw (h, connect, token_from_env) refl
]

configured-env_token :
    (platform : Platform) (args : ServeArgs) (relay : Option Api)
    → is_some args.network ≡ true
    → (configured platform args relay).expected_token ≡ some (env_token platform)
unfolding configured
configured-env_token platform args relay h = rw h refl

configure-env_token :
    (new_relay : Text → Result Api) (platform : Platform) (args : ServeArgs) (config : Config)
    → configure new_relay platform args ≡ ok config
    → is_some args.network ≡ true
    → config.expected_token ≡ some (env_token platform)
unfolding configure
configure-env_token new_relay platform args config h network = elim (Option-cases args.relay) [
  | inl e ↦
      let same : configured platform args none ≡ config = cc (rw (e, configure) at h) in
      ap (λ (c : Config). c.expected_token) (sym same)
      ∙ configured-env_token platform args none network
  | inr (url, e) ↦ elim (Result-cases (new_relay url)) [
    | inl (relay, r) ↦
        let same : configured platform args (some relay) ≡ config =
          cc (rw (e, r, configure) at h) in
        ap (λ (c : Config). c.expected_token) (sym same)
        ∙ configured-env_token platform args (some relay) network
    | inr (x, r) ↦ absurd (cc (rw (e, r, configure) at h))
  ]
]

-- A client with `--url` and a server with `--network`, both with the same `$TOKEN`, or both without
-- one: the client ends as the server's response says, the same as on the local socket.
pub network-delivers :
    (new_relay : Text → Result Api) (platform : Platform) (args : ServeArgs) (config : Config)
    (ctx : Ctx) (url : Text) (c conn : Conn) (env : Env) (req : Request) (room : ℕ)
    → configure new_relay platform args ≡ ok config
    → is_some args.network ≡ true
    → ctx.expected_token ≡ config.expected_token
    → length (env_token platform) ≤ max_token
    → from_utf8 (env_token platform) ≡ some (env_token platform)
    → c.outgoing.sent ≡ []
    → connect (tcp url (ok c) platform.token) ≡ ok conn
    → Wired ctx true req conn room
    → finish_single env req conn ≡ deliver env (response_to ctx (arrived req))
network-delivers new_relay platform args config ctx url c conn env req room set_up network has short
      utf8 empty h wired =
    token-delivers ctx (env_token platform) c conn env req room short utf8
      (has ∙ configure-env_token new_relay platform args config set_up network) empty
      (sym (connect-env_token platform url c) ∙ h) wired

-- What a server answers to a token that is not its own.
abbrev pub token_reply : Response
token_reply = error_reply st_bad_request (text "invalid token")
