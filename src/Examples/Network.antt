-- ===== src/Examples/Network.antt =====
-- Clients and servers on a network.
use mii_sound.Common.{ℕ, ◌≡◌, refl, ap, sym, arith, text, Text, true, false, List, ◌++◌, none, some}
use mii_sound.Common.Utf8.{from_utf8}
use mii_sound.Exit
use mii_sound.Io.{msg, Result, err, ok, good}
use mii_sound.Io.Write.{write_all, write_u32_le}
use mii_sound.Proto.Write.{write_token}
use mii_sound.Proto.Wire.{encode_token, encode_request, encode_response, blob}
use mii_sound.Client.Session.{Conn, connect, send_token}
use mii_sound.Client.Tts.{finish_single, deliver, is_inline}
use mii_sound.Server.Connection.{dispatch, reply_of, response_to}
use mii_sound.EndToEnd.{fresh, sends, arrived, Wired, send_recv-outgoing}
use mii_sound.EndToEnd.Token.{network-delivers}
use mii_sound.Common.{decimal}
use mii_sound.Server.Relay.Requests.{Api}
use mii_sound.Start.{ServeArgs, serve, Cli, World, main}
use mii_sound.Start.Transport.{Platform, token_from_env}
use mii_sound.Start.Configure.{Config, or_default, configured, configure, on_tcp, listen}
use mii_sound.Start.Laws.{Modes, configure-Modes}
use mii_sound.Start.Codes.{IsCode, main-IsCode}
use mii_sound.Examples.EndToEnd.{json, request, ctx, env}

-- Clients over TCP.
abbrev opened : Text → List ℕ → Conn
opened token incoming = record {
  incoming = incoming;
  outgoing = record { sent = encode_token token; room = 190 };
}

abbrev unopened : List ℕ → Conn
unopened incoming = record { incoming = incoming; outgoing = fresh 200 }

-- What the server sends behind this token and the request.
abbrev behind : Text → List ℕ
behind token = sends ctx true 100 (encode_token token ++ encode_request request)

abbrev friend : Conn
friend = opened (text "secret") (behind (text "secret"))

friend-Wired : Wired ctx true request friend 100
unfolding encode_request encode_response blob response_to dispatch reply_of text is_inline
friend-Wired = record {
  one_response = refl;
  request_fits = record { json_fits = omega arith; audio_fits = omega arith };
  request_room = omega arith;
  response_fits = omega arith;
  response_room = omega arith;
  answers = ap (sends ctx true 100) (sym (send_recv-outgoing request friend (omega arith)));
}

-- A platform with the token in its environment.
abbrev pub platform : Platform
platform = record {
  Name = Text;
  runtime_dir = none;
  uid = 1000;
  join = λ dir name. dir ++ text "/" ++ name;
  to_fs_name = λ path. good path;
  is_supported = true;
  to_ns_name = λ name. good name;
  token = some (text "secret");
}

abbrev pub serve_args : ServeArgs
serve_args = record {
  tts_dir = some (text "model");
  cpu = true;
  holds = 600000;
  network = some 8080;
  relay = none;
  quiet = false;
  parallel = 1;
  batch_window = 300;
}

abbrev pub no_relay : Text → Result Api
no_relay url = err (msg (text "no relay"))

abbrev pub config : Config
config = configured platform serve_args none

network-delivers_example :
    finish_single (env friend) request friend
    ≡ deliver (env friend) (response_to ctx (arrived request))
unfolding connect send_token write_token write_u32_le write_all encode_token blob text from_utf8
    configure configured token_from_env or_default
network-delivers_example =
    network-delivers no_relay platform serve_args config ctx (text "host:1")
      (unopened (behind (text "secret"))) friend (env friend) request 100 refl refl refl
      (omega arith) refl refl refl friend-Wired

configure-Modes_example :
    Modes platform serve_args config (on_tcp (text "0.0.0.0:" ++ decimal 8080))
unfolding configure listen
configure-Modes_example =
    configure-Modes no_relay platform serve_args none config
      (on_tcp (text "0.0.0.0:" ++ decimal 8080)) refl refl

abbrev pub world : World
world = record {
  connected = ok friend;
  json = json;
  client = λ out. env friend;
  served = λ args socket. err (msg (text "binding local socket"));
  worked = λ args. ok tt;
  chain_text = λ e. text "error";
}

abbrev pub command_line : Cli
command_line = record {
  url = none;
  socket = none;
  status = false;
  command = some (serve serve_args);
}

main-IsCode_example : IsCode (main world command_line)
main-IsCode_example = main-IsCode world command_line

abbrev stranger : Conn
stranger = opened (text "guess!") (behind (text "guess!"))
