-- ===== src/Examples/EndToEnd.antt =====
-- A client and a server on one connection.
use mii_sound.Common.{
  ℕ, ◌≡◌, refl, ap, sym, arith, text, Text, true, false, List, [], ◌∷◌, none, some, bytes_eq,
  is_blank,
}
use mii_sound.Io.{ok, good}
use mii_sound.Proto.{Request}
use mii_sound.Proto.Wire.{encode_request, encode_response, blob}
use mii_sound.Client.Session.{Conn, status_request}
use mii_sound.Client.Sink.{to_stdout}
use mii_sound.Client.Tts.{Json, UserReq, TtsArgs, Env, run, acquire, is_inline, any_visible}
use mii_sound.Client.Tts.Laws.{wire_of, audio_of, Rules}
use mii_sound.Server.Engine.{done}
use mii_sound.Server.Connection.{
  Ctx, Local, dispatch, dispatch_relay, reply_of, response_to, relay_reply, relayed_or_cancelled,
}
use mii_sound.EndToEnd.{fresh, sends, Wired, send_recv-outgoing}
use mii_sound.Exit
use mii_sound.EndToEnd.Status.{answered as served}
use mii_sound.EndToEnd.Speech.{Sent, spoken, request_of, run-speaks, run-relays, asked, tts-asked}
use mii_sound.Server.Relay.Requests.{mapped, tts, tts_plain, needs_clone}
use mii_sound.Proto.Blobs.{received}
use mii_sound.Examples.Relay.{api}

abbrev pub wav : List ℕ
wav = 82 ∷ 73 ∷ 70 ∷ 70 ∷ []

abbrev pub engine : Local
engine = record { queued = λ json audio. done wav; frames = λ json audio. [] }

-- The request of every JSON here.
abbrev user : UserReq
user = record { text = text "hi"; reference = none; continuation = none }

abbrev args : TtsArgs
args = record {
  json = some (text "{}");
  voice_clone = false;
  cfg = 0x40000000;
  steps = 10;
  stream = false;
}

abbrev pub json : Json
json = record {
  Value = Text;
  from_str = λ s. good s;
  first_value = λ raw. none;
  from_value = λ v. good user;
  to_vec = λ wire. good (text "{}");
}

abbrev pub ctx : Ctx
ctx = record {
  tts = some engine;
  relay = none;
  expected_token = some (text "secret");
  from_slice = λ bytes. good (wire_of args user);
  waits = 1;
}

abbrev pub request : Request
request = request_of user [] (text "{}")

-- A client's end of a connection on which the server has read the request and has room.
abbrev answered : Ctx → Request → Conn
answered ctx req = record {
  incoming = sends ctx false 100 (encode_request req);
  outgoing = fresh 100;
}

abbrev status_conn : Conn
status_conn = answered ctx status_request

-- The connection of `mii-sound tts`, to a server and to a relay.
abbrev tts_conn : Ctx → Conn
tts_conn c = answered c request

tts-Wired : Wired ctx false request (tts_conn ctx) 100
unfolding encode_request encode_response blob response_to dispatch reply_of text is_inline
tts-Wired = record {
  one_response = refl;
  request_fits = record { json_fits = omega arith; audio_fits = omega arith };
  request_room = omega arith;
  response_fits = omega arith;
  response_room = omega arith;
  answers =
      ap (sends ctx false 100) (sym (send_recv-outgoing request (tts_conn ctx) (omega arith)));
}

abbrev pub env : Conn → Env
env conn = record {
  stdin = ok [];
  connected = ok conn;
  sink = ok (to_stdout (fresh 100) false);
  out_path = none;
  output = fresh 100;
  fault_text = λ f. text "fault";
}

user-Rules : Rules args user []
unfolding is_inline is_blank text any_visible
user-Rules = record { speaks = refl; clones = refl; carries = λ h. absurd (cc h); ends = λ h. refl }

tts-Sent : Sent json args (env (tts_conn ctx)) ctx user [] (text "{}") wav (tts_conn ctx) 100
unfolding acquire
tts-Sent = record {
  value = text "{}";
  acquired = refl;
  shaped = refl;
  rules = user-Rules;
  serialized = refl;
  deserialized = refl;
  connected = refl;
  unused = refl;
  single = refl;
  wired = tts-Wired;
  output_room = omega arith;
}

run-speaks_example : run json args (env (tts_conn ctx)) ≡ spoken (env (tts_conn ctx)) wav
run-speaks_example =
    run-speaks json args (env (tts_conn ctx)) ctx user [] (text "{}") wav (tts_conn ctx) 100
      tts-Sent engine refl refl refl

-- The same with a relay in place of the model.
abbrev relay_ctx : Ctx
relay_ctx = record ctx { tts = none; relay = some api }

relay-Wired : Wired relay_ctx false request (tts_conn relay_ctx) 100
unfolding encode_request encode_response blob response_to dispatch_relay relay_reply
    relayed_or_cancelled tts tts_plain needs_clone text is_inline
relay-Wired = record {
  one_response = refl;
  request_fits = record { json_fits = omega arith; audio_fits = omega arith };
  request_room = omega arith;
  response_fits = omega arith;
  response_room = omega arith;
  answers =
      ap (sends relay_ctx false 100)
        (sym (send_recv-outgoing request (tts_conn relay_ctx) (omega arith)));
}

relay-Sent :
    Sent json args
      (env (tts_conn relay_ctx))
      relay_ctx
      user
      []
      (text "{}")
      (1 ∷ 2 ∷ [])
      (tts_conn relay_ctx)
      100
unfolding acquire
relay-Sent = record {
  value = text "{}";
  acquired = refl;
  shaped = refl;
  rules = user-Rules;
  serialized = refl;
  deserialized = refl;
  connected = refl;
  unused = refl;
  single = refl;
  wired = relay-Wired;
  output_room = omega arith;
}

run-relays_example :
    run json args (env (tts_conn relay_ctx)) ≡ spoken (env (tts_conn relay_ctx)) (1 ∷ 2 ∷ [])
unfolding asked
run-relays_example =
    run-relays json args (env (tts_conn relay_ctx)) relay_ctx user [] (text "{}") (1 ∷ 2 ∷ [])
      (tts_conn relay_ctx) 100 relay-Sent api 0 refl refl refl

-- A user that has the voice of a recording cloned.
abbrev cloning : UserReq
cloning = record { text = text "hi"; reference = some (text "<>"); continuation = none }

abbrev cloning_args : TtsArgs
cloning_args = record args { voice_clone = true }

cloning-Rules : Rules cloning_args cloning (82 ∷ [])
unfolding is_inline is_blank text bytes_eq
cloning-Rules = record {
  speaks = refl;
  clones = refl;
  carries = λ h. refl;
  ends = λ h. absurd (cc h);
}

tts-asked_example :
    tts api (wire_of cloning_args cloning) (received (audio_of cloning (82 ∷ [])))
    ≡ mapped api (asked api cloning_args cloning (82 ∷ []))
tts-asked_example = tts-asked api cloning_args cloning (82 ∷ []) cloning-Rules
