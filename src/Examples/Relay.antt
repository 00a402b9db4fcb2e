-- ===== src/Examples/Relay.antt =====
-- A relay and its upstream.
use mii_sound.Common.{text, false, [], ◌∷◌, none, some}
use mii_sound.Io.{good}
use mii_sound.Proto.{op_tts_stream, TtsRequest, Request}
use mii_sound.Client.Wav.{wav_header}
use mii_sound.Server.Channel.{Sender}
use mii_sound.Server.Relay.WavStream.{chunk, broken}
use mii_sound.Server.Relay.Requests.{Api, success, failure, unexpected_status, tts_stream}
use mii_sound.Server.Relay.Finish as Finish
use mii_sound.Server.Relay.Finish.{tts_stream-Complete}
use mii_sound.Server.Connection.{Ctx}

-- An upstream that breaks off behind four samples.
abbrev pub api : Api
api = record {
  r_status = success (text "running\n");
  r_tts = λ q body. success (1 ∷ 2 ∷ []);
  r_tts_stream = λ q body. success (
      chunk (wav_header 24000 100)
      ∷ chunk (1 ∷ 2 ∷ 3 ∷ 4 ∷ 5 ∷ 6 ∷ 7 ∷ 8 ∷ [])
      ∷ broken (text "reset")
      ∷ []);
  r_tts_clone = λ q body. success (3 ∷ 4 ∷ []);
  r_tts_clone_stream = λ q body. failure (unexpected_status 503 (text "no model"));
  status_text = λ n. text "503 Service Unavailable";
  fixed4 = λ n. text "2.0000";
}

abbrev pub hello : TtsRequest
hello = record {
  text = text "hello";
  reference = none;
  continuation = none;
  cfg = 0x40000000;
  steps = 10;
  inline_reference = false;
}

abbrev receiver : Sender
receiver = record { taken = []; room = 8 }

tts_stream-Complete_example : Finish.Complete receiver (tts_stream api hello none receiver)
tts_stream-Complete_example = tts_stream-Complete api hello none receiver

abbrev pub ctx : Ctx
ctx = record {
  tts = none;
  relay = some api;
  expected_token = none;
  from_slice = λ json. good hello;
  waits = 8;
}

abbrev pub stream_request : Request
stream_request = record { op = op_tts_stream; json = text "{}"; audio = none }
