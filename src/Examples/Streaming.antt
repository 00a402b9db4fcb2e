-- ===== src/Examples/Streaming.antt =====
-- A stream from the worker to the client's file.
use mii_sound.Common.{
  ℕ, ◌-◌, ◌≡◌, refl, arith, text, true, false, List, [], ◌∷◌, ◌++◌, none, some, map, length, min,
  u32_max,
}
use mii_sound.Io.{ok}
use mii_sound.Proto.{op_tts_stream, Request}
use mii_sound.Proto.Wire.{encode_all, encode_request, encode_stream_frame, blob}
use mii_sound.Synth.{synth_stream_inner}
use mii_sound.Client.Wav.{pcm16}
use mii_sound.Client.Sink.{to_file, stream_exchange, finished}
use mii_sound.Client.Sink.Output.{pcm_of, at_end}
use mii_sound.Client.Sink.Streams.{wav_file}
use mii_sound.Worker.{handle_stream_request, samples_to_le_bytes}
use mii_sound.Server.Engine.{cancelled, RunningWorker, Engine, new}
use mii_sound.Server.Engine.Dispatch.{Env}
use mii_sound.Server.Engine.Stream.{never, stream_relay}
use mii_sound.Server.Connection.{Ctx, Local, channel}
use mii_sound.EndToEnd.{sends, fresh}
use mii_sound.EndToEnd.Streaming.{Setting, stream_exchange-generates}
use mii_sound.Examples.Worker.{libs, calm}

abbrev request : Request
request = record { op = op_tts_stream; json = 1 ∷ 2 ∷ []; audio = none }

abbrev worker : RunningWorker
worker = record {
  pid = 77;
  stdin = fresh 1000;
  stdout = encode_all encode_stream_frame (handle_stream_request libs calm false request).0 ++ [];
  exited = none;
  last_used = 0;
}

abbrev engine_state : Engine
engine_state = record (new 60000 3 0) { worker = some worker }

abbrev env : Env
env = record {
  now = 500;
  child = ok (record { pid = none; stdin = fresh 10; stdout = []; exited = none });
  gone = λ t. false;
  fault_text = λ f. text "fault";
}

abbrev engine : Local
engine = record {
  queued = λ json audio. cancelled;
  frames = λ json audio. (stream_relay env json audio never engine_state (channel 8)).1.taken;
}

abbrev ctx : Ctx
ctx = record {
  tts = some engine;
  relay = none;
  expected_token = none;
  from_slice = libs.from_slice;
  waits = 0;
}

-- The one chunk that the model gives.
abbrev samples : List (List ℕ)
samples = map (samples_to_le_bytes libs) ((1 ∷ 2 ∷ []) ∷ [])

setting : Setting libs calm env never engine_state worker ctx engine request (1 ∷ 2 ∷ []) [] 48000 8
unfolding encode_request blob synth_stream_inner samples_to_le_bytes
setting = record {
  streams = refl;
  request_fits = record { json_fits = omega arith; audio_fits = omega arith };
  alone = refl;
  has_engine = refl;
  relays = refl;
  parsed = _;
  server_parses = refl;
  worker_parses = refl;
  calm = refl;
  generates = refl;
  chunks_fit = (record { whole = refl; fits = omega arith }, tt);
  running = refl;
  alive = refl;
  stdin_room = omega arith;
  rest = [];
  writes = refl;
  unharmed = refl;
  channel_room = omega arith;
}

stream_exchange-generates_example :
    stream_exchange request
      (ok (to_file (at_end [] 200) 0 false 0))
      (sends ctx false 200 (encode_request request))
      (fresh 100)
    ≡ (
      (
        finished,
        some (
            to_file
              (record {
                content = wav_file 48000 samples;
                position = 44;
                room = 200 - 88 - length (pcm_of samples);
              })
              (min u32_max (length (pcm_of samples)))
              true
              48000),
      ),
      record { sent = encode_request request; room = 100 - length (encode_request request) },
    )
unfolding encode_request blob encode_all encode_stream_frame samples_to_le_bytes pcm_of pcm16
stream_exchange-generates_example =
    stream_exchange-generates libs calm env never engine_state worker ctx engine request
      (1 ∷ 2 ∷ []) [] 48000 8 setting (fresh 100) 200 200 (omega arith) (omega arith) (omega arith)
      (omega arith)
