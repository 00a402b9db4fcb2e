-- ===== src/Examples/Worker.antt =====
-- A model that speaks the bytes of the text, and streams of its worker.
use mii_sound.Common.{
  ℕ, ◌-◌, ◌≡◌, refl, arith, text, true, false, List, [], ◌∷◌, ◌++◌, none, some, length, map,
  replicate, Each,
}
use mii_sound.Io.{good, ok}
use mii_sound.Io.Write.{Writer}
use mii_sound.Proto.{
  op_tts_stream, st_generation_failed, kind_chunk, kind_end, BatchItem, Request, StreamFrame,
}
use mii_sound.Proto.Wire.{
  blob, encode_all, encode_request, encode_batch_request, encode_response, encode_batch_response,
  encode_stream_frame,
}
use mii_sound.Synth.{
  Vox, vox_ok, wav_of, prompt_audio, prompt_of, build_prompt, batch_prompts, run_prompts,
  synth_batch_inner,
}
use mii_sound.Worker.{
  Env, Libs, error_response, response_of, parse_items, spawn_blocking, batch_responses,
  synthesize_items, handle_batch_request, serve_loop, panic_message,
}
use mii_sound.Worker.Panic.{Broken, answers-Broken}
use mii_sound.Worker.Pipe.{BatchFits, answers, serve_loop-batches}
use mathlib.Core.Logic.{◌↔◌}
use mii_sound.Worker.Slot.{
  Event, begins, ends, arrives, received, looks, empty_slot, on_events, Happens,
}
use mii_sound.Worker.Slot.Caused.{Caused, Cancelled}
use mii_sound.Worker.Slot.Reach.{on_events-Caused}
use mii_sound.Server.Channel.{Sender}
use mii_sound.Server.Engine as Engine
use mii_sound.Server.Engine.{PendingItem, RunningWorker}
use mii_sound.Server.Engine.Dispatch as Dispatch
use mii_sound.Server.Engine.Dispatch.{wire_item}
use mii_sound.Server.Engine.Stream.{behind, terminal, stream_relay}
use mii_sound.Server.Engine.Stream.Sync.{reaches, send_all, with_request, stream_relay-forwards}

abbrev speller : Vox
speller = record {
  PromptAudio = List ℕ;
  Prompt = List ℕ;
  encoded = λ bytes. bytes;
  from_path = λ path. path;
  reference = λ a. a;
  continuation = λ a t. a ++ t;
  default_prompt = [];
  sample_rate = 48000;
  generate = λ t opts. vox_ok t;
  generate_stream = λ t opts. vox_ok (vox_ok t ∷ []);
  run_batch = λ prompts opts. vox_ok (map (λ p. p.0) prompts);
  encode_wav = λ samples rate. good samples;
}

abbrev pub libs : Libs
libs = record {
  vox = speller;
  vox_text = λ e. text "error";
  from_slice = λ json. good (record {
    text = json;
    reference = none;
    continuation = none;
    cfg = 0x40000000;
    steps = 10;
    inline_reference = false;
  });
  panic_text = text "task panicked";
}

abbrev pub calm : Env
calm = record { signalled = false; panics = false; panic_chunks = [] }

abbrev items : List BatchItem
items = record { json = 1 ∷ 2 ∷ []; audio = none } ∷ record { json = 3 ∷ []; audio = none } ∷ []

items-BatchFits : BatchFits items
items-BatchFits = record {
  few = omega arith;
  fit = (
    record { json_fits = omega arith; audio_fits = omega arith },
    (record { json_fits = omega arith; audio_fits = omega arith }, tt),
  );
}

abbrev pipe : Writer
pipe = record { sent = []; room = 1000 }

serve_loop-batches_example :
    serve_loop libs
      (calm ∷ calm ∷ [])
      false
      (encode_all encode_batch_request (items ∷ items ∷ []))
      pipe
    ≡ (
      [],
      record {
        sent =
            pipe.sent
            ++ encode_all encode_batch_response
                (answers libs (calm ∷ calm ∷ []) false (items ∷ items ∷ []));
        room =
            pipe.room
            - length (
                encode_all encode_batch_response
                  (answers libs (calm ∷ calm ∷ []) false (items ∷ items ∷ [])));
      },
    )
unfolding answers handle_batch_request parse_items synthesize_items spawn_blocking batch_responses
    synth_batch_inner batch_prompts build_prompt prompt_audio prompt_of run_prompts wav_of
    response_of encode_all encode_batch_response encode_response blob
serve_loop-batches_example =
    serve_loop-batches libs (calm ∷ calm ∷ []) false (items ∷ items ∷ []) pipe refl
      (items-BatchFits, (items-BatchFits, tt)) (omega arith)

abbrev batch : List PendingItem
batch =
    record { json = 1 ∷ 2 ∷ []; audio = none; key = record { cfg_bits = 1; steps = 2 }; ticket = 1 }
    ∷ record { json = 3 ∷ []; audio = none; key = record { cfg_bits = 1; steps = 2 }; ticket = 2 }
    ∷ []

abbrev worker : RunningWorker
worker = record {
  pid = 77;
  stdin = record { sent = []; room = 1000 };
  stdout =
      (serve_loop libs (calm ∷ []) false
        (encode_all encode_batch_request (map wire_item batch ∷ [])) pipe).1.sent;
  exited = none;
  last_used = 0;
}

-- The model panics at the first batch; the second would be spoken.
abbrev panicking : Env
panicking = record calm { panics = true }

answers-Broken_example :
    (answers libs (panicking ∷ calm ∷ []) false (items ∷ items ∷ [])
      ≡ replicate (length items) (error_response st_generation_failed (panic_message libs))
        ∷ answers libs (calm ∷ []) true (items ∷ []))
    × Each (Broken libs) (items ∷ []) (answers libs (calm ∷ []) true (items ∷ []))
unfolding parse_items
answers-Broken_example =
    answers-Broken libs panicking (calm ∷ []) false (record { json = 1 ∷ 2 ∷ []; audio = none })
      (record { json = 3 ∷ []; audio = none } ∷ []) (items ∷ []) _ refl refl refl

abbrev stream_request : Request
stream_request = record { op = op_tts_stream; json = 1 ∷ 2 ∷ []; audio = none }

-- A signal for request 1 that arrives behind its end, and cancels request 2, which has begun when
-- the handler looks.
abbrev late : List Event
late = begins 1 ∷ ends ∷ arrives ∷ received ∷ begins 2 ∷ looks ∷ ends ∷ []

on_events-Caused_example : Caused late 2 ↔ Cancelled (on_events late empty_slot).cancelled 2
unfolding Happens
on_events-Caused_example =
    on_events-Caused late 2 (refl, (refl, (refl, (refl, (refl, (refl, (refl, tt)))))))

abbrev chunk_frame : StreamFrame
chunk_frame = record { kind = kind_chunk; payload = 1 ∷ 2 ∷ 3 ∷ 4 ∷ [] }

abbrev last_frame : StreamFrame
last_frame = record { kind = kind_end; payload = [] }

abbrev streamer : RunningWorker
streamer = record worker {
  stdout =
      encode_all encode_stream_frame (chunk_frame ∷ [])
      ++ (encode_stream_frame last_frame ++ 9 ∷ []);
}

abbrev engine : Engine.Engine
engine = record (Engine.new 60000 3 0) { worker = some streamer }

abbrev env : Dispatch.Env
env = record {
  now = 500;
  child = ok (record { pid = none; stdin = pipe; stdout = []; exited = none });
  gone = λ t. false;
  fault_text = λ f. text "fault";
}

-- A client that takes one frame, and drops its connection behind it.
abbrev client : Sender
client = record { taken = []; room = 1 }

stream_relay-forwards_example : stream_relay env (1 ∷ 2 ∷ []) none (behind 1 0) engine client ≡ (
  record engine {
    worker = some (record streamer {
      stdin = with_request stream_request streamer.stdin;
      stdout = 9 ∷ [];
      last_used = env.now;
    });
    signals = engine.signals ++ streamer.pid ∷ [];
  },
  send_all (chunk_frame ∷ last_frame ∷ []) client,
)
unfolding reaches encode_request blob terminal
stream_relay-forwards_example =
    stream_relay-forwards env last_frame (omega arith) refl (9 ∷ []) (1 ∷ 2 ∷ []) none (behind 1 0)
      engine streamer client (chunk_frame ∷ []) refl refl (omega arith) refl
      (record { fits = omega arith; goes_on = refl }, tt) refl
