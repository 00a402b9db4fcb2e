-- ===== src/Examples/Server.antt =====
-- The queue, a dispatch, and an upstream stream.
use mii_sound.Common.{
  ℕ, suc, ◌≡◌, refl, arith, text, decimal, List, [], ◌∷◌, ◌++◌, none, some, length, take, drop,
  replicate, false, length-replicate,
}
use mii_sound.Io.{ok, msg}
use mii_sound.Proto.{st_ok, max_batch, Response}
use mii_sound.Proto.Wire.{
  encode_all, encode_batch_item, blob, encode_batch_request, encode_batch_response,
}
use mii_sound.Client.Wav.{wav_header}
use mii_sound.Server.Engine.{BatchKey, PendingItem, RunningWorker, Engine, new}
use mii_sound.Server.Engine.Queue.{next_batch, grace_window, drain_matching, concat}
use mii_sound.Server.Engine.Drain.{matching, Round, next_batch-Drained}
use mii_sound.Server.Engine.Fairness.{next_batch-conserves}
use mii_sound.Server.Engine.Dispatch.{Env, answer_all, pipe_error, dispatch_batch}
use mii_sound.Server.Engine.Serving.{dispatch_batch-oversize}
use mii_sound.Server.Engine.Exchanged.{Exchanged, dispatch_batch-Exchanged}
use mii_sound.Server.Relay.WavStream.{relay_wav_stream}
use mii_sound.Server.Relay.Chunks.{concat_chunks, chunks}
use mii_sound.Server.Relay.Translate.{
  Translation, relay_wav_stream-translates, parse_wav_sample_rate-wav_header,
}

abbrev fast : BatchKey
fast = record { cfg_bits = 0x40000000; steps = 10 }

abbrev slow : BatchKey
slow = record { cfg_bits = 0x40000000; steps = 30 }

abbrev item : BatchKey → ℕ → PendingItem
item key ticket = record { json = text "{}"; audio = none; key = key; ticket = ticket }

abbrev waiting : List PendingItem
waiting = item slow 2 ∷ item fast 3 ∷ []

abbrev window : List (List PendingItem)
window = (item fast 4 ∷ item slow 5 ∷ []) ∷ (item fast 6 ∷ []) ∷ []

next_batch-Drained_example : Round 3 (item fast 1) waiting window
next_batch-Drained_example = next_batch-Drained 3 (item fast 1) waiting window (omega arith)

next_batch-conserves_example :
    matching fast (
      (item fast 1 ∷ item fast 3 ∷ item fast 4 ∷ [])
      ++ (item slow 2 ∷ item slow 5 ∷ item fast 6 ∷ []))
    ≡ matching fast ((item fast 1 ∷ waiting) ++ concat window)
unfolding next_batch grace_window drain_matching
next_batch-conserves_example =
    next_batch-conserves 3 (item fast 1 ∷ waiting) window
      (item fast 1 ∷ item fast 3 ∷ item fast 4 ∷ []) (item slow 2 ∷ item slow 5 ∷ item fast 6 ∷ [])
      (omega arith) refl fast

abbrev resps : List Response
resps =
    record { status = st_ok; payload = 1 ∷ [] } ∷ record { status = st_ok; payload = 2 ∷ [] } ∷ []

abbrev batch : List PendingItem
batch = item fast 1 ∷ item fast 3 ∷ []

abbrev worker : RunningWorker
worker = record {
  pid = 77;
  stdin = record { sent = []; room = 1000 };
  stdout = encode_batch_response resps ++ [];
  exited = none;
  last_used = 0;
}

abbrev engine : Engine
engine = record (new 60000 3 0) { worker = some worker; queue = waiting }

abbrev env : Env
env = record {
  now = 500;
  child = ok (record { pid = some 78; stdin = worker.stdin; stdout = 0 ∷ []; exited = none });
  gone = λ t. false;
  fault_text = λ f. text "fault";
}

dispatch_batch-Exchanged_example :
    Exchanged env.gone env.now batch resps [] worker engine (dispatch_batch env batch engine)
unfolding encode_batch_request encode_all encode_batch_item blob text
dispatch_batch-Exchanged_example =
    dispatch_batch-Exchanged env batch engine worker resps [] refl (record {
      alive = refl;
      few = omega arith;
      takes = omega arith;
      writes = refl;
      few_back = omega arith;
      fit_back = (omega arith, (omega arith, tt));
    })

abbrev crowd : List PendingItem
crowd = replicate (suc max_batch) (item fast 1)

dispatch_batch-oversize_example : dispatch_batch env crowd engine ≡ record engine {
  worker = none;
  replies =
      engine.replies
      ++ answer_all
          (pipe_error env (msg (text "batch too large: " ++ decimal (length crowd))))
          crowd;
}
dispatch_batch-oversize_example =
    dispatch_batch-oversize env crowd engine worker refl refl
      (omega (arith, length-replicate (suc max_batch) (item fast 1)))

abbrev upstream_header : List ℕ
upstream_header = wav_header 24000 100

relay_wav_stream-translates_example :
    Translation
      (1 ∷ 2 ∷ 3 ∷ 4 ∷ 5 ∷ [])
      []
      (relay_wav_stream (
        chunks (
          take 10 upstream_header
          ∷ []
          ∷ (drop 10 upstream_header ++ 1 ∷ [])
          ∷ (2 ∷ 3 ∷ 4 ∷ 5 ∷ [])
          ∷ [])))
      24000
unfolding wav_header concat_chunks
relay_wav_stream-translates_example =
    relay_wav_stream-translates upstream_header (1 ∷ 2 ∷ 3 ∷ 4 ∷ 5 ∷ []) 24000
      (take 10 upstream_header
        ∷ []
        ∷ (drop 10 upstream_header ++ 1 ∷ [])
        ∷ (2 ∷ 3 ∷ 4 ∷ 5 ∷ [])
        ∷ [])
      [] refl (parse_wav_sample_rate-wav_header 24000 100 (omega arith)) refl
