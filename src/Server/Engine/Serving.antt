-- ===== src/Server/Engine/Serving.antt =====
-- A dispatch to a worker in order, and of a batch that is too large.
use mii_sound.Common.{
  ℕ, ◌-◌, ◌≤◌, ◌<◌, ◌≡◌, refl, ap, ◌∙◌, arith, text, decimal, List, ◌++◌, Option, none, some,
  length, All, map, lt→ltb, length-map,
}
use mii_sound.Io.{Result, ok, err, Error, msg}
use mii_sound.Io.Write.{Writer, write_all_fits}
use mii_sound.Proto.{BatchItem, Response, max_batch}
use mii_sound.Proto.Read.{read_batch_response}
use mii_sound.Proto.Write.{write_batch_request}
use mii_sound.Proto.Wire.{encode_batch_request, encode_batch_response, write_batch_request-encode}
use mii_sound.Proto.RoundTrip.{ResponseFits, read_batch_response-encode}
use mii_sound.Server.Engine.{PendingItem, Engine, RunningWorker, ensure_worker, Child}
use mii_sound.Server.Engine.Dispatch.{
  Env, wire_item, answer_all, answer_each, cancel_signal, pipe_error, await_response, exchange,
  use_worker, dispatch_batch,
}

-- A worker that runs, and takes and answers a batch within the limits of the protocol.
pub record Serves (batch : List PendingItem) (resps : List Response) (rest : List ℕ)
    (w : RunningWorker) : Type 0 where
  pub alive : w.exited ≡ none
  pub few : length batch ≤ max_batch
  pub takes : length (encode_batch_request (map wire_item batch)) ≤ w.stdin.room
  pub writes : w.stdout ≡ encode_batch_response resps ++ rest
  pub few_back : length resps ≤ max_batch
  pub fit_back : All ResponseFits resps

await_response_ok :
    (env : Env) (batch : List PendingItem) (w : RunningWorker) (e : Engine) (resps : List Response)
    (rest : List ℕ)
    → read_batch_response w.stdout ≡ ok (resps, rest)
    → await_response env batch w e ≡ record e {
      worker = some (record w { stdout = rest; last_used = env.now });
      replies = e.replies ++ answer_each batch resps;
      signals = e.signals ++ cancel_signal env.gone batch w;
    }
unfolding await_response
await_response_ok env batch w e resps rest r = rw (r, await_response) refl

exchange_ok :
    (env : Env) (batch : List PendingItem) (w : RunningWorker) (e : Engine) (stdin' : Writer)
    → write_batch_request (map wire_item batch) w.stdin ≡ (ok tt, stdin')
    → exchange env batch w e ≡ await_response env batch (record w { stdin = stdin' }) e
unfolding exchange
exchange_ok env batch w e stdin' r = ground arith

exchange_err :
    (env : Env) (batch : List PendingItem) (w : RunningWorker) (e : Engine) (x : Error)
    (stdin' : Writer)
    → write_batch_request (map wire_item batch) w.stdin ≡ (err x, stdin')
    → exchange env batch w e
      ≡ record e { worker = none; replies = e.replies ++ answer_all (pipe_error env x) batch }
unfolding exchange
exchange_err env batch w e x stdin' r = ground arith

pub ensure_alive :
    (now : ℕ) (child : Result Child) (o : Option RunningWorker) (w : RunningWorker)
    → o ≡ some w
    → ensure_worker now child o ≡ ok w
unfolding ensure_worker
ensure_alive now child o w e = rw e refl

dispatch_with :
    (env : Env) (batch : List PendingItem) (w : RunningWorker) (e : Engine)
    → ensure_worker env.now env.child e.worker ≡ ok w
    → dispatch_batch env batch e ≡ use_worker env batch w e
unfolding dispatch_batch
dispatch_with env batch w e r = rw (r, dispatch_batch) refl

pub use_worker_alive :
    (env : Env) (batch : List PendingItem) (w : RunningWorker) (e : Engine)
    → w.exited ≡ none
    → use_worker env batch w e ≡ exchange env batch w e
unfolding use_worker
use_worker_alive env batch w e alive = ground arith

dispatch_alive :
    (env : Env) (batch : List PendingItem) (w : RunningWorker) (e : Engine)
    → e.worker ≡ some w
    → w.exited ≡ none
    → dispatch_batch env batch e ≡ exchange env batch w e
dispatch_alive env batch w e h alive =
    dispatch_with env batch w e (ensure_alive env.now env.child e.worker w h)
    ∙ use_worker_alive env batch w e alive

-- A worker in order gets the batch as one frame, and is kept: both pipes stand at a frame's
-- boundary, and its idle time starts again.
pub dispatch_batch-Serves :
    (env : Env) (batch : List PendingItem) (e : Engine) (w : RunningWorker) (resps : List Response)
    (rest : List ℕ)
    → e.worker ≡ some w
    → Serves batch resps rest w
    → dispatch_batch env batch e ≡ record e {
      worker = some (record w {
        stdin = record {
          sent = w.stdin.sent ++ encode_batch_request (map wire_item batch);
          room = w.stdin.room - length (encode_batch_request (map wire_item batch));
        };
        stdout = rest;
        last_used = env.now;
      });
      replies = e.replies ++ answer_each batch resps;
      signals = e.signals ++ cancel_signal env.gone batch w;
    }
unfolding cancel_signal
dispatch_batch-Serves env batch e w resps rest h s =
    dispatch_alive env batch w e h s.alive
    ∙ exchange_ok env batch w e _ (
        write_batch_request-encode (map wire_item batch)
          (omega (arith, s.few, length-map wire_item batch)) w.stdin
        ∙ write_all_fits (encode_batch_request (map wire_item batch)) w.stdin s.takes)
    ∙ await_response_ok env batch _ e resps rest (
        ap read_batch_response s.writes
        ∙ read_batch_response-encode resps rest s.few_back s.fit_back)

-- A batch of more items than the protocol allows fails as a whole, and a worker that is in order
-- is given up, though nothing was written to it.
pub dispatch_batch-oversize :
    (env : Env) (batch : List PendingItem) (e : Engine) (w : RunningWorker)
    → e.worker ≡ some w
    → w.exited ≡ none
    → max_batch < length batch
    → dispatch_batch env batch e ≡ record e {
      worker = none;
      replies =
          e.replies
          ++ answer_all
              (pipe_error env (msg (text "batch too large: " ++ decimal (length batch))))
              batch;
    }
dispatch_batch-oversize env batch e w h alive over =
    dispatch_alive env batch w e h alive
    ∙ exchange_err env batch w e _ _
        (refused (map wire_item batch) w.stdin (length-map wire_item batch))
  where
    refused :
        (items : List BatchItem) (out : Writer)
        → length items ≡ length batch
        → write_batch_request items out
          ≡ (err (msg (text "batch too large: " ++ decimal (length batch))), out)
    refused items out same =
        unfold write_batch_request in rw (lt→ltb max_batch (length items) (omega arith)) (rw same)
