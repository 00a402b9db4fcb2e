-- ===== src/Server/Engine/Delivery.antt =====
-- What `dispatch_batch` of src/server/tts.rs does to the items of its batch, and to the worker.
use mii_sound.Common.{ℕ, ◌≡◌, refl, ap, List, [], ◌∷◌, ◌++◌, none, Option-cases, inl, inr, ◌⊎◌, map}
use mii_sound.Io.{Result-cases}
use mii_sound.Proto.{Response}
use mii_sound.Proto.Read.{read_batch_response}
use mii_sound.Proto.Write.{write_batch_request}
use mii_sound.Server.Engine.{
  PendingItem, Engine, RunningWorker, TtsResult, model_missing, ensure_worker,
}
use mii_sound.Server.Engine.Fairness.{requeue_front_lem}
use mii_sound.Server.Engine.Dispatch.{
  reply, Env, wire_item, answer_all, answer_each, pipe_error, await_response, exchange, use_worker,
  dispatch_batch,
}

abbrev pub tickets : List PendingItem → List ℕ
tickets = map (λ p. p.ticket)

abbrev pub answered : List (ℕ × TtsResult) → List ℕ
answered = map (λ r. r.0)

answered-answer_all :
    (r : TtsResult) (batch : List PendingItem) → answered (answer_all r batch) ≡ tickets batch
unfolding answer_all
answered-answer_all r [] = refl
answered-answer_all r (p ∷ batch) = ap (◌∷◌ p.ticket) (answered-answer_all r batch)

answered-answer_each :
    (batch : List PendingItem) (resps : List Response)
    → answered (answer_each batch resps) ≡ tickets batch
unfolding answer_each
answered-answer_each [] resps = refl
answered-answer_each (p ∷ batch) [] = ap (◌∷◌ p.ticket) (answered-answer_each batch [])
answered-answer_each (p ∷ batch) (r ∷ resps) = ap (◌∷◌ p.ticket) (answered-answer_each batch resps)

-- Every item of the batch has one reply more, in order; the queue and the limit are as they were.
pub record Answered (batch : List PendingItem) (before after : Engine) : Type 0 where
  pub new : List (ℕ × TtsResult)
  pub replied : after.replies ≡ before.replies ++ new
  pub each_once : answered new ≡ tickets batch
  pub queue_kept : after.queue ≡ before.queue
  pub limit_kept : after.parallel ≡ before.parallel

-- The batch is back at the front of the queue, nobody was answered, and the worker is given up.
pub record Requeued (batch : List PendingItem) (before after : Engine) : Type 0 where
  pub front : after.queue ≡ batch ++ before.queue
  pub silent : after.replies ≡ before.replies
  pub dropped : after.worker ≡ none
  pub same_limit : after.parallel ≡ before.parallel

pub reply-Answered :
    (r : TtsResult) (batch : List PendingItem) (e : Engine)
    → Answered batch e (reply (answer_all r batch) e)
reply-Answered r batch e = record {
  new = answer_all r batch;
  replied = refl;
  each_once = answered-answer_all r batch;
  queue_kept = refl;
  limit_kept = refl;
}

await_response-Answered :
    (env : Env) (batch : List PendingItem) (w : RunningWorker) (e : Engine)
    → Answered batch e (await_response env batch w e)
unfolding await_response
await_response-Answered env batch w e = elim (Result-cases (read_batch_response w.stdout)) [
  | inl ((resps, rest), r) ↦
      rw (r, await_response)
        (record {
          new = answer_each batch resps;
          replied = refl;
          each_once = answered-answer_each batch resps;
          queue_kept = refl;
          limit_kept = refl;
        })
  | inr (x, r) ↦
      rw (r, await_response)
        (record {
          new = answer_all (pipe_error env x) batch;
          replied = refl;
          each_once = answered-answer_all _ batch;
          queue_kept = refl;
          limit_kept = refl;
        })
]

pub exchange-Answered :
    (env : Env) (batch : List PendingItem) (w : RunningWorker) (e : Engine)
    → Answered batch e (exchange env batch w e)
unfolding exchange
exchange-Answered env batch w e =
    elim (Result-cases (write_batch_request (map wire_item batch) w.stdin).0) [
      | inl (_, r) ↦
          rw (r, exchange)
            (await_response-Answered env batch
              (record w { stdin = (write_batch_request (map wire_item batch) w.stdin).1 }) e)
      | inr (x, r) ↦
          rw (r, exchange)
            (record {
              new = answer_all (pipe_error env x) batch;
              replied = refl;
              each_once = answered-answer_all _ batch;
              queue_kept = refl;
              limit_kept = refl;
            })
    ]

use_worker_outcome :
    (env : Env) (batch : List PendingItem) (w : RunningWorker) (e : Engine)
    → Answered batch e (use_worker env batch w e) ⊎ Requeued batch e (use_worker env batch w e)
unfolding use_worker
use_worker_outcome env batch w e = elim (Option-cases w.exited) [
  | inl r ↦ rw (r, use_worker) (inl (exchange-Answered env batch w e))
  | inr (status, r) ↦
      rw (r, use_worker)
        (inr (record {
          front = requeue_front_lem batch e.queue;
          silent = refl;
          dropped = refl;
          same_limit = refl;
        }))
]

-- Whatever the worker does, no request of a batch is lost: each is answered once, in order, or
-- all of them wait again at the front of the queue, unanswered, for a new worker.
pub dispatch_batch_outcome :
    (env : Env) (batch : List PendingItem) (e : Engine)
    → Answered batch e (dispatch_batch env batch e) ⊎ Requeued batch e (dispatch_batch env batch e)
unfolding dispatch_batch
dispatch_batch_outcome env batch e =
    elim (Result-cases (ensure_worker env.now env.child e.worker)) [
      | inl (w, r) ↦ rw (r, dispatch_batch) (use_worker_outcome env batch w e)
      | inr (x, r) ↦ rw (r, dispatch_batch) (inl (reply-Answered (model_missing _) batch e))
    ]
