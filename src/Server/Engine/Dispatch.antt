-- ===== src/Server/Engine/Dispatch.antt =====
-- `dispatch_batch` of src/server/tts.rs: one batch goes to the worker and comes back.
use mii_sound.Common.{
  ℕ, Text, text, Bool, true, ◌&&◌, List, [], ◌∷◌, ◌++◌, none, some, ◌==◌, bytes_eq, if◌then◌else◌,
  map,
}
use mii_sound.Common.Utf8.{from_utf8_lossy}
use mii_sound.Io.{Result, ok, err, Error, Fault, display, msg_of}
use mii_sound.Proto.{st_ok, st_model_missing, st_generation_failed, BatchItem, Response}
use mii_sound.Proto.Read.{read_batch_response}
use mii_sound.Proto.Write.{write_batch_request}
use mii_sound.Server.Engine.{
  PendingItem, Engine, RunningWorker, Child, TtsResult, done, model_missing, cancelled, failed,
  ensure_worker,
}
use mii_sound.Server.Engine.Queue.{requeue_front}

-- What a dispatch meets: the time, the process that would be started, which clients drop their
-- connection while the worker is busy, and how the libraries' faults read.
pub record Env : Type 0 where
  pub now : ℕ
  pub child : Result Child
  pub gone : ℕ → Bool
  pub fault_text : Fault → Text

abbrev pub wire_item : PendingItem → BatchItem
wire_item p = record { json = p.json; audio = p.audio }

-- The result that a response stands for.
unfoldable pub result_of : Response → TtsResult
result_of resp =
    if resp.status == st_ok
    then done resp.payload
    else if resp.status == st_model_missing
    then model_missing (from_utf8_lossy resp.payload)
    else if resp.status == st_generation_failed && bytes_eq resp.payload (text "cancelled")
    then cancelled
    else failed (from_utf8_lossy resp.payload)

-- `for item in batch { item.response_tx.send(result) }`
unfoldable pub answer_all : TtsResult → List PendingItem → List (ℕ × TtsResult)
answer_all r [] = []
answer_all r (item ∷ batch) = (item.ticket, r) ∷ answer_all r batch

-- `batch.into_iter().zip(resps)`. An item with no response drops its channel, which `generate`
-- turns into an error; responses with no item are dropped.
unfoldable pub answer_each : List PendingItem → List Response → List (ℕ × TtsResult)
answer_each [] resps = []
answer_each (item ∷ batch) [] =
    (item.ticket, failed (text "dispatcher dropped request")) ∷ answer_each batch []
answer_each (item ∷ batch) (resp ∷ resps) = (item.ticket, result_of resp) ∷ answer_each batch resps

-- The watchers count the clients that are gone; the last one of all sends the signal.
unfoldable pub all_gone : (ℕ → Bool) → List PendingItem → Bool
all_gone gone [] = true
all_gone gone (item ∷ batch) = gone item.ticket && all_gone gone batch

unfoldable pub cancel_signal : (ℕ → Bool) → List PendingItem → RunningWorker → List ℕ
cancel_signal gone batch w = if all_gone gone batch then w.pid ∷ [] else []

abbrev pub pipe_error : Env → Error → TtsResult
pipe_error env e = failed (display env.fault_text (msg_of (text "worker pipe error: ") e))

abbrev pub reply : List (ℕ × TtsResult) → Engine → Engine
reply rs e = record e { replies = e.replies ++ rs }

-- Behind the write of the batch.
unfoldable pub await_response : Env → List PendingItem → RunningWorker → Engine → Engine
await_response env batch w e =
    let signalled : Engine = record e { signals = e.signals ++ cancel_signal env.gone batch w } in
    elim (read_batch_response w.stdout) [
      | ok (resps, rest) ↦
          reply (answer_each batch resps)
            (record signalled { worker = some (record w { stdout = rest; last_used = env.now }) })
      | err x ↦ reply (answer_all (pipe_error env x) batch) (record signalled { worker = none })
    ]

-- Behind the crash check.
unfoldable pub exchange : Env → List PendingItem → RunningWorker → Engine → Engine
unfolding await_response
exchange env batch w e =
    let (r, stdin') = write_batch_request (map wire_item batch) w.stdin in
    elim r [
      | err x ↦ reply (answer_all (pipe_error env x) batch) (record e { worker = none })
      | ok _ ↦ await_response env batch (record w { stdin = stdin' }) e
    ]

unfoldable pub use_worker : Env → List PendingItem → RunningWorker → Engine → Engine
unfolding exchange
use_worker env batch w e = elim w.exited [
  | some _ ↦ record e { worker = none; queue = requeue_front batch e.queue }
  | none ↦ exchange env batch w e
]

unfoldable pub dispatch_batch : Env → List PendingItem → Engine → Engine
unfolding use_worker
dispatch_batch env batch e = elim (ensure_worker env.now env.child e.worker) [
  | err x ↦ reply (answer_all (model_missing (display env.fault_text x)) batch) e
  | ok w ↦ use_worker env batch w e
]
