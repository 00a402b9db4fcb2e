-- ===== src/Server/Engine.antt =====
-- src/server/tts.rs: the engine that owns the worker process and the queue of requests.
pub mod Queue
pub mod Drain
pub mod Fairness
pub mod Dispatch
pub mod Gone
pub mod Delivery
pub mod Serving
pub mod Exchanged
pub mod Stream
pub mod System
pub mod Promise
pub mod Paths
pub mod Wakeup
use mii_sound.Common.{
  ℕ, zero, suc, ◌-◌, Text, text, decimal, Bool, false, List, [], ◌∷◌, ◌++◌, Option, none, some, ltb,
  leb, ◌==◌, ◌&&◌, not, if◌then◌else◌, min, max, length,
}
use mii_sound.Io.{Result, ok, err, Error, msg, msg_of}
use mii_sound.Io.Read.{read_u8}
use mii_sound.Io.Write.{Writer}
use mii_sound.Proto.{TtsRequest}

pub data TtsResult : Type 0 where
  done : List ℕ → TtsResult
  model_missing : Text → TtsResult
  cancelled : TtsResult
  failed : Text → TtsResult

pub record BatchKey : Type 0 where
  pub cfg_bits : ℕ
  pub steps : ℕ

abbrev pub key_of : TtsRequest → BatchKey
key_of req = record { cfg_bits = req.cfg; steps = req.steps }

abbrev pub key_eq : BatchKey → BatchKey → Bool
key_eq j k = j.cfg_bits == k.cfg_bits && j.steps == k.steps

-- The ticket stands for the request's reply channel and for its cancellation notice.
pub record PendingItem : Type 0 where
  pub json : List ℕ
  pub audio : Option (List ℕ)
  pub key : BatchKey
  pub ticket : ℕ

-- A worker: its pipes as this side sees them, whether it has exited (with the text of its status),
-- and when it was last used, in nanoseconds.
pub record RunningWorker : Type 0 where
  pub pid : ℕ
  pub stdin : Writer
  pub stdout : List ℕ
  pub exited : Option Text
  pub last_used : ℕ

-- The state behind the engine's locks, the replies that were sent, and the processes that got a
-- cancel signal.
pub record Engine : Type 0 where
  pub ttl : ℕ
  pub parallel : ℕ
  pub batch_window : ℕ
  pub worker : Option RunningWorker
  pub queue : List PendingItem
  pub replies : List (ℕ × TtsResult)
  pub signals : List ℕ

abbrev pub default_batch_grace : ℕ
default_batch_grace = 300000000

-- `TtsEngine::new`, without the tasks that it starts.
unfoldable pub new : (ttl parallel batch_window : ℕ) → Engine
new ttl parallel batch_window = record {
  ttl = ttl;
  parallel = max parallel 1;
  batch_window = if batch_window == 0 then default_batch_grace else batch_window;
  worker = none;
  queue = [];
  replies = [];
  signals = [];
}

-- A process that was started: it may have no pid, and its stdout begins with the ready byte.
pub record Child : Type 0 where
  pub pid : Option ℕ
  pub stdin : Writer
  pub stdout : List ℕ
  pub exited : Option Text

-- The start of the process in `spawn_worker`: what `current_exe()` and `cmd.spawn()` give.
unfoldable pub launch : (exe : Result Text) (spawned : Result Child) → Result Child
launch (err _) spawned = err (msg (text "locating mii-sound binary"))
launch (ok _) (err _) = err (msg (text "spawning tts worker process"))
launch (ok _) (ok child) = ok child

-- `spawn_worker` behind the start of the process, which is what `launch` gives, at the time `now`.
unfoldable pub spawn_worker : ℕ → Result Child → Result RunningWorker
spawn_worker now started = elim started [
  | err e ↦ err e
  | ok child ↦ elim child.pid [
    | none ↦ err (msg (text "worker child has no pid"))
    | some pid ↦ elim (read_u8 child.stdout) [
      | err e ↦ err (msg_of (text "worker did not become ready: ") e)
      | ok (ready, rest) ↦
          if ready == 0
          then ok (record {
            pid = pid;
            stdin = child.stdin;
            stdout = rest;
            exited = child.exited;
            last_used = now;
          })
          else err (msg (text "worker sent unexpected ready byte: " ++ decimal ready))
    ]
  ]
]

-- The lock's guard holds a worker: the one that runs, or a new one.
unfoldable pub ensure_worker : ℕ → Result Child → Option RunningWorker → Result RunningWorker
unfolding spawn_worker
ensure_worker now started (some w) = ok w
ensure_worker now started none = spawn_worker now started

-- The eviction task: how often it looks, and what it does each time. Without a `ttl` there is none.
unfoldable pub eviction_tick : Engine → ℕ
eviction_tick e = max (min e.ttl 10000000000) 1000000000

should_evict : ℕ → ℕ → Option RunningWorker → Bool
should_evict now ttl none = false
should_evict now ttl (some w) = leb ttl (now - w.last_used)

unfoldable pub evict : ℕ → Engine → Engine
unfolding should_evict
evict now e =
    if not (e.ttl == 0) && should_evict now e.ttl e.worker then record e { worker = none } else e
