-- ===== src/Server/Engine/Wakeup.antt =====
-- The wake-ups of src/server/tts.rs: the notice that handlers leave behind a request, and the
-- phases of `dispatcher_loop` in which the dispatcher looks for one, sleeps, or collects.
pub mod Kept
pub mod Progress
use mii_sound.Common.{
  ℕ, suc, ◌≡◌, ◌≢◌, Bool, List, [], ◌∷◌, ◌++◌, Option, none, some, count, if◌then◌else◌, ltb,
  length,
}
use mii_sound.Io.{Result, ok, err, Parsed, good, bad}
use mii_sound.Proto.{TtsRequest}
use mii_sound.Server.Channel.{Sender}
use mii_sound.Server.Engine.{PendingItem, Engine, RunningWorker, ensure_worker, evict}
use mii_sound.Server.Engine.Queue.{drain_matching}
use mii_sound.Server.Engine.Dispatch.{Env, dispatch_batch}
use mii_sound.Server.Engine.Stream.{Cancel, stream_relay}
use mii_sound.Server.Engine.System as System
use mii_sound.Server.Engine.System.{System, generate, exits, writes}

-- `tokio::sync::Notify` with one task that waits: `notified` looks whether the wait is over.
pub record Notify : Type 1 where
  pub Permit : Type 0
  pub fresh : Permit
  pub notify_one : Permit → Permit
  pub notified : Permit → Option Permit
  -- A notice that comes before the wait is kept for it.
  pub kept_for_wait : (p : Permit) → notified (notify_one p) ≢ none

-- Where `dispatcher_loop` stands: before it looks into the queue, in its sleep, before it drains
-- the queue into its batch, in the grace window, and before the dispatch.
pub data Phase : Type 0 where
  looking : Phase
  asleep : Phase
  draining : Phase
  in_window : Phase
  sending : Phase

-- Behind the first item, and behind a drain.
abbrev pub first_phase : (parallel : ℕ) → Phase
first_phase parallel = if ltb 1 parallel then draining else sending

abbrev pub window_phase : (parallel : ℕ) → List PendingItem → Phase
window_phase parallel batch = if ltb (length batch) parallel then in_window else sending

module _ (ntf : Notify) where
  open ntf use {Permit, fresh, notify_one, notified}

  -- `requeue_front` leaves a notice; a dispatch calls it if the worker was found dead.
  unfoldable pub requeue_notice : Env → Engine → Permit → Permit
  requeue_notice env e p = elim (ensure_worker env.now env.child e.worker) [
    | err _ ↦ p
    | ok w ↦ elim w.exited [ some _ ↦ notify_one p | none ↦ p ]
  ]

  -- The engine with its dispatcher's phase, the notice, and the number of handlers that have put
  -- their item into the queue and have not yet called `notify_one`.
  pub record Tasks : Type 0 where
    pub sys : System
    pub phase : Phase
    pub permit : Permit
    pub notifying : ℕ

  abbrev pub start_tasks : (ttl parallel batch_window : ℕ) → Tasks
  start_tasks ttl parallel batch_window = record {
    sys = System.init ttl parallel batch_window;
    phase = looking;
    permit = fresh;
    notifying = 0;
  }

  abbrev with_engine : Engine → System → System
  with_engine e s = record s { engine = e }

  abbrev submitted : (List ℕ → Parsed TtsRequest) → List ℕ → Option (List ℕ) → ℕ → System → System
  submitted from_slice json audio ticket s = record s {
    engine = generate from_slice json audio ticket s.engine;
    submitted = s.submitted ++ ticket ∷ [];
  }

  abbrev drained : PendingItem → System → List PendingItem × List PendingItem
  drained first s = drain_matching first.key s.engine.parallel s.in_hand s.engine.queue

  -- What the dispatcher does next.
  pub data Move (s : Tasks) : Tasks → Type 0 where
    take :
        (first : PendingItem) (q : List PendingItem)
        → s.phase ≡ looking
        → s.sys.engine.queue ≡ first ∷ q
        → Move s (record s {
          sys = record s.sys { engine = record s.sys.engine { queue = q }; in_hand = first ∷ [] };
          phase = first_phase s.sys.engine.parallel;
        })
    sleep : s.phase ≡ looking → s.sys.engine.queue ≡ [] → Move s (record s { phase = asleep })
    wake :
        (p : Permit)
        → s.phase ≡ asleep
        → notified s.permit ≡ some p
        → Move s (record s { phase = looking; permit = p })
    drain :
        (first : PendingItem) (rest : List PendingItem)
        → s.phase ≡ draining
        → s.sys.in_hand ≡ first ∷ rest
        → Move s (record s {
          sys = record s.sys {
            engine = record s.sys.engine { queue = (drained first s.sys).1 };
            in_hand = (drained first s.sys).0;
          };
          phase = window_phase s.sys.engine.parallel (drained first s.sys).0;
        })
    nudge :
        (p : Permit)
        → s.phase ≡ in_window
        → notified s.permit ≡ some p
        → Move s (record s { phase = draining; permit = p })
    deadline : s.phase ≡ in_window → Move s (record s { phase = sending })
    dispatch :
        (env : Env) (first : PendingItem) (rest : List PendingItem)
        → s.phase ≡ sending
        → s.sys.in_hand ≡ first ∷ rest
        → Move s (record s {
          sys = record s.sys {
            engine = dispatch_batch env s.sys.in_hand s.sys.engine;
            in_hand = [];
          };
          phase = looking;
          permit = requeue_notice env s.sys.engine s.permit;
        })

  -- What the other tasks do: handlers, streams, the eviction, and the worker process.
  pub data Event (s : Tasks) : Tasks → Type 0 where
    push :
        (from_slice : List ℕ → Parsed TtsRequest) (json : List ℕ) (audio : Option (List ℕ))
        (ticket : ℕ) (req : TtsRequest)
        → count ticket s.sys.submitted ≡ 0
        → from_slice json ≡ good req
        → Event s (record s {
          sys = submitted from_slice json audio ticket s.sys;
          notifying = suc s.notifying;
        })
    refuse :
        (from_slice : List ℕ → Parsed TtsRequest) (json : List ℕ) (audio : Option (List ℕ))
        (ticket : ℕ) (why : List ℕ)
        → count ticket s.sys.submitted ≡ 0
        → from_slice json ≡ bad why
        → Event s (record s { sys = submitted from_slice json audio ticket s.sys })
    notify :
        (n : ℕ)
        → s.notifying ≡ suc n
        → Event s (record s { permit = notify_one s.permit; notifying = n })
    stream :
        (env : Env) (json : List ℕ) (audio : Option (List ℕ)) (cancel : Cancel) (out : Sender)
        → Event s (record s {
          sys = with_engine (stream_relay env json audio cancel s.sys.engine out).0 s.sys;
        })
    unload : (now : ℕ) → Event s (record s { sys = with_engine (evict now s.sys.engine) s.sys })
    crash :
        (w : RunningWorker) (status : List ℕ)
        → s.sys.engine.worker ≡ some w
        → Event s (record s {
          sys = with_engine (record s.sys.engine { worker = some (exits status w) }) s.sys;
        })
    output :
        (w : RunningWorker) (bytes : List ℕ)
        → s.sys.engine.worker ≡ some w
        → Event s (record s {
          sys = with_engine (record s.sys.engine { worker = some (writes bytes w) }) s.sys;
        })

  -- The states that any order of both leads to.
  pub data Reach (ttl parallel batch_window : ℕ) : Tasks → Type 0 where
    start : Reach ttl parallel batch_window (start_tasks ttl parallel batch_window)
    moved :
        {s t : Tasks}
        → Reach ttl parallel batch_window s
        → Move s t
        → Reach ttl parallel batch_window t
    happened :
        {s t : Tasks}
        → Reach ttl parallel batch_window s
        → Event s t
        → Reach ttl parallel batch_window t

  -- The dispatcher alone, any number of moves.
  pub data Walk : Tasks → Tasks → Type 0 where
    here : {s : Tasks} → Walk s s
    then : {s t u : Tasks} → Move s t → Walk t u → Walk s u
