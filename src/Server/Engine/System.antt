-- ===== src/Server/Engine/System.antt =====
-- The engine of src/server/tts.rs with all its tasks at once: the handlers of requests, the
-- dispatcher, the streams, the eviction, and the worker process. Each step runs under one lock.
pub mod Counts
pub mod Keeps
pub mod Accounts
pub mod Turns
pub mod Window
pub mod Rounds
use mii_sound.Common.{
  ℕ, zero, suc, ◌<◌, ◌≡◌, Text, text, Bool, true, false, List, [], ◌∷◌, ◌++◌, Option, none, some,
  count, if◌then◌else◌, max,
}
use mii_sound.Io.{Parsed, good, bad}
use mii_sound.Proto.{TtsRequest}
use mii_sound.Server.Channel.{Sender}
use mii_sound.Server.Engine.{
  TtsResult, failed, PendingItem, RunningWorker, Engine, key_of, new, evict,
}
use mii_sound.Server.Engine.Queue.{push_back, drain_matching}
use mii_sound.Server.Engine.Dispatch.{Env, reply, dispatch_batch}
use mii_sound.Server.Engine.Stream.{Cancel, stream_relay}

-- `generate` up to its wait. A request that does not parse is answered at once.
unfoldable pub generate :
    (from_slice : List ℕ → Parsed TtsRequest) (json : List ℕ) (audio : Option (List ℕ)) (ticket : ℕ)
    → Engine
    → Engine
generate from_slice json audio ticket e = elim (from_slice json) [
  | bad x ↦ reply ((ticket, failed (text "invalid tts json: " ++ x)) ∷ []) e
  | good req ↦ record e {
    queue =
        push_back (record { json = json; audio = audio; key = key_of req; ticket = ticket })
          e.queue;
  }
]

-- The engine, the batch that the dispatcher has in hand, and the tickets of all requests so far.
pub record System : Type 0 where
  pub engine : Engine
  pub in_hand : List PendingItem
  pub submitted : List ℕ

abbrev pub init : (ttl parallel batch_window : ℕ) → System
init ttl parallel batch_window = record {
  engine = new ttl parallel batch_window;
  in_hand = [];
  submitted = [];
}

-- What the worker process does by itself: it exits, or it writes.
abbrev pub exits : Text → RunningWorker → RunningWorker
exits status w = record w { exited = some status }

abbrev pub writes : List ℕ → RunningWorker → RunningWorker
writes bytes w = record w { stdout = w.stdout ++ bytes }

pub data Step (s : System) : System → Type 0 where
  -- A handler of a connection submits a request with a ticket of its own.
  submit :
      (from_slice : List ℕ → Parsed TtsRequest) (json : List ℕ) (audio : Option (List ℕ))
      (ticket : ℕ)
      → count ticket s.submitted ≡ 0
      → Step s (record s {
        engine = generate from_slice json audio ticket s.engine;
        submitted = s.submitted ++ ticket ∷ [];
      })
  -- The dispatcher has nothing in hand and takes the oldest request.
  take_first :
      (first : PendingItem) (q : List PendingItem)
      → s.in_hand ≡ []
      → s.engine.queue ≡ first ∷ q
      → Step s (record s { engine = record s.engine { queue = q }; in_hand = first ∷ [] })
  -- It adds to its batch what fits, at once or when it is woken in the grace window.
  collect :
      (first : PendingItem) (rest : List PendingItem)
      → s.in_hand ≡ first ∷ rest
      → 1 < s.engine.parallel
      → Step s (record s {
        engine = record s.engine {
          queue = (drain_matching first.key s.engine.parallel s.in_hand s.engine.queue).1;
        };
        in_hand = (drain_matching first.key s.engine.parallel s.in_hand s.engine.queue).0;
      })
  -- The batch goes to the worker and comes back, or waits again.
  dispatch :
      (env : Env) (first : PendingItem) (rest : List PendingItem)
      → s.in_hand ≡ first ∷ rest
      → Step s (record s { engine = dispatch_batch env s.in_hand s.engine; in_hand = [] })
  -- A stream has the worker for itself.
  stream :
      (env : Env) (json : List ℕ) (audio : Option (List ℕ)) (cancel : Cancel) (out : Sender)
      → Step s (record s { engine = (stream_relay env json audio cancel s.engine out).0 })
  unload : (now : ℕ) → Step s (record s { engine = evict now s.engine })
  crash :
      (w : RunningWorker) (status : Text)
      → s.engine.worker ≡ some w
      → Step s (record s { engine = record s.engine { worker = some (exits status w) } })
  output :
      (w : RunningWorker) (bytes : List ℕ)
      → s.engine.worker ≡ some w
      → Step s (record s { engine = record s.engine { worker = some (writes bytes w) } })

-- The systems that any order of steps leads to.
pub data Reach (ttl parallel batch_window : ℕ) : System → Type 0 where
  start : Reach ttl parallel batch_window (init ttl parallel batch_window)
  later :
      {s t : System}
      → Reach ttl parallel batch_window s
      → Step s t
      → Reach ttl parallel batch_window t
