-- ===== src/Server/Engine/System/Keeps.antt =====
-- The tasks of src/server/tts.rs that are not the dispatcher: streams and the eviction.
use mii_sound.Common.{
  ℕ, ◌≡◌, refl, ◌&&◌, not, ◌==◌, Option-cases, Bool-cases, inl, inr, List, Option,
}
use mii_sound.Io.{Result-cases}
use mii_sound.Proto.{Request}
use mii_sound.Proto.Write.{write_request}
use mii_sound.Server.Channel.{Sender}
use mii_sound.Server.Engine.{Engine, RunningWorker, evict, should_evict, ensure_worker}
use mii_sound.Server.Engine.Dispatch.{Env}
use mii_sound.Server.Engine.Stream.{
  Cancel, stream_relay, use_stream_worker, relay_frames, keep_worker,
}

-- What a step that is not the dispatcher's keeps.
pub record Keeps (e e' : Engine) : Type 0 where
  pub queue : e'.queue ≡ e.queue
  pub replies : e'.replies ≡ e.replies
  pub limit : e'.parallel ≡ e.parallel

pub kept :
    (e e' : Engine)
    → e'.queue ≡ e.queue
    → e'.replies ≡ e.replies
    → e'.parallel ≡ e.parallel
    → Keeps e e'
kept e e' q r l = record { queue = q; replies = r; limit = l }

relay_frames-Keeps :
    (env : Env) (req : Request) (cancel : Cancel) (w : RunningWorker) (e : Engine) (out : Sender)
    → Keeps e (relay_frames env req cancel w e out).0
unfolding relay_frames keep_worker
relay_frames-Keeps env req cancel w e out = elim (Result-cases (write_request req w.stdin).0) [
  | inl (_, r) ↦ rw (r, relay_frames) (kept _ _ refl refl refl)
  | inr (x, r) ↦ rw (r, relay_frames) (kept _ _ refl refl refl)
]

use_stream_worker-Keeps :
    (env : Env) (req : Request) (cancel : Cancel) (w : RunningWorker) (e : Engine) (out : Sender)
    → Keeps e (use_stream_worker env req cancel w e out).0
unfolding use_stream_worker
use_stream_worker-Keeps env req cancel w e out = elim (Option-cases w.exited) [
  | inl r ↦ rw (r, use_stream_worker) (relay_frames-Keeps env req cancel w e out)
  | inr (status, r) ↦ rw (r, use_stream_worker) (kept _ _ refl refl refl)
]

pub stream_relay-Keeps :
    (env : Env) (json : List ℕ) (audio : Option (List ℕ)) (cancel : Cancel) (e : Engine)
    (out : Sender)
    → Keeps e (stream_relay env json audio cancel e out).0
unfolding stream_relay
stream_relay-Keeps env json audio cancel e out =
    elim (Result-cases (ensure_worker env.now env.child e.worker)) [
      | inl (w, r) ↦ rw (r, stream_relay) (use_stream_worker-Keeps env _ cancel w e out)
      | inr (x, r) ↦ rw (r, stream_relay) (kept _ _ refl refl refl)
    ]

pub evict-Keeps : (now : ℕ) (e : Engine) → Keeps e (evict now e)
unfolding evict
evict-Keeps now e = elim (Bool-cases (not (e.ttl == 0) && should_evict now e.ttl e.worker)) [
  | inl r ↦ rw (r, evict) (kept _ _ refl refl refl)
  | inr r ↦ rw (r, evict) (kept _ _ refl refl refl)
]
