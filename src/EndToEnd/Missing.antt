-- ===== src/EndToEnd/Missing.antt =====
-- A model that cannot be loaded, from src/synth.rs to the exit code of the client.
use mii_sound.Common.{
  ℕ, ◌≡◌, refl, sym, subst, ap, ◌∙◌, ◌∷◌, All, Text, text, Bool, List, [], ◌++◌, none, some,
}
use mii_sound.Exit
use mii_sound.Io.{ok, err, Error, display, fault, unexpected_eof, msg_of}
use mii_sound.Io.Read.{read_u8}
use mii_sound.Io.Write.{Writer}
use mii_sound.Client.Session.{handle_response_status, status_to_exit}
use mii_sound.Client.Tts as Tts
use mii_sound.Client.Tts.{deliver}
use mii_sound.Synth.Load.{load}
use mii_sound.Worker as Worker
use mii_sound.Worker.Start.{Loader, start}
use mii_sound.Server.Engine.{
  PendingItem, Engine, Child, TtsResult, model_missing, spawn_worker, ensure_worker,
}
use mii_sound.Server.Engine.Dispatch.{Env, reply, answer_all, dispatch_batch}
use mii_sound.Server.Engine.Delivery.{answered, tickets}
use mii_sound.Server.Connection.{reply_of}
use mii_sound.EndToEnd.{fresh}

-- What the client of a server without a model is told.
abbrev pub not_ready : Env → Text
not_ready env = text "worker did not become ready: " ++ env.fault_text unexpected_eof

start-fails :
    (loader : Loader) (dir : Text) (cpu : Bool) (envs : List Worker.Env) (stdin : List ℕ)
    (w : Writer) (e : Error)
    → load loader.cpu_local loader.gpu_local dir cpu ≡ err e
    → (start loader dir cpu envs stdin w).1 ≡ w
unfolding start
start-fails loader dir cpu envs stdin w e h = rw (h, start) refl

spawn_worker-silent :
    (now pid : ℕ) (child : Child)
    → child.pid ≡ some pid
    → child.stdout ≡ []
    → spawn_worker now (ok child)
      ≡ err (msg_of (text "worker did not become ready: ") (fault unexpected_eof))
unfolding spawn_worker read_u8
spawn_worker-silent now pid child has silent = rw (has, spawn_worker) (rw silent refl)

dispatch_unready :
    (env : Env) (batch : List PendingItem) (e : Engine) (x : Error)
    → ensure_worker env.now env.child e.worker ≡ err x
    → dispatch_batch env batch e
      ≡ reply (answer_all (model_missing (display env.fault_text x)) batch) e
unfolding dispatch_batch
dispatch_unready env batch e x h = rw (h, dispatch_batch) refl

model_missing-told :
    (client : Tts.Env) (why : Text)
    → ((deliver client (reply_of (model_missing why))).code ≡ Exit.model_not_found)
      × ((deliver client (reply_of (model_missing why))).output ≡ [])
unfolding deliver handle_response_status reply_of status_to_exit
model_missing-told client why = (refl, refl)

-- Every request of the batch has one reply, in order, and each client ends by its own reply with the
-- exit code of a missing model, and without output. Nothing else changed.
pub record Unready (client : Tts.Env) (why : Text) (batch : List PendingItem)
    (before after : Engine) : Type 0 where
  pub new : List (ℕ × TtsResult)
  pub replied : after.replies ≡ before.replies ++ new
  pub each_once : answered new ≡ tickets batch
  pub told :
      All
        (λ r.
          ((deliver client (reply_of r.1)).code ≡ Exit.model_not_found)
          × ((deliver client (reply_of r.1)).output ≡ []))
        new
  pub why_told : All (λ r. r.1 ≡ model_missing why) new
  pub no_worker : after.worker ≡ none
  pub same_queue : after.queue ≡ before.queue
  pub same_signals : after.signals ≡ before.signals

answer_all-told :
    (P : ℕ × TtsResult → Type 0) (r : TtsResult) (batch : List PendingItem)
    → ((t : ℕ) → P (t, r))
    → All P (answer_all r batch)
unfolding answer_all
answer_all-told P r [] h = tt
answer_all-told P r (x ∷ batch) h = (h x.ticket, answer_all-told P r batch h)

answered-all :
    (r : TtsResult) (batch : List PendingItem) → answered (answer_all r batch) ≡ tickets batch
unfolding answer_all
answered-all r [] = refl
answered-all r (x ∷ batch) = ap (◌∷◌ x.ticket) (answered-all r batch)

-- A worker whose model cannot be loaded ends without its ready byte: every request of the batch gets
-- one reply, in order, and by its reply each client ends with the exit code of a missing model, and
-- without output; the engine has no worker, and its queue and signals are as they were.
pub load-model_not_found :
    (loader : Loader) (dir : Text) (cpu : Bool) (doing : List Worker.Env) (stdin : List ℕ)
    (room : ℕ) (failure : Error) (env : Env) (child : Child) (pid : ℕ) (batch : List PendingItem)
    (e : Engine) (client : Tts.Env)
    → load loader.cpu_local loader.gpu_local dir cpu ≡ err failure
    → child.stdout ≡ (start loader dir cpu doing stdin (fresh room)).1.sent
    → child.pid ≡ some pid
    → env.child ≡ ok child
    → e.worker ≡ none
    → Unready client (not_ready env) batch e (dispatch_batch env batch e)
load-model_not_found loader dir cpu doing stdin room failure env child pid batch e client fails
      writes has started no_worker =
    subst (Unready client (not_ready env) batch e) (sym (dispatch_unready env batch e _ unready))
      (record {
        new = answer_all (model_missing (not_ready env)) batch;
        replied = refl;
        each_once = answered-all _ batch;
        told = answer_all-told _ _ batch (λ t. model_missing-told client (not_ready env));
        why_told = answer_all-told _ _ batch (λ t. refl);
        no_worker = no_worker;
        same_queue = refl;
        same_signals = refl;
      })
  where
    silent :
        spawn_worker env.now (ok child)
        ≡ err (msg_of (text "worker did not become ready: ") (fault unexpected_eof))
    silent = spawn_worker-silent env.now pid child has (
        writes
        ∙ ap (λ (w : Writer). w.sent)
            (start-fails loader dir cpu doing stdin (fresh room) failure fails))

    unready :
        ensure_worker env.now env.child e.worker
        ≡ err (msg_of (text "worker did not become ready: ") (fault unexpected_eof))
    unready =
        (λ i. ensure_worker env.now (started i) (no_worker i)) ∙ (unfold ensure_worker in silent)
