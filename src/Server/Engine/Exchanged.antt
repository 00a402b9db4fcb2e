-- ===== src/Server/Engine/Exchanged.antt =====
-- A dispatch of src/server/tts.rs to a worker in order: what becomes of each item and of the worker.
use mii_sound.Common.{
  ℕ, ◌-◌, ◌≡◌, ◌∙◌, refl, sym, ◌⊎◌, inl, inr, arith, text, true, Bool, Bool-cases, List, [], ◌∷◌,
  ◌++◌, some, length, All, map, bytes_eq, bytes_eq_iff, ◌==◌,
}
use mii_sound.Common.Utf8.{from_utf8_lossy}
use mii_sound.Proto.{st_ok, st_model_missing, st_generation_failed, Response}
use mii_sound.Proto.Wire.{encode_batch_request}
use mii_sound.Server.Engine.{
  PendingItem, Engine, RunningWorker, TtsResult, done, model_missing, cancelled, failed,
}
use mii_sound.Server.Engine.Dispatch.{
  Env, wire_item, answer_each, result_of, all_gone, cancel_signal, dispatch_batch,
}
use mii_sound.Server.Engine.Gone.{Stays, all_gone-All, all_gone-Stays}
use mii_sound.Server.Engine.Serving.{Serves, dispatch_batch-Serves}

-- The result that a response has to become.
pub data IsResult (resp : Response) (r : TtsResult) : Type 0 where
  audio : resp.status ≡ st_ok → r ≡ done resp.payload → IsResult resp r
  no_model :
      resp.status ≡ st_model_missing
      → r ≡ model_missing (from_utf8_lossy resp.payload)
      → IsResult resp r
  stopped :
      resp.status ≡ st_generation_failed
      → resp.payload ≡ text "cancelled"
      → r ≡ cancelled
      → IsResult resp r
  other_failure :
      ¬ resp.status ≡ st_ok
      → ¬ resp.status ≡ st_model_missing
      → (¬ resp.status ≡ st_generation_failed) ⊎ (¬ resp.payload ≡ text "cancelled")
      → r ≡ failed (from_utf8_lossy resp.payload)
      → IsResult resp r

-- The reply to each item of a batch, in order and under its ticket: for the response at its place,
-- or, if there is none, an error.
pub data Placed : List PendingItem → List Response → List (ℕ × TtsResult) → Type 0 where
  no_items : (resps : List Response) → Placed [] resps []
  unanswered :
      (item : PendingItem) (batch : List PendingItem) (replies : List (ℕ × TtsResult))
      → Placed batch [] replies
      → Placed
          (item ∷ batch)
          []
          ((item.ticket, failed (text "dispatcher dropped request")) ∷ replies)
  answered :
      (item : PendingItem) (batch : List PendingItem) (resp : Response) (resps : List Response)
      (r : TtsResult) (replies : List (ℕ × TtsResult))
      → IsResult resp r
      → Placed batch resps replies
      → Placed (item ∷ batch) (resp ∷ resps) ((item.ticket, r) ∷ replies)

-- What a dispatch to a worker in order comes to.
pub record Exchanged (gone : ℕ → Bool) (now : ℕ) (batch : List PendingItem) (resps : List Response)
    (rest : List ℕ) (w : RunningWorker) (e after : Engine) : Type 0 where
  pub new : List (ℕ × TtsResult)
  pub placed : Placed batch resps new
  pub sent : List ℕ
  pub rule :
      (All (λ (x : PendingItem). gone x.ticket ≡ true) batch × (sent ≡ w.pid ∷ []))
      ⊎ (Stays gone batch × (sent ≡ []))
  pub kept : after ≡ record e {
    worker = some (record w {
      stdin = record {
        sent = w.stdin.sent ++ encode_batch_request (map wire_item batch);
        room = w.stdin.room - length (encode_batch_request (map wire_item batch));
      };
      stdout = rest;
      last_used = now;
    });
    replies = e.replies ++ new;
    signals = e.signals ++ sent;
  }

result_of-IsResult : (resp : Response) → IsResult resp (result_of resp)
unfolding result_of
result_of-IsResult resp = elim (Bool-cases (resp.status == st_ok)) [
  | inl one ↦ rw one (audio (ground arith) refl)
  | inr not_ok ↦ elim (Bool-cases (resp.status == st_model_missing)) [
    | inl two ↦ rw (not_ok, two) (no_model (ground arith) refl)
    | inr present ↦ elim (Bool-cases (resp.status == st_generation_failed)) [
      | inr no_failure ↦
          rw (not_ok, present, no_failure)
            (other_failure (ground arith) (ground arith) (inl (ground arith)) refl)
      | inl three ↦ elim (Bool-cases (bytes_eq resp.payload (text "cancelled"))) [
        | inl same ↦
            rw (not_ok, present, three, same)
              (stopped (ground arith) ((bytes_eq_iff resp.payload (text "cancelled")).0 same) refl)
        | inr differ ↦
            rw (not_ok, present, three, differ)
              (other_failure (ground arith) (ground arith)
                (inr (λ same.
                  absurd
                    (cc (sym ((bytes_eq_iff resp.payload (text "cancelled")).1 same) ∙ differ))))
                refl)
      ]
    ]
  ]
]

answer_each-Placed :
    (batch : List PendingItem) (resps : List Response)
    → Placed batch resps (answer_each batch resps)
unfolding answer_each
answer_each-Placed [] resps = no_items resps
answer_each-Placed (item ∷ batch) [] = unanswered item batch _ (answer_each-Placed batch [])
answer_each-Placed (item ∷ batch) (resp ∷ resps) =
    answered item batch resp resps _ _ (result_of-IsResult resp) (answer_each-Placed batch resps)

cancel_signal-rule :
    (gone : ℕ → Bool) (batch : List PendingItem) (w : RunningWorker)
    → (All (λ (x : PendingItem). gone x.ticket ≡ true) batch
        × (cancel_signal gone batch w ≡ w.pid ∷ []))
      ⊎ (Stays gone batch × (cancel_signal gone batch w ≡ []))
unfolding cancel_signal
cancel_signal-rule gone batch w = elim (Bool-cases (all_gone gone batch)) [
  | inl all ↦ inl (all_gone-All gone _ (λ x g. g) batch all, rw all refl)
  | inr some_stays ↦ inr (all_gone-Stays gone batch some_stays, rw some_stays refl)
]

-- A running worker that takes a batch as one frame, and answers it within the limits of the
-- protocol: each item is answered by the response at its place, under its own ticket and in order,
-- as an audio, a missing model, a cancellation or an error by what the response says; an item
-- without a response gets an error. The worker is kept, with both pipes at a frame's boundary and
-- its idle time started again, and gets one signal if all clients of the batch are gone, and none
-- if one of them stays.
pub dispatch_batch-Exchanged :
    (env : Env) (batch : List PendingItem) (e : Engine) (w : RunningWorker) (resps : List Response)
    (rest : List ℕ)
    → e.worker ≡ some w
    → Serves batch resps rest w
    → Exchanged env.gone env.now batch resps rest w e (dispatch_batch env batch e)
dispatch_batch-Exchanged env batch e w resps rest h s = record {
  new = answer_each batch resps;
  placed = answer_each-Placed batch resps;
  sent = cancel_signal env.gone batch w;
  rule = cancel_signal-rule env.gone batch w;
  kept = dispatch_batch-Serves env batch e w resps rest h s;
}
