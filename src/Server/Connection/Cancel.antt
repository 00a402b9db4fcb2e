-- ===== src/Server/Connection/Cancel.antt =====
-- The watchers of one batch in `dispatch_batch` of src/server/tts.rs, with the watchers of the
-- clients in src/server/mod.rs that wake them.
use mii_sound.Common.{
  ℕ, zero, suc, ◌+◌, ◌≤◌, ◌<◌, ◌≡◌, refl, sym, ap, ◌∙◌, inl, inr, ◌⊎◌, arith, true, false, Bool,
  Bool-cases, List, [], ◌∷◌, ◌++◌, All, ◌==◌, if◌then◌else◌, length,
}
use mii_sound.Io.{Result, Result-cases}
use mii_sound.Proto.Read.{read_batch_response}
use mii_sound.Server.Engine.{PendingItem, RunningWorker, Engine}
use mii_sound.Server.Engine.Dispatch.{Env, all_gone, cancel_signal, await_response}
use mii_sound.Server.Engine.Gone.{Stays, all_gone-All, all_gone-Stays}
use mii_sound.Server.Connection.Turns.{watcher, HasEnded, watcher-HasEnded}

-- One watcher behind its notice: `fetch_add`, and the signal if it is the last of all.
unfoldable pub count_gone : (pid total : ℕ) → ℕ × List ℕ → ℕ × List ℕ
count_gone pid total (prev, signals) =
    (prev + 1, if prev + 1 == total then signals ++ pid ∷ [] else signals)

-- So many watchers, in whatever order they come.
unfoldable pub count_all : (pid total notices : ℕ) → ℕ × List ℕ
unfolding count_gone
count_all pid total zero = (0, [])
count_all pid total (suc n) = count_gone pid total (count_all pid total n)

-- How many of the batch have had their notice.
unfoldable pub notices : (ℕ → Bool) → List PendingItem → ℕ
notices gone [] = 0
notices gone (item ∷ batch) = (if gone item.ticket then 1 else 0) + notices gone batch

notices-le : (gone : ℕ → Bool) (batch : List PendingItem) → notices gone batch ≤ length batch
unfolding notices
notices-le gone [] = omega arith
notices-le gone (x ∷ batch) = ground (arith, notices-le gone batch)

-- All are gone exactly if there are as many notices as items.
notices-all_gone :
    (gone : ℕ → Bool) (batch : List PendingItem)
    → all_gone gone batch ≡ (notices gone batch == length batch)
unfolding notices all_gone
notices-all_gone gone [] = refl
notices-all_gone gone (x ∷ batch) =
    ground (arith, notices-all_gone gone batch, notices-le gone batch)

count_all-count : (pid total n : ℕ) → (count_all pid total n).0 ≡ n
unfolding count_all count_gone
count_all-count pid total zero = refl
count_all-count pid total (suc n) = omega (arith, count_all-count pid total n)

count_all-early : (pid total n : ℕ) → n < total → (count_all pid total n).1 ≡ []
unfolding count_all count_gone
count_all-early pid total zero h = refl
count_all-early pid total (suc n) h =
    ground (arith, count_all-count pid total n, count_all-early pid total n (omega arith))

count_all-last : (pid n : ℕ) → (count_all pid (suc n) (suc n)).1 ≡ pid ∷ []
unfolding count_all count_gone
count_all-last pid n =
    ground (arith, count_all-count pid (suc n) n, count_all-early pid (suc n) n (omega arith))

all_notices :
    (gone : ℕ → Bool) (batch : List PendingItem)
    → all_gone gone batch ≡ true
    → notices gone batch ≡ length batch
all_notices gone batch all = ground (arith, notices-all_gone gone batch)

few_notices :
    (gone : ℕ → Bool) (batch : List PendingItem)
    → all_gone gone batch ≡ false
    → notices gone batch < length batch
few_notices gone batch one = ground (arith, notices-all_gone gone batch, notices-le gone batch)

-- What is signalled while a batch is with the worker: what the counter says, which is one signal if
-- all clients are gone, and none if one of them stays.
pub record Signalled (gone : ℕ → Bool) (Ended : PendingItem → Type 0) (batch : List PendingItem)
    (pid : ℕ) (before after : List ℕ) : Type 0 where
  pub sent : List ℕ
  pub added : after ≡ before ++ sent
  pub counted : sent ≡ (count_all pid (length batch) (notices gone batch)).1
  pub rule : (All Ended batch × (sent ≡ pid ∷ [])) ⊎ (Stays gone batch × (sent ≡ []))

await_response-signals :
    (env : Env) (batch : List PendingItem) (w : RunningWorker) (e : Engine)
    → (await_response env batch w e).signals ≡ e.signals ++ cancel_signal env.gone batch w
unfolding await_response
await_response-signals env batch w e = elim (Result-cases (read_batch_response w.stdout)) [
  | inl (_, r) ↦ rw (r, await_response) refl
  | inr (_, r) ↦ rw (r, await_response) refl
]

-- While a batch is with the worker, whatever the worker answers and in whatever order the clients
-- leave: the worker gets one signal if the connection of every client of the batch has ended or
-- failed by then, and none if one of them has not; the counter that the watchers share says so.
pub await_response-Signalled :
    (env : Env) (reads : ℕ → List (Result ℕ)) (first : PendingItem) (rest : List PendingItem)
    (w : RunningWorker) (e : Engine)
    → ((t : ℕ) → env.gone t ≡ watcher (reads t))
    → Signalled env.gone
        (λ x. HasEnded (reads x.ticket))
        (first ∷ rest)
        w.pid
        e.signals
        (await_response env (first ∷ rest) w e).signals
unfolding cancel_signal
await_response-Signalled env reads first rest w e h =
    let batch : List PendingItem = first ∷ rest in
    elim (Bool-cases (all_gone env.gone batch)) [
      | inl all ↦ record {
        sent = w.pid ∷ [];
        added = await_response-signals env batch w e ∙ rw all refl;
        counted = sym (
            ap (λ n. (count_all w.pid (length batch) n).1) (all_notices env.gone batch all)
            ∙ count_all-last w.pid (length rest));
        rule = inl (
          all_gone-All env.gone _ (λ x g. watcher-HasEnded (reads x.ticket) (sym (h x.ticket) ∙ g))
              batch all,
          refl,
        );
      }
      | inr some_stays ↦ record {
        sent = [];
        added = await_response-signals env batch w e ∙ rw some_stays refl;
        counted =
            sym (count_all-early w.pid (length batch) _ (few_notices env.gone batch some_stays));
        rule = inr (all_gone-Stays env.gone batch some_stays, refl);
      }
    ]
