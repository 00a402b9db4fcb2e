-- ===== src/Server/Engine/Queue.antt =====
-- The queue of src/server/tts.rs and the dispatcher's choice of a batch.
use mii_sound.Common.{
  ℕ, true, false, List, [], ◌∷◌, ◌++◌, Option, none, some, ltb, if◌then◌else◌, length,
}
use mathlib.Core.List.{reverse}
use mii_sound.Server.Engine.{PendingItem, BatchKey, key_eq}

-- `generate` up to its wait: the item goes to the end.
abbrev pub push_back : PendingItem → List PendingItem → List PendingItem
push_back item q = q ++ item ∷ []

-- `drain_matching`: the loop from position `i` on. What stands before `i` stays where it is, so
-- the result has the batch, and the queue from `i` on.
unfoldable pub drain_matching :
    BatchKey → ℕ → List PendingItem → List PendingItem → List PendingItem × List PendingItem
drain_matching key limit batch [] = (batch, [])
drain_matching key limit batch (x ∷ q) = elim (ltb (length batch) limit) [
  | false ↦ (batch, x ∷ q)
  | true ↦ elim (key_eq x.key key) [
    | true ↦ drain_matching key limit (batch ++ x ∷ []) q
    | false ↦ let (batch', q') = drain_matching key limit batch q in (batch', x ∷ q')
  ]
]

-- The grace window: what arrives before each wake-up, until the deadline. Once the batch is full
-- the loop ends, and what arrives later stays in the queue.
unfoldable pub grace_window :
    BatchKey
    → ℕ
    → List PendingItem
    → List PendingItem
    → List (List PendingItem)
    → List PendingItem × List PendingItem
grace_window key limit batch q [] = (batch, q)
grace_window key limit batch q (arrived ∷ later) = elim (ltb (length batch) limit) [
  | false ↦ grace_window key limit batch (q ++ arrived) later
  | true ↦
      let (batch', q') = drain_matching key limit batch (q ++ arrived) in
      grace_window key limit batch' q' later
]

unfoldable pub concat : List (List PendingItem) → List PendingItem
concat [] = []
concat (xs ∷ xss) = xs ++ concat xss

-- One round of `dispatcher_loop`, up to the dispatch: the batch and the queue that is left;
-- `none` while nothing waits. Without batching there is no window; what arrives is then only queued.
unfoldable pub next_batch :
    ℕ → List PendingItem → List (List PendingItem) → Option (List PendingItem × List PendingItem)
next_batch parallel [] window = none
next_batch parallel (first ∷ q) window =
    if ltb 1 parallel
    then (let (batch, q') = drain_matching first.key parallel (first ∷ []) q in
        some (grace_window first.key parallel batch q' window))
    else some (first ∷ [], q ++ concat window)

-- `requeue_front`: pushed to the front one by one, the last one first.
unfoldable pub push_rev : List PendingItem → List PendingItem → List PendingItem
push_rev [] q = q
push_rev (x ∷ xs) q = push_rev xs (x ∷ q)

unfoldable pub requeue_front : List PendingItem → List PendingItem → List PendingItem
unfolding push_rev
requeue_front batch q = push_rev (reverse batch) q
