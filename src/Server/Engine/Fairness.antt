-- ===== src/Server/Engine/Fairness.antt =====
-- What the dispatcher does with the queue as a whole (`dispatcher_loop`, `requeue_front` of
-- src/server/tts.rs).
use mii_sound.Common.{
  ℕ, ◌≤◌, ◌≡◌, refl, sym, ap, ◌∙◌, arith, true, false, List, [], ◌∷◌, ◌++◌, some, All, append_assoc,
  Bool-cases, inl, inr, All-append,
}
use mathlib.Core.List.{reverse, reverse-cons, reverse-reverse}
use mii_sound.Server.Engine.{PendingItem, BatchKey, key_eq}
use mii_sound.Server.Engine.Queue.{next_batch, requeue_front, push_rev, concat}
use mii_sound.Server.Engine.Drain.{
  matching, others, matching_miss, others_hit, others_miss, matching-append, HasKey, Drained,
  next_batch-Drained,
}

key_eq-eq : (j k : BatchKey) → key_eq j k ≡ true → j ≡ k
key_eq-eq j k h = ground arith

pub key_eq_refl : (k : BatchKey) → key_eq k k ≡ true
key_eq_refl k = ground arith

key_eq_trans : (a b c : BatchKey) → key_eq a b ≡ true → key_eq a c ≡ key_eq b c
key_eq_trans a b c h = ap (λ (t : BatchKey). key_eq t c) (key_eq-eq a b h)

push_rev-append : (xs q : List PendingItem) → push_rev xs q ≡ reverse xs ++ q
unfolding push_rev
push_rev-append [] q = refl
push_rev-append (x ∷ xs) q =
    push_rev-append xs (x ∷ q) ∙ rw (reverse-cons x xs) (sym (append_assoc (reverse xs) (x ∷ []) q))

matching_cons :
    (k : BatchKey) (x : PendingItem) (q q' : List PendingItem)
    → matching k q ≡ matching k q'
    → matching k (x ∷ q) ≡ matching k (x ∷ q')
unfolding matching
matching_cons k x q q' e = rw e

-- Items of another key are among the others.
matching-others :
    (key k : BatchKey) (q : List PendingItem)
    → key_eq key k ≡ false
    → matching k (others key q) ≡ matching k q
unfolding others
matching-others key k [] h = refl
matching-others key k (x ∷ q) h = elim (Bool-cases (key_eq x.key key)) [
  | inl hit ↦
      ap (matching k) (others_hit key x q hit)
      ∙ matching-others key k q h
      ∙ sym (matching_miss k x q (key_eq_trans x.key key k hit ∙ h))
  | inr miss ↦
      ap (matching k) (others_miss key x q miss) ∙ matching_cons k x _ q (matching-others key k q h)
]

matching_none :
    (key k : BatchKey) (xs : List PendingItem)
    → key_eq key k ≡ false
    → All (HasKey key) xs
    → matching k xs ≡ []
unfolding matching
matching_none key k [] h a = refl
matching_none key k (x ∷ xs) h a =
    rw (key_eq_trans x.key key k a.0 ∙ h) (matching_none key k xs h a.1)

matching-All : (key : BatchKey) (xs : List PendingItem) → All (HasKey key) xs → matching key xs ≡ xs
unfolding matching
matching-All key [] a = refl
matching-All key (x ∷ xs) a = rw a.0 (ap (◌∷◌ x) (matching-All key xs a.1))

module _ (key : BatchKey) (limit : ℕ) (batch q after left : List PendingItem)
    (own : All (HasKey key) batch) (d : Drained key limit batch q after left) where
  conserves_own : matching key (after ++ left) ≡ matching key (batch ++ q)
  conserves_own =
      matching-append key after left
      ∙ ap (λ (t : List PendingItem). t ++ matching key left)
          (ap (matching key) d.grows
            ∙ matching-append key batch d.took
            ∙ ap (◌++◌ (matching key batch)) (matching-All key d.took d.same_key))
      ∙ append_assoc (matching key batch) d.took (matching key left)
      ∙ ap (◌++◌ (matching key batch)) (sym d.oldest)
      ∙ sym (matching-append key batch q)

  conserves_other :
      (k : BatchKey) → key_eq key k ≡ false → matching k (after ++ left) ≡ matching k (batch ++ q)
  conserves_other k h =
      matching-append k after left
      ∙ ap (λ (t : List PendingItem). t ++ matching k left)
          (ap (matching k) d.grows
            ∙ matching_none key k (batch ++ d.took) h
                (All-append (HasKey key) batch d.took own d.same_key)
            ∙ sym (matching_none key k batch h own))
      ∙ ap (◌++◌ (matching k batch)) (
          sym (matching-others key k left h)
          ∙ ap (matching k) (sym d.untouched)
          ∙ matching-others key k q h)
      ∙ sym (matching-append k batch q)

  conserves : (k : BatchKey) → matching k (after ++ left) ≡ matching k (batch ++ q)
  conserves k = elim (Bool-cases (key_eq key k)) [
    | inl same ↦ rw (← key_eq-eq key k same) conserves_own
    | inr other ↦ conserves_other k other
  ]

nothing_waits :
    (parallel : ℕ) (window : List (List PendingItem)) {p : List PendingItem × List PendingItem}
    → next_batch parallel [] window ≡ some p
    → ⊥
unfolding next_batch
nothing_waits parallel window e = cc e

-- The dispatcher loses, doubles and overtakes nothing: for every key, the items of the batch and
-- of the queue that is left are, in this order, those that waited and those that arrived.
pub next_batch-conserves :
    (parallel : ℕ) (q : List PendingItem) (window : List (List PendingItem))
    (batch left : List PendingItem)
    → 1 ≤ parallel
    → next_batch parallel q window ≡ some (batch, left)
    → (k : BatchKey) → matching k (batch ++ left) ≡ matching k (q ++ concat window)
next_batch-conserves parallel [] window batch left h e k = absurd (nothing_waits parallel window e)
next_batch-conserves parallel (first ∷ q) window batch left h e k =
    let r = next_batch-Drained parallel first q window h in
    let same : some (batch, left) ≡ some (r.batch, r.left) = sym e ∙ r.chosen in
    let b_eq : batch ≡ r.batch = cc same in
    let l_eq : left ≡ r.left = cc same in
    rw (b_eq, l_eq)
      (conserves first.key parallel (first ∷ []) (q ++ concat window) r.batch r.left
        (key_eq_refl first.key, tt) r.drained k)

-- After a crash the batch is back at the front of the queue, in its order.
pub requeue_front_lem : (batch q : List PendingItem) → requeue_front batch q ≡ batch ++ q
unfolding requeue_front
requeue_front_lem batch q =
    push_rev-append (reverse batch) q
    ∙ ap (λ (t : List PendingItem). t ++ q) (reverse-reverse batch)
