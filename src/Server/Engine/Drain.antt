-- ===== src/Server/Engine/Drain.antt =====
-- What one round of `dispatcher_loop` (src/server/tts.rs) takes from the queue, and what it leaves.
use mii_sound.Common.{
  max, ℕ, ◌≤◌, ◌≡◌, refl, sym, ap, ◌∙◌, arith, true, false, List, [], ◌∷◌, ◌++◌, some, ltb,
  if◌then◌else◌, length, All, append_assoc, append-nil, length-append, Bool-cases, inl, inr, ◌⊎◌,
  ltb→lt, ltb_false→le, All-append,
}
use mii_sound.Server.Engine.{PendingItem, BatchKey, key_eq}
use mii_sound.Server.Engine.Queue.{drain_matching, grace_window, next_batch, concat}

-- The items of one key, and the rest, in the order of the queue.
unfoldable pub matching : BatchKey → List PendingItem → List PendingItem
matching key [] = []
matching key (x ∷ q) = if key_eq x.key key then x ∷ matching key q else matching key q

unfoldable pub others : BatchKey → List PendingItem → List PendingItem
others key [] = []
others key (x ∷ q) = if key_eq x.key key then others key q else x ∷ others key q

module _ (key : BatchKey) (x : PendingItem) (q : List PendingItem) where
  pub matching_hit : key_eq x.key key ≡ true → matching key (x ∷ q) ≡ x ∷ matching key q
  unfolding matching
  matching_hit h = rw h

  pub matching_miss : key_eq x.key key ≡ false → matching key (x ∷ q) ≡ matching key q
  unfolding matching
  matching_miss h = rw h

  pub others_hit : key_eq x.key key ≡ true → others key (x ∷ q) ≡ others key q
  unfolding others
  others_hit h = rw h

  pub others_miss : key_eq x.key key ≡ false → others key (x ∷ q) ≡ x ∷ others key q
  unfolding others
  others_miss h = rw h

pub matching-append :
    (key : BatchKey) (xs ys : List PendingItem)
    → matching key (xs ++ ys) ≡ matching key xs ++ matching key ys
unfolding matching
matching-append key [] ys = refl
matching-append key (x ∷ xs) ys = ground (arith, matching-append key xs ys)

pub others-append :
    (key : BatchKey) (xs ys : List PendingItem)
    → others key (xs ++ ys) ≡ others key xs ++ others key ys
unfolding others
others-append key [] ys = refl
others-append key (x ∷ xs) ys = ground (arith, others-append key xs ys)

abbrev pub HasKey : BatchKey → PendingItem → Type 0
HasKey key x = key_eq x.key key ≡ true

-- What a batch `after` and a queue `left` have to do with the batch and the queue before.
pub record Drained (key : BatchKey) (limit : ℕ) (batch q after left : List PendingItem)
    : Type 0 where
  pub took : List PendingItem
  pub grows : after ≡ batch ++ took
  pub same_key : All (HasKey key) took
  pub oldest : matching key q ≡ took ++ matching key left
  pub untouched : others key q ≡ others key left
  pub bounded : length after ≤ max limit (length batch)
  pub greedy : (limit ≤ length after) ⊎ (matching key left ≡ [])

miss_greedy :
    (key : BatchKey) (limit : ℕ) (x : PendingItem) (after left : List PendingItem)
    → key_eq x.key key ≡ false
    → (limit ≤ length after) ⊎ (matching key left ≡ [])
    → (limit ≤ length after) ⊎ (matching key (x ∷ left) ≡ [])
miss_greedy key limit x after left miss (inl h) = inl h
miss_greedy key limit x after left miss (inr h) = inr (matching_miss key x left miss ∙ h)

pub drain_matching-Drained :
    (key : BatchKey) (limit : ℕ) (batch q : List PendingItem)
    → Drained key limit batch q
        (drain_matching key limit batch q).0
        (drain_matching key limit batch q).1
unfolding drain_matching
drain_matching-Drained key limit batch [] = record {
  took = [];
  grows = sym (append-nil batch);
  same_key = tt;
  oldest = refl;
  untouched = refl;
  bounded = omega arith;
  greedy = inr (unfold matching in refl);
}
drain_matching-Drained key limit batch (x ∷ q) = elim (Bool-cases (ltb (length batch) limit)) [
  | inr full ↦
      rw (full, drain_matching)
        (record {
          took = [];
          grows = sym (append-nil batch);
          same_key = tt;
          oldest = refl;
          untouched = refl;
          bounded = omega arith;
          greedy = inl (ltb_false→le _ _ full);
        })
  | inl room ↦ elim (Bool-cases (key_eq x.key key)) [
    | inl hit ↦
        let d = drain_matching-Drained key limit (batch ++ x ∷ []) q in
        rw (room, drain_matching)
          (rw hit (record {
            took = x ∷ d.took;
            grows = d.grows ∙ append_assoc batch (x ∷ []) d.took;
            same_key = (hit, d.same_key);
            oldest = matching_hit key x q hit ∙ ap (◌∷◌ x) d.oldest;
            untouched = others_hit key x q hit ∙ d.untouched;
            bounded = omega (arith, d.bounded, length-append batch (x ∷ []), ltb→lt _ _ room);
            greedy = d.greedy;
          }))
    | inr miss ↦
        let d = drain_matching-Drained key limit batch q in
        rw (room, drain_matching)
          (rw miss (record {
            took = d.took;
            grows = d.grows;
            same_key = d.same_key;
            oldest =
                matching_miss key x q miss
                ∙ d.oldest
                ∙ ap (◌++◌ d.took) (sym (matching_miss key x _ miss));
            untouched =
                others_miss key x q miss ∙ ap (◌∷◌ x) d.untouched ∙ sym (others_miss key x _ miss);
            bounded = d.bounded;
            greedy = miss_greedy key limit x _ _ miss d.greedy;
          }))
  ]
]

-- Two drains, with arrivals between them, are one drain of all.
Drained-trans :
    (key : BatchKey) (limit : ℕ) (batch q b₁ l₁ arrived b₂ l₂ : List PendingItem)
    → Drained key limit batch q b₁ l₁
    → Drained key limit b₁ (l₁ ++ arrived) b₂ l₂
    → Drained key limit batch (q ++ arrived) b₂ l₂
Drained-trans key limit batch q b₁ l₁ arrived b₂ l₂ d e = record {
  took = d.took ++ e.took;
  grows =
      e.grows
      ∙ ap (λ (t : List PendingItem). t ++ e.took) d.grows
      ∙ append_assoc batch d.took e.took;
  same_key = All-append (HasKey key) d.took e.took d.same_key e.same_key;
  oldest =
      matching-append key q arrived
      ∙ ap (λ (t : List PendingItem). t ++ matching key arrived) d.oldest
      ∙ append_assoc d.took (matching key l₁) (matching key arrived)
      ∙ ap (◌++◌ d.took) (sym (matching-append key l₁ arrived) ∙ e.oldest)
      ∙ sym (append_assoc d.took e.took (matching key l₂));
  untouched =
      others-append key q arrived
      ∙ ap (λ (t : List PendingItem). t ++ others key arrived) d.untouched
      ∙ sym (others-append key l₁ arrived)
      ∙ e.untouched;
  bounded = omega (arith, d.bounded, e.bounded);
  greedy = e.greedy;
}

grace_window-Drained :
    (key : BatchKey) (limit : ℕ) (batch q : List PendingItem) (window : List (List PendingItem))
    → (limit ≤ length batch) ⊎ (matching key q ≡ [])
    → Drained key limit batch
        (q ++ concat window)
        (grace_window key limit batch q window).0
        (grace_window key limit batch q window).1
unfolding grace_window concat
grace_window-Drained key limit batch q [] g = record {
  took = [];
  grows = sym (append-nil batch);
  same_key = tt;
  oldest = ap (matching key) (append-nil q);
  untouched = ap (others key) (append-nil q);
  bounded = omega arith;
  greedy = g;
}
grace_window-Drained key limit batch q (arrived ∷ later) g =
    rw (← append_assoc q arrived (concat later)) (elim (Bool-cases (ltb (length batch) limit)) [
      | inr full ↦
          rw (full, grace_window)
            (grace_window-Drained key limit batch (q ++ arrived) later
              (inl (ltb_false→le _ _ full)))
      | inl room ↦
          let d = drain_matching-Drained key limit batch (q ++ arrived) in
          rw (room, grace_window)
            (Drained-trans key limit batch (q ++ arrived) _ _ (concat later) _ _ d (
              grace_window-Drained key limit (drain_matching key limit batch (q ++ arrived)).0
                (drain_matching key limit batch (q ++ arrived)).1 later d.greedy))
    ])

-- What a round does with the oldest item `first`, the others that wait, and those that arrive.
pub record Round (parallel : ℕ) (first : PendingItem) (q : List PendingItem)
    (window : List (List PendingItem)) : Type 0 where
  pub batch : List PendingItem
  pub left : List PendingItem
  pub chosen : next_batch parallel (first ∷ q) window ≡ some (batch, left)
  pub drained : Drained first.key parallel (first ∷ []) (q ++ concat window) batch left

-- A round with something to do always has a batch, if the engine takes one item at least: the
-- oldest item, and behind it the oldest items of the same key, up to the limit. It leaves none of
-- them while there is room, and it keeps the others, in their order.
pub next_batch-Drained :
    (parallel : ℕ) (first : PendingItem) (q : List PendingItem) (window : List (List PendingItem))
    → 1 ≤ parallel
    → Round parallel first q window
unfolding next_batch
next_batch-Drained parallel first q window h = elim (Bool-cases (ltb 1 parallel)) [
  | inl many ↦
      let d = drain_matching-Drained first.key parallel (first ∷ []) q in
      record {
        batch = _;
        left = _;
        chosen = rw many refl;
        drained =
            Drained-trans first.key parallel (first ∷ []) q _ _ (concat window) _ _ d
              (grace_window-Drained first.key parallel _ _ window d.greedy);
      }
  | inr one ↦ record {
    batch = first ∷ [];
    left = q ++ concat window;
    chosen = rw one refl;
    drained = record {
      took = [];
      grows = refl;
      same_key = tt;
      oldest = refl;
      untouched = refl;
      bounded = omega arith;
      greedy = inl (ltb_false→le _ _ one);
    };
  }
]
