-- ===== src/Server/Engine/System/Window.antt =====
-- `next_batch` of src/server/tts.rs with its grace window, for one request that waits.
use mii_sound.Common.{
  ℕ, zero, suc, ◌≤◌, ◌≡◌, refl, arith, Bool-cases, inl, inr, ◌⊎◌, List, [], ◌∷◌, ◌++◌, some, length,
  ltb,
}
use mii_sound.Server.Engine.{PendingItem, BatchKey}
use mii_sound.Server.Engine.Queue.{drain_matching, grace_window, next_batch, concat}
use mii_sound.Server.Engine.System.Counts.{waiting}
use mii_sound.Server.Engine.System.Turns.{
  Waits, TakenOr, Waits-append, drain_matching-grows, itself, drained,
}

module _ (x : PendingItem) where
  grace_window-grows :
      (key : BatchKey) (limit : ℕ) (batch q : List PendingItem) (window : List (List PendingItem))
      → waiting x.ticket batch ≤ waiting x.ticket (grace_window key limit batch q window).0
  unfolding grace_window
  grace_window-grows key limit batch q [] = omega arith
  grace_window-grows key limit batch q (arrived ∷ later) =
      elim (Bool-cases (ltb (length batch) limit)) [
        | inr full ↦
            rw (full, grace_window) (grace_window-grows key limit batch (q ++ arrived) later)
        | inl room ↦
            rw (room, grace_window)
              (omega (
                arith,
                drain_matching-grows x key limit batch (q ++ arrived),
                grace_window-grows key limit (drain_matching key limit batch (q ++ arrived)).0
                    (drain_matching key limit batch (q ++ arrived)).1 later,
              ))
      ]

  grace_window-TakenOr :
      (key : BatchKey) (limit n : ℕ) (batch q : List PendingItem) (window : List (List PendingItem))
      → TakenOr x n (batch, q)
      → TakenOr x n (grace_window key limit batch q window)
  unfolding grace_window
  grace_window-TakenOr key limit n batch q window (inl t) =
      inl (omega (arith, t, grace_window-grows key limit batch q window))
  grace_window-TakenOr key limit n batch q [] (inr w) = inr w
  grace_window-TakenOr key limit n batch q (arrived ∷ later) (inr w) =
      elim (Bool-cases (ltb (length batch) limit)) [
        | inr full ↦
            rw (full, grace_window)
              (grace_window-TakenOr key limit n batch (q ++ arrived) later
                (inr (Waits-append x n q arrived w)))
        | inl room ↦
            rw (room, grace_window)
              (grace_window-TakenOr key limit n (drain_matching key limit batch (q ++ arrived)).0
                (drain_matching key limit batch (q ++ arrived)).1 later
                (drained x key limit n batch (q ++ arrived) (Waits-append x n q arrived w)))
      ]

  -- One round takes the item, or brings it nearer to the front.
  pub record Moved (n parallel : ℕ) (q : List PendingItem) (window : List (List PendingItem))
      : Type 0 where
    pub batch : List PendingItem
    pub left : List PendingItem
    pub chosen : next_batch parallel q window ≡ some (batch, left)
    pub moved : (1 ≤ waiting x.ticket batch) ⊎ ((m : ℕ) × (n ≡ suc m) × Waits x m left)

  drained_round :
      (key : BatchKey) (limit n : ℕ) (first : PendingItem) (q : List PendingItem)
      (window : List (List PendingItem))
      → Waits x n q
      → TakenOr x n (
          grace_window key limit
            (drain_matching key limit (first ∷ []) q).0
            (drain_matching key limit (first ∷ []) q).1
            window)
  drained_round key limit n first q window w =
      grace_window-TakenOr key limit n _ _ window (drained x key limit n (first ∷ []) q w)

  first_taken :
      (key : BatchKey) (limit : ℕ) (q : List PendingItem) (window : List (List PendingItem))
      → 1
        ≤ waiting x.ticket
            (grace_window key limit
              (drain_matching key limit (x ∷ []) q).0
              (drain_matching key limit (x ∷ []) q).1
              window).0
  first_taken key limit q window = omega (
    arith,
    itself x,
    drain_matching-grows x key limit (x ∷ []) q,
    grace_window-grows key limit (drain_matching key limit (x ∷ []) q).0
        (drain_matching key limit (x ∷ []) q).1 window,
  )

  next_batch_first :
      (n parallel : ℕ) (q : List PendingItem) (window : List (List PendingItem))
      → Moved n parallel (x ∷ q) window
  unfolding next_batch
  next_batch_first n parallel q window = elim (Bool-cases (ltb 1 parallel)) [
    | inl many ↦
        let r = drain_matching x.key parallel (x ∷ []) q in
        let g = grace_window x.key parallel r.0 r.1 window in
        record {
          batch = g.0;
          left = g.1;
          chosen = rw many refl;
          moved = inl (first_taken x.key parallel q window);
        }
    | inr one ↦ record {
      batch = x ∷ [];
      left = q ++ concat window;
      chosen = rw one refl;
      moved = inl (omega (arith, itself x));
    }
  ]

  next_batch_later :
      (n parallel : ℕ) (first : PendingItem) (q : List PendingItem)
      (window : List (List PendingItem))
      → Waits x n q
      → Moved (suc n) parallel (first ∷ q) window
  unfolding next_batch
  next_batch_later n parallel first q window w = elim (Bool-cases (ltb 1 parallel)) [
    | inl many ↦ record {
      batch = _;
      left = _;
      chosen = rw many refl;
      moved = up _ (drained_round first.key parallel n first q window w);
    }
    | inr one ↦ record {
      batch = first ∷ [];
      left = _;
      chosen = rw one refl;
      moved = inr (n, refl, Waits-append x n q (concat window) w);
    }
  ]
    where
      up :
          (r : List PendingItem × List PendingItem)
          → TakenOr x n r
          → (1 ≤ waiting x.ticket r.0) ⊎ ((m : ℕ) × (suc n ≡ suc m) × Waits x m r.1)
      up r t = elim t [ inl h ↦ inl h | inr v ↦ inr (n, refl, v) ]

  pub next_batch-Moved :
      (n parallel : ℕ) (q : List PendingItem) (window : List (List PendingItem))
      → Waits x n q
      → Moved n parallel q window
  next_batch-Moved n parallel q window w = rw w.place (by_place n w.before w.behind w.near)
    where
      by_place :
          (n : ℕ) (before behind : List PendingItem)
          → length before ≤ n
          → Moved n parallel (before ++ x ∷ behind) window
      by_place n [] behind near = next_batch_first n parallel behind window
      by_place zero (first ∷ before) behind near = absurd (omega (arith, near))
      by_place (suc n) (first ∷ before) behind near =
          next_batch_later n parallel first (before ++ x ∷ behind) window
            (record { before = before; behind = behind; place = refl; near = omega (arith, near) })
