-- ===== src/Server/Engine/System/Turns.antt =====
-- How a waiting item moves up in the queue of src/server/tts.rs.
use mii_sound.Common.{
  ℕ, suc, ◌≤◌, ◌≡◌, refl, ap, ◌∙◌, arith, Bool-cases, inl, inr, ◌⊎◌, List, [], ◌∷◌, ◌++◌, length,
  append_assoc, ltb,
}
use mii_sound.Server.Engine.{PendingItem, BatchKey, key_eq}
use mii_sound.Server.Engine.Queue.{drain_matching}
use mii_sound.Server.Engine.Drain.{drain_matching-Drained}
use mii_sound.Server.Engine.System.Counts.{waiting, waiting-append}

module _ (x : PendingItem) where
  -- The item waits with `n` items before it at most.
  pub record Waits (n : ℕ) (q : List PendingItem) : Type 0 where
    pub before : List PendingItem
    pub behind : List PendingItem
    pub place : q ≡ before ++ x ∷ behind
    pub near : length before ≤ n

  -- The item is in the batch, or it waits with `n` items before it.
  abbrev pub TakenOr : ℕ → List PendingItem × List PendingItem → Type 0
  TakenOr n r = (1 ≤ waiting x.ticket r.0) ⊎ Waits n r.1

  pub drain_matching-grows :
      (key : BatchKey) (limit : ℕ) (batch q : List PendingItem)
      → waiting x.ticket batch ≤ waiting x.ticket (drain_matching key limit batch q).0
  drain_matching-grows key limit batch q =
      let d = drain_matching-Drained key limit batch q in
      omega (arith, ap (waiting x.ticket) d.grows, waiting-append x.ticket batch d.took)

  pub itself : waiting x.ticket (x ∷ []) ≡ 1
  itself = ground arith

  pub drain_matching-TakenOr :
      (key : BatchKey) (limit : ℕ) (batch before behind : List PendingItem)
      → TakenOr (length before) (drain_matching key limit batch (before ++ x ∷ behind))
  unfolding drain_matching
  drain_matching-TakenOr key limit batch [] behind = elim (Bool-cases (ltb (length batch) limit)) [
    | inr full ↦
        rw (full, drain_matching)
          (inr (record { before = []; behind = behind; place = refl; near = omega arith }))
    | inl room ↦ elim (Bool-cases (key_eq x.key key)) [
      | inl hit ↦
          rw (room, drain_matching)
            (rw hit (
              inl (
                omega (
                  arith,
                  drain_matching-grows key limit (batch ++ x ∷ []) behind,
                  waiting-append x.ticket batch (x ∷ []),
                  itself,
                ))))
      | inr miss ↦
          rw (room, drain_matching)
            (rw miss (inr (record { before = []; behind = _; place = refl; near = omega arith })))
    ]
  ]
  drain_matching-TakenOr key limit batch (y ∷ before) behind =
      elim (Bool-cases (ltb (length batch) limit)) [
        | inr full ↦
            rw (full, drain_matching)
              (inr
                (record { before = y ∷ before; behind = behind; place = refl; near = omega arith }))
        | inl room ↦ elim (Bool-cases (key_eq y.key key)) [
          | inl hit ↦
              rw (room, drain_matching)
                (rw hit (
                  weaken (length before) (omega arith) _
                    (drain_matching-TakenOr key limit (batch ++ y ∷ []) before behind)))
          | inr miss ↦
              rw (room, drain_matching)
                (rw miss (
                  behind_one y (length before) _
                    (drain_matching-TakenOr key limit batch before behind)))
        ]
      ]
    where
      weaken :
          (n : ℕ)
          → n ≤ suc n
          → (r : List PendingItem × List PendingItem) → TakenOr n r
          → TakenOr (suc n) r
      weaken n h r (inl t) = inl t
      weaken n h r (inr w) = inr (record {
        before = w.before;
        behind = w.behind;
        place = w.place;
        near = omega (arith, w.near);
      })

      behind_one :
          (y : PendingItem) (n : ℕ) (r : List PendingItem × List PendingItem)
          → TakenOr n r
          → TakenOr (suc n) (r.0, y ∷ r.1)
      behind_one y n r (inl t) = inl t
      behind_one y n r (inr w) = inr (record {
        before = y ∷ w.before;
        behind = w.behind;
        place = ap (◌∷◌ y) w.place;
        near = omega (arith, w.near);
      })

  -- What arrives goes behind it.
  pub Waits-append : (n : ℕ) (q arrived : List PendingItem) → Waits n q → Waits n (q ++ arrived)
  Waits-append n q arrived w = record {
    before = w.before;
    behind = w.behind ++ arrived;
    place =
        ap (λ (t : List PendingItem). t ++ arrived) w.place
        ∙ append_assoc w.before (x ∷ w.behind) arrived;
    near = w.near;
  }

  pub drained :
      (key : BatchKey) (limit n : ℕ) (batch q : List PendingItem)
      → Waits n q
      → TakenOr n (drain_matching key limit batch q)
  drained key limit n batch q w =
      rw w.place (closer _ (drain_matching-TakenOr key limit batch w.before w.behind))
    where
      closer : (r : List PendingItem × List PendingItem) → TakenOr (length w.before) r → TakenOr n r
      closer r (inl t) = inl t
      closer r (inr v) = inr (record {
        before = v.before;
        behind = v.behind;
        place = v.place;
        near = omega (arith, v.near, w.near);
      })
