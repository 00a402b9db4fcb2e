-- ===== src/Server/Engine/Paths/Window.antt =====
-- The grace window of src/server/tts.rs as steps: arrivals and drains in turn.
use mii_sound.Common.{
  ℕ, ◌<◌, ◌≡◌, refl, sym, ap, ◌∙◌, subst, Bool-cases, inl, inr, List, [], ◌∷◌, ◌++◌, append-nil,
  All, ltb, length, true, false,
}
use mii_sound.Server.Engine.{PendingItem, BatchKey}
use mii_sound.Server.Engine.Queue.{drain_matching, grace_window, concat}
use mii_sound.Server.Engine.Drain.{drain_matching-Drained}
use mii_sound.Server.Engine.Delivery.{tickets}
use mii_sound.Server.Engine.System.{System, collect}
use mii_sound.Server.Engine.Paths.{Steps, here, then, Steps-trans}
use mii_sound.Server.Engine.Paths.Arrivals.{
  Comes, AreNew, with_state, arrive, arrived, arrive-Steps, All-left, All-right, both_submitted,
  first_new, second_new,
}

-- The dispatcher's batch and the queue behind a part of the grace window.
abbrev pub windowed : PendingItem → List (List PendingItem) → System → System
windowed first window s =
    with_state (grace_window first.key s.engine.parallel s.in_hand s.engine.queue window).0
      (grace_window first.key s.engine.parallel s.in_hand s.engine.queue window).1
      (s.submitted ++ tickets (concat window)) s

abbrev pub drained : PendingItem → System → System
drained first s =
    with_state (drain_matching first.key s.engine.parallel s.in_hand s.engine.queue).0
      (drain_matching first.key s.engine.parallel s.in_hand s.engine.queue).1 s.submitted s

pub drained-hand :
    (first : PendingItem) (rest : List PendingItem) (s : System)
    → s.in_hand ≡ first ∷ rest
    → (more : List PendingItem) × ((drained first s).in_hand ≡ first ∷ more)
drained-hand first rest s e =
    let d = drain_matching-Drained first.key s.engine.parallel s.in_hand s.engine.queue in
    (rest ++ d.took, d.grows ∙ ap (λ (l : List PendingItem). l ++ d.took) e)

grown :
    (s : System) (xs : List PendingItem) (later : List (List PendingItem))
    (hand queue : List PendingItem)
    → with_state hand queue ((s.submitted ++ tickets xs) ++ tickets (concat later)) s
      ≡ with_state hand queue (s.submitted ++ tickets (xs ++ concat later)) s
grown s xs later hand queue =
    ap (λ (l : List ℕ). with_state hand queue l s) (both_submitted s xs (concat later))

-- One part of the window, with a full batch and with room in it.
module _ (key : BatchKey) (limit : ℕ) (batch q xs : List PendingItem)
    (later : List (List PendingItem)) where
  window_full :
      ltb (length batch) limit ≡ false
      → grace_window key limit batch (q ++ xs) later ≡ grace_window key limit batch q (xs ∷ later)
  unfolding grace_window
  window_full full = rw (full, grace_window) refl

  window_room :
      ltb (length batch) limit ≡ true
      → grace_window key limit
          (drain_matching key limit batch (q ++ xs)).0
          (drain_matching key limit batch (q ++ xs)).1
          later
        ≡ grace_window key limit batch q (xs ∷ later)
  unfolding grace_window
  window_room room = rw (room, grace_window) refl

-- The batch keeps its first item.
pub grace_window-hand :
    (key : BatchKey) (limit : ℕ) (first : PendingItem) (rest batch q : List PendingItem)
    (window : List (List PendingItem))
    → batch ≡ first ∷ rest
    → (more : List PendingItem) × ((grace_window key limit batch q window).0 ≡ first ∷ more)
unfolding grace_window
grace_window-hand key limit first rest batch q [] e = (rest, e)
grace_window-hand key limit first rest batch q (xs ∷ later) e =
    elim (Bool-cases (ltb (length batch) limit)) [
      | inr full ↦
          let (more, h) = grace_window-hand key limit first rest batch (q ++ xs) later e in
          (
            more,
            ap (λ (r : List PendingItem × List PendingItem). r.0)
                  (sym (window_full key limit batch q xs later full))
                ∙ h,
          )
      | inl room ↦
          let d = drain_matching-Drained key limit batch (q ++ xs) in
          let (more, h) =
            grace_window-hand key limit first (rest ++ d.took)
              (drain_matching key limit batch (q ++ xs)).0 _ later
              (d.grows ∙ ap (λ (l : List PendingItem). l ++ d.took) e) in
          (
            more,
            ap (λ (r : List PendingItem × List PendingItem). r.0)
                  (sym (window_room key limit batch q xs later room))
                ∙ h,
          )
    ]

abbrev shaped : System → List ℕ → List PendingItem × List PendingItem → System
shaped s submitted r = with_state r.0 r.1 submitted s

pub window-Steps :
    (first : PendingItem) (rest : List PendingItem) (window : List (List PendingItem)) (s : System)
    → s.in_hand ≡ first ∷ rest
    → 1 < s.engine.parallel
    → All Comes (concat window)
    → AreNew (concat window) s
    → Steps s (windowed first window s)
unfolding grace_window concat
window-Steps first rest [] s e many cs new =
    subst (Steps s) (arrived s refl (sym (append-nil s.submitted))) here
window-Steps first rest (xs ∷ later) s e many cs new =
    let s1 : System = arrive xs s in
    let arrivals : Steps s s1 =
      arrive-Steps xs s (All-left Comes xs (concat later) cs) (first_new s xs (concat later) new) in
    let cs' : All Comes (concat later) = All-right Comes xs (concat later) cs in
    let new' : AreNew (concat later) s1 = second_new s xs (concat later) new in
    let n = s.engine.parallel in
    let q = s.engine.queue in
    let submitted = s.submitted ++ tickets (xs ++ concat later) in
    elim (Bool-cases (ltb (length s.in_hand) n)) [
      | inr full ↦
          subst (Steps s)
            (grown s xs later _ _
              ∙ ap (shaped s submitted) (window_full first.key n s.in_hand q xs later full))
            (Steps-trans arrivals (window-Steps first rest later s1 e many cs' new'))
      | inl room ↦
          let (more, e') = drained-hand first rest s1 e in
          subst (Steps s)
            (grown s xs later _ _
              ∙ ap (shaped s submitted) (window_room first.key n s.in_hand q xs later room))
            (Steps-trans arrivals (
              then (collect first rest e many)
                (window-Steps first more later (drained first s1) e' many cs' new')))
    ]
