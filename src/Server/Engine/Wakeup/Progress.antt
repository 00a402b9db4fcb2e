-- ===== src/Server/Engine/Wakeup/Progress.antt =====
-- How the dispatcher of src/server/tts.rs goes on, by itself, out of each of its phases.
use mii_sound.Common.{
  ℕ, ◌≡◌, refl, sym, ◌∙◌, ap, arith, ◌≢◌, Bool-cases, Option-cases, inl, inr, List, [], ◌∷◌, ◌++◌,
  Option, none, some, ltb, length,
}
use mii_sound.Server.Engine.{PendingItem}
use mii_sound.Server.Engine.Queue.{drain_matching}
use mii_sound.Server.Engine.Drain.{drain_matching-Drained}
use mii_sound.Server.Engine.Wakeup.{
  Notify, Phase, looking, asleep, draining, in_window, sending, Tasks, Move, take, wake, drain,
  deadline, Reach, Walk, here, then,
}
use mii_sound.Server.Engine.Wakeup.Kept.{HandOf, Reach-Inv}

-- The request whose turn it is.
abbrev pub next_up : List PendingItem → List PendingItem → Option PendingItem
next_up (x ∷ _) q = some x
next_up [] (x ∷ _) = some x
next_up [] [] = none

some-inj : {x y : PendingItem} → ◌≡◌ {A = Option PendingItem} (some x) (some y) → x ≡ y
some-inj e = cc

module _ (ntf : Notify) where
  open ntf use {notified}

  -- The dispatcher, by its moves alone, comes to dispatch a batch that the request leads.
  pub record Leads (s : Tasks ntf) (first : PendingItem) : Type 0 where
    pub at : Tasks ntf
    pub walk : Walk ntf s at
    pub sends : at.phase ≡ sending
    pub others : List PendingItem
    pub batch : at.sys.in_hand ≡ first ∷ others

  later_on : {s t : Tasks ntf} {first : PendingItem} → Move ntf s t → Leads t first → Leads s first
  later_on m l = record {
    at = l.at;
    walk = then m l.walk;
    sends = l.sends;
    others = l.others;
    batch = l.batch;
  }

  sending-Leads :
      (s : Tasks ntf) (first : PendingItem) (rest : List PendingItem)
      → s.phase ≡ sending
      → s.sys.in_hand ≡ first ∷ rest
      → Leads s first
  sending-Leads s first rest p e = record {
    at = s;
    walk = here;
    sends = p;
    others = rest;
    batch = e;
  }

  in_window-Leads :
      (s : Tasks ntf) (first : PendingItem) (rest : List PendingItem)
      → s.phase ≡ in_window
      → s.sys.in_hand ≡ first ∷ rest
      → Leads s first
  in_window-Leads s first rest p e = later_on (deadline p) (sending-Leads _ first rest refl e)

  draining-Leads :
      (s : Tasks ntf) (first : PendingItem) (rest : List PendingItem)
      → s.phase ≡ draining
      → s.sys.in_hand ≡ first ∷ rest
      → Leads s first
  draining-Leads s first rest p e =
      let n = s.sys.engine.parallel in
      let d = drain_matching-Drained first.key n s.sys.in_hand s.sys.engine.queue in
      let grown = d.grows ∙ ap (λ (l : List PendingItem). l ++ d.took) e in
      later_on (drain first rest p e)
        (elim (Bool-cases
          (ltb (length (drain_matching first.key n s.sys.in_hand s.sys.engine.queue).0) n)) [
            | inl room ↦ in_window-Leads _ first (rest ++ d.took) (rw room refl) grown
            | inr full ↦ sending-Leads _ first (rest ++ d.took) (rw full refl) grown
          ])

  looking-Leads :
      (s : Tasks ntf) (first : PendingItem) (q : List PendingItem)
      → s.phase ≡ looking
      → s.sys.engine.queue ≡ first ∷ q
      → Leads s first
  looking-Leads s first q p e =
      later_on (take first q p e) (elim (Bool-cases (ltb 1 s.sys.engine.parallel)) [
        | inl many ↦ draining-Leads _ first [] (rw many refl) refl
        | inr one ↦ sending-Leads _ first [] (rw one refl) refl
      ])

  asleep-Leads :
      (s : Tasks ntf) (first : PendingItem) (q : List PendingItem)
      → s.phase ≡ asleep
      → s.sys.engine.queue ≡ first ∷ q
      → notified s.permit ≢ none
      → Leads s first
  asleep-Leads s first q p e heard = elim (Option-cases (notified s.permit)) [
    | inl silent ↦ absurd (heard silent)
    | inr (n, woken) ↦ later_on (wake n p woken) (looking-Leads _ first q refl e)
  ]

  -- With nothing in hand the turn is that of the oldest request in the queue.
  queued :
      (q : List PendingItem) (first : PendingItem)
      → next_up [] q ≡ some first
      → (rest : List PendingItem) × (q ≡ first ∷ rest)
  queued [] first e = absurd (ground arith)
  queued (x ∷ rest) first e = (rest, ap (λ (y : PendingItem). y ∷ rest) (some-inj e))

  held :
      (q : List PendingItem) {hand rest : List PendingItem} {x first : PendingItem}
      → hand ≡ x ∷ rest
      → next_up hand q ≡ some first
      → hand ≡ first ∷ rest
  held q {rest = rest} {x = x} {first = first} e u =
      let same : x ≡ first = some-inj (sym (ap (λ (l : List PendingItem). next_up l q) e) ∙ u) in
      e ∙ ap (λ (y : PendingItem). y ∷ rest) same

  at_phase :
      (s : Tasks ntf) (p : Phase) (first : PendingItem)
      → s.phase ≡ p
      → HandOf p s.sys.in_hand s.sys.engine.parallel
      → (p ≡ asleep → s.sys.engine.queue ≢ [] → notified s.permit ≢ none)
      → next_up s.sys.in_hand s.sys.engine.queue ≡ some first
      → Leads s first
  at_phase s looking first p h heard u =
      let (rest, e) =
        queued s.sys.engine.queue first
          (ap (λ (l : List PendingItem). next_up l s.sys.engine.queue) (sym h) ∙ u) in
      looking-Leads s first rest p e
  at_phase s asleep first p h heard u =
      let (rest, e) =
        queued s.sys.engine.queue first
          (ap (λ (l : List PendingItem). next_up l s.sys.engine.queue) (sym h) ∙ u) in
      asleep-Leads s first rest p e (heard refl (λ none_waits. cc))
  at_phase s draining first p (_, x, xs, e) heard u = draining-Leads s first xs p (held _ e u)
  at_phase s in_window first p (_, x, xs, e) heard u = in_window-Leads s first xs p (held _ e u)
  at_phase s sending first p (x, xs, e) heard u = sending-Leads s first xs p (held _ e u)

  -- In every order of what the tasks do: if some request is in hand or waits, and no handler is
  -- between its push and its notice, the dispatcher can go on by its moves alone, also out of its
  -- sleep, until it dispatches a batch led by the request whose turn it is.
  pub Reach-Leads :
      {ttl parallel batch_window : ℕ} {s : Tasks ntf} (first : PendingItem)
      → Reach ntf ttl parallel batch_window s
      → next_up s.sys.in_hand s.sys.engine.queue ≡ some first
      → s.notifying ≡ 0
      → Leads s first
  Reach-Leads {s = s} first r u z =
      let i = Reach-Inv ntf r in at_phase s s.phase first refl i.hand (λ h q. i.heard h q z) u
