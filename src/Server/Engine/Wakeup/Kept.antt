-- ===== src/Server/Engine/Wakeup/Kept.antt =====
-- The moves of the dispatcher and the events of the other tasks of src/server/tts.rs, and what each
-- phase says of the engine.
use mii_sound.Common.{
  ℕ, ◌<◌, ◌≡◌, refl, sym, ap, Option, ◌∙◌, ◌≢◌, subst, arith, Bool-cases, inl, inr, ◌⊎◌, List, [],
  ◌∷◌, ◌++◌, none, ltb, length,
}
use mii_sound.Io.{Parsed, good, bad}
use mii_sound.Proto.{TtsRequest}
use mii_sound.Server.Engine.{PendingItem, Engine}
use mii_sound.Server.Engine.Drain.{drain_matching-Drained}
use mii_sound.Server.Engine.System as System
use mii_sound.Server.Engine.System.{generate}
use mii_sound.Server.Engine.System.Keeps.{stream_relay-Keeps, evict-Keeps}
use mii_sound.Server.Engine.Wakeup.{
  Notify, Phase, looking, asleep, draining, in_window, sending, first_phase, window_phase, Tasks,
  start_tasks, Move, take, sleep, wake, drain, nudge, deadline, dispatch, Event, push, refuse,
  notify, stream, unload, crash, output, Reach, start, moved, happened,
}

-- What the dispatcher has in hand in each phase, and how large its batches can be.
abbrev pub HandOf : Phase → List PendingItem → ℕ → Type 0
HandOf looking hand n = hand ≡ []
HandOf asleep hand n = hand ≡ []
HandOf draining hand n = (1 < n) × (x : PendingItem) × (xs : List PendingItem) × (hand ≡ x ∷ xs)
HandOf in_window hand n = (1 < n) × (x : PendingItem) × (xs : List PendingItem) × (hand ≡ x ∷ xs)
HandOf sending hand n = (x : PendingItem) × (xs : List PendingItem) × (hand ≡ x ∷ xs)

first-HandOf :
    (n : ℕ) (x : PendingItem) (hand : List PendingItem)
    → hand ≡ x ∷ []
    → HandOf (first_phase n) hand n
first-HandOf n x hand e = elim (Bool-cases (ltb 1 n)) [
  | inl many ↦ rw many (ground arith, x, [], e)
  | inr one ↦ rw one (x, [], e)
]

window-HandOf :
    (n : ℕ) (x : PendingItem) (hand rest : List PendingItem)
    → 1 < n
    → hand ≡ x ∷ rest
    → HandOf (window_phase n hand) hand n
window-HandOf n x hand rest many e = elim (Bool-cases (ltb (length hand) n)) [
  | inl room ↦ rw room (many, x, rest, e)
  | inr full ↦ rw full (x, rest, e)
]

module _ (from_slice : List ℕ → Parsed TtsRequest) (json : List ℕ) (audio : Option (List ℕ))
    (ticket : ℕ) (e : Engine) where
  push-limit :
      (req : TtsRequest)
      → from_slice json ≡ good req
      → (generate from_slice json audio ticket e).parallel ≡ e.parallel
  unfolding generate
  push-limit req ok = rw (generate, ok) refl

  refuse-Keeps :
      (why : List ℕ)
      → from_slice json ≡ bad why
      → ((generate from_slice json audio ticket e).queue ≡ e.queue)
        × ((generate from_slice json audio ticket e).parallel ≡ e.parallel)
  unfolding generate
  refuse-Keeps why bad_json = rw (generate, bad_json) (refl, refl)

module _ (ntf : Notify) where
  open ntf use {notified, kept_for_wait}

  -- While the dispatcher sleeps with a request in the queue, a notice is kept or yet to come.
  pub record Inv (s : Tasks ntf) : Type 0 where
    pub hand : HandOf s.phase s.sys.in_hand s.sys.engine.parallel
    pub heard :
        s.phase ≡ asleep → s.sys.engine.queue ≢ [] → s.notifying ≡ 0 → notified s.permit ≢ none

  -- A phase in which nobody sleeps has nothing to hear.
  abbrev Heard : Tasks ntf → Type 0
  Heard s = s.phase ≡ asleep → s.sys.engine.queue ≢ [] → s.notifying ≡ 0 → notified s.permit ≢ none

  hand_at :
      {s : Tasks ntf} (p : Phase)
      → s.phase ≡ p
      → Inv s
      → HandOf p s.sys.in_hand s.sys.engine.parallel
  hand_at {s} p e i = subst (λ q. HandOf q s.sys.in_hand s.sys.engine.parallel) e i.hand

  start-Inv : (ttl parallel batch_window : ℕ) → Inv (start_tasks ntf ttl parallel batch_window)
  start-Inv ttl parallel batch_window = record { hand = refl; heard = λ h. cc }

  first_phase-awake : (n : ℕ) → first_phase n ≢ asleep
  first_phase-awake n = ground arith

  window_phase-awake : (n : ℕ) (batch : List PendingItem) → window_phase n batch ≢ asleep
  window_phase-awake n batch = ground arith

  Move-Inv : {s t : Tasks ntf} → Move ntf s t → Inv s → Inv t
  Move-Inv {s} (take first q p e) i = record {
    hand = first-HandOf s.sys.engine.parallel first (first ∷ []) refl;
    heard = λ h. absurd (first_phase-awake s.sys.engine.parallel h);
  }
  Move-Inv {s} (sleep p e) i = record { hand = hand_at looking p i; heard = λ h q. absurd (q e) }
  Move-Inv {s} (wake p a e) i = record { hand = hand_at asleep a i; heard = λ h. cc }
  Move-Inv {s} (drain first rest p e) i =
      let d =
        drain_matching-Drained first.key s.sys.engine.parallel s.sys.in_hand s.sys.engine.queue in
      record {
        hand =
            window-HandOf s.sys.engine.parallel first _ (rest ++ d.took) (hand_at draining p i).0
              (d.grows ∙ ap (λ (l : List PendingItem). l ++ d.took) e);
        heard = λ h. absurd (window_phase-awake s.sys.engine.parallel _ h);
      }
  Move-Inv {s} (nudge n p e) i = record { hand = hand_at in_window p i; heard = λ h. cc }
  Move-Inv {s} (deadline p) i =
      let (_, x, xs, e) = hand_at in_window p i in record { hand = (x, xs, e); heard = λ h. cc }
  Move-Inv {s} (dispatch env first rest p e) i = record { hand = refl; heard = λ h. cc }

  -- An event that keeps the queue and the limit, the notice and the count of handlers.
  Keeps-Inv :
      (s : Tasks ntf) (e : Engine) (done : List ℕ)
      → e.queue ≡ s.sys.engine.queue
      → e.parallel ≡ s.sys.engine.parallel
      → Inv s
      → Inv (record s { sys = record s.sys { engine = e; submitted = done } })
  Keeps-Inv s e done queue limit i = record {
    hand = subst (HandOf s.phase s.sys.in_hand) (sym limit) i.hand;
    heard = λ h q. i.heard h (λ r. q (queue ∙ r));
  }

  Event-Inv : {s t : Tasks ntf} → Event ntf s t → Inv s → Inv t
  Event-Inv {s} (push from_slice json audio ticket req fresh ok) i = record {
    hand =
        subst (HandOf s.phase s.sys.in_hand)
          (sym (push-limit from_slice json audio ticket s.sys.engine req ok)) i.hand;
    heard = λ h q z. cc;
  }
  Event-Inv {s} (refuse from_slice json audio ticket why fresh bad_json) i =
      let (q, l) = refuse-Keeps from_slice json audio ticket s.sys.engine why bad_json in
      Keeps-Inv s _ _ q l i
  Event-Inv {s} (notify n e) i = record { hand = i.hand; heard = λ h q z. kept_for_wait s.permit }
  Event-Inv {s} (stream env json audio cancel out) i =
      let k = stream_relay-Keeps env json audio cancel s.sys.engine out in
      Keeps-Inv s _ _ k.queue k.limit i
  Event-Inv {s} (unload now) i =
      let k = evict-Keeps now s.sys.engine in Keeps-Inv s _ _ k.queue k.limit i
  Event-Inv {s} (crash w status e) i = Keeps-Inv s _ _ refl refl i
  Event-Inv {s} (output w bytes e) i = Keeps-Inv s _ _ refl refl i

  pub Reach-Inv :
      {ttl parallel batch_window : ℕ} {s : Tasks ntf}
      → Reach ntf ttl parallel batch_window s
      → Inv s
  Reach-Inv {ttl} {parallel} {batch_window} start = start-Inv ttl parallel batch_window
  Reach-Inv (moved r m) = Move-Inv m (Reach-Inv r)
  Reach-Inv (happened r v) = Event-Inv v (Reach-Inv r)

  -- Each move and each event is a step of the engine with all its tasks, or leaves it as it is.
  Move-Step : {s t : Tasks ntf} → Move ntf s t → Inv s → (s.sys ≡ t.sys) ⊎ System.Step s.sys t.sys
  Move-Step {s} (take first q p e) i = inr (System.take_first first q (hand_at looking p i) e)
  Move-Step (sleep p e) i = inl refl
  Move-Step (wake p a e) i = inl refl
  Move-Step {s} (drain first rest p e) i =
      inr (System.collect first rest e (hand_at draining p i).0)
  Move-Step (nudge n p e) i = inl refl
  Move-Step (deadline p) i = inl refl
  Move-Step (dispatch env first rest p e) i = inr (System.dispatch env first rest e)

  Event-Step : {s t : Tasks ntf} → Event ntf s t → (s.sys ≡ t.sys) ⊎ System.Step s.sys t.sys
  Event-Step (push from_slice json audio ticket req fresh ok) =
      inr (System.submit from_slice json audio ticket fresh)
  Event-Step (refuse from_slice json audio ticket why fresh bad_json) =
      inr (System.submit from_slice json audio ticket fresh)
  Event-Step (notify n e) = inl refl
  Event-Step (stream env json audio cancel out) = inr (System.stream env json audio cancel out)
  Event-Step (unload now) = inr (System.unload now)
  Event-Step (crash w status e) = inr (System.crash w status e)
  Event-Step (output w bytes e) = inr (System.output w bytes e)

  -- Whatever order of moves of the dispatcher and of events leads to a state, the engine in it is
  -- one that the steps of the engine's tasks, each under one lock, lead to.
  pub Reach-Steps :
      {ttl parallel batch_window : ℕ} {s : Tasks ntf}
      → Reach ntf ttl parallel batch_window s
      → System.Reach ttl parallel batch_window s.sys
  Reach-Steps start = System.start
  Reach-Steps {ttl} {parallel} {batch_window} (moved r m) = elim (Move-Step m (Reach-Inv r)) [
    | inl e ↦ subst (System.Reach ttl parallel batch_window) e (Reach-Steps r)
    | inr st ↦ System.later (Reach-Steps r) st
  ]
  Reach-Steps {ttl} {parallel} {batch_window} (happened r v) = elim (Event-Step v) [
    | inl e ↦ subst (System.Reach ttl parallel batch_window) e (Reach-Steps r)
    | inr st ↦ System.later (Reach-Steps r) st
  ]
