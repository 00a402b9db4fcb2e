-- ===== src/Worker/Slot/Reach.antt =====
-- Which requests a signal of src/worker.rs cancels.
use mii_sound.Common.{
  ℕ, ◌≡◌, refl, sym, ap, ◌∙◌, arith, true, false, List, [], ◌∷◌, ◌++◌, Option, none, some, All,
  append_assoc, append-nil,
}
use mathlib.Core.Logic.{◌↔◌}
use mii_sound.Worker.Slot.{
  Event, begins, ends, arrives, received, looks, Slot, empty_slot, cancel, on_event, on_events,
  happens, Happens,
}
use mii_sound.Worker.Slot.Caused.{
  holder, is_received, looks_now, Caused, Cancelled, holder-append, Caused-Cancelled,
}

-- A signal that arrived and has not been received.
record Waits (past : List Event) : Type 0 where
  before : List Event
  kept : List Event
  parts : past ≡ before ++ arrives ∷ kept
  none_received : All (λ e. is_received e ≡ false) kept

-- One that was received, and the handler has not looked since.
record Wakes (past : List Event) : Type 0 where
  before : List Event
  kept : List Event
  woken : List Event
  parts : past ≡ before ++ arrives ∷ (kept ++ received ∷ woken)
  none_received : All (λ e. is_received e ≡ false) kept
  no_look : All (λ e. looks_now e ≡ false) woken

module _ {A : Type 0} (P : A → Type 0) where
  All-snoc : (xs : List A) (x : A) → All P xs → P x → All P (xs ++ x ∷ [])
  All-snoc [] x all p = (p, tt)
  All-snoc (y ∷ xs) x all p = (all.0, All-snoc xs x all.1 p)

module _ {A : Type 0} {P Q : A → Type 0} (f : (x : A) → P x → Q x) where
  All-later : (xs : List A) → All P xs → All Q xs
  All-later [] all = tt
  All-later (x ∷ xs) all = (f x all.0, All-later xs all.1)

All-at : (P : ℕ → Type 0) (xs ys : List ℕ) (x : ℕ) → All P (xs ++ x ∷ ys) → P x
All-at P [] ys x all = all.0
All-at P (y ∷ xs) ys x all = All-at P xs ys x all.1

-- What is known of the slot behind the events so far.
record Explained (past : List Event) (s : Slot) : Type 0 where
  current : s.current ≡ holder none past
  waits : s.pending ≡ true → Waits past
  wakes : s.woken ≡ true → Wakes past
  causes : All (Caused past) s.cancelled

module _ (past : List Event) where
  Waits-snoc : (e : Event) → is_received e ≡ false → Waits past → Waits (past ++ e ∷ [])
  Waits-snoc e h w = record {
    before = w.before;
    kept = w.kept ++ e ∷ [];
    parts = ap (λ t. t ++ e ∷ []) w.parts ∙ append_assoc w.before (arrives ∷ w.kept) (e ∷ []);
    none_received = All-snoc _ w.kept e w.none_received h;
  }

  Waits-arrives : Waits (past ++ arrives ∷ [])
  Waits-arrives = record { before = past; kept = []; parts = refl; none_received = tt }

  Wakes-snoc : (e : Event) → looks_now e ≡ false → Wakes past → Wakes (past ++ e ∷ [])
  Wakes-snoc e h w = record {
    before = w.before;
    kept = w.kept;
    woken = w.woken ++ e ∷ [];
    parts =
        ap (λ t. t ++ e ∷ []) w.parts
        ∙ append_assoc w.before (arrives ∷ (w.kept ++ received ∷ w.woken)) (e ∷ [])
        ∙ ap (λ t. w.before ++ arrives ∷ t) (append_assoc w.kept (received ∷ w.woken) (e ∷ []));
    none_received = w.none_received;
    no_look = All-snoc _ w.woken e w.no_look h;
  }

  Wakes-received : Waits past → Wakes (past ++ received ∷ [])
  Wakes-received w = record {
    before = w.before;
    kept = w.kept;
    woken = [];
    parts =
        ap (λ t. t ++ received ∷ []) w.parts
        ∙ append_assoc w.before (arrives ∷ w.kept) (received ∷ []);
    none_received = w.none_received;
    no_look = tt;
  }

  Caused-snoc : (e : Event) (token : ℕ) → Caused past token → Caused (past ++ e ∷ []) token
  Caused-snoc e token c = record {
    before = c.before;
    kept = c.kept;
    woken = c.woken;
    after = c.after ++ e ∷ [];
    parts = ap (λ t. t ++ e ∷ []) c.parts ∙ append_assoc _ (looks ∷ c.after) (e ∷ []);
    none_received = c.none_received;
    no_look = c.no_look;
    holds = c.holds;
  }

  Caused-looks :
      (token : ℕ) → Wakes past → holder none past ≡ some token → Caused (past ++ looks ∷ []) token
  Caused-looks token w h = record {
    before = w.before;
    kept = w.kept;
    woken = w.woken;
    after = [];
    parts = ap (λ t. t ++ looks ∷ []) w.parts;
    none_received = w.none_received;
    no_look = w.no_look;
    holds = ap (holder none) (sym w.parts) ∙ h;
  }

  cancel-Caused :
      (o : Option ℕ) (c : List ℕ)
      → o ≡ holder none past
      → Wakes past
      → All (Caused past) c
      → All (Caused (past ++ looks ∷ [])) (cancel o c)
  cancel-Caused none c h w all = All-later (Caused-snoc looks) c all
  cancel-Caused (some token) c h w all =
      All-snoc _ c token (All-later (Caused-snoc looks) c all) (Caused-looks token w (sym h))

  on_event-Explained :
      (e : Event) (s : Slot)
      → Explained past s
      → happens e s ≡ true
      → Explained (past ++ e ∷ []) (on_event e s)
  unfolding on_event holder
  on_event-Explained (begins token) s x h = record {
    current = sym (holder-append none past (begins token ∷ []));
    waits = λ p. Waits-snoc _ refl (x.waits p);
    wakes = λ p. Wakes-snoc _ refl (x.wakes p);
    causes = All-later (Caused-snoc _) s.cancelled x.causes;
  }
  on_event-Explained ends s x h = record {
    current = sym (holder-append none past (ends ∷ []));
    waits = λ p. Waits-snoc _ refl (x.waits p);
    wakes = λ p. Wakes-snoc _ refl (x.wakes p);
    causes = All-later (Caused-snoc _) s.cancelled x.causes;
  }
  on_event-Explained arrives s x h = record {
    current = x.current ∙ sym (holder-append none past (arrives ∷ []));
    waits = λ p. Waits-arrives;
    wakes = λ p. Wakes-snoc _ refl (x.wakes p);
    causes = All-later (Caused-snoc _) s.cancelled x.causes;
  }
  on_event-Explained received s x h = rw h (record {
    current = x.current ∙ sym (holder-append none past (received ∷ []));
    waits = λ p. absurd (cc p);
    wakes = λ p. Wakes-received (x.waits (ground (arith, h)));
    causes = All-later (Caused-snoc _) s.cancelled x.causes;
  })
  on_event-Explained looks s x h = rw h (record {
    current = x.current ∙ sym (holder-append none past (looks ∷ []));
    waits = λ p. Waits-snoc _ refl (x.waits p);
    wakes = λ p. absurd (cc p);
    causes = cancel-Caused s.current s.cancelled x.current (x.wakes h) x.causes;
  })

on_events-Explained :
    (past events : List Event) (s : Slot)
    → Explained past s
    → Happens events s
    → Explained (past ++ events) (on_events events s)
unfolding on_events Happens
on_events-Explained past [] s x h = rw (append-nil past) x
on_events-Explained past (e ∷ events) s x h = rw (sym (append_assoc past (e ∷ []) events)) (
    on_events-Explained (past ++ e ∷ []) events (on_event e s) (on_event-Explained past e s x h.0)
      h.1)

-- Behind every sequence of requests, signals and turns of the handler that can happen, the requests
-- that were cancelled are exactly those that were under way when the handler looked into the slot
-- behind a signal: a signal arrived, the handler received it next, and looked next behind that. So
-- nothing is cancelled without a signal, and a signal reaches the request at the time of the look,
-- be it the one at its arrival or a later one, and none if none is under way then.
pub on_events-Caused :
    (events : List Event) (token : ℕ)
    → Happens events empty_slot
    → Caused events token ↔ Cancelled (on_events events empty_slot).cancelled token
on_events-Caused events token h = (Caused-Cancelled events token, backward)
  where
    idle : Explained [] empty_slot
    idle =
        unfold holder in
        record {
          current = refl;
          waits = λ p. absurd (cc p);
          wakes = λ p. absurd (cc p);
          causes = tt;
        }

    explained : Explained events (on_events events empty_slot)
    explained = on_events-Explained [] events empty_slot idle h

    backward : Cancelled (on_events events empty_slot).cancelled token → Caused events token
    backward c = All-at (Caused events) c.earlier c.later token (rw c.parts at explained.causes)
