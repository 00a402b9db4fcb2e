-- ===== src/Worker/Slot/Caused.antt =====
-- A signal that reaches the request in the slot of src/worker.rs.
use mii_sound.Common.{
  ℕ, ◌≡◌, refl, ap, ◌∙◌, arith, Bool, true, false, not, ◌&&◌, List, [], ◌∷◌, ◌++◌, Option, none,
  some, All, append_assoc, Bool-cases, inl, inr,
}
use mii_sound.Worker.Slot.{
  Event, begins, ends, arrives, received, looks, Slot, empty_slot, cancel, on_event, on_events,
}

-- The token of the request that has begun and has not ended.
unfoldable pub holder : Option ℕ → List Event → Option ℕ
holder o [] = o
holder o (begins token ∷ events) = holder (some token) events
holder o (ends ∷ events) = holder none events
holder o (_ ∷ events) = holder o events

abbrev pub is_received : Event → Bool
is_received received = true
is_received _ = false

abbrev pub looks_now : Event → Bool
looks_now looks = true
looks_now _ = false

-- A signal arrived, the handler received it next, looked next behind that, and the request of this
-- token was the one under way when it looked.
pub record Caused (events : List Event) (token : ℕ) : Type 0 where
  pub before : List Event
  pub kept : List Event
  pub woken : List Event
  pub after : List Event
  pub parts : events ≡ (before ++ arrives ∷ (kept ++ received ∷ woken)) ++ looks ∷ after
  pub none_received : All (λ e. is_received e ≡ false) kept
  pub no_look : All (λ e. looks_now e ≡ false) woken
  pub holds : holder none (before ++ arrives ∷ (kept ++ received ∷ woken)) ≡ some token

pub record Cancelled (cancelled : List ℕ) (token : ℕ) : Type 0 where
  pub earlier : List ℕ
  pub later : List ℕ
  pub parts : cancelled ≡ earlier ++ token ∷ later

pub holder-append :
    (o : Option ℕ) (xs ys : List Event) → holder o (xs ++ ys) ≡ holder (holder o xs) ys
unfolding holder
holder-append o [] ys = refl
holder-append o (begins token ∷ xs) ys = holder-append (some token) xs ys
holder-append o (ends ∷ xs) ys = holder-append none xs ys
holder-append o (arrives ∷ xs) ys = holder-append o xs ys
holder-append o (received ∷ xs) ys = holder-append o xs ys
holder-append o (looks ∷ xs) ys = holder-append o xs ys

on_events-append :
    (xs ys : List Event) (s : Slot) → on_events (xs ++ ys) s ≡ on_events ys (on_events xs s)
unfolding on_events
on_events-append [] ys s = refl
on_events-append (x ∷ xs) ys s = on_events-append xs ys (on_event x s)

-- The slot holds the token of the request under way.
on_events-current :
    (events : List Event) (s : Slot) → (on_events events s).current ≡ holder s.current events
unfolding on_events on_event holder
on_events-current [] s = refl
on_events-current (begins token ∷ events) s = on_events-current events (on_event (begins token) s)
on_events-current (ends ∷ events) s = on_events-current events (on_event ends s)
on_events-current (arrives ∷ events) s = on_events-current events (on_event arrives s)
on_events-current (received ∷ events) s =
    on_events-current events (on_event received s) ∙ ap (λ o. holder o events) (ground arith)
on_events-current (looks ∷ events) s =
    on_events-current events (on_event looks s) ∙ ap (λ o. holder o events) (ground arith)

-- A signal waits until it is received, and the handler stays awake until it looks.
on_events-pending :
    (events : List Event) (s : Slot)
    → All (λ e. is_received e ≡ false) events
    → s.pending ≡ true
    → (on_events events s).pending ≡ true
unfolding on_events on_event
on_events-pending [] s all h = h
on_events-pending (begins token ∷ events) s all h = on_events-pending events _ all.1 h
on_events-pending (ends ∷ events) s all h = on_events-pending events _ all.1 h
on_events-pending (arrives ∷ events) s all h = on_events-pending events _ all.1 refl
on_events-pending (received ∷ events) s all h = absurd (cc all.0)
on_events-pending (looks ∷ events) s all h =
    on_events-pending events (on_event looks s) all.1 (ground arith)

on_events-woken :
    (events : List Event) (s : Slot)
    → All (λ e. looks_now e ≡ false) events
    → s.woken ≡ true
    → (on_events events s).woken ≡ true
unfolding on_events on_event
on_events-woken [] s all h = h
on_events-woken (begins token ∷ events) s all h = on_events-woken events _ all.1 h
on_events-woken (ends ∷ events) s all h = on_events-woken events _ all.1 h
on_events-woken (arrives ∷ events) s all h = on_events-woken events _ all.1 h
on_events-woken (received ∷ events) s all h =
    on_events-woken events (on_event received s) all.1 (ground arith)
on_events-woken (looks ∷ events) s all h = absurd (cc all.0)

Cancelled-cancel :
    (o : Option ℕ) (cancelled : List ℕ) (token : ℕ) (earlier later : List ℕ)
    → cancelled ≡ earlier ++ token ∷ later
    → Cancelled (cancel o cancelled) token
Cancelled-cancel none cancelled token earlier later p = record {
  earlier = earlier;
  later = later;
  parts = p;
}
Cancelled-cancel (some other) cancelled token earlier later p = record {
  earlier = earlier;
  later = later ++ other ∷ [];
  parts = ap (λ t. t ++ other ∷ []) p ∙ append_assoc earlier (token ∷ later) (other ∷ []);
}

Cancelled-keeps :
    (events : List Event) (s : Slot) (token : ℕ)
    → Cancelled s.cancelled token
    → Cancelled (on_events events s).cancelled token
unfolding on_events on_event
Cancelled-keeps [] s token c = c
Cancelled-keeps (begins other ∷ events) s token c = Cancelled-keeps events _ token c
Cancelled-keeps (ends ∷ events) s token c = Cancelled-keeps events _ token c
Cancelled-keeps (arrives ∷ events) s token c = Cancelled-keeps events _ token c
Cancelled-keeps (received ∷ events) s token c =
    Cancelled-keeps events (on_event received s) token
      (elim (Bool-cases (s.pending && not s.woken)) [ inl h ↦ rw h c | inr h ↦ rw h c ])
Cancelled-keeps (looks ∷ events) s token c =
    Cancelled-keeps events (on_event looks s) token (elim (Bool-cases s.woken) [
      | inl h ↦ rw h (Cancelled-cancel s.current s.cancelled token c.earlier c.later c.parts)
      | inr h ↦ rw h c
    ])

received-wakes : (s : Slot) → s.pending ≡ true → (on_event received s).woken ≡ true
unfolding on_event
received-wakes s h = ground arith

looks-Cancelled :
    (s : Slot) (token : ℕ)
    → s.woken ≡ true
    → s.current ≡ some token
    → Cancelled (on_event looks s).cancelled token
unfolding on_event
looks-Cancelled s token h c = rw (h, c) (record { earlier = s.cancelled; later = []; parts = refl })

on_events-wakes :
    (before kept woken : List Event) (s : Slot)
    → All (λ e. is_received e ≡ false) kept
    → All (λ e. looks_now e ≡ false) woken
    → (on_events (before ++ arrives ∷ (kept ++ received ∷ woken)) s).woken ≡ true
unfolding on_events on_event
on_events-wakes before kept woken s none_received no_look =
    ap (λ (t : Slot). t.woken)
      (on_events-append before (arrives ∷ (kept ++ received ∷ woken)) s
        ∙ on_events-append kept (received ∷ woken) waiting)
    ∙ on_events-woken woken _ no_look (
        received-wakes (on_events kept waiting) (on_events-pending kept waiting none_received refl))
  where
    waiting : Slot
    waiting = on_event arrives (on_events before s)

pub Caused-Cancelled :
    (events : List Event) (token : ℕ)
    → Caused events token
    → Cancelled (on_events events empty_slot).cancelled token
unfolding on_events
Caused-Cancelled events token c =
    rw
      (ap (λ t. on_events t empty_slot) c.parts
        ∙ on_events-append past (looks ∷ c.after) empty_slot)
      (Cancelled-keeps c.after _ token (
        looks-Cancelled (on_events past empty_slot) token
          (on_events-wakes c.before c.kept c.woken empty_slot c.none_received c.no_look)
          (on_events-current past empty_slot ∙ c.holds)))
  where
    past : List Event
    past = c.before ++ arrives ∷ (c.kept ++ received ∷ c.woken)
