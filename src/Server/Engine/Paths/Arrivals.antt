-- ===== src/Server/Engine/Paths/Arrivals.antt =====
-- Requests that arrive while the dispatcher of src/server/tts.rs collects its batch, as steps.
use mii_sound.Common.{
  ℕ, ◌≤◌, ◌≡◌, sym, ap, ◌∙◌, subst, arith, List, [], ◌∷◌, ◌++◌, append-nil, append_assoc, All,
  count, count-append,
}
use mii_sound.Io.{Parsed, good}
use mii_sound.Proto.{TtsRequest}
use mii_sound.Server.Engine.{PendingItem, BatchKey, Engine, key_of}
use mii_sound.Server.Engine.Delivery.{tickets}
use mii_sound.Server.Engine.System.{System, Step, generate, submit}
use mii_sound.Server.Engine.System.Counts.{tickets-append}
use mii_sound.Server.Engine.Paths.{Steps, here, then}

-- The item is what `generate` makes of a request that parses.
pub record Comes (x : PendingItem) : Type 0 where
  pub from_slice : List ℕ → Parsed TtsRequest
  pub req : TtsRequest
  pub parses : from_slice x.json ≡ good req
  pub keyed : key_of req ≡ x.key

-- The tickets are new, and differ.
abbrev pub AreNew : List PendingItem → System → Type 0
AreNew xs s = (t : ℕ) → count t (s.submitted ++ tickets xs) ≤ 1

abbrev pub with_state : List PendingItem → List PendingItem → List ℕ → System → System
with_state hand queue submitted s = record {
  engine = record s.engine { queue = queue };
  in_hand = hand;
  submitted = submitted;
}

abbrev pub arrive : List PendingItem → System → System
arrive xs s = with_state s.in_hand (s.engine.queue ++ xs) (s.submitted ++ tickets xs) s

came :
    (x : PendingItem) (c : Comes x) (e : Engine)
    → generate c.from_slice x.json x.audio x.ticket e ≡ record e { queue = e.queue ++ x ∷ [] }
unfolding generate
came x c e =
    rw (c.parses, generate)
      (ap (λ (k : BatchKey). record e { queue = e.queue ++ (record x { key = k }) ∷ [] }) c.keyed)

pub arrived :
    (s : System) {q q' : List PendingItem} {l l' : List ℕ}
    → q ≡ q'
    → l ≡ l'
    → with_state s.in_hand q l s ≡ with_state s.in_hand q' l' s
arrived s e f = λ i. with_state s.in_hand (e i) (f i) s

submit-Step :
    (x : PendingItem) (s : System)
    → Comes x
    → count x.ticket s.submitted ≡ 0
    → Step s (arrive (x ∷ []) s)
submit-Step x s c fresh =
    subst
      (λ (e : Engine). Step s (record s { engine = e; submitted = s.submitted ++ x.ticket ∷ [] }))
      (came x c s.engine) (submit c.from_slice x.json x.audio x.ticket fresh)

pub arrive-Steps :
    (xs : List PendingItem) (s : System) → All Comes xs → AreNew xs s → Steps s (arrive xs s)
arrive-Steps [] s cs new =
    subst (Steps s) (arrived s (sym (append-nil s.engine.queue)) (sym (append-nil s.submitted)))
      here
arrive-Steps (x ∷ xs) s (c, cs) new =
    let next : System = arrive (x ∷ []) s in
    let fresh : count x.ticket s.submitted ≡ 0 =
      ground (arith, new x.ticket, count-append x.ticket s.submitted (x.ticket ∷ tickets xs)) in
    let in_place : (s.submitted ++ x.ticket ∷ []) ++ tickets xs
        ≡ s.submitted ++ x.ticket ∷ tickets xs =
      append_assoc s.submitted (x.ticket ∷ []) (tickets xs) in
    subst (Steps s) (arrived s (append_assoc s.engine.queue (x ∷ []) xs) in_place) (
      then (submit-Step x s c fresh)
        (arrive-Steps xs next cs (λ t. omega (arith, new t, ap (count t) in_place))))

pub All-left : (P : PendingItem → Type 0) (xs ys : List PendingItem) → All P (xs ++ ys) → All P xs
All-left P [] ys h = tt
All-left P (x ∷ xs) ys h = (h.0, All-left P xs ys h.1)

pub All-right : (P : PendingItem → Type 0) (xs ys : List PendingItem) → All P (xs ++ ys) → All P ys
All-right P [] ys h = h
All-right P (x ∷ xs) ys h = All-right P xs ys h.1

-- Two lots of requests, one after the other.
module _ (s : System) (xs ys : List PendingItem) where
  pub both_submitted : (s.submitted ++ tickets xs) ++ tickets ys ≡ s.submitted ++ tickets (xs ++ ys)
  both_submitted =
      append_assoc s.submitted (tickets xs) (tickets ys)
      ∙ ap (λ (l : List ℕ). s.submitted ++ l) (sym (tickets-append xs ys))

  pub first_new : AreNew (xs ++ ys) s → AreNew xs s
  first_new new t = omega (
    arith,
    new t,
    ap (count t) both_submitted,
    count-append t (s.submitted ++ tickets xs) (tickets ys),
  )

  pub second_new : AreNew (xs ++ ys) s → AreNew ys (arrive xs s)
  second_new new t = omega (arith, new t, ap (count t) both_submitted)
