-- ===== src/Server/Engine/Paths/Rounds.antt =====
-- The rounds of `dispatcher_loop` in src/server/tts.rs, step by step.
use mii_sound.Common.{
  ℕ, ◌<◌, ◌≡◌, refl, sym, ap, ◌∙◌, subst, arith, Bool-cases, inl, inr, ◌⊎◌, List, [], ◌∷◌, ◌++◌,
  append-nil, All, ltb, true, false, some, none, count,
}
use mii_sound.Server.Engine.{PendingItem, Engine}
use mii_sound.Server.Engine.Queue.{drain_matching, grace_window, next_batch, concat}
use mii_sound.Server.Engine.Dispatch.{dispatch_batch}
use mii_sound.Server.Engine.Delivery.{tickets}
use mii_sound.Server.Engine.System.{System, take_first, collect, dispatch}
use mii_sound.Server.Engine.System.Rounds.{Turn, round, rounds, with_queue}
use mii_sound.Server.Engine.Paths.{Steps, here, then, Steps-trans}
use mii_sound.Server.Engine.Paths.Arrivals.{
  Comes, AreNew, with_state, arrive, arrive-Steps, All-left, All-right, both_submitted, first_new,
}
use mii_sound.Server.Engine.Paths.Window.{
  windowed, drained, drained-hand, grace_window-hand, window-Steps,
}

-- All requests that arrive in a round, and in some rounds.
unfoldable pub arrivals : Turn → List PendingItem
arrivals t = concat t.window ++ t.during

unfoldable pub all_arrivals : List Turn → List PendingItem
unfolding arrivals
all_arrivals [] = []
all_arrivals (t ∷ ts) = arrivals t ++ all_arrivals ts

-- The system behind a round, and behind some rounds.
abbrev pub after : Engine → List PendingItem → System → System
after e come s = record { engine = e; in_hand = []; submitted = s.submitted ++ tickets come }

-- The batch is in hand; what arrives while the worker is busy waits.
sent-Steps :
    (t : Turn) (first : PendingItem) (rest : List PendingItem) (s : System)
    → s.in_hand ≡ first ∷ rest
    → All Comes t.during
    → AreNew t.during s
    → Steps s (
        after
          (dispatch_batch t.env s.in_hand (with_queue (s.engine.queue ++ t.during) s.engine))
          t.during
          s)
sent-Steps t first rest s e cs new =
    Steps-trans (arrive-Steps t.during s cs new) (then (dispatch t.env first rest e) here)

-- A batch is chosen, with what arrived in the window; then it is sent.
module _ (t : Turn) (s s' : System) (first : PendingItem) (rest : List PendingItem)
    (cs : All Comes (concat t.window ++ t.during))
    (new : AreNew (concat t.window ++ t.during) s) where
  chosen-Steps :
      Steps s s'
      → s'.in_hand ≡ first ∷ rest
      → s'.submitted ≡ s.submitted ++ tickets (concat t.window)
      → Steps s (
          after
            (dispatch_batch t.env s'.in_hand (with_queue (s'.engine.queue ++ t.during) s'.engine))
            (concat t.window ++ t.during)
            s)
  chosen-Steps p e l =
      let all : s'.submitted ++ tickets t.during
          ≡ s.submitted ++ tickets (concat t.window ++ t.during) =
        ap (λ (k : List ℕ). k ++ tickets t.during) l
        ∙ both_submitted s (concat t.window) t.during in
      let sent : Engine =
        dispatch_batch t.env s'.in_hand (with_queue (s'.engine.queue ++ t.during) s'.engine) in
      subst (Steps s) (λ i. record { engine = sent; in_hand = []; submitted = all i })
        (Steps-trans p (
          sent-Steps t first rest s' e (All-right Comes (concat t.window) t.during cs)
            (λ n. omega (arith, new n, ap (count n) all))))

-- The first item is in hand.
abbrev taken : PendingItem → List PendingItem → System → System
taken first q s = with_state (first ∷ []) q s.submitted s

List-cases :
    (l : List PendingItem) → (l ≡ []) ⊎ ((x : PendingItem) × (xs : List PendingItem) × (l ≡ x ∷ xs))
List-cases [] = inl refl
List-cases (x ∷ xs) = inr (x, xs, refl)

-- The round by the choice of `next_batch`.
module _ (t : Turn) (e : Engine) where
  round-none :
      next_batch e.parallel e.queue t.window ≡ none
      → round t e ≡ with_queue (e.queue ++ (concat t.window ++ t.during)) e
  unfolding round
  round-none h = rw (h, round) refl

  round-some :
      (batch left : List PendingItem)
      → next_batch e.parallel e.queue t.window ≡ some (batch, left)
      → dispatch_batch t.env batch (with_queue (left ++ t.during) e) ≡ round t e
  unfolding round
  round-some batch left h = rw (h, round) refl

  module _ (first : PendingItem) (q : List PendingItem) (h : e.queue ≡ first ∷ q) where
    queue_of : next_batch e.parallel (first ∷ q) t.window ≡ next_batch e.parallel e.queue t.window
    queue_of = ap (λ (l : List PendingItem). next_batch e.parallel l t.window) (sym h)

    abbrev opened : List PendingItem × List PendingItem
    opened = drain_matching first.key e.parallel (first ∷ []) q

    chosen_many :
        ltb 1 e.parallel ≡ true
        → next_batch e.parallel e.queue t.window
          ≡ some (grace_window first.key e.parallel opened.0 opened.1 t.window)
    unfolding next_batch
    chosen_many many = sym queue_of ∙ rw many refl

    chosen_one :
        ltb 1 e.parallel ≡ false
        → next_batch e.parallel e.queue t.window ≡ some (first ∷ [], q ++ concat t.window)
    unfolding next_batch
    chosen_one one = sym queue_of ∙ rw one refl

module _ (t : Turn) (s : System) (free : s.in_hand ≡ [])
    (cs : All Comes (concat t.window ++ t.during))
    (new : AreNew (concat t.window ++ t.during) s) where
  -- While nothing waits, what arrives is queued.
  idle-Steps :
      s.engine.queue ≡ [] → Steps s (after (round t s.engine) (concat t.window ++ t.during) s)
  unfolding next_batch
  idle-Steps e =
      subst (Steps s)
        (λ i. record {
          engine =
              sym
                (round-none t s.engine
                  (ap (λ (l : List PendingItem). next_batch s.engine.parallel l t.window) e))
                i;
          in_hand = free i;
          submitted = s.submitted ++ tickets (concat t.window ++ t.during);
        })
        (arrive-Steps (concat t.window ++ t.during) s cs new)

  module _ (first : PendingItem) (q : List PendingItem) (e : s.engine.queue ≡ first ∷ q) where
    one-Steps :
        ltb 1 s.engine.parallel ≡ false
        → Steps s (after (round t s.engine) (concat t.window ++ t.during) s)
    one-Steps one =
        subst (λ (r : Engine). Steps s (after r (concat t.window ++ t.during) s))
          (round-some t s.engine (first ∷ []) (q ++ concat t.window)
            (chosen_one t s.engine first q e one))
          (chosen-Steps t s (arrive (concat t.window) (taken first q s)) first [] cs new
            (then (take_first first q free e) (
              arrive-Steps (concat t.window) (taken first q s)
                (All-left Comes (concat t.window) t.during cs)
                (first_new s (concat t.window) t.during new)))
            refl refl)

    many-Steps :
        ltb 1 s.engine.parallel ≡ true
        → Steps s (after (round t s.engine) (concat t.window ++ t.during) s)
    many-Steps many =
        let begun : System = taken first q s in
        let several : 1 < s.engine.parallel = ground (arith, many) in
        let (more, e') = drained-hand first [] begun refl in
        let opened : System = drained first begun in
        let (others, h) =
          grace_window-hand first.key s.engine.parallel first more opened.in_hand
            opened.engine.queue t.window e' in
        subst (λ (r : Engine). Steps s (after r (concat t.window ++ t.during) s))
          (round-some t s.engine _ _ (chosen_many t s.engine first q e many))
          (chosen-Steps t s (windowed first t.window (drained first begun)) first others cs new
            (then (take_first first q free e) (
              then (collect first [] refl several) (
                window-Steps first more t.window (drained first begun) e' several
                  (All-left Comes (concat t.window) t.during cs)
                  (first_new s (concat t.window) t.during new))))
            h refl)

round-Steps :
    (t : Turn) (s : System)
    → s.in_hand ≡ []
    → All Comes (arrivals t)
    → AreNew (arrivals t) s
    → Steps s (after (round t s.engine) (arrivals t) s)
unfolding arrivals
round-Steps t s free cs new = elim (List-cases s.engine.queue) [
  | inl e ↦ idle-Steps t s free cs new e
  | inr (first, q, e) ↦ elim (Bool-cases (ltb 1 s.engine.parallel)) [
    | inl many ↦ many-Steps t s free cs new first q e many
    | inr one ↦ one-Steps t s free cs new first q e one
  ]
]

-- The rounds of the dispatcher, with what arrives in them, are a run of the engine's tasks: if
-- nothing is in hand, and the arrivals are requests that parse, with tickets of their own.
pub rounds-Steps :
    (ts : List Turn) (s : System)
    → s.in_hand ≡ []
    → All Comes (all_arrivals ts)
    → AreNew (all_arrivals ts) s
    → Steps s (after (rounds ts s.engine) (all_arrivals ts) s)
unfolding rounds all_arrivals
rounds-Steps [] s free cs new =
    subst (Steps s)
      (λ i. record {
        engine = s.engine;
        in_hand = free i;
        submitted = sym (append-nil s.submitted) i;
      })
      here
rounds-Steps (t ∷ ts) s free cs new =
    let next : System = after (round t s.engine) (arrivals t) s in
    let rest = all_arrivals ts in
    subst (Steps s)
      (λ i. record {
        engine = rounds ts (round t s.engine);
        in_hand = [];
        submitted = both_submitted s (arrivals t) rest i;
      })
      (Steps-trans
        (round-Steps t s free (All-left Comes (arrivals t) rest cs)
          (first_new s (arrivals t) rest new))
        (rounds-Steps ts next refl (All-right Comes (arrivals t) rest cs)
          (λ n. omega (arith, new n, ap (count n) (both_submitted s (arrivals t) rest)))))
