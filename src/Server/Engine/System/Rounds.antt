-- ===== src/Server/Engine/System/Rounds.antt =====
-- The rounds of `dispatcher_loop` in src/server/tts.rs, and when a request is served.
use mii_sound.Common.{
  ℕ, suc, ◌≤◌, ◌<◌, ◌≡◌, refl, sym, ap, ◌∙◌, subst, arith, Bool-cases, Option-cases, inl, inr, ◌⊎◌,
  List, [], ◌∷◌, ◌++◌, Option, none, some, map, length, All, count, count-append, ◌==◌,
}
use mii_sound.Io.{Result, ok, err, Result-cases}
use mii_sound.Io.Read.{read_u8}
use mii_sound.Proto.Read.{read_batch_response}
use mii_sound.Proto.Write.{write_batch_request}
use mii_sound.Server.Engine.{
  PendingItem, Engine, RunningWorker, Child, TtsResult, spawn_worker, ensure_worker,
}
use mii_sound.Server.Engine.Queue.{next_batch, concat}
use mii_sound.Server.Engine.Dispatch.{
  Env, wire_item, await_response, exchange, use_worker, dispatch_batch,
}
use mii_sound.Server.Engine.Delivery.{
  answered, Answered, dispatch_batch_outcome, exchange-Answered, reply-Answered,
}
use mii_sound.Server.Engine.Serving.{use_worker_alive}
use mii_sound.Server.Engine.System.Counts.{waiting, replied, answered-append}
use mii_sound.Server.Engine.System.Turns.{Waits, Waits-append}
use mii_sound.Server.Engine.System.Window.{next_batch-Moved}

-- What happens in one round: the arrivals in each part of the grace window, those while the batch
-- is with the worker, and what the dispatch meets.
pub record Turn : Type 0 where
  pub env : Env
  pub window : List (List PendingItem)
  pub during : List PendingItem

abbrev pub with_queue : List PendingItem → Engine → Engine
with_queue q e = record e { queue = q }

-- One round of the loop. While nothing waits, only what arrives is queued.
unfoldable pub round : Turn → Engine → Engine
round t e = elim (next_batch e.parallel e.queue t.window) [
  | none ↦ with_queue (e.queue ++ (concat t.window ++ t.during)) e
  | some (batch, left) ↦ dispatch_batch t.env batch (with_queue (left ++ t.during) e)
]

unfoldable pub rounds : List Turn → Engine → Engine
unfolding round
rounds [] e = e
rounds (t ∷ ts) e = rounds ts (round t e)

-- No process is found dead: not the one that runs, and not one that is started.
abbrev pub IsAlive : Option RunningWorker → Type 0
IsAlive none = Unit
IsAlive (some w) = w.exited ≡ none

abbrev pub StartsAlive : Result Child → Type 0
StartsAlive (err x) = Unit
StartsAlive (ok c) = c.exited ≡ none

spawn_worker-alive :
    (now : ℕ) (child : Result Child) (w : RunningWorker)
    → spawn_worker now child ≡ ok w
    → StartsAlive child
    → w.exited ≡ none
unfolding spawn_worker
spawn_worker-alive now (err x) w e s = absurd (cc e)
spawn_worker-alive now (ok c) w e s = elim (Option-cases c.pid) [
  | inl r ↦ absurd (cc (rw (r, spawn_worker) at e))
  | inr (pid, r) ↦ elim (Result-cases (read_u8 c.stdout)) [
    | inr (x, r') ↦ absurd (cc (rw (r, r', spawn_worker) at e))
    | inl ((ready, rest), r') ↦ elim (Bool-cases (ready == 0)) [
      | inr no_zero ↦ absurd (cc (rw (r, r', no_zero, spawn_worker) at e))
      | inl is_zero ↦
          let same : record {
            pid = pid;
            stdin = c.stdin;
            stdout = rest;
            exited = c.exited;
            last_used = now;
          }
              ≡ w =
            cc (rw (r, r', is_zero, spawn_worker) at e) in
          ap (λ (u : RunningWorker). u.exited) (sym same) ∙ s
    ]
  ]
]

ensure_worker-alive :
    (now : ℕ) (child : Result Child) (o : Option RunningWorker) (w : RunningWorker)
    → ensure_worker now child o ≡ ok w
    → IsAlive o
    → StartsAlive child
    → w.exited ≡ none
unfolding ensure_worker
ensure_worker-alive now child none w e a s = spawn_worker-alive now child w e s
ensure_worker-alive now child (some v) w e a s =
    let same : v ≡ w = cc e in ap (λ (u : RunningWorker). u.exited) (sym same) ∙ a

await_response-IsAlive :
    (env : Env) (batch : List PendingItem) (w : RunningWorker) (e : Engine)
    → w.exited ≡ none
    → IsAlive (await_response env batch w e).worker
unfolding await_response
await_response-IsAlive env batch w e a = elim (Result-cases (read_batch_response w.stdout)) [
  | inl (r, h) ↦ rw (h, await_response) a
  | inr (x, h) ↦ rw (h, await_response) tt
]

exchange-IsAlive :
    (env : Env) (batch : List PendingItem) (w : RunningWorker) (e : Engine)
    → w.exited ≡ none
    → IsAlive (exchange env batch w e).worker
unfolding exchange
exchange-IsAlive env batch w e a =
    elim (Result-cases (write_batch_request (map wire_item batch) w.stdin).0) [
      | inl (_, h) ↦ rw (h, exchange) (await_response-IsAlive env batch _ e a)
      | inr (x, h) ↦ rw (h, exchange) tt
    ]

-- What a dispatch leaves if no process is found dead.
record Served (batch : List PendingItem) (e after : Engine) : Type 0 where
  answers : Answered batch e after
  alive : IsAlive after.worker

dispatch_batch-Served :
    (env : Env) (batch : List PendingItem) (e : Engine)
    → IsAlive e.worker
    → StartsAlive env.child
    → Served batch e (dispatch_batch env batch e)
unfolding dispatch_batch use_worker
dispatch_batch-Served env batch e a s =
    elim (Result-cases (ensure_worker env.now env.child e.worker)) [
      | inr (x, h) ↦
          rw (h, dispatch_batch) (record { answers = reply-Answered _ batch e; alive = a })
      | inl (w, h) ↦
          let lives = ensure_worker-alive env.now env.child e.worker w h a s in
          rw (h, dispatch_batch)
            (subst (Served batch e) (sym (use_worker_alive env batch w e lives)) (record {
              answers = exchange-Answered env batch w e;
              alive = exchange-IsAlive env batch w e lives;
            }))
    ]

module _ (x : PendingItem) where
  -- What a round does for an item that waits behind `n` others at most.
  record Progress (n : ℕ) (e e' : Engine) : Type 0 where
    alive : IsAlive e'.worker
    limit : e'.parallel ≡ e.parallel
    forward : (1 ≤ replied x.ticket e') ⊎ ((m : ℕ) × (n ≡ suc m) × Waits x m e'.queue)

  served_one :
      (batch : List PendingItem) (e after : Engine)
      → Answered batch e after
      → 1 ≤ waiting x.ticket batch
      → 1 ≤ replied x.ticket after
  served_one batch e after a h = omega (
    arith,
    h,
    ap (λ (r : List (ℕ × TtsResult)). count x.ticket (answered r)) a.replied,
    ap (count x.ticket) (answered-append e.replies a.new),
    count-append x.ticket (answered e.replies) (answered a.new),
    ap (count x.ticket) a.each_once,
  )

  round-some :
      (t : Turn) (e : Engine) (batch left : List PendingItem)
      → next_batch e.parallel e.queue t.window ≡ some (batch, left)
      → round t e ≡ dispatch_batch t.env batch (with_queue (left ++ t.during) e)
  unfolding round
  round-some t e batch left h = rw (h, round) refl

  round-Progress :
      (n : ℕ) (t : Turn) (e : Engine)
      → IsAlive e.worker
      → StartsAlive t.env.child
      → Waits x n e.queue
      → Progress n e (round t e)
  round-Progress n t e a s w =
      let m = next_batch-Moved x n e.parallel e.queue t.window w in
      let d = dispatch_batch-Served t.env m.batch (with_queue (m.left ++ t.during) e) a s in
      subst (Progress n e) (sym (round-some t e m.batch m.left m.chosen)) (record {
        alive = d.alive;
        limit = d.answers.limit_kept;
        forward = elim m.moved [
          | inl h ↦ inl (served_one m.batch (with_queue (m.left ++ t.during) e) _ d.answers h)
          | inr (k, e', v) ↦ inr (
            k,
            e',
            subst (Waits x k) (sym d.answers.queue_kept) (Waits-append x k m.left t.during v),
          )
        ];
      })

  dispatch_batch-keeps :
      (env : Env) (batch : List PendingItem) (e : Engine)
      → replied x.ticket e ≤ replied x.ticket (dispatch_batch env batch e)
  dispatch_batch-keeps env batch e = elim (dispatch_batch_outcome env batch e) [
    | inl a ↦ omega (
      arith,
      ap (λ (r : List (ℕ × TtsResult)). count x.ticket (answered r)) a.replied,
      ap (count x.ticket) (answered-append e.replies a.new),
      count-append x.ticket (answered e.replies) (answered a.new),
    )
    | inr q ↦ omega (arith, ap (λ (r : List (ℕ × TtsResult)). count x.ticket (answered r)) q.silent)
  ]

  round-keeps : (t : Turn) (e : Engine) → replied x.ticket e ≤ replied x.ticket (round t e)
  unfolding round
  round-keeps t e = elim (Option-cases (next_batch e.parallel e.queue t.window)) [
    | inl h ↦ rw (h, round) (omega arith)
    | inr ((batch, left), h) ↦
        rw (h, round) (dispatch_batch-keeps t.env batch (with_queue (left ++ t.during) e))
  ]

  rounds-keeps : (ts : List Turn) (e : Engine) → replied x.ticket e ≤ replied x.ticket (rounds ts e)
  unfolding rounds
  rounds-keeps [] e = omega arith
  rounds-keeps (t ∷ ts) e = omega (arith, round-keeps t e, rounds-keeps ts (round t e))

  -- No request starves: one that waits behind `n` others has its reply within `n + 1` rounds in
  -- which no worker is found dead, whatever arrives during these rounds, and whatever the worker
  -- writes.
  pub rounds-answers :
      (n : ℕ) (ts : List Turn) (e : Engine)
      → IsAlive e.worker
      → All (λ t. StartsAlive t.env.child) ts
      → Waits x n e.queue
      → n < length ts
      → 1 ≤ replied x.ticket (rounds ts e)
  unfolding rounds
  rounds-answers n [] e a s w h = absurd (omega (arith, h))
  rounds-answers n (t ∷ ts) e a s w h =
      let p = round-Progress n t e a s.0 w in
      elim p.forward [
        | inl answered_now ↦ omega (arith, answered_now, rounds-keeps ts (round t e))
        | inr (m, e', v) ↦ rounds-answers m ts (round t e) p.alive s.1 v (omega (arith, h, e'))
      ]
