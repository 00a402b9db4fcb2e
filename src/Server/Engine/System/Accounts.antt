-- ===== src/Server/Engine/System/Accounts.antt =====
-- What holds of the engine of src/server/tts.rs in every order of its tasks.
use mii_sound.Common.{
  ℕ, subst, text, ==_iff, ◌+◌, ◌≤◌, ◌≡◌, refl, sym, ap, ◌∙◌, arith, ◌==◌, Bool-cases, inl, inr,
  List, [], ◌∷◌, ◌++◌, Option, length, All, All-append, count, count-append,
}
use mii_sound.Io.{Parsed, Parsed-cases}
use mii_sound.Proto.{TtsRequest}
use mii_sound.Server.Engine.{PendingItem, Engine, new, TtsResult, failed, key_of}
use mii_sound.Server.Engine.Queue.{drain_matching}
use mii_sound.Server.Engine.Drain.{HasKey, drain_matching-Drained}
use mii_sound.Server.Engine.Dispatch.{Env, dispatch_batch}
use mii_sound.Server.Engine.Delivery.{answered, dispatch_batch_outcome}
use mii_sound.Server.Engine.System.{
  System, init, generate, Step, submit, take_first, collect, dispatch, stream, unload, crash,
  output, Reach, start, later,
}
use mii_sound.Server.Engine.System.Counts.{
  waiting, replied, answered-append, waiting-append, drain_matching-waiting,
}
use mii_sound.Server.Engine.System.Keeps.{Keeps, kept, stream_relay-Keeps, evict-Keeps}

-- All items have the key of the first.
abbrev pub IsUniform : List PendingItem → Type 0
IsUniform [] = Unit
IsUniform (first ∷ rest) = All (HasKey first.key) rest

-- Each request that was submitted waits, is in hand, or has its reply, and only one of these, once.
-- The batch in hand is within the limit, and its items have the key of the first.
pub record Accounted (s : System) : Type 0 where
  pub accounts :
      (t : ℕ)
      → waiting t s.engine.queue + waiting t s.in_hand + replied t s.engine ≡ count t s.submitted
  pub distinct : (t : ℕ) → count t s.submitted ≤ 1
  pub within : length s.in_hand ≤ s.engine.parallel
  pub some_room : 1 ≤ s.engine.parallel
  pub same_key : IsUniform s.in_hand

Keeps-Accounted :
    (s : System) (e' : Engine)
    → Keeps s.engine e'
    → Accounted s
    → Accounted (record s { engine = e' })
Keeps-Accounted s e' k a = record {
  accounts = λ t. omega (
    arith,
    a.accounts t,
    ap (waiting t) k.queue,
    ap (λ (r : List (ℕ × TtsResult)). count t (answered r)) k.replies,
  );
  distinct = a.distinct;
  within = omega (arith, a.within, k.limit);
  some_room = omega (arith, a.some_room, k.limit);
  same_key = a.same_key;
}

submit-Accounted :
    (s : System) (from_slice : List ℕ → Parsed TtsRequest) (json : List ℕ) (audio : Option (List ℕ))
    (ticket : ℕ)
    → count ticket s.submitted ≡ 0
    → Accounted s
    → Accounted (record s {
      engine = generate from_slice json audio ticket s.engine;
      submitted = s.submitted ++ ticket ∷ [];
    })
unfolding generate
submit-Accounted s from_slice json audio ticket fresh a = elim (Parsed-cases (from_slice json)) [
  | inl (req, r) ↦
      rw (r, generate)
        (record {
          accounts = λ t. omega (
            arith,
            a.accounts t,
            waiting-append t s.engine.queue
                (record { json = json; audio = audio; key = key_of req; ticket = ticket } ∷ []),
            count-append t s.submitted (ticket ∷ []),
          );
          distinct = unique;
          within = a.within;
          some_room = a.some_room;
          same_key = a.same_key;
        })
  | inr (x, r) ↦
      rw (r, generate)
        (record {
          accounts = λ t. omega (
            arith,
            a.accounts t,
            ap (count t) (
                answered-append s.engine.replies
                  ((ticket, failed (text "invalid tts json: " ++ x)) ∷ [])),
            count-append t (answered s.engine.replies) (ticket ∷ []),
            count-append t s.submitted (ticket ∷ []),
          );
          distinct = unique;
          within = a.within;
          some_room = a.some_room;
          same_key = a.same_key;
        })
]
  where
    unique : (t : ℕ) → count t (s.submitted ++ ticket ∷ []) ≤ 1
    unique t = elim (Bool-cases (ticket == t)) [
      | inl e ↦
          let same : ticket ≡ t = (==_iff ticket t).0 e in
          ground (
            arith,
            count-append t s.submitted (ticket ∷ []),
            fresh,
            ap (λ (n : ℕ). count n s.submitted) same,
            e,
          )
      | inr e ↦ ground (arith, count-append t s.submitted (ticket ∷ []), a.distinct t, e)
    ]

take_first-Accounted :
    (s : System) (first : PendingItem) (q : List PendingItem)
    → s.in_hand ≡ []
    → s.engine.queue ≡ first ∷ q
    → Accounted s
    → Accounted (record s { engine = record s.engine { queue = q }; in_hand = first ∷ [] })
take_first-Accounted s first q free has a = record {
  accounts = λ t. omega (arith, a.accounts t, ap (waiting t) free, ap (waiting t) has);
  distinct = a.distinct;
  within = a.some_room;
  some_room = a.some_room;
  same_key = tt;
}

collect-Accounted :
    (s : System) (first : PendingItem) (rest : List PendingItem)
    → s.in_hand ≡ first ∷ rest
    → Accounted s
    → Accounted (record s {
      engine = record s.engine {
        queue = (drain_matching first.key s.engine.parallel s.in_hand s.engine.queue).1;
      };
      in_hand = (drain_matching first.key s.engine.parallel s.in_hand s.engine.queue).0;
    })
collect-Accounted s first rest has a =
    let d = drain_matching-Drained first.key s.engine.parallel s.in_hand s.engine.queue in
    record {
      accounts = λ t. omega (
        arith,
        a.accounts t,
        drain_matching-waiting first.key s.engine.parallel t s.in_hand s.engine.queue,
      );
      distinct = a.distinct;
      within = omega (arith, d.bounded, a.within);
      some_room = a.some_room;
      same_key =
          subst IsUniform (sym (d.grows ∙ ap (λ (b : List PendingItem). b ++ d.took) has))
            (All-append (HasKey first.key) rest d.took (subst IsUniform has a.same_key) d.same_key);
    }

dispatch-Accounted :
    (s : System) (env : Env)
    → Accounted s
    → Accounted (record s { engine = dispatch_batch env s.in_hand s.engine; in_hand = [] })
dispatch-Accounted s env a = elim (dispatch_batch_outcome env s.in_hand s.engine) [
  | inl o ↦ record {
    accounts = λ t. omega (
      arith,
      a.accounts t,
      ap (waiting t) o.queue_kept,
      ap (λ (r : List (ℕ × TtsResult)). count t (answered r)) o.replied,
      ap (count t) (answered-append s.engine.replies o.new),
      count-append t (answered s.engine.replies) (answered o.new),
      ap (count t) o.each_once,
    );
    distinct = a.distinct;
    within = omega arith;
    some_room = omega (arith, a.some_room, o.limit_kept);
    same_key = tt;
  }
  | inr o ↦ record {
    accounts = λ t. omega (
      arith,
      a.accounts t,
      ap (waiting t) o.front,
      waiting-append t s.in_hand s.engine.queue,
      ap (λ (r : List (ℕ × TtsResult)). count t (answered r)) o.silent,
    );
    distinct = a.distinct;
    within = omega arith;
    some_room = omega (arith, a.some_room, o.same_limit);
    same_key = tt;
  }
]

pub Step-Accounted : {s t : System} → Step s t → Accounted s → Accounted t
Step-Accounted {s} (submit from_slice json audio ticket fresh) a =
    submit-Accounted s from_slice json audio ticket fresh a
Step-Accounted {s} (take_first first q free has) a = take_first-Accounted s first q free has a
Step-Accounted {s} (collect first rest has many) a = collect-Accounted s first rest has a
Step-Accounted {s} (dispatch env first rest has) a = dispatch-Accounted s env a
Step-Accounted {s} (stream env json audio cancel out) a =
    Keeps-Accounted s _ (stream_relay-Keeps env json audio cancel s.engine out) a
Step-Accounted {s} (unload now) a = Keeps-Accounted s _ (evict-Keeps now s.engine) a
Step-Accounted {s} (crash w status has) a = Keeps-Accounted s _ (kept _ _ refl refl refl) a
Step-Accounted {s} (output w bytes has) a = Keeps-Accounted s _ (kept _ _ refl refl refl) a

init-Accounted : (ttl parallel batch_window : ℕ) → Accounted (init ttl parallel batch_window)
unfolding new
init-Accounted ttl parallel batch_window = record {
  accounts = λ t. refl;
  distinct = λ t. omega arith;
  within = omega arith;
  some_room = omega arith;
  same_key = tt;
}

-- In every order of requests, batches, streams, crashes and unloads, each request that was
-- submitted waits in the queue, is in hand, or has its reply, and only one of these, once; a batch
-- is never larger than the limit, and has one key.
pub Reach-Accounted :
    (ttl parallel batch_window : ℕ) (s : System) → Reach ttl parallel batch_window s → Accounted s
Reach-Accounted ttl parallel batch_window s start = init-Accounted ttl parallel batch_window
Reach-Accounted ttl parallel batch_window s (later {s = before} r st) =
    Step-Accounted st (Reach-Accounted ttl parallel batch_window before r)
