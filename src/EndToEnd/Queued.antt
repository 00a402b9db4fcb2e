-- ===== src/EndToEnd/Queued.antt =====
-- A request that waits in the engine of src/server/tts.rs, and the connection of
-- src/server/mod.rs that waits for its reply.
use mii_sound.Common.{
  ℕ, ◌≤◌, ◌<◌, ◌≡◌, sym, ap, ◌∙◌, arith, text, Option-cases, some, none, inl, inr, List, [], ◌++◌,
  All, length,
}
use mii_sound.Io.{Parsed, good, bad}
use mii_sound.Proto.{op_tts, TtsRequest, Request, Response, st_bad_request}
use mii_sound.Server.Engine.{TtsResult, failed, PendingItem}
use mii_sound.Server.Engine.System.{System, Reach}
use mii_sound.Server.Engine.System.Counts.{replied}
use mii_sound.Server.Engine.System.Turns.{Waits}
use mii_sound.Server.Engine.System.Rounds.{Turn, rounds, IsAlive, StartsAlive, rounds-answers}
use mii_sound.Server.Engine.Promise.{has, first_reply, view, status_at, status_by}
use mii_sound.Server.Engine.Promise.Replies.{unanswered, status_at-has}
use mii_sound.Server.Engine.Paths.{Steps, Steps-Reach}
use mii_sound.Server.Engine.Paths.Arrivals.{Comes, AreNew}
use mii_sound.Server.Engine.Paths.Rounds.{all_arrivals, after, rounds-Steps}
use mii_sound.Server.Engine.Paths.Final.{Steps-has}
use mii_sound.Server.Connection.{Local, Ctx, error_reply, reply_of, dispatch, response_to}

-- `match rx.await`: the reply, or the error of a channel that was dropped.
unfoldable pub awaited : System → ℕ → TtsResult
awaited s ticket = elim (first_reply ticket s.engine.replies) [
  | some r ↦ r
  | none ↦ failed (text "dispatcher dropped request")
]

-- The engine for the connection that has this ticket.
abbrev pub queued_by : System → ℕ → Local
queued_by s ticket = record { queued = λ json audio. awaited s ticket; frames = λ json audio. [] }

has-inj : {q r : TtsResult} → has q ≡ has r → q ≡ r
has-inj e = cc

awaited-has : (s : System) (n : ℕ) (r : TtsResult) → view s n ≡ has r → awaited s n ≡ r
unfolding awaited status_at status_by
awaited-has s n r e = elim (Option-cases (first_reply n s.engine.replies)) [
  | inl h ↦ absurd (ground (arith, rw (h, status_at) at e))
  | inr (q, h) ↦
      rw (h, awaited) (has-inj (sym (status_at-has n s.engine.replies s.submitted q h) ∙ e))
]

response_to-queued :
    (ctx : Ctx) (req : Request) (parsed : TtsRequest) (engine : Local)
    → ctx.relay ≡ none
    → ctx.tts ≡ some engine
    → req.op ≡ op_tts
    → ctx.from_slice req.json ≡ good parsed
    → response_to ctx req ≡ reply_of (engine.queued req.json req.audio)
unfolding response_to dispatch
response_to-queued ctx req parsed engine no_relay tts op parses =
    rw (no_relay, tts, op)
      (ap {A = Parsed TtsRequest} {B = Response}
        (λ p. elim p [
          | bad e ↦ error_reply st_bad_request (text "invalid tts json: " ++ e)
          | good _ ↦ reply_of (engine.queued req.json req.audio)
        ])
        parses)

-- What a request that waits comes to.
pub record Replied (s u : System) (x : PendingItem) (ctx : Ctx) (req : Request) : Type 0 where
  pub reply : TtsResult
  pub sent : view s x.ticket ≡ has reply
  pub stays : view u x.ticket ≡ has reply
  pub response : response_to ctx req ≡ reply_of reply

-- A request that waits behind `n` others gets its reply within `n + 1` rounds of the dispatcher in
-- which no worker is found dead, whatever arrives meanwhile with tickets of its own. The reply stays
-- the same in every further run of the engine's tasks, and it is the response of the connection
-- that asks for it.
pub rounds-Replied :
    {ttl parallel batch_window : ℕ} (s u : System) (x : PendingItem) (n : ℕ) (ts : List Turn)
    (ctx : Ctx) (req : Request) (parsed : TtsRequest)
    → Reach ttl parallel batch_window s
    → s.in_hand ≡ []
    → Waits x n s.engine.queue
    → IsAlive s.engine.worker
    → All (λ t. StartsAlive t.env.child) ts
    → n < length ts
    → All Comes (all_arrivals ts)
    → AreNew (all_arrivals ts) s
    → Steps (after (rounds ts s.engine) (all_arrivals ts) s) u
    → ctx.relay ≡ none
    → ctx.tts ≡ some (queued_by u x.ticket)
    → req.op ≡ op_tts
    → ctx.from_slice req.json ≡ good parsed
    → Replied (after (rounds ts s.engine) (all_arrivals ts) s) u x ctx req
rounds-Replied s u x n ts ctx req parsed r free w a starts enough comes new p no_relay tts op
      parses =
    let done : System = after (rounds ts s.engine) (all_arrivals ts) s in
    let at_last : 1 ≤ replied x.ticket done.engine =
      rounds-answers x n ts s.engine a starts w enough in
    elim (Option-cases (first_reply x.ticket done.engine.replies)) [
      | inl h ↦ absurd (omega (arith, at_last, unanswered x.ticket done.engine.replies h))
      | inr (reply, h) ↦
          let sent = status_at-has x.ticket done.engine.replies done.submitted reply h in
          let stays =
            Steps-has x.ticket reply (Steps-Reach r (rounds-Steps ts s free comes new)) p sent in
          record {
            reply = reply;
            sent = sent;
            stays = stays;
            response =
                response_to-queued ctx req parsed _ no_relay tts op parses
                ∙ ap reply_of (awaited-has u x.ticket reply stays);
          }
    ]
