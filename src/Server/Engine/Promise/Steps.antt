-- ===== src/Server/Engine/Promise/Steps.antt =====
-- The steps of the engine of src/server/tts.rs, as those who wait see them.
use mii_sound.Common.{
  ℕ, ◌+◌, ◌≤◌, ◌≡◌, refl, sym, ap, ◌∙◌, subst, arith, Option-cases, inl, inr, ◌⊎◌, List, [], ◌∷◌,
  ◌++◌, Option, some, none, count,
}
use native.Mathlib.Decide.{dec_lt}
use mii_sound.Io.{Parsed, Parsed-cases}
use mii_sound.Proto.{TtsRequest}
use mii_sound.Server.Engine.{TtsResult, Engine}
use mii_sound.Server.Engine.Dispatch.{Env, dispatch_batch}
use mii_sound.Server.Engine.Delivery.{answered, tickets, dispatch_batch_outcome}
use mii_sound.Server.Engine.System.{
  System, generate, Step, submit, take_first, collect, dispatch, stream, unload, crash, output,
  Reach,
}
use mii_sound.Server.Engine.System.Counts.{waiting}
use mii_sound.Server.Engine.System.Keeps.{Keeps, stream_relay-Keeps, evict-Keeps}
use mii_sound.Server.Engine.System.Accounts.{Accounted, Reach-Accounted, Step-Accounted}
use mii_sound.Server.Engine.Promise.{
  unknown, waits, has, Promise, enters, refuses, answers, idles, first_reply, status_at, view,
}
use mii_sound.Server.Engine.Promise.Replies.{
  first_reply-new, first_reply-own, first_reply-other, first_reply-count, first_reply-none,
  status_at-same, status_at-has, status_at-unknown, status_at-waits, status_at-other, own-count,
  unanswered,
}

module _ (s : System) (a : Accounted s) where
  -- Nobody has heard of a ticket that was not submitted.
  no_reply : (t : ℕ) → count t s.submitted ≡ 0 → first_reply t s.engine.replies ≡ none
  no_reply t fresh = first_reply-none t s.engine.replies (omega (arith, a.accounts t))

  submit-Promise :
      (from_slice : List ℕ → Parsed TtsRequest) (json : List ℕ) (audio : Option (List ℕ)) (t : ℕ)
      → count t s.submitted ≡ 0
      → Promise
          (view s)
          (status_at (generate from_slice json audio t s.engine).replies (s.submitted ++ t ∷ []))
  unfolding generate
  submit-Promise from_slice json audio t fresh = elim (Parsed-cases (from_slice json)) [
    | inl (req, r) ↦
        rw (r, generate)
          (enters t (status_at-unknown t s.engine.replies s.submitted (no_reply t fresh) fresh)
            (status_at-waits t s.engine.replies _ (no_reply t fresh) (own-count t s.submitted))
            (λ n h. status_at-other n t s.engine.replies s.submitted h))
    | inr (why, r) ↦
        rw (r, generate)
          (refuses t why (status_at-unknown t s.engine.replies s.submitted (no_reply t fresh) fresh)
            (status_at-has t _ _ _
              (first_reply-new t s.engine.replies _ (no_reply t fresh) ∙ first_reply-own t _))
            (λ n h.
              status_at-same n s.engine.replies _ _ (first_reply-other n t _ h)
              ∙ status_at-other n t s.engine.replies s.submitted h))
  ]

  -- A request that was in hand and had no reply gets its own; the others see nothing.
  answered-Promise :
      (new : List (ℕ × TtsResult))
      → answered new ≡ tickets s.in_hand
      → (n : ℕ)
      → (status_at (s.engine.replies ++ new) s.submitted n ≡ view s n)
        ⊎ ((view s n ≡ waits)
            × (r : TtsResult) × (status_at (s.engine.replies ++ new) s.submitted n ≡ has r))
  answered-Promise new each n = elim (Option-cases (first_reply n new)) [
    | inl e ↦ inl (status_at-same n s.engine.replies new s.submitted e)
    | inr (r, e) ↦
        let here : 1 ≤ waiting n s.in_hand =
          omega (arith, first_reply-count n new r e, ap (count n) each) in
        let silent : first_reply n s.engine.replies ≡ none =
          first_reply-none n s.engine.replies (omega (arith, a.accounts n, a.distinct n, here)) in
        inr (
          status_at-waits n s.engine.replies s.submitted silent (omega (arith, a.accounts n, here)),
          r,
          status_at-has n _ s.submitted r (first_reply-new n s.engine.replies new silent ∙ e),
        )
  ]

  dispatch-Promise :
      (env : Env)
      → Promise (view s) (status_at (dispatch_batch env s.in_hand s.engine).replies s.submitted)
  dispatch-Promise env = elim (dispatch_batch_outcome env s.in_hand s.engine) [
    | inr o ↦ idles (ap (λ (rs : List (ℕ × TtsResult)). status_at rs s.submitted) o.silent)
    | inl o ↦
        subst (λ (rs : List (ℕ × TtsResult)). Promise (view s) (status_at rs s.submitted))
          (sym o.replied) (answers (answered-Promise o.new o.each_once))
  ]

  Keeps-Promise :
      (e : Engine) → Keeps s.engine e → Promise (view s) (status_at e.replies s.submitted)
  Keeps-Promise e k = idles (ap (λ (rs : List (ℕ × TtsResult)). status_at rs s.submitted) k.replies)

Step-Promise : {s t : System} → Step s t → Accounted s → Promise (view s) (view t)
Step-Promise {s} (submit from_slice json audio ticket fresh) a =
    submit-Promise s a from_slice json audio ticket fresh
Step-Promise (take_first first q free e) a = idles refl
Step-Promise (collect first rest e many) a = idles refl
Step-Promise {s} (dispatch env first rest e) a = dispatch-Promise s a env
Step-Promise {s} (stream env json audio cancel out) a =
    Keeps-Promise s a _ (stream_relay-Keeps env json audio cancel s.engine out)
Step-Promise {s} (unload now) a = Keeps-Promise s a _ (evict-Keeps now s.engine)
Step-Promise (crash w status_at e) a = idles refl
Step-Promise (output w bytes e) a = idles refl

-- Whoever waits is in the queue or in hand, once; whoever has a reply, or is not known, is not.
pub record Held (s : System) (n : ℕ) : Type 0 where
  pub of_waits : view s n ≡ waits → waiting n s.engine.queue + waiting n s.in_hand ≡ 1
  pub of_has :
      (r : TtsResult) → view s n ≡ has r → waiting n s.engine.queue + waiting n s.in_hand ≡ 0
  pub of_unknown : view s n ≡ unknown → count n s.submitted ≡ 0

-- The three cases that the status tells apart.
module _ (s : System) (n : ℕ) (a : Accounted s) where
  replied-Held : (r : TtsResult) → first_reply n s.engine.replies ≡ some r → Held s n
  replied-Held r e =
      let shown = status_at-has n s.engine.replies s.submitted r e in
      let sent = first_reply-count n s.engine.replies r e in
      record {
        of_waits = λ h. absurd (cc (sym shown ∙ h));
        of_has = λ q h. omega (arith, a.accounts n, a.distinct n, sent);
        of_unknown = λ h. absurd (cc (sym shown ∙ h));
      }

  silent-Held : first_reply n s.engine.replies ≡ none → Held s n
  silent-Held e =
      let unsent = unanswered n s.engine.replies e in
      elim (dec_lt 0 (count n s.submitted)) [
        | yes known ↦
            let shown = status_at-waits n s.engine.replies s.submitted e (omega (arith, known)) in
            record {
              of_waits = λ h. omega (arith, a.accounts n, a.distinct n, unsent, known);
              of_has = λ q h. absurd (cc (sym shown ∙ h));
              of_unknown = λ h. absurd (cc (sym shown ∙ h));
            }
        | no new ↦
            let shown = status_at-unknown n s.engine.replies s.submitted e (omega (arith, new)) in
            record {
              of_waits = λ h. absurd (cc (sym shown ∙ h));
              of_has = λ q h. absurd (cc (sym shown ∙ h));
              of_unknown = λ h. omega (arith, new);
            }
      ]

  Accounted-Held : Held s n
  Accounted-Held = elim (Option-cases (first_reply n s.engine.replies)) [
    | inl e ↦ silent-Held e
    | inr (r, e) ↦ replied-Held r e
  ]

-- In every order of the engine's tasks, each of their steps is one that the engine promises, also
-- under crashes, requeues and unloads: a request comes in or is refused at once, requests that wait
-- get their replies, or nothing is seen. A reply stays for good, and whoever waits is in the queue
-- or in hand.
pub Reach-Promise :
    (ttl parallel batch_window : ℕ) (s t : System)
    → Reach ttl parallel batch_window s
    → Step s t
    → Promise (view s) (view t) × ((n : ℕ) → Held t n)
Reach-Promise ttl parallel batch_window s t r st =
    let a = Reach-Accounted ttl parallel batch_window s r in
    (Step-Promise st a, λ n. Accounted-Held t n (Step-Accounted st a))
