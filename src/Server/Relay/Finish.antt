-- ===== src/Server/Relay/Finish.antt =====
-- `Relay::tts_stream` of src/server/relay.rs: how the frames of one request end.
use mii_sound.Common.{
  ℕ, zero, suc, ◌+◌, ◌≡◌, refl, sym, ap, ◌∙◌, subst, arith, ◌⊎◌, inl, inr, true, List, [], ◌∷◌,
  ◌++◌, Option, All, append_assoc, length, length-append,
}
use mii_sound.Proto.{TtsRequest, StreamFrame}
use mii_sound.Server.Channel.{Sender, send}
use mii_sound.Server.Engine.Stream.{terminal, error_frame}
use mii_sound.Server.Relay.{RelayError}
use mii_sound.Server.Relay.WavStream.{Event, failed, start, relay_wav_stream}
use mii_sound.Server.Relay.Requests.{
  Api, Outcome, success, failure, open_upstream, report, tts_stream,
}
use mii_sound.Server.Relay.Passed.{
  Ended, IsInner, Passed, Passed-none, relay_loop-Settled, report-Ended,
}

-- What the receiver has got in the end: frames that do not end the stream, and behind them one that
-- does, unless the receiver took all that it would take.
pub record Complete (out out' : Sender) : Type 0 where
  pub inner : List StreamFrame
  pub no_end : All IsInner inner
  pub used : length out'.taken + out'.room ≡ length out.taken + out.room
  pub finish :
      ((out'.room ≡ 0) × (out'.taken ≡ out.taken ++ inner))
      ⊎ ((last : StreamFrame) × (terminal last ≡ true)
          × (out'.taken ≡ out.taken ++ (inner ++ last ∷ [])))

Complete-at :
    (out : Sender) (last : StreamFrame) (taken : List StreamFrame) (room : ℕ)
    → terminal last ≡ true
    → Passed out (record { taken = taken; room = room })
    → Complete out (send last (record { taken = taken; room = room })).1
unfolding send
Complete-at out last taken zero e p = record {
  inner = p.inner;
  no_end = p.no_end;
  used = omega (arith, p.used, ap length p.went, length-append out.taken p.inner);
  finish = inl (refl, p.went);
}
Complete-at out last taken (suc n) e p = record {
  inner = p.inner;
  no_end = p.no_end;
  used = omega (
    arith,
    p.used,
    ap length p.went,
    length-append out.taken p.inner,
    length-append taken (last ∷ []),
  );
  finish = inr (
    last,
    e,
    ap (λ (t : List StreamFrame). t ++ last ∷ []) p.went
        ∙ append_assoc out.taken p.inner (last ∷ []),
  );
}

Ended-Complete : (out out' : Sender) → Ended out out' → Complete out out'
Ended-Complete out out' e =
    subst (Complete out) (sym e.closed)
      (Complete-at out e.last e.mid.taken e.mid.room e.ends e.before)

upstream-Complete :
    (out : Sender) (u : Outcome RelayError (List Event))
    → Complete out (elim u [
      | failure e ↦ (send (error_frame e.status e.message) out).1
      | success events ↦ report (relay_wav_stream events out)
    ])
unfolding report relay_wav_stream
upstream-Complete out (failure e) =
    Ended-Complete out _ (report-Ended out (failed e.status e.message, out) (Passed-none out))
upstream-Complete out (success events) =
    Ended-Complete out _
      (report-Ended out (relay_wav_stream events out) (relay_loop-Settled events start out))

module _ (api : Api) where
  -- Whatever the upstream answers, refuses or breaks off, the frames of a relayed stream are frames
  -- that do not end it and then exactly one that does, which is the last; only a receiver that is
  -- gone gets none.
  pub tts_stream-Complete :
      (req : TtsRequest) (audio : Option (List ℕ)) (out : Sender)
      → Complete out (tts_stream api req audio out)
  unfolding tts_stream
  tts_stream-Complete req audio out = upstream-Complete out (open_upstream api req audio)
