-- ===== src/Server/Relay/Passed.antt =====
-- What `relay_wav_stream` of src/server/relay.rs sends before the frame that ends a stream.
use mii_sound.Common.{
  ℕ, zero, suc, ◌+◌, ◌≡◌, refl, sym, ap, ◌∙◌, arith, inl, inr, true, false, not, ◌&&◌, Bool-cases,
  ◌==◌, List, [], ◌∷◌, ◌++◌, All, All-append, append_assoc, append-nil, length, length-append,
  is_empty,
}
use mii_sound.Proto.{kind_end, kind_chunk, kind_header, st_generation_failed, StreamFrame}
use mii_sound.Proto.Write.{header_payload}
use mii_sound.Server.Channel.{Sender, send}
use mii_sound.Server.Engine.Stream.{terminal, error_frame}
use mii_sound.Server.Relay.WavStream.{
  Event, chunk, broken, relayed, failed, Relayed, rate, no_rate, Rate, parse_wav_sample_rate,
  wav_header_len, State, Flow, next, return, send_samples, forward_pcm_chunk, take_body,
  open_stream, check_header, take_header, on_chunk, close_stream, relay_loop,
}
use mii_sound.Server.Relay.Requests.{report}

abbrev pub IsInner : StreamFrame → Type 0
IsInner f = terminal f ≡ false

-- Frames that do not end the stream went out, and used up the receiver's room.
pub record Passed (out out' : Sender) : Type 0 where
  pub inner : List StreamFrame
  pub went : out'.taken ≡ out.taken ++ inner
  pub no_end : All IsInner inner
  pub used : length inner + out'.room ≡ out.room

-- Then one more frame went out, which ends the stream, unless the receiver is gone.
pub record Ended (out out' : Sender) : Type 0 where
  pub mid : Sender
  pub last : StreamFrame
  pub before : Passed out mid
  pub ends : terminal last ≡ true
  pub closed : out' ≡ (send last mid).1

pub Passed-none : (out : Sender) → Passed out out
Passed-none out = record {
  inner = [];
  went = sym (append-nil out.taken);
  no_end = tt;
  used = omega arith;
}

Passed-send_at :
    (f : StreamFrame) (taken : List StreamFrame) (room : ℕ)
    → IsInner f
    → Passed
        (record { taken = taken; room = room })
        (send f (record { taken = taken; room = room })).1
unfolding send
Passed-send_at f taken zero h = Passed-none _
Passed-send_at f taken (suc n) h = record {
  inner = f ∷ [];
  went = refl;
  no_end = (h, tt);
  used = omega arith;
}

Passed-send : (f : StreamFrame) (out : Sender) → IsInner f → Passed out (send f out).1
Passed-send f out = Passed-send_at f out.taken out.room

Passed-more : {a b c : Sender} → Passed a b → Passed b c → Passed a c
Passed-more p q = record {
  inner = p.inner ++ q.inner;
  went =
      q.went ∙ ap (λ (t : List StreamFrame). t ++ q.inner) p.went ∙ append_assoc _ p.inner q.inner;
  no_end = All-append IsInner p.inner q.inner p.no_end q.no_end;
  used = omega (arith, length-append p.inner q.inner, p.used, q.used);
}

-- A receiver that refused a frame refuses the next one.
refused_at :
    (f g : StreamFrame) (taken : List StreamFrame) (room : ℕ)
    → let out : Sender = record { taken = taken; room = room } in
      (send f out).0 ≡ false → (send f out).1 ≡ (send g (send f out).1).1
unfolding send
refused_at f g taken zero h = refl
refused_at f g taken (suc n) h = absurd (cc h)

refused :
    (f g : StreamFrame) (out : Sender)
    → (send f out).0 ≡ false
    → (send f out).1 ≡ (send g (send f out).1).1
refused f g out = refused_at f g out.taken out.room

-- What the translation has sent when it returns, and what a step has.
abbrev pub Settled : Sender → Relayed × Sender → Type 0
Settled out (relayed, out') = Ended out out'
Settled out (failed status message, out') = Passed out out'

abbrev pub FlowOk : Sender → Flow → Type 0
FlowOk out (next s out') = Passed out out'
FlowOk out (return r out') = Settled out (r, out')

send_samples-Passed : (bs : List ℕ) (out : Sender) → Passed out (send_samples bs out)
unfolding send_samples
send_samples-Passed [] out = Passed-none out
send_samples-Passed (b ∷ bs) out =
    Passed-send (record { kind = kind_chunk; payload = b ∷ bs }) out (unfold terminal in refl)

take_body-FlowOk : (body : List ℕ) (s : State) (out : Sender) → FlowOk out (take_body body s out)
unfolding take_body forward_pcm_chunk
take_body-FlowOk body s out = elim (Bool-cases (s.header_done && not (is_empty body))) [
  | inl h ↦ rw (h, take_body) (send_samples-Passed _ out)
  | inr h ↦ rw (h, take_body) (Passed-none out)
]

Settled-more : {a b : Sender} (x : Relayed × Sender) → Passed a b → Settled b x → Settled a x
Settled-more (failed status message, out) p q = Passed-more p q
Settled-more (relayed, out) p q = record {
  mid = q.mid;
  last = q.last;
  before = Passed-more p q.before;
  ends = q.ends;
  closed = q.closed;
}

FlowOk-more : {a b : Sender} (f : Flow) → Passed a b → FlowOk b f → FlowOk a f
FlowOk-more (next s out) p q = Passed-more p q
FlowOk-more (return r out) p q = Settled-more (r, out) p q

end_frame : StreamFrame
end_frame = record { kind = kind_end; payload = [] }

header_frame : ℕ → StreamFrame
header_frame sr = record { kind = kind_header; payload = header_payload sr }

open_stream-FlowOk :
    (sr : ℕ) (body : List ℕ) (s : State) (out : Sender) → FlowOk out (open_stream sr body s out)
unfolding open_stream header_frame end_frame
open_stream-FlowOk sr body s out =
    let first : Passed out (send (header_frame sr) out).1 =
      Passed-send (header_frame sr) out (unfold terminal in refl) in
    elim (Bool-cases (send (header_frame sr) out).0) [
      | inl h ↦
          rw (h, open_stream)
            (FlowOk-more _ first (
              take_body-FlowOk body (record s { header_done = true })
                (send (header_frame sr) out).1))
      | inr h ↦
          rw (h, open_stream)
            (record {
              mid = (send (header_frame sr) out).1;
              last = end_frame;
              before = first;
              ends = unfold terminal in refl;
              closed = refused (header_frame sr) end_frame out h;
            })
    ]

check_header-FlowOk :
    (buf body : List ℕ) (s : State) (out : Sender) → FlowOk out (check_header buf body s out)
unfolding check_header
check_header-FlowOk buf body s out = elim (Bool-cases (length buf == wav_header_len)) [
  | inr h ↦ rw (h, check_header) (take_body-FlowOk body _ out)
  | inl h ↦ rw (h, check_header) (opened (parse_wav_sample_rate buf))
]
  where
    opened :
        (r : Rate)
        → FlowOk out (elim r [
          | rate sr ↦ open_stream sr body (record s { header_buf = buf }) out
          | no_rate e ↦ return (failed st_generation_failed e) out
        ])
    opened (rate sr) = open_stream-FlowOk sr body (record s { header_buf = buf }) out
    opened (no_rate e) = Passed-none out

on_chunk-FlowOk : (bytes : List ℕ) (s : State) (out : Sender) → FlowOk out (on_chunk bytes s out)
unfolding on_chunk take_header
on_chunk-FlowOk [] s out = Passed-none out
on_chunk-FlowOk (b ∷ bytes) s out = elim (Bool-cases (not s.header_done)) [
  | inl h ↦ rw (h, on_chunk) (check_header-FlowOk _ _ s out)
  | inr h ↦ rw (h, on_chunk) (take_body-FlowOk (b ∷ bytes) s out)
]

close_stream-Settled : (s : State) (out : Sender) → Settled out (close_stream s out)
unfolding close_stream end_frame
close_stream-Settled s out = elim (Bool-cases (not s.header_done)) [
  | inl h ↦ rw (h, close_stream) (Passed-none out)
  | inr h ↦
      rw (h, close_stream)
        (record {
          mid = out;
          last = end_frame;
          before = Passed-none out;
          ends = unfold terminal in refl;
          closed = refl;
        })
]

pub relay_loop-Settled :
    (events : List Event) (s : State) (out : Sender) → Settled out (relay_loop events s out)
unfolding relay_loop
relay_loop-Settled [] s out = close_stream-Settled s out
relay_loop-Settled (broken e ∷ events) s out = Passed-none out
relay_loop-Settled (chunk bytes ∷ events) s out =
    follow_on (on_chunk bytes s out) (on_chunk-FlowOk bytes s out) (relay_loop-Settled events)
  where
    follow_on :
        (f : Flow)
        → FlowOk out f
        → ((s' : State) (out' : Sender) → Settled out' (relay_loop events s' out'))
        → Settled out
            (elim f [ next s' out' ↦ relay_loop events s' out' | return r out' ↦ (r, out') ])
    follow_on (next s' out') p later = Settled-more (relay_loop events s' out') p (later s' out')
    follow_on (return r out') p later = p

pub report-Ended : (out : Sender) (r : Relayed × Sender) → Settled out r → Ended out (report r)
unfolding report error_frame
report-Ended out (relayed, out') p = p
report-Ended out (failed status message, out') p = record {
  mid = out';
  last = error_frame status message;
  before = p;
  ends = unfold terminal in refl;
  closed = refl;
}
