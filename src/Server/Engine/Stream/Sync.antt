-- ===== src/Server/Engine/Stream/Sync.antt =====
-- `stream_relay` of src/server/tts.rs on the bytes of whole frames.
use mii_sound.Common.{
  ℕ, zero, suc, ◌-◌, ◌≤◌, ◌<◌, ◌≡◌, refl, ap, ◌∙◌, arith, Bool, true, false, ◌||◌, List, [], ◌∷◌,
  ◌++◌, Option, none, some, All, length, length-append, append_assoc, if◌then◌else◌, drop,
}
use mii_sound.Io.{ok}
use mii_sound.Io.Write.{Writer, write_all_fits}
use mii_sound.Proto.{op_tts_stream, StreamFrame, Request}
use mii_sound.Proto.Read.{read_stream_frame}
use mii_sound.Proto.Write.{write_request}
use mii_sound.Proto.Wire.{encode_all, encode_request, encode_stream_frame, write_request-encode}
use mii_sound.Proto.RoundTrip.{FrameFits, read_stream_frame-encode}
use mii_sound.Server.Channel.{Sender, send}
use mii_sound.Server.Engine.{RunningWorker, Engine, ensure_worker}
use mii_sound.Server.Engine.Dispatch.{Env}
use mii_sound.Server.Engine.Serving.{ensure_alive}
use mii_sound.Server.Engine.Stream.{
  Cancel, never, behind, take_cancel, terminal, Streamed, ended, stream_frames, keep_worker,
  worker_after, relay_frames, use_stream_worker, stream_relay,
}

-- The bytes that a cancel notice costs.
abbrev pub lost : Cancel → ℕ
lost never = 0
lost (behind n bytes) = bytes

-- Whether the notice comes before the end of a stream with `n` frames before its last one.
unfoldable pub reaches : Cancel → ℕ → Bool
reaches never n = false
reaches (behind zero bytes) n = true
reaches (behind (suc m) bytes) zero = false
reaches (behind (suc m) bytes) (suc n) = reaches (behind m bytes) n

-- Every frame is offered to the receiver, in order.
unfoldable pub send_all : List StreamFrame → Sender → Sender
send_all [] out = out
send_all (frame ∷ frames) out = send_all frames (send frame out).1

-- A frame within the stream, not the last one.
pub record IsInner (frame : StreamFrame) : Type 0 where
  pub fits : FrameFits frame
  pub goes_on : terminal frame ≡ false

-- The worker's stdin with a request behind what it has.
abbrev pub with_request : Request → Writer → Writer
with_request req pipe = record {
  sent = pipe.sent ++ encode_request req;
  room = pipe.room - length (encode_request req);
}

-- One step, behind the cancel notice.
module _ (env : Env) (fuel : ℕ) (cancel : Cancel) (stdout after : List ℕ) (frame : StreamFrame)
    (out : Sender) (signalled : Bool)
    (read : read_stream_frame (take_cancel cancel stdout signalled).1 ≡ ok (frame, after)) where
  frames_more :
      terminal frame ≡ false
      → stream_frames env (suc fuel) cancel stdout out signalled
        ≡ stream_frames env fuel
            (take_cancel cancel stdout signalled).0
            after
            (send frame out).1
            (take_cancel cancel stdout signalled).2
  unfolding stream_frames
  frames_more h = rw (read, stream_frames) (rw h refl)

  frames_end :
      terminal frame ≡ true
      → stream_frames env (suc fuel) cancel stdout out signalled ≡ record {
        stdout = after;
        out = (send frame out).1;
        signalled = (take_cancel cancel stdout signalled).2;
        fate = ended;
      }
  unfolding stream_frames
  frames_end h = rw (read, stream_frames) (rw h refl)

-- A notice between two frames takes no byte.
kept_stdout :
    (cancel : Cancel) (stdout : List ℕ) (signalled : Bool)
    → lost cancel ≡ 0
    → (take_cancel cancel stdout signalled).1 ≡ stdout
unfolding take_cancel
kept_stdout never stdout signalled h = refl
kept_stdout (behind zero bytes) stdout signalled h = ap (λ (n : ℕ). drop n stdout) h
kept_stdout (behind (suc n) bytes) stdout signalled h = refl

kept_lost :
    (cancel : Cancel) (stdout : List ℕ) (signalled : Bool)
    → lost cancel ≡ 0
    → lost (take_cancel cancel stdout signalled).0 ≡ 0
unfolding take_cancel
kept_lost never stdout signalled h = refl
kept_lost (behind zero bytes) stdout signalled h = refl
kept_lost (behind (suc n) bytes) stdout signalled h = h

signal_now :
    (cancel : Cancel) (stdout : List ℕ) (signalled : Bool)
    → (take_cancel cancel stdout signalled).2 ≡ (signalled || reaches cancel 0)
unfolding take_cancel reaches
signal_now never stdout true = refl
signal_now never stdout false = refl
signal_now (behind zero bytes) stdout true = refl
signal_now (behind zero bytes) stdout false = refl
signal_now (behind (suc n) bytes) stdout true = refl
signal_now (behind (suc n) bytes) stdout false = refl

signal_later :
    (cancel : Cancel) (stdout : List ℕ) (signalled : Bool) (n : ℕ)
    → ((take_cancel cancel stdout signalled).2 || reaches (take_cancel cancel stdout signalled).0 n)
      ≡ (signalled || reaches cancel (suc n))
unfolding take_cancel reaches
signal_later never stdout signalled n = refl
signal_later (behind zero bytes) stdout true n = refl
signal_later (behind zero bytes) stdout false n = refl
signal_later (behind (suc m) bytes) stdout signalled n = refl

module _ (env : Env) (last : StreamFrame) (fits : FrameFits last) (ends : terminal last ≡ true)
    (rest : List ℕ) where
  -- The bytes of a stream of frames, with what follows them.
  abbrev pub framed : List StreamFrame → List ℕ
  framed frames = encode_all encode_stream_frame frames ++ (encode_stream_frame last ++ rest)

  stream_frames-framed :
      (frames : List StreamFrame) (fuel : ℕ) (cancel : Cancel) (out : Sender) (signalled : Bool)
      → All IsInner frames
      → lost cancel ≡ 0
      → length frames < fuel
      → stream_frames env fuel cancel (framed frames) out signalled ≡ record {
        stdout = rest;
        out = send_all (frames ++ last ∷ []) out;
        signalled = signalled || reaches cancel (length frames);
        fate = ended;
      }
  unfolding send_all encode_all
  stream_frames-framed frames zero cancel out signalled inner free enough = absurd (omega arith)
  stream_frames-framed [] (suc fuel) cancel out signalled inner free enough =
      frames_end env fuel cancel _ rest last out signalled
        (ap read_stream_frame (kept_stdout cancel _ signalled free)
          ∙ read_stream_frame-encode last rest fits)
        ends
      ∙ λ i. record {
        stdout = rest;
        out = (send last out).1;
        signalled = signal_now cancel (encode_stream_frame last ++ rest) signalled i;
        fate = ended;
      }
  stream_frames-framed (f ∷ frames) (suc fuel) cancel out signalled inner free enough =
      frames_more env fuel cancel _ (framed frames) f out signalled
        (ap read_stream_frame
            (kept_stdout cancel _ signalled free ∙ append_assoc (encode_stream_frame f) _ _)
          ∙ read_stream_frame-encode f (framed frames) inner.0.fits)
        inner.0.goes_on
      ∙ stream_frames-framed frames fuel _ (send f out).1 _ inner.1
          (kept_lost cancel _ signalled free) (omega arith)
      ∙ λ i. record {
        stdout = rest;
        out = send_all (frames ++ last ∷ []) (send f out).1;
        signalled = signal_later cancel (framed (f ∷ frames)) signalled (length frames) i;
        fate = ended;
      }

  length-framed : (frames : List StreamFrame) → length frames ≤ length (framed frames)
  unfolding encode_all encode_stream_frame
  length-framed [] = omega arith
  length-framed (f ∷ frames) = omega (
    arith,
    length-framed frames,
    length-append (encode_stream_frame f ++ encode_all encode_stream_frame frames)
        (encode_stream_frame last ++ rest),
    length-append (encode_stream_frame f) (encode_all encode_stream_frame frames),
    length-append (encode_all encode_stream_frame frames) (encode_stream_frame last ++ rest),
  )

  exchange_steps :
      (req : Request) (cancel : Cancel) (w : RunningWorker) (e : Engine) (out : Sender)
      (stdin' : Writer) (s : Streamed)
      → write_request req w.stdin ≡ (ok tt, stdin')
      → stream_frames env (suc (length w.stdout)) cancel w.stdout out false ≡ s
      → relay_frames env req cancel w e out ≡ keep_worker env (record w { stdin = stdin' }) e s
  unfolding relay_frames
  exchange_steps req cancel w e out stdin' s wrote looped = ground (arith, wrote, looped)

  use_alive :
      (req : Request) (cancel : Cancel) (w : RunningWorker) (e : Engine) (out : Sender)
      → w.exited ≡ none
      → use_stream_worker env req cancel w e out ≡ relay_frames env req cancel w e out
  unfolding use_stream_worker
  use_alive req cancel w e out alive = ground arith

  relay_with :
      (json : List ℕ) (audio : Option (List ℕ)) (cancel : Cancel) (w : RunningWorker) (e : Engine)
      (out : Sender)
      → ensure_worker env.now env.child e.worker ≡ ok w
      → stream_relay env json audio cancel e out
        ≡ use_stream_worker env
            (record { op = op_tts_stream; json = json; audio = audio })
            cancel
            w
            e
            out
  unfolding stream_relay
  relay_with json audio cancel w e out r = rw (r, stream_relay) refl

  -- A worker that runs and answers with frames up to a terminal one is kept: the request went out
  -- whole, every frame is offered to the client as it is and in order, and both pipes stand at a
  -- frame's boundary, whether or not the client still takes frames. A cancel notice that arrives
  -- between two frames becomes one signal.
  pub stream_relay-forwards :
      (json : List ℕ) (audio : Option (List ℕ)) (cancel : Cancel) (e : Engine) (w : RunningWorker)
      (out : Sender) (frames : List StreamFrame)
      → e.worker ≡ some w
      → w.exited ≡ none
      → length (encode_request (record { op = op_tts_stream; json = json; audio = audio }))
        ≤ w.stdin.room
      → w.stdout ≡ framed frames
      → All IsInner frames
      → lost cancel ≡ 0
      → stream_relay env json audio cancel e out ≡ (
        record e {
          worker = some (record w {
            stdin =
                with_request (record { op = op_tts_stream; json = json; audio = audio }) w.stdin;
            stdout = rest;
            last_used = env.now;
          });
          signals = e.signals ++ (if reaches cancel (length frames) then w.pid ∷ [] else []);
        },
        send_all (frames ++ last ∷ []) out,
      )
  unfolding keep_worker worker_after
  stream_relay-forwards json audio cancel e w out frames has alive room writes inner free =
      relay_with json audio cancel w e out (ensure_alive env.now env.child e.worker w has)
      ∙ use_alive _ cancel w e out alive
      ∙ exchange_steps _ cancel w e out _ _
          (write_request-encode _ w.stdin ∙ write_all_fits _ w.stdin room)
          (ap (λ (s : List ℕ). stream_frames env (suc (length s)) cancel s out false) writes
            ∙ stream_frames-framed frames _ cancel out false inner free
                (omega (arith, length-framed frames)))
