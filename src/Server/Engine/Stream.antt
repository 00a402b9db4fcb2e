-- ===== src/Server/Engine/Stream.antt =====
-- `stream_relay` of src/server/tts.rs: the frames of a worker for one client.
pub mod Sync
use mii_sound.Common.{
  ℕ, zero, suc, Text, text, Bool, true, false, ◌||◌, ◌==◌, List, [], ◌∷◌, ◌++◌, Option, none, some,
  if◌then◌else◌, drop, length,
}
use mii_sound.Io.{Result, ok, err, Error, display, msg_of}
use mii_sound.Io.Write.{Writer}
use mii_sound.Proto.{
  op_tts_stream, st_model_missing, st_generation_failed, kind_end, kind_error, Request, StreamFrame,
}
use mii_sound.Proto.Read.{read_stream_frame}
use mii_sound.Proto.Write.{write_request, error_payload}
use mii_sound.Server.Channel.{Sender, send}
use mii_sound.Server.Engine.{RunningWorker, Engine, ensure_worker}
use mii_sound.Server.Engine.Dispatch.{Env}

-- When the cancel notice arrives: behind so many frames, with so many bytes of the next one read.
pub data Cancel : Type 0 where
  never : Cancel
  behind : (frames bytes : ℕ) → Cancel

-- `tokio::select!` drops the read that is under way, and with it the bytes that it has taken.
unfoldable pub take_cancel : Cancel → List ℕ → Bool → Cancel × List ℕ × Bool
take_cancel never stdout signalled = (never, stdout, signalled)
take_cancel (behind zero bytes) stdout signalled = (never, drop bytes stdout, true)
take_cancel (behind (suc n) bytes) stdout signalled = (behind n bytes, stdout, signalled)

unfoldable pub error_frame : ℕ → Text → StreamFrame
error_frame status message = record { kind = kind_error; payload = error_payload status message }

unfoldable pub terminal : StreamFrame → Bool
terminal frame = frame.kind == kind_end || frame.kind == kind_error

-- How the loop leaves things: `unfinished` is no state of the program; the fuel ran out.
pub data Fate : Type 0 where
  ended dropped unfinished : Fate

pub record Streamed : Type 0 where
  pub stdout : List ℕ
  pub out : Sender
  pub signalled : Bool
  pub fate : Fate

module _ (env : Env) where
  pipe_error_frame : Error → StreamFrame
  pipe_error_frame e =
      error_frame st_generation_failed
        (display env.fault_text (msg_of (text "worker pipe error: ") e))

  -- The loop over the frames; a frame takes five bytes at least.
  unfoldable pub stream_frames : ℕ → Cancel → List ℕ → Sender → Bool → Streamed
  unfolding pipe_error_frame
  stream_frames zero cancel stdout out signalled = record {
    stdout = stdout;
    out = out;
    signalled = signalled;
    fate = unfinished;
  }
  stream_frames (suc fuel) cancel stdout out signalled =
      let (cancel', stdout', signalled') = take_cancel cancel stdout signalled in
      elim (read_stream_frame stdout') [
        | err e ↦ record {
          stdout = stdout';
          out = (send (pipe_error_frame e) out).1;
          signalled = signalled';
          fate = dropped;
        }
        | ok (frame, rest) ↦
            let out' = (send frame out).1 in
            let later = stream_frames fuel cancel' rest out' signalled' in
            if terminal frame
            then record { stdout = rest; out = out'; signalled = signalled'; fate = ended }
            else later
      ]

  -- The worker behind the loop.
  unfoldable pub worker_after : RunningWorker → Streamed → Option RunningWorker
  worker_after w s = elim s.fate [
    | ended ↦ some (record w { stdout = s.stdout; last_used = env.now })
    | dropped ↦ none
    | unfinished ↦ some (record w { stdout = s.stdout })
  ]

  unfoldable pub keep_worker : RunningWorker → Engine → Streamed → Engine × Sender
  unfolding worker_after
  keep_worker w e s = (
    record e {
      worker = worker_after w s;
      signals = e.signals ++ (if s.signalled then w.pid ∷ [] else []);
    },
    s.out,
  )

  -- Behind the crash check.
  unfoldable pub relay_frames : Request → Cancel → RunningWorker → Engine → Sender → Engine × Sender
  unfolding keep_worker stream_frames
  relay_frames req cancel w e out =
      let (r, stdin') = write_request req w.stdin in
      elim r [
        | err x ↦ (record e { worker = none }, (send (pipe_error_frame x) out).1)
        | ok _ ↦
            keep_worker (record w { stdin = stdin' }) e
              (stream_frames (suc (length w.stdout)) cancel w.stdout out false)
      ]

  unfoldable pub use_stream_worker :
      Request → Cancel → RunningWorker → Engine → Sender → Engine × Sender
  unfolding relay_frames
  use_stream_worker req cancel w e out = elim w.exited [
    | some status ↦ (
      record e { worker = none },
      (send
          (error_frame st_generation_failed
            (text "worker exited before request (" ++ (status ++ text ")")))
          out).1,
    )
    | none ↦ relay_frames req cancel w e out
  ]

  unfoldable pub stream_relay :
      (json : List ℕ) (audio : Option (List ℕ)) → Cancel → Engine → Sender → Engine × Sender
  unfolding use_stream_worker
  stream_relay json audio cancel e out = elim (ensure_worker env.now env.child e.worker) [
    | err x ↦ (e, (send (error_frame st_model_missing (display env.fault_text x)) out).1)
    | ok w ↦
        use_stream_worker (record { op = op_tts_stream; json = json; audio = audio }) cancel w e out
  ]
