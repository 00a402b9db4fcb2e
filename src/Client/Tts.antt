-- ===== src/Client/Tts.antt =====
-- `mii-sound tts`: src/client/tts.rs. serde_json is a parameter.
pub mod Laws
use mii_sound.Common.{
  ℕ, Text, text, List, [], ◌∷◌, ◌++◌, ◌==◌, not, ◌&&◌, ◌||◌, if◌then◌else◌, Option, none, some,
  is_some, Bool, true, false, is_empty, is_blank, is_ascii_whitespace, bytes_eq, drop,
}
use mii_sound.Exit
use mii_sound.Io.{
  Parsed, good, bad, Result, ok, err, Error, Fault, msg, display, broken_pipe, fault,
}
use mii_sound.Io.Write.{Writer, write_all}
use mii_sound.Proto.{op_tts, op_tts_stream, TtsRequest, Request, Response}
use mii_sound.Client.Session.{
  Conn, Ending, server_error, status_to_exit, fail_bad_request, fail_unreachable, fail_unknown,
  handle_response_status, send_recv,
}
use mii_sound.Client.Sink.{
  StreamSink, to_stdout, to_file, Outcome, finished, failed, waiting, stream_exchange,
}

-- The user's request, before the command line is merged in.
pub record UserReq : Type 0 where
  pub text : Text
  pub reference : Option Text
  pub continuation : Option Text

-- What the client uses of serde_json.
pub record Json : Type 1 where
  pub Value : Type 0
  -- `from_str`, for `--json`.
  pub from_str : Text → Parsed Value
  -- The first value of a stream with the offset behind it; `none` if there is none.
  pub first_value : List ℕ → Option (Parsed (Value × ℕ))
  -- `from_value`, into the user's request.
  pub from_value : Value → Parsed UserReq
  -- `to_vec`
  pub to_vec : TtsRequest → Parsed (List ℕ)

-- The command line; `out` is in the sink that the environment gives.
pub record TtsArgs : Type 0 where
  pub json : Option Text
  pub voice_clone : Bool
  pub cfg : ℕ
  pub steps : ℕ
  pub stream : Bool

-- A step of the client: it ends the process or goes on.
pub data Run {ℓ} (A : Type ℓ) : Type ℓ where
  leave : Ending → Run A
  continue : A → Run A

infixl 5 ◌>>=◌ ◌>>◌
abbrev pub ◌>>=◌ {ℓ κ} : {A : Type ℓ} {B : Type κ} → Run A → (A → Run B) → Run B
leave e >>= f = leave e
continue a >>= f = f a

abbrev pub ◌>>◌ {ℓ} : {B : Type ℓ} → Run (Unit {0}) → Run B → Run B
m >> k = m >>= λ _. k

-- `if b { fail_bad_request(msg) }`
abbrev pub reject_if : Bool → Text → Run (Unit {0})
reject_if true why = leave (fail_bad_request why)
reject_if false why = continue tt

abbrev pub or_leave : {A : Type 0} → (Text → Ending) → Parsed A → Run A
or_leave fail (good a) = continue a
or_leave fail (bad e) = leave (fail e)

abbrev pub or_unreachable : (Fault → Text) → Result Conn → Run Conn
or_unreachable fault_text (ok c) = continue c
or_unreachable fault_text (err e) = leave (fail_unreachable (display fault_text e))

-- `bytes.iter().any(|b| !b.is_ascii_whitespace())`
unfoldable pub any_visible : List ℕ → Bool
any_visible [] = false
any_visible (b ∷ bs) = not (is_ascii_whitespace b) || any_visible bs

-- `user.reference.as_deref() == Some(INLINE_REFERENCE_SENTINEL)`
unfoldable pub is_inline : Option Text → Bool
is_inline none = false
is_inline (some r) = bytes_eq r (text "<>")

-- The checks on the request and the merge with the command line: steps 2 and 3 of `run`, between
-- the parse and the serialization.
unfoldable pub merge : TtsArgs → UserReq → List ℕ → Run (TtsRequest × Option (List ℕ))
merge args user tail = do
  reject_if (is_blank user.text) (text "`text` is required and must be non-empty")
  reject_if (args.voice_clone && not (is_some user.reference))
      (text "--voice-clone requires a `reference` field in the request JSON")
  reject_if (not args.voice_clone && is_some user.reference)
      (text "`reference` set but --voice-clone not specified")
  let inline = is_inline user.reference
  reject_if (inline && is_empty tail)
      (text "`reference` is `<>` but no audio bytes followed the JSON on stdin")
  reject_if (not inline && any_visible tail)
      (text "trailing bytes after JSON but `reference` is not `<>`")
  continue (
    record {
      text = user.text;
      reference = if inline then none else user.reference;
      continuation = user.continuation;
      cfg = args.cfg;
      steps = args.steps;
      inline_reference = inline;
    },
    if inline then some tail else none,
  )

-- `write_payload_out`: to stdout, or to the file of this path.
unfoldable pub write_payload_out : Option Text → List ℕ → Writer → Result (Unit {0}) × Writer
write_payload_out none payload w = write_all payload w
write_payload_out (some path) payload w =
    let (r, w') = write_all payload w in
    elim r [ ok _ ↦ (ok tt, w') | err _ ↦ (err (msg (text "writing " ++ path)), w') ]

-- What the process meets: its stdin, the connection, the sink for a stream, the path of `--out`
-- with the file or stdout behind it, and how the faults of the libraries read.
pub record Env : Type 0 where
  pub stdin : Result (List ℕ)
  pub connected : Result Conn
  pub sink : Result StreamSink
  pub out_path : Option Text
  pub output : Writer
  pub fault_text : Fault → Text

-- The bytes that a sink has let out.
abbrev pub sink_output : Option StreamSink → List ℕ
sink_output none = []
sink_output (some (to_stdout out h)) = out.sent
sink_output (some (to_file file n h sr)) = file.content

-- `waiting` does not occur: the loop ends.
unfoldable pub stream_ending : (Fault → Text) → Outcome → List ℕ → Ending
stream_ending fault_text finished out = record { code = Exit.success; stderr = []; output = out }
stream_ending fault_text (failed status e) out = record {
  code = status_to_exit status;
  stderr = server_error (display fault_text e);
  output = out;
}
stream_ending fault_text waiting out = fail_unknown []

unfoldable pub finish_stream : Env → Request → Conn → Ending
unfolding stream_ending
finish_stream env req conn =
    let ((o, sink), out) = stream_exchange req env.sink conn.incoming conn.outgoing in
    stream_ending env.fault_text o (sink_output sink)

-- Step 5, behind a response.
unfoldable pub deliver : Env → Response → Ending
deliver env resp = elim (handle_response_status resp) [
  | some ending ↦ ending
  | none ↦
      let (r, w) = write_payload_out env.out_path resp.payload env.output in
      elim r [
        | ok _ ↦ record { code = Exit.success; stderr = []; output = w.sent }
        | err e ↦ record (fail_unknown (display env.fault_text e)) { output = w.sent }
      ]
]

unfoldable pub finish_single : Env → Request → Conn → Ending
unfolding deliver
finish_single env req conn = elim (send_recv req conn).0 [
  | err e ↦ fail_unreachable (display env.fault_text e)
  | ok resp ↦ deliver env resp
]

abbrev pub close_run : Run Ending → Ending
close_run (leave e) = e
close_run (continue e) = e

module _ (json : Json) where
  open json use {Value, from_str, first_value, from_value, to_vec}

  unfoldable pub split_json_and_rest : List ℕ → Parsed (Value × List ℕ)
  split_json_and_rest raw = elim (first_value raw) [
    | none ↦ bad (text "empty JSON input")
    | some (bad _) ↦ bad (text "invalid JSON on stdin")
    | some (good (v, offset)) ↦ good (v, drop offset raw)
  ]

  -- Step 1: the request JSON, and the bytes behind it.
  unfoldable pub acquire : TtsArgs → Env → Run (Value × List ℕ)
  acquire args env = elim args.json [
    | some s ↦ (do
      v ← or_leave (λ e. fail_bad_request (text "--json is not valid JSON: " ++ e)) (from_str s)
      continue (v, []))
    | none ↦ elim env.stdin [
      | err e ↦ leave (fail_bad_request (text "failed to read stdin: " ++ display env.fault_text e))
      | ok raw ↦ (do
        reject_if (is_empty raw) (text "no JSON received on stdin (and no --json given)")
        or_leave fail_bad_request (split_json_and_rest raw))
    ]
  ]

  unfoldable pub run : TtsArgs → Env → Ending
  run args env = close_run (do
    (v, tail) ← acquire args env
    user ← or_leave (λ e. fail_bad_request (text "invalid request shape: " ++ e)) (from_value v)
    (wire, audio) ← merge args user tail
    bytes ← or_leave (λ e. fail_unknown (text "failed to serialize request: " ++ e)) (to_vec wire)
    conn ← or_unreachable env.fault_text env.connected
    let req : Request = record {
      op = if args.stream then op_tts_stream else op_tts;
      json = bytes;
      audio = audio;
    }
    continue (if args.stream then finish_stream env req conn else finish_single env req conn))
