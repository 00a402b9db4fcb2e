-- ===== src/Server/Connection.antt =====
-- src/server/mod.rs: one connection, from the token to the last byte of the answer. What the
-- engine answers to it is an argument.
pub mod Replies
pub mod Relaying
pub mod Turns
pub mod Cancel
use mii_sound.Common.{
  ℕ, zero, suc, Text, text, decimal, Bool, true, false, not, ◌==◌, List, [], ◌∷◌, ◌++◌, Option,
  none, some, if◌then◌else◌, bytes_eq,
}
use mii_sound.Io.{Result, ok, err, Parsed, good, bad, Error, msg}
use mii_sound.Io.Write.{Write, ◌>>◌}
use mii_sound.Proto.{
  op_tts, op_tts_stream, op_status, st_ok, st_bad_request, st_generation_failed, st_model_missing,
  TtsRequest, Request, Response, StreamFrame,
}
use mii_sound.Proto.Read.{read_token, read_request}
use mii_sound.Proto.Write.{write_response, write_stream_frame}
use mii_sound.Server.Engine.{TtsResult, done, model_missing, cancelled, failed}
use mii_sound.Server.Channel.{Sender}
use mii_sound.Server.Relay.Requests as Relay
use mii_sound.Server.Relay.Requests.{Api, Outcome, success, failure}
use mii_sound.Server.Engine.Stream.{error_frame, terminal}
use mii_sound.Server.Relay.{RelayError}
use mii_sound.Io.Write as Out

-- What the engine answers to a request of this connection: what comes back from the queue, and what
-- comes over the channel of a stream until it closes.
pub record Local : Type 0 where
  pub queued : List ℕ → Option (List ℕ) → TtsResult
  pub frames : List ℕ → Option (List ℕ) → List StreamFrame

-- `ServerCtx` for one connection. The upstream is asked through `relay`; `waits` is the number of
-- frames that a client of the relay stays for, where a response counts as one.
pub record Ctx : Type 0 where
  pub tts : Option Local
  pub relay : Option Api
  pub expected_token : Option Text
  pub from_slice : List ℕ → Parsed TtsRequest
  pub waits : ℕ

abbrev pub error_reply : ℕ → Text → Response
error_reply status message = record { status = status; payload = message }

-- `match result`
unfoldable pub reply_of : TtsResult → Response
reply_of (done bytes) = record { status = st_ok; payload = bytes }
reply_of (model_missing message) = error_reply st_model_missing message
reply_of cancelled = error_reply st_generation_failed (text "cancelled")
reply_of (failed message) = error_reply st_generation_failed message

unfoldable pub relay_reply : Outcome RelayError (List ℕ) → Response
relay_reply (success bytes) = record { status = st_ok; payload = bytes }
relay_reply (failure e) = error_reply e.status e.message

-- `match serde_json::from_slice` of an operation on text to speech: without its JSON it is refused.
abbrev parsed_or : (List ℕ → Parsed TtsRequest) → List ℕ → (TtsRequest → Response) → Response
parsed_or from_slice json reply = elim (from_slice json) [
  | bad e ↦ error_reply st_bad_request (text "invalid tts json: " ++ e)
  | good parsed ↦ reply parsed
]

unfoldable pub dispatch : Ctx → Request → Response
unfolding reply_of
dispatch ctx req =
    if req.op == op_status
    then record { status = st_ok; payload = [] }
    else if req.op == op_tts
    then elim ctx.tts [
      | none ↦ error_reply st_model_missing (text "server was started without --tts-dir")
      | some engine ↦
          parsed_or ctx.from_slice req.json (λ _. reply_of (engine.queued req.json req.audio))
    ]
    else error_reply st_bad_request (text "unknown op " ++ decimal req.op)

-- `tokio::select!` of the upstream's answer and the client's end.
unfoldable pub relayed_or_cancelled : ℕ → Response → Response
relayed_or_cancelled zero reply = error_reply st_generation_failed (text "cancelled")
relayed_or_cancelled (suc n) reply = reply

unfoldable pub dispatch_relay : Ctx → Api → Request → Response
unfolding relay_reply relayed_or_cancelled
dispatch_relay ctx relay req =
    if req.op == op_status
    then (if Relay.status relay
        then record { status = st_ok; payload = [] }
        else error_reply st_bad_request (text "relay upstream not running"))
    else if req.op == op_tts
    then parsed_or ctx.from_slice req.json
        (λ parsed. relayed_or_cancelled ctx.waits (relay_reply (Relay.tts relay parsed req.audio)))
    else error_reply st_bad_request (text "unknown op " ++ decimal req.op)

-- The frames of the channel, up to a terminal one; a channel that closes before gets an error frame.
unfoldable pub forward_frames : Text → List StreamFrame → Write
forward_frames why [] = write_stream_frame (error_frame st_generation_failed why)
forward_frames why (frame ∷ frames) =
    let rest = forward_frames why frames in
    write_stream_frame frame >> (if terminal frame then Out.done else rest)

abbrev stream_or : (List ℕ → Parsed TtsRequest) → List ℕ → (TtsRequest → Write) → Write
stream_or from_slice json reply = elim (from_slice json) [
  | bad e ↦ write_stream_frame (error_frame st_bad_request (text "invalid tts json: " ++ e))
  | good parsed ↦ reply parsed
]

-- The loop of `handle_stream_relay`: before it takes a frame, it looks whether the client is gone.
unfoldable pub forward_while : ℕ → Text → List StreamFrame → Write
forward_while zero why frames = Out.done
forward_while (suc waits) why [] = write_stream_frame (error_frame st_generation_failed why)
forward_while (suc waits) why (frame ∷ frames) =
    let rest = forward_while waits why frames in
    write_stream_frame frame >> (if terminal frame then Out.done else rest)

-- The channel of `handle_stream_relay`: its receiver takes a frame for each turn of the loop.
unfoldable pub channel : ℕ → Sender
channel waits = record { taken = []; room = waits }

unfoldable pub handle_stream_relay : Ctx → Api → Request → Write
unfolding forward_while channel
handle_stream_relay ctx relay req = stream_or ctx.from_slice req.json (λ parsed.
    forward_while ctx.waits (text "relay stream ended without terminal frame")
      (Relay.tts_stream relay parsed req.audio (channel ctx.waits)).taken)

unfoldable pub handle_stream : Ctx → Request → Write
unfolding handle_stream_relay forward_frames
handle_stream ctx req = elim ctx.relay [
  | some relay ↦ handle_stream_relay ctx relay req
  | none ↦ elim ctx.tts [
    | none ↦
        write_stream_frame
          (error_frame st_model_missing (text "server was started without --tts-dir"))
    | some engine ↦ stream_or ctx.from_slice req.json (λ _.
        forward_frames (text "stream ended without terminal frame")
          (engine.frames req.json req.audio))
  ]
]

-- What a request gets as its one response.
unfoldable pub response_to : Ctx → Request → Response
unfolding dispatch_relay dispatch
response_to ctx req = elim ctx.relay [
  | some relay ↦ dispatch_relay ctx relay req
  | none ↦ dispatch ctx req
]

-- Behind the request.
unfoldable pub answer : Ctx → Request → Write
unfolding handle_stream response_to
answer ctx req =
    if req.op == op_tts_stream then handle_stream ctx req else write_response (response_to ctx req)

unfoldable pub read_and_answer : Ctx → List ℕ → Write
unfolding answer
read_and_answer ctx s = elim (read_request s) [
  | err e ↦ Out.bail (msg (text "reading request"))
  | ok (req, rest) ↦ answer ctx req
]

-- `unwrap_or_default()`
abbrev pub expected : Option Text → Text
expected none = []
expected (some t) = t

abbrev pub invalid_token : Write
invalid_token w =
    let (r, w') = write_response (error_reply st_bad_request (text "invalid token")) w in
    (err (msg (text "invalid token")), w')

unfoldable pub handle : Ctx → (expect_token : Bool) → List ℕ → Write
unfolding read_and_answer
handle ctx false s = read_and_answer ctx s
handle ctx true s = elim (read_token s) [
  | err e ↦ Out.bail (msg (text "reading token"))
  | ok (token, rest) ↦
      if bytes_eq token (expected ctx.expected_token)
      then read_and_answer ctx rest
      else invalid_token
]
