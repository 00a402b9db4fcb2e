-- ===== src/Worker.antt =====
-- src/worker.rs: the process that owns the model and answers the requests of the engine.
pub mod Batches
pub mod Pipe
pub mod Panic
pub mod Order
pub mod Refines
pub mod Streams
pub mod Slot
pub mod Start
use mii_sound.Common.{
  ℕ, zero, suc, Text, text, decimal, Bool, true, false, ◌||◌, ◌==◌, not, List, [], ◌∷◌, ◌++◌,
  Option, none, some, map, if◌then◌else◌, replicate, length, u32_le,
}
use mii_sound.Io.{Result, ok, err, Error, Parsed, good, bad}
use mii_sound.Io.Write.{Writer, Write, done, ◌>>◌, write_u8, flush}
use mii_sound.Proto.{
  op_tts, op_tts_batch, op_tts_stream, st_ok, st_bad_request, st_generation_failed, kind_header,
  kind_chunk, kind_end, kind_error, TtsRequest, Request, Response, StreamFrame,
}
use mii_sound.Proto as Proto
use mii_sound.Proto.Read.{read_op, read_request_body, read_batch_request_body}
use mii_sound.Proto.Write.{
  write_batch_response, write_response, write_stream_frame, header_payload, error_payload,
}
use mii_sound.Synth.{
  Vox, VoxError, Synth, made, broke, SynthError, cancelled, other, BatchItem, synth_inner,
  synth_batch_inner, synth_stream_inner,
}

-- What happens while a request runs: whether a cancel signal arrives while the request is in the
-- slot, and whether the model panics, on a stream behind some chunks.
pub record Env : Type 0 where
  pub signalled : Bool
  pub panics : Bool
  pub panic_chunks : List (List ℕ)

-- What the program uses of the libraries, with the texts of their errors.
pub record Libs : Type 1 where
  pub vox : Vox
  pub vox_text : VoxError → Text
  pub from_slice : List ℕ → Parsed TtsRequest
  -- The text of the error of `join.await`.
  pub panic_text : Text

-- `join.await`
pub data Joined {ℓ} (A : Type ℓ) : Type ℓ where
  returned : A → Joined A
  panicked : Joined A

-- The state is whether the mutex of the model is poisoned. Then `lock().expect(..)` panics too.
unfoldable pub spawn_blocking {ℓ} : {A : Type ℓ} → Env → Bool → A → Joined A × Bool
spawn_blocking env poisoned result =
    if poisoned || env.panics then (panicked, true) else (returned result, false)

abbrev pub error_response : ℕ → Text → Response
error_response status message = record { status = status; payload = message }

abbrev pub ok_response : List ℕ → Response
ok_response payload = record { status = st_ok; payload = payload }

-- The response for one result of the synthesis.
unfoldable pub response_of : Synth (List ℕ) → Response
response_of (made payload) = ok_response payload
response_of (broke cancelled) = error_response st_generation_failed (text "cancelled")
response_of (broke (other message)) = error_response st_generation_failed message

module _ (libs : Libs) where
  open libs use {vox, vox_text, from_slice, panic_text}

  unfoldable pub panic_message : Text
  panic_message = text "worker task panicked: " ++ panic_text

  unfoldable pub joined_response : Joined (Synth (List ℕ)) → Response
  unfolding panic_message
  joined_response (returned r) = response_of r
  joined_response panicked = error_response st_generation_failed panic_message

  unfoldable pub synthesize_request : Env → Bool → Option (List ℕ) → TtsRequest → Response × Bool
  unfolding joined_response
  synthesize_request env poisoned audio parsed =
      let (joined, poisoned') =
        spawn_blocking env poisoned (synth_inner vox parsed audio env.signalled) in
      (joined_response joined, poisoned')

  unfoldable pub handle_request : Env → Bool → Request → Response × Bool
  unfolding synthesize_request
  handle_request env poisoned req =
      if not (req.op == op_tts)
      then (
        error_response st_bad_request (text "worker received non-tts op " ++ decimal req.op),
        poisoned,
      )
      else elim (from_slice req.json) [
        | bad e ↦ (error_response st_bad_request (text "invalid tts json: " ++ e), poisoned)
        | good parsed ↦ synthesize_request env poisoned req.audio parsed
      ]

  -- The JSON of every item; the first that does not parse ends it.
  unfoldable pub parse_items : List Proto.BatchItem → Parsed (List BatchItem)
  parse_items [] = good []
  parse_items (item ∷ items) =
      let rest = parse_items items in
      elim (from_slice item.json) [
        | bad e ↦ bad e
        | good req ↦ elim rest [
          | bad e ↦ bad e
          | good parsed ↦ good (record { req = req; inline_audio = item.audio } ∷ parsed)
        ]
      ]

  -- `(0..count).map(..)`, for what the batch as a whole came to.
  unfoldable pub batch_responses : ℕ → Joined (Synth (List (Synth (List ℕ)))) → List Response
  unfolding panic_message
  batch_responses count (returned (made per_item)) = map response_of per_item
  batch_responses count (returned (broke e)) = replicate count (response_of (broke e))
  batch_responses count panicked =
      replicate count (error_response st_generation_failed panic_message)

  unfoldable pub synthesize_items : Env → Bool → ℕ → List BatchItem → List Response × Bool
  unfolding batch_responses
  synthesize_items env poisoned count items =
      let (joined, poisoned') =
        spawn_blocking env poisoned (synth_batch_inner vox items env.signalled) in
      (batch_responses count joined, poisoned')

  unfoldable pub handle_batch_request : Env → Bool → List Proto.BatchItem → List Response × Bool
  unfolding synthesize_items
  handle_batch_request env poisoned [] = ([], poisoned)
  handle_batch_request env poisoned (item ∷ items) = elim (parse_items (item ∷ items)) [
    | bad e ↦ (
      replicate (length (item ∷ items))
          (error_response st_bad_request (text "invalid tts json: " ++ e)),
      poisoned,
    )
    | good parsed ↦ synthesize_items env poisoned (length (item ∷ items)) parsed
  ]

  -- `samples_to_le_bytes`
  unfoldable pub samples_to_le_bytes : List ℕ → List ℕ
  samples_to_le_bytes [] = []
  samples_to_le_bytes (s ∷ samples) = u32_le s ++ samples_to_le_bytes samples

  -- `StreamEvent` and its frame are one here: the channel hands every event to the writer.
  abbrev pub header_event : StreamFrame
  header_event = record { kind = kind_header; payload = header_payload vox.sample_rate }

  abbrev pub chunk_event : List ℕ → StreamFrame
  chunk_event samples = record { kind = kind_chunk; payload = samples_to_le_bytes samples }

  abbrev pub end_event : StreamFrame
  end_event = record { kind = kind_end; payload = [] }

  abbrev pub error_event : ℕ → Text → StreamFrame
  error_event status message = record { kind = kind_error; payload = error_payload status message }

  -- The callback: the header goes before the first chunk.
  unfoldable pub chunk_events : (sent_header : Bool) → List (List ℕ) → List StreamFrame
  chunk_events sent_header [] = []
  chunk_events sent_header (samples ∷ chunks) =
      (if sent_header then [] else header_event ∷ [])
      ++ chunk_event samples ∷ chunk_events true chunks

  unfoldable pub last_event : Synth ℕ → StreamFrame
  last_event (made _) = end_event
  last_event (broke cancelled) = error_event st_generation_failed (text "cancelled")
  last_event (broke (other message)) = error_event st_generation_failed message

  unfoldable pub stream_events : List (List ℕ) × Synth ℕ → List StreamFrame
  unfolding last_event
  stream_events (chunks, r) = chunk_events false chunks ++ last_event r ∷ []

  -- The events of the blocking task. A panic ends the channel without a last event.
  unfoldable pub stream_task : Env → Bool → List (List ℕ) × Synth ℕ → List StreamFrame × Bool
  unfolding stream_events
  stream_task env poisoned result =
      if poisoned
      then ([], true)
      else if env.panics
      then (chunk_events false env.panic_chunks, true)
      else (stream_events result, false)

  unfoldable pub write_events : List StreamFrame → Write
  write_events [] w = done w
  write_events (e ∷ events) w = (write_stream_frame e >> write_events events) w

  -- The frames of one stream request.
  unfoldable pub handle_stream_request : Env → Bool → Request → List StreamFrame × Bool
  unfolding stream_task
  handle_stream_request env poisoned req = elim (from_slice req.json) [
    | bad e ↦ (error_event st_bad_request (text "invalid tts json: " ++ e) ∷ [], poisoned)
    | good parsed ↦
        stream_task env poisoned (synth_stream_inner vox vox_text parsed req.audio env.signalled)
  ]

  -- What one request makes the worker write, and the state behind it.
  unfoldable pub serve_request : Env → Bool → ℕ → Request → Write × Bool
  serve_request env poisoned op req =
      if op == op_tts_stream
      then (let (events, poisoned') = handle_stream_request env poisoned req in
          (write_events events, poisoned'))
      else (let (resp, poisoned') = handle_request env poisoned req in
          (write_response resp, poisoned'))

  unfoldable pub serve_batch : Env → Bool → List Proto.BatchItem → Write × Bool
  serve_batch env poisoned items =
      let (resps, poisoned') = handle_batch_request env poisoned items in
      (write_batch_response resps, poisoned')

  -- The body of one request, behind its operation: what is written, the state, and the rest of
  -- stdin; an error ends the process.
  unfoldable pub serve_op : Env → Bool → ℕ → List ℕ → Result ((Write × Bool) × List ℕ)
  unfolding serve_request serve_batch
  serve_op env poisoned op stdin =
      if op == op_tts_batch
      then elim (read_batch_request_body stdin) [
        | ok (items, rest) ↦ ok (serve_batch env poisoned items, rest)
        | err e ↦ err e
      ]
      else elim (read_request_body op stdin) [
        | ok (req, rest) ↦ ok (serve_request env poisoned op req, rest)
        | err e ↦ err e
      ]

  unfoldable pub serve_next : Env → Bool → List ℕ → Result ((Write × Bool) × List ℕ)
  unfolding serve_op
  serve_next env poisoned stdin = elim (read_op stdin) [
    | ok (op, rest) ↦ serve_op env poisoned op rest
    | err e ↦ err e
  ]

  -- The loop of `run`, with an `Env` for each request: the bytes that stdin still holds, and stdout
  -- as it is left. The process ends when stdin has no whole request more, or stdout is closed.
  unfoldable pub serve_loop : List Env → Bool → List ℕ → Writer → List ℕ × Writer
  unfolding serve_next
  serve_loop [] poisoned stdin stdout = (stdin, stdout)
  serve_loop (env ∷ envs) poisoned stdin stdout = elim (serve_next env poisoned stdin) [
    | err e ↦ (stdin, stdout)
    | ok ((write, poisoned'), rest) ↦
        let (r, stdout') = write stdout in
        elim r [ err e ↦ (rest, stdout') | ok _ ↦ serve_loop envs poisoned' rest stdout' ]
  ]

  -- The ready byte, before the loop.
  unfoldable pub run : List Env → List ℕ → Writer → List ℕ × Writer
  run envs stdin stdout =
      let (r, stdout') = (write_u8 0 >> flush) stdout in
      elim r [ err e ↦ (stdin, stdout') | ok _ ↦ serve_loop envs false stdin stdout' ]
