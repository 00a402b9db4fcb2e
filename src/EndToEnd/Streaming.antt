-- ===== src/EndToEnd/Streaming.antt =====
-- A stream from the worker of src/worker.rs through the engine and the connection of src/server/ into
-- the file of the client of src/client/mod.rs.
use mii_sound.Common.{
  ℕ, ◌+◌, ◌-◌, ◌^◌, ◌≤◌, ◌<◌, ◌≡◌, refl, sym, ap, ◌∙◌, arith, Text, text, true, false, none, some,
  List, [], ◌∷◌, ◌++◌, All, map, length, length-append, length-map, append_assoc, append-nil, min,
  u32_max,
}
use mii_sound.Io.{good, ok, Result}
use mii_sound.Io.Write.{Writer, Write, write_all, write_all_fits}
use mii_sound.Proto.{op_tts_stream, Request, StreamFrame, TtsRequest}
use mii_sound.Proto.Read.{read_request}
use mii_sound.Proto.Wire.{encode_all, encode_request, encode_stream_frame}
use mii_sound.Proto.Blobs.{received}
use mii_sound.Proto.RoundTrip.{Fits, read_request-encode}
use mii_sound.Client.Sink.{to_file, stream_exchange, finished}
use mii_sound.Client.Sink.Output.{IsChunk, pcm_of, at_end}
use mii_sound.Client.Sink.Streams.{stream_bytes, wav_file, stream_exchange-file}
use mii_sound.Synth.{made, synth_stream_inner}
use mii_sound.Worker as Worker
use mii_sound.Worker.{
  Libs, header_event, chunk_event, end_event, stream_events, stream_task, handle_stream_request,
  samples_to_le_bytes,
}
use mii_sound.Worker.Streams.{stream_events-stream_bytes}
use mii_sound.Server.Channel.{Sender}
use mii_sound.Server.Engine.{Engine, RunningWorker}
use mii_sound.Server.Engine.Dispatch.{Env}
use mii_sound.Server.Engine.Stream.{Cancel, terminal, stream_relay}
use mii_sound.Server.Engine.Stream.Sync.{lost, stream_relay-forwards}
use mii_sound.Server.Connection.{Ctx, Local, channel, handle, forward_frames}
use mii_sound.Server.Connection.Replies.{delivered, forward_frames-Complete}
use mii_sound.EndToEnd.{fresh, sends, arrived, read_then_answer}
use mii_sound.EndToEnd.Frames.{
  encode_all-append, send_all-taken, delivered-whole, inner_events, inner_events-IsInner,
  events-parts, answer-stream,
}

-- A request for a stream, behind the connection: the engine has a worker that runs, and what this
-- worker writes is what the process of src/worker.rs writes for the request, for which the model
-- gives at least one chunk and then ends well. The client stays.
pub record Setting (libs : Libs) (doing : Worker.Env) (env : Env) (cancel : Cancel) (e : Engine)
    (w : RunningWorker) (ctx : Ctx) (engine : Local) (req : Request) (c : List ℕ)
    (chunks : List (List ℕ)) (rate room : ℕ) : Type 1 where
  pub streams : req.op ≡ op_tts_stream
  pub request_fits : Fits req.json req.audio
  pub alone : ctx.relay ≡ none
  pub has_engine : ctx.tts ≡ some engine
  pub relays :
      engine.frames req.json (received req.audio)
      ≡ (stream_relay env req.json (received req.audio) cancel e (channel room)).1.taken
  pub parsed : TtsRequest
  pub server_parses : ctx.from_slice req.json ≡ good parsed
  pub worker_parses : libs.from_slice req.json ≡ good parsed
  pub calm : doing.panics ≡ false
  pub generates :
      synth_stream_inner libs.vox libs.vox_text parsed (received req.audio) doing.signalled
      ≡ (c ∷ chunks, made rate)
  pub chunks_fit : All IsChunk (map (samples_to_le_bytes libs) (c ∷ chunks))
  pub running : e.worker ≡ some w
  pub alive : w.exited ≡ none
  pub stdin_room :
      length (
        encode_request (record { op = op_tts_stream; json = req.json; audio = received req.audio }))
      ≤ w.stdin.room
  pub rest : List ℕ
  pub writes :
      w.stdout
      ≡ encode_all encode_stream_frame (handle_stream_request libs doing false (arrived req)).0
        ++ rest
  pub unharmed : lost cancel ≡ 0
  pub channel_room : length chunks + 3 ≤ room

module _ (libs : Libs) (doing : Worker.Env) (env : Env) (cancel : Cancel) (e : Engine)
    (w : RunningWorker) (ctx : Ctx) (engine : Local) (req : Request) (c : List ℕ)
    (chunks : List (List ℕ)) (rate room : ℕ)
    (s : Setting libs doing env cancel e w ctx engine req c chunks rate room) where
  events : List StreamFrame
  events = inner_events libs (c ∷ chunks) ++ end_event libs ∷ []

  worker_events : (handle_stream_request libs doing false (arrived req)).0 ≡ events
  unfolding events handle_stream_request stream_task
  worker_events =
      rw (s.worker_parses, handle_stream_request)
        (rw (s.calm, stream_task)
          (ap (stream_events libs) s.generates ∙ events-parts libs c chunks rate))

  worker_writes :
      w.stdout
      ≡ encode_all encode_stream_frame (inner_events libs (c ∷ chunks))
        ++ (encode_stream_frame (end_event libs) ++ s.rest)
  unfolding events encode_all
  worker_writes =
      s.writes
      ∙ ap (λ (fs : List StreamFrame). encode_all encode_stream_frame fs ++ s.rest) worker_events
      ∙ ap (λ (bs : List ℕ). bs ++ s.rest)
          (encode_all-append (inner_events libs (c ∷ chunks)) (end_event libs ∷ []))
      ∙ append_assoc (encode_all encode_stream_frame (inner_events libs (c ∷ chunks))) _ s.rest
      ∙ ap
          (λ (bs : List ℕ).
            encode_all encode_stream_frame (inner_events libs (c ∷ chunks)) ++ (bs ++ s.rest))
          (append-nil (encode_stream_frame (end_event libs)))

  length-events : length events ≡ length chunks + 3
  unfolding events inner_events
  length-events = omega (
    arith,
    length-append (map (chunk_event libs) chunks) (end_event libs ∷ []),
    length-map (chunk_event libs) chunks,
  )

  engine_frames : engine.frames req.json (received req.audio) ≡ events
  unfolding channel events
  engine_frames =
      s.relays
      ∙ ap (λ (r : Engine × Sender). r.1.taken)
          (stream_relay-forwards env (end_event libs) (omega arith) (unfold terminal in refl) s.rest
            req.json (received req.audio) cancel e w (channel room) (inner_events libs (c ∷ chunks))
            s.running s.alive s.stdin_room worker_writes
            (inner_events-IsInner libs (c ∷ chunks) s.chunks_fit) s.unharmed)
      ∙ send_all-taken events [] room (omega (arith, length-events, s.channel_room))

  why : Text
  why = text "stream ended without terminal frame"

  answers_stream : handle ctx false (encode_request req) ≡ forward_frames why events
  unfolding why
  answers_stream =
      read_then_answer ctx (encode_request req) [] (arrived req) (
        ap read_request (sym (append-nil (encode_request req)))
        ∙ read_request-encode req [] s.request_fits)
      ∙ answer-stream ctx (arrived req) engine s.parsed s.streams s.alone s.has_engine
          s.server_parses
      ∙ ap (forward_frames why) engine_frames

  server_sends :
      (sroom : ℕ)
      → length (stream_bytes libs.vox.sample_rate (map (samples_to_le_bytes libs) (c ∷ chunks)) [])
        ≤ sroom
      → sends ctx false sroom (encode_request req)
        ≡ stream_bytes libs.vox.sample_rate (map (samples_to_le_bytes libs) (c ∷ chunks)) []
  unfolding events
  server_sends sroom fits =
      ap (λ (m : Write). (m (fresh sroom)).1.sent) answers_stream
      ∙ ap (λ (p : Result (Unit {0}) × Writer). p.1.sent)
          ((forward_frames-Complete why events).0 (fresh sroom)
            ∙ ap (λ (bs : List ℕ). write_all bs (fresh sroom)) whole
            ∙ write_all_fits _ (fresh sroom) fits)
    where
      whole :
          encode_all encode_stream_frame (delivered why events)
          ≡ stream_bytes libs.vox.sample_rate (map (samples_to_le_bytes libs) (c ∷ chunks)) []
      whole =
          ap (encode_all encode_stream_frame) (
            delivered-whole why (inner_events libs (c ∷ chunks)) (end_event libs)
              (inner_events-IsInner libs (c ∷ chunks) s.chunks_fit) (unfold terminal in refl)
            ∙ sym (events-parts libs c chunks rate))
          ∙ stream_events-stream_bytes libs c chunks rate

  -- `mii-sound tts --stream --out` with a server that has a model, from the model to the file: the
  -- client ends well, and its file is a WAV with the rate of the model and the samples of all chunks
  -- that the model gave, in order.
  pub stream_exchange-generates :
      (conn : Writer) (disk sroom : ℕ)
      → libs.vox.sample_rate < 2 ^ 32
      → length (encode_request req) ≤ conn.room
      → length (stream_bytes libs.vox.sample_rate (map (samples_to_le_bytes libs) (c ∷ chunks)) [])
        ≤ sroom
      → 88 + length (pcm_of (map (samples_to_le_bytes libs) (c ∷ chunks))) ≤ disk
      → let samples : List (List ℕ) = map (samples_to_le_bytes libs) (c ∷ chunks) in
        stream_exchange req
          (ok (to_file (at_end [] disk) 0 false 0))
          (sends ctx false sroom (encode_request req))
          conn
        ≡ (
          (
            finished,
            some (
                to_file
                  (record {
                    content = wav_file libs.vox.sample_rate samples;
                    position = 44;
                    room = disk - 88 - length (pcm_of samples);
                  })
                  (min u32_max (length (pcm_of samples)))
                  true
                  libs.vox.sample_rate),
          ),
          record {
            sent = conn.sent ++ encode_request req;
            room = conn.room - length (encode_request req);
          },
        )
  stream_exchange-generates conn disk sroom rate_fits request_room answer_room disk_room =
      ap (λ (bs : List ℕ). stream_exchange req (ok (to_file (at_end [] disk) 0 false 0)) bs conn)
        (server_sends sroom answer_room)
      ∙ stream_exchange-file libs.vox.sample_rate (map (samples_to_le_bytes libs) (c ∷ chunks)) []
          rate_fits s.chunks_fit req conn disk request_room disk_room
