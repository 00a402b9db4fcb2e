-- ===== src/Worker/Streams.antt =====
-- `handle_stream_request` of src/worker.rs: the frames of a stream.
use mii_sound.Common.{
  ℕ, ◌≡◌, ◌⊎◌, refl, sym, ap, ◌∙◌, inl, inr, true, false, List, [], ◌∷◌, ◌++◌, map, append_assoc,
}
use mii_sound.Io.{Parsed-cases}
use mii_sound.Io.Write.{Writes, Writes-seq, write_all_nil}
use mii_sound.Proto.{kind_end, kind_error, Request, StreamFrame}
use mii_sound.Proto.Wire.{encode_all, encode_stream_frame, write_stream_frame-encode}
use mii_sound.Client.Sink.Output.{chunk_bytes}
use mii_sound.Client.Sink.Streams.{stream_bytes}
use mii_sound.Synth.{Synth, made, broke, cancelled, other}
use mii_sound.Worker.{
  Env, Libs, header_event, chunk_event, end_event, chunk_events, last_event, stream_events,
  stream_task, write_events, handle_stream_request, samples_to_le_bytes,
}

-- The last frame of a stream.
abbrev pub IsTerminal : StreamFrame → Type 0
IsTerminal frame = (frame.kind ≡ kind_end) ⊎ (frame.kind ≡ kind_error)

module _ (libs : Libs) where
  -- A header before the first chunk, chunks, and one terminal frame at the end.
  pub record IsStream (frames : List StreamFrame) : Type 0 where
    pub head : List StreamFrame
    pub chunks : List (List ℕ)
    pub last : StreamFrame
    pub parts : frames ≡ head ++ (map (chunk_event libs) chunks ++ last ∷ [])
    pub opens : (head ≡ header_event libs ∷ []) ⊎ ((head ≡ []) × (chunks ≡ []))
    pub terminal : IsTerminal last

  chunk_events-sent :
      (chunks : List (List ℕ)) → chunk_events libs true chunks ≡ map (chunk_event libs) chunks
  unfolding chunk_events
  chunk_events-sent [] = refl
  chunk_events-sent (c ∷ chunks) = ap (◌∷◌ (chunk_event libs c)) (chunk_events-sent chunks)

  pub chunk_events-cons :
      (c : List ℕ) (chunks : List (List ℕ))
      → chunk_events libs false (c ∷ chunks)
        ≡ header_event libs ∷ map (chunk_event libs) (c ∷ chunks)
  unfolding chunk_events
  chunk_events-cons c chunks =
      ap (λ (t : List StreamFrame). header_event libs ∷ chunk_event libs c ∷ t)
        (chunk_events-sent chunks)

  last_event-IsTerminal : (r : Synth ℕ) → IsTerminal (last_event libs r)
  unfolding last_event
  last_event-IsTerminal (made sr) = inl refl
  last_event-IsTerminal (broke cancelled) = inr refl
  last_event-IsTerminal (broke (other message)) = inr refl

  stream_events-IsStream : (result : List (List ℕ) × Synth ℕ) → IsStream (stream_events libs result)
  unfolding stream_events chunk_events
  stream_events-IsStream ([], r) = record {
    head = [];
    chunks = [];
    last = last_event libs r;
    parts = refl;
    opens = inr (refl, refl);
    terminal = last_event-IsTerminal r;
  }
  stream_events-IsStream (c ∷ chunks, r) = record {
    head = header_event libs ∷ [];
    chunks = c ∷ chunks;
    last = last_event libs r;
    parts = ap (λ (t : List StreamFrame). t ++ last_event libs r ∷ []) (chunk_events-cons c chunks);
    opens = inl refl;
    terminal = last_event-IsTerminal r;
  }

  -- A request that does not panic gets a stream of the right shape: at most one header, before the
  -- first chunk, and exactly one terminal frame, at the end.
  pub handle_stream_request-IsStream :
      (env : Env) (req : Request)
      → env.panics ≡ false
      → IsStream (handle_stream_request libs env false req).0
  unfolding handle_stream_request stream_task
  handle_stream_request-IsStream env req calm = elim (Parsed-cases (libs.from_slice req.json)) [
    | inr (e, r) ↦
        rw (r, handle_stream_request)
          (record {
            head = [];
            chunks = [];
            last = _;
            parts = refl;
            opens = inr (refl, refl);
            terminal = inr refl;
          })
    | inl (parsed, r) ↦
        rw (r, handle_stream_request) (rw (calm, stream_task) (stream_events-IsStream _))
  ]

  -- The frames are written one after the other, on every stream.
  pub write_events-encode :
      (events : List StreamFrame)
      → Writes (write_events libs events) (encode_all encode_stream_frame events)
  unfolding write_events encode_all
  write_events-encode [] w = write_all_nil w
  write_events-encode (e ∷ events) w =
      Writes-seq (encode_stream_frame e) _ (write_stream_frame-encode e)
        (write_events-encode events) w

  chunk_bytes-eq :
      (chunks : List (List ℕ)) (tail : List StreamFrame)
      → encode_all encode_stream_frame (map (chunk_event libs) chunks ++ tail)
        ≡ chunk_bytes (map (samples_to_le_bytes libs) chunks) ++ encode_all encode_stream_frame tail
  unfolding encode_all
  chunk_bytes-eq [] tail = refl
  chunk_bytes-eq (c ∷ chunks) tail =
      ap (◌++◌ (encode_stream_frame (chunk_event libs c))) (chunk_bytes-eq chunks tail)
      ∙ sym (append_assoc (encode_stream_frame (chunk_event libs c)) _ _)

  -- A generation with a chunk at least that ends well gives the bytes that the client turns into a
  -- WAV: the rate of the model, and the samples of every chunk.
  pub stream_events-stream_bytes :
      (c : List ℕ) (chunks : List (List ℕ)) (rate : ℕ)
      → encode_all encode_stream_frame (stream_events libs (c ∷ chunks, made rate))
        ≡ stream_bytes libs.vox.sample_rate (map (samples_to_le_bytes libs) (c ∷ chunks)) []
  unfolding stream_events last_event encode_all
  stream_events-stream_bytes c chunks rate =
      ap (encode_all encode_stream_frame)
        (ap (λ (t : List StreamFrame). t ++ end_event libs ∷ []) (chunk_events-cons c chunks))
      ∙ ap (◌++◌ (encode_stream_frame (header_event libs)))
          (chunk_bytes-eq (c ∷ chunks) (end_event libs ∷ []))
