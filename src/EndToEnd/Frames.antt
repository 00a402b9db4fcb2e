-- ===== src/EndToEnd/Frames.antt =====
-- The frames of a whole stream on their way from src/worker.rs to src/server/mod.rs.
use mii_sound.Common.{
  ℕ, zero, suc, ◌≤◌, ◌≡◌, refl, sym, ap, ◌∙◌, arith, Text, text, true, none, some, List, [], ◌∷◌,
  ◌++◌, All, map, length, append_assoc, append-nil,
}
use mii_sound.Io.{Parsed, good, bad}
use mii_sound.Io.Write.{Write}
use mii_sound.Proto.{op_tts_stream, Request, StreamFrame, TtsRequest, st_bad_request}
use mii_sound.Proto.Write.{write_stream_frame}
use mii_sound.Proto.Wire.{encode_all, encode_stream_frame}
use mii_sound.Client.Sink.Output.{IsChunk}
use mii_sound.Synth.{made}
use mii_sound.Worker as Worker
use mii_sound.Worker.{
  Libs, header_event, chunk_event, end_event, stream_events, stream_task, handle_stream_request,
  samples_to_le_bytes,
}
use mii_sound.Worker.Streams.{chunk_events-cons}
use mii_sound.Server.Channel.{send}
use mii_sound.Server.Engine.Stream.{terminal, error_frame}
use mii_sound.Server.Engine.Stream.Sync.{IsInner, send_all}
use mii_sound.Server.Connection.{Ctx, Local, answer, handle_stream, forward_frames}
use mii_sound.Server.Connection.Replies.{delivered}

pub encode_all-append :
    (fs gs : List StreamFrame)
    → encode_all encode_stream_frame (fs ++ gs)
      ≡ encode_all encode_stream_frame fs ++ encode_all encode_stream_frame gs
unfolding encode_all
encode_all-append [] gs = refl
encode_all-append (f ∷ fs) gs =
    ap (◌++◌ (encode_stream_frame f)) (encode_all-append fs gs)
    ∙ sym (append_assoc (encode_stream_frame f) _ _)

-- A channel with room takes every frame.
pub send_all-taken :
    (frames taken : List StreamFrame) (n : ℕ)
    → length frames ≤ n
    → (send_all frames (record { taken = taken; room = n })).taken ≡ taken ++ frames
unfolding send_all send
send_all-taken [] taken n h = sym (append-nil taken)
send_all-taken (f ∷ frames) taken zero h = absurd (omega arith)
send_all-taken (f ∷ frames) taken (suc n) h =
    send_all-taken frames (taken ++ f ∷ []) n (omega arith) ∙ append_assoc taken (f ∷ []) frames

-- A stream that is whole is delivered as it is.
pub delivered-whole :
    (why : Text) (inner : List StreamFrame) (last : StreamFrame)
    → All IsInner inner
    → terminal last ≡ true
    → delivered why (inner ++ last ∷ []) ≡ inner ++ last ∷ []
unfolding delivered
delivered-whole why [] last h e = rw e refl
delivered-whole why (f ∷ inner) last h e =
    rw (h.0.goes_on) (ap (◌∷◌ f) (delivered-whole why inner last h.1 e))

module _ (libs : Libs) (chunks : List (List ℕ)) where
  -- The frames before the last one of a generation that ends well.
  unfoldable pub inner_events : List StreamFrame
  inner_events = header_event libs ∷ map (chunk_event libs) chunks

  chunk_events-IsInner :
      (cs : List (List ℕ))
      → All IsChunk (map (samples_to_le_bytes libs) cs)
      → All IsInner (map (chunk_event libs) cs)
  chunk_events-IsInner [] h = tt
  chunk_events-IsInner (c ∷ cs) h =
      (record { fits = h.0.fits; goes_on = unfold terminal in refl }, chunk_events-IsInner cs h.1)

  pub inner_events-IsInner :
      All IsChunk (map (samples_to_le_bytes libs) chunks) → All IsInner inner_events
  unfolding inner_events
  inner_events-IsInner h = (
    record { fits = omega arith; goes_on = unfold terminal in refl },
    chunk_events-IsInner chunks h,
  )

pub events-parts :
    (libs : Libs) (c : List ℕ) (chunks : List (List ℕ)) (rate : ℕ)
    → stream_events libs (c ∷ chunks, made rate)
      ≡ inner_events libs (c ∷ chunks) ++ end_event libs ∷ []
unfolding stream_events inner_events Worker.last_event
events-parts libs c chunks rate =
    ap (λ (t : List StreamFrame). t ++ end_event libs ∷ []) (chunk_events-cons libs c chunks)

pub answer-stream :
    (ctx : Ctx) (r : Request) (engine : Local) (parsed : TtsRequest)
    → r.op ≡ op_tts_stream
    → ctx.relay ≡ none
    → ctx.tts ≡ some engine
    → ctx.from_slice r.json ≡ good parsed
    → answer ctx r
      ≡ forward_frames (text "stream ended without terminal frame") (engine.frames r.json r.audio)
unfolding answer handle_stream
answer-stream ctx r engine parsed streams alone has parses =
    rw (streams, answer)
      (rw (alone, handle_stream)
        (rw has (
          ap {A = Parsed TtsRequest} {B = Write}
            (λ p. elim p [
              | bad e ↦
                  write_stream_frame (error_frame st_bad_request (text "invalid tts json: " ++ e))
              | good q ↦
                  forward_frames (text "stream ended without terminal frame")
                    (engine.frames r.json r.audio)
            ])
            parses)))
