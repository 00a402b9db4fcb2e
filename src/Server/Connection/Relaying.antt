-- ===== src/Server/Connection/Relaying.antt =====
-- `handle_stream_relay` of src/server/mod.rs with the stream of src/server/relay.rs behind it.
use mii_sound.Common.{
  ℕ, zero, suc, ◌<◌, ◌≡◌, ◌⊎◌, inl, inr, refl, sym, ap, arith, subst, Text, text, true, false, List,
  [], ◌∷◌, ◌++◌, All, length, length-append,
}
use mii_sound.Io.{Parsed, good, bad}
use mii_sound.Io.Write.{Write, Writes, Writes-seq, write_all_nil}
use mii_sound.Proto.{st_bad_request, TtsRequest, Request, StreamFrame}
use mii_sound.Proto.Write.{write_stream_frame}
use mii_sound.Proto.Wire.{encode_all, encode_stream_frame, write_stream_frame-encode}
use mii_sound.Server.Channel.{Sender}
use mii_sound.Server.Engine.Stream.{terminal, error_frame}
use mii_sound.Server.Relay.Requests as Relay
use mii_sound.Server.Relay.Requests.{Api}
use mii_sound.Server.Relay.Finish as Finish
use mii_sound.Server.Relay.Finish.{tts_stream-Complete}
use mii_sound.Server.Connection.{Ctx, channel, forward_while, handle_stream_relay}
use mii_sound.Server.Connection.Replies.{Complete}

abbrev AreInner : List StreamFrame → Type 0
AreInner = All (λ f. terminal f ≡ false)

-- The client leaves when it has got as many frames as it waits for.
forward_while_cut :
    (waits : ℕ) (why : Text) (frames : List StreamFrame)
    → AreInner frames
    → length frames ≡ waits
    → Writes (forward_while waits why frames) (encode_all encode_stream_frame frames)
unfolding forward_while encode_all
forward_while_cut zero why [] inner h = write_all_nil
forward_while_cut zero why (f ∷ fs) inner h = absurd (omega arith)
forward_while_cut (suc n) why [] inner h = absurd (omega arith)
forward_while_cut (suc n) why (f ∷ fs) inner h = rw (inner.0) (
    Writes-seq (encode_stream_frame f) _ (write_stream_frame-encode f)
      (forward_while_cut n why fs inner.1 (omega arith)))

-- It gets everything up to the terminal frame before it would leave.
forward_while_whole :
    (waits : ℕ) (why : Text) (frames : List StreamFrame) (last : StreamFrame)
    → AreInner frames
    → terminal last ≡ true
    → length frames < waits
    → Writes
        (forward_while waits why (frames ++ last ∷ []))
        (encode_all encode_stream_frame (frames ++ last ∷ []))
unfolding forward_while encode_all
forward_while_whole zero why frames last inner ends h = absurd (omega arith)
forward_while_whole (suc n) why [] last inner ends h =
    rw ends
      (Writes-seq (encode_stream_frame last) [] (write_stream_frame-encode last) write_all_nil)
forward_while_whole (suc n) why (f ∷ fs) last inner ends h = rw (inner.0) (
    Writes-seq (encode_stream_frame f) _ (write_stream_frame-encode f)
      (forward_while_whole n why fs last inner.1 ends (omega arith)))

-- What a client of a relayed stream gets.
pub record Relayed (waits : ℕ) (m : Write) : Type 0 where
  pub frames : List StreamFrame
  pub writes : Writes m (encode_all encode_stream_frame frames)
  pub ends : Complete frames ⊎ (AreInner frames × (length frames ≡ waits))

forwarded :
    (waits : ℕ) (why : Text) (out : Sender)
    → Finish.Complete (channel waits) out
    → Relayed waits (forward_while waits why out.taken)
unfolding channel
forwarded waits why out c = elim c.finish [
  | inl (gone, took) ↦ record {
    frames = c.inner;
    writes =
        subst
          (λ (fs : List StreamFrame).
            Writes (forward_while waits why fs) (encode_all encode_stream_frame c.inner))
          (sym took)
          (forward_while_cut waits why c.inner c.no_end (omega (arith, c.used, ap length took)));
    ends = inr (c.no_end, omega (arith, c.used, ap length took));
  }
  | inr (last, ends, took) ↦ record {
    frames = c.inner ++ last ∷ [];
    writes =
        subst
          (λ (fs : List StreamFrame).
            Writes (forward_while waits why fs)
              (encode_all encode_stream_frame (c.inner ++ last ∷ [])))
          (sym took)
          (forward_while_whole waits why c.inner last c.no_end ends
            (omega (arith, c.used, ap length took, length-append c.inner (last ∷ []))));
    ends =
        inl
          (record { inner = c.inner; last = last; parts = refl; going_on = c.no_end; ends = ends });
  }
]

-- A client of a relay that asks for a stream gets whole frames with exactly one terminal frame, at
-- the end, whatever the upstream answers; a client that leaves before gets the frames up to then.
-- The handler never has to end the stream itself.
pub handle_stream_relay-Relayed :
    (ctx : Ctx) (relay : Api) (req : Request) (parsed : TtsRequest)
    → ctx.from_slice req.json ≡ good parsed
    → Relayed ctx.waits (handle_stream_relay ctx relay req)
unfolding handle_stream_relay
handle_stream_relay-Relayed ctx relay req parsed h =
    subst (Relayed ctx.waits) (sym taken_up)
      (forwarded ctx.waits why _ (tts_stream-Complete relay parsed req.audio (channel ctx.waits)))
  where
    why : Text
    why = text "relay stream ended without terminal frame"

    taken_up :
        handle_stream_relay ctx relay req
        ≡ forward_while ctx.waits why
            (Relay.tts_stream relay parsed req.audio (channel ctx.waits)).taken
    taken_up =
        ap {A = Parsed TtsRequest} {B = Write}
          (λ p. elim p [
            | bad e ↦
                write_stream_frame (error_frame st_bad_request (text "invalid tts json: " ++ e))
            | good q ↦
                forward_while ctx.waits (text "relay stream ended without terminal frame")
                  (Relay.tts_stream relay q req.audio (channel ctx.waits)).taken
          ])
          h
