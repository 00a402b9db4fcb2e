-- ===== src/Client/Sink/Streams.antt =====
-- `stream_exchange` of src/client/mod.rs on a whole stream of the server, into a file and to stdout.
use mii_sound.Common.{
  ℕ, zero, suc, ◌+◌, ◌-◌, ◌^◌, ◌≤◌, ◌<◌, ◌≡◌, refl, sym, ap, ◌∙◌, true, false, List, [], ◌∷◌, ◌++◌,
  length, length-append, drop, drop-append, arith, append_assoc, append-nil, All, min, u32_max,
  u32_le, some,
}
use mii_sound.Io.{ok}
use mii_sound.Io.Write.{Writer, write_all, write_all_fits}
use mii_sound.Proto.{Request}
use mii_sound.Proto.Write.{write_request}
use mii_sound.Proto.Wire.{
  blob, encode_request, encode_stream_frame, encode_all, write_request-encode,
}
use mii_sound.Proto.RoundTrip.{parse_header_payload-header_payload}
use mii_sound.Client.Wav.{wav_header, length-wav_header, pcm16}
use mii_sound.Client.Sink.{
  File, StreamSink, to_stdout, to_file, write_file, on_frame, on_header, write_header, finalize,
  frame_loop, more, finished, stream_exchange, Outcome,
}
use mii_sound.Client.Sink.Frames.{frame_loop-more, frame_loop-stop}
use mii_sound.Client.Sink.Output.{
  header_frame, chunk_frame, end_frame, chunk_bytes, IsChunk, pcm_of, at_end, write_file_end,
  chunk_to, write_pcm_stdout, end_to, chunks_to_file,
}

header_to :
    (sr : ℕ) (sink sink' : StreamSink)
    → sr < 2 ^ 32
    → write_header sr sink ≡ (ok tt, sink')
    → on_frame (header_frame sr) sink ≡ more sink'
unfolding on_frame on_header
header_to sr sink sink' h e = rw (parse_header_payload-header_payload sr h, on_header) (rw e)

write_header_file :
    (sr : ℕ) (f f' : File) (n old : ℕ)
    → write_file (wav_header sr 0) f ≡ (ok tt, f')
    → write_header sr (to_file f n false old) ≡ (ok tt, to_file f' n true sr)
unfolding write_header
write_header_file sr f f' n old e = ground arith

write_header_stdout :
    (sr : ℕ) (w w' : Writer)
    → write_all (wav_header sr u32_max) w ≡ (ok tt, w')
    → write_header sr (to_stdout w false) ≡ (ok tt, to_stdout w' true)
unfolding write_header
write_header_stdout sr w w' e = ground arith

-- The bytes of a whole stream.
abbrev pub stream_bytes : ℕ → List (List ℕ) → List ℕ → List ℕ
stream_bytes sr chunks rest =
    encode_stream_frame (header_frame sr)
    ++ (chunk_bytes chunks ++ (encode_stream_frame end_frame ++ rest))

length-chunk_bytes : (chunks : List (List ℕ)) → length chunks ≤ length (chunk_bytes chunks)
unfolding encode_all encode_stream_frame
length-chunk_bytes [] = omega arith
length-chunk_bytes (c ∷ cs) = omega (
  arith,
  length-chunk_bytes cs,
  length-append (encode_stream_frame (chunk_frame c)) (chunk_bytes cs),
)

enough_rounds :
    (sr : ℕ) (chunks : List (List ℕ)) (rest : List ℕ)
    → suc (length chunks) ≤ length (stream_bytes sr chunks rest)
unfolding encode_stream_frame
enough_rounds sr chunks rest = omega (
  arith,
  length-chunk_bytes chunks,
  length-append (chunk_bytes chunks) (encode_stream_frame end_frame ++ rest),
  length-append (blob (u32_le sr)) (chunk_bytes chunks ++ (encode_stream_frame end_frame ++ rest)),
)

-- What the program leaves in a file: the header with the real size, and the samples.
abbrev pub wav_file : ℕ → List (List ℕ) → List ℕ
wav_file sr chunks = wav_header sr (min u32_max (length (pcm_of chunks))) ++ pcm_of chunks

stream_exchange_steps :
    (req : Request) (sink : StreamSink) (incoming : List ℕ) (conn : Writer) {conn' : Writer}
    {o : Outcome} {sink' : StreamSink}
    → write_request req conn ≡ (ok tt, conn')
    → frame_loop (suc (length incoming)) incoming sink ≡ (o, sink')
    → stream_exchange req (ok sink) incoming conn ≡ ((o, some sink'), conn')
unfolding stream_exchange
stream_exchange_steps req sink incoming conn sent looped = ground arith

finalize_stdout : (w : Writer) → finalize (to_stdout w true) ≡ (ok tt, to_stdout w true)
unfolding finalize
finalize_stdout w = refl

module _ (sr : ℕ) (chunks : List (List ℕ)) (rest : List ℕ) (rate : sr < 2 ^ 32)
    (are : All IsChunk chunks) where
  frames_to_file :
      (room fuel : ℕ)
      → 88 + length (pcm_of chunks) ≤ room
      → suc (length chunks) < fuel
      → frame_loop fuel (stream_bytes sr chunks rest) (to_file (at_end [] room) 0 false 0) ≡ (
        finished,
        to_file
            (record {
              content = wav_file sr chunks;
              position = 44;
              room = room - 88 - length (pcm_of chunks);
            })
            (min u32_max (length (pcm_of chunks)))
            true
            sr,
      )
  frames_to_file room zero h f = absurd (omega arith)
  frames_to_file room (suc fuel) h f =
      frame_loop-more (header_frame sr) (omega arith) fuel _ _ _ (
        header_to sr _ _ rate (
          write_header_file sr _ _ 0 0
            (write_file_end (wav_header sr 0) [] room (omega (arith, len)))))
      ∙ chunks_to_file chunks fuel (wav_header sr 0) (room - length (wav_header sr 0)) 0 sr rest are
          (omega arith) (omega (arith, len)) (omega arith)
      ∙ λ i. (
        finished,
        to_file
            (record { content = wav_header sr (sizes i) ++ tail i; position = 44; room = rooms i })
            (sizes i) true sr,
      )
    where
      len : length (wav_header sr 0) ≡ 44
      len = length-wav_header sr 0

      sizes : min u32_max (0 + length (pcm_of chunks)) ≡ min u32_max (length (pcm_of chunks))
      sizes = omega arith

      tail : drop 44 (wav_header sr 0 ++ pcm_of chunks) ≡ pcm_of chunks
      tail =
          ap (λ (k : ℕ). drop k (wav_header sr 0 ++ pcm_of chunks)) (sym len)
          ∙ drop-append (wav_header sr 0) (pcm_of chunks)

      rooms :
          room - length (wav_header sr 0) - length (pcm_of chunks) - 44
          ≡ room - 88 - length (pcm_of chunks)
      rooms = omega (arith, len)

  pub stream_exchange-file :
      (req : Request) (conn : Writer) (room : ℕ)
      → length (encode_request req) ≤ conn.room
      → 88 + length (pcm_of chunks) ≤ room
      → stream_exchange req
          (ok (to_file (at_end [] room) 0 false 0))
          (stream_bytes sr chunks rest)
          conn
        ≡ (
          (
            finished,
            some (
                to_file
                  (record {
                    content = wav_file sr chunks;
                    position = 44;
                    room = room - 88 - length (pcm_of chunks);
                  })
                  (min u32_max (length (pcm_of chunks)))
                  true
                  sr),
          ),
          record {
            sent = conn.sent ++ encode_request req;
            room = conn.room - length (encode_request req);
          },
        )
  stream_exchange-file req conn room h fits =
      stream_exchange_steps req _ (stream_bytes sr chunks rest) conn
        (write_request-encode req conn ∙ write_all_fits (encode_request req) conn h)
        (frames_to_file room _ fits (omega (arith, enough_rounds sr chunks rest)))

  chunks_to_stdout :
      (chunks : List (List ℕ)) (fuel : ℕ) (w : Writer)
      → All IsChunk chunks
      → length (pcm_of chunks) ≤ w.room
      → length chunks < fuel
      → frame_loop fuel
          (chunk_bytes chunks ++ (encode_stream_frame end_frame ++ rest))
          (to_stdout w true)
        ≡ (
          finished,
          to_stdout
              (record { sent = w.sent ++ pcm_of chunks; room = w.room - length (pcm_of chunks) })
              true,
        )
  unfolding encode_all pcm_of
  chunks_to_stdout chunks zero w is r f = absurd (omega arith)
  chunks_to_stdout [] (suc fuel) w is r f =
      frame_loop-stop end_frame (omega arith) fuel rest _ finished _
        (end_to _ _ (finalize_stdout w))
      ∙ λ i. (finished, to_stdout (record { sent = sym (append-nil w.sent) i; room = same i }) true)
    where
      same : w.room ≡ w.room - 0
      same = omega arith
  chunks_to_stdout (c ∷ cs) (suc fuel) w is r f = rw append_assoc (
      frame_loop-more (chunk_frame c) is.0.fits fuel _ _ _ (
        chunk_to c is.0 _ _
          (write_pcm_stdout (pcm16 c) w _ (write_all_fits (pcm16 c) w (omega (arith, total)))))
      ∙ chunks_to_stdout cs fuel _ is.1 (omega (arith, total)) (omega arith)
      ∙ λ i. (
        finished,
        to_stdout (record { sent = append_assoc w.sent (pcm16 c) (pcm_of cs) i; room = rooms i })
            true,
      ))
    where
      total : length (pcm16 c ++ pcm_of cs) ≡ length (pcm16 c) + length (pcm_of cs)
      total = length-append (pcm16 c) (pcm_of cs)

      rooms :
          w.room - length (pcm16 c) - length (pcm_of cs) ≡ w.room - length (pcm16 c ++ pcm_of cs)
      rooms = omega (arith, total)

  -- The same request without `--out`: stdout has a header with the sentinel for an unknown size,
  -- and the samples of all chunks, converted and in order.
  pub stream_exchange-stdout :
      (req : Request) (conn stdout : Writer)
      → length (encode_request req) ≤ conn.room
      → 44 + length (pcm_of chunks) ≤ stdout.room
      → stream_exchange req (ok (to_stdout stdout false)) (stream_bytes sr chunks rest) conn ≡ (
        (
          finished,
          some (
              to_stdout
                (record {
                  sent = stdout.sent ++ wav_header sr u32_max ++ pcm_of chunks;
                  room = stdout.room - length (wav_header sr u32_max) - length (pcm_of chunks);
                })
                true),
        ),
        record {
          sent = conn.sent ++ encode_request req;
          room = conn.room - length (encode_request req);
        },
      )
  stream_exchange-stdout req conn stdout h fits =
      stream_exchange_steps req _ (stream_bytes sr chunks rest) conn
        (write_request-encode req conn ∙ write_all_fits (encode_request req) conn h)
        (frame_loop-more (header_frame sr) (omega arith) _ _ _ _ (
            header_to sr _ _ rate (
              write_header_stdout sr stdout _
                (write_all_fits (wav_header sr u32_max) stdout (omega (arith, len)))))
          ∙ chunks_to_stdout chunks _ _ are (omega (arith, len))
              (omega (arith, enough_rounds sr chunks rest)))
    where
      len : length (wav_header sr u32_max) ≡ 44
      len = length-wav_header sr u32_max
