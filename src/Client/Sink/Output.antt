-- ===== src/Client/Sink/Output.antt =====
-- What a whole stream leaves in the sink of src/client/mod.rs: a header frame, chunk frames and an end frame.
use mii_sound.Common.{
  ℕ, zero, suc, ◌+◌, ◌-◌, ◌%◌, ◌≤◌, ◌<◌, ◌≡◌, sym, ap, ◌∙◌, true, List, [], ◌∷◌, ◌++◌, length,
  length-append, drop, take-length, drop-past, arith, append_assoc, append-nil, All, min, as_u32,
  u32_max, mod_u32, le→ltb_false,
}
use mii_sound.Io.{ok}
use mii_sound.Io.Write.{Writer, write_all}
use mii_sound.Proto.{StreamFrame, max_payload, kind_header, kind_chunk, kind_end}
use mii_sound.Proto.Write.{header_payload}
use mii_sound.Proto.Wire.{encode_stream_frame, encode_all}
use mii_sound.Client.Wav.{
  wav_header, length-wav_header, pcm16, length-pcm16, samples_f32_le_to_pcm16,
}
use mii_sound.Client.Sink.{
  rewind, File, StreamSink, to_stdout, to_file, write_file, overwrite, on_frame, write_samples,
  write_pcm, finalize, frame_loop, more, stop, finished,
}
use mii_sound.Client.Sink.Frames.{frame_loop-more, frame_loop-stop}

abbrev pub header_frame : ℕ → StreamFrame
header_frame sr = record { kind = kind_header; payload = header_payload sr }

abbrev pub chunk_frame : List ℕ → StreamFrame
chunk_frame samples = record { kind = kind_chunk; payload = samples }

abbrev pub end_frame : StreamFrame
end_frame = record { kind = kind_end; payload = [] }

-- A chunk of whole samples that a frame can carry.
pub record IsChunk (samples : List ℕ) : Type 0 where
  pub whole : length samples % 4 ≡ 0
  pub fits : length samples ≤ max_payload

-- The PCM bytes of a list of chunks.
unfoldable pub pcm_of : List (List ℕ) → List ℕ
pcm_of [] = []
pcm_of (c ∷ cs) = pcm16 c ++ pcm_of cs

-- A file with its position at the end.
abbrev pub at_end : List ℕ → ℕ → File
at_end c room = record { content = c; position = length c; room = room }

overwrite_end : (bs c : List ℕ) → overwrite (length c) bs c ≡ c ++ bs
unfolding overwrite
overwrite_end bs c = rw (take-length c, drop-past (length bs) c, append-nil bs)

pub write_file_end :
    (bs c : List ℕ) (room : ℕ)
    → length bs ≤ room
    → write_file bs (at_end c room) ≡ (ok tt, at_end (c ++ bs) (room - length bs))
unfolding write_file
write_file_end bs c room h = rw (le→ltb_false room (length bs) h) (
    ap
      (λ (p : List ℕ × ℕ).
        (ok tt, record { content = p.0; position = p.1; room = room - length bs }))
      (λ i. (overwrite_end bs c i, sym (length-append c bs) i)))

samples_ok : (c : List ℕ) → IsChunk c → samples_f32_le_to_pcm16 c ≡ ok (pcm16 c)
unfolding samples_f32_le_to_pcm16
samples_ok c h = rw h.whole

write_pcm_file :
    (pcm : List ℕ) (f f' : File) (n sr : ℕ)
    → write_file pcm f ≡ (ok tt, f')
    → write_pcm pcm (to_file f n true sr)
      ≡ (ok tt, to_file f' (min u32_max (n + as_u32 (length pcm))) true sr)
unfolding write_pcm
write_pcm_file pcm f f' n sr e = ground arith

pub write_pcm_stdout :
    (pcm : List ℕ) (w w' : Writer)
    → write_all pcm w ≡ (ok tt, w')
    → write_pcm pcm (to_stdout w true) ≡ (ok tt, to_stdout w' true)
unfolding write_pcm
write_pcm_stdout pcm w w' e = ground arith

module _ (c : List ℕ) (is : IsChunk c) where
  pub chunk_to :
      (sink sink' : StreamSink)
      → write_pcm (pcm16 c) sink ≡ (ok tt, sink')
      → on_frame (chunk_frame c) sink ≡ more sink'
  unfolding on_frame write_samples
  chunk_to sink sink' e = rw (samples_ok c is, write_samples) (rw e)

  pcm_small : as_u32 (length (pcm16 c)) ≡ length (pcm16 c)
  pcm_small = mod_u32 _ (omega (arith, length-pcm16 c, is.fits))

write_file_start :
    (bs c : List ℕ) (room : ℕ)
    → length bs ≤ room
    → write_file bs (rewind (at_end c room)) ≡ (
      ok tt,
      record { content = bs ++ drop (length bs) c; position = length bs; room = room - length bs },
    )
unfolding write_file overwrite
write_file_start bs c room h = rw (le→ltb_false room (length bs) h) (
    ap
      (λ (k : ℕ).
        (ok tt, record { content = bs ++ drop k c; position = k; room = room - length bs }))
      (omega arith))

-- A finished file: its header is written again, with the real size.
abbrev pub done_file : List ℕ → ℕ → ℕ → ℕ → StreamSink
done_file content room size sr =
    to_file
      (record { content = wav_header sr size ++ drop 44 content; position = 44; room = room - 44 })
      size true sr

finalize_file :
    (content : List ℕ) (room n sr : ℕ)
    → 44 ≤ room
    → finalize (to_file (at_end content room) n true sr) ≡ (ok tt, done_file content room n sr)
unfolding finalize
finalize_file content room n sr h =
    rw
      (
        write_file_start (wav_header sr n) content room (omega (arith, length-wav_header sr n)),
        finalize,
      )
      (rw (length-wav_header sr n))

pub end_to :
    (sink sink' : StreamSink)
    → finalize sink ≡ (ok tt, sink')
    → on_frame end_frame sink ≡ stop finished sink'
unfolding on_frame
end_to sink sink' e = rw e

-- The bytes of the chunk frames.
abbrev pub chunk_bytes : List (List ℕ) → List ℕ
chunk_bytes = encode_all (λ c. encode_stream_frame (chunk_frame c))

size_grows : (n a b : ℕ) → min u32_max (min u32_max (n + a) + b) ≡ min u32_max (n + (a + b))
size_grows n a b = ground arith

pub chunks_to_file :
    (chunks : List (List ℕ)) (fuel : ℕ) (before : List ℕ) (room n sr : ℕ) (rest : List ℕ)
    → All IsChunk chunks
    → n ≤ u32_max
    → length (pcm_of chunks) + 44 ≤ room
    → length chunks < fuel
    → frame_loop fuel
        (chunk_bytes chunks ++ (encode_stream_frame end_frame ++ rest))
        (to_file (at_end before room) n true sr)
      ≡ (
        finished,
        done_file
            (before ++ pcm_of chunks)
            (room - length (pcm_of chunks))
            (min u32_max (n + length (pcm_of chunks)))
            sr,
      )
unfolding encode_all pcm_of
chunks_to_file chunks zero before room n sr rest is h r f = absurd (omega arith)
chunks_to_file [] (suc fuel) before room n sr rest is h r f =
    frame_loop-stop end_frame (omega arith) fuel rest _ finished _
      (end_to _ _ (finalize_file before room n sr (omega arith)))
    ∙ λ i. (finished, done_file (sym (append-nil before) i) (same i) (size i) sr)
  where
    same : room ≡ room - 0
    same = omega arith

    size : n ≡ min u32_max (n + 0)
    size = ground arith
chunks_to_file (c ∷ cs) (suc fuel) before room n sr rest is h r f = rw append_assoc (
    frame_loop-more (chunk_frame c) is.0.fits fuel _ _ _ (
      chunk_to c is.0 _ _ (
        write_pcm_file (pcm16 c) _ _ n sr
          (write_file_end (pcm16 c) before room (omega (arith, total)))))
    ∙ (rw (pcm_small c is.0) (
        chunks_to_file cs fuel (before ++ pcm16 c) (room - length (pcm16 c))
          (min u32_max (n + length (pcm16 c))) sr rest is.1 (omega arith) (omega (arith, total))
          (omega arith)))
    ∙ λ i.
        (finished, done_file (append_assoc before (pcm16 c) (pcm_of cs) i) (rooms i) (sizes i) sr))
  where
    total : length (pcm16 c ++ pcm_of cs) ≡ length (pcm16 c) + length (pcm_of cs)
    total = length-append (pcm16 c) (pcm_of cs)

    rooms : room - length (pcm16 c) - length (pcm_of cs) ≡ room - length (pcm16 c ++ pcm_of cs)
    rooms = omega (arith, total)

    sizes :
        min u32_max (min u32_max (n + length (pcm16 c)) + length (pcm_of cs))
        ≡ min u32_max (n + length (pcm16 c ++ pcm_of cs))
    sizes =
        size_grows n (length (pcm16 c)) (length (pcm_of cs))
        ∙ ap (λ (k : ℕ). min u32_max (n + k)) (sym total)
