-- ===== src/Server/Relay/Translate.antt =====
-- `relay_wav_stream` of src/server/relay.rs on a whole upstream WAV.
use mii_sound.Common.{
  ℕ, suc, ◌+◌, ◌-◌, ◌≤◌, ◌<◌, ◌≡◌, refl, sym, ap, ◌∙◌, arith, text, false, List, [], ◌∷◌, ◌++◌,
  length, take, drop, min, append_assoc, length-append, ==_of_ne, ◌^◌, bytes_eq, of_le4-u32_le,
  mod_u32, take-append-drop, take-length, drop-past, append_cut, length-take_of_le,
}
use mii_sound.Proto.{kind_header, StreamFrame}
use mii_sound.Proto.Write.{header_payload}
use native.Mathlib.Decide.{dec_lt}
use mii_sound.Client.Wav.{wav_header}
use mii_sound.Server.Channel.{Sender, send}
use mii_sound.Server.Relay.WavStream.{
  chunk, Relayed, relayed, rate, parse_wav_sample_rate, pair_samples, Carry, State, start, next,
  take_body, open_stream, take_header, check_header, on_chunk, relay_loop, relay_wav_stream,
}
use mii_sound.Server.Relay.Chunks.{
  body_frames, payloads-body_frames, AreChunks-body_frames, AreChunks, payloads, concat_chunks,
  chunks,
}
use mii_sound.Server.Relay.Body.{
  end_frame, with_room, opened, relay_loop_next, relay_loop_same, body_loop,
}

-- The state before the header is whole.
abbrev partial : List ℕ → State
partial buf = record { header_buf = buf; header_done = false; odd = start.odd }

abbrev pub header_frame : ℕ → StreamFrame
header_frame sr = record { kind = kind_header; payload = header_payload sr }

on_chunk-empty : (s : State) (out : Sender) → on_chunk [] s out ≡ next s out
unfolding on_chunk
on_chunk-empty s out = refl

check_header_short :
    (buf old : List ℕ) (out : Sender)
    → length buf < 44
    → check_header buf [] (partial old) out ≡ next (partial buf) out
unfolding check_header take_body
check_header_short buf old out h = rw (==_of_ne (length buf) 44 (λ e. absurd (omega arith)))

check_header_whole :
    (buf body old : List ℕ) (sr : ℕ) (taken : List StreamFrame) (n : ℕ)
    → length buf ≡ 44
    → parse_wav_sample_rate buf ≡ rate sr
    → check_header buf body (partial old) (with_room taken (suc n))
      ≡ take_body body (opened buf start.odd) (with_room (taken ++ header_frame sr ∷ []) n)
unfolding check_header open_stream send
check_header_whole buf body old sr taken n h p = rw h (rw p)

take_body-opened :
    (body buf : List ℕ) (k : Carry) (out : Sender)
    → take_body body (opened buf k) out ≡ on_chunk body (opened buf k) out
take_body-opened [] buf k out = unfold take_body on_chunk in refl
take_body-opened (b ∷ body) buf k out = unfold on_chunk in refl

take_header_short :
    (c buf : List ℕ) (out : Sender)
    → length buf + length c < 44
    → take_header c (partial buf) out ≡ next (partial (buf ++ c)) out
unfolding take_header
take_header_short c buf out h =
    (λ i. check_header (buf ++ front i) (behind i) (partial buf) out)
    ∙ check_header_short (buf ++ c) buf out (omega (arith, length-append buf c))
  where
    front : take (min (44 - length buf) (length c)) c ≡ c
    front = ap (λ (k : ℕ). take k c) (omega arith) ∙ take-length c

    behind : drop (min (44 - length buf) (length c)) c ≡ []
    behind = ap (λ (k : ℕ). drop k c) (omega arith) ∙ drop-past 0 c

on_chunk-partial :
    (b : ℕ) (c buf : List ℕ) (out : Sender)
    → on_chunk (b ∷ c) (partial buf) out ≡ take_header (b ∷ c) (partial buf) out
unfolding on_chunk
on_chunk-partial b c buf out = refl

take_header_whole :
    (c buf : List ℕ) (sr : ℕ) (taken : List StreamFrame) (n : ℕ)
    → length buf < 44
    → 44 ≤ length buf + length c
    → parse_wav_sample_rate (buf ++ take (44 - length buf) c) ≡ rate sr
    → take_header c (partial buf) (with_room taken (suc n))
      ≡ on_chunk
          (drop (44 - length buf) c)
          (opened (buf ++ take (44 - length buf) c) start.odd)
          (with_room (taken ++ header_frame sr ∷ []) n)
unfolding take_header
take_header_whole c buf sr taken n h h' p =
    (λ i.
      check_header (buf ++ take (up_to_44 i) c) (drop (up_to_44 i) c) (partial buf)
        (with_room taken (suc n)))
    ∙ check_header_whole _ _ buf sr taken n
        (length-append buf _ ∙ omega (arith, length-take_of_le (44 - length buf) c)) p
    ∙ take_body-opened _ _ start.odd _
  where
    up_to_44 : min (44 - length buf) (length c) ≡ 44 - length buf
    up_to_44 = omega arith

-- The frames of one upstream WAV: chunk frames that carry the samples of its body.
pub record Translation (body : List ℕ) (taken : List StreamFrame) (run : Sender → Relayed × Sender)
    (sr : ℕ) : Type 0 where
  pub frames : List StreamFrame
  pub are_chunks : AreChunks frames
  pub samples : payloads frames ≡ pair_samples body
  pub delivers :
      (n : ℕ)
      → run (with_room taken (suc (length frames + suc n)))
        ≡ (relayed, with_room (taken ++ header_frame sr ∷ [] ++ (frames ++ end_frame ∷ [])) n)

module _ (hdr body : List ℕ) (sr : ℕ) (full : length hdr ≡ 44)
    (wav : parse_wav_sample_rate hdr ≡ rate sr) (taken : List StreamFrame) where
  whole :
      (b : ℕ) (c : List ℕ) (cs : List (List ℕ)) (buf : List ℕ)
      → length buf < 44
      → 44 ≤ length buf + length (b ∷ c)
      → buf ++ ((b ∷ c) ++ concat_chunks cs) ≡ hdr ++ body
      → Translation body taken (relay_loop (chunk (b ∷ c) ∷ chunks cs) (partial buf)) sr
  unfolding concat_chunks chunks
  whole b c cs buf h long e = record {
    frames = body_frames start.odd (rest ∷ cs);
    are_chunks = AreChunks-body_frames start.odd (rest ∷ cs);
    samples = payloads-body_frames start.odd (rest ∷ cs) ∙ ap pair_samples cut.1;
    delivers = λ n.
        relay_loop_same (b ∷ c) rest (chunks cs) _ _ _ _ (
          on_chunk-partial b c buf _
          ∙ take_header_whole (b ∷ c) buf sr taken _ h long (ap parse_wav_sample_rate cut.0 ∙ wav))
        ∙ body_loop (rest ∷ cs) (buf ++ front) start.odd (taken ++ header_frame sr ∷ []) n;
  }
    where
      front : List ℕ
      front = take (44 - length buf) (b ∷ c)

      rest : List ℕ
      rest = drop (44 - length buf) (b ∷ c)

      regrouped : (buf ++ front) ++ (rest ++ concat_chunks cs) ≡ hdr ++ body
      regrouped =
          append_assoc buf front _
          ∙ ap (◌++◌ buf) (
              sym (append_assoc front rest _)
              ∙ ap (λ (t : List ℕ). t ++ concat_chunks cs)
                  (take-append-drop (44 - length buf) (b ∷ c)))
          ∙ e

      cut : (buf ++ front ≡ hdr) × (rest ++ concat_chunks cs ≡ body)
      cut =
          append_cut (buf ++ front) (rest ++ concat_chunks cs) hdr body
            (omega
              (arith, full, length-append buf front, length-take_of_le (44 - length buf) (b ∷ c)))
            regrouped

  translate :
      (cs : List (List ℕ)) (buf : List ℕ)
      → length buf < 44
      → buf ++ concat_chunks cs ≡ hdr ++ body
      → Translation body taken (relay_loop (chunks cs) (partial buf)) sr
  unfolding concat_chunks chunks
  translate [] buf h e =
      absurd (omega (arith, ap length e, length-append buf [], length-append hdr body))
  translate ([] ∷ cs) buf h e =
      let t = translate cs buf h e in
      record {
        frames = t.frames;
        are_chunks = t.are_chunks;
        samples = t.samples;
        delivers = λ n.
            relay_loop_next [] (chunks cs) _ _ _ _ (on_chunk-empty (partial buf) _) ∙ t.delivers n;
      }
  translate ((b ∷ c) ∷ cs) buf h e = elim (dec_lt (length buf + length (b ∷ c)) 44) [
    | yes short ↦
        let t =
          translate cs (buf ++ (b ∷ c)) (omega (arith, length-append buf (b ∷ c)))
            (append_assoc buf (b ∷ c) _ ∙ e) in
        record {
          frames = t.frames;
          are_chunks = t.are_chunks;
          samples = t.samples;
          delivers = λ n.
              relay_loop_next (b ∷ c) (chunks cs) _ _ _ _
                (on_chunk-partial b c buf _ ∙ take_header_short (b ∷ c) buf _ short)
              ∙ t.delivers n;
        }
    | no long ↦ whole b c cs buf h (omega arith) e
  ]

-- However the bytes of an upstream WAV are cut into chunks, empty ones included, a receiver that
-- stays gets a header frame with the rate of the WAV, then chunk frames, then the end frame; the
-- samples in the chunk frames are those of the bytes behind the header, and a last odd byte is
-- dropped. The translation reports success.
pub relay_wav_stream-translates :
    (hdr body : List ℕ) (sr : ℕ) (cs : List (List ℕ)) (taken : List StreamFrame)
    → length hdr ≡ 44
    → parse_wav_sample_rate hdr ≡ rate sr
    → concat_chunks cs ≡ hdr ++ body
    → Translation body taken (relay_wav_stream (chunks cs)) sr
unfolding relay_wav_stream
relay_wav_stream-translates hdr body sr cs taken full wav e =
    translate hdr body sr full wav taken cs [] (omega arith) e

-- The rate is read back from every header that the client writes, whatever its size fields.
pub parse_wav_sample_rate-wav_header :
    (sample_rate data_size : ℕ)
    → sample_rate < 2 ^ 32
    → parse_wav_sample_rate (wav_header sample_rate data_size) ≡ rate sample_rate
unfolding parse_wav_sample_rate wav_header bytes_eq text
parse_wav_sample_rate-wav_header sr n h = ap rate (of_le4-u32_le sr ∙ mod_u32 sr h)
