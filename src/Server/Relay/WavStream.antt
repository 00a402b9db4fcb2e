-- ===== src/Server/Relay/WavStream.antt =====
-- `relay_wav_stream` of src/server/relay.rs: the chunks of an upstream WAV become stream frames.
use mii_sound.Common.{
  ℕ, ◌+◌, ◌-◌, Text, text, decimal, Bool, true, false, not, ◌&&◌, ◌||◌, List, [], ◌∷◌, ◌++◌, Option,
  none, some, ltb, ◌==◌, if◌then◌else◌, length, take, drop, min, is_empty, bytes_eq, u32_le, of_le2,
  of_le4,
}
use mii_sound.Common.F32.{i16_to_f32}
use mii_sound.Proto.{st_generation_failed, kind_header, kind_chunk, kind_end}
use mii_sound.Proto.Write.{header_payload}
use mii_sound.Server.Channel.{Sender, send}

abbrev pub wav_header_len : ℕ
wav_header_len = 44

abbrev pub wav_sample_rate_offset : ℕ
wav_sample_rate_offset = 24

-- `Err((status, message))` of the translation.
pub data Relayed : Type 0 where
  relayed : Relayed
  failed : ℕ → Text → Relayed

-- What `stream.chunk().await` gives; the end of the list is the end of the stream.
pub data Event : Type 0 where
  chunk : List ℕ → Event
  broken : Text → Event

-- The bytes at `offset`, as a little-endian u32.
abbrev u32_at : ℕ → List ℕ → ℕ
u32_at offset h = decode (take 4 (drop offset h))
  where
    decode : List ℕ → ℕ
    decode (a ∷ b ∷ c ∷ d ∷ []) = of_le4 a b c d
    decode _ = 0

pub data Rate : Type 0 where
  rate : ℕ → Rate
  no_rate : Text → Rate

unfoldable pub parse_wav_sample_rate : List ℕ → Rate
parse_wav_sample_rate header =
    if ltb (length header) (wav_sample_rate_offset + 4)
    then no_rate (text "upstream WAV header too short")
    else if not (bytes_eq (take 4 header) (text "RIFF"))
        || not (bytes_eq (take 4 (drop 8 header)) (text "WAVE"))
    then no_rate (text "upstream did not return a RIFF/WAVE stream")
    else rate (u32_at wav_sample_rate_offset header)

-- `s as f32 / 32768.0` and its little-endian bytes, for the i16 of two bytes.
abbrev pub sample_bytes : ℕ → ℕ → List ℕ
sample_bytes a b = u32_le (i16_to_f32 (of_le2 a b))

-- The samples of whole pairs of bytes.
unfoldable pub pair_samples : List ℕ → List ℕ
pair_samples (a ∷ b ∷ rest) = sample_bytes a b ++ pair_samples rest
pair_samples _ = []

-- The byte that is left over behind the pairs.
unfoldable pub odd_byte : List ℕ → Option ℕ
odd_byte [] = none
odd_byte (a ∷ []) = some a
odd_byte (a ∷ b ∷ rest) = odd_byte rest

pub record Carry : Type 0 where
  pub carry : ℕ
  pub have_carry : Bool

-- `if *have_carry && !bytes.is_empty()`: the sample across the boundary, and the bytes from `idx`
-- on. The last part is `have_carry` afterwards.
unfoldable pub join_carry : Carry → List ℕ → List ℕ × List ℕ × Bool
join_carry k [] = ([], [], k.have_carry)
join_carry k (b ∷ bytes) =
    if k.have_carry then (sample_bytes k.carry b, bytes, false) else ([], b ∷ bytes, false)

unfoldable pub keep_odd : Option ℕ → ℕ → Bool → Carry
keep_odd (some b) carry have = record { carry = b; have_carry = true }
keep_odd none carry have = record { carry = carry; have_carry = have }

unfoldable pub send_samples : List ℕ → Sender → Sender
send_samples [] out = out
send_samples (b ∷ payload) out = (send (record { kind = kind_chunk; payload = b ∷ payload }) out).1

unfoldable pub forward_pcm_chunk : List ℕ → Carry → Sender → Carry × Sender
unfolding join_carry keep_odd send_samples
forward_pcm_chunk bytes k out =
    let (first, rest, have) = join_carry k bytes in
    (keep_odd (odd_byte rest) k.carry have, send_samples (first ++ pair_samples rest) out)

pub record State : Type 0 where
  pub header_buf : List ℕ
  pub header_done : Bool
  pub odd : Carry

abbrev pub start : State
start = record {
  header_buf = [];
  header_done = false;
  odd = record { carry = 0; have_carry = false };
}

-- A step of the loop: it goes on, or `return`s.
pub data Flow : Type 0 where
  next : State → Sender → Flow
  return : Relayed → Sender → Flow

-- `if header_done && pos < chunk.len()`, for the bytes from `pos` on.
unfoldable pub take_body : List ℕ → State → Sender → Flow
take_body body s out =
    if s.header_done && not (is_empty body)
    then (let (odd, out') = forward_pcm_chunk body s.odd out in next (record s { odd = odd }) out')
    else next s out

unfoldable pub open_stream : ℕ → List ℕ → State → Sender → Flow
unfolding take_body
open_stream sample_rate body s out =
    let (taken, out') =
      send (record { kind = kind_header; payload = header_payload sample_rate }) out in
    if taken then take_body body (record s { header_done = true }) out' else return relayed out'

-- `if header_buf.len() == WAV_HEADER_LEN`, and what follows for the bytes from `pos` on.
unfoldable pub check_header : List ℕ → List ℕ → State → Sender → Flow
unfolding open_stream take_body
check_header buf body s out =
    if length buf == wav_header_len
    then elim (parse_wav_sample_rate buf) [
      | rate sr ↦ open_stream sr body (record s { header_buf = buf }) out
      | no_rate e ↦ return (failed st_generation_failed e) out
    ]
    else take_body body (record s { header_buf = buf }) out

-- `if !header_done`
unfoldable pub take_header : List ℕ → State → Sender → Flow
take_header bytes s out =
    let n = min (wav_header_len - length s.header_buf) (length bytes) in
    check_header (s.header_buf ++ take n bytes) (drop n bytes) s out

unfoldable pub on_chunk : List ℕ → State → Sender → Flow
unfolding take_header take_body
on_chunk bytes s out =
    if is_empty bytes
    then next s out
    else if not s.header_done
    then take_header bytes s out
    else take_body bytes s out

-- Behind the loop.
unfoldable pub close_stream : State → Sender → Relayed × Sender
close_stream s out =
    if not s.header_done
    then (
      failed st_generation_failed (
          text "upstream stream ended before WAV header arrived ("
          ++ (decimal (length s.header_buf)
              ++ (text " of " ++ (decimal wav_header_len ++ text " bytes received)")))),
      out,
    )
    else (relayed, (send (record { kind = kind_end; payload = [] }) out).1)

unfoldable pub relay_loop : List Event → State → Sender → Relayed × Sender
relay_loop [] s out = close_stream s out
relay_loop (broken e ∷ events) s out =
    (failed st_generation_failed (text "upstream stream: " ++ e), out)
relay_loop (chunk bytes ∷ events) s out = elim (on_chunk bytes s out) [
  | next s' out' ↦ relay_loop events s' out'
  | return r out' ↦ (r, out')
]

unfoldable pub relay_wav_stream : List Event → Sender → Relayed × Sender
unfolding relay_loop
relay_wav_stream events out = relay_loop events start out
