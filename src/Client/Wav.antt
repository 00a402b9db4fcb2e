-- ===== src/Client/Wav.antt =====
-- `wav_header` and `samples_f32_le_to_pcm16` of src/client/mod.rs.
use mii_sound.Common.{
  ℕ, zero, suc, ◌+◌, ◌*◌, ◌%◌, ◌≡◌, ◌≤◌, refl, ap, arith, List, [], ◌∷◌, ◌++◌, text, ◌==◌,
  if◌then◌else◌, length, drop, replicate, u16_le, u32_le, u32_max, of_le4, min, not,
}
use mii_sound.Common.F32.{f32_to_i16}
use mii_sound.Io.{Result, ok, err, msg}

-- `a.saturating_add(b)` and `a.saturating_mul(b)` on u32.
abbrev pub saturating_add : ℕ → ℕ → ℕ
saturating_add a b = min u32_max (a + b)

abbrev pub saturating_mul : ℕ → ℕ → ℕ
saturating_mul a b = min u32_max (a * b)

-- `h[n..n + bs.len()].copy_from_slice(bs)`
copy_at : ℕ → List ℕ → List ℕ → List ℕ
copy_at zero bs h = bs ++ drop (length bs) h
copy_at (suc n) bs [] = []
copy_at (suc n) bs (x ∷ h) = x ∷ copy_at n bs h

unfoldable pub wav_header : ℕ → ℕ → List ℕ
unfolding copy_at text
wav_header sample_rate data_size =
    let chunk_size = if data_size == u32_max then u32_max else saturating_add 36 data_size in
    let byte_rate = saturating_mul sample_rate 2 in
    let h : List ℕ = replicate 44 0 in
    let h = copy_at 0 (text "RIFF") h in
    let h = copy_at 4 (u32_le chunk_size) h in
    let h = copy_at 8 (text "WAVE") h in
    let h = copy_at 12 (text "fmt ") h in
    let h = copy_at 16 (u32_le 16) h in
    let h = copy_at 20 (u16_le 1) h in
    let h = copy_at 22 (u16_le 1) h in
    let h = copy_at 24 (u32_le sample_rate) h in
    let h = copy_at 28 (u32_le byte_rate) h in
    let h = copy_at 32 (u16_le 2) h in
    let h = copy_at 34 (u16_le 16) h in
    let h = copy_at 36 (text "data") h in copy_at 40 (u32_le data_size) h

-- The chunk size field counts what follows it, and keeps the sentinel for an unknown size.
abbrev pub chunk_size_of : ℕ → ℕ
chunk_size_of n = min u32_max (36 + n)

chunk_size-eq : (n : ℕ) → (if n == u32_max then u32_max else saturating_add 36 n) ≡ chunk_size_of n
chunk_size-eq n = ground arith

-- The header with the chunk size still open.
abbrev pub header_with : ℕ → ℕ → ℕ → List ℕ
header_with sr n chunk_size =
    text "RIFF"
    ++ u32_le chunk_size
    ++ text "WAVEfmt "
    ++ u32_le 16
    ++ u16_le 1
    ++ u16_le 1
    ++ u32_le sr
    ++ u32_le (min u32_max (sr * 2))
    ++ u16_le 2
    ++ u16_le 16
    ++ text "data"
    ++ u32_le n

-- The 44 bytes of the header, field by field, for every rate and size.
pub wav_header_layout :
    (sample_rate data_size : ℕ)
    → wav_header sample_rate data_size ≡ header_with sample_rate data_size (chunk_size_of data_size)
unfolding wav_header
wav_header_layout sr n = ap (header_with sr n) (chunk_size-eq n)

pub length-wav_header : (sample_rate data_size : ℕ) → length (wav_header sample_rate data_size) ≡ 44
unfolding wav_header
length-wav_header sr n = refl

-- `payload.chunks_exact(4)`, each chunk a sample.
unfoldable pub pcm16 : List ℕ → List ℕ
pcm16 (a ∷ b ∷ c ∷ d ∷ rest) = u16_le (f32_to_i16 (of_le4 a b c d)) ++ pcm16 rest
pcm16 _ = []

unfoldable pub samples_f32_le_to_pcm16 : List ℕ → Result (List ℕ)
unfolding pcm16
samples_f32_le_to_pcm16 payload =
    if not (length payload % 4 == 0)
    then err (msg (text "chunk payload not a multiple of 4 bytes"))
    else ok (pcm16 payload)

-- Two bytes for each four: never more than the payload.
pub length-pcm16 : (payload : List ℕ) → length (pcm16 payload) ≤ length payload
unfolding pcm16
length-pcm16 [] = omega arith
length-pcm16 (a ∷ []) = omega arith
length-pcm16 (a ∷ b ∷ []) = omega arith
length-pcm16 (a ∷ b ∷ c ∷ []) = omega arith
length-pcm16 (a ∷ b ∷ c ∷ d ∷ rest) = omega (arith, length-pcm16 rest)
