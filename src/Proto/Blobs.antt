-- ===== src/Proto/Blobs.antt =====
-- One length-prefixed payload of src/proto.rs, read back with any bytes behind it.
use mii_sound.Common.{
  ℕ, ◌^◌, ◌≤◌, ◌<◌, ◌≡◌, refl, ap, ◌∙◌, arith, Text, decimal, List, [], ◌∷◌, ◌++◌, Option, none,
  some, length, as_u32, u32_le, of_le4-u32_le, if◌then◌else◌, ltb, ◌==◌, le→ltb_false, lt→ltb,
  append_assoc, ==_of_ne,
}
use mii_sound.Io.{ok, err, msg}
use mii_sound.Io.Read.{return, ◌>>=◌, read_u32_le, read_exact, read_exact-append, >>=-ok}
use mii_sound.Proto.{max_json, max_audio, max_payload}
use mii_sound.Proto.Read.{read_len, read_json, read_audio, read_payload}
use mii_sound.Proto.Write.{audio_bytes}
use mii_sound.Proto.Wire.{blob}

pub read_u32_le-append :
    (n : ℕ) (rest : List ℕ) → n < 2 ^ 32 → read_u32_le (u32_le (as_u32 n) ++ rest) ≡ ok (n, rest)
unfolding read_u32_le
read_u32_le-append n rest h = ap (λ (k : ℕ). ok (k, rest)) (of_le4-u32_le (as_u32 n) ∙ omega arith)

module _ (limit : ℕ) (what : Text) (xs rest : List ℕ) (wide : length xs < 2 ^ 32) where
  counted : read_u32_le (blob xs ++ rest) ≡ ok (length xs, xs ++ rest)
  unfolding blob
  counted =
      rw (append_assoc (u32_le (as_u32 (length xs))) xs rest)
        (read_u32_le-append (length xs) (xs ++ rest) wide)

  pub read_len-blob :
      length xs ≤ limit → read_len limit what (blob xs ++ rest) ≡ ok (length xs, xs ++ rest)
  unfolding read_len
  read_len-blob h = >>=-ok read_u32_le _ _ counted ∙ rw (le→ltb_false limit (length xs) h)

  pub read_len-blob_over :
      limit < length xs
      → read_len limit what (blob xs ++ rest) ≡ err (msg (what ++ decimal (length xs)))
  unfolding read_len
  read_len-blob_over h = >>=-ok read_u32_le _ _ counted ∙ rw (lt→ltb limit (length xs) h)

module _ (what : Text) (xs rest : List ℕ) where
  pub read_json-blob : length xs ≤ max_json → read_json what (blob xs ++ rest) ≡ ok (xs, rest)
  unfolding read_json
  read_json-blob h =
      >>=-ok (read_len max_json what) _ _ (read_len-blob max_json what xs rest (omega arith) h)
      ∙ read_exact-append xs rest

  pub read_payload-blob :
      length xs ≤ max_payload → read_payload what (blob xs ++ rest) ≡ ok (xs, rest)
  unfolding read_payload
  read_payload-blob h =
      >>=-ok (read_len max_payload what) _ _
        (read_len-blob max_payload what xs rest (omega arith) h)
      ∙ present xs
    where
      present :
          (xs : List ℕ)
          → (if ltb 0 (length xs) then read_exact (length xs) else return []) (xs ++ rest)
            ≡ ok (xs, rest)
      present [] = refl
      present (x ∷ xs) =
          rw (lt→ltb 0 (length (x ∷ xs)) (omega arith)) (read_exact-append (x ∷ xs) rest)

-- What an inline audio is after a passage over the wire: an empty one is none.
abbrev pub received : Option (List ℕ) → Option (List ℕ)
received none = none
received (some []) = none
received (some (x ∷ xs)) = some (x ∷ xs)

pub read_audio-blob :
    (what : Text) (a : Option (List ℕ)) (rest : List ℕ)
    → length (audio_bytes a) ≤ max_audio
    → read_audio what (blob (audio_bytes a) ++ rest) ≡ ok (received a, rest)
unfolding read_audio
read_audio-blob what a rest h =
    >>=-ok (read_len max_audio what) _ _
      (read_len-blob max_audio what (audio_bytes a) rest (omega arith) h)
    ∙ present a
  where
    present :
        (a : Option (List ℕ))
        → (if length (audio_bytes a) == 0
              then return none
              else (do buf ← read_exact (length (audio_bytes a)); return (some buf)))
            (audio_bytes a ++ rest)
          ≡ ok (received a, rest)
    present none = refl
    present (some []) = refl
    present (some (x ∷ xs)) =
        rw (==_of_ne (length (x ∷ xs)) 0 (omega arith))
          (>>=-ok (read_exact (length (x ∷ xs))) _ _ (read_exact-append (x ∷ xs) rest))
