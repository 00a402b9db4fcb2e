-- ===== src/Proto/Strict.antt =====
-- What the readers of src/proto.rs accept, and what they refuse.
use mii_sound.Common.{
  ℕ, ◌^◌, ◌≤◌, ◌<◌, ◌≡◌, refl, sym, ap, ◌∙◌, arith, Text, text, decimal, List, [], ◌∷◌, ◌++◌,
  Option, none, some, false, length, u32_le, of_le4, u32_le-of_le4, ltb, ◌==◌, ltb_false→le,
  append_assoc, All, mod_u32, IsByte, Bool-cases, inl, inr, ==_iff,
}
use mii_sound.Common.Utf8.{from_utf8, from_utf8_lossy-from_utf8}
use mii_sound.Io.{ok, err, msg}
use mii_sound.Io.Read.{
  read_u32_le, read_u8, read_exact, read_exact-eq_ok, >>=-ok, >>=-err, >>=-eq_ok,
}
use mii_sound.Proto.{proto_version, max_json, max_audio, Request}
use mii_sound.Proto.Read.{
  read_len, read_json, read_audio, read_request_body, read_op, read_request, parse_error_payload,
}
use mii_sound.Proto.Write.{audio_bytes, error_payload}
use mii_sound.Proto.Wire.{blob, encode_request}
use mii_sound.Proto.Blobs.{received, read_len-blob_over}
use mii_sound.Proto.RoundTrip.{Fits, read_op-encode}

All-rest : (xs ys : List ℕ) → All IsByte (xs ++ ys) → All IsByte ys
All-rest [] ys h = h
All-rest (x ∷ xs) ys h = All-rest xs ys h.1

-- Every four bytes are the encoding of the number that is read from them.
read_u32_le-eq_ok :
    (s : List ℕ) (n : ℕ) (rest : List ℕ)
    → All IsByte s
    → read_u32_le s ≡ ok (n, rest)
    → (s ≡ u32_le n ++ rest) × (n < 2 ^ 32)
unfolding read_u32_le
read_u32_le-eq_ok (a ∷ b ∷ c ∷ d ∷ r) n rest h e =
    let n_eq : of_le4 a b c d ≡ n = cc in
    let r_eq : r ≡ rest = cc in
    (
      rw (← n_eq, ← r_eq)
          (ap (λ (l : List ℕ). l ++ r) (sym (u32_le-of_le4 a b c d h.0 h.1.0 h.1.1.0 h.1.1.1.0))),
      rw (← n_eq) (omega arith),
    )
read_u32_le-eq_ok _ n rest h e = absurd (cc)

read_len-eq_ok :
    (limit : ℕ) (what : Text) (s : List ℕ) (n : ℕ) (rest : List ℕ)
    → read_len limit what s ≡ ok (n, rest)
    → (read_u32_le s ≡ ok (n, rest)) × (n ≤ limit)
unfolding read_len
read_len-eq_ok limit what s n rest e =
    let (len, r, first, second) = >>=-eq_ok read_u32_le _ s e in
    elim (Bool-cases (ltb limit len)) [
      | inl over ↦ absurd (cc (rw over at second))
      | inr within ↦
          let same = rw within at second in
          let n_eq : len ≡ n = cc same in
          let r_eq : r ≡ rest = cc same in
          (cc (first, n_eq, r_eq), rw (← n_eq) (ltb_false→le _ _ within))
    ]

blob_of_len :
    (s xs rest r : List ℕ) (n : ℕ)
    → (s ≡ u32_le n ++ r)
    → r ≡ xs ++ rest
    → length xs ≡ n
    → n < 2 ^ 32
    → s ≡ blob xs ++ rest
unfolding blob
blob_of_len s xs rest r n e e' len wide =
    rw (len, mod_u32 n wide) (e ∙ ap (λ (t : List ℕ). u32_le n ++ t) e')

read_json-eq_ok :
    (what : Text) (s xs rest : List ℕ)
    → All IsByte s
    → read_json what s ≡ ok (xs, rest)
    → (s ≡ blob xs ++ rest) × (length xs ≤ max_json)
unfolding read_json
read_json-eq_ok what s xs rest h e =
    let (len, r, first, second) = >>=-eq_ok (read_len max_json what) _ s e in
    let (read, fits) = read_len-eq_ok max_json what s len r first in
    let (front, wide) = read_u32_le-eq_ok s len r h read in
    let (whole, count) = read_exact-eq_ok len r xs rest second in
    (blob_of_len s xs rest r len front whole count wide, omega arith)

received-some : (buf : List ℕ) → (length buf == 0) ≡ false → received (some buf) ≡ some buf
received-some [] h = absurd (cc h)
received-some (x ∷ buf) h = refl

read_audio-eq_ok :
    (what : Text) (s : List ℕ) (a : Option (List ℕ)) (rest : List ℕ)
    → All IsByte s
    → read_audio what s ≡ ok (a, rest)
    → (s ≡ blob (audio_bytes a) ++ rest) × (length (audio_bytes a) ≤ max_audio) × (received a ≡ a)
unfolding read_audio
read_audio-eq_ok what s a rest h e =
    let (len, r, first, second) = >>=-eq_ok (read_len max_audio what) _ s e in
    let (read, fits) = read_len-eq_ok max_audio what s len r first in
    let (front, wide) = read_u32_le-eq_ok s len r h read in
    elim (Bool-cases (len == 0)) [
      | inl zero_len ↦
          let same = rw zero_len at second in
          let a_eq : none ≡ a = cc same in
          let r_eq : r ≡ rest = cc same in
          rw (← a_eq) (
            blob_of_len s [] rest r len front r_eq (sym ((==_iff len 0).0 zero_len)) wide,
            omega arith,
            refl,
          )
      | inr more ↦
          let (buf, r', third, fourth) = >>=-eq_ok (read_exact len) _ r (rw more at second) in
          let a_eq : some buf ≡ a = cc fourth in
          let r_eq : r' ≡ rest = cc fourth in
          let (whole, count) = read_exact-eq_ok len r buf r' third in
          rw (← a_eq) (
            blob_of_len s buf rest r len front (whole ∙ ap (λ (t : List ℕ). buf ++ t) r_eq) count
                wide,
            omega arith,
            received-some buf (rw count more),
          )
    ]

read_request_body-eq_ok :
    (op : ℕ) (s : List ℕ) (req : Request) (rest : List ℕ)
    → All IsByte s
    → read_request_body op s ≡ ok (req, rest)
    → (s ≡ blob req.json ++ blob (audio_bytes req.audio) ++ rest)
      × Fits req.json req.audio
      × (received req.audio ≡ req.audio)
      × (req.op ≡ op)
unfolding read_request_body
read_request_body-eq_ok op s req rest h e =
    let (json, r, first, second) = >>=-eq_ok (read_json _) _ s e in
    let (audio, r', third, fourth) = >>=-eq_ok (read_audio _) _ r second in
    let (front, json_fits) = read_json-eq_ok _ s json r h first in
    let (back, audio_fits, kept) =
      read_audio-eq_ok _ r audio r' (All-rest (blob json) r (rw front at h)) third in
    let req_eq : record { op = op; json = json; audio = audio } ≡ req = cc fourth in
    let r_eq : r' ≡ rest = cc fourth in
    rw (← req_eq, ← r_eq)
      (
        rw append_assoc (front ∙ ap (λ (t : List ℕ). blob json ++ t) back),
        record { json_fits = json_fits; audio_fits = audio_fits },
        kept,
        refl,
      )

read_op-eq_ok :
    (s : List ℕ) (op : ℕ) (rest : List ℕ)
    → read_op s ≡ ok (op, rest)
    → s ≡ proto_version ∷ op ∷ rest
unfolding read_op read_u8
read_op-eq_ok [] op rest e = absurd (cc e)
read_op-eq_ok (v ∷ []) op rest e = ground arith
read_op-eq_ok (v ∷ o ∷ s) op rest e = ground arith

-- Every request that the server reads is the encoding of what it read, within the limits: no
-- byte is skipped, added or read twice.
pub read_request-eq_ok :
    (s : List ℕ) (req : Request) (rest : List ℕ)
    → All IsByte s
    → read_request s ≡ ok (req, rest)
    → (s ≡ encode_request req ++ rest) × Fits req.json req.audio × (received req.audio ≡ req.audio)
unfolding read_request encode_request
read_request-eq_ok s req rest h e =
    let (op, r, first, second) = >>=-eq_ok read_op _ s e in
    let front = read_op-eq_ok s op r first in
    let bytes = rw front at h in
    let (body, fits, kept, same) = read_request_body-eq_ok op r req rest bytes.1.1 second in
    (front ∙ rw same (ap (λ (t : List ℕ). proto_version ∷ op ∷ t) body), fits, kept)

-- A request with more than a mebibyte of JSON is refused, with its length in the message.
pub read_request-oversize :
    (req : Request) (rest : List ℕ)
    → max_json < length req.json
    → length req.json < 2 ^ 32
    → read_request (encode_request req ++ rest)
      ≡ err (msg (text "json frame too large: " ++ decimal (length req.json)))
unfolding read_request encode_request read_request_body read_json
read_request-oversize req rest over wide =
    >>=-ok read_op _ _ (read_op-encode req.op _)
    ∙ rw append_assoc (
        >>=-err (read_json _) _ _ (
          >>=-err (read_len max_json _) _ _ (
            read_len-blob_over max_json _ req.json (blob (audio_bytes req.audio) ++ rest) wide
              over)))

-- The status and the message of an error frame are read back.
pub parse_error_payload-error_payload :
    (status : ℕ) (message : Text)
    → from_utf8 message ≡ some message
    → parse_error_payload (error_payload status message) ≡ (status, message)
unfolding parse_error_payload
parse_error_payload-error_payload status message u =
    ap (λ (t : Text). (status, t)) (from_utf8_lossy-from_utf8 message message u).1
