-- ===== src/Proto/RoundTrip.antt =====
-- The readers of src/proto.rs on the bytes of Proto/Wire, with any bytes behind them.
use mii_sound.Common.{
  ℕ, ◌^◌, ◌≤◌, ◌<◌, ◌≡◌, refl, ap, ◌∙◌, arith, Text, List, [], ◌∷◌, ◌++◌, Option, some, length,
  as_u32, u32_le, of_le4-u32_le, le→ltb_false, append_assoc, All, mod_u32, map,
}
use mii_sound.Common.Utf8.{from_utf8}
use mii_sound.Io.{ok}
use mii_sound.Io.Read.{Reader, ◌>>=◌, read_u32_le, read_u8, read_exact, read_exact-append, >>=-ok}
use mii_sound.Proto.{
  proto_version, op_tts_batch, max_json, max_audio, max_payload, max_token, max_batch, Request,
  Response, BatchItem, StreamFrame,
}
use mii_sound.Proto.Read.{
  read_json, read_audio, read_payload, read_token, read_request_body, read_op, read_request,
  read_batch_item, read_count, read_batch_request_body, read_response_frame, read_batch_response,
  read_response, read_stream_frame, parse_header_payload,
}
use mii_sound.Proto.Write.{audio_bytes, header_payload}
use mii_sound.Proto.Wire.{
  blob, encode_token, encode_request, encode_batch_item, encode_all, encode_batch_request,
  encode_response, encode_batch_response, encode_stream_frame,
}
use mii_sound.Proto.Blobs.{
  received, read_json-blob, read_payload-blob, read_audio-blob, read_u32_le-append,
}

-- What the readers' limits let pass.
pub record Fits (json : List ℕ) (audio : Option (List ℕ)) : Type 0 where
  pub json_fits : length json ≤ max_json
  pub audio_fits : length (audio_bytes audio) ≤ max_audio

-- A token that is UTF-8 and within its limit is read back.
pub read_token-encode :
    (token rest : List ℕ)
    → length token ≤ max_token
    → from_utf8 token ≡ some token
    → read_token (encode_token token ++ rest) ≡ ok (token, rest)
unfolding read_token encode_token blob
read_token-encode token rest h u = rw (append_assoc (u32_le (as_u32 (length token))) token rest) (
    >>=-ok read_u32_le _ _ (read_u32_le-append (length token) (token ++ rest) (omega arith))
    ∙ rw (le→ltb_false max_token (length token) h)
        (>>=-ok (read_exact (length token)) _ _ (read_exact-append token rest) ∙ rw u))

pub read_op-encode : (op : ℕ) (rest : List ℕ) → read_op (proto_version ∷ op ∷ rest) ≡ ok (op, rest)
unfolding read_op read_u8
read_op-encode op rest = refl

module _ (json : List ℕ) (audio : Option (List ℕ)) (rest : List ℕ) (fits : Fits json audio) where
  pub read_request_body-blobs :
      (op : ℕ)
      → read_request_body op (blob json ++ blob (audio_bytes audio) ++ rest)
        ≡ ok (record { op = op; json = json; audio = received audio }, rest)
  unfolding read_request_body
  read_request_body-blobs op = rw append_assoc (
      >>=-ok (read_json _) _ _
        (read_json-blob _ json (blob (audio_bytes audio) ++ rest) fits.json_fits)
      ∙ >>=-ok (read_audio _) _ _ (read_audio-blob _ audio rest fits.audio_fits))

  read_batch_item-blobs :
      read_batch_item (blob json ++ blob (audio_bytes audio) ++ rest)
      ≡ ok (record { json = json; audio = received audio }, rest)
  unfolding read_batch_item
  read_batch_item-blobs = rw append_assoc (
      >>=-ok (read_json _) _ _
        (read_json-blob _ json (blob (audio_bytes audio) ++ rest) fits.json_fits)
      ∙ >>=-ok (read_audio _) _ _ (read_audio-blob _ audio rest fits.audio_fits))

-- The server reads the request that the client wrote, but for an empty inline audio, which it
-- reads as none, and leaves the bytes behind it.
pub read_request-encode :
    (req : Request) (rest : List ℕ)
    → Fits req.json req.audio
    → read_request (encode_request req ++ rest)
      ≡ ok (record req { audio = received req.audio }, rest)
unfolding read_request encode_request
read_request-encode req rest fits =
    >>=-ok read_op _ _ (read_op-encode req.op _)
    ∙ read_request_body-blobs req.json req.audio rest fits req.op

-- One item after the other, for any reader of one item that undoes its encoding.
pub read_count-encode_all :
    {A : Type 0} (item : Reader A) (encode : A → List ℕ) (back : A → A) (P : A → Type 0)
    (undo : (x : A) (rest : List ℕ) → P x → item (encode x ++ rest) ≡ ok (back x, rest))
    (xs : List A) (rest : List ℕ)
    → All P xs
    → read_count (length xs) item (encode_all encode xs ++ rest) ≡ ok (map back xs, rest)
unfolding read_count encode_all
read_count-encode_all item encode back P undo [] rest h = refl
read_count-encode_all item encode back P undo (x ∷ xs) rest h = rw append_assoc (
    >>=-ok item _ _ (undo x (encode_all encode xs ++ rest) h.0)
    ∙ >>=-ok (read_count (length xs) item) _ _
        (read_count-encode_all item encode back P undo xs rest h.1))

abbrev pub received_item : BatchItem → BatchItem
received_item item = record item { audio = received item.audio }

abbrev pub ItemFits : BatchItem → Type 0
ItemFits item = Fits item.json item.audio

-- The worker reads the batch that the server wrote, item by item and in order.
pub read_batch_request-encode :
    (items : List BatchItem) (rest : List ℕ)
    → length items ≤ max_batch
    → All ItemFits items
    → (read_op >>= λ op. read_batch_request_body) (encode_batch_request items ++ rest)
      ≡ ok (map received_item items, rest)
unfolding read_batch_request_body encode_batch_request encode_batch_item
read_batch_request-encode items rest h fits =
    >>=-ok read_op _ _ (read_op-encode op_tts_batch _)
    ∙ rw (append_assoc (u32_le (as_u32 (length items)))) (
        >>=-ok read_u32_le _ _ (read_u32_le-append (length items) _ (omega arith))
        ∙ rw (le→ltb_false max_batch (length items) h) (
            read_count-encode_all read_batch_item encode_batch_item received_item ItemFits
              (λ item r f. read_batch_item-blobs item.json item.audio r f) items rest fits))

abbrev pub ResponseFits : Response → Type 0
ResponseFits resp = length resp.payload ≤ max_payload

read_response_frame-encode :
    (what : Text) (resp : Response) (rest : List ℕ)
    → ResponseFits resp
    → read_response_frame what (encode_response resp ++ rest) ≡ ok (resp, rest)
unfolding read_response_frame encode_response read_u8
read_response_frame-encode what resp rest fits =
    >>=-ok (read_payload what) _ _ (read_payload-blob what resp.payload rest fits)

-- The client reads the response that the server wrote.
pub read_response-encode :
    (resp : Response) (rest : List ℕ)
    → ResponseFits resp
    → read_response (encode_response resp ++ rest) ≡ ok (resp, rest)
unfolding read_response
read_response-encode resp rest fits = read_response_frame-encode _ resp rest fits

map_id : {A : Type 0} (xs : List A) → map (λ x. x) xs ≡ xs
map_id [] = refl
map_id (x ∷ xs) = ap (◌∷◌ x) (map_id xs)

-- The server reads the responses that the worker wrote, one for each item and in order.
pub read_batch_response-encode :
    (resps : List Response) (rest : List ℕ)
    → length resps ≤ max_batch
    → All ResponseFits resps
    → read_batch_response (encode_batch_response resps ++ rest) ≡ ok (resps, rest)
unfolding read_batch_response encode_batch_response
read_batch_response-encode resps rest h fits = rw (append_assoc (u32_le (as_u32 (length resps)))) (
    >>=-ok read_u32_le _ _ (read_u32_le-append (length resps) _ (omega arith))
    ∙ rw (le→ltb_false max_batch (length resps) h) (
        read_count-encode_all _ encode_response (λ r. r) ResponseFits (read_response_frame-encode _)
          resps rest fits
        ∙ ap (λ (xs : List Response). ok (xs, rest)) (map_id resps)))

abbrev pub FrameFits : StreamFrame → Type 0
FrameFits frame = length frame.payload ≤ max_payload

-- A stream frame is read back whole, and the next one is left on the stream.
pub read_stream_frame-encode :
    (frame : StreamFrame) (rest : List ℕ)
    → FrameFits frame
    → read_stream_frame (encode_stream_frame frame ++ rest) ≡ ok (frame, rest)
unfolding read_stream_frame encode_stream_frame read_u8
read_stream_frame-encode frame rest fits =
    >>=-ok (read_payload _) _ _ (read_payload-blob _ frame.payload rest fits)

-- The sample rate of a header frame is read back.
pub parse_header_payload-header_payload :
    (sample_rate : ℕ)
    → sample_rate < 2 ^ 32
    → parse_header_payload (header_payload sample_rate) ≡ ok sample_rate
unfolding parse_header_payload
parse_header_payload-header_payload sr h = ap ok (of_le4-u32_le sr ∙ mod_u32 sr h)
