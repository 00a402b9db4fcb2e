-- ===== src/Proto/Wire.antt =====
-- The wire format of src/proto.rs as plain lists of bytes, and that the writers write it.
use mii_sound.Common.{
  ℕ, ◌≤◌, Text, List, [], ◌∷◌, ◌++◌, length, as_u32, u32_le, le→ltb_false, append_assoc,
}
use mii_sound.Io.Write.{
  Write, ◌>>◌, Writes, Writes-seq, Writes-flush, Writes-u8, Writes-u32_le, Writes-all, Writes-some,
  write_all_nil, write_u8,
}
use mii_sound.Proto.{
  proto_version, op_tts_batch, max_token, max_batch, Request, Response, BatchItem, StreamFrame,
}
use mii_sound.Proto.Write.{
  audio_bytes, write_json, write_payload, write_token, write_request, write_batch_items,
  write_batch_request, write_responses, write_batch_response, write_response, write_stream_frame,
}

-- A length and the bytes that it counts.
unfoldable pub blob : List ℕ → List ℕ
blob xs = u32_le (as_u32 (length xs)) ++ xs

unfoldable pub encode_token : Text → List ℕ
encode_token token = blob token

unfoldable pub encode_request : Request → List ℕ
encode_request req = proto_version ∷ req.op ∷ (blob req.json ++ blob (audio_bytes req.audio))

unfoldable pub encode_batch_item : BatchItem → List ℕ
encode_batch_item item = blob item.json ++ blob (audio_bytes item.audio)

unfoldable pub encode_all : {A : Type 0} → (A → List ℕ) → List A → List ℕ
encode_all f [] = []
encode_all f (x ∷ xs) = f x ++ encode_all f xs

unfoldable pub encode_batch_request : List BatchItem → List ℕ
encode_batch_request items =
    proto_version
    ∷ op_tts_batch
    ∷ (u32_le (as_u32 (length items)) ++ encode_all encode_batch_item items)

unfoldable pub encode_response : Response → List ℕ
encode_response resp = resp.status ∷ blob resp.payload

unfoldable pub encode_batch_response : List Response → List ℕ
encode_batch_response resps = u32_le (as_u32 (length resps)) ++ encode_all encode_response resps

unfoldable pub encode_stream_frame : StreamFrame → List ℕ
encode_stream_frame frame = frame.kind ∷ blob frame.payload

Writes-json : (xs : List ℕ) → Writes (write_json xs) (blob xs)
unfolding write_json blob
Writes-json xs = Writes-seq (u32_le (as_u32 (length xs))) xs (Writes-u32_le _) (Writes-all xs)

Writes-payload : (xs : List ℕ) → Writes (write_payload xs) (blob xs)
unfolding write_payload blob
Writes-payload xs = Writes-seq (u32_le (as_u32 (length xs))) xs (Writes-u32_le _) (Writes-some xs)

Writes-tagged : (b : ℕ) (xs : List ℕ) {m : Write} → Writes m xs → Writes (write_u8 b >> m) (b ∷ xs)
Writes-tagged b xs h = Writes-seq (b ∷ []) xs (Writes-u8 b) h

-- A token within its limit is written as a length and its bytes.
pub write_token-encode :
    (token : Text) → length token ≤ max_token → Writes (write_token token) (encode_token token)
unfolding write_token encode_token blob
write_token-encode token h =
    rw (le→ltb_false max_token (length token) h)
      (Writes-seq (u32_le (as_u32 (length token))) token (Writes-u32_le _) (Writes-all token))

-- A request is written byte for byte as its encoding, its version, its operation, and two blobs,
-- on every stream.
pub write_request-encode : (req : Request) → Writes (write_request req) (encode_request req)
unfolding write_request encode_request
write_request-encode req = Writes-tagged proto_version _ (
    Writes-tagged req.op _ (
      Writes-seq (blob req.json) _ (Writes-json req.json)
        (Writes-flush _ (Writes-payload (audio_bytes req.audio)))))

Writes-batch_items :
    (items : List BatchItem) → Writes (write_batch_items items) (encode_all encode_batch_item items)
unfolding write_batch_items encode_all encode_batch_item
Writes-batch_items [] = write_all_nil
Writes-batch_items (item ∷ items) = rw append_assoc (
    Writes-seq (blob item.json) _ (Writes-json item.json) (
      Writes-seq (blob (audio_bytes item.audio)) _ (Writes-payload (audio_bytes item.audio))
        (Writes-batch_items items)))

-- A batch within the limit is written as its count and its items, in order.
pub write_batch_request-encode :
    (items : List BatchItem)
    → length items ≤ max_batch
    → Writes (write_batch_request items) (encode_batch_request items)
unfolding write_batch_request encode_batch_request
write_batch_request-encode items h = rw (le→ltb_false max_batch (length items) h) (
    Writes-tagged proto_version _ (
      Writes-tagged op_tts_batch _ (
        Writes-seq (u32_le (as_u32 (length items))) _ (Writes-u32_le _)
          (Writes-flush _ (Writes-batch_items items)))))

Writes-responses :
    (resps : List Response) → Writes (write_responses resps) (encode_all encode_response resps)
unfolding write_responses encode_all encode_response
Writes-responses [] = write_all_nil
Writes-responses (resp ∷ resps) =
    Writes-tagged resp.status _
      (Writes-seq (blob resp.payload) _ (Writes-payload resp.payload) (Writes-responses resps))

pub write_batch_response-encode :
    (resps : List Response) → Writes (write_batch_response resps) (encode_batch_response resps)
unfolding write_batch_response encode_batch_response
write_batch_response-encode resps =
    Writes-seq (u32_le (as_u32 (length resps))) _ (Writes-u32_le _)
      (Writes-flush _ (Writes-responses resps))

pub write_response-encode : (resp : Response) → Writes (write_response resp) (encode_response resp)
unfolding write_response encode_response
write_response-encode resp =
    Writes-tagged resp.status _ (Writes-flush _ (Writes-payload resp.payload))

pub write_stream_frame-encode :
    (frame : StreamFrame) → Writes (write_stream_frame frame) (encode_stream_frame frame)
unfolding write_stream_frame encode_stream_frame
write_stream_frame-encode frame =
    Writes-tagged frame.kind _ (Writes-flush _ (Writes-payload frame.payload))
