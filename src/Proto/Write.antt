-- ===== src/Proto/Write.antt =====
-- The writers of src/proto.rs.
use mii_sound.Common.{
  ℕ, Text, text, decimal, List, [], ◌∷◌, ◌++◌, Option, none, some, ltb, if◌then◌else◌, length,
  as_u32, u32_le,
}
use mii_sound.Io.{msg}
use mii_sound.Io.Write.{
  Write, ◌>>◌, done, bail, write_u8, write_u32_le, write_all, write_some, flush,
}
use mii_sound.Proto.{
  proto_version, op_tts_batch, max_token, max_batch, Request, Response, BatchItem, StreamFrame,
}

-- `audio.as_ref().map(|b| b.as_ref()).unwrap_or(&[])`
abbrev pub audio_bytes : Option (List ℕ) → List ℕ
audio_bytes none = []
audio_bytes (some a) = a

unfoldable pub write_json : List ℕ → Write
write_json json = do write_u32_le (as_u32 (length json)); write_all json

unfoldable pub write_payload : List ℕ → Write
write_payload payload = do write_u32_le (as_u32 (length payload)); write_some payload

unfoldable pub write_token : Text → Write
write_token token =
    if ltb max_token (length token)
    then bail (msg (text "token too long"))
    else (do write_u32_le (as_u32 (length token)); write_all token)

unfoldable pub write_request : Request → Write
write_request req = do
  write_u8 proto_version
  write_u8 req.op
  write_json req.json
  write_payload (audio_bytes req.audio)
  flush

unfoldable pub write_batch_items : List BatchItem → Write
write_batch_items [] = done
write_batch_items (item ∷ items) = do
  write_json item.json
  write_payload (audio_bytes item.audio)
  write_batch_items items

unfoldable pub write_batch_request : List BatchItem → Write
write_batch_request items =
    if ltb max_batch (length items)
    then bail (msg (text "batch too large: " ++ decimal (length items)))
    else (do
      write_u8 proto_version
      write_u8 op_tts_batch
      write_u32_le (as_u32 (length items))
      write_batch_items items
      flush)

unfoldable pub write_responses : List Response → Write
write_responses [] = done
write_responses (resp ∷ resps) = do
  write_u8 resp.status
  write_payload resp.payload
  write_responses resps

unfoldable pub write_batch_response : List Response → Write
write_batch_response responses = do
  write_u32_le (as_u32 (length responses))
  write_responses responses
  flush

unfoldable pub write_response : Response → Write
write_response resp = do write_u8 resp.status; write_payload resp.payload; flush

unfoldable pub write_stream_frame : StreamFrame → Write
write_stream_frame frame = do write_u8 frame.kind; write_payload frame.payload; flush

abbrev pub header_payload : ℕ → List ℕ
header_payload sample_rate = u32_le sample_rate

abbrev pub error_payload : ℕ → Text → List ℕ
error_payload status message = status ∷ message
