-- ===== src/Proto/Read.antt =====
-- The readers of src/proto.rs.
use mii_sound.Common.{
  ℕ, zero, suc, Text, text, decimal, List, [], ◌∷◌, ◌++◌, Option, none, some, ltb, ◌==◌, not,
  if◌then◌else◌, of_le4, length,
}
use mii_sound.Io.{Result, ok, err, Error, fault, invalid_utf8, msg, msg_of}
use mii_sound.Io.Read.{Reader, ◌>>=◌, return, bail, read_u8, read_u32_le, read_exact}
use mii_sound.Common.Utf8.{from_utf8, from_utf8_lossy}
use mii_sound.Proto.{
  proto_version, st_unknown, max_json, max_audio, max_payload, max_token, max_batch, Request,
  Response, BatchItem, StreamFrame,
}

-- The length that stands before a payload; one past the limit is refused with the text `what`.
unfoldable pub read_len : ℕ → Text → Reader ℕ
read_len limit what = do
  len ← read_u32_le
  if ltb limit len then bail (msg (what ++ decimal len)) else return len

-- A payload that is read whole, also if it is empty.
unfoldable pub read_json : Text → Reader (List ℕ)
unfolding read_len
read_json what = do len ← read_len max_json what; read_exact len

-- The inline audio: an empty one is none.
unfoldable pub read_audio : Text → Reader (Option (List ℕ))
unfolding read_len
read_audio what = do
  len ← read_len max_audio what
  if len == 0 then return none else (do buf ← read_exact len; return (some buf))

-- A payload that is not read if it is empty.
unfoldable pub read_payload : Text → Reader (List ℕ)
unfolding read_len
read_payload what = do
  len ← read_len max_payload what
  if ltb 0 len then read_exact len else return []

unfoldable pub read_token : Reader Text
read_token = do
  len ← read_u32_le
  if ltb max_token len then bail (msg (text "token frame too large")) else (do
    buf ← read_exact len
    elim (from_utf8 buf) [
      | some t ↦ return t
      | none ↦ bail (msg_of (text "token not utf-8: ") (fault invalid_utf8))
    ])

map_err : {A : Type 0} → (Error → Error) → Reader A → Reader A
map_err f m s = elim (m s) [ ok r ↦ ok r | err e ↦ err (f e) ]

unfoldable pub read_op : Reader ℕ
unfolding map_err
read_op = do
  version ← read_u8
  if not (version == proto_version)
      then bail (msg (text "unsupported protocol version " ++ decimal version))
      else map_err (msg_of (text "reading op: ")) read_u8

unfoldable pub read_request_body : ℕ → Reader Request
read_request_body op = do
  json ← read_json (text "json frame too large: ")
  audio ← read_audio (text "audio frame too large: ")
  return (record { op = op; json = json; audio = audio })

unfoldable pub read_request : Reader Request
read_request = do op ← read_op; read_request_body op

unfoldable pub read_batch_item : Reader BatchItem
read_batch_item = do
  json ← read_json (text "batch json frame too large: ")
  audio ← read_audio (text "batch audio frame too large: ")
  return (record { json = json; audio = audio })

-- `for _ in 0..count { items.push(…) }`, over any reader of one item.
unfoldable pub read_count : {A : Type 0} → ℕ → Reader A → Reader (List A)
read_count zero item = return []
read_count (suc n) item = do x ← item; xs ← read_count n item; return (x ∷ xs)

unfoldable pub read_batch_request_body : Reader (List BatchItem)
read_batch_request_body = do
  count ← read_u32_le
  if ltb max_batch count
      then bail (msg (text "batch frame too large: " ++ decimal count))
      else read_count count read_batch_item

unfoldable pub read_response_frame : Text → Reader Response
read_response_frame what = do
  status ← read_u8
  payload ← read_payload what
  return (record { status = status; payload = payload })

unfoldable pub read_batch_response : Reader (List Response)
read_batch_response = do
  count ← read_u32_le
  if ltb max_batch count
      then bail (msg (text "batch response too large: " ++ decimal count))
      else read_count count (read_response_frame (text "batch response payload too large: "))

unfoldable pub read_response : Reader Response
read_response = read_response_frame (text "response payload too large: ")

unfoldable pub read_stream_frame : Reader StreamFrame
read_stream_frame = do
  kind ← read_u8
  payload ← read_payload (text "stream frame too large: ")
  return (record { kind = kind; payload = payload })

unfoldable pub parse_header_payload : List ℕ → Result ℕ
parse_header_payload (a ∷ b ∷ c ∷ d ∷ []) = ok (of_le4 a b c d)
parse_header_payload p =
    err (msg (text "invalid header frame payload length: " ++ decimal (length p)))

unfoldable pub parse_error_payload : List ℕ → ℕ × Text
parse_error_payload [] = (st_unknown, [])
parse_error_payload (status ∷ rest) = (status, from_utf8_lossy rest)
