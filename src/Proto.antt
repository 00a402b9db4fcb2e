-- ===== src/Proto.antt =====
-- src/proto.rs: the wire protocol between client, server and worker. This file has the constants
-- and the messages; the children read them, write them, and relate the two.
pub mod Read
pub mod Write
pub mod Wire
pub mod Blobs
pub mod RoundTrip
pub mod Strict
use mii_sound.Common.{ℕ, Text, List, Option, Bool, ◌*◌}

abbrev pub proto_version : ℕ
proto_version = 1

-- Operations.
abbrev pub op_tts : ℕ
op_tts = 1

abbrev pub op_status : ℕ
op_status = 2

abbrev pub op_tts_stream : ℕ
op_tts_stream = 3

abbrev pub op_tts_batch : ℕ
op_tts_batch = 4

-- Status bytes.
abbrev pub st_ok : ℕ
st_ok = 0

abbrev pub st_model_missing : ℕ
st_model_missing = 2

abbrev pub st_generation_failed : ℕ
st_generation_failed = 3

abbrev pub st_bad_request : ℕ
st_bad_request = 4

abbrev pub st_unknown : ℕ
st_unknown = 5

-- Kinds of stream frames.
abbrev pub kind_header : ℕ
kind_header = 0

abbrev pub kind_chunk : ℕ
kind_chunk = 1

abbrev pub kind_end : ℕ
kind_end = 2

abbrev pub kind_error : ℕ
kind_error = 3

-- Limits on what is read.
abbrev pub max_json : ℕ
max_json = 1024 * 1024

abbrev pub max_audio : ℕ
max_audio = 256 * 1024 * 1024

abbrev pub max_payload : ℕ
max_payload = 512 * 1024 * 1024

abbrev pub max_token : ℕ
max_token = 4096

abbrev pub max_batch : ℕ
max_batch = 1024

-- `cfg` is the bit pattern of the f32.
pub record TtsRequest : Type 0 where
  pub text : Text
  pub reference : Option Text
  pub continuation : Option Text
  pub cfg : ℕ
  pub steps : ℕ
  pub inline_reference : Bool

pub record Request : Type 0 where
  pub op : ℕ
  pub json : List ℕ
  pub audio : Option (List ℕ)

pub record Response : Type 0 where
  pub status : ℕ
  pub payload : List ℕ

pub record BatchItem : Type 0 where
  pub json : List ℕ
  pub audio : Option (List ℕ)

pub record StreamFrame : Type 0 where
  pub kind : ℕ
  pub payload : List ℕ
