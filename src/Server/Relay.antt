-- ===== src/Server/Relay.antt =====
-- src/server/relay.rs: relay mode. The HTTP client that is generated from `mii-sound.http` is a
-- parameter of what calls it.
pub mod WavStream
pub mod Chunks
pub mod Body
pub mod Translate
pub mod Requests
pub mod Setup
pub mod Passed
pub mod Finish
pub mod Cfg
use mii_sound.Common.{ℕ, Text, text, List}

-- `RelayError`, and `(u8, String)` of the stream translation.
pub record RelayError : Type 0 where
  pub status : ℕ
  pub message : Text
