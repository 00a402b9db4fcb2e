-- ===== src/Client.antt =====
-- src/client/: the client side.
pub mod Wav
pub mod Sink
pub mod Session
pub mod Tts
