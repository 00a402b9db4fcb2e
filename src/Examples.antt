-- ===== src/Examples.antt =====
-- Concrete messages, streams and queues, with the theorems applied to them.
pub mod Wire
pub mod Client
pub mod Server
pub mod Worker
pub mod Connection
pub mod System
pub mod Wakeup
pub mod Serve
pub mod Turns
pub mod Queued
pub mod EndToEnd
pub mod Relay
pub mod Streaming
pub mod Network
pub mod Missing
