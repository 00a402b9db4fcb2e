-- ===== src/Lib.antt =====
-- mii-sound: a text-to-speech program. One binary is the server, the client and the worker that
-- owns the model; they talk over byte streams in one wire protocol.
--
-- Parts, and the files that model them:
-- * The wire protocol, src/proto.rs: Proto (constants and messages), Proto/Read (read_request,
--   read_batch_request_body, read_batch_response, read_stream_frame, ...) and Proto/Write. Proto/Wire
--   describes the format as lists of bytes, independently of the code; Proto/RoundTrip and
--   Proto/Strict relate the readers to it, and Wire the writers.
-- * The exit codes, src/exit.rs: Exit.
-- * The client, src/client/: Client/Session is the connection, one request with its response and
--   the status probe of mod.rs, Client/Wav the WAV header and the conversion of samples, Client/Sink
--   the sink of a streamed WAV and the frame loop of `stream_exchange`, Client/Tts the command `tts`
--   of tts.rs.
-- * The engine, src/server/tts.rs: Server/Engine has its state, the start of a worker and the
--   eviction; Server/Engine/Queue the queue and the choice of a batch in `dispatcher_loop`,
--   Server/Engine/Dispatch `dispatch_batch`, Server/Engine/Stream `stream_relay`. Server/Engine/System
--   has all tasks of the engine at once, as steps in any order, System/Rounds the rounds of
--   `dispatcher_loop`, one after the other, and Server/Engine/Promise what those who wait in `generate`
--   see of it; Server/Engine/Paths puts steps in a row, also those of a round.
--   Server/Engine/Wakeup has the phases of the dispatcher and the notices
--   (`queue_notify`) that end its sleep.
-- * The connections of the server, src/server/mod.rs: Server/Connection has the token check of
--   `handle`, `dispatch`, `dispatch_relay` and the two stream handlers, Connection/Turns the watchers
--   of clients and the loop of `handle_stream_relay` turn by turn, Connection/Cancel the counter by
--   which a batch without clients is cancelled.
-- * The worker, src/worker.rs: Worker has its loop and its three handlers, Worker/Slot the slot of
--   its cancel token with the task that handles SIGUSR1, Worker/Start the load before the ready
--   byte; Synth the calls of the model in src/synth.rs, and Synth/Load its two backends.
-- * The relay, src/server/relay.rs: Server/Relay/WavStream turns the chunks of an upstream WAV into
--   stream frames (`relay_wav_stream`), Server/Relay/Requests chooses the endpoint and builds what is
--   sent to it (`Relay::tts`, `Relay::tts_stream`, `map_http_err`, `format_cfg`), Server/Relay/Setup
--   is `Relay::new`.
-- * The command line and the start, src/cli.rs, src/main.rs and src/transport.rs: Start (the options,
--   `main`), Start/Transport (`resolve_name`, `token_from_env`), Start/Configure, the set-up in
--   `run` of src/server/mod.rs, Start/Upstream the relay that it sets up, and Start/Serve its accept
--   loops and its end.
-- * EndToEnd puts a client and a server on one connection: what one writes, the other reads;
--   EndToEnd/Streaming has also the engine and the worker behind the server, EndToEnd/Queued a request
--   that waits in the engine for its connection, and EndToEnd/Missing a worker that cannot load its
--   model.
-- Examples applies the theorems to concrete messages, queues and streams.
--
-- How the code is read:
-- * A byte is a number, a text is the list of its UTF-8 bytes, an f32 its bit pattern: Common/F32 has
--   the two conversions between f32 and i16, bit by bit, and Common/Utf8 the checks of std.
-- * An incoming stream is the list of the bytes that arrive until the peer hangs up: a reader is a
--   function to a value with the bytes that are left, or an error (Io/Read). An outgoing stream takes
--   a number of bytes before it fails (Io/Write), so a write that breaks off is part of every writer.
-- * A channel of frames is what its receiver takes before it is gone (Server/Channel). A file has its
--   bytes, a position and the room that the disk has left.
-- * The engine is a state that the functions pass on: the locks and the notifications of tokio make
--   the steps atomic, and what other tasks do meanwhile is an argument: the arrivals in each part of
--   the grace window, and the clients that drop their connection while the worker is busy. A reply
--   is a pair of a ticket and a result.
-- * For the engine a worker process is its two pipes and whether it has exited; what it writes is an
--   argument there. Worker says what the process writes, and Worker/Refines joins the two sides.
-- * A cancel notice of a stream arrives behind a number of frames, with a number of bytes of the next
--   frame read: `tokio::select!` drops that read. A panic of the model poisons its mutex, which is
--   the state of the worker.
-- * serde_json is the parameter `json` of Client/Tts and the field `from_slice` of the libraries of
--   Worker; voxcpm_rs is the record `Vox`; the HTTP client of the relay, which is generated, is the
--   record `Api`. The texts of errors of tokio are a parameter.
-- * A client of a relay waits for a number of frames, and is gone then: `waits` of Server/Connection,
--   which Connection/Turns counts in a sequence of reads and frames.
-- * `tokio::sync::Notify` is the record `Notify` of Server/Engine/Wakeup, a
--   parameter: a notice that comes before the wait is kept for it.
-- * Arithmetic on u32 wraps or saturates as written in the source; lengths are cast with `% 2 ^ 32`.
--
-- Fuel: the frame loops of the client and of `stream_relay` take one round for each byte that
-- arrives, and one more. A frame takes five bytes at least, so this is enough. The loop of the
-- worker takes what happens during each request from a list; every other loop recurs on its list.
--
-- Not modelled: how clap reads the command line, how sockets are bound, logging, and the calls of
-- the system that start, signal and end the process of the worker in src/server/tts.rs: what was
-- started, which signals were sent and whether the process has exited are data. A connection meets
-- the answers of the engine as arguments, but for EndToEnd/Streaming and EndToEnd/Queued. The order in which two tasks
-- get a lock, and `select!` its branches, is any order. Whether a signal meets a request is an
-- argument of the handlers of the worker.
pub mod Common
pub mod Io
pub mod Exit
pub mod Proto
pub mod Client
pub mod Synth
pub mod Worker
pub mod Server
pub mod Start
pub mod EndToEnd
pub mod Examples
