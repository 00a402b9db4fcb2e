-- ===== src/Client/Sink.antt =====
-- `StreamSink` and `stream_exchange` of src/client/mod.rs: stream frames become a WAV on stdout or
-- in a file.
pub mod Frames
pub mod Output
pub mod Streams
use mii_sound.Common.{
  ℕ, zero, suc, ◌+◌, ◌-◌, ◌%◌, ◌^◌, ◌≤◌, Text, text, decimal, Bool, true, false, not, List, [], ◌∷◌,
  ◌++◌, ltb, ◌==◌, if◌then◌else◌, length, take, drop, as_u32, u32_max, Option, none, some,
}
use mii_sound.Io.{Result, ok, err, Error, fault, broken_pipe, msg, msg_of}
use mii_sound.Io.Write.{Writer, write_all, flush}
use mii_sound.Proto.{
  kind_header, kind_chunk, kind_end, kind_error, st_unknown, StreamFrame, Request,
}
use mii_sound.Proto.Read.{read_stream_frame, parse_header_payload, parse_error_payload}
use mii_sound.Proto.Write.{write_request}
use mii_sound.Client.Wav.{wav_header, samples_f32_le_to_pcm16, saturating_add}

-- An open file: its bytes, the position of the next write, and how much the disk still takes.
pub record File : Type 0 where
  pub content : List ℕ
  pub position : ℕ
  pub room : ℕ

unfoldable pub overwrite : ℕ → List ℕ → List ℕ → List ℕ
overwrite position bs content = take position content ++ (bs ++ drop (position + length bs) content)

-- A disk that is full has taken a part of the bytes.
unfoldable pub write_file : List ℕ → File → Result (Unit {0}) × File
unfolding overwrite
write_file bs f =
    if ltb f.room (length bs)
    then (
      err (fault broken_pipe),
      record f { content = overwrite f.position (take f.room bs) f.content; room = 0 },
    )
    else (
      ok tt,
      record {
        content = overwrite f.position bs f.content;
        position = f.position + length bs;
        room = f.room - length bs;
      },
    )

-- `seek(SeekFrom::Start(0))`
abbrev pub rewind : File → File
rewind f = record f { position = 0 }

-- The path is left out: only messages name it.
pub data StreamSink : Type 0 where
  to_stdout : (out : Writer) (header_written : Bool) → StreamSink
  to_file : (file : File) (bytes_written : ℕ) (header_written : Bool) (sample_rate : ℕ) → StreamSink

-- A method returns its result and the sink that it leaves.
unfoldable pub write_header : ℕ → StreamSink → Result (Unit {0}) × StreamSink
write_header sample_rate (to_stdout out true) =
    (err (msg (text "duplicate stream header frame")), to_stdout out true)
write_header sample_rate (to_stdout out false) =
    let (r, out') = write_all (wav_header sample_rate u32_max) out in
    elim r [ ok _ ↦ (ok tt, to_stdout out' true) | err e ↦ (err e, to_stdout out' false) ]
write_header sample_rate (to_file file n true sr) =
    (err (msg (text "duplicate stream header frame")), to_file file n true sr)
write_header sample_rate (to_file file n false sr) =
    let (r, file') = write_file (wav_header sample_rate 0) file in
    elim r [
      | ok _ ↦ (ok tt, to_file file' n true sample_rate)
      | err e ↦ (err e, to_file file' n false sr)
    ]

-- `write_samples` after the conversion of the payload.
unfoldable pub write_pcm : List ℕ → StreamSink → Result (Unit {0}) × StreamSink
write_pcm pcm (to_stdout out false) =
    (err (msg (text "chunk frame received before header frame")), to_stdout out false)
write_pcm pcm (to_stdout out true) = let (r, out') = write_all pcm out in (r, to_stdout out' true)
write_pcm pcm (to_file file n false sr) =
    (err (msg (text "chunk frame received before header frame")), to_file file n false sr)
write_pcm pcm (to_file file n true sr) =
    let (r, file') = write_file pcm file in
    elim r [
      | ok _ ↦ (ok tt, to_file file' (saturating_add n (as_u32 (length pcm))) true sr)
      | err e ↦ (err e, to_file file' n true sr)
    ]

unfoldable pub write_samples : List ℕ → StreamSink → Result (Unit {0}) × StreamSink
unfolding write_pcm
write_samples payload sink = elim (samples_f32_le_to_pcm16 payload) [
  | ok pcm ↦ write_pcm pcm sink
  | err e ↦ (err e, sink)
]

unfoldable pub finalize : StreamSink → Result (Unit {0}) × StreamSink
finalize (to_stdout out h) = (ok tt, to_stdout out h)
finalize (to_file file n false sr) = (ok tt, to_file file n false sr)
finalize (to_file file n true sr) =
    let (r, file') = write_file (wav_header sr n) (rewind file) in (r, to_file file' n true sr)

-- What `stream_exchange` returns; `waiting` is no value of the program: the fuel ran out.
pub data Outcome : Type 0 where
  finished : Outcome
  failed : ℕ → Error → Outcome
  waiting : Outcome

-- One frame: the loop goes on with the sink, or it ends.
pub data Next : Type 0 where
  more : StreamSink → Next
  stop : Outcome → StreamSink → Next

-- `.map_err(|e| (ST_UNKNOWN, e.to_string()))?`, and then what the arm does.
abbrev or_fail : (StreamSink → Next) → Result (Unit {0}) × StreamSink → Next
or_fail then_do (ok _, sink) = then_do sink
or_fail then_do (err e, sink) = stop (failed st_unknown e) sink

unfoldable pub on_header : List ℕ → StreamSink → Next
on_header payload sink = elim (parse_header_payload payload) [
  | ok sr ↦ or_fail more (write_header sr sink)
  | err e ↦ stop (failed st_unknown e) sink
]

unfoldable pub on_error : List ℕ → StreamSink → Next
on_error payload sink =
    let (status, message) = parse_error_payload payload in stop (failed status (msg message)) sink

-- `match frame.kind`
unfoldable pub on_frame : StreamFrame → StreamSink → Next
unfolding on_header on_error
on_frame frame sink =
    if frame.kind == kind_header
    then on_header frame.payload sink
    else if frame.kind == kind_chunk
    then or_fail more (write_samples frame.payload sink)
    else if frame.kind == kind_end
    then or_fail (stop finished) (finalize sink)
    else if frame.kind == kind_error
    then on_error frame.payload sink
    else stop (failed st_unknown (msg (text "unknown stream frame kind " ++ decimal frame.kind)))
        sink

-- The loop over the bytes that the server sends. A frame takes five bytes at least.
unfoldable pub frame_loop : ℕ → List ℕ → StreamSink → Outcome × StreamSink
frame_loop zero s sink = (waiting, sink)
frame_loop (suc fuel) s sink = elim (read_stream_frame s) [
  | err e ↦ (failed st_unknown (msg_of (text "read stream frame: ") e), sink)
  | ok (frame, rest) ↦ elim (on_frame frame sink) [
    | more sink' ↦ frame_loop fuel rest sink'
    | stop outcome sink' ↦ (outcome, sink')
  ]
]

-- `out` is the sink on stdout, or the file if it could be created. The result also has what was
-- written to the server.
unfoldable pub stream_exchange :
    Request
    → Result StreamSink
    → (incoming : List ℕ) → Writer
    → (Outcome × Option StreamSink) × Writer
stream_exchange req out incoming conn =
    let (r, conn') = write_request req conn in
    elim r [
      | err e ↦ ((failed st_unknown (msg_of (text "write request: ") e), none), conn')
      | ok _ ↦ elim out [
        | err e ↦ ((failed st_unknown e, none), conn')
        | ok sink ↦
            let (outcome, sink') = frame_loop (suc (length incoming)) incoming sink in
            ((outcome, some sink'), conn')
      ]
    ]
