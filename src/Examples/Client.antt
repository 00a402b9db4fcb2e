-- ===== src/Examples/Client.antt =====
-- Runs of the client.
use mii_sound.Common.{
  is_blank, bytes_eq, ℕ, refl, arith, text, List, [], ◌∷◌, none, some, true, false,
}
use mii_sound.Io.Write.{Writer}
use mii_sound.Proto.{op_tts_stream, Request}
use mii_sound.Client.Sink.{to_stdout, frame_loop}
use mii_sound.Client.Sink.Frames.{IsOver, frame_loop-IsOver}
use mii_sound.Client.Session.{Ending, fail_bad_request}
use mii_sound.Client.Tts.{is_inline, UserReq, TtsArgs, merge, is_inline}
use mii_sound.Client.Tts.Laws.{Rules, wire_of, audio_of, merge-continue}

abbrev request : Request
request = record { op = op_tts_stream; json = text "{}"; audio = none }

-- The samples 1.0 and -1.0, and 0.0.
abbrev chunks : List (List ℕ)
chunks = (0 ∷ 0 ∷ 0x80 ∷ 0x3f ∷ 0 ∷ 0 ∷ 0x80 ∷ 0xbf ∷ []) ∷ (0 ∷ 0 ∷ 0 ∷ 0 ∷ []) ∷ []

abbrev conn : Writer
conn = record { sent = []; room = 100 }

abbrev stdout : Writer
stdout = record { sent = []; room = 100 }

frame_loop-IsOver_example : IsOver (frame_loop 4 (9 ∷ 0 ∷ 0 ∷ []) (to_stdout stdout false)).0
frame_loop-IsOver_example =
    frame_loop-IsOver 4 (9 ∷ 0 ∷ 0 ∷ []) (to_stdout stdout false) (omega arith)

abbrev args : TtsArgs
args = record { json = none; voice_clone = true; cfg = 0x40000000; steps = 10; stream = false }

abbrev user : UserReq
user = record { text = text "hi"; reference = some (text "<>"); continuation = none }

merge-continue_example : Rules args user (82 ∷ [])
unfolding merge is_inline is_blank text bytes_eq
merge-continue_example =
    merge-continue args user (82 ∷ []) (wire_of args user, audio_of user (82 ∷ [])) refl

abbrev refused : Ending
refused =
    fail_bad_request (text "`reference` is `<>` but no audio bytes followed the JSON on stdin")
