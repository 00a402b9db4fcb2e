-- ===== src/Examples/Connection.antt =====
-- What a connection sends.
use mii_sound.Common.{◌≡◌, refl, text, List, [], ◌∷◌, inr}
use mii_sound.Common.Utf8.{from_utf8}
use mii_sound.Proto.{st_generation_failed, kind_chunk, Response, StreamFrame}
use mii_sound.Proto.Wire.{encode_all, encode_stream_frame}
use mii_sound.Io.Write.{Writes}
use mii_sound.Server.Engine.Dispatch.{result_of}
use mii_sound.Server.Connection.{reply_of, forward_frames}
use mii_sound.Server.Connection.Replies.{
  delivered, Complete, forward_frames-Complete, reply_of-result_of,
}

abbrev frames : List StreamFrame
frames = record { kind = kind_chunk; payload = 1 ∷ 2 ∷ 3 ∷ 4 ∷ [] } ∷ []

forward_frames-Complete_example :
    (Writes
      (forward_frames (text "cut") frames)
      (encode_all encode_stream_frame (delivered (text "cut") frames)))
    × Complete (delivered (text "cut") frames)
forward_frames-Complete_example = forward_frames-Complete (text "cut") frames

abbrev broken : Response
broken = record { status = st_generation_failed; payload = text "no" }

reply_of-result_of_example : reply_of (result_of broken) ≡ broken
unfolding from_utf8 text
reply_of-result_of_example = reply_of-result_of broken (inr (inr refl, refl))
