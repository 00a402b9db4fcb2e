-- ===== src/Examples/Wire.antt =====
-- Messages of the protocol.
use mii_sound.Common.{
  ℕ, suc, length-replicate, ◌≡◌, arith, text, List, [], ◌∷◌, ◌++◌, none, some, length, replicate,
}
use mii_sound.Io.{ok}
use mii_sound.Io.Write.{Writer}
use mii_sound.Proto.{
  op_tts, max_json, st_ok, st_generation_failed, kind_chunk, Request, BatchItem, Response,
  StreamFrame,
}
use mii_sound.Proto.Read.{read_request, read_response}
use mii_sound.Proto.Wire.{encode_request, encode_response, blob}
use mii_sound.Proto.Blobs.{received}
use mii_sound.Proto.RoundTrip.{Fits, read_request-encode, read_response-encode}
use mii_sound.Proto.Strict.{read_request-eq_ok}

-- A request with an inline audio, and one with an empty audio.
abbrev cloned : Request
cloned = record { op = op_tts; json = text "{\"text\":\"hi\"}"; audio = some (1 ∷ 2 ∷ 3 ∷ []) }

abbrev plain : Request
plain = record { op = op_tts; json = text "{}"; audio = some [] }

abbrev items : List BatchItem
items =
    record { json = text "{}"; audio = none }
    ∷ record { json = text "[1]"; audio = some (7 ∷ []) }
    ∷ []

abbrev resps : List Response
resps =
    record { status = st_ok; payload = 1 ∷ 2 ∷ [] }
    ∷ record { status = st_generation_failed; payload = text "no" }
    ∷ []

abbrev frame : StreamFrame
frame = record { kind = kind_chunk; payload = 0 ∷ 0 ∷ 0x80 ∷ 0x3f ∷ [] }

abbrev pipe : Writer
pipe = record { sent = 9 ∷ []; room = 12 }

unfoldable long_json : List ℕ
long_json = replicate (suc max_json) 32

abbrev oversize : Request
oversize = record { op = op_tts; json = long_json; audio = none }

read_request-encode_example :
    read_request (encode_request cloned ++ 5 ∷ [])
    ≡ ok (record cloned { audio = received cloned.audio }, 5 ∷ [])
unfolding text
read_request-encode_example =
    read_request-encode cloned (5 ∷ [])
      (record { json_fits = omega arith; audio_fits = omega arith })

read_response-encode_example :
    read_response (encode_response (record { status = st_ok; payload = 1 ∷ 2 ∷ [] }) ++ [])
    ≡ ok (record { status = st_ok; payload = 1 ∷ 2 ∷ [] }, [])
read_response-encode_example =
    read_response-encode (record { status = st_ok; payload = 1 ∷ 2 ∷ [] }) [] (omega arith)

read_request-eq_ok_example :
    (encode_request plain ++ 5 ∷ [] ≡ encode_request (record plain { audio = none }) ++ 5 ∷ [])
    × Fits plain.json none
    × (received none ≡ none)
unfolding encode_request text blob
read_request-eq_ok_example =
    read_request-eq_ok (encode_request plain ++ 5 ∷ []) (record plain { audio = none }) (5 ∷ [])
      (
        omega arith,
        (
          omega arith,
          (
            omega arith,
            (
              omega arith,
              (
                omega arith,
                (
                  omega arith,
                  (
                    omega arith,
                    (
                      omega arith,
                      (omega arith, (omega arith, (omega arith, (omega arith, (omega arith, tt))))),
                    ),
                  ),
                ),
              ),
            ),
          ),
        ),
      )
      (read_request-encode plain (5 ∷ [])
        (record { json_fits = omega arith; audio_fits = omega arith }))

length-long_json : length long_json ≡ suc max_json
unfolding long_json
length-long_json = length-replicate {A = ℕ} (suc max_json) 32
