-- ===== src/Server/Relay/Requests.antt =====
-- The requests of src/server/relay.rs to the upstream server. The HTTP client that is generated
-- from `mii-sound.http` is a parameter.
use mii_sound.Common.{
  ℕ, Text, text, Bool, false, ◌||◌, ◌==◌, List, [], ◌∷◌, ◌++◌, Option, none, some, is_some,
  is_empty, bytes_eq, trim, trim_end_matches, starts_with, if◌then◌else◌,
}
use mii_sound.Proto.{st_bad_request, st_generation_failed, st_model_missing, TtsRequest}
use mii_sound.Server.Channel.{Sender, send}
use mii_sound.Server.Relay.{RelayError}
use mii_sound.Server.Relay.WavStream as Wav
use mii_sound.Server.Relay.WavStream.{Event, relay_wav_stream}
use mii_sound.Server.Engine.Stream.{error_frame}

-- What a call of the client or a helper gives.
pub data Outcome {ℓ} (E A : Type ℓ) : Type ℓ where
  success : A → Outcome E A
  failure : E → Outcome E A

pub data HttpError : Type 0 where
  unexpected_status : (status : ℕ) (body : Text) → HttpError
  other_error : Text → HttpError

-- `FilePart`: bytes with a name and a type, or the path of a file.
pub data FilePart : Type 0 where
  part_bytes : List ℕ → (file_name mime : Text) → FilePart
  part_path : Text → FilePart

-- The parameters of a query, and the object of a JSON body.
pub record Query : Type 0 where
  pub cfg : Option Text
  pub steps : Option ℕ

abbrev pub Object : Type 0
Object = List (Text × Text)

-- `RTtsCloneBody` and `RTtsCloneStreamBody`
pub record CloneBody : Type 0 where
  pub text : Text
  pub reference : FilePart

-- What the program uses of the client, with how it prints a status and an f32 (`{cfg:.4}`).
pub record Api : Type 0 where
  pub r_status : Outcome HttpError Text
  pub r_tts : Query → Object → Outcome HttpError (List ℕ)
  pub r_tts_stream : Query → Object → Outcome HttpError (List Event)
  pub r_tts_clone : Query → CloneBody → Outcome HttpError (List ℕ)
  pub r_tts_clone_stream : Query → CloneBody → Outcome HttpError (List Event)
  pub status_text : ℕ → Text
  pub fixed4 : ℕ → Text

unfoldable pub normalize_url : Text → Text
normalize_url input =
    let s = trim input in
    if starts_with (text "http://") s || starts_with (text "https://") s
    then s
    else text "http://" ++ s

unfoldable pub needs_clone : TtsRequest → Bool
needs_clone req = req.inline_reference || is_some req.reference

-- `format_cfg`, from the number with four decimals on.
unfoldable pub tidy : Text → Text
tidy s =
    let trimmed = trim_end_matches 0x2e (trim_end_matches 0x30 s) in
    if is_empty trimmed || bytes_eq trimmed (text "-") then text "0" else trimmed

unfoldable pub build_plain_body : TtsRequest → Object
build_plain_body req =
    (text "text", req.text)
    ∷ elim req.continuation [ some c ↦ (text "continuation", c) ∷ [] | none ↦ [] ]

unfoldable pub build_reference_part : TtsRequest → Option (List ℕ) → Outcome RelayError FilePart
build_reference_part req audio =
    if req.inline_reference
    then elim audio [
      | some bytes ↦ success (part_bytes bytes (text "reference.wav") (text "audio/wav"))
      | none ↦ failure (record {
        status = st_bad_request;
        message = text "inline reference flagged but no audio bytes received";
      })
    ]
    else elim req.reference [
      | some path ↦ success (part_path path)
      | none ↦ failure (record {
        status = st_bad_request;
        message = text "voice cloning request missing `reference`";
      })
    ]

-- `code == 401`, `400` and `503` of `map_http_err`.
unfoldable pub status_of : HttpError → ℕ
status_of (unexpected_status status body) =
    if status == 401
    then st_bad_request
    else if status == 400
    then st_bad_request
    else if status == 503
    then st_model_missing
    else st_generation_failed
status_of (other_error e) = st_generation_failed

-- Behind the translation: an error goes to the client.
unfoldable pub report : Wav.Relayed × Sender → Sender
report (Wav.relayed, out) = out
report (Wav.failed status message, out) = (send (error_frame status message) out).1

module _ (api : Api) where
  unfoldable pub format_cfg : ℕ → Text
  format_cfg cfg = tidy (api.fixed4 cfg)

  unfoldable pub http_err : HttpError → Text
  http_err (unexpected_status status body) =
      text "upstream returned " ++ (api.status_text status ++ (text ": " ++ body))
  http_err (other_error e) = e

  unfoldable pub map_http_err : HttpError → RelayError
  unfolding http_err status_of
  map_http_err e = record { status = status_of e; message = http_err e }

  -- `Relay::status`
  unfoldable pub status : Bool
  status = elim api.r_status [
    | success body ↦ bytes_eq (trim body) (text "running")
    | failure e ↦ false
  ]

  abbrev pub query : TtsRequest → Query
  query req = record { cfg = some (format_cfg req.cfg); steps = some req.steps }

  abbrev pub mapped : {A : Type 0} → Outcome HttpError A → Outcome RelayError A
  mapped (success a) = success a
  mapped (failure e) = failure (map_http_err e)

  unfoldable pub tts_plain : TtsRequest → Outcome RelayError (List ℕ)
  tts_plain req = mapped (api.r_tts (query req) (build_plain_body req))

  unfoldable pub tts_clone : TtsRequest → Option (List ℕ) → Outcome RelayError (List ℕ)
  tts_clone req audio = elim (build_reference_part req audio) [
    | failure e ↦ failure e
    | success reference ↦
        mapped (api.r_tts_clone (query req) (record { text = req.text; reference = reference }))
  ]

  -- `Relay::tts`
  unfoldable pub tts : TtsRequest → Option (List ℕ) → Outcome RelayError (List ℕ)
  unfolding tts_clone tts_plain
  tts req audio = if needs_clone req then tts_clone req audio else tts_plain req

  -- The upstream stream of `Relay::tts_stream`.
  unfoldable pub open_upstream : TtsRequest → Option (List ℕ) → Outcome RelayError (List Event)
  open_upstream req audio =
      if needs_clone req
      then elim (build_reference_part req audio) [
        | failure e ↦ failure e
        | success reference ↦
            mapped (
              api.r_tts_clone_stream (query req)
                (record { text = req.text; reference = reference }))
      ]
      else mapped (api.r_tts_stream (query req) (build_plain_body req))

  unfoldable pub tts_stream : TtsRequest → Option (List ℕ) → Sender → Sender
  unfolding open_upstream report
  tts_stream req audio out = elim (open_upstream req audio) [
    | failure e ↦ (send (error_frame e.status e.message) out).1
    | success events ↦ report (relay_wav_stream events out)
  ]
