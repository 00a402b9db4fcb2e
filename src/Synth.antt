-- ===== src/Synth.antt =====
-- src/synth.rs: a request becomes a call of the model, and its samples a WAV. voxcpm_rs is a
-- parameter.
pub mod Load
use mii_sound.Common.{
  ◌≡◌, ◌⊎◌, inl, inr, refl, ℕ, Text, text, Bool, List, [], ◌∷◌, ◌++◌, Option, none, some, map,
  if◌then◌else◌,
}
use mii_sound.Io.{Parsed, good, bad}
use mii_sound.Proto.{TtsRequest}

pub data VoxError : Type 0 where
  vox_cancelled : VoxError
  vox_other : Text → VoxError

pub data VoxResult {ℓ} (A : Type ℓ) : Type ℓ where
  vox_ok : A → VoxResult A
  vox_err : VoxError → VoxResult A

pub VoxResult-cases {ℓ} :
    {A : Type ℓ} (r : VoxResult A) → ((a : A) × (r ≡ vox_ok a)) ⊎ ((e : VoxError) × (r ≡ vox_err e))
VoxResult-cases (vox_ok a) = inl (a, refl)
VoxResult-cases (vox_err e) = inr (e, refl)

-- `GenerateOptions`; `cancelled` tells whether the cancel token is flipped before the end.
pub record Options (Prompt : Type 0) : Type 0 where
  pub cfg : ℕ
  pub timesteps : ℕ
  pub prompt : Option Prompt
  pub cancelled : Bool

-- What the program uses of voxcpm_rs. A sample is the bit pattern of an f32.
pub record Vox : Type 1 where
  pub PromptAudio : Type 0
  pub Prompt : Type 0
  pub encoded : List ℕ → PromptAudio
  pub from_path : Text → PromptAudio
  pub reference : PromptAudio → Prompt
  pub continuation : PromptAudio → Text → Prompt
  pub default_prompt : Prompt
  pub sample_rate : ℕ
  pub generate : Text → Options Prompt → VoxResult (List ℕ)
  -- The items of the iterator.
  pub generate_stream : Text → Options Prompt → VoxResult (List (VoxResult (List ℕ)))
  -- `model.batch()`, `add` for each text, and `run`.
  pub run_batch : List (Text × Prompt) → Options Prompt → VoxResult (List (List ℕ))
  pub encode_wav : List ℕ → ℕ → Parsed (List ℕ)

pub data SynthError : Type 0 where
  cancelled : SynthError
  other : Text → SynthError

pub data Synth {ℓ} (A : Type ℓ) : Type ℓ where
  made : A → Synth A
  broke : SynthError → Synth A

pub record BatchItem : Type 0 where
  pub req : TtsRequest
  pub inline_audio : Option (List ℕ)

-- `Err(VoxError::Cancelled) => Cancelled, Err(e) => Other(what: e)`
abbrev pub of_vox : Text → VoxError → SynthError
of_vox what vox_cancelled = cancelled
of_vox what (vox_other e) = other (what ++ e)

module _ (vox : Vox) where
  open vox use {
    PromptAudio, Prompt, encoded, from_path, reference, continuation, default_prompt, sample_rate,
    generate, generate_stream, run_batch, encode_wav,
  }

  -- The audio of a prompt.
  unfoldable pub prompt_audio : TtsRequest → Option (List ℕ) → Parsed (Option PromptAudio)
  prompt_audio req inline_audio =
      if req.inline_reference
      then elim inline_audio [
        | some bytes ↦ good (some (encoded bytes))
        | none ↦ bad (text "inline reference flagged but no audio bytes received")
      ]
      else elim req.reference [ some path ↦ good (some (from_path path)) | none ↦ good none ]

  -- Without an audio there is no prompt, also if there is a continuation.
  unfoldable pub prompt_of : Option PromptAudio → Option Text → Option Prompt
  prompt_of none c = none
  prompt_of (some a) none = some (reference a)
  prompt_of (some a) (some t) = some (continuation a t)

  unfoldable pub build_prompt : TtsRequest → Option (List ℕ) → Parsed (Option Prompt)
  unfolding prompt_audio
  build_prompt req inline_audio = elim (prompt_audio req inline_audio) [
    | bad e ↦ bad e
    | good audio ↦ good (prompt_of audio req.continuation)
  ]

  abbrev options : TtsRequest → Option Prompt → Bool → Options Prompt
  options req prompt cancel = record {
    cfg = req.cfg;
    timesteps = req.steps;
    prompt = prompt;
    cancelled = cancel;
  }

  -- `audio::encode_wav(..).map_err(..)`
  unfoldable pub wav_of : List ℕ → Synth (List ℕ)
  wav_of samples = elim (encode_wav samples sample_rate) [
    | good bytes ↦ made bytes
    | bad e ↦ broke (other (text "encoding wav failed: " ++ e))
  ]

  unfoldable pub generate_wav : Text → Options Prompt → Synth (List ℕ)
  unfolding wav_of
  generate_wav t opts = elim (generate t opts) [
    | vox_err e ↦ broke (of_vox (text "generation failed: ") e)
    | vox_ok samples ↦ wav_of samples
  ]

  unfoldable pub synth_inner : TtsRequest → Option (List ℕ) → Bool → Synth (List ℕ)
  unfolding build_prompt generate_wav
  synth_inner req inline_audio cancel = elim (build_prompt req inline_audio) [
    | bad e ↦ broke (other e)
    | good prompt ↦ generate_wav req.text (options req prompt cancel)
  ]

  -- The chunks that go to `on_chunk`, and the result.
  unfoldable pub drain_stream : List (VoxResult (List ℕ)) → List (List ℕ) × Synth ℕ
  drain_stream [] = ([], made sample_rate)
  drain_stream (vox_ok samples ∷ items) =
      let (chunks, r) = drain_stream items in (samples ∷ chunks, r)
  drain_stream (vox_err e ∷ items) = ([], broke (of_vox (text "generation failed: ") e))

  -- An error of the start is `Other`, also if it is a cancellation; `error_text` is its text.
  unfoldable pub start_stream : (VoxError → Text) → Text → Options Prompt → List (List ℕ) × Synth ℕ
  unfolding drain_stream
  start_stream error_text t opts = elim (generate_stream t opts) [
    | vox_err e ↦ ([], broke (other (text "generation failed: " ++ error_text e)))
    | vox_ok items ↦ drain_stream items
  ]

  unfoldable pub synth_stream_inner :
      (VoxError → Text) → TtsRequest → Option (List ℕ) → Bool → List (List ℕ) × Synth ℕ
  unfolding build_prompt start_stream
  synth_stream_inner error_text req inline_audio cancel = elim (build_prompt req inline_audio) [
    | bad e ↦ ([], broke (other e))
    | good prompt ↦ start_stream error_text req.text (options req prompt cancel)
  ]

  abbrev pub or_default : Option Prompt → Prompt
  or_default none = default_prompt
  or_default (some p) = p

  -- The texts with their prompts; the first item that has no prompt for an error ends it.
  unfoldable pub batch_prompts : List BatchItem → Parsed (List (Text × Prompt))
  unfolding build_prompt
  batch_prompts [] = good []
  batch_prompts (item ∷ items) =
      let rest = batch_prompts items in
      elim (build_prompt item.req item.inline_audio) [
        | bad e ↦ bad e
        | good p ↦ elim rest [ bad e ↦ bad e | good ps ↦ good ((item.req.text, or_default p) ∷ ps) ]
      ]

  unfoldable pub run_prompts : List (Text × Prompt) → Options Prompt → Synth (List (Synth (List ℕ)))
  unfolding wav_of
  run_prompts prompts opts = elim (run_batch prompts opts) [
    | vox_err e ↦ broke (of_vox (text "batch generation failed: ") e)
    | vox_ok pcms ↦ made (map wav_of pcms)
  ]

  unfoldable pub synth_batch_inner : List BatchItem → Bool → Synth (List (Synth (List ℕ)))
  unfolding batch_prompts run_prompts
  synth_batch_inner [] cancel = made []
  synth_batch_inner (item ∷ items) cancel = elim (batch_prompts (item ∷ items)) [
    | bad e ↦ broke (other e)
    | good prompts ↦ run_prompts prompts (options item.req none cancel)
  ]
