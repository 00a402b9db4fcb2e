-- ===== src/Synth/Load.antt =====
-- The two backends of src/synth.rs. The model of a backend is voxcpm_rs over it.
use mii_sound.Common.{ℕ, ◌≡◌, refl, Text, text, Bool, true, false, List, ◌++◌, Option}
use mii_sound.Io.{Result, ok, err, msg, Parsed, good, bad}
use mii_sound.Proto.{TtsRequest}
use mii_sound.Synth.{
  Vox, VoxError, Synth, BatchItem, synth_inner, synth_batch_inner, synth_stream_inner,
}

pub data Model : Type 1 where
  cpu_model : Vox → Model
  gpu_model : Vox → Model

abbrev pub vox_of : Model → Vox
vox_of (cpu_model m) = m
vox_of (gpu_model m) = m

unfoldable pub sample_rate : Model → ℕ
sample_rate (cpu_model m) = m.sample_rate
sample_rate (gpu_model m) = m.sample_rate

-- `VoxCPM::from_local` of a backend, with the text of its error.
abbrev pub FromLocal : Type 1
FromLocal = Text → Parsed Vox

abbrev loaded : (Vox → Model) → Text → Parsed Vox → Result Model
loaded backend model_dir (good m) = ok (backend m)
loaded backend model_dir (bad e) =
    err (msg (text "failed to load tts model from " ++ (model_dir ++ (text ": " ++ e))))

unfoldable pub load_gpu : FromLocal → Text → Result Model
load_gpu from_local model_dir = loaded gpu_model model_dir (from_local model_dir)

unfoldable pub load :
    (cpu_local gpu_local : FromLocal) → (model_dir : Text) → (cpu : Bool) → Result Model
unfolding load_gpu
load cpu_local gpu_local model_dir true = loaded cpu_model model_dir (cpu_local model_dir)
load cpu_local gpu_local model_dir false = load_gpu gpu_local model_dir

unfoldable pub synthesize : Model → TtsRequest → Option (List ℕ) → Bool → Synth (List ℕ)
synthesize (cpu_model m) = synth_inner m
synthesize (gpu_model m) = synth_inner m

unfoldable pub synthesize_batch : Model → List BatchItem → Bool → Synth (List (Synth (List ℕ)))
synthesize_batch (cpu_model m) = synth_batch_inner m
synthesize_batch (gpu_model m) = synth_batch_inner m

unfoldable pub synthesize_stream :
    Model → (VoxError → Text) → TtsRequest → Option (List ℕ) → Bool → List (List ℕ) × Synth ℕ
synthesize_stream (cpu_model m) = synth_stream_inner m
synthesize_stream (gpu_model m) = synth_stream_inner m

-- Both backends run the same code, so the worker has its model as a `Vox`.
pub synthesize-vox_of : (m : Model) → synthesize m ≡ synth_inner (vox_of m)
unfolding synthesize
synthesize-vox_of (cpu_model m) = refl
synthesize-vox_of (gpu_model m) = refl
