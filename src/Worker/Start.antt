-- ===== src/Worker/Start.antt =====
-- `run` of src/worker.rs from its start: the model is loaded before the ready byte.
use mii_sound.Common.{ℕ, Text, List, Bool}
use mii_sound.Io.{ok, err}
use mii_sound.Io.Write.{Writer}
use mii_sound.Synth.{Vox}
use mii_sound.Synth.Load.{FromLocal, vox_of, load}
use mii_sound.Worker.{Env, Libs, run}

-- The loading of a model on each backend, and the other libraries.
pub record Loader : Type 1 where
  pub cpu_local : FromLocal
  pub gpu_local : FromLocal
  pub libs_of : Vox → Libs

-- An error of the load ends the process before it has written anything.
unfoldable pub start :
    Loader → (model_dir : Text) → (cpu : Bool) → List Env → List ℕ → Writer → List ℕ × Writer
start loader model_dir cpu envs stdin stdout =
    elim (load loader.cpu_local loader.gpu_local model_dir cpu) [
      | err e ↦ (stdin, stdout)
      | ok model ↦ run (loader.libs_of (vox_of model)) envs stdin stdout
    ]
