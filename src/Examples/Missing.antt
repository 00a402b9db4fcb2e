-- ===== src/Examples/Missing.antt =====
-- A server whose model cannot be loaded.
use mii_sound.Common.{refl, text, true, false, List, [], ◌∷◌, none, some}
use mii_sound.Io.{ok, err, msg, bad}
use mii_sound.Client.Tts as Tts
use mii_sound.Client.Tts.{deliver}
use mii_sound.Client.Sink.{to_stdout}
use mii_sound.Synth.Load.{load}
use mii_sound.Worker.Start.{Loader, start}
use mii_sound.Server.Engine.{PendingItem, Engine, Child, new}
use mii_sound.Server.Engine.Dispatch.{Env, dispatch_batch}
use mii_sound.EndToEnd.{fresh}
use mii_sound.EndToEnd.Missing.{Unready, not_ready, load-model_not_found}
use mii_sound.Examples.Worker.{libs, calm}

abbrev loader : Loader
loader = record {
  cpu_local = λ dir. bad (text "no config.json");
  gpu_local = λ dir. bad (text "no device");
  libs_of = λ vox. record libs { vox = vox };
}

abbrev child : Child
child = record {
  pid = some 77;
  stdin = fresh 100;
  stdout = (start loader (text "model") true (calm ∷ []) [] (fresh 100)).1.sent;
  exited = some (text "exit status: 5");
}

abbrev env : Env
env = record { now = 500; child = ok child; gone = λ t. false; fault_text = λ f. text "early eof" }

abbrev engine : Engine
engine = new 60000 1 0

abbrev batch : List PendingItem
batch =
    record { json = text "{}"; audio = none; key = record { cfg_bits = 1; steps = 2 }; ticket = 1 }
    ∷ []

abbrev client : Tts.Env
client = record {
  stdin = ok [];
  connected = err (msg (text "unused"));
  sink = ok (to_stdout (fresh 100) false);
  out_path = none;
  output = fresh 100;
  fault_text = λ f. text "fault";
}

load-model_not_found_example :
    Unready client (not_ready env) batch engine (dispatch_batch env batch engine)
unfolding load new text
load-model_not_found_example =
    load-model_not_found loader (text "model") true (calm ∷ []) [] 100
      (msg (text "failed to load tts model from model: no config.json")) env child 77 batch engine
      client refl refl refl refl refl
