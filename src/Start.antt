-- ===== src/Start.antt =====
-- src/cli.rs and src/main.rs: the command line, and what runs for it. clap reads the command line,
-- and humantime the durations, which are in nanoseconds here.
pub mod Transport
pub mod Configure
pub mod Upstream
pub mod Serve
pub mod Laws
pub mod Codes
use mii_sound.Common.{ℕ, Text, text, Bool, ◌++◌, Option, none, some, if◌then◌else◌, []}
use mii_sound.Exit
use mii_sound.Io.{Result, ok, err, Error, Parsed, good, bad}
use mii_sound.Client.Session.{Conn, Ending, line, run_status}
use mii_sound.Client.Tts as Tts
use mii_sound.Client.Tts.{Json, TtsArgs}

pub record ServeArgs : Type 0 where
  pub tts_dir : Option Text
  pub cpu : Bool
  pub holds : ℕ
  pub network : Option ℕ
  pub relay : Option Text
  pub quiet : Bool
  pub parallel : ℕ
  pub batch_window : ℕ

pub record TtsWorkerArgs : Type 0 where
  pub tts_dir : Text
  pub cpu : Bool

pub data Command : Type 0 where
  serve : ServeArgs → Command
  tts : (out : Option Text) → TtsArgs → Command
  tts_worker : TtsWorkerArgs → Command

pub record Cli : Type 0 where
  pub url : Option Text
  pub socket : Option Text
  pub status : Bool
  pub command : Option Command

unfoldable pub parse_duration : (humantime : Text → Parsed ℕ) → Text → Parsed ℕ
parse_duration humantime s = elim (humantime s) [
  | good ms ↦ good ms
  | bad e ↦ bad (text "invalid duration `" ++ (s ++ (text "`: " ++ e)))
]

-- The level of the log if `RUST_LOG` does not set it.
unfoldable pub default_level : Option Command → Text
default_level (some (serve args)) = if args.quiet then text "warn" else text "info"
default_level (some (tts_worker args)) = text "info"
default_level (some (tts out args)) = text "warn"
default_level none = text "warn"

-- What the parts behind `main` give: a connection for the status, the client's environment, the
-- results of `server::run` and `worker::run`, and how `{e:#}` prints an error.
pub record World : Type 1 where
  pub connected : Result Conn
  pub json : Json
  pub client : Option Text → Tts.Env
  pub served : ServeArgs → Option Text → Result (Unit {0})
  pub worked : TtsWorkerArgs → Result (Unit {0})
  pub chain_text : Error → Text

unfoldable pub exit_of : (Error → Text) → (name : Text) → Result (Unit {0}) → Ending
exit_of chain_text name (ok _) = record { code = Exit.success; stderr = []; output = [] }
exit_of chain_text name (err e) = record {
  code = Exit.unknown;
  stderr = line (text "mii-sound " ++ (name ++ (text ": " ++ chain_text e)));
  output = [];
}

unfoldable pub run_command : World → Option Text → Option Command → Ending
unfolding exit_of
run_command w socket (some (serve args)) =
    exit_of w.chain_text (text "serve") (w.served args socket)
run_command w socket (some (tts out args)) = Tts.run w.json args (w.client out)
run_command w socket (some (tts_worker args)) =
    exit_of w.chain_text (text "tts-worker") (w.worked args)
run_command w socket none = record {
  code = Exit.bad_request;
  stderr = line (text "mii-sound: no subcommand given (use `tts` or `serve`, or pass --status)");
  output = [];
}

unfoldable pub main : World → Cli → Ending
unfolding run_command
main w cli = if cli.status then run_status w.connected else run_command w cli.socket cli.command
