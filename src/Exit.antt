-- ===== src/Exit.antt =====
-- src/exit.rs: the exit codes of the process.
use mii_sound.Common.{ℕ}

abbrev pub success : ℕ
success = 0

abbrev pub server_unreachable : ℕ
server_unreachable = 1

abbrev pub model_not_found : ℕ
model_not_found = 2

abbrev pub generation_failed : ℕ
generation_failed = 3

abbrev pub bad_request : ℕ
bad_request = 4

abbrev pub unknown : ℕ
unknown = 5
