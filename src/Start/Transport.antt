-- ===== src/Start/Transport.antt =====
-- src/transport.rs: the name of the local socket, and the token of the environment.
use mii_sound.Common.{ℕ, Text, text, decimal, Bool, ◌++◌, Option, none, some, if◌then◌else◌}
use mii_sound.Io.{Result, ok, err, msg, Parsed, good, bad}

-- What the program uses of the platform: the directory for sockets, the user, how paths are joined,
-- the names of interprocess, and `$TOKEN`.
pub record Platform : Type 1 where
  pub Name : Type 0
  pub runtime_dir : Option Text
  pub uid : ℕ
  pub join : Text → Text → Text
  pub to_fs_name : Text → Parsed Name
  pub is_supported : Bool
  pub to_ns_name : Text → Parsed Name
  pub token : Option Text

module _ (platform : Platform) where
  open platform use {Name, runtime_dir, uid, join, to_fs_name, is_supported, to_ns_name, token}

  -- On unix.
  unfoldable pub default_socket_path : Text
  default_socket_path = elim runtime_dir [
    | some rt ↦ join rt (text "mii-sound.sock")
    | none ↦ text "/tmp/mii-sound-" ++ (decimal uid ++ text ".sock")
  ]

  -- `map_err(|e| anyhow!(..))` on a name.
  abbrev named : Text → Parsed Name → Result Name
  named why (good name) = ok name
  named why (bad e) = err (msg (why ++ (text ": " ++ e)))

  abbrev fs_name : Text → Result Name
  fs_name path = named (text "invalid socket path " ++ path) (to_fs_name path)

  unfoldable pub resolve_name : Option Text → Result Name
  unfolding default_socket_path
  resolve_name (some path) = fs_name path
  resolve_name none =
      if is_supported
      then named (text "invalid namespaced socket name") (to_ns_name (text "mii-sound.sock"))
      else fs_name default_socket_path

  unfoldable pub token_from_env : Result Text
  token_from_env = elim token [
    | some t ↦ ok t
    | none ↦ err (msg (text "$TOKEN env var must be set for network mode"))
  ]
