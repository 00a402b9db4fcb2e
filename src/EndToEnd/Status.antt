-- ===== src/EndToEnd/Status.antt =====
-- `run_status` of src/client/mod.rs with a server of src/server/mod.rs.
use mii_sound.Common.{ℕ, ◌≡◌, Bool, true, false, [], some, none}
use mii_sound.Server.Relay.Requests as Relay
use mii_sound.Exit
use mii_sound.Io.{Result, ok, err, Error}
use mii_sound.Client.Session.{Conn, send_recv, status_request}
use mii_sound.Server.Connection.{Ctx}
use mii_sound.EndToEnd.{Wired}

-- What `mii-sound status` prints: whether the server runs, or the upstream of a relay.
abbrev pub status_of : Ctx → Bool
status_of ctx = elim ctx.relay [ some relay ↦ Relay.status relay | none ↦ true ]

-- What the status command meets on the local socket, and whether a server is up behind it: no
-- connection, an exchange that breaks off, or a server that answers.
pub data Probe (ctx : Ctx) : Result Conn → Bool → Type 0 where
  unconnected : (e : Error) → Probe ctx (err e) false
  broken :
      (conn : Conn) (e : Error)
      → (send_recv status_request conn).0 ≡ err e
      → Probe ctx (ok conn) false
  answered :
      (conn : Conn) (room : ℕ)
      → conn.outgoing.sent ≡ []
      → Wired ctx false status_request conn room
      → Probe ctx (ok conn) (status_of ctx)
