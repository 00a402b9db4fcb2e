-- ===== src/Client/Session.antt =====
-- One request and its response, the status probe, and the exit codes: src/client/mod.rs.
use mii_sound.Common.{
  ℕ, Text, text, List, [], ◌∷◌, ◌++◌, ◌==◌, not, if◌then◌else◌, Option, none, some,
}
use mii_sound.Common.Utf8.{from_utf8}
use mii_sound.Exit
use mii_sound.Io.{Result, ok, err}
use mii_sound.Io as Io
use mii_sound.Io.Write.{Writer}
use mii_sound.Proto.{
  op_status, st_ok, st_model_missing, st_generation_failed, st_bad_request, Request, Response,
}
use mii_sound.Proto.Read.{read_response}
use mii_sound.Proto.Write.{write_request, write_token}

-- A connection: what the server still sends, and the way to it.
pub record Conn : Type 0 where
  pub incoming : List ℕ
  pub outgoing : Writer

-- Where `connect` goes, with what the system gives for it: a TCP stream and `token_from_env`, or
-- whether the local socket has a name, and a stream to it.
pub data Route : Type 0 where
  tcp : (url : Text) → Result Conn → (token : Option Text) → Route
  local : (name : Result (Unit {0})) → Result Conn → Route

unfoldable pub send_token : Text → Conn → Result Conn
send_token token conn =
    let (r, out) = write_token token conn.outgoing in
    elim r [ ok _ ↦ ok (record conn { outgoing = out }) | err e ↦ err e ]

unfoldable pub connect : Route → Result Conn
unfolding send_token
connect (tcp url (err _) token) = err (Io.msg (text "failed to connect to " ++ url))
connect (tcp url (ok conn) (some token)) = send_token token conn
connect (tcp url (ok conn) none) = send_token [] conn
connect (local (err e) stream) = err e
connect (local (ok name) (err _)) = err (Io.msg (text "failed to connect to local socket"))
connect (local (ok name) (ok conn)) = ok conn

-- How a run of the client ends: the exit code, what stderr got, and what stdout or the file of
-- `--out` got.
pub record Ending : Type 0 where
  pub code : ℕ
  pub stderr : Text
  pub output : List ℕ

-- `eprintln!`
abbrev pub line : Text → Text
line t = t ++ 0x0a ∷ []

unfoldable pub status_to_exit : ℕ → ℕ
status_to_exit status =
    if status == st_ok
    then Exit.success
    else if status == st_model_missing
    then Exit.model_not_found
    else if status == st_generation_failed
    then Exit.generation_failed
    else if status == st_bad_request
    then Exit.bad_request
    else Exit.unknown

unfoldable pub fail_bad_request : Text → Ending
fail_bad_request msg = record {
  code = Exit.bad_request;
  stderr = line (text "mii-sound: bad request: " ++ msg);
  output = [];
}

unfoldable pub fail_unreachable : Text → Ending
fail_unreachable msg = record {
  code = Exit.server_unreachable;
  stderr = line (text "mii-sound: server unreachable: " ++ msg);
  output = [];
}

unfoldable pub fail_unknown : Text → Ending
fail_unknown msg = record {
  code = Exit.unknown;
  stderr = line (text "mii-sound: error: " ++ msg);
  output = [];
}

-- An empty message prints nothing.
abbrev pub server_error : Text → Text
server_error [] = []
server_error (c ∷ msg) = line (text "mii-sound: server error: " ++ c ∷ msg)

-- `std::str::from_utf8(&resp.payload).unwrap_or("<non-utf8 error>")`
abbrev payload_text : List ℕ → Text
payload_text payload = elim (from_utf8 payload) [ some t ↦ t | none ↦ text "<non-utf8 error>" ]

-- `none` lets the client go on.
unfoldable pub handle_response_status : Response → Option Ending
handle_response_status resp =
    if not (resp.status == st_ok)
    then some (record {
      code = status_to_exit resp.status;
      stderr = server_error (payload_text resp.payload);
      output = [];
    })
    else none

-- `exchange` over one connection; the result has the connection as it is left.
unfoldable pub send_recv : Request → Conn → Result Response × Conn
send_recv req conn =
    let (r, out) = write_request req conn.outgoing in
    elim r [
      | err e ↦ (err e, record conn { outgoing = out })
      | ok _ ↦ elim (read_response conn.incoming) [
        | ok (resp, rest) ↦ (ok resp, record { incoming = rest; outgoing = out })
        | err e ↦ (err e, record conn { outgoing = out })
      ]
    ]

-- The request of `run_status`.
abbrev pub status_request : Request
status_request = record { op = op_status; json = []; audio = none }

unfoldable pub unreachable : Ending
unreachable = record {
  code = Exit.server_unreachable;
  stderr = [];
  output = line (text "unreachable");
}

unfoldable pub running : Ending
running = record { code = Exit.success; stderr = []; output = line (text "running") }

unfoldable pub run_status : Result Conn → Ending
unfolding unreachable running
run_status connected = elim connected [
  | err _ ↦ unreachable
  | ok conn ↦ elim (send_recv status_request conn).0 [
    | err _ ↦ unreachable
    | ok resp ↦ if resp.status == st_ok then running else unreachable
  ]
]
