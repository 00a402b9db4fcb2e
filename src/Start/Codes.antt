-- ===== src/Start/Codes.antt =====
-- The exit codes of src/main.rs and of the client.
use mii_sound.Common.{
  ℕ, ◌≤◌, ◌≡◌, refl, arith, Text, Bool, true, false, Option, none, some, List, [], is_empty, text,
  ◌==◌, Option-cases, Bool-cases, inl, inr, if◌then◌else◌,
}
use mii_sound.Exit
use mii_sound.Io.{Result, ok, err, Result-cases, Parsed, good, bad, Fault, Error, display}
use mii_sound.Proto.{st_ok, op_tts, op_tts_stream, Request, Response, TtsRequest}
use mii_sound.Client.Session.{
  Conn, Ending, status_to_exit, fail_bad_request, fail_unknown, fail_unreachable,
  handle_response_status, send_recv, run_status, running, unreachable, status_request,
}
use mii_sound.Client.Sink.{Outcome, finished, failed, waiting}
use mii_sound.Client.Tts.{
  Json, TtsArgs, UserReq, Env, Run, leave, continue, ◌>>=◌, reject_if, or_leave, or_unreachable,
  acquire, merge, run, close_run, deliver, finish_single, finish_stream, stream_ending,
  split_json_and_rest,
}
use mii_sound.Client.Tts.Laws.{merge-leave}
use mii_sound.Start.{Command, serve, tts, tts_worker, Cli, World, exit_of, run_command, main}

-- A code of the table in src/exit.rs.
abbrev pub IsCode : Ending → Type 0
IsCode e = e.code ≤ Exit.unknown

-- A step that ends the process ends it with such a code.
abbrev Leaves {ℓ} : {A : Type ℓ} → Run A → Type 0
Leaves (leave e) = IsCode e
Leaves (continue a) = Unit

then_IsCode {ℓ} :
    {A : Type ℓ} (m : Run A) (k : A → Run Ending)
    → Leaves m
    → ((a : A) → IsCode (close_run (k a)))
    → IsCode (close_run (m >>= k))
then_IsCode (leave e) k h g = h
then_IsCode (continue a) k h g = g a

status_to_exit_bound : (status : ℕ) → status_to_exit status ≤ Exit.unknown
unfolding status_to_exit
status_to_exit_bound status = ground arith

merge-Leaves : (args : TtsArgs) (user : UserReq) (tail : List ℕ) → Leaves (merge args user tail)
merge-Leaves args user tail = at (merge args user tail) (merge-leave args user tail)
  where
    at :
        (m : Run (TtsRequest × Option (List ℕ)))
        → ((e : Ending) → m ≡ leave e → (e.code ≡ Exit.bad_request) × (e.output ≡ []))
        → Leaves m
    at (leave e) h = omega (arith, (h e refl).0)
    at (continue p) h = tt

deliver-IsCode : (env : Env) (resp : Response) → IsCode (deliver env resp)
unfolding deliver handle_response_status fail_unknown
deliver-IsCode env resp = ground (arith, status_to_exit_bound resp.status)

finish_single-IsCode :
    (env : Env) (req : Request) (conn : Conn) → IsCode (finish_single env req conn)
unfolding finish_single fail_unreachable
finish_single-IsCode env req conn = at (send_recv req conn).0
  where
    at :
        (r : Result Response)
        → IsCode (elim r [
          | err e ↦ fail_unreachable (display env.fault_text e)
          | ok resp ↦ deliver env resp
        ])
    at (err e) = omega arith
    at (ok resp) = deliver-IsCode env resp

finish_stream-IsCode :
    (env : Env) (req : Request) (conn : Conn) → IsCode (finish_stream env req conn)
unfolding finish_stream
finish_stream-IsCode env req conn = at _ _
  where
    at : (o : Outcome) (out : List ℕ) → IsCode (stream_ending env.fault_text o out)
    at finished out = unfold stream_ending in omega arith
    at (failed status e) out = unfold stream_ending in status_to_exit_bound status
    at waiting out = unfold stream_ending fail_unknown in omega arith

then_Leaves {ℓ κ} :
    {A : Type ℓ} {B : Type κ} (m : Run A) (k : A → Run B)
    → Leaves m
    → ((a : A) → Leaves (k a))
    → Leaves (m >>= k)
then_Leaves (leave e) k h g = h
then_Leaves (continue a) k h g = g a

bad_request-IsCode : (why : Text) → IsCode (fail_bad_request why)
unfolding fail_bad_request
bad_request-IsCode why = omega arith

unknown-IsCode : (why : Text) → IsCode (fail_unknown why)
unfolding fail_unknown
unknown-IsCode why = omega arith

reject_if-Leaves : (b : Bool) (why : Text) → Leaves (reject_if b why)
reject_if-Leaves true why = bad_request-IsCode why
reject_if-Leaves false why = tt

or_leave-Leaves :
    {A : Type 0} (fail : Text → Ending) (p : Parsed A)
    → ((why : Text) → IsCode (fail why))
    → Leaves (or_leave fail p)
or_leave-Leaves fail (good a) h = tt
or_leave-Leaves fail (bad e) h = h e

or_unreachable-Leaves :
    (fault_text : Fault → Text) (r : Result Conn) → Leaves (or_unreachable fault_text r)
unfolding fail_unreachable
or_unreachable-Leaves fault_text (ok c) = tt
or_unreachable-Leaves fault_text (err e) = omega arith

acquire-Leaves : (json : Json) (args : TtsArgs) (env : Env) → Leaves (acquire json args env)
unfolding acquire
acquire-Leaves json args env = elim (Option-cases args.json) [
  | inr (s, h) ↦
      rw (h, acquire)
        (then_Leaves (or_leave _ (json.from_str s)) _
          (or_leave-Leaves _ (json.from_str s) (λ why. bad_request-IsCode _)) (λ v. tt))
  | inl h ↦ elim (Result-cases env.stdin) [
    | inr (e, r) ↦ rw (h, acquire) (rw (r, acquire) (bad_request-IsCode _))
    | inl (raw, r) ↦
        rw (h, acquire)
          (rw (r, acquire)
            (then_Leaves (reject_if (is_empty raw) _) _ (reject_if-Leaves (is_empty raw) _) (λ _.
              or_leave-Leaves fail_bad_request (split_json_and_rest json raw) bad_request-IsCode)))
  ]
]

-- Every run of `mii-sound tts` ends with a code of the table.
run-IsCode : (json : Json) (args : TtsArgs) (env : Env) → IsCode (run json args env)
unfolding run
run-IsCode json args env =
    then_IsCode (acquire json args env) _ (acquire-Leaves json args env) (λ (v, tail).
      then_IsCode (or_leave _ (json.from_value v)) _
        (or_leave-Leaves _ (json.from_value v) (λ why. bad_request-IsCode _))
        (λ user.
          then_IsCode (merge args user tail) _ (merge-Leaves args user tail) (λ (wire, audio).
            then_IsCode (or_leave _ (json.to_vec wire)) _
              (or_leave-Leaves _ (json.to_vec wire) (λ why. unknown-IsCode _))
              (λ bytes.
                then_IsCode (or_unreachable env.fault_text env.connected) _
                  (or_unreachable-Leaves env.fault_text env.connected)
                  (λ conn. ends (request bytes audio) conn)))))
  where
    request : List ℕ → Option (List ℕ) → Request
    request bytes audio = record {
      op = if args.stream then op_tts_stream else op_tts;
      json = bytes;
      audio = audio;
    }

    ends :
        (req : Request) (conn : Conn)
        → IsCode (if args.stream then finish_stream env req conn else finish_single env req conn)
    ends req conn = elim (Bool-cases args.stream) [
      | inl h ↦ rw h (finish_stream-IsCode env req conn)
      | inr h ↦ rw h (finish_single-IsCode env req conn)
    ]

run_status-IsCode : (connected : Result Conn) → IsCode (run_status connected)
unfolding run_status running unreachable
run_status-IsCode (err e) = omega arith
run_status-IsCode (ok conn) = at (send_recv status_request conn).0
  where
    at :
        (r : Result Response)
        → IsCode (elim r [
          | err _ ↦ unreachable
          | ok resp ↦ if resp.status == st_ok then running else unreachable
        ])
    at (err e) = unfold unreachable in omega arith
    at (ok resp) = elim (Bool-cases (resp.status == st_ok)) [
      | inl h ↦ rw h (unfold running in omega arith)
      | inr h ↦ rw h (unfold unreachable in omega arith)
    ]

exit_of-IsCode :
    (chain_text : Error → Text) (name : Text) (r : Result (Unit {0}))
    → IsCode (exit_of chain_text name r)
unfolding exit_of
exit_of-IsCode chain_text name (ok _) = omega arith
exit_of-IsCode chain_text name (err e) = omega arith

run_command-IsCode :
    (w : World) (socket : Option Text) (command : Option Command)
    → IsCode (run_command w socket command)
unfolding run_command
run_command-IsCode w socket (some (serve args)) =
    exit_of-IsCode w.chain_text (text "serve") (w.served args socket)
run_command-IsCode w socket (some (tts out args)) = run-IsCode w.json args (w.client out)
run_command-IsCode w socket (some (tts_worker args)) =
    exit_of-IsCode w.chain_text (text "tts-worker") (w.worked args)
run_command-IsCode w socket none = omega arith

-- Whatever the command line says, and whatever the server, the files and stdin do, the process ends
-- with a code of the table of exit codes.
pub main-IsCode : (w : World) (cli : Cli) → IsCode (main w cli)
unfolding main
main-IsCode w cli = elim (Bool-cases cli.status) [
  | inl h ↦ rw (h, main) (run_status-IsCode w.connected)
  | inr h ↦ rw (h, main) (run_command-IsCode w cli.socket cli.command)
]
