-- ===== src/EndToEnd.antt =====
-- A client of src/client/ and a server of src/server/mod.rs on one connection.
pub mod Status
pub mod Token
pub mod Speech
pub mod Frames
pub mod Streaming
pub mod Missing
pub mod Queued
use mii_sound.Common.{
  inl, inr, Bool-cases, Option-cases, ℕ, ◌-◌, ◌≤◌, ◌≡◌, refl, sym, ap, ◌∙◌, subst, arith, Text,
  text, Bool, true, false, ◌==◌, List, [], ◌∷◌, ◌++◌, Option, some, none, length, append-nil,
  if◌then◌else◌, bytes_eq,
}
use native.Mathlib.Decide.{dec_lt}
use mii_sound.Server.Relay.Requests as Relay
use mii_sound.Server.Relay.Requests.{Api}
use mii_sound.Common.Utf8.{from_utf8}
use mii_sound.Exit
use mii_sound.Io.{Result, ok, err, msg, Result-cases}
use mii_sound.Io.Write.{Writer, Write, write_all, write_all_fits, write_all_full}
use mii_sound.Proto.{
  op_tts, op_tts_stream, op_status, st_ok, st_bad_request, max_token, Request, Response,
}
use mii_sound.Proto.Write.{write_token, write_request, write_response}
use mii_sound.Proto.Read.{read_response, read_request}
use mii_sound.Proto.Wire.{
  encode_token, encode_request, encode_response, write_request-encode, write_response-encode,
  write_token-encode,
}
use mii_sound.Proto.RoundTrip.{Fits, ResponseFits, read_request-encode, read_response-encode}
use mii_sound.Proto.Blobs.{received}
use mii_sound.Client.Session.{
  Conn, Route, tcp, local, connect, send_token, send_recv, handle_response_status, status_to_exit,
  Ending, run_status, running, unreachable, status_request,
}
use mii_sound.Client.Tts.{Env, finish_single, deliver}
use mii_sound.Server.Connection.{
  Ctx, handle, read_and_answer, answer, response_to, dispatch, dispatch_relay, error_reply,
  expected,
}
use mii_sound.Server.Connection.Replies.{handle-token, handle-wrong_token}

-- A pipe that nothing was written to.
abbrev pub fresh : ℕ → Writer
fresh room = record { sent = []; room = room }

-- What the server sends on a connection on which it reads these bytes.
abbrev pub sends : Ctx → (expect_token : Bool) → (room : ℕ) → List ℕ → List ℕ
sends ctx expect_token room bytes = (handle ctx expect_token bytes (fresh room)).1.sent

-- The request as the server reads it: an empty inline audio is none.
abbrev pub arrived : Request → Request
arrived req = record req { audio = received req.audio }

-- One request and its response: the server reads what the client writes on `conn`, and the client
-- reads what the server writes; both pipes have room for it.
pub record Wired (ctx : Ctx) (expect_token : Bool) (req : Request) (conn : Conn) (room : ℕ)
    : Type 0 where
  pub one_response : (req.op == op_tts_stream) ≡ false
  pub request_fits : Fits req.json req.audio
  pub request_room : length (encode_request req) ≤ conn.outgoing.room
  pub response_fits : ResponseFits (response_to ctx (arrived req))
  pub response_room : length (encode_response (response_to ctx (arrived req))) ≤ room
  pub answers : conn.incoming ≡ sends ctx expect_token room (send_recv req conn).1.outgoing.sent

pub wrote :
    (req : Request) (w : Writer)
    → length (encode_request req) ≤ w.room
    → write_request req w ≡ (
      ok tt,
      record { sent = w.sent ++ encode_request req; room = w.room - length (encode_request req) },
    )
wrote req w room = write_request-encode req w ∙ write_all_fits (encode_request req) w room

pub send_recv-outgoing :
    (req : Request) (conn : Conn)
    → length (encode_request req) ≤ conn.outgoing.room
    → (send_recv req conn).1.outgoing.sent ≡ conn.outgoing.sent ++ encode_request req
unfolding send_recv
send_recv-outgoing req conn room = elim (Result-cases (read_response conn.incoming)) [
  | inl (_, h) ↦ rw (wrote req conn.outgoing room, h, send_recv) sent
  | inr (x, h) ↦ rw (wrote req conn.outgoing room, h, send_recv) sent
]
  where
    sent : (write_request req conn.outgoing).1.sent ≡ conn.outgoing.sent ++ encode_request req
    sent = ap (λ (p : Result (Unit {0}) × Writer). p.1.sent) (wrote req conn.outgoing room)

pub send_recv-reads :
    (req : Request) (conn : Conn) (resp : Response)
    → length (encode_request req) ≤ conn.outgoing.room
    → ResponseFits resp
    → conn.incoming ≡ encode_response resp
    → (send_recv req conn).0 ≡ ok resp
unfolding send_recv
send_recv-reads req conn resp room fits e = rw (wrote req conn.outgoing room, back, send_recv) refl
  where
    back : read_response conn.incoming ≡ ok (resp, [])
    back =
        ap read_response (e ∙ sym (append-nil (encode_response resp)))
        ∙ read_response-encode resp [] fits

-- What the client has sent before its request opens the connection.
abbrev pub Opens : Ctx → Bool → List ℕ → Type 0
Opens ctx expect_token pre = (s : List ℕ) → handle ctx expect_token (pre ++ s) ≡ handle ctx false s

pub read_then_answer :
    (ctx : Ctx) (bytes rest : List ℕ) (req : Request)
    → read_request bytes ≡ ok (req, rest)
    → handle ctx false bytes ≡ answer ctx req
unfolding handle read_and_answer
read_then_answer ctx bytes rest req h = rw (h, handle, read_and_answer) refl

answer_response :
    (ctx : Ctx) (req : Request)
    → (req.op == op_tts_stream) ≡ false
    → answer ctx req ≡ write_response (response_to ctx req)
unfolding answer
answer_response ctx req one = rw (one, answer) refl

handle_answers :
    (ctx : Ctx) (req : Request)
    → (req.op == op_tts_stream) ≡ false
    → Fits req.json req.audio
    → handle ctx false (encode_request req) ≡ write_response (response_to ctx (arrived req))
handle_answers ctx req one fits =
    read_then_answer ctx (encode_request req) [] (arrived req)
      (ap read_request (sym (append-nil (encode_request req))) ∙ read_request-encode req [] fits)
    ∙ answer_response ctx (arrived req) one

pub no_prefix :
    (ctx : Ctx) (conn : Conn) → conn.outgoing.sent ≡ [] → Opens ctx false conn.outgoing.sent
no_prefix ctx conn first s = ap (λ (pre : List ℕ). handle ctx false (pre ++ s)) first

module _ (ctx : Ctx) (expect_token : Bool) (req : Request) (conn : Conn) (room : ℕ)
    (opens : Opens ctx expect_token conn.outgoing.sent)
    (wired : Wired ctx expect_token req conn room) where
  incoming_response : conn.incoming ≡ encode_response (response_to ctx (arrived req))
  incoming_response =
      wired.answers
      ∙ ap (sends ctx expect_token room) (send_recv-outgoing req conn wired.request_room)
      ∙ ap (λ (m : Write). (m (fresh room)).1.sent)
          (opens (encode_request req)
            ∙ handle_answers ctx req wired.one_response wired.request_fits)
      ∙ ap (λ (p : Result (Unit {0}) × Writer). p.1.sent)
          (write_response-encode _ (fresh room) ∙ write_all_fits _ (fresh room) wired.response_room)

  pub receives : (send_recv req conn).0 ≡ ok (response_to ctx (arrived req))
  receives =
      send_recv-reads req conn (response_to ctx (arrived req)) wired.request_room
        wired.response_fits incoming_response

  pub delivers :
      (env : Env) → finish_single env req conn ≡ deliver env (response_to ctx (arrived req))
  unfolding finish_single
  delivers env = rw (receives, finish_single) refl
