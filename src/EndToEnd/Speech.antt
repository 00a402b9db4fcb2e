-- ===== src/EndToEnd/Speech.antt =====
-- `run` of src/client/tts.rs with a server of src/server/mod.rs, alone or as a relay.
use mii_sound.Common.{
  suc, inl, inr, Bool-cases, ℕ, ◌-◌, ◌≤◌, ◌≡◌, refl, ap, ◌∙◌, Text, text, Bool, true, false, List,
  [], ◌∷◌, ◌++◌, Option, some, none, length, is_empty,
}
use mii_sound.Server.Relay.Requests.{Api}
use mii_sound.Exit
use mii_sound.Io.{Result, ok, err, msg}
use mii_sound.Io.Write.{Writer, write_all_fits}
use mii_sound.Proto.{op_tts, TtsRequest, st_ok, st_bad_request, Request, Response}
use mii_sound.Proto.Blobs.{received}
use mii_sound.Client.Session.{Conn, handle_response_status, Ending}
use mii_sound.Client.Tts.{Env, finish_single, deliver}
use mii_sound.Server.Connection.{Ctx, response_to, dispatch, dispatch_relay, error_reply}
use mii_sound.EndToEnd.{arrived, Wired, no_prefix, delivers}
use mii_sound.Io.{Parsed, good, bad}
use mii_sound.Client.Tts.{
  Json, UserReq, TtsArgs, continue, acquire, run, write_payload_out, is_inline,
}
use mii_sound.Client.Tts.Laws.{Rules, wire_of, audio_of, merge-Rules}
use mii_sound.Client.Session.{handle_response_status}
use mii_sound.Server.Engine.{done}
use mii_sound.Server.Connection.{Local, reply_of, relay_reply, relayed_or_cancelled}
use mii_sound.Server.Relay.Requests.{
  FilePart, Outcome, success, HttpError, mapped, tts, tts_plain, tts_clone, needs_clone, Query,
  Object, format_cfg, part_path, part_bytes, build_plain_body, build_reference_part,
}

-- The reference that the user meant: the bytes behind the JSON, or a path.
meant : Text → List ℕ → (inline : Bool) → FilePart
meant r tail true = part_bytes tail (text "reference.wav") (text "audio/wav")
meant r tail false = part_path r

-- The options, and the fields of a request without a reference.
options_of : Api → TtsArgs → Query
options_of api args = record { cfg = some (format_cfg api args.cfg); steps = some args.steps }

fields_of : UserReq → Object
fields_of user = elim user.continuation [
  | none ↦ (text "text", user.text) ∷ []
  | some c ↦ (text "text", user.text) ∷ (text "continuation", c) ∷ []
]

-- What a relay asks its upstream, for what the user asked: to speak the text, with the continuation,
-- or to speak it in the voice of the reference, which is a path or the bytes behind the JSON. The
-- endpoint that clones takes no continuation.
unfoldable pub asked : Api → TtsArgs → UserReq → List ℕ → Outcome HttpError (List ℕ)
unfolding meant options_of fields_of
asked api args user tail = elim user.reference [
  | none ↦ api.r_tts (options_of api args) (fields_of user)
  | some r ↦
      api.r_tts_clone (options_of api args)
        (record { text = user.text; reference = meant r tail (is_inline user.reference) })
]

inline_asked :
    (api : Api) (args : TtsArgs) (t r : Text) (continuation : Option Text) (tail : List ℕ)
    → let user : UserReq = record { text = t; reference = some r; continuation = continuation } in
      is_inline (some r) ≡ true
      → is_empty tail ≡ false
      → tts api (wire_of args user) (received (audio_of user tail))
        ≡ mapped api (asked api args user tail)
unfolding tts tts_clone needs_clone build_reference_part asked meant
inline_asked api args t r continuation [] inline carries = absurd (cc carries)
inline_asked api args t r continuation (b ∷ tail) inline carries = rw (inline, tts, asked) refl

path_asked :
    (api : Api) (args : TtsArgs) (t r : Text) (continuation : Option Text) (tail : List ℕ)
    → let user : UserReq = record { text = t; reference = some r; continuation = continuation } in
      is_inline (some r) ≡ false
      → tts api (wire_of args user) (received (audio_of user tail))
        ≡ mapped api (asked api args user tail)
unfolding tts tts_clone needs_clone build_reference_part asked meant
path_asked api args t r continuation tail path = rw (path, tts, asked) refl

asked_at :
    (api : Api) (args : TtsArgs) (t : Text) (ref continuation : Option Text) (tail : List ℕ)
    → let user : UserReq = record { text = t; reference = ref; continuation = continuation } in
      (is_inline ref ≡ true → is_empty tail ≡ false)
      → tts api (wire_of args user) (received (audio_of user tail))
        ≡ mapped api (asked api args user tail)
unfolding tts tts_plain needs_clone is_inline build_plain_body asked
asked_at api args t none none tail carries = refl
asked_at api args t none (some c) tail carries = refl
asked_at api args t (some r) continuation tail carries = elim (Bool-cases (is_inline (some r))) [
  | inl inline ↦ inline_asked api args t r continuation tail inline (carries inline)
  | inr path ↦ path_asked api args t r continuation tail path
]

-- A request that keeps the client's rules is forwarded by a relay with the user's text and options:
-- without a reference to the endpoint that speaks, with the continuation, and with a reference to
-- the endpoint that clones, with the reference's path or with all the bytes that followed the JSON,
-- but without the continuation. It is never refused for want of a reference or of its audio.
pub tts-asked :
    (api : Api) (args : TtsArgs) (user : UserReq) (tail : List ℕ)
    → Rules args user tail
    → tts api (wire_of args user) (received (audio_of user tail))
      ≡ mapped api (asked api args user tail)
tts-asked api args user tail r =
    asked_at api args user.text user.reference user.continuation tail r.carries

-- The request of the client, on the wire.
abbrev pub request_of : UserReq → List ℕ → List ℕ → Request
request_of user tail bytes = record { op = op_tts; json = bytes; audio = audio_of user tail }

-- A request that keeps the rules, serialized, on a connection to the server's local socket; the
-- server reads back what was serialized, and there is room for the answer.
pub record Sent (json : Json) (args : TtsArgs) (env : Env) (ctx : Ctx) (user : UserReq)
    (tail bytes wav : List ℕ) (conn : Conn) (room : ℕ) : Type 0 where
  pub value : json.Value
  pub acquired : acquire json args env ≡ continue (value, tail)
  pub shaped : json.from_value value ≡ good user
  pub rules : Rules args user tail
  pub serialized : json.to_vec (wire_of args user) ≡ good bytes
  pub deserialized : ctx.from_slice bytes ≡ good (wire_of args user)
  pub connected : env.connected ≡ ok conn
  pub unused : conn.outgoing.sent ≡ []
  pub single : args.stream ≡ false
  pub wired : Wired ctx false (request_of user tail bytes) conn room
  pub output_room : length wav ≤ env.output.room

-- What the client ends with when it has got the audio.
abbrev pub spoken : Env → List ℕ → Ending
spoken env wav = record { code = Exit.success; stderr = []; output = env.output.sent ++ wav }

deliver_audio :
    (env : Env) (wav : List ℕ)
    → length wav ≤ env.output.room
    → deliver env (record { status = st_ok; payload = wav }) ≡ spoken env wav
unfolding deliver handle_response_status
deliver_audio env wav room =
    rw (wrote env.out_path, deliver)
      (ap {B = Ending} (λ p. record { code = Exit.success; stderr = []; output = p.1.sent })
        (wrote env.out_path))
  where
    wrote :
        (path : Option Text)
        → write_payload_out path wav env.output
          ≡ (ok tt, record { sent = env.output.sent ++ wav; room = env.output.room - length wav })
    wrote none = unfold write_payload_out in write_all_fits wav env.output room
    wrote (some path) =
        unfold write_payload_out in
        ap {A = Result (Unit {0}) × Writer} {B = Result (Unit {0}) × Writer}
          (λ p. elim p.0 [
            | ok _ ↦ (ok tt, p.1)
            | err _ ↦ (err (msg (text "writing " ++ path)), p.1)
          ])
          (write_all_fits wav env.output room)

-- The responses with the audio, of the engine and of a relay.
abbrev audio_reply : List ℕ → Response
audio_reply wav = record { status = st_ok; payload = wav }

module _ (ctx : Ctx) (wav : List ℕ) (r : Request) (req : TtsRequest) (speaks : r.op ≡ op_tts)
    (parses : ctx.from_slice r.json ≡ good req) where
  when_parsed :
      (f : TtsRequest → Response)
      → elim (ctx.from_slice r.json) [
        | bad e ↦ error_reply st_bad_request (text "invalid tts json: " ++ e)
        | good parsed ↦ f parsed
      ]
        ≡ f req
  when_parsed f =
      ap {A = Parsed TtsRequest} {B = Response}
        (λ p. elim p [
          | bad e ↦ error_reply st_bad_request (text "invalid tts json: " ++ e)
          | good parsed ↦ f parsed
        ])
        parses

  engine_reply :
      (engine : Local)
      → ctx.relay ≡ none
      → ctx.tts ≡ some engine
      → engine.queued r.json r.audio ≡ done wav
      → response_to ctx r ≡ audio_reply wav
  unfolding response_to dispatch reply_of
  engine_reply engine alone has spoke =
      rw (alone, response_to)
        (rw (speaks, dispatch)
          (rw has (when_parsed (λ _. reply_of (engine.queued r.json r.audio)) ∙ ap reply_of spoke)))

  upstream_reply :
      (api : Api) (n : ℕ)
      → ctx.relay ≡ some api
      → ctx.waits ≡ suc n
      → tts api req r.audio ≡ success wav
      → response_to ctx r ≡ audio_reply wav
  unfolding response_to dispatch_relay relay_reply relayed_or_cancelled
  upstream_reply api n relays stays spoke =
      rw (relays, response_to)
        (rw (speaks, dispatch_relay)
          (when_parsed (λ q. relayed_or_cancelled ctx.waits (relay_reply (tts api q r.audio)))
            ∙ rw (stays, spoke) refl))

module _ (json : Json) (args : TtsArgs) (env : Env) (ctx : Ctx) (user : UserReq)
    (tail bytes wav : List ℕ) (conn : Conn) (room : ℕ)
    (s : Sent json args env ctx user tail bytes wav conn room) where
  run_steps : run json args env ≡ finish_single env (request_of user tail bytes) conn
  unfolding run
  run_steps =
      rw (s.acquired, run)
        (rw s.shaped (
          rw (merge-Rules args user tail s.rules)
            (rw s.serialized (rw s.connected (rw s.single refl)))))

  plays :
      response_to ctx (arrived (request_of user tail bytes))
        ≡ record { status = st_ok; payload = wav }
      → run json args env ≡ spoken env wav
  plays h =
      run_steps
      ∙ delivers ctx false _ conn room (no_prefix ctx conn s.unused) s.wired env
      ∙ ap (deliver env) h
      ∙ deliver_audio env wav s.output_room

  -- `mii-sound tts` with a server that has a model: a request that keeps the rules, and whose audio
  -- the engine gives back, ends with success, and exactly that audio is in the output.
  pub run-speaks :
      (engine : Local)
      → ctx.relay ≡ none
      → ctx.tts ≡ some engine
      → engine.queued bytes (received (audio_of user tail)) ≡ done wav
      → run json args env ≡ spoken env wav
  run-speaks engine alone has spoke = plays (
      engine_reply ctx wav (arrived (request_of user tail bytes)) (wire_of args user) refl
        s.deserialized engine alone has spoke)

  -- The same on a server that is a relay, for a client that stays: if the upstream gives an audio for
  -- what the user asked, the client ends with success, and exactly that audio is in the output.
  pub run-relays :
      (api : Api) (n : ℕ)
      → ctx.relay ≡ some api
      → ctx.waits ≡ suc n
      → asked api args user tail ≡ success wav
      → run json args env ≡ spoken env wav
  run-relays api n relays stays spoke = plays (
      upstream_reply ctx wav (arrived (request_of user tail bytes)) (wire_of args user) refl
        s.deserialized api n relays stays
        (tts-asked api args user tail s.rules ∙ ap (mapped api) spoke))
