-- ===== src/Server/Connection/Turns.antt =====
-- The clients that leave, in src/server/mod.rs: the tasks that watch the read half of a connection,
-- and the loop of `handle_stream_relay` with its turns in any order.
use mii_sound.Common.{
  ℕ, zero, suc, ◌≡◌, refl, sym, ap, subst, fun_ext, inl, inr, Text, text, Bool, true, false,
  Bool-cases, List, [], ◌∷◌, ◌++◌, if◌then◌else◌,
}
use mii_sound.Io.{Result, ok, err, good}
use mii_sound.Io.Write.{Writer, Write, ◌>>◌}
use mii_sound.Io.Write as Out
use mii_sound.Proto.{st_generation_failed, TtsRequest, Request, StreamFrame}
use mii_sound.Proto.Write.{write_stream_frame}
use mii_sound.Server.Engine.Stream.{error_frame, terminal}
use mii_sound.Server.Relay.Requests as Relay
use mii_sound.Server.Relay.Requests.{Api}
use mii_sound.Server.Connection.{Ctx, channel, stream_or, forward_while, handle_stream_relay}
use mii_sound.Server.Connection.Relaying.{Relayed, handle_stream_relay-Relayed}

-- What `read.read(&mut buf)` gives: a number of bytes, or an error. `Ok(0) | Err(_)` is the end.
abbrev pub is_gone : Result ℕ → Bool
is_gone (ok zero) = true
is_gone (ok (suc n)) = false
is_gone (err e) = true

-- The watcher of a client of the engine: whether it has given its notice behind these reads.
unfoldable pub watcher : List (Result ℕ) → Bool
watcher [] = false
watcher (r ∷ rs) = if is_gone r then true else watcher rs

-- What the `select!` of `handle_stream_relay` meets: a read of the client's side is done, or the
-- channel has its next frame or is closed.
pub data ClientTurn : Type 0 where
  read : Result ℕ → ClientTurn
  next : ClientTurn

-- The loop, over the frames that the channel still gives until it closes.
unfoldable pub turn_loop : Text → List ClientTurn → List StreamFrame → Write
turn_loop why [] frames = Out.done
turn_loop why (read r ∷ turns) frames =
    let rest = turn_loop why turns frames in if is_gone r then Out.done else rest
turn_loop why (next ∷ turns) [] = write_stream_frame (error_frame st_generation_failed why)
turn_loop why (next ∷ turns) (frame ∷ frames) =
    let rest = turn_loop why turns frames in
    write_stream_frame frame >> (if terminal frame then Out.done else rest)

-- How many turns of the channel there are before the client is gone.
unfoldable pub stays : List ClientTurn → ℕ
stays [] = 0
stays (read r ∷ turns) = if is_gone r then 0 else stays turns
stays (next ∷ turns) = suc (stays turns)

abbrev pub staying : List ClientTurn → Ctx → Ctx
staying turns ctx = record ctx { waits = stays turns }

-- `handle_stream_relay`, turn by turn.
unfoldable pub handle_turns : List ClientTurn → Ctx → Api → Request → Write
unfolding turn_loop
handle_turns turns ctx relay req = stream_or ctx.from_slice req.json (λ parsed.
    turn_loop (text "relay stream ended without terminal frame") turns
      (Relay.tts_stream relay parsed req.audio (channel (stays turns))).taken)

turn_loop-forward_while :
    (why : Text) (turns : List ClientTurn) (frames : List StreamFrame)
    → turn_loop why turns frames ≡ forward_while (stays turns) why frames
unfolding turn_loop forward_while stays
turn_loop-forward_while why [] frames = refl
turn_loop-forward_while why (read r ∷ turns) frames = elim (Bool-cases (is_gone r)) [
  | inl gone ↦ rw gone refl
  | inr here ↦ rw here (turn_loop-forward_while why turns frames)
]
turn_loop-forward_while why (next ∷ turns) [] = refl
turn_loop-forward_while why (next ∷ turns) (frame ∷ frames) =
    ap (λ (m : Write). write_stream_frame frame >> (if terminal frame then Out.done else m))
      (turn_loop-forward_while why turns frames)

handle_turns-staying :
    (turns : List ClientTurn) (ctx : Ctx) (relay : Api) (req : Request)
    → handle_turns turns ctx relay req ≡ handle_stream_relay (staying turns ctx) relay req
unfolding handle_turns handle_stream_relay
handle_turns-staying turns ctx relay req =
    ap (stream_or ctx.from_slice req.json) (fun_ext (λ parsed. turn_loop-forward_while _ turns _))

-- In every order of the reads of the client's side and of the frames that the upstream becomes, the
-- client gets whole frames with exactly one terminal frame, at the end, or those for which it
-- stayed.
pub handle_turns-Relayed :
    (turns : List ClientTurn) (ctx : Ctx) (relay : Api) (req : Request) (parsed : TtsRequest)
    → ctx.from_slice req.json ≡ good parsed
    → Relayed (stays turns) (handle_turns turns ctx relay req)
handle_turns-Relayed turns ctx relay req parsed h =
    subst (Relayed (stays turns)) (sym (handle_turns-staying turns ctx relay req))
      (handle_stream_relay-Relayed (staying turns ctx) relay req parsed h)

-- A read that shows the end of the client's side.
pub record HasEnded (rs : List (Result ℕ)) : Type 0 where
  pub before : List (Result ℕ)
  pub last : Result ℕ
  pub behind : List (Result ℕ)
  pub parts : rs ≡ before ++ last ∷ behind
  pub ends : is_gone last ≡ true

pub watcher-HasEnded : (rs : List (Result ℕ)) → watcher rs ≡ true → HasEnded rs
unfolding watcher
watcher-HasEnded [] h = absurd (cc h)
watcher-HasEnded (r ∷ rs) h = elim (Bool-cases (is_gone r)) [
  | inl gone ↦ record { before = []; last = r; behind = rs; parts = refl; ends = gone }
  | inr here ↦
      let e = watcher-HasEnded rs (rw here at h) in
      record {
        before = r ∷ e.before;
        last = e.last;
        behind = e.behind;
        parts = ap (◌∷◌ r) e.parts;
        ends = e.ends;
      }
]
