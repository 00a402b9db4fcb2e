-- ===== src/Server/Connection/Replies.antt =====
-- What a connection of src/server/mod.rs sends, and that the client and the worker fit to it.
use mii_sound.Common.{
  ℕ, bytes_eq_iff, ◌-◌, ◌≤◌, ◌≡◌, ◌⊎◌, inl, inr, refl, ap, ◌∙◌, arith, Text, text, Bool, true,
  false, Bool-cases, List, [], ◌∷◌, ◌++◌, Option, some, All, length, append-nil, if◌then◌else◌,
  bytes_eq,
}
use mii_sound.Common.Utf8.{from_utf8, from_utf8_lossy, from_utf8_lossy-from_utf8}
use mii_sound.Io.{Result, err, msg}
use mii_sound.Io.Write.{Writer, Write, Writes, Writes-seq, write_all_fits, write_all_nil}
use mii_sound.Proto.{
  st_ok, st_bad_request, st_model_missing, st_generation_failed, max_token, Response, StreamFrame,
}
use mii_sound.Proto.Wire.{
  encode_all, encode_token, encode_response, encode_stream_frame, write_stream_frame-encode,
  write_response-encode,
}
use mii_sound.Proto.RoundTrip.{read_token-encode}
use mii_sound.Server.Engine.Dispatch.{result_of}
use mii_sound.Server.Engine.Stream.{error_frame, terminal}
use mii_sound.Server.Connection.{
  Ctx, reply_of, error_reply, invalid_token, forward_frames, expected, handle, read_and_answer,
}

-- The frames that a client gets: up to the first terminal one, or with an error at the end.
unfoldable pub delivered : Text → List StreamFrame → List StreamFrame
delivered why [] = error_frame st_generation_failed why ∷ []
delivered why (frame ∷ frames) =
    let rest = delivered why frames in if terminal frame then frame ∷ [] else frame ∷ rest

-- Frames that go on, and a terminal one at the end.
pub record Complete (frames : List StreamFrame) : Type 0 where
  pub inner : List StreamFrame
  pub last : StreamFrame
  pub parts : frames ≡ inner ++ last ∷ []
  pub going_on : All (λ f. terminal f ≡ false) inner
  pub ends : terminal last ≡ true

delivered-Complete : (why : Text) (frames : List StreamFrame) → Complete (delivered why frames)
unfolding delivered
delivered-Complete why [] = record {
  inner = [];
  last = error_frame st_generation_failed why;
  parts = refl;
  going_on = tt;
  ends = unfold terminal error_frame in refl;
}
delivered-Complete why (f ∷ frames) = elim (Bool-cases (terminal f)) [
  | inl e ↦
      rw (e, delivered) (record { inner = []; last = f; parts = refl; going_on = tt; ends = e })
  | inr e ↦
      let c = delivered-Complete why frames in
      rw (e, delivered)
        (record {
          inner = f ∷ c.inner;
          last = c.last;
          parts = ap (◌∷◌ f) c.parts;
          going_on = (e, c.going_on);
          ends = c.ends;
        })
]

forward_frames-Writes :
    (why : Text) (frames : List StreamFrame)
    → Writes (forward_frames why frames) (encode_all encode_stream_frame (delivered why frames))
unfolding forward_frames delivered encode_all
forward_frames-Writes why [] =
    rw (append-nil (encode_stream_frame (error_frame st_generation_failed why)))
      (write_stream_frame-encode _)
forward_frames-Writes why (f ∷ frames) = elim (Bool-cases (terminal f)) [
  | inl e ↦ rw e (Writes-seq (encode_stream_frame f) [] (write_stream_frame-encode f) write_all_nil)
  | inr e ↦ rw e (
      Writes-seq (encode_stream_frame f) _ (write_stream_frame-encode f)
        (forward_frames-Writes why frames))
]

-- A client that reads a stream gets whole frames with exactly one terminal frame, at the end,
-- whatever comes over the channel: nothing behind a terminal frame, and an error frame if the
-- channel closes without one.
pub forward_frames-Complete :
    (why : Text) (frames : List StreamFrame)
    → (Writes (forward_frames why frames) (encode_all encode_stream_frame (delivered why frames)))
      × Complete (delivered why frames)
forward_frames-Complete why frames =
    (forward_frames-Writes why frames, delivered-Complete why frames)

-- A response of the worker with a readable text on an error reaches the client as it is.
pub reply_of-result_of :
    (resp : Response)
    → (resp.status ≡ st_ok)
      ⊎ (((resp.status ≡ st_model_missing) ⊎ (resp.status ≡ st_generation_failed))
          × (from_utf8 resp.payload ≡ some resp.payload))
    → reply_of (result_of resp) ≡ resp
unfolding reply_of result_of
reply_of-result_of resp h = ground (arith, (bytes_eq_iff resp.payload (text "cancelled")).0, lossy)
  where
    lossy : from_utf8 resp.payload ≡ some resp.payload → from_utf8_lossy resp.payload ≡ resp.payload
    lossy u = (from_utf8_lossy-from_utf8 resp.payload resp.payload u).1

handle_read :
    (ctx : Ctx) (token : Text) (s : List ℕ) (b : Bool)
    → length token ≤ max_token
    → from_utf8 token ≡ some token
    → bytes_eq token (expected ctx.expected_token) ≡ b
    → handle ctx true (encode_token token ++ s)
      ≡ (if b then read_and_answer ctx s else invalid_token)
unfolding handle
handle_read ctx token s b short utf8 e =
    rw (read_token-encode token s short utf8, handle) (rw e refl)

-- Behind the token of the server everything is answered as on a connection without one.
pub handle-token :
    (ctx : Ctx) (token : Text) (s : List ℕ)
    → length token ≤ max_token
    → from_utf8 token ≡ some token
    → ctx.expected_token ≡ some token
    → handle ctx true (encode_token token ++ s) ≡ handle ctx false s
handle-token ctx token s short utf8 same =
    handle_read ctx token s true short utf8 (
      ap (λ (o : Option Text). bytes_eq token (expected o)) same
      ∙ (bytes_eq_iff token token).1 refl)
    ∙ unfold handle in refl

-- Behind another token nothing is read and nothing is done: the client gets one response that says
-- so, and the connection ends with an error.
pub handle-wrong_token :
    (ctx : Ctx) (token : Text) (s : List ℕ) (w : Writer)
    → length token ≤ max_token
    → from_utf8 token ≡ some token
    → bytes_eq token (expected ctx.expected_token) ≡ false
    → length (encode_response (error_reply st_bad_request (text "invalid token"))) ≤ w.room
    → handle ctx true (encode_token token ++ s) w ≡ (
      err (msg (text "invalid token")),
      record {
        sent = w.sent ++ encode_response (error_reply st_bad_request (text "invalid token"));
        room =
            w.room - length (encode_response (error_reply st_bad_request (text "invalid token")));
      },
    )
handle-wrong_token ctx token s w short utf8 other room =
    ap (λ (m : Write). m w) (handle_read ctx token s false short utf8 other)
    ∙ ap (λ (p : Result (Unit {0}) × Writer). (err (msg (text "invalid token")), p.1))
        (write_response-encode (error_reply st_bad_request (text "invalid token")) w
          ∙ write_all_fits (encode_response (error_reply st_bad_request (text "invalid token"))) w
              room)
