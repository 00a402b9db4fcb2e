-- ===== src/Worker/Pipe.antt =====
-- The loop of src/worker.rs on the pipe of the engine.
use mii_sound.Common.{
  ℕ, ◌+◌, ◌-◌, ◌≤◌, ◌≡◌, refl, sym, ap, ◌∙◌, arith, Bool, List, [], ◌∷◌, ◌++◌, length,
  length-append, map, All, append_assoc, append-nil,
}
use mii_sound.Io.{Result, ok}
use mii_sound.Io.Read.{>>=-ok}
use mii_sound.Io.Write.{Writer, Write, write_all_fits}
use mii_sound.Proto.{proto_version, op_tts_batch, max_batch, Response}
use mii_sound.Proto as Proto
use mii_sound.Proto.Read.{read_op, read_batch_request_body}
use mii_sound.Proto.Wire.{
  encode_all, encode_batch_request, encode_batch_response, write_batch_response-encode,
}
use mii_sound.Proto.RoundTrip.{ItemFits, received_item, read_op-encode, read_batch_request-encode}
use mii_sound.Worker.{
  Env, Libs, handle_batch_request, serve_batch, serve_op, serve_next, serve_loop,
}

-- A batch that the engine can send.
pub record BatchFits (items : List Proto.BatchItem) : Type 0 where
  pub few : length items ≤ max_batch
  pub fit : All ItemFits items

module _ (libs : Libs) where
  -- The responses to each batch, with the state passed on.
  unfoldable pub answers : List Env → Bool → List (List Proto.BatchItem) → List (List Response)
  answers [] poisoned batches = []
  answers (env ∷ envs) poisoned [] = []
  answers (env ∷ envs) poisoned (items ∷ batches) =
      let (resps, poisoned') = handle_batch_request libs env poisoned (map received_item items) in
      resps ∷ answers envs poisoned' batches

  module _ (env : Env) (poisoned : Bool) where
    serve_op_batch :
        (stdin rest : List ℕ) (items : List Proto.BatchItem)
        → read_batch_request_body stdin ≡ ok (items, rest)
        → serve_op libs env poisoned op_tts_batch stdin
          ≡ ok (serve_batch libs env poisoned items, rest)
    unfolding serve_op
    serve_op_batch stdin rest items e = rw (e, serve_op) refl

    serve_next_op :
        (stdin rest : List ℕ) (op : ℕ)
        → read_op stdin ≡ ok (op, rest)
        → serve_next libs env poisoned stdin ≡ serve_op libs env poisoned op rest
    unfolding serve_next
    serve_next_op stdin rest op e = rw (e, serve_next) refl

    serve_next-encode :
        (items : List Proto.BatchItem) (rest : List ℕ)
        → BatchFits items
        → serve_next libs env poisoned (encode_batch_request items ++ rest)
          ≡ ok (serve_batch libs env poisoned (map received_item items), rest)
    unfolding encode_batch_request
    serve_next-encode items rest f =
        serve_next_op _ _ op_tts_batch (read_op-encode op_tts_batch _)
        ∙ serve_op_batch _ rest (map received_item items) (
            sym (>>=-ok read_op (λ op. read_batch_request_body) _ (read_op-encode op_tts_batch _))
            ∙ read_batch_request-encode items rest f.few f.fit)

    serve_loop_step :
        (envs : List Env) (stdin rest : List ℕ) (write : Write) (poisoned' : Bool)
        (stdout stdout' : Writer)
        → serve_next libs env poisoned stdin ≡ ok ((write, poisoned'), rest)
        → write stdout ≡ (ok tt, stdout')
        → serve_loop libs (env ∷ envs) poisoned stdin stdout
          ≡ serve_loop libs envs poisoned' rest stdout'
    unfolding serve_loop
    serve_loop_step envs stdin rest write poisoned' stdout stdout' e w =
        rw (e, serve_loop)
          (rw (ap (λ (p : Result (Unit {0}) × Writer). p.0) w)
            (ap (λ (p : Result (Unit {0}) × Writer). serve_loop libs envs poisoned' rest p.1) w))

  -- A worker whose stdout is read answers every batch that the engine writes, in order, takes
  -- exactly the bytes of the batches from its stdin, and leaves whole frames behind.
  pub serve_loop-batches :
      (envs : List Env) (poisoned : Bool) (batches : List (List Proto.BatchItem)) (stdout : Writer)
      → length envs ≡ length batches
      → All BatchFits batches
      → length (encode_all encode_batch_response (answers envs poisoned batches)) ≤ stdout.room
      → serve_loop libs envs poisoned (encode_all encode_batch_request batches) stdout ≡ (
        [],
        record {
          sent = stdout.sent ++ encode_all encode_batch_response (answers envs poisoned batches);
          room =
              stdout.room
              - length (encode_all encode_batch_response (answers envs poisoned batches));
        },
      )
  unfolding answers encode_all serve_batch
  serve_loop-batches [] poisoned [] stdout same fits room =
      unfold serve_loop in
      λ i. ([], record { sent = sym (append-nil stdout.sent) i; room = rooms i })
    where
      rooms : stdout.room ≡ stdout.room - 0
      rooms = omega arith
  serve_loop-batches [] poisoned (items ∷ batches) stdout same fits room =
      absurd (omega (arith, same))
  serve_loop-batches (env ∷ envs) poisoned [] stdout same fits room = absurd (omega (arith, same))
  serve_loop-batches (env ∷ envs) poisoned (items ∷ batches) stdout same fits room =
      serve_loop_step env poisoned envs _ (encode_all encode_batch_request batches) _ _ stdout _
        (serve_next-encode env poisoned items _ fits.0)
        (write_batch_response-encode here stdout
          ∙ write_all_fits (encode_batch_response here) stdout (omega (arith, total)))
      ∙ serve_loop-batches envs _ batches _ (omega (arith, same)) fits.1 (omega (arith, total))
      ∙ λ i. (
        [],
        record {
          sent =
              append_assoc stdout.sent (encode_batch_response here)
                (encode_all encode_batch_response later) i;
          room = rooms i;
        },
      )
    where
      here : List Response
      here = (handle_batch_request libs env poisoned (map received_item items)).0

      later : List (List Response)
      later =
          answers envs (handle_batch_request libs env poisoned (map received_item items)).1 batches

      total :
          length (encode_batch_response here ++ encode_all encode_batch_response later)
          ≡ length (encode_batch_response here) + length (encode_all encode_batch_response later)
      total = length-append (encode_batch_response here) _

      rooms :
          stdout.room
            - length (encode_batch_response here)
            - length (encode_all encode_batch_response later)
          ≡ stdout.room
            - length (encode_batch_response here ++ encode_all encode_batch_response later)
      rooms = omega (arith, total)
