-- ===== src/Worker/Panic.antt =====
-- What a panic of the model does to the later requests of src/worker.rs.
use mii_sound.Common.{
  ◌≡◌, refl, ap, ◌∙◌, arith, Bool, true, ◌||◌, inl, inr, List, [], ◌∷◌, ◌++◌, text, Text, length,
  length-map, map, replicate, Each,
}
use mii_sound.Io.{good, bad, Parsed-cases}
use mii_sound.Proto.{st_bad_request, st_generation_failed, Response}
use mii_sound.Proto as Proto
use mii_sound.Proto.RoundTrip.{received_item}
use mii_sound.Synth.{BatchItem}
use mii_sound.Worker.{
  Env, Libs, spawn_blocking, error_response, batch_responses, parse_items, synthesize_items,
  handle_batch_request, panic_message,
}
use mii_sound.Worker.Pipe.{answers}

module _ (libs : Libs) where
  -- The responses to a batch once the model has panicked: one for each item, and every one of them
  -- the error of a panic, or, if the JSON of the batch does not parse, the error that says so.
  pub data Broken (batch : List Proto.BatchItem) (resps : List Response) : Type 0 where
    panics :
        (parsed : List BatchItem)
        → parse_items libs (map received_item batch) ≡ good parsed
        → resps
          ≡ replicate (length batch) (error_response st_generation_failed (panic_message libs))
        → Broken batch resps
    unread :
        (x : Text)
        → parse_items libs (map received_item batch) ≡ bad x
        → resps
          ≡ replicate
              (length batch)
              (error_response st_bad_request (text "invalid tts json: " ++ x))
        → Broken batch resps

  -- A batch that panics, or one behind a panic, is answered by errors of a panic.
  handle_batch_request-panics :
      (env : Env) (poisoned : Bool) (item : Proto.BatchItem) (items : List Proto.BatchItem)
      (parsed : List BatchItem)
      → (poisoned || env.panics) ≡ true
      → parse_items libs (item ∷ items) ≡ good parsed
      → handle_batch_request libs env poisoned (item ∷ items) ≡ (
        replicate
            (length (item ∷ items))
            (error_response st_generation_failed (panic_message libs)),
        true,
      )
  unfolding handle_batch_request synthesize_items spawn_blocking batch_responses
  handle_batch_request-panics env poisoned item items parsed h e =
      rw (e, handle_batch_request) (rw h refl)

  handle_batch_request-unread :
      (env : Env) (poisoned : Bool) (item : Proto.BatchItem) (items : List Proto.BatchItem)
      (x : Text)
      → parse_items libs (item ∷ items) ≡ bad x
      → handle_batch_request libs env poisoned (item ∷ items) ≡ (
        replicate
            (length (item ∷ items))
            (error_response st_bad_request (text "invalid tts json: " ++ x)),
        poisoned,
      )
  unfolding handle_batch_request
  handle_batch_request-unread env poisoned item items x e = rw (e, handle_batch_request) refl

  same_length :
      (batch : List Proto.BatchItem) (r : Response)
      → replicate (length (map received_item batch)) r ≡ replicate (length batch) r
  same_length batch r = ap (λ n. replicate n r) (length-map received_item batch)

  -- The state stays poisoned, and the responses are those of a broken worker.
  handle_batch_request-Broken :
      (env : Env) (batch : List Proto.BatchItem)
      → ((handle_batch_request libs env true (map received_item batch)).1 ≡ true)
        × Broken batch (handle_batch_request libs env true (map received_item batch)).0
  unfolding handle_batch_request parse_items
  handle_batch_request-Broken env [] = (refl, panics [] refl refl)
  handle_batch_request-Broken env (item ∷ batch) =
      elim (Parsed-cases (parse_items libs (map received_item (item ∷ batch)))) [
        | inl (parsed, e) ↦
            let whole = handle_batch_request-panics env true _ _ parsed refl e in
            (
              ap (λ (p : List Response × Bool). p.1) whole,
              panics parsed e
                  (ap (λ (p : List Response × Bool). p.0) whole ∙ same_length (item ∷ batch) _),
            )
        | inr (x, e) ↦
            let whole = handle_batch_request-unread env true _ _ x e in
            (
              ap (λ (p : List Response × Bool). p.1) whole,
              unread x e
                  (ap (λ (p : List Response × Bool). p.0) whole ∙ same_length (item ∷ batch) _),
            )
      ]

  answers-poisoned :
      (envs : List Env) (poisoned : Bool) (batches : List (List Proto.BatchItem))
      → poisoned ≡ true
      → length envs ≡ length batches
      → Each Broken batches (answers libs envs poisoned batches)
  unfolding answers
  answers-poisoned [] poisoned [] h same = tt
  answers-poisoned [] poisoned (batch ∷ batches) h same = absurd (omega (arith, same))
  answers-poisoned (env ∷ envs) poisoned [] h same = absurd (omega (arith, same))
  answers-poisoned (env ∷ envs) poisoned (batch ∷ batches) h same =
      let broken = handle_batch_request-Broken env batch in
      (rw h broken.1, answers-poisoned envs _ batches (rw h broken.0) (omega (arith, same)))

  -- If the model panics at a batch whose JSON parses, each item of that batch and of every later
  -- one is answered, whatever the model would do with it: by the error of a panic, or, if the JSON
  -- of its batch does not parse, by the error that says so. The process never recovers.
  pub answers-Broken :
      (env : Env) (envs : List Env) (poisoned : Bool) (item : Proto.BatchItem)
      (items : List Proto.BatchItem) (batches : List (List Proto.BatchItem))
      (parsed : List BatchItem)
      → env.panics ≡ true
      → parse_items libs (map received_item (item ∷ items)) ≡ good parsed
      → length envs ≡ length batches
      → (answers libs (env ∷ envs) poisoned ((item ∷ items) ∷ batches)
          ≡ replicate
              (length (item ∷ items))
              (error_response st_generation_failed (panic_message libs))
            ∷ answers libs envs true batches)
        × Each Broken batches (answers libs envs true batches)
  unfolding answers
  answers-Broken env envs poisoned item items batches parsed p e same = (
    (λ i. first i ∷ answers libs envs (whole i).1 batches),
    answers-poisoned envs true batches refl same,
  )
    where
      whole : handle_batch_request libs env poisoned (map received_item (item ∷ items)) ≡ (
        replicate
            (length (map received_item (item ∷ items)))
            (error_response st_generation_failed (panic_message libs)),
        true,
      )
      whole = handle_batch_request-panics env poisoned _ _ parsed (ground (arith, p)) e

      first :
          (handle_batch_request libs env poisoned (map received_item (item ∷ items))).0
          ≡ replicate
              (length (item ∷ items))
              (error_response st_generation_failed (panic_message libs))
      first = ap (λ (q : List Response × Bool). q.0) whole ∙ same_length (item ∷ items) _
