-- ===== src/Worker/Batches.antt =====
-- `handle_batch_request` of src/worker.rs: how many responses.
use mii_sound.Common.{
  ℕ, suc, ◌≡◌, refl, sym, ap, ◌∙◌, Text, Bool, true, false, List, [], ◌∷◌, length, length-map,
  length-replicate, map, Bool-cases, inl, inr,
}
use mii_sound.Io.{good, Parsed-cases}
use mii_sound.Proto.{op_tts_batch, max_batch, st_generation_failed, Response}
use mii_sound.Proto as Proto
use mii_sound.Synth.{
  vox_ok, VoxResult-cases, wav_of, Options, Synth, made, broke, BatchItem, synth_batch_inner,
  batch_prompts, build_prompt, run_prompts, or_default,
}
use mii_sound.Worker.{
  Env, Libs, Joined, returned, panicked, spawn_blocking, error_response, response_of,
  batch_responses, parse_items, synthesize_items, handle_batch_request, panic_message,
}

module _ (libs : Libs) where
  open libs use {vox, vox_text, from_slice, panic_text}

  -- `run` of a batch gives one buffer for each text.
  abbrev pub OneEach : Type 0
  OneEach =
      (prompts : List (Text × vox.Prompt)) (opts : Options vox.Prompt) (pcms : List (List ℕ))
      → vox.run_batch prompts opts ≡ vox_ok pcms
      → length pcms ≡ length prompts

  pub parse_items-length :
      (items : List Proto.BatchItem) (parsed : List BatchItem)
      → parse_items libs items ≡ good parsed
      → length parsed ≡ length items
  unfolding parse_items
  parse_items-length [] parsed e = let none_left : [] ≡ parsed = cc e in ap length (sym none_left)
  parse_items-length (item ∷ items) parsed e = elim (Parsed-cases (from_slice item.json)) [
    | inr (x, r) ↦ absurd (cc (rw (r, parse_items) at e))
    | inl (req, r) ↦ elim (Parsed-cases (parse_items libs items)) [
      | inr (x, r') ↦ absurd (cc (rw (r, r', parse_items) at e))
      | inl (rest, r') ↦
          let whole : record { req = req; inline_audio = item.audio } ∷ rest ≡ parsed =
            cc (rw (r, r', parse_items) at e) in
          sym (ap length whole) ∙ ap suc (parse_items-length items rest r')
    ]
  ]

  batch_prompts-length :
      (items : List BatchItem) (prompts : List (Text × vox.Prompt))
      → batch_prompts vox items ≡ good prompts
      → length prompts ≡ length items
  unfolding batch_prompts
  batch_prompts-length [] prompts e =
      let none_left : [] ≡ prompts = cc e in ap length (sym none_left)
  batch_prompts-length (item ∷ items) prompts e =
      elim (Parsed-cases (build_prompt vox item.req item.inline_audio)) [
        | inr (x, r) ↦ absurd (cc (rw (r, batch_prompts) at e))
        | inl (p, r) ↦ elim (Parsed-cases (batch_prompts vox items)) [
          | inr (x, r') ↦ absurd (cc (rw (r, r', batch_prompts) at e))
          | inl (rest, r') ↦
              let whole : (item.req.text, or_default vox p) ∷ rest ≡ prompts =
                cc (rw (r, r', batch_prompts) at e) in
              sym (ap length whole) ∙ ap suc (batch_prompts-length items rest r')
        ]
      ]

  run_prompts-length :
      (prompts : List (Text × vox.Prompt)) (opts : Options vox.Prompt)
      (results : List (Synth (List ℕ)))
      → OneEach
      → run_prompts vox prompts opts ≡ made results
      → length results ≡ length prompts
  unfolding run_prompts
  run_prompts-length prompts opts results one e =
      elim (VoxResult-cases (vox.run_batch prompts opts)) [
        | inr (x, r) ↦ absurd (cc (rw (r, run_prompts) at e))
        | inl (pcms, r) ↦
            let whole : map (wav_of vox) pcms ≡ results = cc (rw (r, run_prompts) at e) in
            sym (ap length whole) ∙ length-map (wav_of vox) pcms ∙ one prompts opts pcms r
      ]

  -- A library that gives one buffer for each text makes one result for each item.
  synth_batch_inner-length :
      (items : List BatchItem) (cancel : Bool) (results : List (Synth (List ℕ)))
      → OneEach
      → synth_batch_inner vox items cancel ≡ made results
      → length results ≡ length items
  unfolding synth_batch_inner run_prompts
  synth_batch_inner-length [] cancel results one e =
      let none_left : [] ≡ results = cc e in ap length (sym none_left)
  synth_batch_inner-length (item ∷ items) cancel results one e =
      elim (Parsed-cases (batch_prompts vox (item ∷ items))) [
        | inr (x, r) ↦ absurd (cc (rw (r, synth_batch_inner) at e))
        | inl (prompts, r) ↦
            run_prompts-length prompts _ results one (rw (r, synth_batch_inner) at e)
            ∙ batch_prompts-length (item ∷ items) prompts r
      ]

  batch_responses-length :
      (count : ℕ) (joined : Joined (Synth (List (Synth (List ℕ)))))
      → ((results : List (Synth (List ℕ)))
          → joined ≡ returned (made results)
          → length results ≡ count)
      → length (batch_responses libs count joined) ≡ count
  unfolding batch_responses
  batch_responses-length count (returned (made results)) h =
      length-map response_of results ∙ h results refl
  batch_responses-length count (returned (broke e)) h =
      length-replicate count (response_of (broke e))
  batch_responses-length count panicked h =
      length-replicate count (error_response st_generation_failed (panic_message libs))

  spawn_blocking-returned :
      {A : Type 0} (env : Env) (poisoned : Bool) (a b : A)
      → (spawn_blocking env poisoned a).0 ≡ returned b
      → a ≡ b
  unfolding spawn_blocking
  spawn_blocking-returned env true a b e = absurd (cc e)
  spawn_blocking-returned env false a b e = elim (Bool-cases env.panics) [
    | inl h ↦ absurd (cc (rw (h, spawn_blocking) at e))
    | inr h ↦ cc (rw (h, spawn_blocking) at e)
  ]

  -- The worker answers every item of a batch, whatever becomes of it, if the library gives one
  -- buffer for each text.
  pub handle_batch_request-length :
      (env : Env) (poisoned : Bool) (items : List Proto.BatchItem)
      → OneEach
      → length (handle_batch_request libs env poisoned items).0 ≡ length items
  unfolding handle_batch_request synthesize_items
  handle_batch_request-length env poisoned [] one = refl
  handle_batch_request-length env poisoned (item ∷ items) one =
      elim (Parsed-cases (parse_items libs (item ∷ items))) [
        | inr (x, r) ↦ rw (r, handle_batch_request) (length-replicate (suc (length items)) _)
        | inl (parsed, r) ↦
            rw (r, handle_batch_request)
              (batch_responses-length (suc (length items)) _ (λ results h.
                synth_batch_inner-length parsed env.signalled results one
                  (spawn_blocking-returned env poisoned _ _ h)
                ∙ parse_items-length (item ∷ items) parsed r))
      ]
