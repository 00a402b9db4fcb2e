-- ===== src/Worker/Order.antt =====
-- The order of the responses of `handle_batch_request` of src/worker.rs.
use mii_sound.Common.{
  ℕ, ◌≡◌, ◌≢◌, ◌∙◌, ap, refl, sym, arith, Bool, Bool-cases, inl, inr, List, [], ◌∷◌, ◌++◌, text,
  Text, Option, length, map, replicate, Each, ◌||◌,
}
use mii_sound.Io.{good, bad, Parsed-cases}
use mii_sound.Proto.{st_ok, st_bad_request, st_generation_failed, Response, TtsRequest}
use mii_sound.Proto as Proto
use mii_sound.Synth.{
  Options, vox_ok, VoxResult-cases, BatchItem, batch_prompts, build_prompt, run_prompts, or_default,
  synth_batch_inner, wav_of, broke, SynthError, cancelled, other,
}
use mii_sound.Worker.{
  Env, Libs, spawn_blocking, error_response, ok_response, response_of, batch_responses, parse_items,
  synthesize_items, handle_batch_request, returned,
}
use mii_sound.Worker.Batches.{parse_items-length}

module _ (libs : Libs) where
  open libs use {vox, from_slice}

  -- What the library is asked for an item: its text, with the prompt of its audio.
  pub record Asked (item : Proto.BatchItem) (asked : Text × vox.Prompt) : Type 0 where
    pub req : TtsRequest
    pub prompt : Option vox.Prompt
    pub parses : from_slice item.json ≡ good req
    pub built : build_prompt vox req item.audio ≡ good prompt
    pub same_text : asked.0 ≡ req.text
    pub same_prompt : asked.1 ≡ or_default vox prompt

  -- The options of a batch are those of its first item.
  pub record Leads (items : List Proto.BatchItem) (opts : Options vox.Prompt) : Type 0 where
    pub first : Proto.BatchItem
    pub others : List Proto.BatchItem
    pub parts : items ≡ first ∷ others
    pub req : TtsRequest
    pub parses : from_slice first.json ≡ good req
    pub same_cfg : opts.cfg ≡ req.cfg
    pub same_steps : opts.timesteps ≡ req.steps

  -- The response for one buffer of the library: its WAV, or why it has none.
  pub data Sounds (samples : List ℕ) (resp : Response) : Type 0 where
    encoded :
        (wav : List ℕ)
        → vox.encode_wav samples vox.sample_rate ≡ good wav
        → resp ≡ ok_response wav
        → Sounds samples resp
    unencoded :
        (x : Text)
        → vox.encode_wav samples vox.sample_rate ≡ bad x
        → resp ≡ error_response st_generation_failed (text "encoding wav failed: " ++ x)
        → Sounds samples resp

  -- The responses to a batch: one error for all its items, or, place by place, the audio that the
  -- library made of the item's text and reference, all in one call with the options of the first
  -- item.
  pub data InOrder (items : List Proto.BatchItem) (resps : List Response) : Type 0 where
    all_failed :
        (status : ℕ) (message : Text)
        → status ≢ st_ok
        → resps ≡ replicate (length items) (error_response status message)
        → InOrder items resps
    spoken :
        (asked : List (Text × vox.Prompt)) (opts : Options vox.Prompt) (pcms : List (List ℕ))
        → Each Asked items asked
        → Leads items opts
        → vox.run_batch asked opts ≡ vox_ok pcms
        → Each Sounds pcms resps
        → InOrder items resps

  response_of-Sounds : (samples : List ℕ) → Sounds samples (response_of (wav_of vox samples))
  unfolding response_of wav_of
  response_of-Sounds samples = elim (Parsed-cases (vox.encode_wav samples vox.sample_rate)) [
    | inl (wav, e) ↦ encoded wav e (rw (e, wav_of) refl)
    | inr (x, e) ↦ unencoded x e (rw (e, wav_of) refl)
  ]

  responses-Sounds :
      (pcms : List (List ℕ)) → Each Sounds pcms (map response_of (map (wav_of vox) pcms))
  responses-Sounds [] = tt
  responses-Sounds (samples ∷ pcms) = (response_of-Sounds samples, responses-Sounds pcms)

  items-Asked :
      (items : List Proto.BatchItem) (parsed : List BatchItem) (asked : List (Text × vox.Prompt))
      → parse_items libs items ≡ good parsed
      → batch_prompts vox parsed ≡ good asked
      → Each Asked items asked
  unfolding parse_items batch_prompts
  items-Asked [] parsed asked p b =
      let none_parsed : [] ≡ parsed = cc p in
      let none_asked : [] ≡ asked = cc (rw (sym none_parsed) at b) in rw (sym none_asked) tt
  items-Asked (item ∷ items) parsed asked p b = elim (Parsed-cases (from_slice item.json)) [
    | inr (x, r) ↦ absurd (cc (rw (r, parse_items) at p))
    | inl (req, r) ↦ elim (Parsed-cases (parse_items libs items)) [
      | inr (x, r') ↦ absurd (cc (rw (r, r', parse_items) at p))
      | inl (rest, r') ↦
          let whole : record { req = req; inline_audio = item.audio } ∷ rest ≡ parsed =
            cc (rw (r, r', parse_items) at p) in
          let b' = rw (sym whole) at b in
          elim (Parsed-cases (build_prompt vox req item.audio)) [
            | inr (x, s) ↦ absurd (cc (rw (s, batch_prompts) at b'))
            | inl (prompt, s) ↦ elim (Parsed-cases (batch_prompts vox rest)) [
              | inr (x, s') ↦ absurd (cc (rw (s, s', batch_prompts) at b'))
              | inl (others, s') ↦
                  let all : (req.text, or_default vox prompt) ∷ others ≡ asked =
                    cc (rw (s, s', batch_prompts) at b') in
                  rw (sym all) (
                    record {
                      req = req;
                      prompt = prompt;
                      parses = r;
                      built = s;
                      same_text = refl;
                      same_prompt = refl;
                    },
                    items-Asked items rest others r' s',
                  )
            ]
          ]
    ]
  ]

  first_parses :
      (item : Proto.BatchItem) (items : List Proto.BatchItem) (x : BatchItem)
      (parsed : List BatchItem)
      → parse_items libs (item ∷ items) ≡ good (x ∷ parsed)
      → from_slice item.json ≡ good x.req
  unfolding parse_items
  first_parses item items x parsed p = elim (Parsed-cases (from_slice item.json)) [
    | inr (m, r) ↦ absurd (cc (rw (r, parse_items) at p))
    | inl (req, r) ↦ elim (Parsed-cases (parse_items libs items)) [
      | inr (m, r') ↦ absurd (cc (rw (r, r', parse_items) at p))
      | inl (rest, r') ↦
          let same : record { req = req; inline_audio = item.audio } ≡ x =
            cc (rw (r, r', parse_items) at p) in
          r ∙ ap (λ (b : BatchItem). good b.req) same
    ]
  ]

  broke-InOrder :
      (items : List Proto.BatchItem) (e : SynthError)
      → InOrder items (replicate (length items) (response_of (broke e)))
  unfolding response_of
  broke-InOrder items cancelled =
      all_failed st_generation_failed (text "cancelled") (λ h. omega (arith, h)) refl
  broke-InOrder items (other message) =
      all_failed st_generation_failed message (λ h. omega (arith, h)) refl

  run_prompts-InOrder :
      (items : List Proto.BatchItem) (asked : List (Text × vox.Prompt)) (opts : Options vox.Prompt)
      → Each Asked items asked
      → Leads items opts
      → InOrder items (batch_responses libs (length items) (returned (run_prompts vox asked opts)))
  unfolding run_prompts batch_responses
  run_prompts-InOrder items asked opts each leads =
      elim (VoxResult-cases (vox.run_batch asked opts)) [
        | inl (pcms, r) ↦
            rw (r, run_prompts) (spoken asked opts pcms each leads r (responses-Sounds pcms))
        | inr (x, r) ↦ rw (r, run_prompts) (broke-InOrder items _)
      ]

  synth_batch_inner-InOrder :
      (item : Proto.BatchItem) (items : List Proto.BatchItem) (parsed : List BatchItem)
      (cancel : Bool)
      → parse_items libs (item ∷ items) ≡ good parsed
      → InOrder (item ∷ items) (
          batch_responses libs
            (length (item ∷ items))
            (returned (synth_batch_inner vox parsed cancel)))
  unfolding synth_batch_inner batch_responses
  synth_batch_inner-InOrder item items [] cancel p =
      absurd (omega (arith, parse_items-length libs (item ∷ items) [] p))
  synth_batch_inner-InOrder item items (x ∷ parsed) cancel p =
      elim (Parsed-cases (batch_prompts vox (x ∷ parsed))) [
        | inl (asked, r) ↦
            rw (r, synth_batch_inner)
              (run_prompts-InOrder (item ∷ items) asked _
                (items-Asked (item ∷ items) (x ∷ parsed) asked p r)
                (record {
                  first = item;
                  others = items;
                  parts = refl;
                  req = x.req;
                  parses = first_parses item items x parsed p;
                  same_cfg = refl;
                  same_steps = refl;
                }))
        | inr (m, r) ↦ rw (r, synth_batch_inner) (broke-InOrder (item ∷ items) (other m))
      ]

  -- A batch is answered in the order of its items, whatever becomes of it.
  pub handle_batch_request-InOrder :
      (env : Env) (poisoned : Bool) (items : List Proto.BatchItem)
      → InOrder items (handle_batch_request libs env poisoned items).0
  unfolding handle_batch_request synthesize_items spawn_blocking
  handle_batch_request-InOrder env poisoned [] =
      all_failed st_generation_failed [] (λ h. omega (arith, h)) refl
  handle_batch_request-InOrder env poisoned (item ∷ items) =
      elim (Parsed-cases (parse_items libs (item ∷ items))) [
        | inr (x, r) ↦
            rw (r, handle_batch_request) (all_failed st_bad_request _ (λ h. omega (arith, h)) refl)
        | inl (parsed, r) ↦
            rw (r, handle_batch_request)
              (elim (Bool-cases (poisoned || env.panics)) [
                | inl h ↦ rw h (
                    unfold batch_responses in
                    all_failed st_generation_failed _ (λ h. omega (arith, h)) refl)
                | inr h ↦ rw h (synth_batch_inner-InOrder item items parsed env.signalled r)
              ])
      ]
