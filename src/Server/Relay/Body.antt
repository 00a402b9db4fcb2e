-- ===== src/Server/Relay/Body.antt =====
-- `relay_wav_stream` behind the header of the upstream WAV.
use mii_sound.Common.{
  ℕ, suc, ◌+◌, ◌≡◌, refl, sym, ap, ◌∙◌, arith, true, List, [], ◌∷◌, ◌++◌, length, append_assoc,
  append-nil, length-append,
}
use mii_sound.Proto.{kind_end, StreamFrame}
use mii_sound.Server.Channel.{Sender, send}
use mii_sound.Server.Relay.WavStream.{
  Event, chunk, relayed, pair_samples, odd_byte, Carry, join_carry, keep_odd, send_samples,
  forward_pcm_chunk, State, next, take_body, on_chunk, close_stream, relay_loop,
}
use mii_sound.Server.Relay.Chunks.{emitted, carried, frames_of, body_frames, chunks}

abbrev pub end_frame : StreamFrame
end_frame = record { kind = kind_end; payload = [] }

-- The state behind the header.
abbrev pub opened : List ℕ → Carry → State
opened buf k = record { header_buf = buf; header_done = true; odd = k }

pub on_chunk-opened :
    (c buf : List ℕ) (k : Carry) (out : Sender)
    → on_chunk c (opened buf k) out
      ≡ next (opened buf (carried k c)) (send_samples (emitted k c) out)
on_chunk-opened [] buf k out =
    unfold on_chunk join_carry pair_samples odd_byte keep_odd send_samples in refl
on_chunk-opened (b ∷ c) buf k out = unfold on_chunk take_body forward_pcm_chunk in refl

-- The receiver still takes `n` frames more than those that are sent.
abbrev pub with_room : List StreamFrame → ℕ → Sender
with_room taken n = record { taken = taken; room = n }

send_samples_ok :
    (bs : List ℕ) (taken : List StreamFrame) (n : ℕ)
    → send_samples bs (with_room taken (length (frames_of bs) + n))
      ≡ with_room (taken ++ frames_of bs) n
send_samples_ok [] taken n =
    unfold send_samples in λ i. with_room (sym (append-nil taken) i) (same i)
  where
    same : 0 + n ≡ n
    same = omega arith
send_samples_ok (b ∷ bs) taken n = unfold send_samples send in rw (one_more n)
  where
    one_more : (n : ℕ) → 1 + n ≡ suc n
    one_more n = omega arith

pub relay_loop_next :
    (c : List ℕ) (events : List Event) (s s' : State) (out out' : Sender)
    → on_chunk c s out ≡ next s' out'
    → relay_loop (chunk c ∷ events) s out ≡ relay_loop events s' out'
unfolding relay_loop
relay_loop_next c events s s' out out' e = rw (e, relay_loop)

pub relay_loop_same :
    (c c' : List ℕ) (events : List Event) (s s' : State) (out out' : Sender)
    → on_chunk c s out ≡ on_chunk c' s' out'
    → relay_loop (chunk c ∷ events) s out ≡ relay_loop (chunk c' ∷ events) s' out'
unfolding relay_loop
relay_loop_same c c' events s s' out out' e = rw (e, relay_loop)

close_opened :
    (buf : List ℕ) (k : Carry) (taken : List StreamFrame) (n : ℕ)
    → relay_loop [] (opened buf k) (with_room taken (suc n))
      ≡ (relayed, with_room (taken ++ end_frame ∷ []) n)
unfolding close_stream send relay_loop
close_opened buf k taken n = refl

-- Behind the header every chunk goes out as the samples that it completes, and the end frame
-- follows the last one.
pub body_loop :
    (cs : List (List ℕ)) (buf : List ℕ) (k : Carry) (taken : List StreamFrame) (n : ℕ)
    → relay_loop (chunks cs) (opened buf k) (with_room taken (length (body_frames k cs) + suc n))
      ≡ (relayed, with_room (taken ++ (body_frames k cs ++ end_frame ∷ [])) n)
unfolding chunks body_frames
body_loop [] buf k taken n =
    ap (λ (m : ℕ). relay_loop [] (opened buf k) (with_room taken m)) (omega arith)
    ∙ close_opened buf k taken n
body_loop (c ∷ cs) buf k taken n =
    ap (λ (m : ℕ). relay_loop (chunk c ∷ chunks cs) (opened buf k) (with_room taken m)) rooms
    ∙ relay_loop_next c (chunks cs) _ _ _ _ (
        on_chunk-opened c buf k _
        ∙ ap (next (opened buf (carried k c))) (send_samples_ok (emitted k c) taken _))
    ∙ body_loop cs buf (carried k c) (taken ++ here) n
    ∙ λ i. (relayed, with_room (regrouped i) n)
  where
    here : List StreamFrame
    here = frames_of (emitted k c)

    later : List StreamFrame
    later = body_frames (carried k c) cs

    rooms : length (here ++ later) + suc n ≡ length here + (length later + suc n)
    rooms = omega (arith, length-append here later)

    regrouped :
        taken ++ here ++ (later ++ end_frame ∷ []) ≡ taken ++ (here ++ later ++ end_frame ∷ [])
    regrouped = simp append_assoc
