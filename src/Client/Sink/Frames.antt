-- ===== src/Client/Sink/Frames.antt =====
-- The frame loop of `stream_exchange` on the bytes of whole frames, and its fuel.
use mii_sound.Common.{
  ℕ, zero, suc, ◌<◌, ◌≡◌, refl, Bool, subst, ap, Text, true, false, List, [], ◌∷◌, ◌++◌, ltb, ◌==◌,
  if◌then◌else◌, length, length-append, arith, inl, inr, Bool-cases, ◌⊎◌,
}
use mii_sound.Io.{Result-cases, Result, ok, err, Error}
use mii_sound.Io.Read.{>>=-eq_ok, read_u8, read_u32_le, read_exact-eq_ok}
use mii_sound.Proto.{StreamFrame, max_payload, kind_header, kind_chunk, kind_end, kind_error}
use mii_sound.Proto.Read.{read_len, read_payload, read_stream_frame, parse_header_payload}
use mii_sound.Proto.Wire.{encode_stream_frame}
use mii_sound.Proto.RoundTrip.{FrameFits, read_stream_frame-encode}
use mii_sound.Client.Sink.{
  StreamSink, Outcome, Next, more, stop, failed, waiting, finished, on_frame, frame_loop, or_fail,
  on_header, write_header, write_samples, finalize,
}

module _ (fuel : ℕ) (s : List ℕ) (frame : StreamFrame) (rest : List ℕ) (sink : StreamSink) where
  step_more :
      (sink' : StreamSink)
      → read_stream_frame s ≡ ok (frame, rest)
      → on_frame frame sink ≡ more sink'
      → frame_loop (suc fuel) s sink ≡ frame_loop fuel rest sink'
  unfolding frame_loop
  step_more sink' r e = ground arith

  step_stop :
      (o : Outcome) (sink' : StreamSink)
      → read_stream_frame s ≡ ok (frame, rest)
      → on_frame frame sink ≡ stop o sink'
      → frame_loop (suc fuel) s sink ≡ (o, sink')
  unfolding frame_loop
  step_stop o sink' r e = ground arith

module _ (frame : StreamFrame) (fits : FrameFits frame) (fuel : ℕ) (rest : List ℕ)
    (sink : StreamSink) where
  pub frame_loop-more :
      (sink' : StreamSink)
      → on_frame frame sink ≡ more sink'
      → frame_loop (suc fuel) (encode_stream_frame frame ++ rest) sink ≡ frame_loop fuel rest sink'
  frame_loop-more sink' =
      step_more fuel _ frame rest sink sink' (read_stream_frame-encode frame rest fits)

  pub frame_loop-stop :
      (o : Outcome) (sink' : StreamSink)
      → on_frame frame sink ≡ stop o sink'
      → frame_loop (suc fuel) (encode_stream_frame frame ++ rest) sink ≡ (o, sink')
  frame_loop-stop o sink' =
      step_stop fuel _ frame rest sink o sink' (read_stream_frame-encode frame rest fits)

read_u32_le_shrinks :
    (s : List ℕ) (n : ℕ) (r : List ℕ) → read_u32_le s ≡ ok (n, r) → length r < length s
unfolding read_u32_le
read_u32_le_shrinks (a ∷ b ∷ c ∷ d ∷ s) n r e = let e' : s ≡ r = cc in rw (← e') (omega arith)
read_u32_le_shrinks _ n r e = absurd (cc)

read_len_shrinks :
    (limit : ℕ) (what : Text) (s : List ℕ) (n : ℕ) (r : List ℕ)
    → read_len limit what s ≡ ok (n, r)
    → length r < length s
unfolding read_len
read_len_shrinks limit what s n r e =
    let (len, r', first, second) = >>=-eq_ok read_u32_le _ s e in
    elim (Bool-cases (ltb limit len)) [
      | inl over ↦ absurd (cc (rw over at second))
      | inr within ↦
          let r_eq : r' ≡ r = cc (rw within at second) in
          rw (← r_eq) (read_u32_le_shrinks s len r' first)
    ]

read_payload_shrinks :
    (what : Text) (s xs r : List ℕ) → read_payload what s ≡ ok (xs, r) → length r < length s
unfolding read_payload
read_payload_shrinks what s xs r e =
    let (len, r', first, second) = >>=-eq_ok (read_len max_payload what) _ s e in
    let shorter = read_len_shrinks max_payload what s len r' first in
    elim (Bool-cases (ltb 0 len)) [
      | inl some_bytes ↦
          let (whole, count) = read_exact-eq_ok len r' xs r (rw some_bytes at second) in
          omega (arith, ap length whole, length-append xs r)
      | inr empty ↦ let r_eq : r' ≡ r = cc (rw empty at second) in omega (arith, ap length r_eq)
    ]

read_stream_frame_shrinks :
    (s : List ℕ) (f : StreamFrame) (r : List ℕ)
    → read_stream_frame s ≡ ok (f, r)
    → length r < length s
unfolding read_stream_frame read_u8
read_stream_frame_shrinks [] f r e = absurd (cc e)
read_stream_frame_shrinks (k ∷ s) f r e =
    let (xs, r', first, second) = >>=-eq_ok (read_payload _) _ s e in
    let r_eq : r' ≡ r = cc second in
    omega (arith, ap length r_eq, read_payload_shrinks _ s xs r' first)

frame_read :
    (s : List ℕ)
    → ((f : StreamFrame) × (r : List ℕ) × (read_stream_frame s ≡ ok (f, r)))
      ⊎ ((e : Error) × (read_stream_frame s ≡ err e))
frame_read s = go (read_stream_frame s) refl
  where
    go :
        (x : Result (StreamFrame × List ℕ))
        → read_stream_frame s ≡ x
        → ((f : StreamFrame) × (r : List ℕ) × (read_stream_frame s ≡ ok (f, r)))
          ⊎ ((e : Error) × (read_stream_frame s ≡ err e))
    go (ok (f, r)) e = inl (f, r, e)
    go (err x) e = inr (x, e)

next_cases :
    (n : Next)
    → ((s : StreamSink) × (n ≡ more s)) ⊎ ((o : Outcome) × (s : StreamSink) × (n ≡ stop o s))
next_cases (more s) = inl (s, refl)
next_cases (stop o s) = inr (o, s, refl)

-- The client's own outcomes: none of them is `waiting`.
abbrev pub IsOver : Outcome → Type 0
IsOver finished = Unit
IsOver (failed status e) = Unit
IsOver waiting = ⊥

abbrev NextIsOver : Next → Type 0
NextIsOver (more s) = Unit
NextIsOver (stop o s) = IsOver o

if-NextIsOver :
    (b : Bool) (x y : Next) → NextIsOver x → NextIsOver y → NextIsOver (if b then x else y)
if-NextIsOver true x y hx hy = hx
if-NextIsOver false x y hx hy = hy

or_fail-NextIsOver :
    (k : StreamSink → Next) (r : Result (Unit {0}) × StreamSink)
    → ((s : StreamSink) → NextIsOver (k s))
    → NextIsOver (or_fail k r)
or_fail-NextIsOver k (ok _, s) h = h s
or_fail-NextIsOver k (err e, s) h = tt

on_header-NextIsOver : (payload : List ℕ) (sink : StreamSink) → NextIsOver (on_header payload sink)
unfolding on_header
on_header-NextIsOver payload sink = elim (Result-cases (parse_header_payload payload)) [
  | inl (sr, e) ↦ rw (e, on_header) (or_fail-NextIsOver more (write_header sr sink) (λ s. tt))
  | inr (x, e) ↦ rw (e, on_header) tt
]

on_frame-NextIsOver : (f : StreamFrame) (sink : StreamSink) → NextIsOver (on_frame f sink)
unfolding on_frame
on_frame-NextIsOver f sink =
    if-NextIsOver (f.kind == kind_header) _ _ (on_header-NextIsOver f.payload sink) (
      if-NextIsOver (f.kind == kind_chunk) _ _
        (or_fail-NextIsOver more (write_samples f.payload sink) (λ s. tt))
        (if-NextIsOver (f.kind == kind_end) _ _
          (or_fail-NextIsOver (stop finished) (finalize sink) (λ s. tt))
          (if-NextIsOver (f.kind == kind_error) _ _ tt tt)))

IsOver-of_stop :
    (f : StreamFrame) (sink : StreamSink) {o : Outcome} {sink' : StreamSink}
    → on_frame f sink ≡ stop o sink'
    → IsOver o
IsOver-of_stop f sink e = subst NextIsOver e (on_frame-NextIsOver f sink)

-- With one round for each byte the loop ends: on a terminal frame, on an error or at the end of
-- the stream.
pub frame_loop-IsOver :
    (fuel : ℕ) (s : List ℕ) (sink : StreamSink)
    → length s < fuel
    → IsOver (frame_loop fuel s sink).0
unfolding frame_loop
frame_loop-IsOver zero s sink h = absurd (omega arith)
frame_loop-IsOver (suc fuel) s sink h = elim (frame_read s) [
  | inr (e, bad) ↦ rw (bad, frame_loop) tt
  | inl (f, r, good) ↦ elim (next_cases (on_frame f sink)) [
    | inl (sink', e) ↦
        rw (step_more fuel s f r sink sink' good e)
          (frame_loop-IsOver fuel r sink' (omega (arith, read_stream_frame_shrinks s f r good)))
    | inr (o, sink', e) ↦ rw (step_stop fuel s f r sink o sink' good e) (IsOver-of_stop f sink e)
  ]
]
