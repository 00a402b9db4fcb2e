-- ===== src/Io/Write.antt =====
-- `AsyncWriteExt` over a peer that may hang up.
use mii_sound.Common.{
  ℕ, ◌+◌, ◌-◌, ◌≤◌, ◌<◌, ◌≡◌, fun_ext, refl, sym, append-nil, refl, ap, ◌∙◌, List, [], ◌∷◌, ◌++◌,
  arith, ltb, le→ltb_false, lt→ltb, if◌then◌else◌, length, take, length-append, append_assoc,
  append-nil, take-append_past, take-append_within, u32_le,
}
use native.Mathlib.Decide.{dec_lt}
use mii_sound.Io.{Result, ok, err, Error, fault, broken_pipe}

-- `room` is the number of bytes that the peer still takes.
pub record Writer : Type 0 where
  pub sent : List ℕ
  pub room : ℕ

abbrev pub Write : Type 0
Write = Writer → Result (Unit {0}) × Writer

infixl 5 ◌>>◌
abbrev pub ◌>>◌ : Write → Write → Write
◌>>◌ m k w = let (r, w') = m w in elim r [ ok _ ↦ k w' | err e ↦ (err e, w') ]

abbrev pub done : Write
done w = (ok tt, w)

abbrev pub bail : Error → Write
bail e w = (err e, w)

-- A peer that hangs up has taken a part of the bytes.
unfoldable pub write_all : List ℕ → Write
write_all bs w =
    if ltb w.room (length bs)
    then (err (fault broken_pipe), record { sent = w.sent ++ take w.room bs; room = 0 })
    else (ok tt, record { sent = w.sent ++ bs; room = w.room - length bs })

unfoldable pub write_u8 : ℕ → Write
write_u8 b = write_all (b ∷ [])

unfoldable pub write_u32_le : ℕ → Write
write_u32_le v = write_all (u32_le v)

unfoldable pub flush : Write
flush w = (ok tt, w)

pub write_all_fits :
    (xs : List ℕ) (w : Writer)
    → length xs ≤ w.room
    → write_all xs w ≡ (ok tt, record { sent = w.sent ++ xs; room = w.room - length xs })
unfolding write_all
write_all_fits xs w h = rw (le→ltb_false w.room (length xs) h)

pub write_all_full :
    (xs : List ℕ) (w : Writer)
    → w.room < length xs
    → write_all xs w
      ≡ (err (fault broken_pipe), record { sent = w.sent ++ take w.room xs; room = 0 })
unfolding write_all
write_all_full xs w h = rw (lt→ltb w.room (length xs) h)

pub >>-ok : (m k : Write) (w w' : Writer) → m w ≡ (ok tt, w') → (m >> k) w ≡ k w'
>>-ok m k w w' e = rw (e, ◌>>◌) (ap (λ (p : Result (Unit {0}) × Writer). k p.1) e)

pub >>-err :
    (m k : Write) (w w' : Writer) (x : Error) → m w ≡ (err x, w') → (m >> k) w ≡ (err x, w')
>>-err m k w w' x e = rw (e, ◌>>◌) (ap {B = Result (Unit {0}) × Writer} (λ p. (err x, p.1)) e)

-- Two writes in a row are one write of both: also where the peer hangs up on the way.
pub write_all-append :
    (xs ys : List ℕ) (w : Writer) → (write_all xs >> write_all ys) w ≡ write_all (xs ++ ys) w
write_all-append xs ys w = elim (dec_lt w.room (length xs)) [
  | yes full ↦
      rw
        (
          >>-err (write_all xs) (write_all ys) w _ _ (write_all_full xs w full),
          write_all_full (xs ++ ys) w (omega (arith, length-append xs ys)),
        )
        (rw (take-append_within w.room xs ys (omega arith)))
  | no fits ↦
      rw (>>-ok (write_all xs) (write_all ys) w w' (write_all_fits xs w (omega arith)))
        (second (omega arith))
]
  where
    w' : Writer
    w' = record { sent = w.sent ++ xs; room = w.room - length xs }

    second : length xs ≤ w.room → write_all ys w' ≡ write_all (xs ++ ys) w
    second fits = elim (dec_lt w'.room (length ys)) [
      | yes full ↦ rw (write_all_full ys w' full) (
          rw (write_all_full (xs ++ ys) w (omega (arith, length-append xs ys)))
            (rw (reached, append_assoc w.sent xs (take (w.room - length xs) ys))))
      | no more ↦ rw (write_all_fits ys w' (omega arith)) (
          rw (write_all_fits (xs ++ ys) w (omega (arith, length-append xs ys)))
            (rw (append_assoc w.sent xs ys, length-append xs ys, sub_sub)))
    ]
      where
        reached : take w.room (xs ++ ys) ≡ xs ++ take (w.room - length xs) ys
        reached =
            ap (λ (n : ℕ). take n (xs ++ ys)) (omega arith)
            ∙ take-append_past (w.room - length xs) xs ys

        sub_sub : w.room - length xs - length ys ≡ w.room - (length xs + length ys)
        sub_sub = omega arith

-- `m` writes the bytes `xs` and nothing else, or the part of them that the peer takes.
abbrev pub Writes : Write → List ℕ → Type 0
Writes m xs = (w : Writer) → m w ≡ write_all xs w

pub Writes-seq :
    {m k : Write} (xs ys : List ℕ) → Writes m xs → Writes k ys → Writes (m >> k) (xs ++ ys)
Writes-seq xs ys hm hk w = rw (fun_ext hm, fun_ext hk) (write_all-append xs ys w)

write_all-flush : (xs : List ℕ) (w : Writer) → (write_all xs >> flush) w ≡ write_all xs w
unfolding flush
write_all-flush xs w = elim (dec_lt w.room (length xs)) [
  | yes full ↦
      rw (>>-err (write_all xs) flush w _ _ (write_all_full xs w full))
        (sym (write_all_full xs w full))
  | no fits ↦
      rw (>>-ok (write_all xs) flush w _ (write_all_fits xs w (omega arith)))
        (sym (write_all_fits xs w (omega arith)))
]

pub Writes-flush : {m : Write} (xs : List ℕ) → Writes m xs → Writes (m >> flush) xs
Writes-flush xs h w = rw (fun_ext h) (write_all-flush xs w)

pub write_all_nil : (w : Writer) → done w ≡ write_all [] w
write_all_nil w = sym (
    rw (write_all_fits [] w (omega arith), append-nil w.sent)
      (ap (λ (n : ℕ). (ok tt, record { sent = w.sent; room = n })) (omega arith)))

-- `if !xs.is_empty() { w.write_all(xs) }`
unfoldable pub write_some : List ℕ → Write
write_some [] = done
write_some (x ∷ xs) = write_all (x ∷ xs)

pub Writes-some : (xs : List ℕ) → Writes (write_some xs) xs
unfolding write_some
Writes-some [] w = write_all_nil w
Writes-some (x ∷ xs) w = refl

pub Writes-all : (xs : List ℕ) → Writes (write_all xs) xs
Writes-all xs w = refl

pub Writes-u8 : (b : ℕ) → Writes (write_u8 b) (b ∷ [])
unfolding write_u8
Writes-u8 b w = refl

pub Writes-u32_le : (v : ℕ) → Writes (write_u32_le v) (u32_le v)
unfolding write_u32_le
Writes-u32_le v w = refl
