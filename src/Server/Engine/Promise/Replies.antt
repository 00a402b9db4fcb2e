-- ===== src/Server/Engine/Promise/Replies.antt =====
-- The replies that the engine of src/server/tts.rs has sent, by their tickets.
use mii_sound.Common.{
  ℕ, ◌≤◌, ◌≡◌, ◌≢◌, refl, sym, ap, ◌∙◌, arith, Bool-cases, Option-cases, ==_iff, inl, inr, List, [],
  ◌∷◌, ◌++◌, Option, some, none, count, count-append, ◌==◌,
}
use mii_sound.Server.Engine.{TtsResult}
use mii_sound.Server.Engine.Delivery.{answered}
use mii_sound.Server.Engine.Promise.{unknown, waits, has, first_reply, status_by, status_at}

pub first_reply-old :
    (n : ℕ) (xs ys : List (ℕ × TtsResult)) (r : TtsResult)
    → first_reply n xs ≡ some r
    → first_reply n (xs ++ ys) ≡ some r
unfolding first_reply
first_reply-old n [] ys r h = absurd (ground (arith, h))
first_reply-old n ((t, q) ∷ xs) ys r h = elim (Bool-cases (t == n)) [
  | inl here ↦ rw here (rw here at h)
  | inr past ↦ rw past (first_reply-old n xs ys r (rw past at h))
]

pub first_reply-new :
    (n : ℕ) (xs ys : List (ℕ × TtsResult))
    → first_reply n xs ≡ none
    → first_reply n (xs ++ ys) ≡ first_reply n ys
unfolding first_reply
first_reply-new n [] ys h = refl
first_reply-new n ((t, q) ∷ xs) ys h = elim (Bool-cases (t == n)) [
  | inl here ↦ absurd (ground (arith, rw here at h))
  | inr past ↦ rw past (first_reply-new n xs ys (rw past at h))
]

pub first_reply-count :
    (n : ℕ) (xs : List (ℕ × TtsResult)) (r : TtsResult)
    → first_reply n xs ≡ some r
    → 1 ≤ count n (answered xs)
unfolding first_reply
first_reply-count n [] r h = absurd (ground (arith, h))
first_reply-count n ((t, q) ∷ xs) r h = elim (Bool-cases (t == n)) [
  | inl here ↦ rw here (omega arith)
  | inr past ↦ rw past (omega (arith, first_reply-count n xs r (rw past at h)))
]

pub first_reply-none :
    (n : ℕ) (xs : List (ℕ × TtsResult)) → count n (answered xs) ≡ 0 → first_reply n xs ≡ none
first_reply-none n xs h = elim (Option-cases (first_reply n xs)) [
  | inl e ↦ e
  | inr (r, e) ↦ absurd (omega (arith, first_reply-count n xs r e))
]

pub first_reply-same :
    (n : ℕ) (xs ys : List (ℕ × TtsResult))
    → first_reply n ys ≡ none
    → first_reply n (xs ++ ys) ≡ first_reply n xs
first_reply-same n xs ys h = elim (Option-cases (first_reply n xs)) [
  | inl e ↦ first_reply-new n xs ys e ∙ h ∙ sym e
  | inr (r, e) ↦ first_reply-old n xs ys r e ∙ sym e
]

pub first_reply-own : (t : ℕ) (r : TtsResult) → first_reply t ((t, r) ∷ []) ≡ some r
unfolding first_reply
first_reply-own t r = ground arith

pub first_reply-other : (n t : ℕ) (r : TtsResult) → n ≢ t → first_reply n ((t, r) ∷ []) ≡ none
unfolding first_reply
first_reply-other n t r h = ground arith

pub status_at-same :
    (n : ℕ) (xs ys : List (ℕ × TtsResult)) (submitted : List ℕ)
    → first_reply n ys ≡ none
    → status_at (xs ++ ys) submitted n ≡ status_at xs submitted n
unfolding status_at
status_at-same n xs ys submitted h =
    ap (λ (r : Option TtsResult). status_by n r submitted) (first_reply-same n xs ys h)

-- The status by what was sent and what was submitted.
pub status_at-has :
    (n : ℕ) (replies : List (ℕ × TtsResult)) (submitted : List ℕ) (r : TtsResult)
    → first_reply n replies ≡ some r
    → status_at replies submitted n ≡ has r
unfolding status_at status_by
status_at-has n replies submitted r h = rw h refl

pub status_at-unknown :
    (n : ℕ) (replies : List (ℕ × TtsResult)) (submitted : List ℕ)
    → first_reply n replies ≡ none
    → count n submitted ≡ 0
    → status_at replies submitted n ≡ unknown
unfolding status_at status_by
status_at-unknown n replies submitted h z = rw h (rw z refl)

pub status_at-waits :
    (n : ℕ) (replies : List (ℕ × TtsResult)) (submitted : List ℕ)
    → first_reply n replies ≡ none
    → 1 ≤ count n submitted
    → status_at replies submitted n ≡ waits
unfolding status_at status_by
status_at-waits n replies submitted h z = rw h (ground arith)

pub other-count : (n t : ℕ) (xs : List ℕ) → n ≢ t → count n (xs ++ t ∷ []) ≡ count n xs
other-count n t xs h = elim (Bool-cases (t == n)) [
  | inl e ↦ absurd (h (sym ((==_iff t n).0 e)))
  | inr e ↦ ground (arith, count-append n xs (t ∷ []), e)
]

pub own-count : (t : ℕ) (xs : List ℕ) → 1 ≤ count t (xs ++ t ∷ [])
own-count t xs = ground (arith, count-append t xs (t ∷ []))

pub status_at-other :
    (n t : ℕ) (replies : List (ℕ × TtsResult)) (xs : List ℕ)
    → n ≢ t
    → status_at replies (xs ++ t ∷ []) n ≡ status_at replies xs n
unfolding status_at status_by
status_at-other n t replies xs h = elim (Option-cases (first_reply n replies)) [
  | inl e ↦ rw e (rw (other-count n t xs h) refl)
  | inr (r, e) ↦ rw e refl
]

pub unanswered :
    (n : ℕ) (xs : List (ℕ × TtsResult)) → first_reply n xs ≡ none → count n (answered xs) ≡ 0
unfolding first_reply
unanswered n [] h = refl
unanswered n ((t, q) ∷ xs) h = elim (Bool-cases (t == n)) [
  | inl here ↦ absurd (ground (arith, rw here at h))
  | inr past ↦ rw past (omega (arith, unanswered n xs (rw past at h)))
]
