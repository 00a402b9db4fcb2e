-- ===== src/Server/Engine/System/Counts.antt =====
-- How often the engine of src/server/tts.rs has a ticket.
use mii_sound.Common.{
  ℕ, ◌+◌, ◌≡◌, refl, ap, ◌∙◌, arith, Bool-cases, inl, inr, List, [], ◌∷◌, ◌++◌, length, count,
  count-append, ltb,
}
use mii_sound.Server.Engine.{PendingItem, BatchKey, key_eq, Engine, TtsResult}
use mii_sound.Server.Engine.Queue.{drain_matching}
use mii_sound.Server.Engine.Delivery.{tickets, answered}

pub tickets-append : (xs ys : List PendingItem) → tickets (xs ++ ys) ≡ tickets xs ++ tickets ys
tickets-append [] ys = refl
tickets-append (x ∷ xs) ys = ap (◌∷◌ x.ticket) (tickets-append xs ys)

pub answered-append :
    (xs ys : List (ℕ × TtsResult)) → answered (xs ++ ys) ≡ answered xs ++ answered ys
answered-append [] ys = refl
answered-append (x ∷ xs) ys = ap (◌∷◌ x.0) (answered-append xs ys)

-- How often a ticket stands among waiting items, and among the replies.
abbrev pub waiting : ℕ → List PendingItem → ℕ
waiting t q = count t (tickets q)

abbrev pub replied : ℕ → Engine → ℕ
replied t e = count t (answered e.replies)

pub waiting-append :
    (t : ℕ) (xs ys : List PendingItem) → waiting t (xs ++ ys) ≡ waiting t xs + waiting t ys
waiting-append t xs ys =
    ap (count t) (tickets-append xs ys) ∙ count-append t (tickets xs) (tickets ys)

pub drain_matching-waiting :
    (key : BatchKey) (limit t : ℕ) (batch q : List PendingItem)
    → waiting t (drain_matching key limit batch q).0
        + waiting t (drain_matching key limit batch q).1
      ≡ waiting t batch + waiting t q
unfolding drain_matching
drain_matching-waiting key limit t batch [] = refl
drain_matching-waiting key limit t batch (x ∷ q) = elim (Bool-cases (ltb (length batch) limit)) [
  | inr full ↦ rw (full, drain_matching) refl
  | inl room ↦ elim (Bool-cases (key_eq x.key key)) [
    | inl hit ↦
        rw (room, drain_matching)
          (rw hit (
            omega (
              arith,
              drain_matching-waiting key limit t (batch ++ x ∷ []) q,
              waiting-append t batch (x ∷ []),
            )))
    | inr miss ↦
        rw (room, drain_matching)
          (rw miss (omega (arith, drain_matching-waiting key limit t batch q)))
  ]
]
