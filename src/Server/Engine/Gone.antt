-- ===== src/Server/Engine/Gone.antt =====
-- Which clients of a batch have gone, for the watchers of src/server/tts.rs.
use mii_sound.Common.{
  ℕ, ◌≡◌, refl, ap, arith, true, false, Bool, Bool-cases, inl, inr, List, [], ◌∷◌, ◌++◌, All,
}
use mii_sound.Server.Engine.{PendingItem}
use mii_sound.Server.Engine.Dispatch.{all_gone}

-- A client of the batch whose connection has not ended.
pub record Stays (gone : ℕ → Bool) (batch : List PendingItem) : Type 0 where
  pub before : List PendingItem
  pub client : PendingItem
  pub behind : List PendingItem
  pub parts : batch ≡ before ++ client ∷ behind
  pub here : gone client.ticket ≡ false

module _ (gone : ℕ → Bool) (Ended : PendingItem → Type 0)
    (ended : (x : PendingItem) → gone x.ticket ≡ true → Ended x) where
  pub all_gone-All : (batch : List PendingItem) → all_gone gone batch ≡ true → All Ended batch
  unfolding all_gone
  all_gone-All [] h = tt
  all_gone-All (x ∷ batch) h = (ended x (ground arith), all_gone-All batch (ground arith))

pub all_gone-Stays :
    (gone : ℕ → Bool) (batch : List PendingItem) → all_gone gone batch ≡ false → Stays gone batch
unfolding all_gone
all_gone-Stays gone [] h = absurd (cc h)
all_gone-Stays gone (x ∷ batch) h = elim (Bool-cases (gone x.ticket)) [
  | inr here ↦ record { before = []; client = x; behind = batch; parts = refl; here = here }
  | inl left ↦
      let s = all_gone-Stays gone batch (rw left at h) in
      record {
        before = x ∷ s.before;
        client = s.client;
        behind = s.behind;
        parts = ap (◌∷◌ x) s.parts;
        here = s.here;
      }
]
