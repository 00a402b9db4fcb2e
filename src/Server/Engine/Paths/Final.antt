-- ===== src/Server/Engine/Paths/Final.antt =====
-- The replies of the engine of src/server/tts.rs in its later runs.
use mii_sound.Common.{ℕ, ◌≡◌, ◌≢◌, sym, ap, ◌∙◌, inl, inr}
use mii_sound.Server.Engine.{TtsResult}
use mii_sound.Server.Engine.System.{System, Reach, later}
use mii_sound.Server.Engine.Promise.{
  Status, unknown, has, Promise, enters, refuses, answers, idles, view,
}
use mii_sound.Server.Engine.Promise.Steps.{Reach-Promise}
use mii_sound.Server.Engine.Paths.{Steps, here, then}

module _ (v w : ℕ → Status) (n : ℕ) (r : TtsResult) (e : v n ≡ has r) where
  -- A ticket that was unknown is another one.
  known : (t : ℕ) → v t ≡ unknown → n ≢ t
  known t u same = absurd (cc (sym e ∙ ap v same ∙ u))

  Promise-has : Promise v w → w n ≡ has r
  Promise-has (enters t u _ others) = others n (known t u) ∙ e
  Promise-has (refuses t why u _ others) = others n (known t u) ∙ e
  Promise-has (answers f) = elim (f n) [
    | inl same ↦ same ∙ e
    | inr (waiting, q, h) ↦ absurd (cc (sym e ∙ waiting))
  ]
  Promise-has (idles same) = ap (λ (f : ℕ → Status). f n) same ∙ e

pub Steps-has :
    {ttl parallel batch_window : ℕ} {s t : System} (n : ℕ) (r : TtsResult)
    → Reach ttl parallel batch_window s
    → Steps s t
    → view s n ≡ has r
    → view t n ≡ has r
Steps-has n r reach here e = e
Steps-has {ttl} {parallel} {batch_window} {s} n r reach (then {t = t} st p) e =
    Steps-has n r (later reach st) p
      (Promise-has (view s) (view t) n r e (Reach-Promise ttl parallel batch_window s t reach st).0)
