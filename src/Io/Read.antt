-- ===== src/Io/Read.antt =====
-- `AsyncReadExt` over the bytes that are still to come.
use mii_sound.Common.{
  ℕ, ◌≡◌, ◌∙◌, refl, sym, List, [], ◌∷◌, ◌++◌, arith, ltb, le→ltb_false, if◌then◌else◌, length,
  take, drop, length-append, take-append, drop-append, take-append-drop, length-take_of_le, of_le4,
  Bool-cases, inl, inr, ltb_false→le,
}
use mii_sound.Io.{Result, ok, err, Error, fault, unexpected_eof}

abbrev pub Reader : Type 0 → Type 0
Reader A = List ℕ → Result (A × List ℕ)

infixl 5 ◌>>=◌
abbrev pub ◌>>=◌ : {A B : Type 0} → Reader A → (A → Reader B) → Reader B
◌>>=◌ m f s = elim (m s) [ ok (a, r) ↦ f a r | err e ↦ err e ]

abbrev pub return : {A : Type 0} → A → Reader A
return a s = ok (a, s)

abbrev pub bail : {A : Type 0} → Error → Reader A
bail e s = err e

unfoldable pub read_u8 : Reader ℕ
read_u8 [] = err (fault unexpected_eof)
read_u8 (b ∷ r) = ok (b, r)

unfoldable pub read_u32_le : Reader ℕ
read_u32_le (a ∷ b ∷ c ∷ d ∷ r) = ok (of_le4 a b c d, r)
read_u32_le _ = err (fault unexpected_eof)

unfoldable pub read_exact : ℕ → Reader (List ℕ)
read_exact n s = if ltb (length s) n then err (fault unexpected_eof) else ok (take n s, drop n s)

pub read_exact-append : (xs rest : List ℕ) → read_exact (length xs) (xs ++ rest) ≡ ok (xs, rest)
unfolding read_exact
read_exact-append xs rest =
    rw (le→ltb_false (length (xs ++ rest)) (length xs) (omega (arith, length-append xs rest)))
      (rw (take-append xs rest, drop-append xs rest) refl)

-- What `read_exact` returns is the front of the stream, of the length asked for.
pub read_exact-eq_ok :
    (n : ℕ) (s xs rest : List ℕ)
    → read_exact n s ≡ ok (xs, rest)
    → (s ≡ xs ++ rest) × (length xs ≡ n)
unfolding read_exact
read_exact-eq_ok n s xs rest e = elim (Bool-cases (ltb (length s) n)) [
  | inl short ↦ absurd (cc (rw short at e))
  | inr long ↦
      let e' = rw long at e in
      let taken : take n s ≡ xs = cc e' in
      let dropped : drop n s ≡ rest = cc e' in
      (
        rw (← taken, ← dropped) (sym (take-append-drop n s)),
        rw (← taken) (length-take_of_le n s (ltb_false→le _ _ long)),
      )
]

-- Steps of a chain of readers: forwards from what the first one does, and backwards from a result.
pub >>=-ok :
    {A B : Type 0} (m : Reader A) (f : A → Reader B) (s : List ℕ) {a : A} {r : List ℕ}
    → m s ≡ ok (a, r)
    → (m >>= f) s ≡ f a r
>>=-ok m f s e = rw (e, ◌>>=◌)

pub >>=-err :
    {A B : Type 0} (m : Reader A) (f : A → Reader B) (s : List ℕ) {e : Error}
    → m s ≡ err e
    → (m >>= f) s ≡ err e
>>=-err m f s e = rw (e, ◌>>=◌)

pub >>=-eq_ok :
    {A B : Type 0} (m : Reader A) (f : A → Reader B) (s : List ℕ) {p : B × List ℕ}
    → (m >>= f) s ≡ ok p
    → (a : A) × (r : List ℕ) × (m s ≡ ok (a, r)) × (f a r ≡ ok p)
>>=-eq_ok {A} {B} m f s {p} h = go (m s) refl
  where
    go :
        (x : Result (A × List ℕ))
        → m s ≡ x
        → (a : A) × (r : List ℕ) × (m s ≡ ok (a, r)) × (f a r ≡ ok p)
    go (ok (a, r)) e = (a, r, e, sym (>>=-ok m f s e) ∙ h)
    go (err x) e = absurd (cc (sym (>>=-err m f s e) ∙ h))
