-- ===== src/Server/Relay/Chunks.antt =====
-- The upstream bytes of `forward_pcm_chunk` (src/server/relay.rs), cut into chunks.
use mii_sound.Common.{
  ℕ, ◌≡◌, refl, sym, ap, ◌∙◌, Bool, true, false, List, [], ◌∷◌, ◌++◌, Option, none, some,
  if◌then◌else◌, All, append_assoc, append-nil,
}
use mii_sound.Proto.{kind_chunk, StreamFrame}
use mii_sound.Server.Relay.WavStream.{
  Event, chunk, sample_bytes, pair_samples, odd_byte, Carry, join_carry, keep_odd,
}

-- The bytes that wait for their pair.
abbrev pub pending : Carry → List ℕ
pending k = if k.have_carry then k.carry ∷ [] else []

abbrev option_bytes : Option ℕ → List ℕ
option_bytes none = []
option_bytes (some b) = b ∷ []

pair_samples-append :
    (xs ys : List ℕ)
    → pair_samples (xs ++ ys) ≡ pair_samples xs ++ pair_samples (option_bytes (odd_byte xs) ++ ys)
unfolding pair_samples odd_byte
pair_samples-append [] ys = refl
pair_samples-append (a ∷ []) ys = refl
pair_samples-append (a ∷ b ∷ xs) ys =
    rw (pair_samples-append xs ys) (sym (append_assoc (sample_bytes a b) (pair_samples xs) _))

-- What one chunk lets out, and what it leaves.
abbrev pub emitted : Carry → List ℕ → List ℕ
emitted k bytes = let (first, rest, have) = join_carry k bytes in first ++ pair_samples rest

abbrev pub carried : Carry → List ℕ → Carry
carried k bytes =
    let (first, rest, have) = join_carry k bytes in keep_odd (odd_byte rest) k.carry have

pending-keep_odd : (o : Option ℕ) (c : ℕ) → pending (keep_odd o c false) ≡ option_bytes o
unfolding keep_odd
pending-keep_odd none c = refl
pending-keep_odd (some b) c = refl

carried_ok_at :
    (c : ℕ) (have : Bool) (bytes rest : List ℕ)
    → let k : Carry = record { carry = c; have_carry = have } in
      pair_samples (pending k ++ (bytes ++ rest))
      ≡ emitted k bytes ++ pair_samples (pending (carried k bytes) ++ rest)
unfolding join_carry
carried_ok_at c true [] rest = unfold keep_odd pair_samples odd_byte in refl
carried_ok_at c false [] rest = unfold keep_odd pair_samples odd_byte in refl
carried_ok_at c true (b ∷ bytes) rest =
    rw (pending-keep_odd (odd_byte bytes) c, append_assoc (sample_bytes c b))
      (first_pair ∙ ap (λ (t : List ℕ). sample_bytes c b ++ t) (pair_samples-append bytes rest))
  where
    first_pair :
        pair_samples (c ∷ b ∷ (bytes ++ rest)) ≡ sample_bytes c b ++ pair_samples (bytes ++ rest)
    first_pair = unfold pair_samples in refl
carried_ok_at c false (b ∷ bytes) rest =
    rw (pending-keep_odd (odd_byte (b ∷ bytes)) c) (pair_samples-append (b ∷ bytes) rest)

-- Emitted now and emitted later are the samples of the pending byte and of all that follows.
carried_ok :
    (k : Carry) (bytes rest : List ℕ)
    → pair_samples (pending k ++ (bytes ++ rest))
      ≡ emitted k bytes ++ pair_samples (pending (carried k bytes) ++ rest)
carried_ok k = carried_ok_at k.carry k.have_carry

-- Chunk frames, and the samples in them.
abbrev pub AreChunks : List StreamFrame → Type 0
AreChunks = All (λ f. f.kind ≡ kind_chunk)

unfoldable pub payloads : List StreamFrame → List ℕ
payloads [] = []
payloads (f ∷ fs) = f.payload ++ payloads fs

unfoldable pub concat_chunks : List (List ℕ) → List ℕ
concat_chunks [] = []
concat_chunks (c ∷ cs) = c ++ concat_chunks cs

unfoldable pub chunks : List (List ℕ) → List Event
chunks [] = []
chunks (c ∷ cs) = chunk c ∷ chunks cs

-- The frames for one emission: none for no bytes.
abbrev pub frames_of : List ℕ → List StreamFrame
frames_of [] = []
frames_of (b ∷ bs) = record { kind = kind_chunk; payload = b ∷ bs } ∷ []

-- The frames of the body, for the state after the header.
unfoldable pub body_frames : Carry → List (List ℕ) → List StreamFrame
body_frames k [] = []
body_frames k (c ∷ cs) = frames_of (emitted k c) ++ body_frames (carried k c) cs

payloads-append : (fs gs : List StreamFrame) → payloads (fs ++ gs) ≡ payloads fs ++ payloads gs
unfolding payloads
payloads-append [] gs = refl
payloads-append (f ∷ fs) gs =
    rw (payloads-append fs gs) (sym (append_assoc f.payload (payloads fs) _))

payloads-frames_of : (bs : List ℕ) → payloads (frames_of bs) ≡ bs
unfolding payloads
payloads-frames_of [] = refl
payloads-frames_of (b ∷ bs) = append-nil (b ∷ bs)

pending_alone : (k : Carry) → pair_samples (pending k ++ []) ≡ []
pending_alone k = go k.have_carry
  where
    go : (h : Bool) → pair_samples ((if h then k.carry ∷ [] else []) ++ []) ≡ []
    go true = unfold pair_samples in refl
    go false = unfold pair_samples in refl

pub payloads-body_frames :
    (k : Carry) (cs : List (List ℕ))
    → payloads (body_frames k cs) ≡ pair_samples (pending k ++ concat_chunks cs)
unfolding body_frames concat_chunks
payloads-body_frames k [] = unfold payloads in sym (pending_alone k)
payloads-body_frames k (c ∷ cs) =
    payloads-append (frames_of (emitted k c)) _
    ∙ rw (payloads-frames_of (emitted k c), payloads-body_frames (carried k c) cs)
        (sym (carried_ok k c (concat_chunks cs)))

AreChunks-append : (fs gs : List StreamFrame) → AreChunks fs → AreChunks gs → AreChunks (fs ++ gs)
AreChunks-append [] gs hf hg = hg
AreChunks-append (f ∷ fs) gs hf hg = (hf.0, AreChunks-append fs gs hf.1 hg)

AreChunks-frames_of : (bs : List ℕ) → AreChunks (frames_of bs)
AreChunks-frames_of [] = tt
AreChunks-frames_of (b ∷ bs) = (refl, tt)

pub AreChunks-body_frames : (k : Carry) (cs : List (List ℕ)) → AreChunks (body_frames k cs)
unfolding body_frames
AreChunks-body_frames k [] = tt
AreChunks-body_frames k (c ∷ cs) =
    AreChunks-append (frames_of (emitted k c)) _ (AreChunks-frames_of (emitted k c))
      (AreChunks-body_frames (carried k c) cs)
