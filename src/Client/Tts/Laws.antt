-- ===== src/Client/Tts/Laws.antt =====
-- The checks of src/client/tts.rs on a request.
use mii_sound.Common.{
  ℕ, ◌≡◌, List, [], Option, none, some, is_some, true, false, if◌then◌else◌, is_empty, is_blank,
  arith,
}
use mii_sound.Exit
use mii_sound.Proto.{TtsRequest}
use mii_sound.Client.Session.{Ending, fail_bad_request}
use mii_sound.Client.Tts.{UserReq, TtsArgs, leave, continue, merge, is_inline, any_visible}

-- The rules on a request: a text to speak, `--voice-clone` exactly with a reference, and bytes
-- behind the JSON exactly for an inline reference, but for white space.
pub record Rules (args : TtsArgs) (user : UserReq) (tail : List ℕ) : Type 0 where
  pub speaks : is_blank user.text ≡ false
  pub clones : args.voice_clone ≡ is_some user.reference
  pub carries : is_inline user.reference ≡ true → is_empty tail ≡ false
  pub ends : is_inline user.reference ≡ false → any_visible tail ≡ false

-- The request on the wire.
abbrev pub wire_of : TtsArgs → UserReq → TtsRequest
wire_of args user = record {
  text = user.text;
  reference = if is_inline user.reference then none else user.reference;
  continuation = user.continuation;
  cfg = args.cfg;
  steps = args.steps;
  inline_reference = is_inline user.reference;
}

abbrev pub audio_of : UserReq → List ℕ → Option (List ℕ)
audio_of user tail = if is_inline user.reference then some tail else none

-- A request that keeps the rules is sent: the user's text and continuation, the options of the
-- command line, and a reference either by path or inline, with the bytes that followed the JSON.
pub merge-Rules :
    (args : TtsArgs) (user : UserReq) (tail : List ℕ)
    → Rules args user tail
    → merge args user tail ≡ continue (wire_of args user, audio_of user tail)
unfolding merge
merge-Rules args user tail r = ground arith

-- A request that is sent keeps the rules.
pub merge-continue :
    (args : TtsArgs) (user : UserReq) (tail : List ℕ) (p : TtsRequest × Option (List ℕ))
    → merge args user tail ≡ continue p
    → Rules args user tail
unfolding merge
merge-continue args user tail p e = ground arith

-- A request that is not sent ends the process with the exit code of a bad request, and stdout is
-- left alone.
pub merge-leave :
    (args : TtsArgs) (user : UserReq) (tail : List ℕ) (e : Ending)
    → merge args user tail ≡ leave e
    → (e.code ≡ Exit.bad_request) × (e.output ≡ [])
unfolding merge fail_bad_request
merge-leave args user tail e h = ground arith
