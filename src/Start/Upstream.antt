-- ===== src/Start/Upstream.antt =====
-- The relay that `run` of src/server/mod.rs sets up: where it sends requests, and with which token.
use mii_sound.Common.{
  Text, text, ◌≡◌, refl, ◌∙◌, ◌++◌, Bool, false, inl, inr, true, Bool-cases, ◌||◌, Option, none,
  some, starts_with, trim, [], ◌∷◌,
}
use mii_sound.Io.{ok, good}
use mii_sound.Server.Relay.Requests.{normalize_url}
use mii_sound.Server.Relay.Setup.{Http, authorize, relay_new, new_api}
use mii_sound.Start.{ServeArgs}
use mii_sound.Start.Transport.{Platform}
use mii_sound.Start.Configure.{Config, configure, configured, tts_engine}

-- The token that requests carry.
abbrev pub header : Option Text → Option Text
header none = none
header (some []) = none
header (some (c ∷ token)) = some (c ∷ token)

abbrev has_scheme : Text → Bool
has_scheme url = starts_with (text "http://") url || starts_with (text "https://") url

-- The address that is meant by `url`: without the white space around it, and over http if it does
-- not say how.
pub data Means (url to : Text) : Type 0 where
  as_given : has_scheme (trim url) ≡ true → to ≡ trim url → Means url to
  over_http : has_scheme (trim url) ≡ false → to ≡ text "http://" ++ trim url → Means url to

normalize_url-Means : (url : Text) → Means url (normalize_url url)
unfolding normalize_url
normalize_url-Means url = elim (Bool-cases (has_scheme (trim url))) [
  | inl has ↦ as_given has (rw has refl)
  | inr lacks ↦ over_http lacks (rw lacks refl)
]

module _ (http : Http) where
  open http use {
    Client, client, api, authorization, base_url, built_for, same_url, without_token, with_token,
  }

  authorize-header :
      (token : Option Text) (c : Client)
      → authorization c ≡ none
      → authorization (authorize http token c) ≡ header token
  unfolding authorize
  authorize-header none c h = h
  authorize-header (some []) c h = h
  authorize-header (some (x ∷ token)) c h = with_token c (x ∷ token)

  authorize-base_url :
      (token : Option Text) (c : Client) → base_url (authorize http token c) ≡ base_url c
  unfolding authorize
  authorize-base_url none c = refl
  authorize-base_url (some []) c = refl
  authorize-base_url (some (x ∷ token)) c = same_url c (x ∷ token)

  -- A server that relays to `url`.
  pub record Relays (token : Option Text) (url : Text) (c : Config) : Type 0 where
    pub to : Text
    pub meant : Means url to
    pub through : Client
    pub sends_to : base_url through ≡ to
    pub asks : c.relay ≡ some (api through)
    pub authorized : authorization through ≡ header token
    pub no_engine : c.tts ≡ none

  -- A server with --relay for whose address the client can be built sends its requests to that
  -- address, without the white space around it and over http if it does not say how, with the token
  -- of its environment exactly if that is set and not empty, and has no engine.
  pub configure-Relays :
      (token : Option Text) (platform : Platform) (args : ServeArgs) (url : Text) (c : Client)
      → args.relay ≡ some url
      → client (normalize_url url) ≡ good c
      → (config : Config) × (configure (new_api http token) platform args ≡ ok config)
        × Relays token url config
  unfolding configure configured tts_engine new_api relay_new
  configure-Relays token platform args url c e b = (
    configured platform args (some (api (authorize http token c))),
    rw (e, configure) (rw (b, new_api) refl),
    record {
      to = normalize_url url;
      meant = normalize_url-Means url;
      through = authorize http token c;
      sends_to = authorize-base_url token c ∙ built_for (normalize_url url) c b;
      asks = refl;
      authorized = authorize-header token c (without_token (normalize_url url) c b);
      no_engine = refl;
    },
  )
