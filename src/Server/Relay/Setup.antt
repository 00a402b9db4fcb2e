-- ===== src/Server/Relay/Setup.antt =====
-- `Relay::new` of src/server/relay.rs: the address of the upstream and the token that goes with
-- every request to it. The HTTP client that is generated is a parameter.
use mii_sound.Common.{Text, text, ◌≡◌, Option, none, some, is_empty, if◌then◌else◌, ◌++◌}
use mii_sound.Io.{Result, ok, err, msg, Parsed, good, bad}
use mii_sound.Server.Relay.Requests.{Api, normalize_url}

-- The client with its builder: it sends to the address that it was built for, and what it sends as `Authorization: Bearer` is what it was last given.
pub record Http : Type 1 where
  pub Client : Type 0
  pub client : (base_url : Text) → Parsed Client
  pub bearer_token : Client → Text → Client
  pub api : Client → Api
  pub authorization : Client → Option Text
  pub base_url : Client → Text
  pub built_for : (url : Text) (c : Client) → client url ≡ good c → base_url c ≡ url
  pub same_url : (c : Client) (t : Text) → base_url (bearer_token c t) ≡ base_url c
  pub without_token : (url : Text) (c : Client) → client url ≡ good c → authorization c ≡ none
  pub with_token : (c : Client) (t : Text) → authorization (bearer_token c t) ≡ some t

module _ (http : Http) where
  open http use {Client, client, bearer_token, api}

  pub record Relay : Type 0 where
    pub client : Client
    pub upstream : Text

  -- `$MII_SOUND_TOKEN`, if it is set and not empty.
  unfoldable pub authorize : Option Text → Client → Client
  authorize none c = c
  authorize (some token) c = if is_empty token then c else bearer_token c token

  unfoldable pub relay_new : (mii_sound_token : Option Text) → (url : Text) → Result Relay
  unfolding authorize
  relay_new mii_sound_token url =
      let upstream = normalize_url url in
      elim (client upstream) [
        | bad e ↦ err (msg (text "invalid relay url " ++ (upstream ++ (text ": " ++ e))))
        | good c ↦ ok (record { client = authorize mii_sound_token c; upstream = upstream })
      ]

  -- What the rest of the server uses of it.
  unfoldable pub new_api : (mii_sound_token : Option Text) → (url : Text) → Result Api
  unfolding relay_new
  new_api mii_sound_token url = elim (relay_new mii_sound_token url) [
    | err e ↦ err e
    | ok relay ↦ ok (api relay.client)
  ]
