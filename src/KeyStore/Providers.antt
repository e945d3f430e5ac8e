-- ===== src/KeyStore/Providers.antt =====
-- packages/keystore/src/index.js: the providers of signatures and the choice among them. The wallets
-- of the xrpl package, `JSON.parse` and the files are parameters; an error is its code and its message.
pub mod Signing
use xrpl_credit_orchestrator.Prelude.{
  ℕ, zero, suc, ltb, String, Bool, true, false, Option, none, some, List, [], ◌∷◌, ◌==◌, ◌+++◌,
  ◌||◌, truthy, truthy_text, if◌then◌else◌, length, or_else,
}
use xrpl_credit_orchestrator.Json.{Json, null, undefined, num, str, obj, end, field}
use xrpl_credit_orchestrator.Json.Field.{get, truthy_json, of_text, object_entries, or_json}
use xrpl_credit_orchestrator.KeyStore.Blob.{SignedBlob}

-- The classes of packages/keystore/src/kms-helpers.js that the providers throw; `plain` is an `Error`,
-- which has no code.
pub data Failure : Type 0 where
  kms_unavailable : String → String → Failure
  key_not_found : String → String → Failure
  plain : String → Failure

abbrev pub message_of : Failure → String
message_of (kms_unavailable provider detail) = "kms_unavailable: " +++ provider +++ " — " +++ detail
message_of (key_not_found key_ref provider) = "key_not_found: " +++ key_ref +++ " in " +++ provider
message_of (plain message) = message

pub data Outcome (A : Type 0) : Type 0 where
  done : A → Outcome A
  failed : Failure → Outcome A

-- `xrpl.Wallet` and what the file system and `JSON.parse` answer: a file that does not exist is `none`.
pub record Runtime (W : Type 0) : Type 0 where
  pub from_seed : Json → Outcome W
  pub classic_address : W → String
  pub sign_with : W → Json → Outcome SignedBlob
  pub parse : String → Outcome Json
  pub read_file : String → Option String

pub data KeyStore : Type 0 where
  dev_env : Json → KeyStore
  dev_file : Option String → KeyStore
  aws_kms gcp_kms : Json → Json → KeyStore
  hsm : Json → Json → Json → KeyStore

pub record Config : Type 0 where
  pub provider : Option String
  pub seeds_json : Option String
  pub file_path : Option String
  pub key_alias : Json
  pub key_ring : Json
  pub slot : Json
  pub key_label : Json
  pub address_map : Json

-- `map[key]`: a property of `null` or `undefined` is a type error.
abbrev pub member : String → Json → Outcome Json
member key null = failed (plain ("Cannot read properties of null (reading '" +++ key +++ "')"))
member key undefined =
    failed (plain ("Cannot read properties of undefined (reading '" +++ key +++ "')"))
member key map = done (get key map)

abbrev pub is_there : Outcome Json → Outcome Bool
is_there (failed e) = failed e
is_there (done v) = done (truthy_json v)

abbrev pub no_map : Json
no_map = obj end

-- `Object.keys(map).length`
abbrev pub keys_count : Json → ℕ
keys_count map = length (object_entries map)

abbrev pub unavailable : String → String → String → Failure
unavailable provider client doc =
    kms_unavailable provider ("production signing requires " +++ client +++ ". See docs/" +++ doc)

-- A cloud provider has no client: what its own body throws is what its handler throws again.
abbrev pub kms_sign : String → String → String → Outcome Json → Outcome SignedBlob
kms_sign provider client key_ref (failed e) = failed e
kms_sign provider client key_ref (done key) =
    if truthy_json key
    then failed (unavailable provider client "KMS_SETUP.md")
    else failed (key_not_found key_ref provider)

abbrev pub hsm_sign : String → Outcome Json → Outcome SignedBlob
hsm_sign key_ref (failed e) = failed e
hsm_sign key_ref (done key) =
    if truthy_json key
    then failed (unavailable "hsm" "pkcs11js" "HSM_SETUP.md")
    else failed (key_not_found key_ref "hsm")

module _ {W : Type 0} (runtime : Runtime W) where
  -- `new DevEnvKeyStore(rawJson)`
  unfoldable pub new_dev_env : Option String → Outcome KeyStore
  new_dev_env none = done (dev_env no_map)
  new_dev_env (some raw) =
      if raw == "" || raw == "{}" then done (dev_env no_map) else elim (runtime.parse raw) [
        | done map ↦ done (dev_env map)
        | failed e ↦ failed (plain ("SEEDS_JSON is invalid JSON: " +++ message_of e))
      ]

  -- `createKeyStore(config)`
  unfoldable pub create_key_store : Config → Outcome KeyStore
  create_key_store config =
      let provider = or_else config.provider "env" in
      let map = or_json config.address_map no_map in
      if provider == "env"
      then new_dev_env config.seeds_json
      else if provider == "file"
      then done (dev_file config.file_path)
      else if provider == "aws-kms"
      then done (aws_kms (or_json config.key_alias null) map)
      else if provider == "gcp-kms"
      then done (gcp_kms (or_json config.key_ring null) map)
      else if provider == "hsm"
      then done (hsm (or_json config.slot null) (or_json config.key_label null) map)
      else if provider == "kms" || provider == "kms-stub"
      then done (aws_kms (or_json config.key_alias null) map)
      else if provider == "hsm-stub"
      then done (hsm (or_json config.slot null) (or_json config.key_label null) map)
      else failed (plain ("unsupported keystore provider: " +++ provider))

  -- `#readMap()`
  unfoldable pub read_map : Option String → Outcome Json
  read_map none = done no_map
  read_map (some path) =
      if truthy_text path
      then elim (runtime.read_file path) [ none ↦ done no_map | some text ↦ runtime.parse text ]
      else done no_map

  -- `map[address]` of the map that a provider signs from
  abbrev look_in : String → Outcome Json → Outcome Json
  look_in address (failed e) = failed e
  look_in address (done map) = member address map

  unfoldable pub key_of : KeyStore → String → Outcome Json
  key_of (dev_env map) address = member address map
  key_of (dev_file path) address = look_in address (read_map path)
  key_of (aws_kms _ map) address = member address map
  key_of (gcp_kms _ map) address = member address map
  key_of (hsm _ _ map) address = member address map

  unfoldable pub has_key : KeyStore → String → Outcome Bool
  has_key store address = is_there (key_of store address)

  -- A wallet signs for its own address only.
  unfoldable pub wallet_sign : Json → String → Outcome W → Outcome SignedBlob
  wallet_sign tx_json key_ref (failed e) = failed e
  wallet_sign tx_json key_ref (done wallet) =
      if runtime.classic_address wallet == key_ref
      then runtime.sign_with wallet tx_json
      else failed (
          plain (
            "key_mismatch: seed resolves to "
            +++ runtime.classic_address wallet
            +++ ", expected "
            +++ key_ref))

  unfoldable pub seed_sign : Json → String → Outcome Json → Outcome SignedBlob
  seed_sign tx_json key_ref (failed e) = failed e
  seed_sign tx_json key_ref (done seed) =
      if truthy_json seed
      then wallet_sign tx_json key_ref (runtime.from_seed seed)
      else failed (plain ("no_key: " +++ key_ref))

  -- `sign` of `DevFileKeyStore`, which reads the file again
  abbrev file_sign : Option String → Json → String → Outcome SignedBlob
  file_sign path tx_json key_ref = seed_sign tx_json key_ref (key_of (dev_file path) key_ref)

  abbrev aws_sign : Json → Json → String → Outcome SignedBlob
  aws_sign alias map key_ref =
      kms_sign "aws-kms" "@aws-sdk/client-kms" key_ref (key_of (aws_kms alias map) key_ref)

  abbrev gcp_sign : Json → Json → String → Outcome SignedBlob
  gcp_sign ring map key_ref =
      kms_sign "gcp-kms" "@google-cloud/kms" key_ref (key_of (gcp_kms ring map) key_ref)

  -- `sign(txJson, keyRef)` of each provider
  unfoldable pub sign : KeyStore → Json → String → Outcome SignedBlob
  sign (dev_env map) tx_json key_ref = seed_sign tx_json key_ref (key_of (dev_env map) key_ref)
  sign (dev_file path) tx_json key_ref = file_sign path tx_json key_ref
  sign (aws_kms alias map) tx_json key_ref = aws_sign alias map key_ref
  sign (gcp_kms ring map) tx_json key_ref = gcp_sign ring map key_ref
  sign (hsm slot label map) tx_json key_ref = hsm_sign key_ref (key_of (hsm slot label map) key_ref)
