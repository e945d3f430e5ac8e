-- ===== src/KeyStore/Providers/Signing.antt =====
-- Which signatures a key store gives out, and how it refuses.
use xrpl_credit_orchestrator.Prelude.{
  String, Bool, true, false, ◌==◌, ◌+++◌, eq_iff, ◌≡◌, ◌≢◌, refl, ◌⊎◌, inl, inr, Bool-cases, arith,
  if◌then◌else◌,
}
use xrpl_credit_orchestrator.Json.{Json}
use xrpl_credit_orchestrator.Json.Field.{truthy_json}
use xrpl_credit_orchestrator.KeyStore.Blob.{SignedBlob}
use xrpl_credit_orchestrator.KeyStore.Providers.{
  Failure, plain, key_not_found, Outcome, done, failed, Runtime, KeyStore, dev_env, dev_file,
  aws_kms, gcp_kms, hsm, kms_sign, hsm_sign, is_there, key_of, has_key, wallet_sign, seed_sign,
  sign, unavailable,
}

Outcome-cases :
    {A : Type 0} (o : Outcome A) → ((a : A) × (o ≡ done a)) ⊎ ((e : Failure) × (o ≡ failed e))
Outcome-cases (done a) = inl (a, refl)
Outcome-cases (failed e) = inr (e, refl)

kms_sign-done :
    (provider client ref : String) (o : Outcome Json) (blob : SignedBlob)
    → kms_sign provider client ref o ≢ done blob
kms_sign-done provider client ref (failed e) blob h = cc
kms_sign-done provider client ref (done key) blob h = ground arith

hsm_sign-done : (ref : String) (o : Outcome Json) (blob : SignedBlob) → hsm_sign ref o ≢ done blob
hsm_sign-done ref (failed e) blob h = cc
hsm_sign-done ref (done key) blob h = ground arith

kms_sign-absent :
    (provider client ref : String) (o : Outcome Json)
    → is_there o ≡ done false
    → kms_sign provider client ref o ≡ failed (key_not_found ref provider)
kms_sign-absent provider client ref (failed e) h = absurd (cc)
kms_sign-absent provider client ref (done key) h = ground arith

kms_sign-present :
    (provider client ref : String) (o : Outcome Json)
    → is_there o ≡ done true
    → kms_sign provider client ref o ≡ failed (unavailable provider client "KMS_SETUP.md")
kms_sign-present provider client ref (failed e) h = absurd (cc)
kms_sign-present provider client ref (done key) h = ground arith

hsm_sign-absent :
    (ref : String) (o : Outcome Json)
    → is_there o ≡ done false
    → hsm_sign ref o ≡ failed (key_not_found ref "hsm")
hsm_sign-absent ref (failed e) h = absurd (cc)
hsm_sign-absent ref (done key) h = ground arith

hsm_sign-present :
    (ref : String) (o : Outcome Json)
    → is_there o ≡ done true
    → hsm_sign ref o ≡ failed (unavailable "hsm" "pkcs11js" "HSM_SETUP.md")
hsm_sign-present ref (failed e) h = absurd (cc)
hsm_sign-present ref (done key) h = ground arith

-- A provider that holds seeds.
abbrev pub is_dev : KeyStore → Bool
is_dev (dev_env _) = true
is_dev (dev_file _) = true
is_dev _ = false

-- The blob is what the wallet of the seed that was found makes of the transaction, and the wallet's
-- address is the one that was asked for.
pub record IsSeedSigned {W : Type 0} (runtime : Runtime W) (tx : Json) (ref : String)
    (found : Outcome Json) (blob : SignedBlob) : Type 0 where
  pub seed : Json
  pub wallet : W
  pub held : found ≡ done seed
  pub present : truthy_json seed ≡ true
  pub opened : runtime.from_seed seed ≡ done wallet
  pub owner : runtime.classic_address wallet ≡ ref
  pub made : runtime.sign_with wallet tx ≡ done blob

module _ {W : Type 0} (runtime : Runtime W) where
  wallet_sign-done :
      (tx : Json) (ref : String) (o : Outcome W) (blob : SignedBlob)
      → wallet_sign runtime tx ref o ≡ done blob
      → (wallet : W) × (o ≡ done wallet)
        × (runtime.classic_address wallet ≡ ref)
        × (runtime.sign_with wallet tx ≡ done blob)
  unfolding wallet_sign
  wallet_sign-done tx ref (failed e) blob h = absurd (cc)
  wallet_sign-done tx ref (done wallet) blob h =
      elim (Bool-cases (runtime.classic_address wallet == ref)) [
        | inl same ↦
            (wallet, refl, (eq_iff (runtime.classic_address wallet) ref).0 same, rw same at h)
        | inr other ↦ absurd (ground arith)
      ]

  seed_sign-done :
      (tx : Json) (ref : String) (o : Outcome Json) (blob : SignedBlob)
      → seed_sign runtime tx ref o ≡ done blob
      → IsSeedSigned runtime tx ref o blob
  unfolding seed_sign
  seed_sign-done tx ref (failed e) blob h = absurd (cc)
  seed_sign-done tx ref (done seed) blob h = elim (Bool-cases (truthy_json seed)) [
    | inl t ↦
        let (wallet, a, b, c) = wallet_sign-done tx ref (runtime.from_seed seed) blob (rw t at h) in
        record {
          seed = seed;
          wallet = wallet;
          held = refl;
          present = t;
          opened = a;
          owner = b;
          made = c;
        }
    | inr f ↦ absurd (ground arith)
  ]

  seed_sign-absent :
      (tx : Json) (ref : String) (o : Outcome Json)
      → is_there o ≡ done false
      → seed_sign runtime tx ref o ≡ failed (plain ("no_key: " +++ ref))
  unfolding seed_sign
  seed_sign-absent tx ref (failed e) h = absurd (cc)
  seed_sign-absent tx ref (done seed) h = ground arith

  -- Every signature that a key store returns is made by a wallet of the seed that a development
  -- provider holds under the address, and the wallet's address is the one that was asked for.
  pub sign-done :
      (store : KeyStore) (tx : Json) (ref : String) (blob : SignedBlob)
      → sign runtime store tx ref ≡ done blob
      → (is_dev store ≡ true) × IsSeedSigned runtime tx ref (key_of runtime store ref) blob
  unfolding sign
  sign-done (dev_env map) tx ref blob h =
      (refl, seed_sign-done tx ref (key_of runtime (dev_env map) ref) blob h)
  sign-done (dev_file path) tx ref blob h =
      (refl, seed_sign-done tx ref (key_of runtime (dev_file path) ref) blob h)
  sign-done (aws_kms alias map) tx ref blob h = absurd (
      kms_sign-done "aws-kms" "@aws-sdk/client-kms" ref (key_of runtime (aws_kms alias map) ref)
        blob h)
  sign-done (gcp_kms ring map) tx ref blob h = absurd (
      kms_sign-done "gcp-kms" "@google-cloud/kms" ref (key_of runtime (gcp_kms ring map) ref) blob
        h)
  sign-done (hsm slot label map) tx ref blob h =
      absurd (hsm_sign-done ref (key_of runtime (hsm slot label map) ref) blob h)

  -- A key store that answers that it has no key for an address refuses to sign for it, whatever the
  -- transaction: a development provider says `no_key`, and the others that the key is not found.
  pub sign-no_key :
      (store : KeyStore) (tx : Json) (ref : String)
      → has_key runtime store ref ≡ done false
      → (provider : String) × (sign runtime store tx ref
          ≡ failed
              (if is_dev store then plain ("no_key: " +++ ref) else key_not_found ref provider))
  unfolding sign has_key
  sign-no_key (dev_env map) tx ref h =
      ("", seed_sign-absent tx ref (key_of runtime (dev_env map) ref) h)
  sign-no_key (dev_file path) tx ref h =
      ("", seed_sign-absent tx ref (key_of runtime (dev_file path) ref) h)
  sign-no_key (aws_kms alias map) tx ref h = (
    "aws-kms",
    kms_sign-absent "aws-kms" "@aws-sdk/client-kms" ref (key_of runtime (aws_kms alias map) ref) h,
  )
  sign-no_key (gcp_kms ring map) tx ref h = (
    "gcp-kms",
    kms_sign-absent "gcp-kms" "@google-cloud/kms" ref (key_of runtime (gcp_kms ring map) ref) h,
  )
  sign-no_key (hsm slot label map) tx ref h =
      ("hsm", hsm_sign-absent ref (key_of runtime (hsm slot label map) ref) h)

  -- A production provider that has the key for an address says that it is unavailable, and names the
  -- client that it lacks.
  pub sign-production :
      (store : KeyStore) (tx : Json) (ref : String)
      → is_dev store ≡ false
      → has_key runtime store ref ≡ done true
      → (provider : String) × (client : String) × (doc : String) × (sign runtime store tx ref
          ≡ failed (unavailable provider client doc))
  unfolding sign has_key
  sign-production (dev_env map) tx ref d h = absurd (cc)
  sign-production (dev_file path) tx ref d h = absurd (cc)
  sign-production (aws_kms alias map) tx ref d h = (
    "aws-kms",
    "@aws-sdk/client-kms",
    "KMS_SETUP.md",
    kms_sign-present "aws-kms" "@aws-sdk/client-kms" ref (key_of runtime (aws_kms alias map) ref) h,
  )
  sign-production (gcp_kms ring map) tx ref d h = (
    "gcp-kms",
    "@google-cloud/kms",
    "KMS_SETUP.md",
    kms_sign-present "gcp-kms" "@google-cloud/kms" ref (key_of runtime (gcp_kms ring map) ref) h,
  )
  sign-production (hsm slot label map) tx ref d h = (
    "hsm",
    "pkcs11js",
    "HSM_SETUP.md",
    hsm_sign-present ref (key_of runtime (hsm slot label map) ref) h,
  )
