-- ===== src/KeyStore/Describe.antt =====
-- `describe()` of each provider of packages/keystore/src/index.js.
use xrpl_credit_orchestrator.Prelude.{ltb, String, Option, if◌then◌else◌}
use xrpl_credit_orchestrator.Json.{Json, num, str, obj, end, field}
use xrpl_credit_orchestrator.Json.Field.{of_text}
use xrpl_credit_orchestrator.KeyStore.Providers.{
  KeyStore, dev_env, dev_file, hsm, keys_count, aws_kms, gcp_kms,
}

abbrev pub readiness : Json → Json
readiness map = str (if ltb 0 (keys_count map) then "ready" else "needs_configuration")

abbrev describe_env : Json → Json
describe_env map = obj (
    field "provider" (str "env")
      (field "mode" (str "DEV_ONLY") (field "loadedAddresses" (num (keys_count map)) end)))

abbrev describe_file : Option String → Json
describe_file path = obj (
    field "provider" (str "file")
      (field "mode" (str "DEV_ONLY") (field "filePath" (of_text path) end)))

abbrev describe_aws : Json → Json → Json
describe_aws alias map = obj (
    field "provider" (str "aws-kms") (
      field "mode" (str "PRODUCTION") (
        field "keyAlias" alias (
          field "configuredAddresses" (num (keys_count map))
            (field "status" (readiness map) end)))))

abbrev describe_gcp : Json → Json → Json
describe_gcp ring map = obj (
    field "provider" (str "gcp-kms") (
      field "mode" (str "PRODUCTION") (
        field "keyRing" ring (
          field "configuredAddresses" (num (keys_count map))
            (field "status" (readiness map) end)))))

abbrev describe_hsm : Json → Json → Json → Json
describe_hsm slot label map = obj (
    field "provider" (str "hsm") (
      field "mode" (str "PRODUCTION") (
        field "slot" slot (
          field "keyLabel" label (
            field "configuredAddresses" (num (keys_count map))
              (field "status" (readiness map) end))))))

-- `describe()` of each provider
unfoldable pub describe : KeyStore → Json
describe (dev_env map) = describe_env map
describe (dev_file path) = describe_file path
describe (aws_kms alias map) = describe_aws alias map
describe (gcp_kms ring map) = describe_gcp ring map
describe (hsm slot label map) = describe_hsm slot label map
