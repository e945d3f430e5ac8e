-- ===== src/Database/Anchor.antt =====
-- `generateChainAnchor` of packages/evidence-sdk/src/index.js, and the anchor of an aggregate's history as
-- apps/control-api/src/services/audit.service.js asks for it.
use xrpl_credit_orchestrator.Prelude.{ℕ, String, Option, none, some, List, [], ◌∷◌, length, last?}
use xrpl_credit_orchestrator.Json.{Json, num, str, obj, end, field}
use xrpl_credit_orchestrator.Json.Field.{of_text}
use xrpl_credit_orchestrator.Evidence.{EvidenceEvent, Verdict, valid, broken, verify_chain}
use xrpl_credit_orchestrator.Evidence.Canonical.{canonicalize}
use xrpl_credit_orchestrator.Database.Tables.{Store, now_iso}
use xrpl_credit_orchestrator.Database.Evidence.{get_evidence}

pub data Anchor : Type 0 where
  chain_broken : Verdict → Anchor
  anchored :
      (anchor_hash : String)
      → (chain_length : ℕ) → (head_hash : Option String) → (anchored_at : String) → Anchor

abbrev created_at_of : Option EvidenceEvent → Option String
created_at_of none = none
created_at_of (some e) = some e.created_at

abbrev first? : List EvidenceEvent → Option EvidenceEvent
first? [] = none
first? (e ∷ _) = some e

-- The object whose hash is the anchor.
abbrev pub anchor_input : List EvidenceEvent → Option String → String → Json
anchor_input events head now = obj (
    field "type" (str "chain_anchor") (
      field "chainLength" (num (length events)) (
        field "headHash" (of_text head) (
          field "firstEventAt" (of_text (created_at_of (first? events))) (
            field "lastEventAt" (of_text (created_at_of (last? events)))
              (field "anchoredAt" (str now) end))))))

abbrev anchor_of : (String → String) → String → List EvidenceEvent → Verdict → Anchor
anchor_of sha now events (valid n head) =
    anchored (sha (canonicalize (anchor_input events head now))) (length events) head now
anchor_of sha now events (broken i e expected n) = chain_broken (broken i e expected n)

unfoldable pub generate_chain_anchor : (String → String) → String → List EvidenceEvent → Anchor
generate_chain_anchor sha now events = anchor_of sha now events (verify_chain sha events)

-- `getChainAnchor`
unfoldable pub get_chain_anchor : String → String → Store → Anchor
get_chain_anchor aggregate_type aggregate_id s =
    generate_chain_anchor s.host.sha256 (now_iso s) (get_evidence aggregate_type aggregate_id s)
