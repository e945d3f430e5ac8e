-- ===== src/Tests/Evidence.antt =====
-- The evidence chain's theorems at concrete events.
use mathlib.Core.List.{Permᴰ}
use xrpl_credit_orchestrator.Prelude.{
  String, none, List, [], ◌∷◌, ◌≡◌, ◌≢◌, refl, length, last?, eq_iff,
}
use xrpl_credit_orchestrator.Json.{null, num, str, obj, Fields, end, field}
use xrpl_credit_orchestrator.Evidence.{EvidenceEvent, verify_chain, valid, broken, expected_hash}
use xrpl_credit_orchestrator.Evidence.Canonical.{canonicalize}
use xrpl_credit_orchestrator.Evidence.KeyOrder.{canonicalize-perm}
use xrpl_credit_orchestrator.Evidence.Verify.{IsExact, verify_chain-IsExact, last_hash}
use xrpl_credit_orchestrator.Database.Evidence.{get_evidence}
use xrpl_credit_orchestrator.Database.Evidence.Chains.{
  Append, append_all, requests, verify_chain-append_all,
}
use xrpl_credit_orchestrator.Database.Postgres as Postgres
use xrpl_credit_orchestrator.Database.Postgres.Broken.{verify_chain-append_evidence_broken}
use xrpl_credit_orchestrator.Database.{now_iso}
use xrpl_credit_orchestrator.Database.Anchor.{
  anchored, anchor_input, generate_chain_anchor, get_chain_anchor,
}
use xrpl_credit_orchestrator.Tests.Data.{store}

abbrev append : String → String → Append
append t i = record {
  aggregate_type = t;
  aggregate_id = i;
  event_type = "loan.approved";
  payload = obj (field "actor" (str "u1") end);
}

abbrev appends : List Append
appends = append "loan" "l1" ∷ append "vault" "v1" ∷ append "loan" "l1" ∷ []

verify_chain-append_all_example :
    let u = append_all appends store in
    verify_chain u.host.sha256 (get_evidence "loan" "l1" u)
    ≡ valid (length (requests "loan" "l1" appends)) (last_hash (last? (get_evidence "loan" "l1" u)))
verify_chain-append_all_example =
    verify_chain-append_all "loan" "l1" appends store refl refl (refl, (refl, (refl, tt)))

abbrev forged : List EvidenceEvent
forged =
    record {
      chain_scope = "loan:l1";
      aggregate_type = "loan";
      aggregate_id = "l1";
      event_type = "loan.approved";
      payload = null;
      payload_hash = "forged";
      prev_hash = none;
      created_at = "";
    }
    ∷ []

verify_chain-IsExact_example :
    IsExact (λ t. t) (length forged) none forged 0 (verify_chain (λ t. t) forged)
verify_chain-IsExact_example = verify_chain-IsExact (λ t. t) forged

abbrev forwards : Fields
forwards = field "a" (num 1) (field "b" (num 2) end)

abbrev backwards : Fields
backwards = field "b" (num 2) (field "a" (num 1) end)

abbrev a : String
a = "a"

abbrev b : String
b = "b"

a-b : a ≢ b
a-b e = absurd (cc ((eq_iff a b).1 e))

canonicalize-perm_example : canonicalize (obj forwards) ≡ canonicalize (obj backwards)
unfolding canonicalize
canonicalize-perm_example =
    canonicalize-perm forwards backwards ((a-b, tt), (tt, tt)) ∣ Permᴰ.swap refl refl ∣₁

verify_chain-append_evidence_broken_example :
    let e = Postgres.inserted (λ t. t) "loan" "l1" "loan.approved" (obj forwards) none "" in
    verify_chain
      (λ t. t)
      (Postgres.get_evidence "loan" "l1"
        (Postgres.append_evidence (λ t. t) "loan" "l1" "loan.approved" (obj forwards) "" []))
    ≡ broken 0 e (expected_hash (λ t. t) e none) 1
unfolding Postgres.jsonb Postgres.get_evidence
verify_chain-append_evidence_broken_example =
    verify_chain-append_evidence_broken (λ t. t) "loan" "l1" "loan.approved" "a" "" (num 1)
      (field "b" (num 2) end) [] (λ a b e. e) refl refl refl refl refl

-- An empty history can be anchored.
anchored_empty :
    get_chain_anchor "loan" "l1" store
    ≡ anchored
        (store.host.sha256 (canonicalize (anchor_input [] none (now_iso store))))
        0
        none
        (now_iso store)
unfolding get_chain_anchor generate_chain_anchor verify_chain get_evidence
anchored_empty = refl
