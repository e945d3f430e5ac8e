-- ===== src/Database/Postgres/Broken.antt =====
-- The chains that apps/control-api/src/db/pg.js stores are not the ones that were hashed.
use Prim.Native.String.{len}
use xrpl_credit_orchestrator.Prelude.{
  ◌+◌, ◌≤◌, String, true, Option, none, List, [], ◌∷◌, ◌≡◌, ◌≢◌, refl, arith, eq_iff, eq_refl,
  filter, filter-append,
}
use xrpl_credit_orchestrator.Json.{Json, obj, str, Fields, field}
use xrpl_credit_orchestrator.Json.Field.{put_field}
use xrpl_credit_orchestrator.Evidence.{
  EvidenceEvent, broken, create_evidence_event, verify_chain, expected_hash, hash_event,
  make_chain_scope, enrich, warnings_field, payload_warnings,
}
use xrpl_credit_orchestrator.Evidence.Canonical.{canonicalize, members}
use xrpl_credit_orchestrator.Evidence.Size.{
  lacks, lacks-put_field, weight-put_field, len-object_text, hash_input-len,
}
use xrpl_credit_orchestrator.Database.Evidence.{is_about, in_scope}
use xrpl_credit_orchestrator.Database.Postgres.{jsonb, inserted, append_evidence, get_evidence}

-- Enriching a payload makes its text longer.
len-enrich :
    (k : String) (v : Json) (fs : Fields)
    → lacks "_evidenceVersion" (field k v fs) ≡ true
    → lacks "_warnings" (field k v fs) ≡ true
    → len (canonicalize (obj (field k v fs))) + 1 ≤ len (canonicalize (enrich (obj (field k v fs))))
unfolding canonicalize
len-enrich k v fs hv hw =
    let gs = field k v fs in
    let w = warnings_field (payload_warnings (obj gs)) in
    let hs = put_field "_evidenceVersion" (str "2.0") gs in
    omega (
      arith,
      len-object_text (members gs) (omega arith),
      weight-put_field "_evidenceVersion" (str "2.0") gs hv,
      weight-put_field "_warnings" w hs
          (lacks-put_field "_warnings" "_evidenceVersion" (str "2.0") gs refl hw),
      len-object_text (members (put_field "_warnings" w hs)) (
          omega (
            arith,
            weight-put_field "_warnings" w hs
                (lacks-put_field "_warnings" "_evidenceVersion" (str "2.0") gs refl hw),
          )),
    )

hash_event-text :
    (sha : String → String) (sc t i k : String) (p q : Json) (h : Option String)
    → ((a b : String) → sha a ≡ sha b → a ≡ b)
    → hash_event sha sc t i k p h ≡ hash_event sha sc t i k q h
    → len (canonicalize p) ≡ len (canonicalize q)
unfolding hash_event
hash_event-text sha sc t i k p q h inj e = hash_input-len sc t i k p q h (inj _ _ e)

-- The row that the insert writes does not bear the hash of its own content.
inserted-mismatch :
    (sha : String → String) (t i k name at : String) (v : Json) (fs : Fields) (p : Option String)
    → ((a b : String) → sha a ≡ sha b → a ≡ b)
    → jsonb (obj (field name v fs)) ≡ obj (field name v fs)
    → lacks "_evidenceVersion" (field name v fs) ≡ true
    → lacks "_warnings" (field name v fs) ≡ true
    → let e = inserted sha t i k (obj (field name v fs)) p at in
      expected_hash sha e p ≢ e.payload_hash
unfolding inserted create_evidence_event
inserted-mismatch sha t i k name at v fs p inj same hv hw e =
    let q = rw same at (hash_event-text sha _ t i k _ _ p inj e) in
    absurd (omega (arith, q, len-enrich name v fs hv hw))

verify_first :
    (sha : String → String) (e : EvidenceEvent)
    → expected_hash sha e none ≢ e.payload_hash
    → verify_chain sha (e ∷ []) ≡ broken 0 e (expected_hash sha e none) 1
unfolding verify_chain
verify_first sha e ne = ground (arith, eq_iff (expected_hash sha e none) e.payload_hash)

inserted-is_about :
    (sha : String → String) (t i k at : String) (payload : Json) (p : Option String)
    → is_about t i (inserted sha t i k payload p at) ≡ true
unfolding inserted create_evidence_event
inserted-is_about sha t i k at payload p = rw (eq_refl t, eq_refl i)

-- In PostgreSQL the insert stores the caller's payload beside the hash of the enriched one. With a
-- hash that tells different texts apart, the first evidence event of an aggregate therefore never
-- verifies: `verifyChain` reports it, at index 0, whatever its payload, provided that the payload is an
-- object with a field, survives JSON and does not name the two fields that enrichment adds.
pub verify_chain-append_evidence_broken :
    (sha : String → String) (t i k name at : String) (v : Json) (fs : Fields)
    (table : List EvidenceEvent)
    → ((a b : String) → sha a ≡ sha b → a ≡ b)
    → jsonb (obj (field name v fs)) ≡ obj (field name v fs)
    → lacks "_evidenceVersion" (field name v fs) ≡ true
    → lacks "_warnings" (field name v fs) ≡ true
    → filter (in_scope (make_chain_scope t i)) table ≡ []
    → get_evidence t i table ≡ []
    → let e = inserted sha t i k (obj (field name v fs)) none at in
      verify_chain sha
        (get_evidence t i (append_evidence sha t i k (obj (field name v fs)) at table))
      ≡ broken 0 e (expected_hash sha e none) 1
unfolding append_evidence get_evidence
verify_chain-append_evidence_broken sha t i k name at v fs table inj same hv hw empty none_yet =
    rw
      (
        empty,
        filter-append (is_about t i) table (e ∷ []),
        none_yet,
        inserted-is_about sha t i k at (obj (field name v fs)) none,
      )
      (verify_first sha e (inserted-mismatch sha t i k name at v fs none inj same hv hw))
  where
    e : EvidenceEvent
    e = inserted sha t i k (obj (field name v fs)) none at
