-- ===== src/Database/Evidence/Chains.antt =====
-- The chains that `appendEvidence` of apps/control-api/src/db/memory.js builds are those that
-- `verifyChain` accepts, however the appends to different aggregates interleave.
use mathlib.Core.List.{map-append, append-nil}
use xrpl_credit_orchestrator.Prelude.{
  String, true, Option, none, List, [], ◌∷◌, ◌++◌, ◌≡◌, refl, ap, sym, ◌∙◌, inl, inr, arith, ◌+◌,
  ◌==◌, ◌&&◌, eq_of_==, filter, filter-append, length, length-append, last?, All, All-append,
  Bool-cases, subst,
}
use xrpl_credit_orchestrator.Json.{Json}
use xrpl_credit_orchestrator.Evidence.{
  EvidenceEvent, valid, make_chain_scope, create_evidence_event, verify_chain, expected_hash,
}
use xrpl_credit_orchestrator.Evidence.Scope.{has_no_colon, scope_test}
use xrpl_credit_orchestrator.Evidence.Verify.{
  IsChain, IsChain-append, head_hash, head_hash-last, last_hash, verify_chain-IsChain,
}
use xrpl_credit_orchestrator.Database.Tables.{Store, StoredEvent}
use xrpl_credit_orchestrator.Database.Evidence.{
  in_scope, events, next_event, append_evidence, is_about, get_evidence,
}

-- An event stands in the scope of its aggregate, whose type holds no colon.
abbrev pub IsScoped : EvidenceEvent → Type 0
IsScoped e =
    (e.chain_scope ≡ make_chain_scope e.aggregate_type e.aggregate_id)
    × (has_no_colon e.aggregate_type ≡ true)

pub record IsLog (sha : String → String) (es : List EvidenceEvent) : Type 0 where
  pub scoped : All IsScoped es
  pub chained : (scope : String) → IsChain sha none (filter (in_scope scope) es)

is_about-in_scope :
    (t i : String) (es : List EvidenceEvent)
    → has_no_colon t ≡ true
    → All IsScoped es
    → filter (is_about t i) es ≡ filter (in_scope (make_chain_scope t i)) es
is_about-in_scope t i [] ht h = refl
is_about-in_scope t i (e ∷ es) ht h =
    let same : (e.chain_scope == make_chain_scope t i)
        ≡ (e.aggregate_type == t && e.aggregate_id == i) =
      rw h.0.0 (scope_test e.aggregate_type t e.aggregate_id i h.0.1 ht) in
    ground (arith, same, is_about-in_scope t i es ht h.1)

-- The hash that a new event bears is the one that verification expects.
expected_hash-create :
    (sha : String → String) (t i k : String) (payload : Json) (p : Option String) (at : String)
    → let e = create_evidence_event sha t i k payload p at in expected_hash sha e p ≡ e.payload_hash
unfolding create_evidence_event
expected_hash-create sha t i k payload p at = refl

chain_scope-create :
    (sha : String → String) (t i k : String) (payload : Json) (p : Option String) (at : String)
    → let e = create_evidence_event sha t i k payload p at in
      (e.chain_scope ≡ make_chain_scope t i) × (e.aggregate_type ≡ t) × (e.aggregate_id ≡ i)
unfolding create_evidence_event
chain_scope-create sha t i k payload p at = (refl, refl, refl)

-- Adding the next event of one scope keeps the chain of every scope.
chained-append :
    (sha : String → String) (t i k scope at : String) (payload : Json) (es : List EvidenceEvent)
    → ((scope : String) → IsChain sha none (filter (in_scope scope) es))
    → let p = last_hash (last? (filter (in_scope (make_chain_scope t i)) es)) in
      IsChain sha none
        (filter (in_scope scope) (es ++ create_evidence_event sha t i k payload p at ∷ []))
chained-append sha t i k scope at payload es h =
    rw (filter-append (in_scope scope) es (e ∷ [])) (elim (Bool-cases (in_scope scope e)) [
      | inl hit ↦ rw hit (
          IsChain-append sha none (filter (in_scope scope) es) e (h scope)
            (fits (sym (chain_scope-create sha t i k payload p at).0 ∙ eq_of_== _ _ hit)))
      | inr miss ↦ rw (miss, append-nil) (h scope)
    ])
  where
    p : Option String
    p = last_hash (last? (filter (in_scope (make_chain_scope t i)) es))

    e : EvidenceEvent
    e = create_evidence_event sha t i k payload p at

    fits :
        make_chain_scope t i ≡ scope
        → expected_hash sha e (head_hash none (filter (in_scope scope) es)) ≡ e.payload_hash
    fits same =
        subst (λ c. expected_hash sha e (head_hash none (filter (in_scope c) es)) ≡ e.payload_hash)
          same
          (rw (head_hash-last (filter (in_scope (make_chain_scope t i)) es))
            (expected_hash-create sha t i k payload p at))

IsLog-append :
    (sha : String → String) (t i k at : String) (payload : Json) (es : List EvidenceEvent)
    → has_no_colon t ≡ true
    → IsLog sha es
    → let p = last_hash (last? (filter (in_scope (make_chain_scope t i)) es)) in
      IsLog sha (es ++ create_evidence_event sha t i k payload p at ∷ [])
IsLog-append sha t i k at payload es ht h =
    let p = last_hash (last? (filter (in_scope (make_chain_scope t i)) es)) in
    let c = chain_scope-create sha t i k payload p at in
    record {
      scoped = All-append IsScoped es _ h.scoped ((c.0 ∙ rw (c.1, c.2), rw c.1 ht), tt);
      chained = λ scope. chained-append sha t i k scope at payload es h.chained;
    }

-- The evidence table of a store.
abbrev pub IsEvidenceLog : Store → Type 0
IsEvidenceLog s = IsLog s.host.sha256 (events s.evidence)

-- An append to any aggregate keeps the chains of all.
pub append_evidence-IsEvidenceLog :
    (t i k : String) (payload : Json) (s : Store)
    → has_no_colon t ≡ true
    → IsEvidenceLog s
    → IsEvidenceLog (append_evidence t i k payload s).1
unfolding append_evidence
append_evidence-IsEvidenceLog t i k payload s ht h =
    rw (map-append (λ (r : StoredEvent). r.event) s.evidence _)
      (IsLog-append s.host.sha256 t i k (s.host.iso s.now) payload (events s.evidence) ht h)

-- A request to record evidence.
pub record Append : Type 0 where
  pub aggregate_type : String
  pub aggregate_id : String
  pub event_type : String
  pub payload : Json

abbrev pub append_all : List Append → Store → Store
append_all [] s = s
append_all (a ∷ as') s =
    append_all as' (append_evidence a.aggregate_type a.aggregate_id a.event_type a.payload s).1

append_all-IsEvidenceLog :
    (as' : List Append) (s : Store)
    → All (λ a. has_no_colon a.aggregate_type ≡ true) as'
    → IsEvidenceLog s
    → IsEvidenceLog (append_all as' s)
append_all-IsEvidenceLog [] s ha h = h
append_all-IsEvidenceLog (a ∷ as') s ha h =
    append_all-IsEvidenceLog as' _ ha.1 (
      append_evidence-IsEvidenceLog a.aggregate_type a.aggregate_id a.event_type a.payload s ha.0 h)

verify_chain-IsEvidenceLog :
    (t i : String) (s : Store)
    → has_no_colon t ≡ true
    → IsEvidenceLog s
    → verify_chain s.host.sha256 (get_evidence t i s)
      ≡ valid (length (get_evidence t i s)) (last_hash (last? (get_evidence t i s)))
unfolding get_evidence
verify_chain-IsEvidenceLog t i s ht h = rw (is_about-in_scope t i (events s.evidence) ht h.scoped) (
    rw (← head_hash-last) (verify_chain-IsChain s.host.sha256 _ (h.chained (make_chain_scope t i))))

-- The requests that are about one aggregate.
abbrev pub requests : String → String → List Append → List Append
requests t i = filter (λ a. a.aggregate_type == t && a.aggregate_id == i)

length-append_evidence :
    (t i : String) (a : Append) (s : Store)
    → let after = (append_evidence a.aggregate_type a.aggregate_id a.event_type a.payload s).1 in
      length (get_evidence t i after) ≡ length (get_evidence t i s) + length (requests t i (a ∷ []))
unfolding append_evidence get_evidence create_evidence_event
length-append_evidence t i a s =
    let e = next_event a.aggregate_type a.aggregate_id a.event_type a.payload s in
    rw (map-append (λ (r : StoredEvent). r.event) s.evidence _) (
      ap length (filter-append (is_about t i) (events s.evidence) (e ∷ []))
      ∙ length-append (filter (is_about t i) (events s.evidence)) _
      ∙ ground arith)

length-append_all :
    (t i : String) (as' : List Append) (s : Store)
    → length (get_evidence t i (append_all as' s))
      ≡ length (get_evidence t i s) + length (requests t i as')
length-append_all t i [] s = omega arith
length-append_all t i (a ∷ as') s = ground (
  arith,
  length-append_all t i as'
      (append_evidence a.aggregate_type a.aggregate_id a.event_type a.payload s).1,
  length-append_evidence t i a s,
)

none_yet : (t i : String) (s : Store) → s.evidence ≡ [] → get_evidence t i s ≡ []
unfolding get_evidence
none_yet t i s e = rw e refl

-- From an empty evidence table, any sequence of appends to any aggregates, whose types hold no
-- colon, leaves the history of every such aggregate one that `verifyChain` accepts as a whole: with
-- one event for each append to the aggregate, and the hash of its last event as the head.
pub verify_chain-append_all :
    (t i : String) (as' : List Append) (s : Store)
    → s.evidence ≡ []
    → has_no_colon t ≡ true
    → All (λ a. has_no_colon a.aggregate_type ≡ true) as'
    → let u = append_all as' s in
      verify_chain u.host.sha256 (get_evidence t i u)
      ≡ valid (length (requests t i as')) (last_hash (last? (get_evidence t i u)))
unfolding get_evidence
verify_chain-append_all t i as' s e ht ha =
    let n : length (get_evidence t i (append_all as' s)) ≡ length (requests t i as') =
      omega (arith, length-append_all t i as' s, ap length (none_yet t i s e)) in
    verify_chain-IsEvidenceLog t i (append_all as' s) ht
      (append_all-IsEvidenceLog as' s ha (rw e (record { scoped = tt; chained = λ _. tt })))
    ∙ ap (λ m. valid m (last_hash (last? (get_evidence t i (append_all as' s))))) n
