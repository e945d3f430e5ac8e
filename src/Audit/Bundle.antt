-- ===== src/Audit/Bundle.antt =====
-- Who is named in an audit bundle.
use xrpl_credit_orchestrator.Prelude.{
  ℕ, ◌+◌, String, Bool, true, List, [], ◌∷◌, ◌++◌, ◌≡◌, refl, eq_iff, eq_refl, any, filter, length,
  Bool-cases, inl, inr, if◌then◌else◌, arith, ap, ◌∙◌, sym, subst, ◌||◌, truthy_text,
}
use xrpl_credit_orchestrator.Json.{Json, null, undefined, bool, num, str, arr, obj}
use xrpl_credit_orchestrator.Json.Field.{get, truthy_json}
use xrpl_credit_orchestrator.Evidence.{EvidenceEvent}
use xrpl_credit_orchestrator.Database.{Store}
use xrpl_credit_orchestrator.Database.Evidence.{get_evidence}
use xrpl_credit_orchestrator.Audit.{
  same_value, add_value, collect_actors, build_audit_bundle, export_aggregate_bundle,
}

-- The event names this user as its actor.
abbrev pub is_by : String → EvidenceEvent → Bool
is_by user e = same_value (str user) (get "actor" e.payload)

-- How often a user is listed.
abbrev pub times_listed : String → List Json → ℕ
times_listed user vs = length (filter (same_value (str user)) vs)

abbrev pub once : Bool → ℕ
once b = if b then 1 else 0

any-append : (p : Json → Bool) (xs ys : List Json) → any p (xs ++ ys) ≡ (any p xs || any p ys)
any-append p [] ys = refl
any-append p (x ∷ xs) ys = ground (arith, any-append p xs ys)

same_value-text : (user : String) (v : Json) → same_value (str user) v ≡ true → v ≡ str user
same_value-text user (str t) h = ap str (sym ((eq_iff user t).0 h))
same_value-text user null h = absurd (cc)
same_value-text user undefined h = absurd (cc)
same_value-text user (bool _) h = absurd (cc)
same_value-text user (num _) h = absurd (cc)
same_value-text user (arr _) h = absurd (cc)
same_value-text user (obj _) h = absurd (cc)

-- What one event does to the list of actors.
abbrev added : Json → List Json → List Json
added v vs = if truthy_json v then add_value v vs else vs

any-added :
    (user : String) (v : Json) (vs : List Json)
    → truthy_text user ≡ true
    → any (same_value (str user)) (added v vs)
      ≡ (any (same_value (str user)) vs || same_value (str user) v)
any-added user v vs h = elim (Bool-cases (same_value (str user) v)) [
  | inl same ↦
      subst
        (λ w.
          any (same_value (str user)) (added w vs)
          ≡ (any (same_value (str user)) vs || same_value (str user) w))
        (sym (same_value-text user v same))
        (ground (arith, any-append (same_value (str user)) vs (str user ∷ []), eq_refl user))
  | inr other ↦ ground (arith, any-append (same_value (str user)) vs (v ∷ []))
]

times_listed-append :
    (user : String) (vs : List Json) (v : Json)
    → times_listed user (vs ++ v ∷ []) ≡ times_listed user vs + once (same_value (str user) v)
times_listed-append user [] v = ground arith
times_listed-append user (w ∷ vs) v = ground (arith, times_listed-append user vs v)

times_listed-added :
    (user : String) (v : Json) (vs : List Json)
    → truthy_text user ≡ true
    → times_listed user vs ≡ once (any (same_value (str user)) vs)
    → times_listed user (added v vs) ≡ once (any (same_value (str user)) (added v vs))
times_listed-added user v vs h e = elim (Bool-cases (same_value (str user) v)) [
  | inl same ↦
      subst (λ w. times_listed user (added w vs) ≡ once (any (same_value (str user)) (added w vs)))
        (sym (same_value-text user v same))
        (ground (
          arith,
          eq_refl user,
          any-append (same_value (str user)) vs (str user ∷ []),
          times_listed-append user vs (str user),
        ))
  | inr other ↦
      ground (arith, any-append (same_value (str user)) vs (v ∷ []), times_listed-append user vs v)
]

collect_actors-once :
    (user : String) (es : List EvidenceEvent) (vs : List Json)
    → truthy_text user ≡ true
    → times_listed user vs ≡ once (any (same_value (str user)) vs)
    → times_listed user (collect_actors vs es)
      ≡ once (any (same_value (str user)) vs || any (is_by user) es)
unfolding collect_actors
collect_actors-once user [] vs h e = ground arith
collect_actors-once user (x ∷ es) vs h e =
    let v = get "actor" x.payload in
    collect_actors-once user es (added v vs) h (times_listed-added user v vs h e)
    ∙ ap once (ground (arith, any-added user v vs h))

-- The export of an aggregate names each user who acted, by a name that is not empty, exactly once
-- among its operators, and no user who is the actor of no event of that aggregate.
pub export_aggregate_bundle-operators :
    (user aggregate_type aggregate_id : String) (s : Store)
    → truthy_text user ≡ true
    → times_listed user (export_aggregate_bundle aggregate_type aggregate_id s).bundle.operators
      ≡ once (any (is_by user) (get_evidence aggregate_type aggregate_id s))
unfolding export_aggregate_bundle build_audit_bundle
export_aggregate_bundle-operators user t i s h =
    collect_actors-once user (get_evidence t i s) [] h refl
