-- ===== src/Evidence/Scope.antt =====
-- Chain scopes, `aggregateType:aggregateId`: one scope for one aggregate, as long as no aggregate
-- type holds a colon.
use Prim.Native.Char.{Char, char, code}
use Prim.Native.String.append
use xrpl_credit_orchestrator.Prelude.{
  String, Bool, true, false, ◌≡◌, refl, arith, nat_eq, if◌then◌else◌, ◌==◌, eq_iff, ◌&&◌, ap, ◌∙◌,
  sym, ◌+++◌,
}
use xrpl_credit_orchestrator.Evidence.{make_chain_scope}

abbrev pub has_no_colon : String → Bool
has_no_colon String.[] = true
has_no_colon (String.◌∷◌ c s) = if nat_eq (code c) 58 then false else has_no_colon s

abbrev colon : Char
colon = char 58 tt

tail_has_no_colon :
    (c : Char) (s : String) → has_no_colon (String.◌∷◌ c s) ≡ true → has_no_colon s ≡ true
tail_has_no_colon c s h = ground arith

-- The scope, spelled out character by character.
abbrev spelled : String → String → String
spelled String.[] i = String.◌∷◌ colon i
spelled (String.◌∷◌ c t) i = String.◌∷◌ c (spelled t i)

make_chain_scope-spelled : (t i : String) → make_chain_scope t i ≡ spelled t i
make_chain_scope-spelled String.[] i =
    append.nil (":" +++ i) ∙ (append.cons colon "" i ∙ ap (String.◌∷◌ colon) (append.nil i))
make_chain_scope-spelled (String.◌∷◌ c t) i =
    append.cons c t (":" +++ i) ∙ ap (String.◌∷◌ c) (make_chain_scope-spelled t i)

not-colon : (c : Char) (s : String) → has_no_colon (String.◌∷◌ c s) ≡ true → c ≡ colon → ⊥
not-colon c s h e = cc (ap (λ (d : Char). if nat_eq (code d) 58 then false else has_no_colon s) e)

-- What stands behind the colon is the identifier, and what stands before it the type.
spelled_injective :
    (t u i j : String)
    → has_no_colon t ≡ true
    → has_no_colon u ≡ true
    → spelled t i ≡ spelled u j
    → (t ≡ u) × (i ≡ j)
spelled_injective String.[] String.[] i j ht hu e = (refl, cc)
spelled_injective String.[] (String.◌∷◌ d u) i j ht hu e = absurd (not-colon d u hu (cc))
spelled_injective (String.◌∷◌ c t) String.[] i j ht hu e = absurd (not-colon c t ht (cc))
spelled_injective (String.◌∷◌ c t) (String.◌∷◌ d u) i j ht hu e =
    let rest =
      spelled_injective t u i j (tail_has_no_colon c t ht) (tail_has_no_colon d u hu) (cc) in
    (cc (rest.0), rest.1)

-- Two aggregates whose types hold no colon have different scopes.
pub make_chain_scope_injective :
    (t u i j : String)
    → has_no_colon t ≡ true
    → has_no_colon u ≡ true
    → make_chain_scope t i ≡ make_chain_scope u j
    → (t ≡ u) × (i ≡ j)
make_chain_scope_injective t u i j ht hu e =
    spelled_injective t u i j ht hu
      (sym (make_chain_scope-spelled t i) ∙ e ∙ make_chain_scope-spelled u j)

-- A filter by scope and one by type and identifier pick the same events.
pub scope_test :
    (t u i j : String)
    → has_no_colon t ≡ true
    → has_no_colon u ≡ true
    → (make_chain_scope t i == make_chain_scope u j) ≡ (t == u && i == j)
scope_test t u i j ht hu = ground (
  arith,
  make_chain_scope_injective t u i j ht hu,
  eq_iff (make_chain_scope t i) (make_chain_scope u j),
  eq_iff t u,
  eq_iff i j,
)
