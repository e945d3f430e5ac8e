-- ===== src/Evidence/Verify.antt =====
-- `verifyChain` of packages/evidence-sdk/src/index.js against what it means for a chain to hold.
use xrpl_credit_orchestrator.Prelude.{
  ℕ, suc, ◌+◌, String, Option, none, some, List, [], ◌∷◌, ◌++◌, ◌≡◌, refl, ◌≢◌, inl, inr, arith,
  ◌==◌, eq_iff, length, last?, Bool-cases, ap,
}
use xrpl_credit_orchestrator.Evidence.{
  EvidenceEvent, Verdict, valid, broken, expected_hash, verify_from, verify_chain,
}

-- Every event bears the hash of its own content and of the hash before it.
abbrev pub IsChain : (String → String) → Option String → List EvidenceEvent → Type 0
IsChain sha p [] = Unit {0}
IsChain sha p (e ∷ es) =
    (expected_hash sha e p ≡ e.payload_hash) × IsChain sha (some e.payload_hash) es

-- The hash that the next event is to be chained to.
abbrev pub head_hash : Option String → List EvidenceEvent → Option String
head_hash p [] = p
head_hash p (e ∷ es) = head_hash (some e.payload_hash) es

-- What a verdict on a chain means: it holds as a whole, or the events before the reported one do
-- and that one does not bear the hash that it should.
abbrev pub IsExact :
    (String → String) → ℕ → Option String → List EvidenceEvent → ℕ → Verdict → Type 0
IsExact sha n p es i (valid m h) = IsChain sha p es × (m ≡ n) × (h ≡ head_hash p es)
IsExact sha n p es i (broken at e expected m) =
    (k : ℕ) × (before : List EvidenceEvent) × (after : List EvidenceEvent) × (at ≡ i + k)
    × (k ≡ length before)
    × (es ≡ before ++ e ∷ after)
    × IsChain sha p before
    × (expected ≡ expected_hash sha e (head_hash p before))
    × (expected ≢ e.payload_hash)
    × (m ≡ n)

-- A verdict on the rest of a chain, seen from one event earlier.
IsExact-cons :
    (sha : String → String) (n i : ℕ) (p : Option String) (e : EvidenceEvent)
    (es : List EvidenceEvent) (v : Verdict)
    → expected_hash sha e p ≡ e.payload_hash
    → IsExact sha n (some e.payload_hash) es (suc i) v
    → IsExact sha n p (e ∷ es) i v
IsExact-cons sha n i p e es (valid m h) ok x = ((ok, x.0), x.1, x.2)
IsExact-cons sha n i p e es (broken at f expected m) ok
      (k, before, after, a, l, eq, c, ex, ne, mn) =
    (suc k, e ∷ before, after, omega (arith, a), ap suc l, ap (λ t. e ∷ t) eq, (ok, c), ex, ne, mn)

verify_from-IsExact :
    (sha : String → String) (n i : ℕ) (p : Option String) (es : List EvidenceEvent)
    → IsExact sha n p es i (verify_from sha n i p es)
unfolding verify_from
verify_from-IsExact sha n i p [] = (tt, refl, refl)
verify_from-IsExact sha n i p (e ∷ es) =
    elim (Bool-cases (expected_hash sha e p == e.payload_hash)) [
      | inl t ↦
          rw (t, verify_from)
            (IsExact-cons sha n i p e es (verify_from sha n (suc i) (some e.payload_hash) es)
              ((eq_iff _ _).0 t) (verify_from-IsExact sha n (suc i) (some e.payload_hash) es))
      | inr f ↦
          rw (f, verify_from)
            (
              0,
              [],
              es,
              omega arith,
              refl,
              refl,
              tt,
              refl,
              (λ q. cc ((eq_iff (expected_hash sha e p) e.payload_hash).1 q)),
              refl,
            )
    ]

-- `verifyChain` is exact: it accepts only if every event bears the hash of its content and its
-- predecessor, with the chain's length and last hash; and it reports the first event that does not,
-- with the hash that it should bear.
pub verify_chain-IsExact :
    (sha : String → String) (es : List EvidenceEvent)
    → IsExact sha (length es) none es 0 (verify_chain sha es)
unfolding verify_chain
verify_chain-IsExact sha es = verify_from-IsExact sha (length es) 0 none es

verify_from-IsChain :
    (sha : String → String) (n i : ℕ) (p : Option String) (es : List EvidenceEvent)
    → IsChain sha p es
    → verify_from sha n i p es ≡ valid n (head_hash p es)
unfolding verify_from
verify_from-IsChain sha n i p [] h = refl
verify_from-IsChain sha n i p (e ∷ es) h =
    rw ((eq_iff (expected_hash sha e p) e.payload_hash).1 h.0, verify_from)
      (verify_from-IsChain sha n (suc i) (some e.payload_hash) es h.1)

-- A chain that holds is accepted.
pub verify_chain-IsChain :
    (sha : String → String) (es : List EvidenceEvent)
    → IsChain sha none es
    → verify_chain sha es ≡ valid (length es) (head_hash none es)
unfolding verify_chain
verify_chain-IsChain sha es h = verify_from-IsChain sha (length es) 0 none es h

pub IsChain-append :
    (sha : String → String) (p : Option String) (es : List EvidenceEvent) (e : EvidenceEvent)
    → IsChain sha p es
    → expected_hash sha e (head_hash p es) ≡ e.payload_hash
    → IsChain sha p (es ++ e ∷ [])
IsChain-append sha p [] e h x = (x, tt)
IsChain-append sha p (f ∷ es) e h x = (h.0, IsChain-append sha (some f.payload_hash) es e h.1 x)

-- The last hash of a list of events, as the databases look it up.
abbrev pub last_hash : Option EvidenceEvent → Option String
last_hash none = none
last_hash (some e) = some e.payload_hash

pub head_hash-last : (es : List EvidenceEvent) → head_hash none es ≡ last_hash (last? es)
head_hash-last [] = refl
head_hash-last (e ∷ es) = go e es
  where
    go :
        (e : EvidenceEvent) (es : List EvidenceEvent)
        → head_hash (some e.payload_hash) es ≡ last_hash (last? (e ∷ es))
    go e [] = refl
    go e (f ∷ es) = go f es
