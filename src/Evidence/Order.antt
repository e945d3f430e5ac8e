-- ===== src/Evidence/Order.antt =====
-- The order of keys in packages/evidence-sdk/src/index.js, `sort` without a comparison function.
use Prim.Native.Nat.{Ordering, compare as compare_ℕ}
use Prim.Native.Char.{Char, code}
use Prim.Native.String.compare as text_compare
use xrpl_credit_orchestrator.Prelude.{String, Bool, true, false, ◌≡◌, refl, arith, ◌∙◌, sym}
use mathlib.Core.Path.{ap₂}
use text.Mathlib.TextEquality.{Char-path}
use xrpl_credit_orchestrator.Evidence.Canonical.{text_le}

-- The same order, by clauses.
abbrev le : String → String → Bool
le String.[] t = true
le (String.◌∷◌ c s) String.[] = false
le (String.◌∷◌ c s) (String.◌∷◌ d t) = elim (compare_ℕ (code c) (code d)) [
  | Ordering.lt ↦ true
  | Ordering.eq ↦ le s t
  | Ordering.gt ↦ false
]

le-text_le : (s t : String) → text_le s t ≡ le s t
le-text_le String.[] String.[] = refl
le-text_le String.[] (String.◌∷◌ d t) = rw (text_compare.nil-cons d t, text_le)
le-text_le (String.◌∷◌ c s) String.[] = rw (text_compare.cons-nil c s, text_le)
le-text_le (String.◌∷◌ c s) (String.◌∷◌ d t) =
    rw (text_compare.cons-cons c d s t, text_le) (ground (arith, le-text_le s t))

le_total : (s t : String) → le s t ≡ false → le t s ≡ true
le_total String.[] t h = cc
le_total (String.◌∷◌ c s) String.[] h = refl
le_total (String.◌∷◌ c s) (String.◌∷◌ d t) h = ground (arith, le_total s t)

le_trans : (s t u : String) → le s t ≡ true → le t u ≡ true → le s u ≡ true
le_trans String.[] t u h k = refl
le_trans (String.◌∷◌ c s) String.[] u h k = cc
le_trans (String.◌∷◌ c s) (String.◌∷◌ d t) String.[] h k = cc
le_trans (String.◌∷◌ c s) (String.◌∷◌ d t) (String.◌∷◌ b u) h k = ground (arith, le_trans s t u)

le_heads :
    (c d : Char) (s t : String)
    → le (String.◌∷◌ c s) (String.◌∷◌ d t) ≡ true
    → le (String.◌∷◌ d t) (String.◌∷◌ c s) ≡ true
    → (code c ≡ code d) × (le s t ≡ true) × (le t s ≡ true)
le_heads c d s t h k = ground arith

le_antisymm : (s t : String) → le s t ≡ true → le t s ≡ true → s ≡ t
le_antisymm String.[] String.[] h k = refl
le_antisymm String.[] (String.◌∷◌ d t) h k = cc
le_antisymm (String.◌∷◌ c s) String.[] h k = cc
le_antisymm (String.◌∷◌ c s) (String.◌∷◌ d t) h k =
    let (e, h', k') = le_heads c d s t h k in
    ap₂ String.◌∷◌ (Char-path c d e) (le_antisymm s t h' k')

pub text_le_total : (s t : String) → text_le s t ≡ false → text_le t s ≡ true
text_le_total s t h = le-text_le t s ∙ le_total s t (sym (le-text_le s t) ∙ h)

pub text_le_trans : (s t u : String) → text_le s t ≡ true → text_le t u ≡ true → text_le s u ≡ true
text_le_trans s t u h k =
    le-text_le s u ∙ le_trans s t u (sym (le-text_le s t) ∙ h) (sym (le-text_le t u) ∙ k)

pub text_le_antisymm : (s t : String) → text_le s t ≡ true → text_le t s ≡ true → s ≡ t
text_le_antisymm s t h k = le_antisymm s t (sym (le-text_le s t) ∙ h) (sym (le-text_le t s) ∙ k)
