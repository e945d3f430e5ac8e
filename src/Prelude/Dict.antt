-- ===== src/Prelude/Dict.antt =====
-- Maps under texts, as association lists in the order in which their keys came.
use Prim.Native.Nat.{suc}
use Prim.Native.String.{String}
use mathlib.Core.Path.{◌≡◌, refl}
use mathlib.Core.Option.{Option, none, some}
use mathlib.Core.List.{List, [], ◌∷◌}
use native.Mathlib.Omega.{arith}
use xrpl_credit_orchestrator.Prelude.Tests.{if◌then◌else◌, is_some}
use xrpl_credit_orchestrator.Prelude.Texts.{◌==◌, eq_iff}
use xrpl_credit_orchestrator.Prelude.Lists.{length}

module _ {A : Type 0} where
  -- `map.get(k)`
  abbrev pub lookup : String → List (String × A) → Option A
  lookup k [] = none
  lookup k ((j, a) ∷ m) = if j == k then some a else lookup k m

  -- `map.set(k, a)`
  abbrev pub insert : String → A → List (String × A) → List (String × A)
  insert k a [] = (k, a) ∷ []
  insert k a ((j, b) ∷ m) = if j == k then (j, a) ∷ m else (j, b) ∷ insert k a m

  -- `map.delete(k)`
  abbrev pub erase : String → List (String × A) → List (String × A)
  erase k [] = []
  erase k ((j, a) ∷ m) = if j == k then erase k m else (j, a) ∷ erase k m

  pub lookup-insert :
      (k j : String) (a : A) (m : List (String × A))
      → lookup j (insert k a m) ≡ (if k == j then some a else lookup j m)
  lookup-insert k j a [] = refl
  lookup-insert k j a ((i, b) ∷ m) =
      ground (arith, eq_iff k j, eq_iff i k, eq_iff i j, lookup-insert k j a m)

  pub length-insert :
      (k : String) (a : A) (m : List (String × A))
      → length (insert k a m) ≡ (if is_some (lookup k m) then length m else suc (length m))
  length-insert k a [] = refl
  length-insert k a ((j, b) ∷ m) = ground (arith, length-insert k a m)
