-- ===== src/Json.antt =====
-- The values that a program of a dynamic language passes round: transactions, metadata, payloads.
-- Numbers are naturals: amounts are texts in the source, and rates, counts and sequences are whole.
pub mod Field
pub mod Print
use xrpl_credit_orchestrator.Prelude.{ℕ, String, Bool, true, false}

mutual
  pub data Json : Type 0 where
    null undefined : Json
    bool : Bool → Json
    num : ℕ → Json
    str : String → Json
    arr : Items → Json
    obj : Fields → Json

  pub data Items : Type 0 where
    nil : Items
    cons : Json → Items → Items

  pub data Fields : Type 0 where
    end : Fields
    field : String → Json → Fields → Fields
