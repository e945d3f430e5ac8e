-- ===== src/Database/Entities.antt =====
-- Borrowers, vaults, positions, brokers, the cover ledger and loans of
-- apps/control-api/src/db/memory.js. Inputs are the fields that the code reads of a request.
pub mod Positions
use xrpl_credit_orchestrator.Prelude.{
  String, Bool, false, Option, none, some, List, [], ◌∷◌, ◌++◌, ◌==◌, ◌&&◌, find, filter,
  update_first, Action, ok, pure, gets, modify, ◌>>=◌, ◌>>◌,
}
use xrpl_credit_orchestrator.Json.{Json, null, num, str}
use xrpl_credit_orchestrator.Json.Field.{or_json}
use xrpl_credit_orchestrator.Json.Print.{to_string}
use xrpl_credit_orchestrator.Shared.{LoanStatus, VaultStatus, BrokerStatus}
use xrpl_credit_orchestrator.Database.Tables.{
  Store, User, Party, Vault, VaultPosition, LoanBroker, CoverEntry, Loan, random_uuid, now_iso,
}

abbrev pub find_user_by_username : String → Action Store (Option User)
find_user_by_username name = gets (λ s. find (λ u. u.username == name) s.users)

pub record BorrowerInput : Type 0 where
  pub auth_user_id : Option String
  pub legal_name : String
  pub country_code : Option String
  pub xrpl_address : Option String

unfoldable pub create_borrower : BorrowerInput → Action Store Party
create_borrower input = do
  id ← random_uuid
  now ← gets now_iso
  let row : Party = record {
    id = id;
    auth_user_id = input.auth_user_id;
    role = "borrower";
    legal_name = input.legal_name;
    country_code = input.country_code;
    status = "pending_kyc";
    xrpl_address = input.xrpl_address;
    created_at = now;
  }
  modify (λ s. record s { parties = s.parties ++ row ∷ [] })
  pure row

-- `x.authUserId === authUserId`
abbrev pub is_auth_user : String → Party → Bool
is_auth_user id p = elim p.auth_user_id [ none ↦ false | some u ↦ u == id ]

abbrev pub find_party_by_auth_user_id : String → Action Store (Option Party)
find_party_by_auth_user_id id = gets (λ s. find (is_auth_user id) s.parties)

abbrev pub list_borrowers : Action Store (List Party)
list_borrowers = gets (λ s. filter (λ p. p.role == "borrower") s.parties)

pub record VaultInput : Type 0 where
  pub owner_address : String
  pub asset_type : String
  pub asset_code : Option String
  pub issuer_address : Option String
  pub asset_mpt_issuance_id : Option String
  pub is_private : Bool
  pub permissioned_domain_id : Option String

unfoldable pub create_vault : VaultInput → Action Store Vault
create_vault input = do
  id ← random_uuid
  now ← gets now_iso
  let row : Vault = record {
    id = id;
    xrpl_vault_id = none;
    owner_address = input.owner_address;
    asset_type = input.asset_type;
    asset_code = input.asset_code;
    issuer_address = input.issuer_address;
    asset_mpt_issuance_id = input.asset_mpt_issuance_id;
    is_private = input.is_private;
    permissioned_domain_id = input.permissioned_domain_id;
    status = VaultStatus.queued;
    created_at = now;
    updated_at = now;
  }
  modify (λ s. record s { vaults = s.vaults ++ row ∷ [] })
  pure row

abbrev pub is_vault : String → Vault → Bool
is_vault id v = v.id == id

abbrev pub get_vault : String → Action Store (Option Vault)
get_vault id = gets (λ s. find (is_vault id) s.vaults)

abbrev pub list_vaults : Action Store (List Vault)
list_vaults = gets (λ s. s.vaults)

-- A patch is the function that writes its fields.
unfoldable pub update_vault : String → (Vault → Vault) → Action Store (Option Vault)
update_vault id patch s =
    let write = λ (v : Vault). (let v' = patch v in record v' { updated_at = now_iso s }) in
    let rows = update_first (is_vault id) write s.vaults in
    (ok (find (is_vault id) rows), record s { vaults = rows })

pub record PositionInput : Type 0 where
  pub vault_id : String
  pub lender_party_id : Option String
  pub lender_address : String
  pub shares_numeric : Option Json
  pub deposited_amount : Option Json
  pub withdrawn_amount : Option Json

abbrev pub is_position_of : PositionInput → VaultPosition → Bool
is_position_of input p = p.vault_id == input.vault_id && p.lender_address == input.lender_address

-- `if (v !== undefined) field = String(v)`
abbrev pub text_or : Option Json → String → String
text_or none old = old
text_or (some v) old = to_string v

abbrev pub positioned : PositionInput → String → VaultPosition → VaultPosition
positioned input now p = record p {
  deposited_amount = text_or input.deposited_amount p.deposited_amount;
  withdrawn_amount = text_or input.withdrawn_amount p.withdrawn_amount;
  shares_numeric = text_or input.shares_numeric p.shares_numeric;
  updated_at = now;
}

abbrev pub empty_position : PositionInput → String → String → VaultPosition
empty_position input id now = record {
  id = id;
  vault_id = input.vault_id;
  lender_party_id = input.lender_party_id;
  lender_address = input.lender_address;
  shares_numeric = "0";
  deposited_amount = "0";
  withdrawn_amount = "0";
  updated_at = now;
}

-- The position of this lender in this vault, added if it is new.
ensure_position : PositionInput → Action Store (Unit {0})
ensure_position input s = elim (find (is_position_of input) s.vault_positions) [
  | some _ ↦ (ok tt, s)
  | none ↦
      (random_uuid >>= λ id. modify (λ t. record t {
        vault_positions = t.vault_positions ++ empty_position input id (now_iso t) ∷ [];
      }))
        s
]

unfoldable pub upsert_vault_position : PositionInput → Action Store (Unit {0})
unfolding ensure_position
upsert_vault_position input = do
  ensure_position input
  modify (λ s. record s {
    vault_positions =
        update_first (is_position_of input) (positioned input (now_iso s)) s.vault_positions;
  })

abbrev pub list_vault_positions : Action Store (List VaultPosition)
list_vault_positions = gets (λ s. s.vault_positions)
