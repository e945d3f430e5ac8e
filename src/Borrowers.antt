-- ===== src/Borrowers.antt =====
-- apps/control-api/src/services/borrowers.service.js over the in-memory database, whose rows the
-- service writes directly.
pub mod Linked
use xrpl_credit_orchestrator.Prelude.{
  String, Bool, ◌&&◌, Option, none, some, List, ◌==◌, find, update_first, Action, ok, pure, modify,
  ◌>>=◌, ◌>>◌,
}
use xrpl_credit_orchestrator.Json.{Json, str, obj, end, field}
use xrpl_credit_orchestrator.Json.Field.{of_text}
use xrpl_credit_orchestrator.Database.{Store, Party}
use xrpl_credit_orchestrator.Database.Entities.{BorrowerInput, create_borrower, list_borrowers}
use xrpl_credit_orchestrator.Database.Evidence.{append_evidence}
use xrpl_credit_orchestrator.Loans.{Actor, or_throw}

abbrev created_payload : Party → Actor → Json
created_payload borrower actor = obj (
    field "actor" (of_text actor) (
      field "action" (str "borrower_create") (
        field "legalName" (str borrower.legal_name) (
          field "countryCode" (of_text borrower.country_code) (
            field "xrplAddress" (of_text borrower.xrpl_address)
              (field "authUserId" (of_text borrower.auth_user_id) end))))))

unfoldable pub register_borrower : BorrowerInput → Actor → Action Store Party
register_borrower input actor = do
  borrower ← create_borrower input
  append_evidence "borrower" borrower.id "borrower.created" (created_payload borrower actor)
  pure borrower

abbrev pub is_borrower_row : String → Party → Bool
is_borrower_row id p = p.role == "borrower" && p.id == id

abbrev pub linked_to : String → Party → Party
linked_to auth_user_id p = record p { auth_user_id = some auth_user_id }

abbrev linked_payload : String → String → Actor → Json
linked_payload borrower_id auth_user_id actor = obj (
    field "actor" (of_text actor) (
      field "action" (str "link_auth_user")
        (field "authUserId" (str auth_user_id) (field "borrowerId" (str borrower_id) end))))

-- The assignment to the object that the list of borrowers holds.
unfoldable pub write_link : String → String → Action Store (Unit {0})
write_link borrower_id auth_user_id = modify (λ s. record s {
  parties = update_first (is_borrower_row borrower_id) (linked_to auth_user_id) s.parties;
})

unfoldable pub link_auth_user : String → String → Actor → Action Store Party
link_auth_user borrower_id auth_user_id actor = do
  borrowers ← list_borrowers
  borrower ← or_throw (find (λ b. b.id == borrower_id) borrowers) "borrower_not_found"
  write_link borrower_id auth_user_id
  append_evidence "borrower" borrower_id "borrower.auth_linked"
      (linked_payload borrower_id auth_user_id actor)
  pure (linked_to auth_user_id borrower)
