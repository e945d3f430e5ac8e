-- ===== src/Builders.antt =====
-- packages/xrpl-client/src/builders.js: the transactions of vaults, brokers and loans. An input is
-- the object that the caller builds; `hex` writes a text's bytes in upper-case hexadecimal digits.
pub mod Shape
use xrpl_credit_orchestrator.Prelude.{
  String, Bool, true, false, not, ◌||◌, ◌&&◌, ◌+++◌, if◌then◌else◌, truthy_text, Action, pure,
  throw, ◌>>=◌, Result, ok, err,
}
use xrpl_credit_orchestrator.Json.{
  Json, null, undefined, bool, num, str, arr, obj, Fields, end, field,
}
use xrpl_credit_orchestrator.Json.Field.{get, put, or_json, truthy_json}
use xrpl_credit_orchestrator.Json.Print.{stringify, to_string}

pub ensure_string : {S : Type 0} → String → Json → Action S Json
ensure_string name (str s) t =
    (if truthy_text s then ok (str s) else err (name +++ " must be a non-empty string"), t)
ensure_string name v t = (err (name +++ " must be a non-empty string"), t)

abbrev pub is_undefined : Json → Bool
is_undefined undefined = true
is_undefined _ = false

abbrev pub is_string : Json → Bool
is_string (str _) = true
is_string _ = false

abbrev pub is_number : Json → Bool
is_number (num _) = true
is_number _ = false

-- `if (test) tx.k = v`
abbrev pub put_if : Bool → String → Json → Json → Json
put_if b k v tx = if b then put k v tx else tx

-- `hexMetadataFromJson`
abbrev pub hex_metadata_from_json : (String → String) → Json → Json
hex_metadata_from_json hex v = str (hex (stringify v))

-- `typeof data === 'string' ? data : hexMetadataFromJson(data)`
abbrev data_text : (String → String) → Json → Json
data_text hex v = if is_string v then v else hex_metadata_from_json hex v

module _ {S : Type 0} (hex : String → String) (input : Json) where
  unfoldable pub build_vault_create_tx : Action S Json
  unfolding ensure_string
  build_vault_create_tx = do
    account ← ensure_string "account" (get "account" input)
    let tx = obj (
        field "TransactionType" (str "VaultCreate") (
          field "Account" account (
            field "Asset" (get "asset" input) (
              field "AssetsMaximum"
                (str (to_string (or_json (get "assetsMaximum" input) (str "0"))))
                (field "WithdrawalPolicy" (or_json (get "withdrawalPolicy" input) (num 0)) end)))))
    let tx1 = put_if (truthy_json (get "domainId" input)) "DomainID" (get "domainId" input) tx
    let tx2 = put_if (truthy_json (get "data" input)) "Data" (data_text hex (get "data" input)) tx1
    let tx3 =
        put_if (truthy_json (get "mptMetadataHex" input)) "MPTokenMetadata"
          (get "mptMetadataHex" input) tx2
    pure (put_if (is_number (get "flags" input)) "Flags" (get "flags" input) tx3)

  unfoldable pub build_loan_broker_set_tx : Action S Json
  unfolding ensure_string
  build_loan_broker_set_tx = do
    account ← ensure_string "account" (get "account" input)
    vault ← ensure_string "vaultId" (get "vaultId" input)
    let given = λ (k : String). not (is_undefined (get k input))
    let tx = obj (
        field "TransactionType" (str "LoanBrokerSet")
          (field "Account" account (field "VaultID" vault end)))
    let tx1 =
        put_if (truthy_json (get "loanBrokerId" input)) "LoanBrokerID" (get "loanBrokerId" input) tx
    let tx2 =
        put_if (given "managementFeeRate") "ManagementFeeRate" (get "managementFeeRate" input) tx1
    let tx3 =
        put_if (given "debtMaximum") "DebtMaximum" (str (to_string (get "debtMaximum" input))) tx2
    let tx4 =
        put_if (given "collateralRateMinimum") "CollateralRateMinimum"
          (get "collateralRateMinimum" input) tx3
    let tx5 =
        put_if (given "collateralRateLiquidation") "CollateralRateLiquidation"
          (get "collateralRateLiquidation" input) tx4
    let tx6 =
        put_if (given "coverRateMinimum" && is_undefined (get "CollateralRateMinimum" tx5))
          "CollateralRateMinimum" (get "coverRateMinimum" input) tx5
    let tx7 =
        put_if (given "coverRateLiquidation" && is_undefined (get "CollateralRateLiquidation" tx6))
          "CollateralRateLiquidation" (get "coverRateLiquidation" input) tx6
    pure (put_if (truthy_json (get "data" input)) "Data" (data_text hex (get "data" input)) tx7)

-- `if (input[k] !== undefined) tx[name] = input[k]`
abbrev optional : Json → String → String → Json → Json
optional input k name tx = put_if (not (is_undefined (get k input))) name (get k input) tx

-- The same with `String(input[k])`.
abbrev optional_text : Json → String → String → Json → Json
optional_text input k name tx =
    put_if (not (is_undefined (get k input))) name (str (to_string (get k input))) tx

abbrev loan_set_options : Json → Json → Json
loan_set_options input tx = optional input "closingInterestRate" "ClosingInterestRate" (
    optional input "lateInterestRate" "LateInterestRate" (
      optional_text input "fullPaymentFee" "FullPaymentFee" (
        optional_text input "latePaymentFee" "LatePaymentFee" (
          optional_text input "loanServiceFee" "LoanServiceFee" (
            optional_text input "loanOriginationFee" "LoanOriginationFee" (
              optional input "startDate" "StartDate"
                (optional input "gracePeriod" "GracePeriod" tx)))))))

module _ {S : Type 0} (input : Json) where
  unfoldable pub build_vault_deposit_tx : Action S Json
  unfolding ensure_string
  build_vault_deposit_tx = do
    account ← ensure_string "account" (get "account" input)
    vault ← ensure_string "vaultId" (get "vaultId" input)
    pure (
        obj (
          field "TransactionType" (str "VaultDeposit") (
            field "Account" account
              (field "VaultID" vault (field "Amount" (get "amount" input) end)))))

  unfoldable pub build_loan_broker_collateral_deposit_tx : Action S Json
  unfolding ensure_string
  build_loan_broker_collateral_deposit_tx = do
    account ← ensure_string "account" (get "account" input)
    broker ← ensure_string "loanBrokerId" (get "loanBrokerId" input)
    pure (
        obj (
          field "TransactionType" (str "LoanBrokerCollateralDeposit") (
            field "Account" account
              (field "LoanBrokerID" broker (field "Amount" (get "amount" input) end)))))

  unfoldable pub build_loan_set_tx : Action S Json
  unfolding ensure_string
  build_loan_set_tx = do
    account ← ensure_string "account" (get "account" input)
    borrower ← ensure_string "borrower" (or_json (get "borrower" input) (get "counterparty" input))
    broker ← ensure_string "loanBrokerId" (get "loanBrokerId" input)
    pure (
        loan_set_options input (
          obj (
            field "TransactionType" (str "LoanSet") (
              field "Account" account (
                field "Borrower" borrower (
                  field "LoanBrokerID" broker (
                    field "PrincipalRequested" (str (to_string (get "principalRequested" input))) (
                      field "InterestRate" (get "interestRate" input) (
                        field "PaymentsTotal"
                          (or_json (get "paymentsTotal" input) (get "paymentTotal" input))
                          (field "PaymentInterval" (get "paymentInterval" input) end))))))))))
