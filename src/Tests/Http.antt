-- ===== src/Tests/Http.antt =====
-- The control API's theorems at concrete requests, with a runtime whose encodings are the identity.
use xrpl_credit_orchestrator.Prelude.{
  ◌+◌, ◌≤◌, ◌<◌, true, false, ◌≡◌, refl, ◌⊎◌, none, some, [], ◌∷◌, ◌+++◌, length, if◌then◌else◌,
  ltb, split_on, ok, err, arith, ◌==◌,
}
use xrpl_credit_orchestrator.Json.{Json, str, num, obj, end, field}
use xrpl_credit_orchestrator.Json.Print.{stringify}
use xrpl_credit_orchestrator.RateLimit.{Decision, check, check_clean, cleanup}
use xrpl_credit_orchestrator.Database.{Store}
use xrpl_credit_orchestrator.Http.Body.{
  Reader, read, refused, too_large, invalid, max_body_bytes, concat, finish_body, read_json,
  read_chunks,
}
use xrpl_credit_orchestrator.Http.Token.{
  Crypto, stamped, token_header, create_token, verify_token, verify_parts, extract_bearer,
  drop_chars, is_role_allowed,
}
use xrpl_credit_orchestrator.Http.Token.Laws.{IsEncoded, IsMac, verify_token-create_token}
use xrpl_credit_orchestrator.Http.Body.{read_json_lem}
use xrpl_credit_orchestrator.Http.Router.{
  Route, Request, Context, Clock, Call, Site, find_route, client_ip, authenticate, run_handler,
  admit, serve, handle,
}
use xrpl_credit_orchestrator.Http.Pattern.{compile_pattern, match_path, match_parts}
use xrpl_credit_orchestrator.Http.Router.Admission.{IsAdmitted, is_value, handle-cases}
use xrpl_credit_orchestrator.Http.Router.Granted.{IsAuthorised}
use xrpl_credit_orchestrator.Http.Tenant.{shown_loans, party_id}
use xrpl_credit_orchestrator.Http.Tenant.Shown.{loans_of}
use xrpl_credit_orchestrator.Http.Routes.{Endpoint, routes}
use xrpl_credit_orchestrator.Http.Routes.Handlers.{run}
use xrpl_credit_orchestrator.Http.Routes.Answers.{Inputs, Setup}
use xrpl_credit_orchestrator.Http.Routes.Roles.{is_login, writers, handle-writers}
use xrpl_credit_orchestrator.Http.Routes.Listed.{readers, handle-loans}
use xrpl_credit_orchestrator.Tests.Data.{store, loan_input}

abbrev payload : Json
payload = obj (field "sub" (str "u1") (field "role" (str "borrower") end))

abbrev crypto : Crypto
crypto = record {
  hmac = λ secret text. "mac";
  encode = λ t. t;
  decode = λ t. t;
  parse = λ t. ok (if t == stringify token_header then token_header else stamped payload "j" 130);
  scrypt = λ password salt. password;
  same_size = λ a b. true;
}

token_header-IsEncoded : IsEncoded crypto token_header
unfolding stringify
token_header-IsEncoded = record { no_dot = refl; not_empty = refl; decoded = refl; parsed = refl }

payload-IsEncoded : IsEncoded crypto (stamped payload "j" (100 + 30))
unfolding stringify
payload-IsEncoded = record { no_dot = refl; not_empty = refl; decoded = refl; parsed = refl }

keyed_hash-IsMac :
    IsMac crypto "secret"
      (stringify token_header +++ "." +++ stringify (stamped payload "j" (100 + 30)))
keyed_hash-IsMac = record { no_dot = refl; not_empty = refl; sized = refl }

verify_token-create_token_example :
    verify_token crypto (create_token crypto payload "secret" "j" 100 30) "secret" 200
    ≡ (if ltb (100 + 30) 200 then err "token expired" else ok (stamped payload "j" (100 + 30)))
verify_token-create_token_example =
    verify_token-create_token crypto payload "secret" "j" 100 30 200 (omega arith)
      token_header-IsEncoded payload-IsEncoded keyed_hash-IsMac

abbrev reader : Reader
reader = record { decode = λ bytes. "x"; parse = λ t. refused (invalid "x") }

read_json_lem_example :
    ((max_body_bytes < length (concat ((1 ∷ 2 ∷ []) ∷ (3 ∷ []) ∷ [])))
      × (read_json reader ((1 ∷ 2 ∷ []) ∷ (3 ∷ []) ∷ []) ≡ refused too_large))
    ⊎ ((length (concat ((1 ∷ 2 ∷ []) ∷ (3 ∷ []) ∷ [])) ≤ max_body_bytes)
        × (read_json reader ((1 ∷ 2 ∷ []) ∷ (3 ∷ []) ∷ [])
            ≡ finish_body reader (read ((1 ∷ 2 ∷ []) ∷ (3 ∷ []) ∷ []))))
read_json_lem_example = read_json_lem reader ((1 ∷ 2 ∷ []) ∷ (3 ∷ []) ∷ [])

abbrev inputs : Inputs
inputs = record {
  borrower = λ b. record {
    auth_user_id = none;
    legal_name = "n";
    country_code = none;
    xrpl_address = none;
  };
  auth_user = λ b. "u1";
  vault = λ b. (
    record {
      owner_address = "r";
      asset_type = "XRP";
      asset_code = none;
      issuer_address = none;
      asset_mpt_issuance_id = none;
      is_private = false;
      permissioned_domain_id = none;
    },
    record {
      display_name = none;
      website = num 0;
      metadata = num 0;
      assets_maximum = num 0;
      withdrawal_policy = num 0;
    },
  );
  deposit =
      λ b. record { account = "r"; amount = num 1; lender_party_id = none; shares_numeric = num 0 };
  loan_broker = λ b. (
    record {
      vault_id = "v1";
      owner_address = "r";
      management_fee_rate = num 0;
      debt_maximum = num 0;
      cover_rate_minimum = num 0;
      cover_rate_liquidation = num 0;
    },
    record {
      collateral_rate_minimum = num 0;
      collateral_rate_liquidation = num 0;
      display_name = none;
      metadata = num 0;
    },
  );
  loan = λ b. loan_input;
  quote = λ b. b;
  metrics_text = λ s. "";
}

abbrev setup : Setup
setup = record {
  crypto = crypto;
  auth_token_secret = "secret";
  xrpl_lending_enabled = false;
  xrpl_network = "devnet";
  inputs = inputs;
}

abbrev context : Context
context = record {
  crypto = crypto;
  reader = reader;
  auth_token_secret = "secret";
  limits = record { window_ms = 1000; max = 5 };
  trust_proxy = false;
}

abbrev request : Request
request = record {
  method = "GET";
  pathname = "/v1/loans";
  query = [];
  remote_address = some "ip";
  forwarded_for = none;
  authorization = some "Bearer h.b.mac";
  chunks = [];
}

abbrev clock : Clock
clock = record { cleaned_at = 10; current = 10; seconds = 7 }

abbrev site : Site Store
site = record { buckets = record { buckets = []; last_cleanup = 0 }; app = store }

handle-cases_example :
    ((is_value (handle (run setup) context routes request clock site).0.payload ≡ false)
      × ((handle (run setup) context routes request clock site).1.app ≡ store))
    ⊎ ((route : Route Endpoint) × (call : Call) × (rate : Decision) × IsAdmitted context routes
          request clock site route call
        × ((handle (run setup) context routes request clock site).0
            ≡ (run_handler (run setup) route rate call store).0)
        × ((handle (run setup) context routes request clock site).1.app
            ≡ (run_handler (run setup) route rate call store).1))
handle-cases_example = handle-cases (run setup) context routes request clock site

handle-writers_example :
    ((handle (run setup) context routes request clock site).1.app ≡ store)
    ⊎ ((route : Route Endpoint) × (call : Call) × IsAdmitted context routes request clock site route
          call
        × ((is_login route.handler ≡ true)
            ⊎ IsAuthorised context request 7 call.auth (writers route.handler)))
handle-writers_example = handle-writers setup context request clock site

handle-loans_example :
    (auth : Json) × IsAuthorised context request 7 auth readers × ([] ≡ loans_of auth store)
unfolding handle serve admit run_handler run find_route match_path match_parts compile_pattern
    routes split_on client_ip check check_clean cleanup authenticate extract_bearer drop_chars
    verify_token verify_parts is_role_allowed read_json read_chunks stringify shown_loans party_id
handle-loans_example = handle-loans setup context request clock site [] refl
