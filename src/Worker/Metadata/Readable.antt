-- ===== src/Worker/Metadata/Readable.antt =====
-- Which results apps/ledger-worker/src/runs/xrpl-state.js can read, and which make it throw.
use xrpl_credit_orchestrator.Prelude.{
  String, true, false, Option, List, [], ◌≡◌, refl, ap, ok, err, map_ok,
}
use xrpl_credit_orchestrator.Json.{
  Json, null, undefined, bool, num, str, arr, obj, Items, nil, cons,
}
use xrpl_credit_orchestrator.Json.Field.{get}
use xrpl_credit_orchestrator.Worker.Metadata.Nodes.{
  Node, kept, normalized, created_ids, tx_metadata, normalize_items, normalize_list,
  normalize_affected_nodes, all_present, is_list, is_readable, CreatedIds, TxMetadata,
  extract_created_ledger_ids, extract_tx_metadata,
}

-- One item, and the items after it.
cons-ok :
    (v : Json) (vs : Items) (n : Option Node) (nodes : List Node)
    → normalized v ≡ ok n
    → normalize_items vs ≡ ok nodes
    → normalize_items (cons v vs) ≡ ok (kept n nodes)
unfolding normalize_items
cons-ok v vs n nodes e f = rw (e, f, normalize_items) refl

cons-err :
    (v : Json) (vs : Items) (n : Option Node) (m : String)
    → normalized v ≡ ok n
    → normalize_items vs ≡ err m
    → normalize_items (cons v vs) ≡ err m
unfolding normalize_items
cons-err v vs n m e f = rw (e, f, normalize_items) refl

abbrev AreRead : Items → Type 0
AreRead vs = (nodes : List Node) × (normalize_items vs ≡ ok nodes)

abbrev AreRefused : Items → Type 0
AreRefused vs = (m : String) × (normalize_items vs ≡ err m)

after_read :
    (v : Json) (vs : Items) (n : Option Node)
    → normalized v ≡ ok n
    → AreRead vs
    → AreRead (cons v vs)
after_read v vs n e (nodes, f) = (kept n nodes, cons-ok v vs n nodes e f)

after_refused :
    (v : Json) (vs : Items) (n : Option Node)
    → normalized v ≡ ok n
    → AreRefused vs
    → AreRefused (cons v vs)
after_refused v vs n e (m, f) = (m, cons-err v vs n m e f)

normalize_items-AreRead : (vs : Items) → all_present vs ≡ true → AreRead vs
unfolding normalize_items
normalize_items-AreRead nil h = ([], refl)
normalize_items-AreRead (cons null vs) h = cc
normalize_items-AreRead (cons undefined vs) h = cc
normalize_items-AreRead (cons (bool b) vs) h =
    after_read (bool b) vs _ refl (normalize_items-AreRead vs h)
normalize_items-AreRead (cons (num n) vs) h =
    after_read (num n) vs _ refl (normalize_items-AreRead vs h)
normalize_items-AreRead (cons (str s) vs) h =
    after_read (str s) vs _ refl (normalize_items-AreRead vs h)
normalize_items-AreRead (cons (arr xs) vs) h =
    after_read (arr xs) vs _ refl (normalize_items-AreRead vs h)
normalize_items-AreRead (cons (obj fs) vs) h =
    after_read (obj fs) vs _ refl (normalize_items-AreRead vs h)

normalize_items-AreRefused : (vs : Items) → all_present vs ≡ false → AreRefused vs
unfolding normalize_items
normalize_items-AreRefused nil h = cc
normalize_items-AreRefused (cons null vs) h = (_, refl)
normalize_items-AreRefused (cons undefined vs) h = (_, refl)
normalize_items-AreRefused (cons (bool b) vs) h =
    after_refused (bool b) vs _ refl (normalize_items-AreRefused vs h)
normalize_items-AreRefused (cons (num n) vs) h =
    after_refused (num n) vs _ refl (normalize_items-AreRefused vs h)
normalize_items-AreRefused (cons (str s) vs) h =
    after_refused (str s) vs _ refl (normalize_items-AreRefused vs h)
normalize_items-AreRefused (cons (arr xs) vs) h =
    after_refused (arr xs) vs _ refl (normalize_items-AreRefused vs h)
normalize_items-AreRefused (cons (obj fs) vs) h =
    after_refused (obj fs) vs _ refl (normalize_items-AreRefused vs h)

normalize_list-ok :
    (v : Json) → is_list v ≡ true → (nodes : List Node) × (normalize_list v ≡ ok nodes)
normalize_list-ok null h = ([], refl)
normalize_list-ok undefined h = ([], refl)
normalize_list-ok (arr vs) h = normalize_items-AreRead vs h
normalize_list-ok (bool b) h = cc
normalize_list-ok (num n) h = cc
normalize_list-ok (str s) h = cc
normalize_list-ok (obj fs) h = cc

normalize_list-err : (v : Json) → is_list v ≡ false → (m : String) × (normalize_list v ≡ err m)
normalize_list-err null h = cc
normalize_list-err undefined h = cc
normalize_list-err (arr vs) h = normalize_items-AreRefused vs h
normalize_list-err (bool b) h = (_, refl)
normalize_list-err (num n) h = (_, refl)
normalize_list-err (str s) h = (_, refl)
normalize_list-err (obj fs) h = (_, refl)

-- Both extractions give what they are for, from a result that can be read.
pub extract-ok :
    (v : Json)
    → is_readable v ≡ true
    → (out : CreatedIds) × (meta : TxMetadata) × (extract_created_ledger_ids v ≡ ok out)
      × (extract_tx_metadata v ≡ ok meta)
unfolding extract_created_ledger_ids extract_tx_metadata normalize_affected_nodes
extract-ok v h =
    let (nodes, e) = normalize_list-ok (get "AffectedNodes" (get "meta" v)) h in
    (_, _, ap (map_ok created_ids) e, ap (map_ok (tx_metadata v)) e)

-- Both throw the same error, from a result that cannot.
pub extract-err :
    (v : Json)
    → is_readable v ≡ false
    → (m : String) × (extract_created_ledger_ids v ≡ err m) × (extract_tx_metadata v ≡ err m)
unfolding extract_created_ledger_ids extract_tx_metadata normalize_affected_nodes
extract-err v h =
    let (m, e) = normalize_list-err (get "AffectedNodes" (get "meta" v)) h in
    (m, ap (map_ok created_ids) e, ap (map_ok (tx_metadata v)) e)
