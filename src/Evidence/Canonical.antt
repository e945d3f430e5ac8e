-- ===== src/Evidence/Canonical.antt =====
-- `canonicalize`: one text for a value, whatever order its objects' keys stand in.
use Prim.Native.Nat.{Ordering}
use Prim.Native.String.{compare}
use xrpl_credit_orchestrator.Prelude.{
  String, Bool, true, false, List, [], ◌∷◌, ◌+++◌, join, map, if◌then◌else◌,
}
use xrpl_credit_orchestrator.Json.{
  Json, null, undefined, bool, num, str, arr, obj, Items, nil, cons, Fields, end, field,
}
use xrpl_credit_orchestrator.Json.Print.{decimal, quote}

-- `a` stands before `b`, or is `b`: the order of `sort` by code points.
abbrev pub text_le : String → String → Bool
text_le a b = elim (compare a b) [ Ordering.gt ↦ false | _ ↦ true ]

-- A member is a key with the text of its value.
abbrev pub Member : Type 0
Member = String × String

unfoldable pub insert_member : Member → List Member → List Member
insert_member m [] = m ∷ []
insert_member m (n ∷ ns) = if text_le m.0 n.0 then m ∷ n ∷ ns else n ∷ insert_member m ns

-- The members in the order of `Object.keys(value).sort()`.
unfoldable pub sort_members : List Member → List Member
unfolding insert_member
sort_members [] = []
sort_members (m ∷ ms) = insert_member m (sort_members ms)

abbrev pub member_text : Member → String
member_text m = quote m.0 +++ ":" +++ m.1

unfoldable pub object_text : List Member → String
unfolding sort_members
object_text ms = "{" +++ join "," (map member_text (sort_members ms)) +++ "}"

abbrev bool_text : Bool → String
bool_text true = "true"
bool_text false = "false"

unfoldable mutual
  unfolding object_text decimal quote

  -- `undefined` inside a template literal is the text "undefined".
  pub canonicalize : Json → String
  canonicalize null = "null"
  canonicalize undefined = "undefined"
  canonicalize (bool b) = bool_text b
  canonicalize (num n) = decimal n
  canonicalize (str s) = quote s
  canonicalize (arr vs) = "[" +++ join "," (item_texts vs) +++ "]"
  canonicalize (obj fs) = object_text (members fs)

  -- `join` writes nothing for an `undefined` element.
  pub item_texts : Items → List String
  item_texts nil = []
  item_texts (cons undefined vs) = "" ∷ item_texts vs
  item_texts (cons v vs) = canonicalize v ∷ item_texts vs

  pub members : Fields → List Member
  members end = []
  members (field k v fs) = (k, canonicalize v) ∷ members fs
