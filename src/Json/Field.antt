-- ===== src/Json/Field.antt =====
-- Reading and writing the fields of an object, and the tests of the language on values.
use Prim.Native.Nat.{zero, suc}
use xrpl_credit_orchestrator.Prelude.{
  ℕ, String, Bool, true, false, Option, none, some, List, [], ◌∷◌, ◌≡◌, refl, arith, ◌==◌, eq_iff,
  if◌then◌else◌, truthy_text, number_of,
}
use xrpl_credit_orchestrator.Json.{
  Json, null, undefined, bool, num, str, arr, obj, Items, nil, cons, Fields, end, field,
}

abbrev pub get_field : String → Fields → Json
get_field k end = undefined
get_field k (field j v fs) = if j == k then v else get_field k fs

-- `v?.k`: a field that is missing, or of what is no object, is `undefined`.
abbrev pub get : String → Json → Json
get k (obj fs) = get_field k fs
get k _ = undefined

-- An assignment keeps the place of a key that is there.
abbrev pub put_field : String → Json → Fields → Fields
put_field k v end = field k v end
put_field k v (field j w fs) = if j == k then field j v fs else field j w (put_field k v fs)

-- `v.k = w`, and `{ ...v, k: w }`
abbrev pub put : String → Json → Json → Json
put k w (obj fs) = obj (put_field k w fs)
put k w _ = obj (field k w end)

-- `delete v.k`
abbrev pub remove_field : String → Fields → Fields
remove_field k end = end
remove_field k (field j v fs) = if j == k then remove_field k fs else field j v (remove_field k fs)

abbrev pub remove : String → Json → Json
remove k (obj fs) = obj (remove_field k fs)
remove k v = v

-- `v ?? w`
abbrev pub or_json : Json → Json → Json
or_json null w = w
or_json undefined w = w
or_json v w = v

abbrev pub truthy_num : ℕ → Bool
truthy_num zero = false
truthy_num (suc _) = true

-- `Boolean(v)`
abbrev pub truthy_json : Json → Bool
truthy_json null = false
truthy_json undefined = false
truthy_json (bool b) = b
truthy_json (num n) = truthy_num n
truthy_json (str s) = truthy_text s
truthy_json (arr _) = true
truthy_json (obj _) = true

-- `v === "s"`
abbrev pub is_text : String → Json → Bool
is_text s (str t) = t == s
is_text s _ = false

-- `v === true`
abbrev pub is_true : Json → Bool
is_true (bool b) = b
is_true _ = false

-- The text that a field holds, where the code uses it as one.
abbrev pub as_text : Json → Option String
as_text (str s) = some s
as_text _ = none

abbrev pub as_num : Json → Option ℕ
as_num (num n) = some n
as_num _ = none

abbrev pub of_text : Option String → Json
of_text none = null
of_text (some s) = str s

abbrev pub items_list : Items → List Json
items_list nil = []
items_list (cons v vs) = v ∷ items_list vs

abbrev pub of_list : List Json → Items
of_list [] = nil
of_list (v ∷ vs) = cons v (of_list vs)

-- What was written is read back.
pub get_field-put_field :
    (k j : String) (v : Json) (fs : Fields)
    → get_field j (put_field k v fs) ≡ (if k == j then v else get_field j fs)
get_field-put_field k j v end = refl
get_field-put_field k j v (field i w fs) =
    ground (arith, eq_iff k j, eq_iff i k, eq_iff i j, get_field-put_field k j v fs)

pub get-put : (k j : String) (v m : Json) → get j (put k v m) ≡ (if k == j then v else get j m)
get-put k j v (obj fs) = get_field-put_field k j v fs
get-put k j v null = refl
get-put k j v undefined = refl
get-put k j v (bool _) = refl
get-put k j v (num _) = refl
get-put k j v (str _) = refl
get-put k j v (arr _) = refl

-- `Number(v)`; `none` is what is not a number.
abbrev pub to_number : Json → Option ℕ
to_number null = some 0
to_number (bool b) = some (if b then 1 else 0)
to_number (num n) = some n
to_number (str s) = number_of s
to_number _ = none

-- `Object.entries(v)` of an object
abbrev pub field_list : Fields → List (String × Json)
field_list end = []
field_list (field k v fs) = (k, v) ∷ field_list fs

abbrev pub object_entries : Json → List (String × Json)
object_entries (obj fs) = field_list fs
object_entries _ = []
