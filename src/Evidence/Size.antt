-- ===== src/Evidence/Size.antt =====
-- How long the canonical text of an object is, whatever the order of its keys.
use Prim.Native.String.{len}
use text.Mathlib.TextPositions.{len-append}
use xrpl_credit_orchestrator.Prelude.{
  ℕ, ◌+◌, String, Bool, true, false, List, [], ◌∷◌, ◌≡◌, refl, inl, inr, arith, map, join,
  if◌then◌else◌, Bool-cases, ◌+++◌, ap, ◌≤◌, Option, ◌==◌, eq_iff,
}
use xrpl_credit_orchestrator.Json.{Json, str, Fields, end, field}
use xrpl_credit_orchestrator.Json.Print.{quote}
use xrpl_credit_orchestrator.Json.Field.{put_field, of_text}
use xrpl_credit_orchestrator.Evidence.{hash_input}
use xrpl_credit_orchestrator.Evidence.Canonical.{
  Member, text_le, insert_member, sort_members, object_text, canonicalize, members, member_text,
}

-- The members' texts, each with a separator.
abbrev pub weight : List Member → ℕ
weight [] = 0
weight (m ∷ ms) = len (member_text m) + 1 + weight ms

weight-insert : (m : Member) (ms : List Member) → weight (insert_member m ms) ≡ weight (m ∷ ms)
unfolding insert_member
weight-insert m [] = refl
weight-insert m (n ∷ ms) = elim (Bool-cases (text_le m.0 n.0)) [
  | inl t ↦ rw t
  | inr f ↦ rw f (omega (arith, weight-insert m ms))
]

weight-sort : (ms : List Member) → weight (sort_members ms) ≡ weight ms
unfolding sort_members
weight-sort [] = refl
weight-sort (m ∷ ms) = omega (arith, weight-insert m (sort_members ms), weight-sort ms)

len-join :
    (m : Member) (ms : List Member)
    → len (join "," (map member_text (m ∷ ms))) + 1 ≡ weight (m ∷ ms)
len-join m [] = omega arith
len-join m (n ∷ ms) = omega (
  arith,
  len-append (member_text m) ("," +++ join "," (map member_text (n ∷ ms))),
  len-append "," (join "," (map member_text (n ∷ ms))),
  len-join n ms,
)

len-join_nonempty :
    (ms : List Member) → 1 ≤ weight ms → len (join "," (map member_text ms)) + 1 ≡ weight ms
len-join_nonempty [] h = absurd (omega arith)
len-join_nonempty (m ∷ ms) h = len-join m ms

pub len-object_text : (ms : List Member) → 1 ≤ weight ms → len (object_text ms) ≡ weight ms + 1
unfolding object_text
len-object_text ms h =
    let inner = join "," (map member_text (sort_members ms)) in
    omega (
      arith,
      len-append "{" (inner +++ "}"),
      len-append inner "}",
      len-join_nonempty (sort_members ms) (omega (arith, weight-sort ms)),
      weight-sort ms,
    )

pub len-member_text : (k t : String) → len (member_text (k, t)) ≡ len (quote k) + 1 + len t
len-member_text k t = omega (arith, len-append (quote k) (":" +++ t), len-append ":" t)

-- The object has no such key.
abbrev pub lacks : String → Fields → Bool
lacks k end = true
lacks k (field j v fs) = if j == k then false else lacks k fs

pub weight-put_field :
    (k : String) (v : Json) (fs : Fields)
    → lacks k fs ≡ true
    → weight (members (put_field k v fs))
      ≡ weight (members fs) + len (member_text (k, canonicalize v)) + 1
unfolding canonicalize
weight-put_field k v end h = omega arith
weight-put_field k v (field j w fs) h = elim (Bool-cases (j == k)) [
  | inl t ↦ cc (rw t at h)
  | inr f ↦ rw f (omega (arith, weight-put_field k v fs (rw f at h)))
]

pub lacks-put_field :
    (j k : String) (v : Json) (fs : Fields)
    → (k == j) ≡ false
    → lacks j fs ≡ true
    → lacks j (put_field k v fs) ≡ true
lacks-put_field j k v end ne h = rw ne
lacks-put_field j k v (field i w fs) ne h =
    ground (arith, eq_iff i j, eq_iff i k, eq_iff k j, lacks-put_field j k v fs ne)

-- Two events that differ in the length of their payload's text differ in what is hashed.
pub hash_input-len :
    (sc t i k : String) (p q : Json) (h : Option String)
    → canonicalize (hash_input sc t i k p h) ≡ canonicalize (hash_input sc t i k q h)
    → len (canonicalize p) ≡ len (canonicalize q)
unfolding canonicalize
hash_input-len sc t i k p q h e = omega (
  arith,
  ap len e,
  len-object_text (members (fields p)) (omega arith),
  len-object_text (members (fields q)) (omega arith),
  len-member_text "payload" (canonicalize p),
  len-member_text "payload" (canonicalize q),
)
  where
    fields : Json → Fields
    fields v = field "chainScope" (str sc) (
        field "aggregateType" (str t) (
          field "aggregateId" (str i)
            (field "eventType" (str k) (field "payload" v (field "prevHash" (of_text h) end)))))
