-- ===== src/Evidence/KeyOrder.antt =====
-- `canonicalize` of packages/evidence-sdk/src/index.js does not see the order of an object's keys.
use mathlib.Core.Logic.{∥∥₁_elim}
use mathlib.Core.List.{Perm, Permᴰ}
use mathlib.Core.List.Perm
use text.Mathlib.TextEquality.{IsScalar-prop}
use mathlib.Core.Path.{ap₂, subst₂}
use xrpl_credit_orchestrator.Prelude.{
  String, List, [], ◌∷◌, ◌≡◌, ◌≢◌, refl, sym, ap, ◌∙◌, arith, map, All, subst,
}
use xrpl_credit_orchestrator.Json.{Json, obj, Fields, end, field}
use xrpl_credit_orchestrator.Evidence.Canonical.{
  Member, insert_member, sort_members, object_text, canonicalize, members,
}
use xrpl_credit_orchestrator.Evidence.Order.{text_le_total, text_le_trans, text_le_antisymm}

-- Members under different keys may be inserted in either order.
insert_member_comm :
    (m n : Member) (ms : List Member)
    → m.0 ≢ n.0
    → insert_member m (insert_member n ms) ≡ insert_member n (insert_member m ms)
unfolding insert_member
insert_member_comm m n [] ne = ground (arith, text_le_total m.0 n.0, text_le_antisymm m.0 n.0)
insert_member_comm m n (k ∷ ms) ne = ground (
  arith,
  text_le_total m.0 n.0,
  text_le_antisymm m.0 n.0,
  text_le_total m.0 k.0,
  text_le_total n.0 k.0,
  text_le_trans m.0 n.0 k.0,
  text_le_trans n.0 m.0 k.0,
  insert_member_comm m n ms ne,
)

-- No key stands twice.
abbrev pub IsDistinct : List Member → Type 0
IsDistinct [] = Unit {0}
IsDistinct (m ∷ ms) = All (λ n. m.0 ≢ n.0) ms × IsDistinct ms

All-perm {ℓ} : (P : Member → Type ℓ) {ms ns : List Member} → Permᴰ ms ns → All P ms → All P ns
All-perm P Permᴰ.nil h = tt
All-perm P (Permᴰ.cons e p) h = (subst P e h.0, All-perm P p h.1)
All-perm P (Permᴰ.swap e f) h = (subst P f h.1.0, (subst P e h.0, h.1.1))
All-perm P (Permᴰ.trans p q) h = All-perm P q (All-perm P p h)

IsDistinct-perm : {ms ns : List Member} → Permᴰ ms ns → IsDistinct ms → IsDistinct ns
IsDistinct-perm Permᴰ.nil h = tt
IsDistinct-perm (Permᴰ.cons {l₁} e p) h = (
  All-perm _ p (subst (λ (m : Member). All {A = Member} (λ n. m.0 ≢ n.0) l₁) e h.0),
  IsDistinct-perm p h.1,
)
IsDistinct-perm (Permᴰ.swap {a} {b} {a'} {b'} {l} e f) h =
    subst (λ x. IsDistinct (x ∷ b' ∷ l)) f
      (subst (λ x. IsDistinct (b ∷ x ∷ l)) e (((λ q. h.0.0 (sym q)), h.1.0), (h.0.1, h.1.1)))
IsDistinct-perm (Permᴰ.trans p q) h = IsDistinct-perm q (IsDistinct-perm p h)

sort_members-perm :
    {ms ns : List Member} → Permᴰ ms ns → IsDistinct ms → sort_members ms ≡ sort_members ns
unfolding sort_members
sort_members-perm Permᴰ.nil h = refl
sort_members-perm (Permᴰ.cons e p) h = ap₂ insert_member e (sort_members-perm p h.1)
sort_members-perm (Permᴰ.swap {a} {b} {a'} {b'} {l} e f) h =
    insert_member_comm a b (sort_members l) h.0.0
    ∙ ap₂ (λ x y. insert_member x (insert_member y (sort_members l))) f e
sort_members-perm (Permᴰ.trans p q) h =
    sort_members-perm p h ∙ sort_members-perm q (IsDistinct-perm p h)

-- The keys and values of an object, in the order in which they were written.
abbrev pub entries : Fields → List (String × Json)
entries end = []
entries (field k v fs) = (k, v) ∷ entries fs

abbrev canonical_entry : String × Json → Member
canonical_entry (k, v) = (k, canonicalize v)

members-entries : (fs : Fields) → members fs ≡ map canonical_entry (entries fs)
unfolding canonicalize
members-entries end = refl
members-entries (field k v fs) = ap (λ ms. (k, canonicalize v) ∷ ms) (members-entries fs)

object_text-perm :
    {ms ns : List Member} → Permᴰ ms ns → IsDistinct ms → object_text ms ≡ object_text ns
unfolding object_text
object_text-perm p h = rw (sort_members-perm p h)

String-set : IsSet String
String-set = hlevel IsScalar-prop

-- Two objects with the same keys and values, written in whatever order, have one canonical text, so
-- a hash over it does not depend on how the object was put together.
pub canonicalize-perm :
    (fs gs : Fields)
    → IsDistinct (members fs)
    → Perm (entries fs) (entries gs)
    → canonicalize (obj fs) ≡ canonicalize (obj gs)
unfolding canonicalize
canonicalize-perm fs gs h p =
    ∥∥₁_elim (Perm.map canonical_entry p) (String-set _ _) (λ q.
      object_text-perm (subst₂ Permᴰ (sym (members-entries fs)) (sym (members-entries gs)) q) h)
