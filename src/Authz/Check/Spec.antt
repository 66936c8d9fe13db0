-- ===== src/Authz/Check/Spec.antt =====
-- What it is for a subject to stand in a member of an object, by the schema and the relations kept:
-- the meaning that the walk of crates/saffui-core/src/authz/relations/check.rs answers for.
use mathlib.Core.List.{Memᴰ}
use saffui.Base.{ℕ, String, ◌≡◌, true, some, List, [], ◌∷◌, take}
use saffui.Authz.Schema.{
  ObjectRef, SubjectRef, AllowedSubject, Rule, Rules, nil, cons, CompiledSchema, MemberKind,
  find_member,
}
use saffui.Authz.Walk.{Walk, found, not_found, undecided, Walker, rows}
use saffui.Authz.Check.{admits, admits_object, is_itself}

-- The subjects that each relation of each object names.
abbrev pub Kept : Type 0
Kept = ObjectRef → String → List SubjectRef

pub data Goal : Type 0 where
  member : ObjectRef → String → Goal
  rule : ObjectRef → Rule → Goal

abbrev pub rule_list : Rules → List Rule
rule_list nil = []
rule_list (cons r rs) = r ∷ rule_list rs

pub data Stands (schema : CompiledSchema) (kept : Kept) (subject : ObjectRef) : Goal → Type 0 where
  itself :
      {o : ObjectRef} {m : String} (allowed : List AllowedSubject) (s : SubjectRef)
      → find_member schema o.object_type m ≡ some (MemberKind.relation allowed)
      → Memᴰ s (kept o m)
      → admits allowed s ≡ true
      → is_itself subject s ≡ true
      → Stands schema kept subject (member o m)
  through :
      {o : ObjectRef} {m : String} (allowed : List AllowedSubject) (s : SubjectRef) (n : String)
      → find_member schema o.object_type m ≡ some (MemberKind.relation allowed)
      → Memᴰ s (kept o m)
      → admits allowed s ≡ true
      → s.member ≡ some n
      → Stands schema kept subject (member s.object n)
      → Stands schema kept subject (member o m)
  permits :
      {o : ObjectRef} {m : String} (r : Rule)
      → find_member schema o.object_type m ≡ some (MemberKind.permission r)
      → Stands schema kept subject (rule o r)
      → Stands schema kept subject (member o m)
  computed :
      {o : ObjectRef} {m : String}
      → Stands schema kept subject (member o m)
      → Stands schema kept subject (rule o (Rule.computed m))
  arrow :
      {o : ObjectRef} {l m : String} (allowed : List AllowedSubject) (s : SubjectRef)
      → find_member schema o.object_type l ≡ some (MemberKind.relation allowed)
      → Memᴰ s (kept o l)
      → admits_object allowed s ≡ true
      → Stands schema kept subject (member s.object m)
      → Stands schema kept subject (rule o (Rule.arrow l m))
  one_of :
      {o : ObjectRef} {rs : Rules} (r : Rule)
      → Memᴰ r (rule_list rs)
      → Stands schema kept subject (rule o r)
      → Stands schema kept subject (rule o (Rule.union rs))
  all_of :
      {o : ObjectRef} {r : Rule} {rs : Rules}
      → ((x : Rule) → Memᴰ x (rule_list (cons r rs)) → Stands schema kept subject (rule o x))
      → Stands schema kept subject (rule o (Rule.intersection (cons r rs)))

-- What an answer says of a goal. An undecided answer says nothing.
abbrev pub Tells {ℓ} : Type ℓ → Walk → Type ℓ
Tells P found = P
Tells P not_found = P → ⊥
Tells P (undecided limit) = Unit

-- The storage answers from the relations kept, `limit` of them at most, or fails.
abbrev pub Answers : Walker → Kept → Type 0
Answers w kept =
    (n : ℕ) (o : ObjectRef) (r : String) (limit : ℕ) (subjects : List SubjectRef)
    → w.list_relation_subjects n o r limit ≡ rows subjects
    → subjects ≡ take limit (kept o r)
