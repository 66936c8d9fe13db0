-- ===== src/Authz/Schema.antt =====
-- The compiled schema of relations: crates/saffui-core/src/authz/relations/schema.rs, and the
-- references of crates/saffui-core/src/authz/relations/mod.rs.
use saffui.Base.{
  ℕ, String, ◌≡◌, ◌↔◌, true, ◌&&◌, Option, none, some, List, arith, Keys, ◌==◌, text_keys,
  option_keys, get,
}

pub record ObjectRef : Type 0 where
  pub object_type : String
  pub object_id : String

pub record SubjectRef : Type 0 where
  pub object : ObjectRef
  pub member : Option String

pub record AllowedSubject : Type 0 where
  pub object_type : String
  pub member : Option String

mutual
  pub data Rule : Type 0 where
    computed : String → Rule
    arrow : String → String → Rule
    union : Rules → Rule
    intersection : Rules → Rule

  -- `Vec<Rule>`
  pub data Rules : Type 0 where
    nil : Rules
    cons : Rule → Rules → Rules

-- The maps are association lists with distinct keys.
pub record ObjectType : Type 0 where
  pub relations : List (String × List AllowedSubject)
  pub permissions : List (String × Rule)

pub record CompiledSchema : Type 0 where
  pub version : ℕ
  pub types : List (String × ObjectType)

pub data MemberKind : Type 0 where
  relation : List AllowedSubject → MemberKind
  permission : Rule → MemberKind

find_in : String → ObjectType → Option MemberKind
find_in member found = elim (get found.relations member) [
  | some allowed ↦ some (relation allowed)
  | none ↦ elim (get found.permissions member) [ some rule ↦ some (permission rule) | none ↦ none ]
]

unfoldable pub find_member : CompiledSchema → String → String → Option MemberKind
unfolding find_in
find_member schema object_type member = elim (get schema.types object_type) [
  | none ↦ none
  | some found ↦ find_in member found
]

pub object_eqb_iff :
    (a b : ObjectRef)
    → ((a.object_type == b.object_type && a.object_id == b.object_id) ≡ true) ↔ (a ≡ b)
object_eqb_iff a b = ground (
  arith,
  text_keys.same_iff a.object_type b.object_type,
  text_keys.same_iff a.object_id b.object_id,
)

instance abbrev pub object_keys : Keys ObjectRef
object_keys = record {
  same = λ a b. a.object_type == b.object_type && a.object_id == b.object_id;
  same_iff = object_eqb_iff;
}
