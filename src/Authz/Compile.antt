-- ===== src/Authz/Compile.antt =====
-- The compiler of a schema of relations, from what its parser reads:
-- crates/saffui-core/src/authz/relations/schema.rs. The text of a fault is its kind and what it
-- names. The order of a `BTreeMap` and a `BTreeSet` is not kept: nothing looks it up.
pub mod Types
pub mod Cycles
pub mod Schema
pub mod Search
pub mod Clean
pub mod Declared
pub mod Acyclic
pub mod Sound
pub mod Tests
use saffui.Base.{
  ℕ, suc, ◌+◌, String, Bool, true, false, not, ◌&&◌, ◌||◌, Option, none, some, List, [], ◌∷◌, ◌++◌,
  ltb, text_keys, option_keys, ◌==◌, if◌then◌else◌, length, any, contains, is_empty, get,
}
use saffui.Names.{is_schema_name}
use saffui.Authz.Schema.{AllowedSubject, Rule, Rules, nil, cons, ObjectType, CompiledSchema}

abbrev pub max_faults_shown : ℕ
max_faults_shown = 100

abbrev pub compiled_version : ℕ
compiled_version = 1

-- What the message of a fault says, with the names it tells.
pub data Message : Type 0 where
  no_member : String → String → Message
  no_relation : String → String → Message
  no_object : String → Message
  no_type : String → Message
  cannot_name_member : String → Message
  cannot_name_type : String → Message
  declared_twice : String → String → Message
  defined_twice : String → Message
  computed_from_itself : String → Message
  expected : String → Message
  no_mixed_signs : Message
  nested_too_deep : Message
  cannot_be_shown : ℕ → Message
  no_meaning : ℕ → Message
  source_too_long : Message

pub record SchemaFault : Type 0 where
  pub line : ℕ
  pub message : Message

pub record SchemaFaults : Type 0 where
  pub shown : List SchemaFault
  pub not_shown : ℕ

abbrev pub no_faults : SchemaFaults
no_faults = record { shown = []; not_shown = 0 }

unfoldable pub note : SchemaFaults → ℕ → Message → SchemaFaults
note faults line message =
    if ltb (length faults.shown) max_faults_shown
    then record faults { shown = faults.shown ++ record { line = line; message = message } ∷ [] }
    else record faults { not_shown = faults.not_shown + 1 }

mutual
  pub data Expression : Type 0 where
    member : String → ℕ → Expression
    arrow : String → String → ℕ → Expression
    union : Expressions → Expression
    intersection : Expressions → Expression

  -- `Vec<Expression>`
  pub data Expressions : Type 0 where
    no_terms : Expressions
    term : Expression → Expressions → Expressions

-- A subject of a relation: its type, its member, its line.
pub record Subject : Type 0 where
  pub object_type : String
  pub member : Option String
  pub line : ℕ

pub data Declaration : Type 0 where
  relation : String → ℕ → List Subject → Declaration
  permission : String → ℕ → Expression → Declaration

pub record Definition : Type 0 where
  pub name : String
  pub line : ℕ
  pub declarations : List Declaration

abbrev pub name_of : Declaration → String
name_of (relation name line subjects) = name
name_of (permission name line expression) = name

abbrev pub line_of : Declaration → ℕ
line_of (relation name line subjects) = line
line_of (permission name line expression) = line

unfoldable pub find_type : List Definition → String → Option Definition
find_type [] object_type = none
find_type (d ∷ ds) object_type = if d.name == object_type then some d else find_type ds object_type

unfoldable pub has_member : List Declaration → String → Bool
has_member declarations name = any (λ d. name_of d == name) declarations

unfoldable pub find_relation : List Declaration → String → Option (List Subject)
find_relation [] name = none
find_relation (relation found line subjects ∷ ds) name =
    if found == name then some subjects else find_relation ds name
find_relation (permission found line expression ∷ ds) name = find_relation ds name

abbrev pub objects_of : List Subject → List String
objects_of [] = []
objects_of (s ∷ ss) = elim s.member [
  | none ↦ s.object_type ∷ objects_of ss
  | some m ↦ objects_of ss
]

unfoldable mutual
  pub rule_eqb : Rule → Rule → Bool
  rule_eqb (Rule.computed a) (Rule.computed b) = a == b
  rule_eqb (Rule.arrow r a) (Rule.arrow s b) = r == s && a == b
  rule_eqb (Rule.union a) (Rule.union b) = rules_eqb a b
  rule_eqb (Rule.intersection a) (Rule.intersection b) = rules_eqb a b
  rule_eqb _ _ = false

  rules_eqb : Rules → Rules → Bool
  rules_eqb nil nil = true
  rules_eqb (cons a xs) (cons b ys) = rule_eqb a b && rules_eqb xs ys
  rules_eqb _ _ = false

unfoldable pub has_rule : Rules → Rule → Bool
has_rule nil rule = false
has_rule (cons r rules) rule = rule_eqb r rule || has_rule rules rule

unfoldable pub push_rule : Rules → Rule → Rules
push_rule nil rule = cons rule nil
push_rule (cons r rules) rule = cons r (push_rule rules rule)

module _ (definitions : List Definition) where
  unfoldable pub lacks_member : String → String → Bool
  unfolding find_type has_member
  lacks_member object_type name = elim (find_type definitions object_type) [
    | none ↦ false
    | some target ↦ not (has_member target.declarations name)
  ]

  unfoldable pub note_lacking : List String → String → ℕ → SchemaFaults → SchemaFaults
  unfolding note lacks_member
  note_lacking [] name line faults = faults
  note_lacking (object_type ∷ rest) name line faults = note_lacking rest name line (
      if lacks_member object_type name
      then note faults line (no_member object_type name)
      else faults)

  unfoldable pub check_objects : List String → String → String → ℕ → SchemaFaults → SchemaFaults
  unfolding note_lacking
  check_objects objects name through line faults =
      note_lacking objects name line
        (if is_empty objects then note faults line (no_object through) else faults)

  unfoldable pub check_arrow : Definition → String → String → ℕ → SchemaFaults → SchemaFaults
  unfolding check_objects find_relation
  check_arrow d name through line faults = elim (find_relation d.declarations through) [
    | none ↦ note faults line (no_relation d.name through)
    | some subjects ↦ check_objects (objects_of subjects) name through line faults
  ]

  unfoldable pub check_member : Definition → String → ℕ → SchemaFaults → SchemaFaults
  unfolding has_member note
  check_member d name line faults =
      if has_member d.declarations name then faults else note faults line (no_member d.name name)

  unfoldable mutual
    unfolding check_arrow check_member has_rule push_rule

    pub compile_expression : Definition → Expression → SchemaFaults → Rule × SchemaFaults
    compile_expression d (member name line) faults =
        (Rule.computed name, check_member d name line faults)
    compile_expression d (arrow name through line) faults =
        (Rule.arrow through name, check_arrow d name through line faults)
    compile_expression d (union terms) faults =
        let compiled = compile_terms d terms nil faults in (Rule.union compiled.0, compiled.1)
    compile_expression d (intersection terms) faults =
        let compiled = compile_terms d terms nil faults in
        (Rule.intersection compiled.0, compiled.1)

    -- The rules so far are those that were seen.
    pub compile_terms : Definition → Expressions → Rules → SchemaFaults → Rules × SchemaFaults
    compile_terms d no_terms rules faults = (rules, faults)
    compile_terms d (term t ts) rules faults =
        let compiled = compile_expression d t faults in
        compile_terms d ts (if has_rule rules compiled.0 then rules else push_rule rules compiled.0)
          compiled.1
