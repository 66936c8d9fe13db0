-- ===== src/Authz/Compile/Types.antt =====
-- Types and whole schemas, compiled: `compile_type` and the end of `compile_schema` of
-- crates/saffui-core/src/authz/relations/schema.rs.
use saffui.Base.{
  String, Bool, false, not, ◌&&◌, Option, none, some, List, [], ◌∷◌, ◌++◌, text_keys, option_keys,
  ◌==◌, if◌then◌else◌, any, contains,
}
use saffui.Names.{is_schema_name}
use saffui.Authz.Schema.{AllowedSubject, ObjectType}
use saffui.Authz.Compile.{
  no_type, no_member, cannot_name_member, declared_twice, SchemaFaults, note, Subject, Declaration,
  Definition, name_of, line_of, find_type, has_member, compile_expression,
}

-- `BTreeMap::insert`
unfoldable pub insert {ℓ} : {V : Type ℓ} → List (String × V) → String → V → List (String × V)
insert [] key value = (key, value) ∷ []
insert ((k, v) ∷ m) key value = if k == key then (key, value) ∷ m else (k, v) ∷ insert m key value

abbrev same_subject : AllowedSubject → AllowedSubject → Bool
same_subject a b = a.object_type == b.object_type && a.member == b.member

-- `BTreeSet::insert`
unfoldable pub insert_subject : List AllowedSubject → AllowedSubject → List AllowedSubject
insert_subject allowed subject =
    if any (λ a. same_subject a subject) allowed then allowed else allowed ++ subject ∷ []

abbrev pub lacks : Option Definition → Option String → Bool
lacks none m = false
lacks (some target) none = false
lacks (some target) (some m) = not (has_member target.declarations m)

module _ (definitions : List Definition) where
  unfoldable pub check_named :
      Option Definition → Subject → Option String → SchemaFaults → SchemaFaults
  unfolding note has_member
  check_named none s m faults = note faults s.line (no_type s.object_type)
  check_named (some target) s none faults = faults
  check_named (some target) s (some m) faults =
      if has_member target.declarations m
      then faults
      else note faults s.line (no_member s.object_type m)

  unfoldable pub check_subject : Subject → SchemaFaults → SchemaFaults
  unfolding check_named find_type
  check_subject s faults = check_named (find_type definitions s.object_type) s s.member faults

  unfoldable pub compile_subjects :
      List Subject → List AllowedSubject → SchemaFaults → List AllowedSubject × SchemaFaults
  unfolding check_subject insert_subject
  compile_subjects [] allowed faults = (allowed, faults)
  compile_subjects (s ∷ ss) allowed faults =
      compile_subjects ss
        (insert_subject allowed (record { object_type = s.object_type; member = s.member }))
        (check_subject s faults)

  unfoldable pub check_name : Definition → List String → Declaration → SchemaFaults → SchemaFaults
  unfolding note
  check_name d seen declaration faults =
      let name = name_of declaration in
      let named =
        if is_schema_name name
        then faults
        else note faults (line_of declaration) (cannot_name_member name) in
      if contains seen name
      then note named (line_of declaration) (declared_twice d.name name)
      else named

  unfoldable pub compile_declaration :
      Definition → Declaration → ObjectType → SchemaFaults → ObjectType × SchemaFaults
  unfolding compile_subjects compile_expression insert
  compile_declaration d (Declaration.relation name line subjects) compiled faults =
      let allowed = compile_subjects subjects [] faults in
      (record compiled { relations = insert compiled.relations name allowed.0 }, allowed.1)
  compile_declaration d (Declaration.permission name line expression) compiled faults =
      let rule = compile_expression definitions d expression faults in
      (record compiled { permissions = insert compiled.permissions name rule.0 }, rule.1)

  unfoldable pub compile_declarations :
      Definition
      → List Declaration
      → List String
      → ObjectType
      → SchemaFaults
      → ObjectType × SchemaFaults
  unfolding check_name compile_declaration
  compile_declarations d [] seen compiled faults = (compiled, faults)
  compile_declarations d (declaration ∷ rest) seen compiled faults =
      let next =
        compile_declaration d declaration compiled (check_name d seen declaration faults) in
      compile_declarations d rest (name_of declaration ∷ seen) next.0 next.1

  unfoldable pub compile_type : Definition → SchemaFaults → ObjectType × SchemaFaults
  unfolding compile_declarations
  compile_type d faults =
      compile_declarations d d.declarations [] (record { relations = []; permissions = [] }) faults
