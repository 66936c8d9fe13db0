-- ===== src/Authz/Compile/Declared.antt =====
-- What `compile_type` of crates/saffui-core/src/authz/relations/schema.rs lets pass without a fault.
use saffui.Base.{
  ◌≡◌, refl, String, true, false, Option, none, some, List, [], ◌∷◌, text_keys, option_keys,
  contains, arith, if◌then◌else◌, All,
}
use saffui.Names.{is_schema_name}
use saffui.Authz.Schema.{AllowedSubject, ObjectType}
use saffui.Authz.Compile.{
  no_type, no_member, cannot_name_member, declared_twice, SchemaFaults, note, Declaration,
  Definition, Subject, name_of, line_of, has_member, find_type,
}
use saffui.Authz.Compile.Types.{
  check_named, check_subject, compile_subjects, check_name, compile_declaration,
  compile_declarations, insert_subject,
}
use saffui.Authz.Compile.Clean.{
  Clean, note-Clean, unless-Clean, when-Clean, AllNamed, compile_expression-Clean,
}

module _ (definitions : List Definition) where
  -- A subject of a relation: its type is defined, and has the member it is taken by.
  pub record IsKnown (s : Subject) : Type 0 where
    pub target : Definition
    pub defined : find_type definitions s.object_type ≡ some target
    pub member : (m : String) → s.member ≡ some m → has_member target.declarations m ≡ true

  -- A declaration whose name can be one, and that names only what is declared.
  pub IsDeclared : Definition → Declaration → Type 0
  IsDeclared d (Declaration.relation name line subjects) =
      (is_schema_name name ≡ true) × All IsKnown subjects
  IsDeclared d (Declaration.permission name line expression) =
      (is_schema_name name ≡ true) × AllNamed definitions d expression

  -- Names that are declared once.
  pub AreDistinct : List String → List Declaration → Type 0
  AreDistinct seen [] = Unit
  AreDistinct seen (x ∷ xs) =
      (contains seen (name_of x) ≡ false) × AreDistinct (name_of x ∷ seen) xs

  check_named-Clean :
      (found : Option Definition) (s : Subject) (m : Option String) (faults : SchemaFaults)
      → find_type definitions s.object_type ≡ found
      → s.member ≡ m
      → Clean (check_named definitions found s m faults)
      → Clean faults × IsKnown s
  unfolding check_named
  check_named-Clean none s m faults f g e =
      absurd (note-Clean faults s.line (no_type s.object_type) e)
  check_named-Clean (some target) s none faults f g e =
      (e, record { target = target; defined = f; member = λ m h. absurd (ground (arith, g, h)) })
  check_named-Clean (some target) s (some n) faults f g e =
      let here =
        unless-Clean (has_member target.declarations n) faults s.line (no_member s.object_type n)
          e in
      (
        here.0,
        record { target = target; defined = f; member = λ m h. ground (arith, g, h, here.1) },
      )

  compile_subjects-Clean :
      (ss : List Subject) (allowed : List AllowedSubject) (faults : SchemaFaults)
      → Clean (compile_subjects definitions ss allowed faults).1
      → Clean faults × All IsKnown ss
  unfolding compile_subjects check_subject
  compile_subjects-Clean [] allowed faults e = (e, tt)
  compile_subjects-Clean (s ∷ ss) allowed faults e =
      let rest =
        compile_subjects-Clean ss
          (insert_subject allowed (record { object_type = s.object_type; member = s.member }))
          (check_subject definitions s faults) e in
      let here =
        check_named-Clean (find_type definitions s.object_type) s s.member faults refl refl
          rest.0 in
      (here.0, (here.1, rest.1))

  check_name-Clean :
      (d : Definition) (seen : List String) (x : Declaration) (faults : SchemaFaults)
      → Clean (check_name definitions d seen x faults)
      → Clean faults × (is_schema_name (name_of x) ≡ true) × (contains seen (name_of x) ≡ false)
  unfolding check_name
  check_name-Clean d seen x faults e =
      let named =
        if is_schema_name (name_of x)
        then faults
        else note faults (line_of x) (cannot_name_member (name_of x)) in
      let second =
        when-Clean (contains seen (name_of x)) named (line_of x) (declared_twice d.name (name_of x))
          e in
      let first =
        unless-Clean (is_schema_name (name_of x)) faults (line_of x)
          (cannot_name_member (name_of x)) second.0 in
      (first.0, first.1, second.1)

  compile_declaration-Clean :
      (d : Definition) (x : Declaration) (object : ObjectType) (faults : SchemaFaults)
      → Clean (compile_declaration definitions d x object faults).1
      → Clean faults × (is_schema_name (name_of x) ≡ true → IsDeclared d x)
  unfolding compile_declaration IsDeclared
  compile_declaration-Clean d (Declaration.relation name line subjects) object faults e =
      let all = compile_subjects-Clean subjects [] faults e in (all.0, λ h. (h, all.1))
  compile_declaration-Clean d (Declaration.permission name line expression) object faults e =
      let all = compile_expression-Clean definitions d expression faults e in
      (all.0, λ h. (h, all.1))

  pub compile_declarations-Clean :
      (d : Definition) (xs : List Declaration) (seen : List String) (object : ObjectType)
      (faults : SchemaFaults)
      → Clean (compile_declarations definitions d xs seen object faults).1
      → Clean faults × All (IsDeclared d) xs × AreDistinct seen xs
  unfolding compile_declarations AreDistinct
  compile_declarations-Clean d [] seen object faults e = (e, tt, tt)
  compile_declarations-Clean d (x ∷ xs) seen object faults e =
      let checked = check_name definitions d seen x faults in
      let next = compile_declaration definitions d x object checked in
      let rest = compile_declarations-Clean d xs (name_of x ∷ seen) next.0 next.1 e in
      let here = compile_declaration-Clean d x object checked rest.0 in
      let named = check_name-Clean d seen x faults here.0 in
      (named.0, (here.1 named.1, rest.1), (named.2, rest.2))
