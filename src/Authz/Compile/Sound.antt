-- ===== src/Authz/Compile/Sound.antt =====
-- What a schema that compiles holds: crates/saffui-core/src/authz/relations/schema.rs.
use saffui.Base.{
  ℕ, ◌≡◌, refl, sym, subst, ◌∙◌, String, true, List, [], ◌∷◌, text_keys, contains, get, arith, inl,
  inr, Bool-cases, All,
}
use saffui.Authz.Schema.{ObjectType, CompiledSchema}
use saffui.Authz.Compile.{
  defined_twice, cannot_name_type, compiled_version, SchemaFaults, Definition,
}
use saffui.Names.{is_schema_name}
use saffui.Authz.Compile.Clean.{Clean, note-Clean, unless-Clean}
use saffui.Authz.Compile.Declared.{IsDeclared, AreDistinct, compile_declarations-Clean}
use saffui.Authz.Compile.Types.{insert, compile_type}
use saffui.Authz.Compile.Cycles.{find_cycles}
use saffui.Authz.Compile.Schema.{
  compile_types, compile_definitions, compiled, check_once, check_type_name, is_some,
}
use saffui.Authz.Compile.Search.{Way}
use saffui.Authz.Compile.Acyclic.{
  compile_type-keys, permission_names, find_cycles-Clean, Way-some, Acyclic, insert-Acyclic,
}

module _ (definitions : List Definition) where
  check_once-Clean :
      (d : Definition) (types : List (String × ObjectType)) (faults : SchemaFaults)
      → Clean (check_once definitions d types faults)
      → Clean faults
  unfolding check_once
  check_once-Clean d types faults e = elim (Bool-cases (is_some (get types d.name))) [
    | inl s ↦ absurd (note-Clean faults d.line (defined_twice d.name) (ground (arith, e, s)))
    | inr s ↦ ground (arith, e, s)
  ]

  type_acyclic :
      (d : Definition) (faults : SchemaFaults)
      → ((n : String)
          → contains (permission_names d.declarations) n ≡ true
          → Way (compile_type definitions d faults).0.permissions n n
          → ⊥)
      → (n : String) → Way (compile_type definitions d faults).0.permissions n n
      → ⊥
  type_acyclic d faults h n p =
      h n
        (sym (compile_type-keys definitions d faults n)
          ∙ Way-some (compile_type definitions d faults).0.permissions n n p)
        p

  compile_types-Clean :
      (ds : List Definition) (types : List (String × ObjectType)) (faults : SchemaFaults)
      → Clean (compile_types definitions ds types faults).1
      → Clean faults
  unfolding compile_types check_type_name compile_type
  compile_types-Clean [] types faults e = e
  compile_types-Clean (d ∷ ds) types faults e =
      let named = check_type_name definitions d faults in
      let object = compile_type definitions d named in
      let cycles = find_cycles d.declarations object.0.permissions object.1 in
      let later =
        compile_types-Clean ds (insert types d.name object.0)
          (check_once definitions d types cycles) e in
      let searched =
        find_cycles-Clean d.declarations object.0.permissions object.1
          (check_once-Clean d types cycles later) in
      let made =
        compile_declarations-Clean definitions d d.declarations []
          (record { relations = []; permissions = [] }) named searched.0 in
      (unless-Clean (is_schema_name d.name) faults d.line (cannot_name_type d.name) made.0).0

  -- A definition that passed: its name, the names it declares and all that they name.
  pub record IsSound (d : Definition) : Type 0 where
    pub named : is_schema_name d.name ≡ true
    pub declared : All (IsDeclared definitions d) d.declarations
    pub distinct : AreDistinct definitions [] d.declarations

  compile_types-Sound :
      (ds : List Definition) (types : List (String × ObjectType)) (faults : SchemaFaults)
      → Acyclic types
      → Clean (compile_types definitions ds types faults).1
      → Clean faults × Acyclic (compile_types definitions ds types faults).0 × All IsSound ds
  unfolding compile_types check_type_name compile_type
  compile_types-Sound [] types faults a e = (e, a, tt)
  compile_types-Sound (d ∷ ds) types faults a e =
      let named = check_type_name definitions d faults in
      let object = compile_type definitions d named in
      let cycles = find_cycles d.declarations object.0.permissions object.1 in
      let walked = find_cycles-Clean d.declarations object.0.permissions object.1 in
      let later =
        compile_types-Clean ds (insert types d.name object.0)
          (check_once definitions d types cycles) e in
      let searched = walked (check_once-Clean d types cycles later) in
      let made =
        compile_declarations-Clean definitions d d.declarations []
          (record { relations = []; permissions = [] }) named searched.0 in
      let first =
        unless-Clean (is_schema_name d.name) faults d.line (cannot_name_type d.name) made.0 in
      let rest =
        compile_types-Sound ds (insert types d.name object.0)
          (check_once definitions d types cycles)
          (insert-Acyclic types d.name object.0 a (type_acyclic d named searched.1)) e in
      (first.0, rest.1, (record { named = first.1; declared = made.1; distinct = made.2 }, rest.2))

compiled-Clean :
    (written : CompiledSchema → ℕ) (definitions : List Definition) (faults : SchemaFaults)
    (schema : CompiledSchema)
    → compile_definitions written definitions faults ≡ compiled schema
    → Clean (compile_types definitions definitions [] faults).1
      × ((compile_types definitions definitions [] faults).0 ≡ schema.types)
      × (schema.version ≡ compiled_version)
unfolding compile_definitions
compiled-Clean written definitions faults schema e =
    clean_of (compile_types definitions definitions [] faults).1.shown refl
  where
    clean_of :
        (fs : List _)
        → (compile_types definitions definitions [] faults).1.shown ≡ fs
        → Clean (compile_types definitions definitions [] faults).1
          × ((compile_types definitions definitions [] faults).0 ≡ schema.types)
          × (schema.version ≡ compiled_version)
    clean_of [] s = (s, ground (arith, e, s), ground (arith, e, s))
    clean_of (f ∷ fs) s = absurd (ground (arith, e, s))

no_types-Acyclic : Acyclic []
unfolding Acyclic
no_types-Acyclic t object e n p = absurd (ground (arith, e))

-- In a schema that compiles, no permission of a type computes itself, in one step or in several.
pub compile_definitions-Acyclic :
    (written : CompiledSchema → ℕ) (definitions : List Definition) (faults : SchemaFaults)
    (schema : CompiledSchema)
    → compile_definitions written definitions faults ≡ compiled schema
    → Acyclic schema.types
compile_definitions-Acyclic written definitions faults schema e =
    let clean = compiled-Clean written definitions faults schema e in
    subst Acyclic clean.1
      (compile_types-Sound definitions definitions [] faults no_types-Acyclic clean.0).1

-- A schema compiles only from definitions that name what is declared: types and members have names
-- that can name them, a type declares each of its members once, every subject of a relation is of a
-- type that is defined and has the member it is taken by, and every member that a permission names is
-- there, on the type or on each type that is walked to. The parser had found no fault either.
pub compile_definitions-Sound :
    (written : CompiledSchema → ℕ) (definitions : List Definition) (faults : SchemaFaults)
    (schema : CompiledSchema)
    → compile_definitions written definitions faults ≡ compiled schema
    → Clean faults × All (IsSound definitions) definitions
compile_definitions-Sound written definitions faults schema e =
    let clean = compiled-Clean written definitions faults schema e in
    let sound = compile_types-Sound definitions definitions [] faults no_types-Acyclic clean.0 in
    (sound.0, sound.2)
