-- ===== src/Authz/Compile/Schema.antt =====
-- A whole schema from its definitions: what `compile_schema` of
-- crates/saffui-core/src/authz/relations/schema.rs does once they are read. The length of the written
-- form, which serde gives, is a parameter.
use saffui.Base.{
  ℕ, ◌*◌, String, Bool, true, false, Option, none, some, List, [], ◌∷◌, ltb, text_keys,
  if◌then◌else◌, get, is_empty,
}
use saffui.Names.{is_schema_name}
use saffui.Authz.Schema.{ObjectType, CompiledSchema}
use saffui.Authz.Compile.{
  cannot_name_type, defined_twice, SchemaFault, SchemaFaults, note, Definition, compiled_version,
}
use saffui.Authz.Compile.Types.{insert, compile_type}
use saffui.Authz.Compile.Cycles.{find_cycles}

abbrev pub schema_compiled_max_bytes : ℕ
schema_compiled_max_bytes = 4 * (64 * 1024)

-- A stable sort by line.
abbrev insert_by_line : SchemaFault → List SchemaFault → List SchemaFault
insert_by_line f [] = f ∷ []
insert_by_line f (g ∷ gs) = if ltb g.line f.line then g ∷ insert_by_line f gs else f ∷ g ∷ gs

abbrev sort_by_line : List SchemaFault → List SchemaFault
sort_by_line [] = []
sort_by_line (f ∷ fs) = insert_by_line f (sort_by_line fs)

pub data Compiled : Type 0 where
  compiled : CompiledSchema → Compiled
  refused : SchemaFaults → Compiled
  too_large : Compiled

abbrev pub is_some {ℓ} : {A : Type ℓ} → Option A → Bool
is_some none = false
is_some (some a) = true

module _ (definitions : List Definition) where
  unfoldable pub check_type_name : Definition → SchemaFaults → SchemaFaults
  unfolding note
  check_type_name d faults =
      if is_schema_name d.name then faults else note faults d.line (cannot_name_type d.name)

  unfoldable pub check_once : Definition → List (String × ObjectType) → SchemaFaults → SchemaFaults
  unfolding note
  check_once d types faults =
      if is_some (get types d.name) then note faults d.line (defined_twice d.name) else faults

  unfoldable pub compile_types :
      List Definition
      → List (String × ObjectType)
      → SchemaFaults
      → List (String × ObjectType) × SchemaFaults
  unfolding check_type_name check_once
  compile_types [] types faults = (types, faults)
  compile_types (d ∷ ds) types faults =
      let object = compile_type definitions d (check_type_name d faults) in
      let faults = find_cycles d.declarations object.0.permissions object.1 in
      compile_types ds (insert types d.name object.0) (check_once d types faults)

-- The faults are those of the parser.
unfoldable pub compile_definitions :
    (CompiledSchema → ℕ) → List Definition → SchemaFaults → Compiled
unfolding compile_types
compile_definitions written definitions faults =
    let done = compile_types definitions definitions [] faults in
    let schema : CompiledSchema = record { version = compiled_version; types = done.0 } in
    if is_empty done.1.shown
    then if ltb schema_compiled_max_bytes (written schema) then too_large else compiled schema
    else refused (record done.1 { shown = sort_by_line done.1.shown })
