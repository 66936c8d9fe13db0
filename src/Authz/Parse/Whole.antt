-- ===== src/Authz/Parse/Whole.antt =====
-- From a source to what it compiles to: `compile_schema` of
-- crates/saffui-core/src/authz/relations/schema.rs.
use Prim.Native.String.{len}
use saffui.Base.{
  ℕ, ◌*◌, ◌≡◌, ◌≢◌, String, Option, none, some, List, [], ◌∷◌, if◌then◌else◌, ltb, arith, refl, inl,
  inr, Bool-cases,
}
use saffui.Authz.Schema.{CompiledSchema}
use saffui.Authz.Compile.{source_too_long, SchemaFault, SchemaFaults, Definition}
use saffui.Authz.Compile.Schema.{Compiled, compiled, refused, compile_definitions}
use saffui.Authz.Compile.Sound.{compile_definitions-Acyclic}
use saffui.Authz.Compile.Acyclic.{Acyclic}
use saffui.Authz.Parse.{Lexeme}
use saffui.Authz.Parse.Lexer.{Scanned, scanned, unread, read_lexemes}
use saffui.Authz.Parse.Definitions.{read_source}
use saffui.Authz.Parse.Sources.{read_source-some}

abbrev pub schema_max_bytes : ℕ
schema_max_bytes = 64 * 1024

-- `SchemaFaults::one`
abbrev pub one_fault : SchemaFault → SchemaFaults
one_fault fault = record { shown = fault ∷ []; not_shown = 0 }

abbrev pub compile_read :
    (CompiledSchema → ℕ) → Option (List Definition × SchemaFaults) → Option Compiled
compile_read written none = none
compile_read written (some (definitions, faults)) =
    some (compile_definitions written definitions faults)

abbrev pub compile_scanned : (CompiledSchema → ℕ) → Scanned → Option Compiled
compile_scanned written (unread fault) = some (refused (one_fault fault))
compile_scanned written (scanned lexemes) = compile_read written (read_source lexemes)

-- None where the fuel of the parser is spent.
unfoldable pub compile_schema : (CompiledSchema → ℕ) → String → Option Compiled
compile_schema written source =
    if ltb schema_max_bytes (len source)
    then some (refused (one_fault (record { line = 1; message = source_too_long })))
    else compile_scanned written (read_lexemes source)

compile_read-some :
    (written : CompiledSchema → ℕ) (read : Option (List Definition × SchemaFaults))
    → read ≢ none
    → compile_read written read ≢ none
compile_read-some written none h e = absurd (h refl)
compile_read-some written (some r) h e = absurd (ground (arith, e))

compile_scanned-some :
    (written : CompiledSchema → ℕ) (s : Scanned) → compile_scanned written s ≢ none
compile_scanned-some written (unread fault) e = absurd (ground (arith, e))
compile_scanned-some written (scanned lexemes) e =
    compile_read-some written (read_source lexemes) (read_source-some lexemes) e

-- The compiler ends on every source: with a schema, with the faults of the source, or with its form
-- past its bound.
pub compile_schema-some :
    (written : CompiledSchema → ℕ) (source : String) → compile_schema written source ≢ none
unfolding compile_schema
compile_schema-some written source e = elim (Bool-cases (ltb schema_max_bytes (len source))) [
  | inl b ↦ absurd (ground (arith, e, b))
  | inr b ↦ compile_scanned-some written (read_lexemes source) (ground (arith, e, b))
]

compile_scanned-Acyclic :
    (written : CompiledSchema → ℕ) (s : Scanned) (read : Option (List Definition × SchemaFaults))
    (lexemes : List Lexeme) (schema : CompiledSchema)
    → s ≡ scanned lexemes
    → read_source lexemes ≡ read
    → compile_scanned written s ≡ some (compiled schema)
    → Acyclic schema.types
compile_scanned-Acyclic written s none lexemes schema h r e = absurd (ground (arith, h, r, e))
compile_scanned-Acyclic written s (some (definitions, faults)) lexemes schema h r e =
    compile_definitions-Acyclic written definitions faults schema (ground (arith, h, r, e))

-- Whatever its source is, in a schema that compiles no permission of a type computes itself, in one
-- step or in several.
pub compile_schema-Acyclic :
    (written : CompiledSchema → ℕ) (source : String) (schema : CompiledSchema)
    → compile_schema written source ≡ some (compiled schema)
    → Acyclic schema.types
unfolding compile_schema
compile_schema-Acyclic written source schema e = by_lexemes (read_lexemes source) refl
  where
    by_lexemes : (s : Scanned) → read_lexemes source ≡ s → Acyclic schema.types
    by_lexemes (unread fault) s = absurd (ground (arith, e, s))
    by_lexemes (scanned lexemes) s =
        compile_scanned-Acyclic written (read_lexemes source) (read_source lexemes) lexemes schema s
          refl (ground (arith, e))
