-- ===== src/Authz/Parse/Tests.antt =====
-- A source, read and compiled, and the theorems at it.
use saffui.Base.{◌≡◌, ◌≢◌, refl, String, none, some, [], ◌∷◌}
use saffui.Names.{is_schema_name, is_unshowable}
use saffui.Authz.Schema.{Rule, Rules, CompiledSchema}
use saffui.Authz.Compile.{
  compile_expression, has_member, find_type, rule_eqb, check_member, has_rule, push_rule,
}
use saffui.Authz.Compile.Types.{
  insert, compile_subjects, compile_declarations, compile_type, check_name, compile_declaration,
  insert_subject, check_subject, check_named,
}
use saffui.Authz.Compile.Cycles.{
  find_cycles, search, search_fuel, collect, push_unseen, computed_names,
}
use saffui.Authz.Compile.Schema.{
  compile_definitions, compile_types, check_once, check_type_name, compiled,
}
use saffui.Authz.Compile.Acyclic.{Acyclic}
use saffui.Authz.Parse.{
  name, take_name, is_mark, is_word, take_mark, read_member, end_terms, read_expression,
}
use saffui.Authz.Parse.Definitions.{
  read_subject, read_subjects, read_relation, read_permission, read_declaration, read_declarations,
  read_body, read_definition, read_definitions, read_source,
}
use saffui.Authz.Parse.Lexer.{lines, code_of, scan_line, scan_lines, read_lexemes}
use saffui.Authz.Parse.Sources.{read_source-some}
use saffui.Authz.Parse.Whole.{compile_schema, compile_schema-some, compile_schema-Acyclic}

abbrev source : String
source =
    "// who owns, views\ndefinition user {}\ndefinition doc { relation owner: user permission view = (owner + owner) }"

abbrev schema : CompiledSchema
schema = record {
  version = 1;
  types =
      ("user", record { relations = []; permissions = [] })
      ∷ (
        "doc",
        record {
          relations = ("owner", record { object_type = "user"; member = none } ∷ []) ∷ [];
          permissions = ("view", Rule.union (Rules.cons (Rule.computed "owner") Rules.nil)) ∷ [];
        },
      )
      ∷ [];
}

compiles : compile_schema (λ s. 0) source ≡ some (compiled schema)
unfolding compile_schema read_lexemes scan_lines scan_line lines code_of is_unshowable read_source
    read_definitions read_definition read_body read_declarations read_declaration read_relation
    read_permission read_subject read_subjects read_expression read_member end_terms take_name
    is_mark is_word take_mark compile_definitions compile_types check_once check_type_name
    compile_type compile_declarations check_name compile_declaration compile_subjects
    compile_expression insert insert_subject find_cycles search search_fuel collect push_unseen
    computed_names rule_eqb has_member find_type check_subject check_named check_member has_rule
    push_rule is_schema_name
compiles = refl

compile_schema-some_example : compile_schema (λ s. 0) source ≢ none
compile_schema-some_example = compile_schema-some (λ s. 0) source

compile_schema-Acyclic_example : Acyclic schema.types
compile_schema-Acyclic_example = compile_schema-Acyclic (λ s. 0) source schema compiles

read_source-some_example : read_source (record { token = name "definition"; line = 1 } ∷ []) ≢ none
read_source-some_example = read_source-some (record { token = name "definition"; line = 1 } ∷ [])
