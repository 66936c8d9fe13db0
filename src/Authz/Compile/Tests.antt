-- ===== src/Authz/Compile/Tests.antt =====
-- Small schemas, compiled, and the theorems at them.
use saffui.Base.{◌≡◌, ◌≢◌, ◌↔◌, refl, String, none, List, [], ◌∷◌, All}
use saffui.Authz.Schema.{Rule, nil, cons, CompiledSchema}
use saffui.Authz.Compile.{
  Expression, no_terms, term, Declaration, Definition, no_faults, compile_expression, has_member,
  find_type, rule_eqb, check_member, has_rule, push_rule,
}
use saffui.Names.{is_schema_name}
use saffui.Authz.Compile.Types.{
  insert, compile_subjects, compile_declarations, compile_type, check_name, compile_declaration,
  insert_subject, check_subject, check_named,
}
use saffui.Authz.Compile.Cycles.{
  find_cycles, search, search_fuel, collect, push_unseen, computed_names, computes_itself,
  exhausted,
}
use saffui.Authz.Compile.Schema.{
  compile_definitions, compile_types, check_once, check_type_name, compiled,
}
use saffui.Authz.Compile.Search.{Way}
use saffui.Authz.Compile.Search.Enough.{search-ends}
use saffui.Authz.Compile.Search.Closed.{search-Way_iff}
use saffui.Authz.Compile.Clean.{Clean}
use saffui.Authz.Compile.Sound.{IsSound, compile_definitions-Acyclic, compile_definitions-Sound}
use saffui.Authz.Compile.Acyclic.{Acyclic}

-- `definition user {}` and a document that its owner views.
abbrev definitions : List Definition
definitions =
    record { name = "user"; line = 1; declarations = [] }
    ∷ record {
      name = "document";
      line = 2;
      declarations =
          Declaration.relation "owner" 3
            (record { object_type = "user"; member = none; line = 3 } ∷ [])
          ∷ Declaration.permission "view" 4 (
              Expression.union
                (term (Expression.member "owner" 4) (term (Expression.member "owner" 4) no_terms)))
          ∷ [];
    }
    ∷ []

abbrev schema : CompiledSchema
schema = record {
  version = 1;
  types =
      ("user", record { relations = []; permissions = [] })
      ∷ (
        "document",
        record {
          relations = ("owner", record { object_type = "user"; member = none } ∷ []) ∷ [];
          permissions = ("view", Rule.union (cons (Rule.computed "owner") nil)) ∷ [];
        },
      )
      ∷ [];
}

compiles : compile_definitions (λ s. 0) definitions no_faults ≡ compiled schema
unfolding compile_definitions compile_types check_once check_type_name compile_type
    compile_declarations check_name compile_declaration compile_subjects compile_expression insert
    insert_subject find_cycles search search_fuel collect push_unseen computed_names rule_eqb
    has_member find_type check_member has_rule push_rule is_schema_name check_subject check_named
compiles = refl

compile_definitions-Acyclic_example : Acyclic schema.types
compile_definitions-Acyclic_example =
    compile_definitions-Acyclic (λ s. 0) definitions no_faults schema compiles

compile_definitions-Sound_example : Clean no_faults × All (IsSound definitions) definitions
compile_definitions-Sound_example =
    compile_definitions-Sound (λ s. 0) definitions no_faults schema compiles

-- Two permissions, each computed from the other.
abbrev round : List (String × Rule)
round = ("view", Rule.computed "edit") ∷ ("edit", Rule.computed "view") ∷ []

found : search (search_fuel round) round "view" ("view" ∷ []) [] ≡ computes_itself
unfolding search search_fuel collect push_unseen computed_names
found = refl

search-ends_example : search (search_fuel round) round "view" ("view" ∷ []) [] ≢ exhausted
search-ends_example = search-ends round "view"

search-Way_iff_example :
    (search (search_fuel round) round "view" ("view" ∷ []) [] ≡ computes_itself)
    ↔ Way round "view" "view"
search-Way_iff_example = search-Way_iff round "view"
