-- ===== src/Authz/Parse/Definitions.antt =====
-- Declarations, definitions and whole sources, read: the rest of `Parser`, and the loop of
-- `compile_schema`, of crates/saffui-core/src/authz/relations/schema.rs.
use saffui.Base.{
  ℕ, zero, suc, ◌+◌, ◌-◌, ◌*◌, Bool, true, false, ◌&&◌, Option, none, some, List, [], ◌∷◌, ◌++◌,
  text_keys, number_keys, ◌==◌, if◌then◌else◌, length,
}
use saffui.Authz.Compile.{expected, SchemaFaults, note, Subject, Declaration, Definition}
use saffui.Authz.Parse.{
  Token, name, mark, Lexeme, Parser, parsed, fault, spent, Parsed, ◌>>=◌, pure, peek, fail, advance,
  step_back, take_name, is_mark, take_mark, read_expression,
}

-- Fuel that is enough for an expression, and for a list.
abbrev pub expression_fuel : Parser → ℕ
expression_fuel p = 2 * length p.lexemes + 2

abbrev pub list_fuel : Parser → ℕ
list_fuel p = length p.lexemes + 1

unfoldable pub read_subject : Parsed Subject
unfolding take_name is_mark
read_subject = take_name "the type of a subject" >>= λ taken p.
    if is_mark b'#' p
    then (take_name "a member after `#`" >>= λ m.
          pure (record { object_type = taken.0; member = some m.0; line = taken.1 }))
        (advance p)
    else parsed (record { object_type = taken.0; member = none; line = taken.1 }) p

-- `while self.is_mark('|')`
unfoldable pub read_subjects : ℕ → List Subject → Parsed (List Subject)
unfolding is_mark read_subject
read_subjects zero subjects p = spent
read_subjects (suc fuel) subjects p =
    let next = (read_subject >>= λ s. read_subjects fuel (subjects ++ s ∷ [])) (advance p) in
    if is_mark b'|' p then next else parsed subjects p

unfoldable pub read_relation : Parsed Declaration
unfolding take_name take_mark read_subject read_subjects
read_relation = take_name "the name of a relation" >>= λ taken. take_mark b':' "`:`" >>= λ _.
    read_subject >>= λ s p.
    (read_subjects (list_fuel p) (s ∷ []) >>= λ subjects.
    pure (Declaration.relation taken.0 taken.1 subjects))
      p

unfoldable pub read_permission : Parsed Declaration
unfolding take_name take_mark
read_permission = take_name "the name of a permission" >>= λ taken. take_mark b'=' "`=`" >>= λ _ p.
    (read_expression (expression_fuel p) >>= λ x. pure (Declaration.permission taken.0 taken.1 x)) p

unfoldable pub read_declaration : Parsed Declaration
unfolding take_name read_relation read_permission
read_declaration = take_name "`relation` or `permission`" >>= λ keyword p.
    if keyword.0 == "relation"
    then read_relation p
    else if keyword.0 == "permission"
    then read_permission p
    else fail (expected "`relation` or `permission`") (step_back p)

abbrev pub is_at_end : Parser → Bool
is_at_end p = elim (peek p) [ none ↦ true | some lexeme ↦ false ]

-- `while !self.is_mark('}')`
unfoldable pub read_declarations : ℕ → List Declaration → Parsed (List Declaration)
unfolding is_mark read_declaration
read_declarations zero declarations p = spent
read_declarations (suc fuel) declarations p =
    let next = (read_declaration >>= λ d. read_declarations fuel (declarations ++ d ∷ [])) p in
    if is_mark b'}' p
    then parsed declarations p
    else if is_at_end p
    then fail (expected "`}`") p
    else next

unfoldable pub read_body : Parsed Definition
unfolding take_name take_mark read_declarations
read_body = take_name "the name of a type" >>= λ taken. take_mark b'{' "`{`" >>= λ _ p.
    (read_declarations (list_fuel p) [] >>= λ declarations. take_mark b'}' "`}`" >>= λ _.
    pure (record { name = taken.0; line = taken.1; declarations = declarations }))
      p

unfoldable pub read_definition : Parsed Definition
unfolding take_name read_body
read_definition = take_name "`definition`" >>= λ keyword p.
    if keyword.0 == "definition" then read_body p else fail (expected "`definition`") (step_back p)

-- Whether the search for the next definition goes on past a lexeme, and at what depth.
pub data Skip : Type 0 where
  stop : Skip
  onward : ℕ → Skip

abbrev pub skip_at : Token → ℕ → Skip
skip_at (mark c) depth =
    if c == b'{' then onward (depth + 1) else if c == b'}' then onward (depth - 1) else onward depth
skip_at (name found) depth = if found == "definition" && depth == 0 then stop else onward depth

-- Over the lexemes from where the parser stands, counted by what is left.
unfoldable pub skip_from : ℕ → ℕ → Parser → Parser
skip_from zero depth p = p
skip_from (suc left) depth p = elim (peek p) [
  | none ↦ p
  | some lexeme ↦ elim (skip_at lexeme.token depth) [
    | stop ↦ p
    | onward deeper ↦ skip_from left deeper (advance p)
  ]
]

unfoldable pub skip_to_next_definition : Parser → Parser
unfolding skip_from
skip_to_next_definition p = skip_from (length p.lexemes) 0 (record p { at = p.at + 1; nesting = 0 })

-- What was read of a source: its definitions and its faults, or none where the fuel was spent.
unfoldable pub read_definitions :
    ℕ → List Definition → SchemaFaults → Parser → Option (List Definition × SchemaFaults)
unfolding read_definition skip_to_next_definition
read_definitions zero definitions faults p = none
read_definitions (suc fuel) definitions faults p = elim (peek p) [
  | none ↦ some (definitions, faults)
  | some lexeme ↦ elim (read_definition p) [
    | parsed d q ↦ read_definitions fuel (definitions ++ d ∷ []) faults q
    | fault f q ↦
        read_definitions fuel definitions (note faults f.line f.message) (skip_to_next_definition q)
    | spent ↦ none
  ]
]

unfoldable pub read_source : List Lexeme → Option (List Definition × SchemaFaults)
unfolding read_definitions
read_source lexemes =
    read_definitions (length lexemes + 1) [] (record { shown = []; not_shown = 0 })
      (record { lexemes = lexemes; at = 0; nesting = 0 })
