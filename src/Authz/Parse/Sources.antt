-- ===== src/Authz/Parse/Sources.antt =====
-- Every source is read to its end: the loops over subjects, declarations and definitions of
-- crates/saffui-core/src/authz/relations/schema.rs.
use saffui.Base.{
  ℕ, zero, suc, ◌+◌, ◌≤◌, ◌≡◌, ◌≢◌, refl, none, List, [], ◌∷◌, ◌++◌, text_keys, number_keys, ◌==◌,
  length, arith, ap, Option-cases, ◌⊎◌, inl, inr,
}
use saffui.Authz.Compile.{
  expected, SchemaFault, SchemaFaults, note, Subject, Declaration, Definition,
}
use saffui.Authz.Parse.{
  Lexeme, Parser, Answer, parsed, fault, spent, peek, advance, take_name, is_mark, take_mark,
  read_expression,
}
use saffui.Authz.Parse.Definitions.{
  expression_fuel, list_fuel, read_subject, read_subjects, read_relation, read_permission,
  read_declaration, is_at_end, read_declarations, read_body, read_definition, skip_from,
  skip_to_next_definition, read_definitions, read_source, skip_at, Skip, stop, onward,
}
use saffui.Authz.Parse.Moves.{
  Stands, Moves, after-Moves, from-Moves, back-Moves, fail-Moves, if-Moves, is_mark-within,
  take_mark-Moves, parsed-Moves, further-Moves, onward-Moves, weaken-Moves, take_name-Moves,
  peek_within,
}
use saffui.Authz.Parse.Ends.{read_expression-Moves}

read_subject-Moves : (p : Parser) → Stands p → Moves {A = Subject} 1 p (read_subject p)
unfolding read_subject
read_subject-Moves p h =
    after-Moves 1 0 p (take_name "the type of a subject" p) _
      (take_name-Moves "the type of a subject" p h)
      (λ taken q e l s.
        if-Moves (is_mark b'#' q) 0 q _ _
          (λ m. weaken-Moves 0 2 q _ (omega arith) (
            further-Moves 1 q _ (
              after-Moves 1 0 (advance q) (take_name "a member after `#`" (advance q)) _
                (take_name-Moves "a member after `#`" (advance q)
                  (omega (arith, is_mark-within b'#' q m)))
                (λ member r e l s. parsed-Moves _ r s))))
          (λ m. parsed-Moves _ q s))

-- Fuel for a list, by what is left to read.
abbrev Enough : ℕ → Parser → Type 0
Enough fuel p = length p.lexemes + 1 ≤ p.at + fuel

read_subjects-Moves :
    (fuel : ℕ) (subjects : List Subject) (p : Parser)
    → Stands p
    → Enough fuel p
    → Moves {A = List Subject} 0 p (read_subjects fuel subjects p)
unfolding read_subjects
read_subjects-Moves zero subjects p h k = absurd (omega (arith, h, k))
read_subjects-Moves (suc fuel) subjects p h k =
    if-Moves (is_mark b'|' p) 0 p _ _
      (λ m. weaken-Moves 0 2 p _ (omega arith) (
        further-Moves 1 p _ (
          after-Moves 1 0 (advance p) (read_subject (advance p)) _
            (read_subject-Moves (advance p) (omega (arith, is_mark-within b'|' p m)))
            (λ s q e l t.
              read_subjects-Moves fuel (subjects ++ s ∷ []) q t
                (omega (arith, k, l, ap length e))))))
      (λ m. parsed-Moves subjects p h)

read_relation-Moves : (p : Parser) → Stands p → Moves {A = Declaration} 1 p (read_relation p)
unfolding read_relation
read_relation-Moves p h = weaken-Moves 1 3 p _ (omega arith) (
    after-Moves 1 2 p (take_name "the name of a relation" p) _
      (take_name-Moves "the name of a relation" p h)
      (λ taken q e l s.
        after-Moves 1 1 q (take_mark b':' "`:`" q) _ (take_mark-Moves b':' "`:`" q s) (λ _ r e l s.
          after-Moves 1 0 r (read_subject r) _ (read_subject-Moves r s) (λ first u e l s.
            after-Moves 0 0 u (read_subjects (list_fuel u) (first ∷ []) u) _
              (read_subjects-Moves (list_fuel u) (first ∷ []) u s (omega arith))
              (λ subjects v e l s. parsed-Moves _ v s)))))

read_permission-Moves : (p : Parser) → Stands p → Moves {A = Declaration} 1 p (read_permission p)
unfolding read_permission
read_permission-Moves p h = weaken-Moves 1 3 p _ (omega arith) (
    after-Moves 1 2 p (take_name "the name of a permission" p) _
      (take_name-Moves "the name of a permission" p h)
      (λ taken q e l s.
        after-Moves 1 1 q (take_mark b'=' "`=`" q) _ (take_mark-Moves b'=' "`=`" q s) (λ _ r e l s.
          after-Moves 1 0 r (read_expression (expression_fuel r) r) _
            (read_expression-Moves (expression_fuel r) r s (omega arith))
            (λ x u e l s. parsed-Moves _ u s))))

read_declaration-Moves : (p : Parser) → Stands p → Moves {A = Declaration} 1 p (read_declaration p)
unfolding read_declaration
read_declaration-Moves p h =
    from-Moves 1 1 p (take_name "`relation` or `permission`" p) _
      (take_name-Moves "`relation` or `permission`" p h)
      (λ keyword q e l s.
        if-Moves (keyword.0 == "relation") 1 p _ _
          (λ _.
            weaken-Moves 1 2 p _ (omega arith)
              (onward-Moves 1 1 p q _ e l (read_relation-Moves q s)))
          (λ _.
            if-Moves (keyword.0 == "permission") 1 p _ _
              (λ _.
                weaken-Moves 1 2 p _ (omega arith)
                  (onward-Moves 1 1 p q _ e l (read_permission-Moves q s)))
              (λ _. back-Moves Declaration 1 (expected "`relation` or `permission`") p q e l s)))

read_declarations-Moves :
    (fuel : ℕ) (declarations : List Declaration) (p : Parser)
    → Stands p
    → Enough fuel p
    → Moves {A = List Declaration} 0 p (read_declarations fuel declarations p)
unfolding read_declarations
read_declarations-Moves zero declarations p h k = absurd (omega (arith, h, k))
read_declarations-Moves (suc fuel) declarations p h k =
    if-Moves (is_mark b'}' p) 0 p _ _ (λ m. parsed-Moves declarations p h)
      (λ m.
        if-Moves (is_at_end p) 0 p _ _ (λ _. fail-Moves (List Declaration) 0 (expected "`}`") p h)
          (λ _. weaken-Moves 0 1 p _ (omega arith) (
            after-Moves 1 0 p (read_declaration p) _ (read_declaration-Moves p h) (λ d q e l s.
              read_declarations-Moves fuel (declarations ++ d ∷ []) q s
                (omega (arith, k, l, ap length e))))))

read_body-Moves : (p : Parser) → Stands p → Moves {A = Definition} 1 p (read_body p)
unfolding read_body
read_body-Moves p h = weaken-Moves 1 3 p _ (omega arith) (
    after-Moves 1 2 p (take_name "the name of a type" p) _
      (take_name-Moves "the name of a type" p h)
      (λ taken q e l s.
        after-Moves 1 1 q (take_mark b'{' "`{`" q) _ (take_mark-Moves b'{' "`{`" q s) (λ _ r e l s.
          after-Moves 0 1 r (read_declarations (list_fuel r) [] r) _
            (read_declarations-Moves (list_fuel r) [] r s (omega arith))
            (λ declarations u e l s.
              after-Moves 1 0 u (take_mark b'}' "`}`" u) _ (take_mark-Moves b'}' "`}`" u s)
                (λ _ v e l s. parsed-Moves _ v s)))))

read_definition-Moves : (p : Parser) → Stands p → Moves {A = Definition} 1 p (read_definition p)
unfolding read_definition
read_definition-Moves p h =
    from-Moves 1 1 p (take_name "`definition`" p) _ (take_name-Moves "`definition`" p h)
      (λ keyword q e l s.
        if-Moves (keyword.0 == "definition") 1 p _ _
          (λ _.
            weaken-Moves 1 2 p _ (omega arith) (onward-Moves 1 1 p q _ e l (read_body-Moves q s)))
          (λ _. back-Moves Definition 1 (expected "`definition`") p q e l s))

-- A parser that reads the same lexemes, no less far.
abbrev Onward : Parser → Parser → Type 0
Onward p q = (q.lexemes ≡ p.lexemes) × (p.at ≤ q.at)

Skip-cases : (s : Skip) → (s ≡ stop) ⊎ ((d : ℕ) × (s ≡ onward d))
Skip-cases stop = inl refl
Skip-cases (onward d) = inr (d, refl)

skip_from-Onward : (left depth : ℕ) (p : Parser) → Onward p (skip_from left depth p)
unfolding skip_from
skip_from-Onward zero depth p = (refl, omega arith)
skip_from-Onward (suc left) depth p = elim (Option-cases (peek p)) [
  | inl n ↦ ground (arith, n)
  | inr x ↦ elim (Skip-cases (skip_at x.0.token depth)) [
    | inl e ↦ ground (arith, x.1, e)
    | inr d ↦ ground (arith, x.1, d.1, skip_from-Onward left d.0 (advance p))
  ]
]

-- Fuel for the definitions: one more than what is left, and some at the end.
abbrev EnoughLeft : ℕ → Parser → Type 0
EnoughLeft fuel p = (length p.lexemes + 1 ≤ p.at + fuel) × (1 ≤ fuel)

-- A definition that is read, or whose fault is told, and where the parser stands then.
definition_cases :
    (p : Parser)
    → Stands p
    → ((d : Definition) × (q : Parser) × (read_definition p ≡ parsed d q)
        × (q.lexemes ≡ p.lexemes)
        × (p.at + 1 ≤ q.at))
      ⊎ ((f : SchemaFault) × (q : Parser) × (read_definition p ≡ fault f q)
          × (q.lexemes ≡ p.lexemes)
          × (p.at ≤ q.at))
unfolding Moves
definition_cases p h = split (read_definition p) refl (read_definition-Moves p h)
  where
    split :
        (r : Answer Definition)
        → read_definition p ≡ r
        → Moves {A = Definition} 1 p r
        → ((d : Definition) × (q : Parser) × (read_definition p ≡ parsed d q)
            × (q.lexemes ≡ p.lexemes)
            × (p.at + 1 ≤ q.at))
          ⊎ ((f : SchemaFault) × (q : Parser) × (read_definition p ≡ fault f q)
              × (q.lexemes ≡ p.lexemes)
              × (p.at ≤ q.at))
    split (parsed d q) e m = inl (d, q, e, m.0, m.1)
    split (fault f q) e m = inr (f, q, e, m.0, m.1)
    split spent e m = absurd m

read_definitions-some :
    (fuel : ℕ) (definitions : List Definition) (faults : SchemaFaults) (p : Parser)
    → EnoughLeft fuel p
    → read_definitions fuel definitions faults p ≢ none
unfolding read_definitions skip_to_next_definition
read_definitions-some zero definitions faults p k e = absurd (omega (arith, k.1))
read_definitions-some (suc fuel) definitions faults p k e = elim (Option-cases (peek p)) [
  | inl n ↦ absurd (ground (arith, e, n))
  | inr x ↦
      let within = peek_within p.lexemes p.at x.0 x.1 in
      elim (definition_cases p (omega (arith, within))) [
        | inl (d, q, s, same, moved) ↦
            read_definitions-some fuel (definitions ++ d ∷ []) faults q
              (omega (arith, k.0, within, moved, ap length same), omega (arith, k.0, within))
              (ground (arith, e, x.1, s))
        | inr (f, q, s, same, moved) ↦
            let skipped =
              skip_from-Onward (length q.lexemes) 0 (record q { at = q.at + 1; nesting = 0 }) in
            read_definitions-some fuel definitions (note faults f.line f.message)
              (skip_to_next_definition q)
              (
                omega (arith, k.0, within, moved, ap length same, skipped.1, ap length skipped.0),
                omega (arith, k.0, within),
              )
              (ground (arith, e, x.1, s))
      ]
]

-- Whatever the lexemes are, the parser reads them to their end: no loop runs out of fuel, and every
-- definition is read or its fault is told.
pub read_source-some : (lexemes : List Lexeme) → read_source lexemes ≢ none
unfolding read_source
read_source-some lexemes =
    read_definitions-some (length lexemes + 1) [] (record { shown = []; not_shown = 0 })
      (record { lexemes = lexemes; at = 0; nesting = 0 }) (omega arith, omega arith)
