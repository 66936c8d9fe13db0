-- ===== src/Authz/Parse/Ends.antt =====
-- The parser of crates/saffui-core/src/authz/relations/schema.rs always ends.
use saffui.Base.{ℕ, zero, suc, ◌+◌, ◌*◌, ◌≤◌, refl, text_keys, number_keys, ◌==◌, length, arith, ap}
use saffui.Authz.Compile.{nested_too_deep, Expression, Expressions, no_terms, term}
use saffui.Authz.Parse.{
  Parser, ◌>>=◌, pure, advance, is_mark, take_mark, leave, append_term, max_nesting,
  read_expression, read_terms, read_term,
}
use saffui.Authz.Parse.Moves.{
  Stands, Moves, after-Moves, fail-Moves, if-Moves, is_mark-within, take_mark-Moves, parsed-Moves,
  further-Moves, onward-Moves, leave-Moves, weaken-Moves, read_member-Moves, end_terms-Moves,
}

-- Fuel that is enough, by what is left to read.
abbrev Enough : ℕ → ℕ → Parser → Type 0
Enough extra fuel p = 2 * length p.lexemes + extra ≤ 2 * p.at + fuel

closed :
    (x : Expression) (p : Parser)
    → Stands p
    → Moves {A = Expression} 0 p ((take_mark b')' "`)`" >>= λ _. leave >>= λ _. pure x) p)
closed x p h = weaken-Moves 0 1 p _ (omega arith) (
    after-Moves 1 0 p (take_mark b')' "`)`" p) _ (take_mark-Moves b')' "`)`" p h)
      (λ _ q e l s. leave-Moves x q s))

mutual
  unfolding read_expression

  pub read_expression-Moves :
      (fuel : ℕ) (p : Parser)
      → Stands p
      → Enough 2 fuel p
      → Moves {A = Expression} 1 p (read_expression fuel p)
  read_expression-Moves zero p h k = absurd (omega (arith, h, k))
  read_expression-Moves (suc fuel) p h k =
      after-Moves 1 0 p (read_term fuel p) _ (read_term-Moves fuel p h (omega (arith, k)))
        (λ first q e l s.
          let still : Enough 1 fuel q = omega (arith, k, l, ap length e) in
          if-Moves (is_mark b'+' q) 0 q _ _
            (λ _. read_terms-Moves fuel b'+' (term first no_terms) q s still)
            (λ _.
              if-Moves (is_mark b'&' q) 0 q _ _
                (λ _. read_terms-Moves fuel b'&' (term first no_terms) q s still)
                (λ _. parsed-Moves first q s)))

  read_terms-Moves :
      (fuel joined : ℕ) (terms : Expressions) (p : Parser)
      → Stands p
      → Enough 1 fuel p
      → Moves {A = Expression} 0 p (read_terms fuel joined terms p)
  read_terms-Moves zero joined terms p h k = absurd (omega (arith, h, k))
  read_terms-Moves (suc fuel) joined terms p h k =
      if-Moves (is_mark joined p) 0 p _ _
        (λ m. weaken-Moves 0 2 p _ (omega arith) (
          further-Moves 1 p _ (
            after-Moves 1 0 (advance p) (read_term fuel (advance p)) _
              (read_term-Moves fuel (advance p) (omega (arith, is_mark-within joined p m))
                (omega (arith, k)))
              (λ t q e l s.
                read_terms-Moves fuel joined (append_term terms t) q s
                  (omega (arith, k, l, ap length e))))))
        (λ m. end_terms-Moves joined terms p h)

  read_term-Moves :
      (fuel : ℕ) (p : Parser)
      → Stands p
      → Enough 1 fuel p
      → Moves {A = Expression} 1 p (read_term fuel p)
  read_term-Moves zero p h k = absurd (omega (arith, h, k))
  read_term-Moves (suc fuel) p h k =
      if-Moves (is_mark b'(' p) 1 p _ _
        (λ m.
          if-Moves (p.nesting == max_nesting) 1 p _ _
            (λ _. fail-Moves Expression 1 nested_too_deep p h)
            (λ _.
              let q : Parser = record p { at = p.at + 1; nesting = p.nesting + 1 } in
              weaken-Moves 1 2 p _ (omega arith) (
                onward-Moves 1 1 p q _ refl (omega arith) (
                  after-Moves 1 0 q (read_expression fuel q) _
                    (read_expression-Moves fuel q (omega (arith, is_mark-within b'(' p m))
                      (omega (arith, k)))
                    (λ x r e l s. closed x r s)))))
        (λ m. read_member-Moves p h)
