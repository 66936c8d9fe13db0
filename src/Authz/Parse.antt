-- ===== src/Authz/Parse.antt =====
-- The parser of a schema of relations: `Parser` of
-- crates/saffui-core/src/authz/relations/schema.rs. What is taken is told by where the parser stands,
-- so the parser is kept after a fault too. A mark is its code point. The loops and the nesting are on
-- fuel, taken from the number of lexemes; Ends proves that it does not run out.
pub mod Definitions
pub mod Moves
pub mod Ends
pub mod Sources
pub mod Lexer
pub mod Whole
pub mod Tests
use saffui.Base.{
  ℕ, zero, suc, ◌+◌, ◌-◌, ◌*◌, String, Bool, true, false, ◌||◌, Option, none, some, List, [], ◌∷◌,
  ◌++◌, text_keys, number_keys, ◌==◌, if◌then◌else◌, length, get_elem?,
}
use saffui.Authz.Compile.{
  Message, expected, no_mixed_signs, nested_too_deep, SchemaFault, SchemaFaults, note, Expression,
  Expressions, no_terms, term, Subject, Declaration, Definition,
}

abbrev pub max_nesting : ℕ
max_nesting = 16

pub data Token : Type 0 where
  name : String → Token
  mark : ℕ → Token

pub record Lexeme : Type 0 where
  pub token : Token
  pub line : ℕ

pub record Parser : Type 0 where
  pub lexemes : List Lexeme
  pub at : ℕ
  pub nesting : ℕ

-- What a step of the parser gives.
pub data Answer (A : Type 0) : Type 0 where
  parsed : A → Parser → Answer A
  fault : SchemaFault → Parser → Answer A
  spent : Answer A

abbrev pub Parsed : Type 0 → Type 0
Parsed A = Parser → Answer A

infixl 5 ◌>>=◌
abbrev pub ◌>>=◌ : {A B : Type 0} → Parsed A → (A → Parsed B) → Parsed B
◌>>=◌ m f p = elim (m p) [ parsed a q ↦ f a q | fault e q ↦ fault e q | spent ↦ spent ]

abbrev pub pure : {A : Type 0} → A → Parsed A
pure a p = parsed a p

abbrev pub peek : Parser → Option Lexeme
peek p = get_elem? p.lexemes p.at

abbrev last_line : List Lexeme → ℕ
last_line [] = 1
last_line (x ∷ []) = x.line
last_line (x ∷ y ∷ xs) = last_line (y ∷ xs)

abbrev line_at : Option Lexeme → List Lexeme → ℕ
line_at (some lexeme) lexemes = lexeme.line
line_at none lexemes = last_line lexemes

abbrev pub fail : {A : Type 0} → Message → Parsed A
fail message p = fault (record { line = line_at (peek p) p.lexemes; message = message }) p

abbrev pub advance : Parser → Parser
advance p = record p { at = p.at + 1 }

-- `self.at -= 1`, after a lexeme was taken.
abbrev pub step_back : Parser → Parser
step_back p = record p { at = p.at - 1 }

abbrev pub name_of_token : Token → ℕ → String → Parsed (String × ℕ)
name_of_token (name found) line what p = parsed (found, line) (advance p)
name_of_token (mark c) line what p = fail (expected what) p

abbrev pub name_at : Option Lexeme → String → Parsed (String × ℕ)
name_at none what p = fail (expected what) p
name_at (some lexeme) what p = name_of_token lexeme.token lexeme.line what p

unfoldable pub take_name : String → Parsed (String × ℕ)
take_name what p = name_at (peek p) what p

abbrev pub mark_at : Option Lexeme → ℕ → Bool
mark_at none c = false
mark_at (some lexeme) c = elim lexeme.token [ name found ↦ false | mark found ↦ found == c ]

unfoldable pub is_mark : ℕ → Parser → Bool
is_mark c p = mark_at (peek p) c

abbrev pub word_at : Option Lexeme → String → Bool
word_at none word = false
word_at (some lexeme) word = elim lexeme.token [ name found ↦ found == word | mark found ↦ false ]

unfoldable pub is_word : String → Parser → Bool
is_word word p = word_at (peek p) word

unfoldable pub take_mark : ℕ → String → Parsed Unit
unfolding is_mark
take_mark c what p = if is_mark c p then parsed tt (advance p) else fail (expected what) p

abbrev pub append_term : Expressions → Expression → Expressions
append_term no_terms t = term t no_terms
append_term (term x xs) t = term x (append_term xs t)

abbrev join : ℕ → Expressions → Expression
join c terms = if c == b'+' then Expression.union terms else Expression.intersection terms

abbrev pub enter : Parsed Unit
enter p = parsed tt (record p { at = p.at + 1; nesting = p.nesting + 1 })

abbrev pub leave : Parsed Unit
leave p = parsed tt (record p { nesting = p.nesting - 1 })

-- A member, or a walk to it.
unfoldable pub read_member : Parsed Expression
unfolding take_name is_word
read_member = take_name "a member" >>= λ taken p.
    if is_word "from" p
    then (take_name "a relation after `from`" >>= λ through.
          pure (Expression.arrow taken.0 through.0 taken.1))
        (advance p)
    else parsed (Expression.member taken.0 taken.1) p

-- The end of a sum or an intersection.
unfoldable pub end_terms : ℕ → Expressions → Parsed Expression
unfolding is_mark
end_terms joined terms p =
    if is_mark b'+' p || is_mark b'&' p then fail no_mixed_signs p else parsed (join joined terms) p

unfoldable mutual
  unfolding is_mark take_mark read_member end_terms

  pub read_expression : ℕ → Parsed Expression
  read_expression zero p = spent
  read_expression (suc fuel) p =
      (read_term fuel >>= λ first q.
      if is_mark b'+' q
      then read_terms fuel b'+' (term first no_terms) q
      else if is_mark b'&' q
      then read_terms fuel b'&' (term first no_terms) q
      else parsed first q)
        p

  -- `while self.is_mark(joined)`
  pub read_terms : ℕ → ℕ → Expressions → Parsed Expression
  read_terms zero joined terms p = spent
  read_terms (suc fuel) joined terms p =
      let next =
        (read_term fuel >>= λ t. read_terms fuel joined (append_term terms t)) (advance p) in
      if is_mark joined p then next else end_terms joined terms p

  pub read_term : ℕ → Parsed Expression
  read_term zero p = spent
  read_term (suc fuel) p =
      let inner =
        (enter >>= λ _.
        read_expression fuel >>= λ x. take_mark b')' "`)`" >>= λ _. leave >>= λ _. pure x)
          p in
      if is_mark b'(' p
      then if p.nesting == max_nesting then fail nested_too_deep p else inner
      else read_member p
