-- ===== src/Authz/Parse/Moves.antt =====
-- How far each step of the parser of crates/saffui-core/src/authz/relations/schema.rs moves on.
use saffui.Base.{
  ℕ, zero, suc, ◌+◌, ◌≤◌, ◌<◌, ◌≡◌, refl, String, Bool, true, false, ◌||◌, Option, none, some, List,
  [], ◌∷◌, text_keys, number_keys, if◌then◌else◌, length, get_elem?, arith, ◌∙◌,
}
use saffui.Authz.Compile.{Message, expected, no_mixed_signs, Expression, Expressions}
use saffui.Authz.Parse.{
  Token, name, mark, Lexeme, Parser, Answer, parsed, fault, spent, Parsed, ◌>>=◌, pure, peek, fail,
  advance, take_name, name_at, name_of_token, word_at, is_mark, mark_at, is_word, take_mark,
  read_member, end_terms, leave, step_back,
}

-- The parser stands in its lexemes, or at their end.
abbrev pub Stands : Parser → Type 0
Stands p = p.at ≤ length p.lexemes

-- A step that ends, some lexemes further when it reads, and no less far when it tells a fault.
unfoldable pub Moves : {A : Type 0} → ℕ → Parser → Answer A → Type 0
Moves n p (parsed a q) = (q.lexemes ≡ p.lexemes) × (p.at + n ≤ q.at) × Stands q
Moves n p (fault f q) = (q.lexemes ≡ p.lexemes) × (p.at ≤ q.at) × Stands q
Moves n p spent = ⊥

-- A step from a parser that stands further.
pub onward-Moves :
    {A : Type 0} (m n : ℕ) (p q : Parser) (r : Answer A)
    → q.lexemes ≡ p.lexemes
    → p.at + m ≤ q.at
    → Moves n q r
    → Moves (m + n) p r
unfolding Moves
onward-Moves m n p q (parsed a s) e l h = (h.0 ∙ e, omega (arith, l, h.1), h.2)
onward-Moves m n p q (fault f s) e l h = (h.0 ∙ e, omega (arith, l, h.1), h.2)
onward-Moves m n p q spent e l h = h

pub after-Moves :
    {A B : Type 0} (m n : ℕ) (p : Parser) (r : Answer A) (f : A → Parsed B)
    → Moves m p r
    → ((a : A) (q : Parser)
        → q.lexemes ≡ p.lexemes
        → p.at + m ≤ q.at
        → Stands q
        → Moves n q (f a q))
    → Moves (m + n) p (elim r [ parsed a q ↦ f a q | fault e q ↦ fault e q | spent ↦ spent ])
unfolding Moves
after-Moves m n p (parsed a q) f h k = onward-Moves m n p q (f a q) h.0 h.1 (k a q h.0 h.1 h.2)
after-Moves m n p (fault e q) f h k = h
after-Moves m n p spent f h k = h

pub peek_within : (xs : List Lexeme) (i : ℕ) (x : Lexeme) → get_elem? xs i ≡ some x → i < length xs
peek_within [] i x e = absurd (ground (arith, e))
peek_within (y ∷ xs) zero x e = omega arith
peek_within (y ∷ xs) (suc i) x e = omega (arith, peek_within xs i x e)

-- A fault where the parser stands.
pub fail-Moves :
    (A : Type 0) (n : ℕ) (message : Message) (p : Parser)
    → Stands p
    → Moves {A = A} n p (fail {A = A} message p)
unfolding Moves
fail-Moves A n message p h = (refl, omega arith, h)

pub advance-Moves :
    {A : Type 0} (a : A) (p : Parser)
    → p.at < length p.lexemes
    → Moves {A = A} 1 p (parsed a (advance p))
unfolding Moves
advance-Moves a p h = (refl, omega arith, omega (arith, h))

token-Moves :
    (t : Token) (line : ℕ) (what : String) (p : Parser)
    → p.at < length p.lexemes
    → Moves {A = String × ℕ} 1 p (name_of_token t line what p)
token-Moves (name found) line what p h = advance-Moves (found, line) p h
token-Moves (mark c) line what p h = fail-Moves (String × ℕ) 1 (expected what) p (omega (arith, h))

name_at-Moves :
    (o : Option Lexeme) (what : String) (p : Parser)
    → peek p ≡ o
    → Stands p
    → Moves {A = String × ℕ} 1 p (name_at o what p)
name_at-Moves none what p e h = fail-Moves (String × ℕ) 1 (expected what) p h
name_at-Moves (some x) what p e h =
    token-Moves x.token x.line what p (peek_within p.lexemes p.at x e)

pub take_name-Moves :
    (what : String) (p : Parser) → Stands p → Moves {A = String × ℕ} 1 p (take_name what p)
unfolding take_name
take_name-Moves what p h = name_at-Moves (peek p) what p refl h

-- A mark is found in the lexemes only.
mark_within :
    (o : Option Lexeme) (c : ℕ) (p : Parser)
    → peek p ≡ o
    → mark_at o c ≡ true
    → p.at < length p.lexemes
mark_within none c p e h = absurd (ground (arith, h))
mark_within (some x) c p e h = peek_within p.lexemes p.at x e

pub is_mark-within : (c : ℕ) (p : Parser) → is_mark c p ≡ true → p.at < length p.lexemes
unfolding is_mark
is_mark-within c p h = mark_within (peek p) c p refl h

word_within :
    (o : Option Lexeme) (word : String) (p : Parser)
    → peek p ≡ o
    → word_at o word ≡ true
    → p.at < length p.lexemes
word_within none word p e h = absurd (ground (arith, h))
word_within (some x) word p e h = peek_within p.lexemes p.at x e

pub is_word-within : (word : String) (p : Parser) → is_word word p ≡ true → p.at < length p.lexemes
unfolding is_word
is_word-within word p h = word_within (peek p) word p refl h

-- A test decides between two steps.
pub if-Moves :
    {A : Type 0} (b : Bool) (n : ℕ) (p : Parser) (x y : Answer A)
    → (b ≡ true → Moves n p x)
    → (b ≡ false → Moves n p y)
    → Moves n p (if b then x else y)
if-Moves true n p x y f g = f refl
if-Moves false n p x y f g = g refl

pub take_mark-Moves :
    (c : ℕ) (what : String) (p : Parser) → Stands p → Moves {A = Unit} 1 p (take_mark c what p)
unfolding take_mark
take_mark-Moves c what p h =
    if-Moves (is_mark c p) 1 p (parsed tt (advance p)) (fail (expected what) p)
      (λ e. advance-Moves tt p (is_mark-within c p e)) (λ e. fail-Moves Unit 1 (expected what) p h)

pub parsed-Moves : {A : Type 0} (a : A) (p : Parser) → Stands p → Moves {A = A} 0 p (parsed a p)
unfolding Moves
parsed-Moves a p h = (refl, omega arith, h)

-- A step from one lexeme further.
pub further-Moves :
    {A : Type 0} (n : ℕ) (p : Parser) (r : Answer A) → Moves n (advance p) r → Moves (1 + n) p r
unfolding Moves
further-Moves n p (parsed a q) h = (h.0, omega (arith, h.1), h.2)
further-Moves n p (fault f q) h = (h.0, omega (arith, h.1), h.2)
further-Moves n p spent h = h

pub weaken-Moves :
    {A : Type 0} (m n : ℕ) (p : Parser) (r : Answer A) → m ≤ n → Moves n p r → Moves m p r
unfolding Moves
weaken-Moves m n p (parsed a q) l h = (h.0, omega (arith, h.1, l), h.2)
weaken-Moves m n p (fault f q) l h = h
weaken-Moves m n p spent l h = h

pub read_member-Moves : (p : Parser) → Stands p → Moves {A = Expression} 1 p (read_member p)
unfolding read_member
read_member-Moves p h =
    after-Moves 1 0 p (take_name "a member" p) _ (take_name-Moves "a member" p h) (λ taken q e l s.
      if-Moves (is_word "from" q) 0 q _ _
        (λ w. weaken-Moves 0 2 q _ (omega arith) (
          further-Moves 1 q _ (
            after-Moves 1 0 (advance q) (take_name "a relation after `from`" (advance q)) _
              (take_name-Moves "a relation after `from`" (advance q)
                (omega (arith, is_word-within "from" q w)))
              (λ through r e l s. parsed-Moves _ r s))))
        (λ w. parsed-Moves _ q s))

pub end_terms-Moves :
    (joined : ℕ) (terms : Expressions) (p : Parser)
    → Stands p
    → Moves {A = Expression} 0 p (end_terms joined terms p)
unfolding end_terms
end_terms-Moves joined terms p h =
    if-Moves (is_mark b'+' p || is_mark b'&' p) 0 p _ _
      (λ e. fail-Moves Expression 0 no_mixed_signs p h) (λ e. parsed-Moves _ p h)

pub leave-Moves :
    (x : Expression) (p : Parser)
    → Stands p
    → Moves {A = Expression} 0 p ((leave >>= λ _. pure x) p)
unfolding Moves
leave-Moves x p h = (refl, omega arith, h)

-- A step whose fault may go back to where the parser stood.
pub from-Moves :
    {A B : Type 0} (m n : ℕ) (p : Parser) (r : Answer A) (f : A → Parsed B)
    → Moves m p r
    → ((a : A) (q : Parser)
        → q.lexemes ≡ p.lexemes
        → p.at + m ≤ q.at
        → Stands q
        → Moves n p (f a q))
    → Moves n p (elim r [ parsed a q ↦ f a q | fault e q ↦ fault e q | spent ↦ spent ])
unfolding Moves
from-Moves m n p (parsed a q) f h k = k a q h.0 h.1 h.2
from-Moves m n p (fault e q) f h k = h
from-Moves m n p spent f h k = h

pub back-Moves :
    (A : Type 0) (n : ℕ) (message : Message) (p q : Parser)
    → q.lexemes ≡ p.lexemes
    → p.at + 1 ≤ q.at
    → Stands q
    → Moves {A = A} n p (fail {A = A} message (step_back q))
unfolding Moves
back-Moves A n message p q e l s = (e, omega (arith, l), omega (arith, s))
