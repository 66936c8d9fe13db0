-- ===== src/Authz/Condition.antt =====
-- The conditions of policies, evaluated: crates/saffui-core/src/authz/policy.rs. Identifiers and instants are numbers.
-- The parameters are the floats of the machine, the reading of an RFC 3339 instant, and the reading
-- of a document of conditions, which serde derives.

use Prim.Native.Nat.{Ordering}
use text.Mathlib.Text.{starts_with as text_starts_with}
use saffui.Base.{
  ℕ, String, Bool, true, false, ◌&&◌, ◌||◌, Option, none, some, List, leb, ltb, number_keys,
  if◌then◌else◌, contains as list_contains,
}
use saffui.Base.Text.{contains_text, ends_with as text_ends_with}
use saffui.Json.{
  Number, float, Value, Items, nil, cons, Members, Floats, get_member, is_null, as_str, as_f64,
  string_items, is_equal, value_eqb,
}

pub data SubjectAttribute : Type 0 where
  id username email email_verified client_id scope : SubjectAttribute

pub data Operand : Type 0 where
  subject : SubjectAttribute → Operand
  resource : String → Operand
  value : Value → Operand

pub data Operator : Type 0 where
  equals contains starts_with ends_with is_in gt gte lt lte present : Operator

pub data Condition : Type 0 where
  role group : ℕ → Condition
  attribute : Operand → Operator → Option Operand → Condition
  time : Option String → Option String → Condition

pub record SubjectFacts : Type 0 where
  pub id : String
  pub username : Option String
  pub email : Option String
  pub email_verified : Option Bool
  pub client_id : String
  pub scopes : List String
  pub roles : List ℕ
  pub groups : List ℕ

pub record Facts : Type 0 where
  pub subject : SubjectFacts
  pub resource : Members
  pub now : ℕ

pub data Truth : Type 0 where
  holds fails unknown : Truth

-- What the evaluation reads by code that is not the program's.
pub record Readers : Type 0 where
  pub floats : Floats
  pub read_instant : String → Option ℕ
  pub deserialize : Value → Option (List Condition)

unfoldable pub truth_of : Bool → Truth
truth_of true = holds
truth_of false = fails

abbrev text_value : Option String → Option Value
text_value (some text) = some (Value.string text)
text_value none = none

unfoldable pub read_attribute : SubjectFacts → SubjectAttribute → Option Value
read_attribute s SubjectAttribute.id = some (Value.string s.id)
read_attribute s SubjectAttribute.username = text_value s.username
read_attribute s SubjectAttribute.email = text_value s.email
read_attribute s SubjectAttribute.email_verified = elim s.email_verified [
  | some b ↦ some (Value.bool b)
  | none ↦ none
]
read_attribute s SubjectAttribute.client_id = some (Value.string s.client_id)
read_attribute s SubjectAttribute.scope = some (Value.array (string_items s.scopes))

abbrev not_null : Option Value → Option Value
not_null none = none
not_null (some v) = if is_null v then none else some v

unfoldable pub read_operand : Operand → Facts → Option Value
unfolding read_attribute get_member
read_operand (Operand.subject a) facts = read_attribute facts.subject a
read_operand (Operand.resource name) facts = not_null (get_member facts.resource name)
read_operand (Operand.value v) facts = some v

abbrev is_f64 : Number → Bool
is_f64 (float f) = true
is_f64 _ = false

-- Two numbers are compared as floats when one of them is a float.
unfoldable pub is_same_value : Floats → Value → Value → Bool
unfolding value_eqb
is_same_value fl (Value.number m) (Value.number n) =
    if is_f64 m || is_f64 n
    then elim (as_f64 fl (Value.number m)) [
      | none ↦ false
      | some f ↦ elim (as_f64 fl (Value.number n)) [
        | none ↦ false
        | some g ↦ is_equal (fl.partial_cmp f g)
      ]
    ]
    else value_eqb fl (Value.number m) (Value.number n)
is_same_value fl x y = value_eqb fl x y

any_same : Floats → Value → Items → Bool
unfolding is_same_value
any_same fl left nil = false
any_same fl left (cons item items) = is_same_value fl item left || any_same fl left items

abbrev both {ℓ} : {A : Type ℓ} → Option A → Option A → (A → A → Bool) → Option Bool
both (some a) (some b) f = some (f a b)
both _ _ f = none

-- The order of two floats: no test but an order that answers.
abbrev is_gt : Option Ordering → Bool
is_gt (some Ordering.gt) = true
is_gt _ = false

abbrev is_ge : Option Ordering → Bool
is_ge (some Ordering.lt) = false
is_ge none = false
is_ge _ = true

abbrev is_lt : Option Ordering → Bool
is_lt (some Ordering.lt) = true
is_lt _ = false

abbrev is_le : Option Ordering → Bool
is_le (some Ordering.gt) = false
is_le none = false
is_le _ = true

contains_value : Floats → Value → Value → Option Bool
unfolding any_same
contains_value fl (Value.string s) (Value.array items) = some (any_same fl (Value.string s) items)
contains_value fl (Value.number n) (Value.array items) = some (any_same fl (Value.number n) items)
contains_value fl (Value.bool b) (Value.array items) = some (any_same fl (Value.bool b) items)
contains_value fl _ _ = none

answer : Floats → Operator → Value → Value → Option Bool
unfolding is_same_value contains_value contains_text text_ends_with
answer fl Operator.equals l r = some (is_same_value fl l r)
answer fl Operator.contains l r = both (as_str l) (as_str r) contains_text
answer fl Operator.starts_with l r = both (as_str l) (as_str r) text_starts_with
answer fl Operator.ends_with l r = both (as_str l) (as_str r) text_ends_with
answer fl Operator.is_in l r = contains_value fl l r
answer fl Operator.gt l r = both (as_f64 fl l) (as_f64 fl r) (λ f g. is_gt (fl.partial_cmp f g))
answer fl Operator.gte l r = both (as_f64 fl l) (as_f64 fl r) (λ f g. is_ge (fl.partial_cmp f g))
answer fl Operator.lt l r = both (as_f64 fl l) (as_f64 fl r) (λ f g. is_lt (fl.partial_cmp f g))
answer fl Operator.lte l r = both (as_f64 fl l) (as_f64 fl r) (λ f g. is_le (fl.partial_cmp f g))
answer fl Operator.present l r = none

-- Only `present` answers on what is missing.
unfoldable pub compare : Floats → Operator → Option Value → Option Value → Truth
unfolding answer truth_of
compare fl Operator.present none r = fails
compare fl Operator.present (some l) r = holds
compare fl op none r = unknown
compare fl op (some l) none = unknown
compare fl op (some l) (some r) = elim (answer fl op l r) [ none ↦ unknown | some b ↦ truth_of b ]

-- A bound is absent, reads as an instant, or does not read.
pub data Bound : Type 0 where
  absent unreadable : Bound
  at : ℕ → Bound

unfoldable pub read_bound : Readers → Option String → Bound
read_bound rd none = absent
read_bound rd (some text) = elim (rd.read_instant text) [ none ↦ unreadable | some t ↦ at t ]

abbrev from_bound : ℕ → Bound → Option Bool
from_bound now absent = some true
from_bound now unreadable = none
from_bound now (at t) = some (leb t now)

abbrev until_bound : ℕ → Bound → Option Bool
until_bound now absent = some true
until_bound now unreadable = none
until_bound now (at t) = some (ltb now t)

abbrev within : Option Bool → Option Bool → Truth
within (some a) (some b) = if a && b then holds else fails
within _ _ = unknown

abbrev read_right : Option Operand → Facts → Option Value
read_right none facts = none
read_right (some operand) facts = unfold read_operand in read_operand operand facts

unfoldable pub evaluate_condition : Readers → Condition → Facts → Truth
unfolding truth_of compare read_operand read_bound
evaluate_condition rd (role r) facts = truth_of (list_contains facts.subject.roles r)
evaluate_condition rd (group g) facts = truth_of (list_contains facts.subject.groups g)
evaluate_condition rd (attribute left operator right) facts =
    compare rd.floats operator (read_operand left facts) (read_right right facts)
evaluate_condition rd (time not_before not_on_or_after) facts =
    within (from_bound facts.now (read_bound rd not_before))
      (until_bound facts.now (read_bound rd not_on_or_after))
