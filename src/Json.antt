-- ===== src/Json.antt =====
-- JSON values as crates/saffui-core reads them. An integer is kept exactly; a float is its bits, and
-- what the machine does with floats is a parameter.
use Prim.Native.Nat.{Ordering}
use saffui.Base.{
  ℕ, String, Bool, true, false, ◌&&◌, Option, none, some, List, [], ◌∷◌, ◌==◌, text_keys,
  number_keys,
}

-- `neg_int n` is -(n + 1).
pub data Number : Type 0 where
  pos_int neg_int float : ℕ → Number

mutual
  pub data Value : Type 0 where
    null : Value
    bool : Bool → Value
    number : Number → Value
    string : String → Value
    array : Items → Value
    object : Members → Value

  pub data Items : Type 0 where
    nil : Items
    cons : Value → Items → Items

  -- A map: the keys are distinct, in order.
  pub data Members : Type 0 where
    end : Members
    member : String → Value → Members → Members

-- The floats of the machine: the nearest float to an integer, and the comparison of two, which has no
-- answer at a NaN.
pub record Floats : Type 0 where
  pub of_pos : ℕ → ℕ
  pub of_neg : ℕ → ℕ
  pub partial_cmp : ℕ → ℕ → Option Ordering

unfoldable pub get_member : Members → String → Option Value
get_member end name = none
get_member (member key value rest) name = elim (key == name) [
  | true ↦ some value
  | false ↦ get_member rest name
]

abbrev pub is_null : Value → Bool
is_null null = true
is_null _ = false

abbrev pub as_str : Value → Option String
as_str (string text) = some text
as_str _ = none

abbrev pub as_f64 : Floats → Value → Option ℕ
as_f64 fl (number (pos_int n)) = some (fl.of_pos n)
as_f64 fl (number (neg_int n)) = some (fl.of_neg n)
as_f64 fl (number (float f)) = some f
as_f64 fl _ = none

abbrev pub string_items : List String → Items
string_items [] = nil
string_items (text ∷ rest) = cons (string text) (string_items rest)

abbrev pub is_equal : Option Ordering → Bool
is_equal (some Ordering.eq) = true
is_equal _ = false

abbrev pub number_eqb : Floats → Number → Number → Bool
number_eqb fl (pos_int m) (pos_int n) = m == n
number_eqb fl (neg_int m) (neg_int n) = m == n
number_eqb fl (float f) (float g) = is_equal (fl.partial_cmp f g)
number_eqb fl _ _ = false

abbrev bool_eqb : Bool → Bool → Bool
bool_eqb true b = b
bool_eqb false true = false
bool_eqb false false = true

-- `==` of two values.
unfoldable mutual
  pub value_eqb : Floats → Value → Value → Bool
  value_eqb fl null null = true
  value_eqb fl (bool a) (bool b) = bool_eqb a b
  value_eqb fl (number m) (number n) = number_eqb fl m n
  value_eqb fl (string s) (string t) = s == t
  value_eqb fl (array xs) (array ys) = items_eqb fl xs ys
  value_eqb fl (object xs) (object ys) = members_eqb fl xs ys
  value_eqb fl _ _ = false

  pub items_eqb : Floats → Items → Items → Bool
  items_eqb fl nil nil = true
  items_eqb fl (cons x xs) (cons y ys) = value_eqb fl x y && items_eqb fl xs ys
  items_eqb fl _ _ = false

  pub members_eqb : Floats → Members → Members → Bool
  members_eqb fl end end = true
  members_eqb fl (member k x xs) (member j y ys) =
      k == j && value_eqb fl x y && members_eqb fl xs ys
  members_eqb fl _ _ = false
