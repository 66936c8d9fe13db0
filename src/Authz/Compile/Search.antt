-- ===== src/Authz/Compile/Search.antt =====
-- The search of `find_cycles` of crates/saffui-core/src/authz/relations/schema.rs finds a permission
-- that computes itself when there is one, and always ends.
pub mod Enough
pub mod Found
pub mod Closed
use saffui.Base.{
  ℕ, ◌≡◌, refl, String, Bool, true, false, Option, none, some, List, [], ◌∷◌, ◌++◌, text_keys, ◌==◌,
  contains, get, arith, if◌then◌else◌, ◌⊎◌, inl, inr,
}
use saffui.Authz.Schema.{Rule}
use saffui.Authz.Compile.Cycles.{collect, push_unseen}

-- A permission computes a member on the same object, in one step and in several.
unfoldable pub Computes : List (String × Rule) → String → String → Type 0
Computes permissions a b =
    (rule : Rule) × (get permissions a ≡ some rule) × (contains (collect rule) b ≡ true)

pub data Way (permissions : List (String × Rule)) (a : String) : String → Type 0 where
  one : {b : String} → Computes permissions a b → Way permissions a b
  more : {b c : String} → Way permissions a b → Computes permissions b c → Way permissions a c
