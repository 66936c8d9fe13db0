-- ===== src/Authz/Compile/Cycles.antt =====
-- The search for a permission that computes itself: `find_cycles` of
-- crates/saffui-core/src/authz/relations/schema.rs. The stack and the set of names seen are lists.
-- The search is on fuel; Search/Enough proves that it does not run out.
use saffui.Base.{
  ℕ, zero, suc, ◌+◌, String, none, some, List, [], ◌∷◌, ◌++◌, text_keys, if◌then◌else◌, length,
  contains, get,
}
use saffui.Authz.Schema.{Rule, Rules, nil, cons}
use saffui.Authz.Compile.{SchemaFaults, note, Declaration, computed_from_itself}

unfoldable mutual
  -- The members that a rule computes on the same object.
  pub collect : Rule → List String
  collect (Rule.computed member) = member ∷ []
  collect (Rule.arrow relation member) = []
  collect (Rule.union rules) = collect_all rules
  collect (Rule.intersection rules) = collect_all rules

  pub collect_all : Rules → List String
  collect_all nil = []
  collect_all (cons rule rules) = collect rule ++ collect_all rules

-- The loop that pushes what was not seen: the stack, and what is seen then.
unfoldable pub push_unseen : List String → List String → List String → List String × List String
push_unseen [] stack seen = (stack, seen)
push_unseen (m ∷ next) stack seen =
    if contains seen m then push_unseen next stack seen else push_unseen next (m ∷ stack) (m ∷ seen)

-- How the search of one permission ends.
pub data Search : Type 0 where
  finished : Search
  computes_itself : Search
  exhausted : Search

unfoldable pub search : ℕ → List (String × Rule) → String → List String → List String → Search
unfolding collect push_unseen
search zero permissions start stack seen = exhausted
search (suc fuel) permissions start [] seen = finished
search (suc fuel) permissions start (m ∷ stack) seen = elim (get permissions m) [
  | none ↦ search fuel permissions start stack seen
  | some rule ↦
      let next = collect rule in
      if contains next start
      then computes_itself
      else let pushed = push_unseen next stack seen in
        search fuel permissions start pushed.0 pushed.1
]

-- Every name that a permission computes, as often as it does.
unfoldable pub computed_names : List (String × Rule) → List String
unfolding collect
computed_names [] = []
computed_names ((name, rule) ∷ rest) = collect rule ++ computed_names rest

unfoldable pub search_fuel : List (String × Rule) → ℕ
unfolding computed_names
search_fuel permissions = length (computed_names permissions) + 2

abbrev pub note_search : String → ℕ → SchemaFaults → Search → SchemaFaults
note_search start line faults computes_itself = note faults line (computed_from_itself start)
note_search start line faults finished = faults
note_search start line faults exhausted = faults

unfoldable pub find_cycles : List Declaration → List (String × Rule) → SchemaFaults → SchemaFaults
unfolding search search_fuel
find_cycles [] permissions faults = faults
find_cycles (Declaration.permission start line expression ∷ rest) permissions faults =
    find_cycles rest permissions (
      note_search start line faults
        (search (search_fuel permissions) permissions start (start ∷ []) []))
find_cycles (Declaration.relation name line subjects ∷ rest) permissions faults =
    find_cycles rest permissions faults
