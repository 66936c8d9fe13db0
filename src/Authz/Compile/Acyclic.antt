-- ===== src/Authz/Compile/Acyclic.antt =====
-- That no permission of a schema that crates/saffui-core/src/authz/relations/schema.rs compiles computes
-- itself, from the search of each.
use saffui.Base.{
  ℕ, ◌≡◌, ◌≢◌, refl, sym, subst, String, true, ◌||◌, some, List, [], ◌∷◌, text_keys, ◌==◌, contains,
  get, arith, if◌then◌else◌, inl, inr, Bool-cases,
}
use saffui.Authz.Schema.{Rule, ObjectType}
use saffui.Authz.Compile.{
  compile_expression, SchemaFaults, Declaration, Definition, computed_from_itself,
}
use saffui.Authz.Compile.Clean.{Clean, note-Clean}
use saffui.Authz.Compile.Types.{
  insert, compile_declarations, compile_type, compile_subjects, check_name,
}
use saffui.Authz.Compile.Cycles.{
  find_cycles, note_search, search, search_fuel, Search, exhausted, computes_itself, finished,
}
use saffui.Authz.Compile.Schema.{is_some}
use saffui.Authz.Compile.Search.{Way, Computes, one, more}
use saffui.Authz.Compile.Search.Closed.{search-Way_iff}

get-insert {ℓ} :
    {V : Type ℓ} (m : List (String × V)) (k j : String) (v : V)
    → get (insert m k v) j ≡ (if k == j then some v else get m j)
unfolding insert
get-insert [] k j v = refl
get-insert ((i, w) ∷ m) k j v = ground (
  arith,
  text_keys.same_iff i k,
  text_keys.same_iff i j,
  text_keys.same_iff k j,
  get-insert m k j v,
)

-- The names of the permissions that are declared.
pub permission_names : List Declaration → List String
permission_names [] = []
permission_names (Declaration.permission name line expression ∷ ds) = name ∷ permission_names ds
permission_names (Declaration.relation name line subjects ∷ ds) = permission_names ds

note_search-Clean :
    (start : String) (line : ℕ) (faults : SchemaFaults) (found : Search)
    → Clean (note_search start line faults found)
    → Clean faults × (found ≢ computes_itself)
note_search-Clean start line faults finished e = (e, λ s. absurd (ground (arith, s)))
note_search-Clean start line faults exhausted e = (e, λ s. absurd (ground (arith, s)))
note_search-Clean start line faults computes_itself e =
    absurd (note-Clean faults line (computed_from_itself start) e)

module _ (definitions : List Definition) where
  compile_declarations-keys :
      (d : Definition) (ds : List Declaration) (seen : List String) (object : ObjectType)
      (faults : SchemaFaults) (n : String)
      → is_some (get (compile_declarations definitions d ds seen object faults).0.permissions n)
        ≡ (is_some (get object.permissions n) || contains (permission_names ds) n)
  unfolding compile_declarations permission_names
  compile_declarations-keys d [] seen object faults n = ground arith
  compile_declarations-keys d (Declaration.permission name line expression ∷ ds) seen object faults
        n =
      let rule =
        compile_expression definitions d expression
          (check_name definitions d seen (Declaration.permission name line expression) faults) in
      ground (
        arith,
        compile_declarations-keys d ds (name ∷ seen)
            (record object { permissions = insert object.permissions name rule.0 }) rule.1 n,
        get-insert object.permissions name n rule.0,
      )
  compile_declarations-keys d (Declaration.relation name line subjects ∷ ds) seen object faults n =
      let allowed =
        compile_subjects definitions subjects []
          (check_name definitions d seen (Declaration.relation name line subjects) faults) in
      compile_declarations-keys d ds (name ∷ seen)
        (record object { relations = insert object.relations name allowed.0 }) allowed.1 n

  pub compile_type-keys :
      (d : Definition) (faults : SchemaFaults) (n : String)
      → is_some (get (compile_type definitions d faults).0.permissions n)
        ≡ contains (permission_names d.declarations) n
  unfolding compile_type
  compile_type-keys d faults n =
      compile_declarations-keys d d.declarations [] (record { relations = []; permissions = [] })
        faults n

-- Where the search notes nothing, nothing was noted before, and no permission computes itself.
pub find_cycles-Clean :
    (ds : List Declaration) (permissions : List (String × Rule)) (faults : SchemaFaults)
    → Clean (find_cycles ds permissions faults)
    → Clean faults
      × ((n : String) → contains (permission_names ds) n ≡ true → Way permissions n n → ⊥)
unfolding find_cycles permission_names
find_cycles-Clean [] permissions faults e = (e, λ n h p. absurd (ground (arith, h)))
find_cycles-Clean (Declaration.relation name line subjects ∷ ds) permissions faults e =
    find_cycles-Clean ds permissions faults e
find_cycles-Clean (Declaration.permission start line expression ∷ ds) permissions faults e =
    let found = search (search_fuel permissions) permissions start (start ∷ []) [] in
    let rest = find_cycles-Clean ds permissions (note_search start line faults found) e in
    let before = note_search-Clean start line faults found rest.0 in
    (
      before.0,
      λ n h p. elim (Bool-cases (start == n)) [
        | inl s ↦ absurd (
            before.1 (
              (search-Way_iff permissions start).1
                (subst (λ k. Way permissions k k) (sym ((text_keys.same_iff start n).0 s)) p)))
        | inr s ↦ rest.1 n (ground (arith, h, s)) p
      ],
    )

pub Way-some :
    (permissions : List (String × Rule)) (a b : String)
    → Way permissions a b
    → is_some (get permissions a) ≡ true
unfolding Computes
Way-some permissions a b (one c) = ground (arith, c.1)
Way-some permissions a b (more {b = m} p c) = Way-some permissions a m p

-- No permission of a type computes itself.
unfoldable pub Acyclic : List (String × ObjectType) → Type 0
Acyclic types =
    (t : String) (object : ObjectType)
    → get types t ≡ some object
    → (n : String) → Way object.permissions n n
    → ⊥

pub insert-Acyclic :
    (types : List (String × ObjectType)) (name : String) (object : ObjectType)
    → Acyclic types
    → ((n : String) → Way object.permissions n n → ⊥)
    → Acyclic (insert types name object)
unfolding Acyclic
insert-Acyclic types name object a h t other e n p = elim (Bool-cases (name == t)) [
  | inl s ↦
      let same : other ≡ object = ground (arith, e, s, get-insert types name t object) in
      h n (subst (λ (o : ObjectType). Way o.permissions n n) same p)
  | inr s ↦ a t other (ground (arith, e, s, get-insert types name t object)) n p
]
