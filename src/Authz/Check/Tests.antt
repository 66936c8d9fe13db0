-- ===== src/Authz/Check/Tests.antt =====
-- Runs of the walk on a small schema, and the theorems at them.
use saffui.Base.{◌≡◌, ◌≢◌, refl, none, some, [], ◌∷◌, take, String, ◌==◌, if◌then◌else◌, text_keys}
use saffui.Authz.Schema.{
  ObjectRef, SubjectRef, Rule, CompiledSchema, AllowedSubject, find_member, object_keys,
}
use saffui.Authz.Walk.{
  Walk, WalkLimit, found, not_found, undecided, Walker, WalkState, Outcome, ok, err, exhausted,
  rows,
}
use saffui.Authz.Check.{walk_relations, admits, is_itself, fold_union}
use saffui.Authz.Check.Spec.{Kept, Goal, Stands, Answers}
use saffui.Authz.Check.Answer.{walk-Tells}
use saffui.Authz.Check.Bounds.{walk_within_bounds}

abbrev user : String → ObjectRef
user name = record { object_type = "user"; object_id = name }

abbrev team : String → ObjectRef
team name = record { object_type = "team"; object_id = name }

abbrev the : ObjectRef → SubjectRef
the o = record { object = o; member = none }

abbrev plain : String → AllowedSubject
plain t = record { object_type = t; member = none }

abbrev members : String → AllowedSubject
members t = record { object_type = t; member = some "member" }

-- definition team { relation member: user | team#member  permission enter = member }
abbrev teams : CompiledSchema
teams = record {
  version = 1;
  types =
      ("user", record { relations = []; permissions = [] })
      ∷ (
        "team",
        record {
          relations = ("member", plain "user" ∷ members "team" ∷ []) ∷ [];
          permissions = ("enter", Rule.computed "member") ∷ [];
        },
      )
      ∷ [];
}

abbrev staff : Kept
staff o r =
    if o.object_id == "all"
    then record { object = team "core"; member = some "member" } ∷ []
    else if o.object_id == "core"
    then the (user "ada") ∷ []
    else []

abbrev walker : ObjectRef → Walker
walker subject = record {
  schema = teams;
  subject = subject;
  deadline = 100;
  now = λ n. n;
  list_relation_subjects = λ n o r limit. rows (take limit (staff o r));
}

abbrev answer : Outcome (Walk × WalkState) → Walk
answer (ok (a, t)) = a
answer (err e) = undecided WalkLimit.reads
answer exhausted = undecided WalkLimit.steps

ada_enters : answer (walk_relations (walker (user "ada")) (team "all") "enter") ≡ found
unfolding walk_relations find_member admits is_itself fold_union
ada_enters = refl

-- A team is not its members, and a storage that names a team in itself is a loop.
others :
    (answer (walk_relations (walker (team "core")) (team "all") "enter") ≡ not_found)
    × (answer (walk_relations (walker (user "eve")) (team "all") "enter") ≡ not_found)
unfolding walk_relations find_member admits is_itself fold_union
others = (refl, refl)

Answers-staff : (subject : ObjectRef) → Answers (walker subject) staff
Answers-staff subject n o r limit subjects e = cc

walk-Tells_example : Stands teams staff (user "ada") (Goal.member (team "all") "enter")
unfolding walk_relations find_member admits is_itself fold_union
walk-Tells_example =
    walk-Tells (walker (user "ada")) staff (Answers-staff (user "ada")) (team "all") "enter" found _
      refl

walk_within_bounds_example : walk_relations (walker (user "ada")) (team "all") "enter" ≢ exhausted
walk_within_bounds_example = (walk_within_bounds (walker (user "ada")) (team "all") "enter").0
