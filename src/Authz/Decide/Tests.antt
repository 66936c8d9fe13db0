-- ===== src/Authz/Decide/Tests.antt =====
-- One question, decided by a relation, and the theorems at it.
use saffui.Base.{
  ◌≡◌, refl, sym, subst, true, false, none, some, [], ◌∷◌, take, ◌==◌, text_keys, if◌then◌else◌,
}
use saffui.Json.{Members, Floats}
use saffui.Names.{is_role_name}
use saffui.Authz.Schema.{ObjectRef, Rule, CompiledSchema, find_member, object_keys}
use saffui.Authz.Walk.{rows}
use saffui.Authz.Check.{walk_relations, admits, is_itself, fold_union}
use saffui.Authz.Check.Spec.{Kept, Answers}
use saffui.Authz.Shares.{new, take as take_share, is_refused}
use saffui.Counts.{held}
use saffui.Authz.Decide.{
  DecisionRequest, permit, got, decided, World, walker_of, read_subject, read_schema_for,
  decide_by_relations, is_object_id,
}
use saffui.Authz.Decide.Question.{decide}
use saffui.Authz.Decide.Grounds.{IsGrounded}
use saffui.Authz.Decide.Permits.{Permits, decide-IsGrounded}
use saffui.Authz.Decide.Returned.{Returns, decide-Returns}

abbrev ada : ObjectRef
ada = record { object_type = "user"; object_id = "7" }

abbrev documents : CompiledSchema
documents = record {
  version = 1;
  types =
      ("user", record { relations = []; permissions = [] })
      ∷ (
        "document",
        record {
          relations = ("owner", record { object_type = "user"; member = none } ∷ []) ∷ [];
          permissions = ("view", Rule.computed "owner") ∷ [];
        },
      )
      ∷ [];
}

abbrev owners : Kept
owners o r = if o.object_id == "1" then record { object = ada; member = none } ∷ [] else []

abbrev floats : Floats
floats = record { of_pos = λ n. n; of_neg = λ n. 0; partial_cmp = λ f g. none }

abbrev world : World
world = record {
  asked_at = 0;
  resolve_realm = got 3;
  authenticate_client = λ id. got (record { client_id = id; enabled = true });
  verify_access_token = λ token.
      got (some (record { session = some 5; subject = "7"; client_id = "portal"; scopes = [] }));
  read_named_client = λ id. got none;
  read_live_subject = λ session.
      got (some (record { id = 7; username = "ada"; email = none; email_verified = false }));
  read_guarded_schema =
      λ t id. got (some (record { compiled_form = some documents; guarded = true }));
  read_relation_schema = got none;
  list_applicable_policies = λ id t a. got [];
  read_held_roles = λ person. got [];
  read_member_groups = λ person. got [];
  decided_at = 1;
  walk_now = λ n. n;
  list_relation_subjects = λ n o r limit. rows (take limit (owners o r));
  id_text = λ id. "7";
  written = λ schema. 0;
  written_attributes = λ attributes. 2;
  reason_of = λ why. "";
  readers = record { floats = floats; read_instant = λ text. none; deserialize = λ document. none };
}

abbrev question : DecisionRequest
question = record {
  subject_token = some "a token";
  action = "view";
  resource_type = "document";
  resource_id = some "1";
  attributes = Members.end;
}

Answers-owners :
    (schema : CompiledSchema) (subject : ObjectRef)
    → Answers (walker_of world schema subject) owners
Answers-owners schema subject n o r limit subjects e = cc

permitted : (decide world (some "portal") question (new 2 1)).0 ≡ decided (permit "relation" none)
unfolding decide is_role_name new take_share is_refused held read_subject read_schema_for
    decide_by_relations is_object_id walk_relations find_member admits is_itself fold_union
permitted = refl

decide-IsGrounded_example : IsGrounded world owners question (some "portal")
decide-IsGrounded_example =
    decide-IsGrounded world owners question Answers-owners (some "portal") (new 2 1)
      (subst Permits (sym permitted) refl)

decide-Returns_example : Returns (new 2 1) (decide world (some "portal") question (new 2 1))
decide-Returns_example = decide-Returns world question (some "portal") (new 2 1)
