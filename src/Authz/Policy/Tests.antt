-- ===== src/Authz/Policy/Tests.antt =====
-- Runs of the policies on a few facts, and the theorems at them.
use mathlib.Core.List.{Memᴰ}
use mathlib.Core.List.Perm
use saffui.Base.{
  ◌≡◌, refl, subst, none, some, [], ◌∷◌, String, true, false, ◌==◌, text_keys, if◌then◌else◌,
}
use saffui.Json.{Value, Members, Floats}
use saffui.Authz.Condition.{
  Condition, Operand, Operator, SubjectFacts, Facts, Readers, evaluate_condition,
}
use saffui.Authz.Policy.{
  Policy, Combine, Effect, evaluate_policy, permitted_by, undecided_by, weigh_policies,
}
use saffui.Authz.Policy.Kleene.{reference, evaluate_policy-reference}
use saffui.Authz.Policy.Weigh.{
  ranked, first_with, denies, cannot_tell, permits, kind, weigh_policies-ranked, kind-perm,
}
use saffui.Authz.Policy.Knowledge.{Clearer, ClearerOn, Stays, verdict-Stays}

abbrev floats : Floats
floats = record { of_pos = λ n. n; of_neg = λ n. 0; partial_cmp = λ f g. none }

-- One document holds a condition on a role, another one on an attribute of the resource.
abbrev readers : Readers
readers = record {
  floats = floats;
  read_instant = λ text. none;
  deserialize = elim [
    | Value.string text ↦
        if text == "role"
        then some (Condition.role 7 ∷ [])
        else some (
            Condition.attribute (Operand.resource "open") Operator.equals
              (some (Operand.value (Value.bool true)))
            ∷ [])
    | _ ↦ none
  ];
}

abbrev ada : SubjectFacts
ada = record {
  id = "1";
  username = some "ada";
  email = none;
  email_verified = none;
  client_id = "app";
  scopes = [];
  roles = 7 ∷ [];
  groups = [];
}

abbrev facts : Facts
facts = record { subject = ada; resource = Members.end; now = 5 }

abbrev policy : String → String → Effect → Policy
policy name document effect = record {
  id = 1;
  client_id = "app";
  name = name;
  resource_type = "door";
  action = "open";
  effect = effect;
  combine = Combine.all;
  conditions = Value.string document;
  created_at = 0;
}

abbrev staff_open : Policy
staff_open = policy "staff" "role" Effect.permit

abbrev closed_day : Policy
closed_day = policy "closed" "attribute" Effect.deny

staff_permitted : weigh_policies readers (staff_open ∷ []) facts ≡ permitted_by "staff"
unfolding weigh_policies evaluate_policy
staff_permitted = refl

-- What the resource does not say is not taken for a no.
missing_undecided :
    weigh_policies readers (staff_open ∷ closed_day ∷ []) facts ≡ undecided_by "closed"
unfolding weigh_policies evaluate_policy
missing_undecided = refl

evaluate_policy-reference_example :
    evaluate_policy readers staff_open facts
    ≡ reference readers staff_open facts (some (Condition.role 7 ∷ []))
evaluate_policy-reference_example = evaluate_policy-reference readers staff_open facts

weigh_policies-ranked_example :
    weigh_policies readers (staff_open ∷ closed_day ∷ []) facts
    ≡ ranked
        (first_with readers facts denies (staff_open ∷ closed_day ∷ []))
        (first_with readers facts cannot_tell (staff_open ∷ closed_day ∷ []))
        (first_with readers facts permits (staff_open ∷ closed_day ∷ []))
weigh_policies-ranked_example = weigh_policies-ranked readers facts (staff_open ∷ closed_day ∷ [])

kind-perm_example :
    kind (weigh_policies readers (staff_open ∷ closed_day ∷ []) facts)
    ≡ kind (weigh_policies readers (closed_day ∷ staff_open ∷ []) facts)
kind-perm_example =
    kind-perm readers facts (staff_open ∷ closed_day ∷ []) (closed_day ∷ staff_open ∷ [])
      (Perm.swap closed_day staff_open [])

-- The same question, once the resource says that it is closed.
abbrev told : Facts
told = record facts { resource = Members.member "open" (Value.bool false) Members.end }

Clearer-role :
    (c : Condition)
    → Memᴰ c (Condition.role 7 ∷ [])
    → Clearer (evaluate_condition readers c facts) (evaluate_condition readers c told)
unfolding evaluate_condition
Clearer-role c (Memᴰ.head e) = rw e refl
Clearer-role c (Memᴰ.tail m) = elim m [ ]

clearer_staff : (p : Policy) → Memᴰ p (staff_open ∷ []) → ClearerOn readers facts told p
clearer_staff p (Memᴰ.head e) cs q c m =
    let r = subst (λ x. readers.deserialize x.conditions ≡ some cs) e q in
    let l : cs ≡ Condition.role 7 ∷ [] = cc r in Clearer-role c (subst (Memᴰ c) l m)
clearer_staff p (Memᴰ.tail m) cs q c k = elim m [ ]

verdict-Stays_example :
    Stays
      (weigh_policies readers (staff_open ∷ []) facts)
      (weigh_policies readers (staff_open ∷ []) told)
verdict-Stays_example = verdict-Stays readers facts told (staff_open ∷ []) clearer_staff
