-- ===== src/Authz/Policy/Kleene.antt =====
-- One policy is a conjunction or a disjunction of its conditions in three values: `evaluate_policy`
-- of crates/saffui-core/src/authz/policy.rs.
use saffui.Base.{
  ◌≡◌, refl, ap, ◌∙◌, map, Bool, true, false, ◌||◌, Option, some, none, List, [], ◌∷◌, arith, any,
  if◌then◌else◌,
}
use saffui.Authz.Condition.{
  Condition, Facts, Readers, Truth, holds, fails, unknown, evaluate_condition,
}
use saffui.Authz.Policy.{
  Policy, Combine, Effect, PolicyOutcome, applies, not_applicable, undecided, combine_truths,
  truths, truth_eqb, evaluate_conditions, evaluate_policy,
}

abbrev pub is_holds : Truth → Bool
is_holds t = truth_eqb t holds

abbrev pub is_fails : Truth → Bool
is_fails t = truth_eqb t fails

abbrev pub is_unknown : Truth → Bool
is_unknown t = truth_eqb t unknown

-- The conjunction and the disjunction, read off the list of truths at once.
abbrev pub kleene : Combine → Effect → Bool → List Truth → PolicyOutcome
kleene Combine.all e seen ts =
    if any is_fails ts
    then not_applicable
    else if seen || any is_unknown ts
    then undecided
    else applies e
kleene Combine.any e seen ts =
    if any is_holds ts
    then applies e
    else if seen || any is_unknown ts
    then undecided
    else not_applicable

combine_truths-kleene :
    (c : Combine) (e : Effect) (seen : Bool) (ts : List Truth)
    → combine_truths c e seen ts ≡ kleene c e seen ts
unfolding combine_truths
combine_truths-kleene Combine.all e true [] = refl
combine_truths-kleene Combine.all e false [] = refl
combine_truths-kleene Combine.any e true [] = refl
combine_truths-kleene Combine.any e false [] = refl
combine_truths-kleene Combine.all e seen (t ∷ ts) = ground (
  arith,
  combine_truths-kleene Combine.all e seen ts,
  combine_truths-kleene Combine.all e (seen || true) ts,
)
combine_truths-kleene Combine.any e seen (t ∷ ts) = ground (
  arith,
  combine_truths-kleene Combine.any e seen ts,
  combine_truths-kleene Combine.any e (seen || true) ts,
)

pub reference : Readers → Policy → Facts → Option (List Condition) → PolicyOutcome
reference rd p facts none = undecided
reference rd p facts (some []) = undecided
reference rd p facts (some (c ∷ cs)) =
    kleene p.combine p.effect false (map (λ d. evaluate_condition rd d facts) (c ∷ cs))

truths-map :
    (rd : Readers) (facts : Facts) (cs : List Condition)
    → truths rd facts cs ≡ map (λ d. evaluate_condition rd d facts) cs
unfolding truths
truths-map rd facts [] = refl
truths-map rd facts (c ∷ cs) = rw (truths-map rd facts cs)

conditions-reference :
    (rd : Readers) (p : Policy) (facts : Facts) (o : Option (List Condition))
    → evaluate_conditions rd p facts o ≡ reference rd p facts o
unfolding evaluate_conditions reference
conditions-reference rd p facts none = refl
conditions-reference rd p facts (some []) = refl
conditions-reference rd p facts (some (c ∷ cs)) =
    combine_truths-kleene p.combine p.effect false (truths rd facts (c ∷ cs))
    ∙ ap (kleene p.combine p.effect false) (truths-map rd facts (c ∷ cs))

-- A policy is undecided when its document does not read or holds no condition. Otherwise, under
-- `all`, it does not apply when some condition fails, is undecided when none fails and some is
-- unknown, and applies when all hold; under `any`, it applies when some condition holds, is
-- undecided when none holds and some is unknown, and does not apply when all fail.
pub evaluate_policy-reference :
    (rd : Readers) (p : Policy) (facts : Facts)
    → evaluate_policy rd p facts ≡ reference rd p facts (rd.deserialize p.conditions)
unfolding evaluate_policy
evaluate_policy-reference rd p facts = conditions-reference rd p facts (rd.deserialize p.conditions)
