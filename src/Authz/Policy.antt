-- ===== src/Authz/Policy.antt =====
-- Policies, evaluated and weighed: crates/saffui-core/src/authz/policy.rs.
pub mod Weigh
pub mod Kleene
pub mod Knowledge
pub mod Tests
use saffui.Base.{ℕ, String, Bool, true, false, ◌||◌, Option, none, some, List, [], ◌∷◌}
use saffui.Json.{Value}
use saffui.Authz.Condition.{
  Condition, Facts, Readers, Truth, holds, fails, unknown, evaluate_condition,
}

pub data Effect : Type 0 where
  permit deny : Effect

pub data Combine : Type 0 where
  all any : Combine

pub record Policy : Type 0 where
  pub id : ℕ
  pub client_id : String
  pub name : String
  pub resource_type : String
  pub action : String
  pub effect : Effect
  pub combine : Combine
  pub conditions : Value
  pub created_at : ℕ

pub data PolicyOutcome : Type 0 where
  applies : Effect → PolicyOutcome
  not_applicable undecided : PolicyOutcome

abbrev truth_eqb : Truth → Truth → Bool
truth_eqb holds holds = true
truth_eqb fails fails = true
truth_eqb unknown unknown = true
truth_eqb _ _ = false

abbrev decisive : Combine → Truth
decisive Combine.all = fails
decisive Combine.any = holds

-- What the first decisive truth gives.
abbrev on_decisive : Combine → Effect → PolicyOutcome
on_decisive Combine.all e = not_applicable
on_decisive Combine.any e = applies e

-- What the end of the loop gives.
abbrev on_end : Combine → Effect → Bool → PolicyOutcome
on_end c e true = undecided
on_end Combine.any e false = not_applicable
on_end Combine.all e false = applies e

-- The loop over the truths, with whether one was unknown.
unfoldable pub combine_truths : Combine → Effect → Bool → List Truth → PolicyOutcome
combine_truths c e seen [] = on_end c e seen
combine_truths c e seen (truth ∷ rest) = elim (truth_eqb truth (decisive c)) [
  | true ↦ on_decisive c e
  | false ↦ combine_truths c e (seen || truth_eqb truth unknown) rest
]

truths : Readers → Facts → List Condition → List Truth
unfolding evaluate_condition
truths rd facts [] = []
truths rd facts (c ∷ cs) = evaluate_condition rd c facts ∷ truths rd facts cs

evaluate_conditions : Readers → Policy → Facts → Option (List Condition) → PolicyOutcome
unfolding combine_truths truths
evaluate_conditions rd p facts none = undecided
evaluate_conditions rd p facts (some []) = undecided
evaluate_conditions rd p facts (some (c ∷ cs)) =
    combine_truths p.combine p.effect false (truths rd facts (c ∷ cs))

pub evaluate_policy : Readers → Policy → Facts → PolicyOutcome
unfolding evaluate_conditions
evaluate_policy rd p facts = evaluate_conditions rd p facts (rd.deserialize p.conditions)

pub data PolicyVerdict : Type 0 where
  permitted_by denied_by undecided_by : String → PolicyVerdict
  no_policy : PolicyVerdict

abbrev or_insert : Option String → String → Option String
or_insert none name = some name
or_insert (some first) name = some first

abbrev verdict : Option String → Option String → PolicyVerdict
verdict (some name) permitted = undecided_by name
verdict none (some name) = permitted_by name
verdict none none = no_policy

-- The loop over the policies, with the first undecided and the first that permits.
weigh_from : Readers → Facts → Option String → Option String → List Policy → PolicyVerdict
weigh_from rd facts undecided' permitted [] = verdict undecided' permitted
weigh_from rd facts undecided' permitted (p ∷ ps) = elim (evaluate_policy rd p facts) [
  | applies deny ↦ denied_by p.name
  | applies permit ↦ weigh_from rd facts undecided' (or_insert permitted p.name) ps
  | undecided ↦ weigh_from rd facts (or_insert undecided' p.name) permitted ps
  | not_applicable ↦ weigh_from rd facts undecided' permitted ps
]

pub weigh_policies : Readers → List Policy → Facts → PolicyVerdict
unfolding weigh_from
weigh_policies rd policies facts = weigh_from rd facts none none policies
