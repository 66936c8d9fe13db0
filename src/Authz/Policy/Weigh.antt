-- ===== src/Authz/Policy/Weigh.antt =====
-- What the policies of a question say together: `weigh_policies` of
-- crates/saffui-core/src/authz/policy.rs against three searches, and without their order.
use mathlib.Core.List.{Perm}
use saffui.Base.{
  String, ◌≡◌, refl, Bool, true, false, Option, none, some, List, [], ◌∷◌, arith, any, ◌⊎◌, inl,
  inr, Bool-cases, any-perm,
}
use saffui.Authz.Condition.{Facts, Readers}
use saffui.Authz.Policy.{
  Policy, permit, deny, PolicyOutcome, applies, undecided, evaluate_policy, PolicyVerdict,
  permitted_by, denied_by, undecided_by, no_policy, or_insert, weigh_from, weigh_policies,
}

abbrev pub denies : PolicyOutcome → Bool
denies (applies deny) = true
denies _ = false

abbrev pub permits : PolicyOutcome → Bool
permits (applies permit) = true
permits _ = false

abbrev pub cannot_tell : PolicyOutcome → Bool
cannot_tell undecided = true
cannot_tell _ = false

abbrev pub ranked : Option String → Option String → Option String → PolicyVerdict
ranked (some n) u p = denied_by n
ranked none (some n) p = undecided_by n
ranked none none (some n) = permitted_by n
ranked none none none = no_policy

module _ (rd : Readers) (facts : Facts) where
  -- The name of the first policy with such an outcome.
  unfoldable pub first_with : (PolicyOutcome → Bool) → List Policy → Option String
  first_with test [] = none
  first_with test (p ∷ ps) = elim (test (evaluate_policy rd p facts)) [
    | true ↦ some p.name
    | false ↦ first_with test ps
  ]

  abbrev or_else : Option String → Option String → Option String
  or_else (some n) o = some n
  or_else none o = o

  weigh_from_lem :
      (u p : Option String) (ps : List Policy)
      → weigh_from rd facts u p ps
        ≡ ranked
            (first_with denies ps)
            (or_else u (first_with cannot_tell ps))
            (or_else p (first_with permits ps))
  unfolding weigh_from first_with
  weigh_from_lem none none [] = refl
  weigh_from_lem none (some n) [] = refl
  weigh_from_lem (some m) none [] = refl
  weigh_from_lem (some m) (some n) [] = refl
  weigh_from_lem u p (x ∷ ps) = ground (
    arith,
    weigh_from_lem u p ps,
    weigh_from_lem u (or_insert p x.name) ps,
    weigh_from_lem (or_insert u x.name) p ps,
  )

  -- The first policy that denies decides; failing one, the first that cannot tell; failing one, the
  -- first that permits; and no policy decides when none is of these.
  pub weigh_policies-ranked :
      (ps : List Policy)
      → weigh_policies rd ps facts
        ≡ ranked (first_with denies ps) (first_with cannot_tell ps) (first_with permits ps)
  unfolding weigh_policies
  weigh_policies-ranked ps = weigh_from_lem none none ps

  abbrev outcome_is : (PolicyOutcome → Bool) → Policy → Bool
  outcome_is test p = test (evaluate_policy rd p facts)

-- What kind of verdict, the policy that gave it aside.
pub data Kind : Type 0 where
  permitted denied unsure silent : Kind

abbrev pub kind : PolicyVerdict → Kind
kind (permitted_by n) = permitted
kind (denied_by n) = denied
kind (undecided_by n) = unsure
kind no_policy = silent

abbrev kind_of : Bool → Bool → Bool → Kind
kind_of true u p = denied
kind_of false true p = unsure
kind_of false false true = permitted
kind_of false false false = silent

module _ (rd : Readers) (facts : Facts) where
  first_with-any :
      (test : PolicyOutcome → Bool) (ps : List Policy)
      → ((first_with rd facts test ps ≡ none) × (any (outcome_is rd facts test) ps ≡ false))
        ⊎ ((n : String) × (first_with rd facts test ps ≡ some n)
            × (any (outcome_is rd facts test) ps ≡ true))
  unfolding first_with
  first_with-any test [] = inl (refl, refl)
  first_with-any test (p ∷ ps) = elim (Bool-cases (test (evaluate_policy rd p facts))) [
    | inl e ↦ inr (p.name, rw (e, first_with), rw e)
    | inr e ↦ elim (first_with-any test ps) [
      | inl (q, r) ↦ inl (rw (e, first_with) q, rw e r)
      | inr (n, q, r) ↦ inr (n, rw (e, first_with) q, rw e r)
    ]
  ]

  kind-weigh :
      (ps : List Policy)
      → kind (weigh_policies rd ps facts)
        ≡ kind_of
            (any (outcome_is rd facts denies) ps)
            (any (outcome_is rd facts cannot_tell) ps)
            (any (outcome_is rd facts permits) ps)
  kind-weigh ps = rw (weigh_policies-ranked rd facts ps) (
      ground
        (arith, first_with-any denies ps, first_with-any cannot_tell ps, first_with-any permits ps))

-- The order of the policies does not change the kind of the verdict.
pub kind-perm :
    (rd : Readers) (facts : Facts) (ps qs : List Policy)
    → Perm ps qs
    → kind (weigh_policies rd ps facts) ≡ kind (weigh_policies rd qs facts)
kind-perm rd facts ps qs h = rw (
  kind-weigh rd facts ps,
  kind-weigh rd facts qs,
  any-perm (outcome_is rd facts denies) ps qs h,
  any-perm (outcome_is rd facts cannot_tell) ps qs h,
  any-perm (outcome_is rd facts permits) ps qs h,
)
