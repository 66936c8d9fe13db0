-- ===== src/Authz/Policy/Knowledge.antt =====
-- Knowing more never takes back what the policies of crates/saffui-core/src/authz/policy.rs decided.
use mathlib.Core.List.{Memᴰ}
use saffui.Base.{
  String, ◌≡◌, refl, Bool, true, false, ◌||◌, Option, none, some, List, [], ◌∷◌, arith, inl, inr,
  Bool-cases,
}
use saffui.Authz.Condition.{
  Condition, Facts, Readers, Truth, holds, fails, unknown, evaluate_condition,
}
use saffui.Authz.Policy.{
  Policy, Combine, Effect, PolicyOutcome, applies, not_applicable, undecided, combine_truths,
  truths, on_decisive, evaluate_conditions, evaluate_policy, PolicyVerdict, permitted_by, denied_by,
  undecided_by, no_policy, weigh_policies,
}
use saffui.Authz.Policy.Weigh.{
  denies, permits, cannot_tell, first_with, ranked, weigh_policies-ranked,
}

-- `u` is `t`, or `t` was unknown.
abbrev pub Clearer : Truth → Truth → Type 0
Clearer unknown u = Unit
Clearer holds u = u ≡ holds
Clearer fails u = u ≡ fails

abbrev Settled : PolicyOutcome → PolicyOutcome → Type 0
Settled undecided o = Unit
Settled (applies e) o = o ≡ applies e
Settled not_applicable o = o ≡ not_applicable

abbrev Clearers : List Truth → List Truth → Type 0
Clearers [] [] = Unit
Clearers (t ∷ ts) (u ∷ us) = Clearer t u × Clearers ts us
Clearers _ _ = ⊥

Settled-refl : (o : PolicyOutcome) → Settled o o
Settled-refl (applies e) = refl
Settled-refl not_applicable = refl
Settled-refl undecided = tt

-- Once a truth is unknown, only a decisive one settles the policy.
Settled-decisive :
    (c : Combine) (e : Effect) (ts : List Truth)
    → Settled (combine_truths c e true ts) (on_decisive c e)
unfolding combine_truths
Settled-decisive c e [] = tt
Settled-decisive Combine.all e (holds ∷ ts) = Settled-decisive Combine.all e ts
Settled-decisive Combine.all e (fails ∷ ts) = refl
Settled-decisive Combine.all e (unknown ∷ ts) = Settled-decisive Combine.all e ts
Settled-decisive Combine.any e (holds ∷ ts) = refl
Settled-decisive Combine.any e (fails ∷ ts) = Settled-decisive Combine.any e ts
Settled-decisive Combine.any e (unknown ∷ ts) = Settled-decisive Combine.any e ts

or_true : (a : Bool) → (a || true) ≡ true
or_true a = ground arith

combine-Settled :
    (c : Combine) (e : Effect) (a b : Bool) (ts us : List Truth)
    → (a ≡ false → b ≡ false)
    → Clearers ts us
    → Settled (combine_truths c e a ts) (combine_truths c e b us)
unfolding combine_truths
combine-Settled Combine.all e true b [] [] h k = tt
combine-Settled Combine.all e false b [] [] h k = rw (h refl)
combine-Settled Combine.any e true b [] [] h k = tt
combine-Settled Combine.any e false b [] [] h k = rw (h refl)
combine-Settled c e a b [] (u ∷ us) h k = absurd k
combine-Settled c e a b (t ∷ ts) [] h k = absurd k
combine-Settled Combine.all e a b (holds ∷ ts) (u ∷ us) h (k, ks) =
    rw k (combine-Settled Combine.all e (a || false) (b || false) ts us (ground arith) ks)
combine-Settled Combine.all e a b (fails ∷ ts) (u ∷ us) h (k, ks) = rw k refl
combine-Settled Combine.all e a b (unknown ∷ ts) (holds ∷ us) h (k, ks) =
    combine-Settled Combine.all e (a || true) (b || false) ts us (ground arith) ks
combine-Settled Combine.all e a b (unknown ∷ ts) (fails ∷ us) h (k, ks) =
    rw (or_true a) (Settled-decisive Combine.all e ts)
combine-Settled Combine.all e a b (unknown ∷ ts) (unknown ∷ us) h (k, ks) =
    combine-Settled Combine.all e (a || true) (b || true) ts us (ground arith) ks
combine-Settled Combine.any e a b (holds ∷ ts) (u ∷ us) h (k, ks) = rw k refl
combine-Settled Combine.any e a b (fails ∷ ts) (u ∷ us) h (k, ks) =
    rw k (combine-Settled Combine.any e (a || false) (b || false) ts us (ground arith) ks)
combine-Settled Combine.any e a b (unknown ∷ ts) (holds ∷ us) h (k, ks) =
    rw (or_true a) (Settled-decisive Combine.any e ts)
combine-Settled Combine.any e a b (unknown ∷ ts) (fails ∷ us) h (k, ks) =
    combine-Settled Combine.any e (a || true) (b || false) ts us (ground arith) ks
combine-Settled Combine.any e a b (unknown ∷ ts) (unknown ∷ us) h (k, ks) =
    combine-Settled Combine.any e (a || true) (b || true) ts us (ground arith) ks

Settled-eq : (x y : PolicyOutcome) → Settled x y → cannot_tell x ≡ false → y ≡ x
Settled-eq (applies e) y h k = h
Settled-eq not_applicable y h k = h
Settled-eq undecided y h k = absurd (cc)

Settled-denies : (x y : PolicyOutcome) → Settled x y → denies x ≡ true → denies y ≡ true
Settled-denies (applies e) y h k = rw h k
Settled-denies not_applicable y h k = absurd (cc)
Settled-denies undecided y h k = absurd (cc)

module _ (rd : Readers) (facts facts' : Facts) where
  -- Each condition of the policy is as clear by the later facts, or clearer.
  abbrev pub ClearerOn : Policy → Type 0
  ClearerOn p =
      (cs : List Condition)
      → rd.deserialize p.conditions ≡ some cs
      → (c : Condition) → Memᴰ c cs
      → Clearer (evaluate_condition rd c facts) (evaluate_condition rd c facts')

  truths-Clearer :
      (cs : List Condition)
      → ((c : Condition)
          → Memᴰ c cs
          → Clearer (evaluate_condition rd c facts) (evaluate_condition rd c facts'))
      → Clearers (truths rd facts cs) (truths rd facts' cs)
  unfolding truths
  truths-Clearer [] h = tt
  truths-Clearer (c ∷ cs) h = (h c (Memᴰ.head refl), truths-Clearer cs (λ d m. h d (Memᴰ.tail m)))

  conditions-Settled :
      (p : Policy) (o : Option (List Condition))
      → rd.deserialize p.conditions ≡ o
      → ClearerOn p
      → Settled (evaluate_conditions rd p facts o) (evaluate_conditions rd p facts' o)
  unfolding evaluate_conditions
  conditions-Settled p none e h = tt
  conditions-Settled p (some []) e h = tt
  conditions-Settled p (some (c ∷ cs)) e h =
      combine-Settled p.combine p.effect false false (truths rd facts (c ∷ cs))
        (truths rd facts' (c ∷ cs)) (λ x. x) (truths-Clearer (c ∷ cs) (h (c ∷ cs) e))

  policy-Settled :
      (p : Policy)
      → ClearerOn p
      → Settled (evaluate_policy rd p facts) (evaluate_policy rd p facts')
  unfolding evaluate_policy
  policy-Settled p h = conditions-Settled p (rd.deserialize p.conditions) refl h

  -- With nothing undecided, every search finds the same.
  first_same :
      (test : PolicyOutcome → Bool) (ps : List Policy)
      → ((p : Policy) → Memᴰ p ps → ClearerOn p)
      → first_with rd facts cannot_tell ps ≡ none
      → first_with rd facts' test ps ≡ first_with rd facts test ps
  unfolding first_with
  first_same test [] k h = refl
  first_same test (p ∷ ps) k h = elim (Bool-cases (cannot_tell (evaluate_policy rd p facts))) [
    | inl e ↦ absurd (cc ((rw (e, first_with) at h)))
    | inr e ↦ ground (
      arith,
      Settled-eq (evaluate_policy rd p facts) (evaluate_policy rd p facts')
          (policy-Settled p (k p (Memᴰ.head refl))) e,
      first_same test ps (λ q m. k q (Memᴰ.tail m)) (rw (e, first_with) at h),
    )
  ]

  still_denied :
      (ps : List Policy) (n : String)
      → ((p : Policy) → Memᴰ p ps → ClearerOn p)
      → first_with rd facts denies ps ≡ some n
      → (m : String) × (first_with rd facts' denies ps ≡ some m)
  unfolding first_with
  still_denied [] n k h = absurd (cc)
  still_denied (p ∷ ps) n k h = elim (Bool-cases (denies (evaluate_policy rd p facts'))) [
    | inl e ↦ (p.name, rw (e, first_with))
    | inr e ↦ elim (Bool-cases (denies (evaluate_policy rd p facts))) [
      | inl q ↦ absurd (
          cc (
            Settled-denies (evaluate_policy rd p facts) (evaluate_policy rd p facts')
              (policy-Settled p (k p (Memᴰ.head refl))) q))
      | inr q ↦
          let (m, r) = still_denied ps n (λ x l. k x (Memᴰ.tail l)) (rw (q, first_with) at h) in
          (m, rw (e, first_with) r)
    ]
  ]

abbrev pub Stays : PolicyVerdict → PolicyVerdict → Type 0
Stays (permitted_by n) v = v ≡ permitted_by n
Stays (denied_by n) v = (m : String) × (v ≡ denied_by m)
Stays (undecided_by n) v = Unit
Stays no_policy v = v ≡ no_policy

Stays-ranked :
    (d u p d' u' p' : Option String)
    → ((n : String) → d ≡ some n → (m : String) × (d' ≡ some m))
    → (u ≡ none → (d' ≡ d) × (u' ≡ u) × (p' ≡ p))
    → Stays (ranked d u p) (ranked d' u' p')
Stays-ranked (some n) u p d' u' p' h k = let (m, e) = h n refl in (m, rw e)
Stays-ranked none (some n) p d' u' p' h k = tt
Stays-ranked none none (some n) d' u' p' h k = let (a, b, c) = k refl in rw (a, b, c)
Stays-ranked none none none d' u' p' h k = let (a, b, c) = k refl in rw (a, b, c)

-- When each condition of these policies that was known keeps its truth, and only unknown ones change,
-- a permission stays the permission of the same policy, a denial stays a denial, and a question that
-- no policy decides stays so. Only an undecided verdict may change.
pub verdict-Stays :
    (rd : Readers) (facts facts' : Facts) (ps : List Policy)
    → ((p : Policy) → Memᴰ p ps → ClearerOn rd facts facts' p)
    → Stays (weigh_policies rd ps facts) (weigh_policies rd ps facts')
verdict-Stays rd facts facts' ps clearer =
    rw (weigh_policies-ranked rd facts ps, weigh_policies-ranked rd facts' ps)
      (Stays-ranked (first_with rd facts denies ps) _ _ _ _ _
        (λ n. still_denied rd facts facts' ps n clearer)
        (λ e. (
          first_same rd facts facts' denies ps clearer e,
          first_same rd facts facts' cannot_tell ps clearer e,
          first_same rd facts facts' permits ps clearer e,
        )))
