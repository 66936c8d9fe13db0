-- ===== src/Authz/Check/Answer.antt =====
-- The answer of a whole walk of crates/saffui-core/src/authz/relations/check.rs is right.
use saffui.Base.{
  ℕ, zero, suc, ◌+◌, String, ◌≡◌, refl, subst, Option, none, some, List, [], ◌∷◌, inl, inr, All,
  Bool-cases, Option-cases, get, ltb, ◌==◌, pair_keys, text_keys, contains,
}
use saffui.Authz.Schema.{ObjectRef, Rule, Rules, nil, cons, MemberKind, find_member, object_keys}
use saffui.Authz.Walk.{
  WalkLimit, Walk, not_found, Walker, WalkState, ok, exhausted, ◌>>=◌, max_depth, max_steps,
}
use saffui.Authz.Check.{
  walk_until_found, walk_intersection, Enter, walk_arrow, walk_rule, rule_walks, Opened, answered,
  opened, open_member, open_in_time, open_known, walk_kind, close_member, walk_member,
  walk_relations, started,
}
use saffui.Authz.Check.Spec.{Kept, Goal, Stands, permits, computed, Tells, Answers}
use saffui.Authz.Check.Loops.{intersection-Gives, Tells-iff}
use saffui.Authz.Check.Sums.{Holds, IsTrue, Post, Gives, bind-Gives, pure-Gives, Each, union-Gives}
use saffui.Authz.Check.Sound.{Enters, relation-Gives, arrow-Gives}
use saffui.Authz.Check.Goals.{rule_goals}
use saffui.Authz.Check.Readings.{
  union_goals, goals_union, Inter-goals, goals-Inter, goals_computed, no_arrow, no_member,
  goals_permits,
}

module _ (w : Walker) (kept : Kept) where
  module _ (agree : Answers w kept) (enter : Enter) (go : Enters w kept enter) where
    arrow_cases :
        (o : ObjectRef) (l m : String) (d : ℕ) (x : Option MemberKind)
        → find_member w.schema o.object_type l ≡ x
        → Gives w kept
            (Tells (Holds w kept (Goal.rule o (Rule.arrow l m))))
            (walk_arrow w enter o l m d)
    unfolding walk_arrow
    arrow_cases o l m d (some (MemberKind.relation allowed)) e =
        arrow-Gives w kept agree enter go o l m d allowed e
    arrow_cases o l m d none e =
        rw (e, walk_arrow)
          (pure-Gives w kept (Tells (Holds w kept (Goal.rule o (Rule.arrow l m)))) not_found
            (no_arrow w kept o l m (λ a f. cc)))
    arrow_cases o l m d (some (MemberKind.permission r)) e =
        rw (e, walk_arrow)
          (pure-Gives w kept (Tells (Holds w kept (Goal.rule o (Rule.arrow l m)))) not_found
            (no_arrow w kept o l m (λ a f. cc)))

    mutual
      unfolding walk_rule

      rule-Gives :
          (o : ObjectRef) (r : Rule) (d : ℕ)
          → Gives w kept (Tells (Holds w kept (Goal.rule o r))) (walk_rule w enter o r d)
      rule-Gives o (Rule.computed m) d =
          Tells-iff w kept (enter o m (d + 1)) computed (goals_computed w kept o m)
            (go.at o m (d + 1))
      rule-Gives o (Rule.arrow l m) d =
          arrow_cases o l m d (find_member w.schema o.object_type l) refl
      rule-Gives o (Rule.union rs) d =
          Tells-iff w kept (walk_until_found (rule_walks w enter o rs d) [])
            (union_goals w kept o rs) (goals_union w kept o rs)
            (union-Gives w kept (rule_goals o rs) (rule_walks w enter o rs d) (rules-Each o rs d))
      rule-Gives o (Rule.intersection rs) d =
          Tells-iff w kept (walk_intersection (rule_walks w enter o rs d)) (Inter-goals w kept o rs)
            (goals-Inter w kept o rs)
            (intersection-Gives w kept (rule_goals o rs) (rule_walks w enter o rs d)
              (rules-Each o rs d))

      rules-Each :
          (o : ObjectRef) (rs : Rules) (d : ℕ)
          → Each w kept (rule_goals o rs) (rule_walks w enter o rs d)
      rules-Each o nil d = tt
      rules-Each o (cons r rs) d = (rule-Gives o r (d + 1), rules-Each o rs d)

    kind-Gives :
        (o : ObjectRef) (m : String) (d : ℕ) (x : Option MemberKind)
        → find_member w.schema o.object_type m ≡ x
        → Gives w kept (Tells (Holds w kept (Goal.member o m))) (walk_kind w enter o m d)
    unfolding walk_kind
    kind-Gives o m d none e =
        rw (e, walk_kind)
          (pure-Gives w kept (Tells (Holds w kept (Goal.member o m))) not_found
            (no_member w kept o m e))
    kind-Gives o m d (some (MemberKind.relation allowed)) e =
        rw (e, walk_kind) (relation-Gives w kept agree enter go o m d allowed e)
    kind-Gives o m d (some (MemberKind.permission r)) e =
        rw (e, walk_kind)
          (Tells-iff w kept (walk_rule w enter o r d) (permits r e) (goals_permits w kept o m r e)
            (rule-Gives o r d))

  -- What is known of a member is right.
  get-Tells :
      (known : List ((ObjectRef × String) × Walk)) (k : ObjectRef × String) (a : Walk)
      → All (λ e. Tells (Holds w kept (Goal.member e.0.0 e.0.1)) e.1) known
      → get known k ≡ some a
      → Tells (Holds w kept (Goal.member k.0 k.1)) a
  get-Tells [] k a h e = absurd (cc)
  get-Tells ((j, b) ∷ known) k a (t, h) e = elim (Bool-cases (j == k)) [
    | inl q ↦
        let p : b ≡ a = cc in
        let r : j ≡ k = (pair_keys.same_iff j k).0 q in
        subst (λ x. Tells (Holds w kept (Goal.member x.0 x.1)) a) r
          (subst (Tells (Holds w kept (Goal.member j.0 j.1))) p t)
    | inr q ↦ get-Tells known k a h (rw q at e)
  ]

  abbrev Openings : ObjectRef × String → Opened → Type 0
  Openings k (answered a s) = Tells (Holds w kept (Goal.member k.0 k.1)) a × IsTrue w kept s
  Openings k (opened s) = IsTrue w kept s

  open_known_true :
      (k : ObjectRef × String) (s : WalkState) → IsTrue w kept s → Openings k (open_known k s)
  unfolding open_known
  open_known_true k s i = elim (Option-cases (get s.known k)) [
    | inl e ↦ elim (Bool-cases (contains s.walking k)) [
      | inl q ↦ rw (e, open_known, q) (tt, i)
      | inr q ↦ rw (e, open_known, q) i
    ]
    | inr (a, e) ↦ rw (e, open_known) (get-Tells s.known k a i e, i)
  ]

  open_in_time_true :
      (d : ℕ) (k : ObjectRef × String) (l : Option WalkLimit) (s : WalkState)
      → IsTrue w kept s
      → Openings k (open_in_time d k l s)
  unfolding open_in_time
  open_in_time_true d k (some l) s i = (tt, i)
  open_in_time_true d k none s i = elim (Bool-cases (ltb max_depth d)) [
    | inl e ↦ rw e (tt, i)
    | inr e ↦ rw e (open_known_true k s i)
  ]

  open_member_true :
      (k : ObjectRef × String) (d : ℕ) (s : WalkState)
      → IsTrue w kept s
      → Openings k (open_member w k d s)
  unfolding open_member
  open_member_true k d s i = elim (Bool-cases (ltb max_steps (s.steps + 1))) [
    | inl e ↦ rw e (tt, i)
    | inr e ↦ rw e (open_in_time_true d k _ _ i)
  ]

  close-Gives :
      (k : ObjectRef × String) (a : Walk)
      → Tells (Holds w kept (Goal.member k.0 k.1)) a
      → Gives w kept (Tells (Holds w kept (Goal.member k.0 k.1))) (close_member k a)
  unfolding close_member
  close-Gives k a t = record { run = λ s i. (t, (t, i)) }

  module _ (agree : Answers w kept) where
    opened-Post :
        (fuel : ℕ) (o : ObjectRef) (m : String) (d : ℕ) (x : Opened)
        → Enters w kept (walk_member w fuel)
        → Openings (o, m) x
        → Post w kept (Tells (Holds w kept (Goal.member o m))) (elim x [
          | answered walk s' ↦ ok (walk, s')
          | opened s' ↦ (walk_kind w (walk_member w fuel) o m d >>= close_member (o, m)) s'
        ])
    opened-Post fuel o m d (answered a s) ih h = h
    opened-Post fuel o m d (opened s) ih h =
        (bind-Gives w kept (Tells (Holds w kept (Goal.member o m)))
            (Tells (Holds w kept (Goal.member o m))) (walk_kind w (walk_member w fuel) o m d)
            (close_member (o, m))
            (kind-Gives agree (walk_member w fuel) ih o m d (find_member w.schema o.object_type m)
              refl)
            (close-Gives (o, m))).run
          s h

    exhausted-Post :
        (o : ObjectRef) (m : String) (x : Opened)
        → Openings (o, m) x
        → Post w kept
            (Tells (Holds w kept (Goal.member o m)))
            (elim x [ answered walk s' ↦ ok (walk, s') | opened s' ↦ exhausted ])
    exhausted-Post o m (answered a s) h = h
    exhausted-Post o m (opened s) h = tt

    member_gives : (fuel : ℕ) → Enters w kept (walk_member w fuel)
    unfolding walk_member
    member_gives zero = record {
      at = λ o m d. record { run = λ s i. exhausted-Post o m _ (open_member_true (o, m) d s i) };
    }
    member_gives (suc fuel) = record {
      at = λ o m d. record {
        run = λ s i. opened-Post fuel o m d _ (member_gives fuel) (open_member_true (o, m) d s i);
      };
    }

    -- What the walk answers of the member it was asked for.
    pub walk-Post :
        (o : ObjectRef) (m : String)
        → Post w kept (Tells (Holds w kept (Goal.member o m))) (walk_relations w o m)
    unfolding walk_relations
    walk-Post o m = ((member_gives (max_depth + 1)).at o m 0).run started tt

-- When the storage answers from the relations kept, or fails, the answer of a walk is right: found
-- only if the subject stands in the member, not found only if it does not. An undecided walk says
-- neither.
pub walk-Tells :
    (w : Walker) (kept : Kept)
    → Answers w kept
    → (o : ObjectRef) (m : String) (a : Walk) (t : WalkState) → walk_relations w o m ≡ ok (a, t)
    → Tells (Stands w.schema kept w.subject (Goal.member o m)) a
walk-Tells w kept agree o m a t e =
    (subst (Post w kept (Tells (Holds w kept (Goal.member o m)))) e (walk-Post w kept agree o m)).0
