-- ===== src/Authz/Check/Sound.antt =====
-- The answers of the walk of crates/saffui-core/src/authz/relations/check.rs against the meaning.
use saffui.Base.{
  ℕ, ◌+◌, String, ◌≡◌, subst, true, false, some, List, [], ◌∷◌, inl, inr, Bool-cases, Option-cases,
  any-mem, mem-any, mem-filter_by, filter_by-mem, filter_by, any, pair_keys, text_keys,
}
use saffui.Authz.Schema.{
  ObjectRef, SubjectRef, AllowedSubject, Rule, MemberKind, find_member, object_keys,
}
use saffui.Authz.Walk.{found, undecided, Subjects, read, bound, Walker, pure}
use saffui.Authz.Check.{
  admits, admits_object, is_itself, walk_until_found, Enter, named_walks, object_walks,
  admitted_walks, walk_relation, walk_arrow, read_subjects,
}
use saffui.Authz.Check.Spec.{Kept, Goal, itself, through, permits, arrow, Tells, Answers}
use saffui.Authz.Check.Reads.{Reads, read-Gives}
use saffui.Authz.Check.Loops.{Tells-iff}
use saffui.Authz.Check.Sums.{Holds, Gives, bind-Gives, pure-Gives, Each, SomeHolds, union-Gives}
use saffui.Authz.Check.Goals.{
  named_goals, named_goals-mem, mem-named_goals, object_goals, object_goals-mem, mem-object_goals,
}

module _ (w : Walker) (kept : Kept) where
  -- Going on to a member answers for that member.
  pub record Enters (enter : Enter) : Type 0 where
    pub at :
        (o : ObjectRef) (m : String) (d : ℕ)
        → Gives w kept (Tells (Holds w kept (Goal.member o m))) (enter o m d)

  module _ (enter : Enter) (go : Enters enter) (d : ℕ) where
    named-Each : (ss : List SubjectRef) → Each w kept (named_goals ss) (named_walks enter d ss)
    unfolding named_walks
    named-Each [] = tt
    named-Each (x ∷ ss) = elim (Option-cases x.member) [
      | inl q ↦ rw (q, named_goals, named_walks) (named-Each ss)
      | inr (n, q) ↦ rw (q, named_goals, named_walks) (go.at x.object n (d + 1), named-Each ss)
    ]

    -- A relation of `o`, with what it admits of the subjects kept.
    module _ (o : ObjectRef) (m : String) (allowed : List AllowedSubject)
        (admit : find_member w.schema o.object_type m ≡ some (MemberKind.relation allowed)) where
      abbrev admitted : List SubjectRef
      admitted = filter_by (admits allowed) (kept o m)

      relation_goals : SomeHolds w kept (named_goals admitted) → Holds w kept (Goal.member o m)
      relation_goals (g, mem, h) =
          let (s, n, k, q, e) = mem-named_goals admitted g mem in
          let (k', a) = filter_by-mem (admits allowed) s (kept o m) k in
          through allowed s n admit k' a q (subst (Holds w kept) e h)

      goals_relation :
          any (is_itself w.subject) admitted ≡ false
          → Holds w kept (Goal.member o m)
          → SomeHolds w kept (named_goals admitted)
      goals_relation e (itself allowed' s f k a i) =
          let q : allowed' ≡ allowed = cc in
          let k' =
            mem-filter_by (admits allowed) s (kept o m) k (subst (λ l. admits l s ≡ true) q a) in
          absurd (cc (mem-any (is_itself w.subject) s admitted k' i))
      goals_relation e (through allowed' s n f k a q h) =
          let p : allowed' ≡ allowed = cc in
          let k' =
            mem-filter_by (admits allowed) s (kept o m) k (subst (λ l. admits l s ≡ true) p a) in
          (Goal.member s.object n, named_goals-mem s n admitted k' q, h)
      goals_relation e (permits r f h) = absurd (cc)

      admitted-Holds : any (is_itself w.subject) admitted ≡ true → Holds w kept (Goal.member o m)
      admitted-Holds e =
          let (s, k, i) = any-mem (is_itself w.subject) admitted e in
          let (k', a) = filter_by-mem (admits allowed) s (kept o m) k in
          itself allowed s admit k' a i

      admitted-Gives :
          Gives w kept (Tells (Holds w kept (Goal.member o m))) (admitted_walks w enter d admitted)
      unfolding admitted_walks
      admitted-Gives = elim (Bool-cases (any (is_itself w.subject) admitted)) [
        | inl e ↦
            rw e
              (pure-Gives w kept (Tells (Holds w kept (Goal.member o m))) found (admitted-Holds e))
        | inr e ↦ rw e (
            Tells-iff w kept (walk_until_found (named_walks enter d admitted) []) relation_goals
              (goals_relation e)
              (union-Gives w kept (named_goals admitted) (named_walks enter d admitted)
                (named-Each admitted)))
      ]

  module _ (agree : Answers w kept) (enter : Enter) (go : Enters enter) where
    relation_read :
        (o : ObjectRef) (m : String) (d : ℕ) (allowed : List AllowedSubject)
        → find_member w.schema o.object_type m ≡ some (MemberKind.relation allowed)
        → (a : Subjects) → Reads w kept agree o m a
        → Gives w kept (Tells (Holds w kept (Goal.member o m))) (elim a [
          | read subjects ↦ admitted_walks w enter d (filter_by (admits allowed) subjects)
          | bound limit ↦ pure (undecided limit)
        ])
    relation_read o m d allowed f (read subjects) e = rw e (admitted-Gives enter go d o m allowed f)
    relation_read o m d allowed f (bound limit) e =
        pure-Gives w kept (Tells (Holds w kept (Goal.member o m))) (undecided limit) tt

    pub relation-Gives :
        (o : ObjectRef) (m : String) (d : ℕ) (allowed : List AllowedSubject)
        → find_member w.schema o.object_type m ≡ some (MemberKind.relation allowed)
        → Gives w kept (Tells (Holds w kept (Goal.member o m))) (walk_relation w enter o m d)
    unfolding walk_relation
    relation-Gives o m d allowed f =
        rw (f, walk_relation)
          (bind-Gives w kept (Reads w kept agree o m) (Tells (Holds w kept (Goal.member o m)))
            (read_subjects w o m) _ (read-Gives w kept agree o m) (relation_read o m d allowed f))

    module _ (o : ObjectRef) (l m : String) (d : ℕ) (allowed : List AllowedSubject)
        (f : find_member w.schema o.object_type l ≡ some (MemberKind.relation allowed)) where
      abbrev pointed : List SubjectRef
      pointed = filter_by (admits_object allowed) (kept o l)

      arrow_goals :
          SomeHolds w kept (object_goals m pointed) → Holds w kept (Goal.rule o (Rule.arrow l m))
      arrow_goals (g, k, h) =
          let (s, n, e) = mem-object_goals m g pointed k in
          let (n', a) = filter_by-mem (admits_object allowed) s (kept o l) n in
          arrow allowed s f n' a (subst (Holds w kept) e h)

      goals_arrow :
          Holds w kept (Goal.rule o (Rule.arrow l m)) → SomeHolds w kept (object_goals m pointed)
      goals_arrow (arrow allowed' s f' n a h) =
          let q : allowed' ≡ allowed = cc in
          let k =
            mem-filter_by (admits_object allowed) s (kept o l) n
              (subst (λ x. admits_object x s ≡ true) q a) in
          (Goal.member s.object m, object_goals-mem m s pointed k, h)

      object-Each :
          (ss : List SubjectRef) → Each w kept (object_goals m ss) (object_walks enter m d ss)
      unfolding object_walks
      object-Each [] = tt
      object-Each (s ∷ ss) = (go.at s.object m (d + 1), object-Each ss)

      arrow_read :
          (a : Subjects)
          → Reads w kept agree o l a
          → Gives w kept (Tells (Holds w kept (Goal.rule o (Rule.arrow l m)))) (elim a [
            | read subjects ↦
                walk_until_found
                  (object_walks enter m d (filter_by (admits_object allowed) subjects))
                  []
            | bound limit ↦ pure (undecided limit)
          ])
      arrow_read (read subjects) e = rw e (
          Tells-iff w kept (walk_until_found (object_walks enter m d pointed) []) arrow_goals
            goals_arrow
            (union-Gives w kept (object_goals m pointed) (object_walks enter m d pointed)
              (object-Each pointed)))
      arrow_read (bound limit) e =
          pure-Gives w kept (Tells (Holds w kept (Goal.rule o (Rule.arrow l m)))) (undecided limit)
            tt

      pub arrow-Gives :
          Gives w kept
            (Tells (Holds w kept (Goal.rule o (Rule.arrow l m))))
            (walk_arrow w enter o l m d)
      unfolding walk_arrow
      arrow-Gives =
          rw (f, walk_arrow)
            (bind-Gives w kept (Reads w kept agree o l)
              (Tells (Holds w kept (Goal.rule o (Rule.arrow l m)))) (read_subjects w o l) _
              (read-Gives w kept agree o l) arrow_read)
