-- ===== src/Authz/Check/Ends.antt =====
-- The walks of crates/saffui-core/src/authz/relations/check.rs from a member that is open: each ends, and
-- only adds to what is known, where those it makes do.
use saffui.Base.{
  ℕ, ◌+◌, ◌≤◌, ◌<◌, String, ◌≡◌, refl, Option, none, some, List, [], ◌∷◌, inl, inr, arith,
  Bool-cases, Option-cases, any, filter_by, pair_keys, text_keys,
}
use saffui.Authz.Schema.{
  ObjectRef, SubjectRef, AllowedSubject, Rule, Rules, nil, cons, MemberKind, find_member,
  object_keys,
}
use saffui.Authz.Walk.{
  found, not_found, undecided, Subjects, read, bound, Walker, WalkState, Outcome, ok, err,
  exhausted, pure,
}
use saffui.Authz.Check.{
  walk_until_found, admits, admits_object, is_itself, Enter, named_walks, object_walks,
  admitted_walks, walk_relation, walk_arrow, walk_rule, rule_walks, check_time, after_read, fetch,
  read_in_time, read_subjects, walk_kind,
}
use saffui.Authz.Check.Grows.{
  After, Ends, AllEnd, bind-Ends, pure-Ends, sum-Ends, intersection-Ends,
}

module _ (w : Walker) where
  read-After :
      (o : ObjectRef) (r : String) (s : WalkState) (x : Outcome (Subjects × WalkState))
      → read_subjects w o r s ≡ x
      → After s x
  unfolding read_subjects read_in_time check_time fetch after_read
  read-After o r s (ok (a, t)) e = record {
    walking = ground arith;
    steps = ground arith;
    reads = ground arith;
    known = ground arith;
    served = ground arith;
  }
  read-After o r s (err x) e = tt
  read-After o r s exhausted e = ground arith

  read-Ends : (o : ObjectRef) (r : String) → Ends (read_subjects w o r)
  read-Ends o r = record { run = λ s. read-After o r s (read_subjects w o r s) refl }

  -- Going on to a member below the depth `d` ends.
  pub record EndsBelow (enter : Enter) (d : ℕ) : Type 0 where
    pub at : (o : ObjectRef) (m : String) (k : ℕ) → d < k → Ends (enter o m k)

  deeper : (enter : Enter) (d k : ℕ) → d ≤ k → EndsBelow enter d → EndsBelow enter k
  deeper enter d k h e = record { at = λ o m n l. e.at o m n (omega arith) }

  module _ (enter : Enter) where
    named_end : (d : ℕ) (ss : List SubjectRef) → EndsBelow enter d → AllEnd (named_walks enter d ss)
    unfolding named_walks
    named_end d [] h = tt
    named_end d (x ∷ ss) h = elim (Option-cases x.member) [
      | inl q ↦ rw (q, named_walks) (named_end d ss h)
      | inr (n, q) ↦ rw (q, named_walks) (h.at x.object n (d + 1) (omega arith), named_end d ss h)
    ]

    objects_end :
        (m : String) (d : ℕ) (ss : List SubjectRef)
        → EndsBelow enter d
        → AllEnd (object_walks enter m d ss)
    unfolding object_walks
    objects_end m d [] h = tt
    objects_end m d (x ∷ ss) h = (h.at x.object m (d + 1) (omega arith), objects_end m d ss h)

    admitted_end :
        (d : ℕ) (ss : List SubjectRef) → EndsBelow enter d → Ends (admitted_walks w enter d ss)
    unfolding admitted_walks
    admitted_end d ss h = elim (Bool-cases (any (is_itself w.subject) ss)) [
      | inl e ↦ rw e (pure-Ends found)
      | inr e ↦ rw e (sum-Ends (named_walks enter d ss) [] (named_end d ss h))
    ]

    relation_read-Ends :
        (d : ℕ) (allowed : List AllowedSubject)
        → EndsBelow enter d
        → (x : Subjects)
        → Ends (elim x [
          | read subjects ↦ admitted_walks w enter d (filter_by (admits allowed) subjects)
          | bound limit ↦ pure (undecided limit)
        ])
    relation_read-Ends d allowed h (read ss) = admitted_end d (filter_by (admits allowed) ss) h
    relation_read-Ends d allowed h (bound l) = pure-Ends (undecided l)

    relation-Ends :
        (o : ObjectRef) (m : String) (d : ℕ) (x : Option MemberKind)
        → find_member w.schema o.object_type m ≡ x
        → EndsBelow enter d
        → Ends (walk_relation w enter o m d)
    unfolding walk_relation
    relation-Ends o m d (some (MemberKind.relation allowed)) e h =
        rw (e, walk_relation)
          (bind-Ends (read_subjects w o m) _ (read-Ends o m) (relation_read-Ends d allowed h))
    relation-Ends o m d (some (MemberKind.permission r)) e h =
        rw (e, walk_relation) (pure-Ends not_found)
    relation-Ends o m d none e h = rw (e, walk_relation) (pure-Ends not_found)

    arrow_read-Ends :
        (m : String) (d : ℕ) (allowed : List AllowedSubject)
        → EndsBelow enter d
        → (x : Subjects)
        → Ends (elim x [
          | read subjects ↦
              walk_until_found
                (object_walks enter m d (filter_by (admits_object allowed) subjects))
                []
          | bound limit ↦ pure (undecided limit)
        ])
    arrow_read-Ends m d allowed h (read ss) = sum-Ends _ [] (objects_end m d _ h)
    arrow_read-Ends m d allowed h (bound l) = pure-Ends (undecided l)

    arrow-Ends :
        (o : ObjectRef) (l m : String) (d : ℕ) (x : Option MemberKind)
        → find_member w.schema o.object_type l ≡ x
        → EndsBelow enter d
        → Ends (walk_arrow w enter o l m d)
    unfolding walk_arrow
    arrow-Ends o l m d (some (MemberKind.relation allowed)) e h =
        rw (e, walk_arrow)
          (bind-Ends (read_subjects w o l) _ (read-Ends o l) (arrow_read-Ends m d allowed h))
    arrow-Ends o l m d (some (MemberKind.permission r)) e h =
        rw (e, walk_arrow) (pure-Ends not_found)
    arrow-Ends o l m d none e h = rw (e, walk_arrow) (pure-Ends not_found)

    mutual
      unfolding walk_rule

      rule-Ends :
          (o : ObjectRef) (r : Rule) (d : ℕ) → EndsBelow enter d → Ends (walk_rule w enter o r d)
      rule-Ends o (Rule.computed m) d h = h.at o m (d + 1) (omega arith)
      rule-Ends o (Rule.arrow l m) d h =
          arrow-Ends o l m d (find_member w.schema o.object_type l) refl h
      rule-Ends o (Rule.union rs) d h = sum-Ends (rule_walks w enter o rs d) [] (rules_end o rs d h)
      rule-Ends o (Rule.intersection rs) d h =
          intersection-Ends (rule_walks w enter o rs d) (rules_end o rs d h)

      rules_end :
          (o : ObjectRef) (rs : Rules) (d : ℕ)
          → EndsBelow enter d
          → AllEnd (rule_walks w enter o rs d)
      rules_end o nil d h = tt
      rules_end o (cons r rs) d h =
          (rule-Ends o r (d + 1) (deeper enter d (d + 1) (omega arith) h), rules_end o rs d h)

    pub kind-Ends :
        (o : ObjectRef) (m : String) (d : ℕ) (x : Option MemberKind)
        → find_member w.schema o.object_type m ≡ x
        → EndsBelow enter d
        → Ends (walk_kind w enter o m d)
    unfolding walk_kind
    kind-Ends o m d none e h = rw (e, walk_kind) (pure-Ends not_found)
    kind-Ends o m d (some (MemberKind.relation allowed)) e h =
        rw (e, walk_kind) (relation-Ends o m d (some (MemberKind.relation allowed)) e h)
    kind-Ends o m d (some (MemberKind.permission r)) e h = rw (e, walk_kind) (rule-Ends o r d h)
