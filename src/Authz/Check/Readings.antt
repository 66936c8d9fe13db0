-- ===== src/Authz/Check/Readings.antt =====
-- How the goals of a rule of crates/saffui-core/src/authz/relations/check.rs stand with what its walks
-- are for.
use saffui.Base.{String, ◌≡◌, sym, subst, none, some, List, pair_keys, text_keys}
use saffui.Authz.Schema.{
  ObjectRef, AllowedSubject, Rule, Rules, nil, cons, MemberKind, find_member, object_keys,
}
use saffui.Authz.Walk.{Walker}
use saffui.Authz.Check.Spec.{Kept, Goal, itself, through, permits, computed, arrow, one_of, all_of}
use saffui.Authz.Check.Loops.{Inter}
use saffui.Authz.Check.Sums.{Holds, SomeHolds}
use saffui.Authz.Check.Goals.{rule_goals, rule_goals-mem, mem-rule_goals}

module _ (w : Walker) (kept : Kept) where
  pub union_goals :
      (o : ObjectRef) (rs : Rules)
      → SomeHolds w kept (rule_goals o rs)
      → Holds w kept (Goal.rule o (Rule.union rs))
  union_goals o rs (g, k, h) =
      let (r, n, e) = mem-rule_goals o g rs k in one_of r n (subst (Holds w kept) e h)

  pub goals_union :
      (o : ObjectRef) (rs : Rules)
      → Holds w kept (Goal.rule o (Rule.union rs))
      → SomeHolds w kept (rule_goals o rs)
  goals_union o rs (one_of r k h) = (Goal.rule o r, rule_goals-mem o r rs k, h)

  pub Inter-goals :
      (o : ObjectRef) (rs : Rules)
      → Inter w kept (rule_goals o rs)
      → Holds w kept (Goal.rule o (Rule.intersection rs))
  Inter-goals o nil h = absurd h
  Inter-goals o (cons r rs) h = all_of λ x k. h (Goal.rule o x) (rule_goals-mem o x (cons r rs) k)

  pub goals-Inter :
      (o : ObjectRef) (rs : Rules)
      → Holds w kept (Goal.rule o (Rule.intersection rs))
      → Inter w kept (rule_goals o rs)
  goals-Inter o nil h = elim h [ ]
  goals-Inter o (cons r rs) (all_of h) = λ g k.
      let (x, n, e) = mem-rule_goals o g (cons r rs) k in subst (Holds w kept) (sym e) (h x n)

  pub goals_computed :
      (o : ObjectRef) (m : String)
      → Holds w kept (Goal.rule o (Rule.computed m))
      → Holds w kept (Goal.member o m)
  goals_computed o m (computed h) = h

  pub no_arrow :
      (o : ObjectRef) (l m : String)
      → ((allowed : List AllowedSubject)
          → find_member w.schema o.object_type l ≡ some (MemberKind.relation allowed)
          → ⊥)
      → Holds w kept (Goal.rule o (Rule.arrow l m))
      → ⊥
  no_arrow o l m f (arrow allowed s e k a h) = f allowed e

  pub no_member :
      (o : ObjectRef) (m : String)
      → find_member w.schema o.object_type m ≡ none
      → Holds w kept (Goal.member o m)
      → ⊥
  no_member o m e (itself allowed s f k a i) = cc
  no_member o m e (through allowed s n f k a q h) = cc
  no_member o m e (permits r f h) = cc

  pub goals_permits :
      (o : ObjectRef) (m : String) (r : Rule)
      → find_member w.schema o.object_type m ≡ some (MemberKind.permission r)
      → Holds w kept (Goal.member o m)
      → Holds w kept (Goal.rule o r)
  goals_permits o m r e (itself allowed s f k a i) = absurd (cc)
  goals_permits o m r e (through allowed s n f k a q h) = absurd (cc)
  goals_permits o m r e (permits x f h) =
      let q : x ≡ r = cc in subst (λ y. Holds w kept (Goal.rule o y)) q h
