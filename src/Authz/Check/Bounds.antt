-- ===== src/Authz/Check/Bounds.antt =====
-- The walk of crates/saffui-core/src/authz/relations/check.rs ends by itself, and stays within its
-- bounds on the reads of the storage and on the members it enters.
use saffui.Base.{
  ℕ, zero, suc, ◌+◌, ◌≤◌, ◌<◌, String, ◌≡◌, ◌≢◌, refl, ap, ◌∙◌, subst, [], ◌∷◌, arith, erase,
  erase_head, length, pair_keys, text_keys,
}
use saffui.Authz.Schema.{ObjectRef, find_member, object_keys}
use saffui.Authz.Walk.{
  Walk, Walker, WalkState, Outcome, ok, err, exhausted, ◌>>=◌, max_depth, max_steps, max_reads,
}
use saffui.Authz.Check.{
  Opened, answered, opened, open_member, open_in_time, open_known, walk_kind, close_member,
  walk_member, walk_relations, started,
}
use saffui.Authz.Check.Grows.{Grows, After, Ends}
use saffui.Authz.Check.Ends.{EndsBelow, kind-Ends}

module _ (w : Walker) where
  -- A member that is opened lies within the depth, and its key is what is walked first.
  record Opens (k : ObjectRef × String) (d : ℕ) (s t : WalkState) : Type 0 where
    within : d ≤ max_depth
    walking : t.walking ≡ k ∷ s.walking
    steps : t.steps ≡ s.steps + 1
    room : t.steps ≤ max_steps
    reads : t.reads ≡ s.reads
    known : t.known ≡ s.known
    served : t.served ≡ s.served

  abbrev Openings : ObjectRef × String → ℕ → WalkState → Opened → Type 0
  Openings k d s (answered a t) = Grows s t
  Openings k d s (opened t) = Opens k d s t

  open_after :
      (k : ObjectRef × String) (d : ℕ) (s : WalkState) (x : Opened)
      → open_member w k d s ≡ x
      → Openings k d s x
  unfolding open_member open_in_time open_known
  open_after k d s (answered a t) e = record {
    walking = ground arith;
    steps = ground arith;
    reads = ground arith;
    known = ground arith;
    served = ground arith;
  }
  open_after k d s (opened t) e = record {
    within = ground arith;
    walking = ground arith;
    steps = ground arith;
    room = ground arith;
    reads = ground arith;
    known = ground arith;
    served = ground arith;
  }

  close-Grows :
      (k : ObjectRef × String) (d : ℕ) (s t u v : WalkState) (a : Walk)
      → Opens k d s t
      → Grows t u
      → v.walking ≡ erase u.walking k
      → v.steps ≡ u.steps
      → v.reads ≡ u.reads
      → v.known ≡ (k, a) ∷ u.known
      → v.served ≡ u.served
      → Grows s v
  close-Grows k d s t u v a o g hw hs hr hk hv = record {
    walking = hw ∙ ap (λ l. erase l k) (g.walking ∙ o.walking) ∙ erase_head k s.walking;
    steps = omega arith;
    reads = omega arith;
    known = rw hk (omega (arith, ap length o.known));
    served = omega arith;
  }

  opened-After :
      (fuel : ℕ) (o : ObjectRef) (m : String) (d : ℕ) (s : WalkState) (x : Opened)
      → (d ≤ max_depth → EndsBelow w (walk_member w fuel) d)
      → Openings (o, m) d s x
      → After s (elim x [
        | answered walk s' ↦ ok (walk, s')
        | opened s' ↦ (walk_kind w (walk_member w fuel) o m d >>= close_member (o, m)) s'
      ])
  opened-After fuel o m d s (answered a t) ih g = g
  opened-After fuel o m d s (opened t) ih p = closed (walk_kind w (walk_member w fuel) o m d t) (
      (kind-Ends w (walk_member w fuel) o m d (find_member w.schema o.object_type m) refl
          (ih p.within)).run
        t)
    where
      closed :
          (r : Outcome (Walk × WalkState))
          → After t r
          → After s (elim r [
            | ok (a, s') ↦ close_member (o, m) a s'
            | err e ↦ err e
            | exhausted ↦ exhausted
          ])
      closed (ok (a, u)) g =
          unfold close_member in close-Grows (o, m) d s t u _ a p g refl refl refl refl refl
      closed (err e) g = tt
      closed exhausted g = g

  -- With a level of fuel for each level of depth left, a walk of a member ends.
  member-Ends :
      (fuel : ℕ) (o : ObjectRef) (m : String) (d : ℕ)
      → max_depth < fuel + d
      → Ends (walk_member w fuel o m d)
  unfolding walk_member
  member-Ends zero o m d h = record {
    run = λ s. shallow s (open_member w (o, m) d s) (open_after (o, m) d s _ refl);
  }
    where
      shallow :
          (s : WalkState) (x : Opened)
          → Openings (o, m) d s x
          → After s (elim x [ answered walk s' ↦ ok (walk, s') | opened s' ↦ exhausted ])
      shallow s (answered a t) g = g
      shallow s (opened t) p = absurd (omega (arith, p.within))
  member-Ends (suc fuel) o m d h = record {
    run = λ s.
        opened-After fuel o m d s (open_member w (o, m) d s)
          (λ l. record { at = λ o' m' k b. member-Ends fuel o' m' k (omega arith) })
          (open_after (o, m) d s _ refl);
  }

  pub walk_ends : (o : ObjectRef) (m : String) → After started (walk_relations w o m)
  unfolding walk_relations
  walk_ends o m = (member-Ends (max_depth + 1) o m 0 (omega arith)).run started

-- Whatever the storage and the clock answer, a walk ends without want of fuel, the recursion depth
-- of 64 members being enough; and when it answers, it has read the storage at most 1000 times,
-- found the answers of at most 10000 members, and has nothing left that is being walked.
pub walk_within_bounds :
    (w : Walker) (o : ObjectRef) (m : String)
    → (walk_relations w o m ≢ exhausted)
      × ((a : Walk) (t : WalkState)
          → walk_relations w o m ≡ ok (a, t)
          → (t.served ≤ max_reads) × (length t.known ≤ max_steps) × (t.walking ≡ []))
walk_within_bounds w o m = (
  (λ e. subst (After started) e (walk_ends w o m)),
  λ a t e.
      let g = subst (After started) e (walk_ends w o m) in
      (omega (arith, g.served), omega (arith, g.known), g.walking),
)
