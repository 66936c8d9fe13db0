-- ===== src/Authz/Check/Grows.antt =====
-- How the actions of the walk of crates/saffui-core/src/authz/relations/check.rs change its state:
-- the rules for a bind, for the loop of a sum and for the loop of an intersection.
use Prim.Native.Nat.{min}
use saffui.Base.{
  ◌+◌, ◌≤◌, ◌≡◌, refl, ◌∙◌, Option, none, some, List, [], ◌∷◌, ◌++◌, arith, length, pair_keys,
  text_keys,
}
use saffui.Authz.Schema.{object_keys}
use saffui.Authz.Walk.{
  WalkLimit, Walk, found, not_found, undecided, WalkState, Outcome, ok, err, exhausted, M, ◌>>=◌,
  pure, max_steps, max_reads,
}
use saffui.Authz.Check.{walk_until_found, walk_until_missing, walk_intersection}

-- How a walk changes its state: what was being walked is again, and each member found and each read
-- served is paid for by a step and by a read within the bounds.
pub record Grows (s t : WalkState) : Type 0 where
  pub walking : t.walking ≡ s.walking
  pub steps : s.steps ≤ t.steps
  pub reads : s.reads ≤ t.reads
  pub known : length t.known + min s.steps max_steps ≤ length s.known + min t.steps max_steps
  pub served : t.served + min s.reads max_reads ≤ s.served + min t.reads max_reads

pub Grows-refl : (s : WalkState) → Grows s s
Grows-refl s = record {
  walking = refl;
  steps = omega arith;
  reads = omega arith;
  known = omega arith;
  served = omega arith;
}

pub Grows-trans : {s t u : WalkState} → Grows s t → Grows t u → Grows s u
Grows-trans g h = record {
  walking = h.walking ∙ g.walking;
  steps = omega arith;
  reads = omega arith;
  known = omega arith;
  served = omega arith;
}

-- The action ends without want of fuel, and leaves the state as `Grows` says.
abbrev pub After : {A : Type 0} → WalkState → Outcome (A × WalkState) → Type 0
After s (ok (a, t)) = Grows s t
After s (err e) = Unit
After s exhausted = ⊥

pub record Ends {A : Type 0} (m : M A) : Type 0 where
  pub run : (s : WalkState) → After s (m s)

After-trans :
    {A : Type 0} {s t : WalkState} (r : Outcome (A × WalkState)) → Grows s t → After t r → After s r
After-trans (ok (a, u)) g h = Grows-trans g h
After-trans (err e) g h = tt
After-trans exhausted g h = h

After-bind :
    {A B : Type 0} (s : WalkState) (r : Outcome (A × WalkState)) (f : A → M B)
    → After s r
    → ((a : A) → Ends (f a))
    → After s (elim r [ ok (a, s') ↦ f a s' | err e ↦ err e | exhausted ↦ exhausted ])
After-bind s (ok (a, t)) f g k = After-trans (f a t) g ((k a).run t)
After-bind s (err e) f g k = tt
After-bind s exhausted f g k = g

pub bind-Ends :
    {A B : Type 0} (m : M A) (f : A → M B) → Ends m → ((a : A) → Ends (f a)) → Ends (m >>= f)
bind-Ends m f h k = record { run = λ s. After-bind s (m s) f (h.run s) k }

pub pure-Ends : {A : Type 0} (a : A) → Ends (pure a)
pure-Ends a = record { run = Grows-refl }

abbrev pub AllEnd : List (M Walk) → Type 0
AllEnd [] = Unit
AllEnd (m ∷ ms) = Ends m × AllEnd ms

sum_step-Ends :
    (s : WalkState) (ms : List (M Walk)) (acc : List Walk) (r : Outcome (Walk × WalkState))
    → ((b : Walk) → Ends (walk_until_found ms (acc ++ b ∷ [])))
    → After s r
    → After s (elim r [
      | ok (found, s') ↦ ok (found, s')
      | ok (walk, s') ↦ walk_until_found ms (acc ++ walk ∷ []) s'
      | err e ↦ err e
      | exhausted ↦ exhausted
    ])
sum_step-Ends s ms acc (ok (found, t)) ih g = g
sum_step-Ends s ms acc (ok (not_found, t)) ih g =
    After-trans (walk_until_found ms _ t) g ((ih not_found).run t)
sum_step-Ends s ms acc (ok (undecided l, t)) ih g =
    After-trans (walk_until_found ms _ t) g ((ih (undecided l)).run t)
sum_step-Ends s ms acc (err e) ih g = tt
sum_step-Ends s ms acc exhausted ih g = g

pub sum-Ends : (ms : List (M Walk)) (acc : List Walk) → AllEnd ms → Ends (walk_until_found ms acc)
unfolding walk_until_found
sum-Ends [] acc h = record { run = Grows-refl }
sum-Ends (m ∷ ms) acc (hm, hs) = record {
  run = λ s. sum_step-Ends s ms acc (m s) (λ b. sum-Ends ms (acc ++ b ∷ []) hs) (hm.run s);
}

meet_step-Ends :
    (s : WalkState) (ms : List (M Walk)) (limit : Option WalkLimit) (r : Outcome (Walk × WalkState))
    → ((l : Option WalkLimit) → Ends (walk_until_missing ms l))
    → After s r
    → After s (elim r [
      | ok (not_found, s') ↦ ok (not_found, s')
      | ok (undecided other, s') ↦ walk_until_missing ms (some other) s'
      | ok (found, s') ↦ walk_until_missing ms limit s'
      | err e ↦ err e
      | exhausted ↦ exhausted
    ])
meet_step-Ends s ms limit (ok (found, t)) ih g =
    After-trans (walk_until_missing ms _ t) g ((ih limit).run t)
meet_step-Ends s ms limit (ok (not_found, t)) ih g = g
meet_step-Ends s ms limit (ok (undecided l, t)) ih g =
    After-trans (walk_until_missing ms _ t) g ((ih (some l)).run t)
meet_step-Ends s ms limit (err e) ih g = tt
meet_step-Ends s ms limit exhausted ih g = g

meet-Ends : (ms : List (M Walk)) (l : Option WalkLimit) → AllEnd ms → Ends (walk_until_missing ms l)
unfolding walk_until_missing
meet-Ends [] l h = record { run = Grows-refl }
meet-Ends (m ∷ ms) l (hm, hs) = record {
  run = λ s. meet_step-Ends s ms l (m s) (λ x. meet-Ends ms x hs) (hm.run s);
}

pub intersection-Ends : (ms : List (M Walk)) → AllEnd ms → Ends (walk_intersection ms)
unfolding walk_intersection
intersection-Ends [] h = pure-Ends not_found
intersection-Ends (m ∷ ms) h = meet-Ends (m ∷ ms) none h
