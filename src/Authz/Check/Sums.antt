-- ===== src/Authz/Check/Sums.antt =====
-- What a step of a walk of crates/saffui-core/src/authz/relations/check.rs gives, and a walk until one
-- of several is found.
use mathlib.Core.List.{Memᴰ}
use saffui.Base.{
  ◌≡◌, ◌≢◌, refl, sym, subst, Option, none, some, List, [], ◌∷◌, ◌++◌, All, pair_keys, text_keys,
}
use saffui.Authz.Schema.{object_keys}
use saffui.Authz.Walk.{
  WalkLimit, Walk, found, not_found, undecided, Walker, WalkState, Outcome, ok, err, exhausted, M,
  ◌>>=◌, pure,
}
use saffui.Authz.Check.{fold_from, fold_union, walk_until_found}
use saffui.Authz.Check.Spec.{Kept, Goal, Stands, Tells}

-- What a list of walks folds to, given that none of them found.
abbrev NoneFound : List Walk → Type 0
NoneFound = All (λ a. a ≢ found)

fold_from-ne-found : (l : Option WalkLimit) (ws : List Walk) → NoneFound ws → fold_from l ws ≢ found
unfolding fold_from
fold_from-ne-found l (found ∷ ws) h = absurd (h.0 refl)
fold_from-ne-found l (not_found ∷ ws) h = fold_from-ne-found l ws h.1
fold_from-ne-found l (undecided x ∷ ws) h = fold_from-ne-found (some x) ws h.1
fold_from-ne-found none [] h = λ e. cc
fold_from-ne-found (some l) [] h = λ e. cc

fold_from-snoc :
    (l : Option WalkLimit) (ws : List Walk) (a : Walk)
    → fold_from l (ws ++ a ∷ []) ≡ not_found
    → (fold_from l ws ≡ not_found) × (a ≡ not_found)
unfolding fold_from
fold_from-snoc l (found ∷ ws) a h = absurd (cc)
fold_from-snoc l (not_found ∷ ws) a h = fold_from-snoc l ws a h
fold_from-snoc l (undecided x ∷ ws) a h = fold_from-snoc (some x) ws a h
fold_from-snoc none [] found h = absurd (cc)
fold_from-snoc none [] not_found h = (refl, refl)
fold_from-snoc none [] (undecided x) h = absurd (cc)
fold_from-snoc (some l) [] found h = absurd (cc)
fold_from-snoc (some l) [] not_found h = absurd (cc)
fold_from-snoc (some l) [] (undecided x) h = absurd (cc)

NoneFound-snoc : (ws : List Walk) (a : Walk) → NoneFound ws → a ≢ found → NoneFound (ws ++ a ∷ [])
NoneFound-snoc [] a h k = (k, tt)
NoneFound-snoc (x ∷ ws) a h k = (h.0, NoneFound-snoc ws a h.1 k)

module _ (w : Walker) (kept : Kept) where
  -- The meaning, for this walk.
  abbrev pub Holds : Goal → Type 0
  Holds g = Stands w.schema kept w.subject g

  -- Everything found of a member so far is right.
  abbrev pub IsTrue : WalkState → Type 0
  IsTrue s = All (λ e. Tells (Holds (Goal.member e.0.0 e.0.1)) e.1) s.known

  abbrev pub Post : {A : Type 0} → (A → Type 0) → Outcome (A × WalkState) → Type 0
  Post Q (ok (a, s)) = Q a × IsTrue s
  Post Q (err e) = Unit
  Post Q exhausted = Unit

  -- An action that keeps what is known right, and whose result is as `Q` says.
  pub record Gives {A : Type 0} (Q : A → Type 0) (m : M A) : Type 0 where
    pub run : (s : WalkState) → IsTrue s → Post Q (m s)

  bind-Post :
      {A B : Type 0} (Q : A → Type 0) (R : B → Type 0) (r : Outcome (A × WalkState)) (f : A → M B)
      → Post Q r
      → ((a : A) → Q a → Gives R (f a))
      → Post R (elim r [ ok (a, s') ↦ f a s' | err e ↦ err e | exhausted ↦ exhausted ])
  bind-Post Q R (ok (a, s)) f h k = (k a h.0).run s h.1
  bind-Post Q R (err e) f h k = tt
  bind-Post Q R exhausted f h k = tt

  pub bind-Gives :
      {A B : Type 0} (Q : A → Type 0) (R : B → Type 0) (m : M A) (f : A → M B)
      → Gives Q m
      → ((a : A) → Q a → Gives R (f a))
      → Gives R (m >>= f)
  bind-Gives Q R m f h k = record { run = λ s i. bind-Post Q R (m s) f (h.run s i) k }

  pub pure-Gives : {A : Type 0} (Q : A → Type 0) (a : A) → Q a → Gives Q (pure a)
  pure-Gives Q a q = record { run = λ s i. (q, i) }

  -- Each walk of a list answers for the goal beside it.
  abbrev pub Each : List Goal → List (M Walk) → Type 0
  Each [] [] = Unit
  Each (g ∷ gs) (m ∷ ms) = Gives (Tells (Holds g)) m × Each gs ms
  Each _ _ = ⊥

  abbrev pub SomeHolds : List Goal → Type 0
  SomeHolds gs = (g : Goal) × Memᴰ g gs × Holds g

  abbrev pub AllHold : List Goal → Type 0
  AllHold gs = (g : Goal) → Memᴰ g gs → Holds g

  some_tail : (g : Goal) (gs : List Goal) → SomeHolds gs → SomeHolds (g ∷ gs)
  some_tail g gs (x, m, h) = (x, Memᴰ.tail m, h)

  none_cons :
      (g : Goal) (gs : List Goal) → (Holds g → ⊥) → (SomeHolds gs → ⊥) → SomeHolds (g ∷ gs) → ⊥
  none_cons g gs n nos (x, Memᴰ.head e, h) = n (subst Holds e h)
  none_cons g gs n nos (x, Memᴰ.tail m, h) = nos (x, m, h)

  pub all_cons : (g : Goal) (gs : List Goal) → Holds g → AllHold gs → AllHold (g ∷ gs)
  all_cons g gs h hs x (Memᴰ.head e) = subst Holds (sym e) h
  all_cons g gs h hs x (Memᴰ.tail m) = hs x m

  -- What a sum of the goals answers: an answer that none holds rests on every walk before it too.
  abbrev Sums : List Goal → List Walk → Walk → Type 0
  Sums gs acc a = Tells (SomeHolds gs) a × (a ≡ not_found → fold_union acc ≡ not_found)

  Sums-nil : (acc : List Walk) (a : Walk) → a ≢ found → fold_union acc ≡ a → Sums [] acc a
  Sums-nil acc found h e = absurd (h refl)
  Sums-nil acc not_found h e = ((λ x. elim x.1 [ ]), λ _. e)
  Sums-nil acc (undecided l) h e = (tt, λ x. absurd (cc))

  Sums-cons :
      (g : Goal) (gs : List Goal) (acc : List Walk) (b a : Walk)
      → Tells (Holds g) b
      → Sums gs (acc ++ b ∷ []) a
      → Sums (g ∷ gs) acc a
  unfolding fold_union
  Sums-cons g gs acc b found t h = (some_tail g gs h.0, λ x. absurd (cc))
  Sums-cons g gs acc b (undecided l) t h = (tt, λ x. absurd (cc))
  Sums-cons g gs acc b not_found t h =
      let f = fold_from-snoc none acc b (h.1 refl) in
      (none_cons g gs (subst (Tells (Holds g)) f.1 t) h.0, λ _. f.0)

  sum_rest :
      (g : Goal) (gs : List Goal) (ms : List (M Walk)) (acc : List Walk) (b : Walk) (s : WalkState)
      → Gives (Sums gs (acc ++ b ∷ [])) (walk_until_found ms (acc ++ b ∷ []))
      → Tells (Holds g) b
      → IsTrue s
      → Post (Sums (g ∷ gs) acc) (walk_until_found ms (acc ++ b ∷ []) s)
  sum_rest g gs ms acc b s ih t i = weaken (walk_until_found ms (acc ++ b ∷ []) s) (ih.run s i)
    where
      weaken :
          (r : Outcome (Walk × WalkState))
          → Post (Sums gs (acc ++ b ∷ [])) r
          → Post (Sums (g ∷ gs) acc) r
      weaken (ok (a, s')) h = (Sums-cons g gs acc b a t h.0, h.1)
      weaken (err e) h = tt
      weaken exhausted h = tt

  sum_step :
      (g : Goal) (gs : List Goal) (ms : List (M Walk)) (acc : List Walk)
      → ((b : Walk)
          → b ≢ found
          → Gives (Sums gs (acc ++ b ∷ [])) (walk_until_found ms (acc ++ b ∷ [])))
      → (r : Outcome (Walk × WalkState)) → Post (Tells (Holds g)) r
      → Post (Sums (g ∷ gs) acc) (elim r [
        | ok (found, s') ↦ ok (found, s')
        | ok (walk, s') ↦ walk_until_found ms (acc ++ walk ∷ []) s'
        | err e ↦ err e
        | exhausted ↦ exhausted
      ])
  sum_step g gs ms acc ih (ok (found, s)) (t, i) = (((g, Memᴰ.head refl, t), λ x. absurd (cc)), i)
  sum_step g gs ms acc ih (ok (not_found, s)) (t, i) =
      sum_rest g gs ms acc not_found s (ih not_found (λ e. cc)) t i
  sum_step g gs ms acc ih (ok (undecided l, s)) (t, i) =
      sum_rest g gs ms acc (undecided l) s (ih (undecided l) (λ e. cc)) t i
  sum_step g gs ms acc ih (err e) h = tt
  sum_step g gs ms acc ih exhausted h = tt

  sum-Gives :
      (gs : List Goal) (ms : List (M Walk)) (acc : List Walk)
      → NoneFound acc
      → Each gs ms
      → Gives (Sums gs acc) (walk_until_found ms acc)
  unfolding walk_until_found fold_union
  sum-Gives [] [] acc n h = record {
    run = λ s i. (Sums-nil acc (fold_union acc) (fold_from-ne-found none acc n) refl, i);
  }
  sum-Gives [] (m ∷ ms) acc n h = absurd h
  sum-Gives (g ∷ gs) [] acc n h = absurd h
  sum-Gives (g ∷ gs) (m ∷ ms) acc n (hm, hs) = record {
    run = λ s i.
        sum_step g gs ms acc (λ b k. sum-Gives gs ms (acc ++ b ∷ []) (NoneFound-snoc acc b n k) hs)
          (m s) (hm.run s i);
  }

  pub union-Gives :
      (gs : List Goal) (ms : List (M Walk))
      → Each gs ms
      → Gives (Tells (SomeHolds gs)) (walk_until_found ms [])
  union-Gives gs ms h = record {
    run = λ s i. first (walk_until_found ms [] s) ((sum-Gives gs ms [] tt h).run s i);
  }
    where
      first : (r : Outcome (Walk × WalkState)) → Post (Sums gs []) r → Post (Tells (SomeHolds gs)) r
      first (ok (a, s)) h = (h.0.0, h.1)
      first (err e) h = tt
      first exhausted h = tt
