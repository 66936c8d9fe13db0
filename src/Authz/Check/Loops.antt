-- ===== src/Authz/Check/Loops.antt =====
-- Actions of the walk of crates/saffui-core/src/authz/relations/check.rs that keep what is known
-- right: the rules for a bind, for the loop of a sum and for the loop of an intersection.
use mathlib.Core.List.{Memᴰ}
use saffui.Base.{◌≡◌, refl, Option, none, some, List, [], ◌∷◌, pair_keys, text_keys}
use saffui.Authz.Schema.{object_keys}
use saffui.Authz.Walk.{
  WalkLimit, Walk, found, not_found, undecided, Walker, WalkState, Outcome, ok, err, exhausted, M,
}
use saffui.Authz.Check.{walk_until_missing, all_found, walk_intersection}
use saffui.Authz.Check.Spec.{Kept, Goal, Tells}
use saffui.Authz.Check.Sums.{Holds, Post, Gives, pure-Gives, Each, AllHold, all_cons}

module _ (w : Walker) (kept : Kept) where
  -- What an intersection of the goals answers, after the parts that gave `limit`.
  abbrev Meets : List Goal → Option WalkLimit → Walk → Type 0
  Meets gs limit a = Tells (AllHold w kept gs) a × (a ≡ found → limit ≡ none)

  Meets-found :
      (g : Goal) (gs : List Goal) (limit : Option WalkLimit) (a : Walk)
      → Holds w kept g
      → Meets gs limit a
      → Meets (g ∷ gs) limit a
  Meets-found g gs limit found h k = (all_cons w kept g gs h k.0, k.1)
  Meets-found g gs limit not_found h k = ((λ hs. k.0 (λ x m. hs x (Memᴰ.tail m))), k.1)
  Meets-found g gs limit (undecided l) h k = k

  Meets-undecided :
      (g : Goal) (gs : List Goal) (limit : Option WalkLimit) (l : WalkLimit) (a : Walk)
      → Meets gs (some l) a
      → Meets (g ∷ gs) limit a
  Meets-undecided g gs limit l found k = absurd (cc (k.1 refl))
  Meets-undecided g gs limit l not_found k =
      ((λ hs. k.0 (λ x m. hs x (Memᴰ.tail m))), λ e. absurd (cc))
  Meets-undecided g gs limit l (undecided x) k = (tt, λ e. absurd (cc))

  pub weaken-Post :
      {A : Type 0} (Q R : A → Type 0) (r : Outcome (A × WalkState))
      → ((a : A) → Q a → R a)
      → Post w kept Q r
      → Post w kept R r
  weaken-Post Q R (ok (a, s)) f h = (f a h.0, h.1)
  weaken-Post Q R (err e) f h = tt
  weaken-Post Q R exhausted f h = tt

  meet_step :
      (g : Goal) (gs : List Goal) (ms : List (M Walk)) (limit : Option WalkLimit)
      → ((l : Option WalkLimit) → Gives w kept (Meets gs l) (walk_until_missing ms l))
      → (r : Outcome (Walk × WalkState)) → Post w kept (Tells (Holds w kept g)) r
      → Post w kept (Meets (g ∷ gs) limit) (elim r [
        | ok (not_found, s') ↦ ok (not_found, s')
        | ok (undecided other, s') ↦ walk_until_missing ms (some other) s'
        | ok (found, s') ↦ walk_until_missing ms limit s'
        | err e ↦ err e
        | exhausted ↦ exhausted
      ])
  meet_step g gs ms limit ih (ok (found, s)) (t, i) =
      weaken-Post (Meets gs limit) (Meets (g ∷ gs) limit) (walk_until_missing ms limit s)
        (λ a. Meets-found g gs limit a t) ((ih limit).run s i)
  meet_step g gs ms limit ih (ok (not_found, s)) (t, i) =
      (((λ hs. t (hs g (Memᴰ.head refl))), λ x. absurd (cc)), i)
  meet_step g gs ms limit ih (ok (undecided l, s)) (t, i) =
      weaken-Post (Meets gs (some l)) (Meets (g ∷ gs) limit) (walk_until_missing ms (some l) s)
        (Meets-undecided g gs limit l) ((ih (some l)).run s i)
  meet_step g gs ms limit ih (err e) h = tt
  meet_step g gs ms limit ih exhausted h = tt

  Meets-nil : (limit : Option WalkLimit) → Meets [] limit (all_found limit)
  unfolding all_found
  Meets-nil none = ((λ x m. elim m [ ]), λ _. refl)
  Meets-nil (some l) = (tt, λ e. absurd (cc))

  meet-Gives :
      (gs : List Goal) (ms : List (M Walk)) (limit : Option WalkLimit)
      → Each w kept gs ms
      → Gives w kept (Meets gs limit) (walk_until_missing ms limit)
  unfolding walk_until_missing
  meet-Gives [] [] limit h = record { run = λ s i. (Meets-nil limit, i) }
  meet-Gives [] (m ∷ ms) limit h = absurd h
  meet-Gives (g ∷ gs) [] limit h = absurd h
  meet-Gives (g ∷ gs) (m ∷ ms) limit (hm, hs) = record {
    run = λ s i. meet_step g gs ms limit (λ l. meet-Gives gs ms l hs) (m s) (hm.run s i);
  }

  -- An intersection of nothing finds nothing.
  abbrev pub Inter : List Goal → Type 0
  Inter [] = ⊥
  Inter (g ∷ gs) = AllHold w kept (g ∷ gs)

  pub intersection-Gives :
      (gs : List Goal) (ms : List (M Walk))
      → Each w kept gs ms
      → Gives w kept (Tells (Inter gs)) (walk_intersection ms)
  unfolding walk_intersection
  intersection-Gives [] [] h = pure-Gives w kept (Tells ⊥) not_found (λ x. x)
  intersection-Gives [] (m ∷ ms) h = absurd h
  intersection-Gives (g ∷ gs) [] h = absurd h
  intersection-Gives (g ∷ gs) (m ∷ ms) h = record {
    run = λ s i.
        weaken-Post (Meets (g ∷ gs) none) (Tells (AllHold w kept (g ∷ gs)))
          (walk_until_missing (m ∷ ms) none s) (λ a k. k.0)
          ((meet-Gives (g ∷ gs) (m ∷ ms) none h).run s i);
  }

  Tells-map : {P Q : Type 0} (a : Walk) → (P → Q) → (Q → P) → Tells P a → Tells Q a
  Tells-map found f g t = f t
  Tells-map not_found f g t = λ q. t (g q)
  Tells-map (undecided l) f g t = tt

  pub Tells-iff :
      {P Q : Type 0} (m : M Walk)
      → (P → Q)
      → (Q → P)
      → Gives w kept (Tells P) m
      → Gives w kept (Tells Q) m
  Tells-iff {P} {Q} m f g h = record {
    run = λ s i. weaken-Post (Tells P) (Tells Q) (m s) (λ a. Tells-map a f g) (h.run s i);
  }
