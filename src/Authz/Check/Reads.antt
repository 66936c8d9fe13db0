-- ===== src/Authz/Check/Reads.antt =====
-- A read of the storage within its bounds, in the walk of
-- crates/saffui-core/src/authz/relations/check.rs, answers with everything that is kept.
use saffui.Base.{
  ℕ, ◌+◌, ◌<◌, String, ◌≡◌, refl, false, Option, none, some, List, inl, inr, ◌∙◌, subst, arith,
  Bool-cases, length, take, take_all, ltb,
}
use saffui.Authz.Schema.{ObjectRef, SubjectRef}
use saffui.Authz.Walk.{
  WalkLimit, Fetched, rows, lost, Subjects, read, bound, Walker, WalkState, ok, err, ◌>>=◌, pure,
  max_fanout, max_reads,
}
use saffui.Authz.Check.{check_time, after_read, fetch, read_in_time, read_subjects}
use saffui.Authz.Check.Spec.{Kept, Answers}
use saffui.Authz.Check.Sums.{IsTrue, Post, Gives, bind-Gives, pure-Gives}

not_over : (n : ℕ) → ltb max_fanout n ≡ false → n < max_fanout + 1
not_over n e = ground arith

module _ (w : Walker) (kept : Kept) (agree : Answers w kept) (o : ObjectRef) (r : String) where
  abbrev pub Reads : Subjects → Type 0
  Reads (read subjects) = subjects ≡ kept o r
  Reads (bound limit) = Unit

  abbrev pub Cut : List SubjectRef → Type 0
  Cut subjects = subjects ≡ take (max_fanout + 1) (kept o r)

  time-Gives : Gives w kept (λ (l : Option WalkLimit). Unit {0}) (check_time w)
  unfolding check_time
  time-Gives = record { run = λ s i. (tt, i) }

  fetched-Cut :
      (s : WalkState) (f : Fetched)
      → w.list_relation_subjects s.served o r (max_fanout + 1) ≡ f
      → IsTrue w kept s
      → Post w kept Cut (elim f [
        | rows subjects ↦ ok (subjects, record s { served = s.served + 1 })
        | lost e ↦ err e
      ])
  fetched-Cut s (rows subjects) e i = (agree s.served o r (max_fanout + 1) subjects e, i)
  fetched-Cut s (lost x) e i = tt

  fetch-Gives : Gives w kept Cut (fetch w o r)
  unfolding fetch
  fetch-Gives = record {
    run = λ s i. fetched-Cut s (w.list_relation_subjects s.served o r (max_fanout + 1)) refl i;
  }

  Cut-whole :
      (subjects : List SubjectRef)
      → Cut subjects
      → ltb max_fanout (length subjects) ≡ false
      → subjects ≡ kept o r
  Cut-whole subjects c e =
      c
      ∙ take_all (max_fanout + 1) (kept o r)
          (subst (λ l. length l < max_fanout + 1) c (not_over (length subjects) e))

  in_time :
      (o' : Option WalkLimit) (subjects : List SubjectRef)
      → subjects ≡ kept o r
      → Gives w kept Reads
          (elim o' [ some limit ↦ pure (bound limit) | none ↦ pure (read subjects) ])
  in_time (some limit) subjects e = pure-Gives w kept Reads (bound limit) tt
  in_time none subjects e = pure-Gives w kept Reads (read subjects) e

  after_read-Gives :
      (subjects : List SubjectRef) → Cut subjects → Gives w kept Reads (after_read w subjects)
  unfolding after_read
  after_read-Gives subjects c = elim (Bool-cases (ltb max_fanout (length subjects))) [
    | inl e ↦ rw e (pure-Gives w kept Reads (bound WalkLimit.fanout) tt)
    | inr e ↦ rw e (
        bind-Gives w kept (λ (l : Option WalkLimit). Unit {0}) Reads (check_time w) _ time-Gives
          (λ l _. in_time l subjects (Cut-whole subjects c e)))
  ]

  fetch_in_time :
      (l : Option WalkLimit)
      → Gives w kept Reads
          (elim l [ some limit ↦ pure (bound limit) | none ↦ (fetch w o r >>= after_read w) ])
  fetch_in_time (some limit) = pure-Gives w kept Reads (bound limit) tt
  fetch_in_time none =
      bind-Gives w kept Cut Reads (fetch w o r) (after_read w) fetch-Gives after_read-Gives

  read_in_time-Gives : Gives w kept Reads (read_in_time w o r)
  unfolding read_in_time
  read_in_time-Gives =
      bind-Gives w kept (λ (l : Option WalkLimit). Unit {0}) Reads (check_time w) _ time-Gives
        (λ l _. fetch_in_time l)

  -- Whatever the read answers with is all that is kept.
  pub read-Gives : Gives w kept Reads (read_subjects w o r)
  unfolding read_subjects
  read-Gives = record {
    run = λ s i. elim (Bool-cases (ltb max_reads (s.reads + 1))) [
      | inl e ↦ rw e (tt, i)
      | inr e ↦ rw e (read_in_time-Gives.run (record s { reads = s.reads + 1 }) i)
    ];
  }
