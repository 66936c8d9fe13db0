-- ===== src/Authz/Check.antt =====
-- The bounded walk over the relations kept: crates/saffui-core/src/authz/relations/check.rs.
pub mod Spec
pub mod Sums
pub mod Loops
pub mod Reads
pub mod Goals
pub mod Sound
pub mod Readings
pub mod Answer
pub mod Tests
pub mod Grows
pub mod Ends
pub mod Bounds
use saffui.Base.{
  ℕ, zero, suc, ◌+◌, String, Bool, true, false, ◌&&◌, Option, none, some, List, [], ◌∷◌, ◌++◌, map,
  ltb, ◌==◌, option_keys, pair_keys, text_keys, length, any, filter_by, get, contains, erase,
  if◌then◌else◌,
}
use saffui.Authz.Schema.{
  ObjectRef, SubjectRef, AllowedSubject, Rule, Rules, nil, cons, CompiledSchema, MemberKind,
  find_member, object_keys,
}
use saffui.Authz.Walk.{
  max_depth, max_reads, max_fanout, max_steps, WalkLimit, Walk, found, not_found, undecided,
  StorageError, Fetched, rows, lost, Subjects, read, bound, Walker, WalkState, Outcome, ok, err,
  exhausted, M, ◌>>=◌, pure, is_found,
}

-- The last undecided walk of the list is the one that is told.
fold_from : Option WalkLimit → List Walk → Walk
fold_from limit (found ∷ walks) = found
fold_from limit (undecided other ∷ walks) = fold_from (some other) walks
fold_from limit (not_found ∷ walks) = fold_from limit walks
fold_from none [] = not_found
fold_from (some limit) [] = undecided limit

unfoldable pub fold_union : List Walk → Walk
unfolding fold_from
fold_union walks = fold_from none walks

pub check_time : Walker → M (Option WalkLimit)
check_time w s = ok (
  if ltb w.deadline (w.now s.readings) then some WalkLimit.duration else none,
  record s { readings = s.readings + 1 },
)

pub after_read : Walker → List SubjectRef → M Subjects
unfolding check_time
after_read w subjects =
    if ltb max_fanout (length subjects)
    then pure (bound WalkLimit.fanout)
    else check_time w >>= elim [ some limit ↦ pure (bound limit) | none ↦ pure (read subjects) ]

pub fetch : Walker → ObjectRef → String → M (List SubjectRef)
fetch w object relation s =
    elim (w.list_relation_subjects s.served object relation (max_fanout + 1)) [
      | rows subjects ↦ ok (subjects, record s { served = s.served + 1 })
      | lost e ↦ err e
    ]

pub read_in_time : Walker → ObjectRef → String → M Subjects
unfolding check_time after_read fetch
read_in_time w object relation =
    check_time w
    >>= elim [ some limit ↦ pure (bound limit) | none ↦ (fetch w object relation >>= after_read w) ]

pub read_subjects : Walker → ObjectRef → String → M Subjects
unfolding read_in_time
read_subjects w object relation s =
    let s' = record s { reads = s.reads + 1 } in
    if ltb max_reads s'.reads
    then ok (bound WalkLimit.reads, s')
    else read_in_time w object relation s'

-- The loop of a sum: each walk in turn, until one finds.
pub walk_until_found : List (M Walk) → List Walk → M Walk
walk_until_found [] walks s = ok (fold_union walks, s)
walk_until_found (next ∷ rest) walks s = elim (next s) [
  | ok (found, s') ↦ ok (found, s')
  | ok (walk, s') ↦ walk_until_found rest (walks ++ walk ∷ []) s'
  | err e ↦ err e
  | exhausted ↦ exhausted
]

all_found : Option WalkLimit → Walk
all_found none = found
all_found (some limit) = undecided limit

-- The loop of an intersection: each walk in turn, until one does not find.
pub walk_until_missing : List (M Walk) → Option WalkLimit → M Walk
unfolding all_found
walk_until_missing [] limit s = ok (all_found limit, s)
walk_until_missing (next ∷ rest) limit s = elim (next s) [
  | ok (not_found, s') ↦ ok (not_found, s')
  | ok (undecided other, s') ↦ walk_until_missing rest (some other) s'
  | ok (found, s') ↦ walk_until_missing rest limit s'
  | err e ↦ err e
  | exhausted ↦ exhausted
]

pub walk_intersection : List (M Walk) → M Walk
unfolding walk_until_missing
walk_intersection [] = pure not_found
walk_intersection (next ∷ rest) = walk_until_missing (next ∷ rest) none

unfoldable pub admits : List AllowedSubject → SubjectRef → Bool
admits allowed named =
    any
      (λ subject. subject.object_type == named.object.object_type && subject.member == named.member)
      allowed

pub admits_object : List AllowedSubject → SubjectRef → Bool
admits_object allowed named =
    named.member == none
    && any (λ subject. subject.member == none && subject.object_type == named.object.object_type)
        allowed

unfoldable pub is_itself : ObjectRef → SubjectRef → Bool
is_itself subject named = named.member == none && named.object == subject

-- How a walk goes on to another member, one level deeper.
abbrev pub Enter : Type 0
Enter = ObjectRef → String → ℕ → M Walk

pub named_walks : Enter → ℕ → List SubjectRef → List (M Walk)
named_walks enter depth [] = []
named_walks enter depth (named ∷ rest) = elim named.member [
  | some member ↦ enter named.object member (depth + 1) ∷ named_walks enter depth rest
  | none ↦ named_walks enter depth rest
]

pub object_walks : Enter → String → ℕ → List SubjectRef → List (M Walk)
object_walks enter member depth subjects =
    map (λ named. enter named.object member (depth + 1)) subjects

pub admitted_walks : Walker → Enter → ℕ → List SubjectRef → M Walk
unfolding walk_until_found named_walks
admitted_walks w enter depth admitted =
    if any (is_itself w.subject) admitted
    then pure found
    else walk_until_found (named_walks enter depth admitted) []

pub walk_relation : Walker → Enter → ObjectRef → String → ℕ → M Walk
unfolding read_subjects admitted_walks
walk_relation w enter object relation depth =
    elim (find_member w.schema object.object_type relation) [
      | some (MemberKind.relation allowed) ↦ read_subjects w object relation >>= elim [
        | read subjects ↦ admitted_walks w enter depth (filter_by (admits allowed) subjects)
        | bound limit ↦ pure (undecided limit)
      ]
      | _ ↦ pure not_found
    ]

pub walk_arrow : Walker → Enter → ObjectRef → String → String → ℕ → M Walk
unfolding read_subjects walk_until_found object_walks
walk_arrow w enter object relation member depth =
    elim (find_member w.schema object.object_type relation) [
      | some (MemberKind.relation allowed) ↦ read_subjects w object relation >>= elim [
        | read subjects ↦
            walk_until_found
              (object_walks enter member depth (filter_by (admits_object allowed) subjects)) []
        | bound limit ↦ pure (undecided limit)
      ]
      | _ ↦ pure not_found
    ]

mutual
  walk_rule : Walker → Enter → ObjectRef → Rule → ℕ → M Walk
  walk_rule w enter object (Rule.computed member) depth = enter object member (depth + 1)
  walk_rule w enter object (Rule.arrow relation member) depth =
      walk_arrow w enter object relation member depth
  walk_rule w enter object (Rule.union rules) depth =
      walk_until_found (rule_walks w enter object rules depth) []
  walk_rule w enter object (Rule.intersection rules) depth =
      walk_intersection (rule_walks w enter object rules depth)

  -- The walks of the parts, one level deeper.
  rule_walks : Walker → Enter → ObjectRef → Rules → ℕ → List (M Walk)
  rule_walks w enter object nil depth = []
  rule_walks w enter object (cons rule rules) depth =
      walk_rule w enter object rule (depth + 1) ∷ rule_walks w enter object rules depth

-- Whether a walk of a member has an answer before it reads anything, or opens the member.
pub data Opened : Type 0 where
  answered : Walk → WalkState → Opened
  opened : WalkState → Opened

open_known : ObjectRef × String → WalkState → Opened
open_known key s = elim (get s.known key) [
  | some known ↦ answered known s
  | none ↦
      if contains s.walking key
      then answered (undecided WalkLimit.cycle) s
      else opened (record s { walking = key ∷ s.walking })
]

open_in_time : ℕ → ObjectRef × String → Option WalkLimit → WalkState → Opened
unfolding open_known
open_in_time depth key (some limit) s = answered (undecided limit) s
open_in_time depth key none s =
    if ltb max_depth depth then answered (undecided WalkLimit.depth) s else open_known key s

open_member : Walker → ObjectRef × String → ℕ → WalkState → Opened
unfolding open_in_time
open_member w key depth s =
    if ltb max_steps (s.steps + 1)
    then answered (undecided WalkLimit.steps) (record s { steps = s.steps + 1 })
    else open_in_time depth key
        (if ltb w.deadline (w.now s.readings) then some WalkLimit.duration else none)
        (record s { steps = s.steps + 1; readings = s.readings + 1 })

pub walk_kind : Walker → Enter → ObjectRef → String → ℕ → M Walk
unfolding walk_relation walk_rule
walk_kind w enter object member depth = elim (find_member w.schema object.object_type member) [
  | none ↦ pure not_found
  | some (MemberKind.relation _) ↦ walk_relation w enter object member depth
  | some (MemberKind.permission rule) ↦ walk_rule w enter object rule depth
]

-- Keeps what was found of the member, and takes it out of what is being walked.
close_member : ObjectRef × String → Walk → M Walk
close_member key walk s =
    ok (walk, record s { known = (key, walk) ∷ s.known; walking = erase s.walking key })

-- Each level of members takes one of the fuel.
pub walk_member : Walker → ℕ → ObjectRef → String → ℕ → M Walk
unfolding open_member walk_kind close_member
walk_member w zero object member depth s = elim (open_member w (object, member) depth s) [
  | answered walk s' ↦ ok (walk, s')
  | opened s' ↦ exhausted
]
walk_member w (suc fuel) object member depth s = elim (open_member w (object, member) depth s) [
  | answered walk s' ↦ ok (walk, s')
  | opened s' ↦
      (walk_kind w (walk_member w fuel) object member depth >>= close_member (object, member)) s'
]

abbrev pub started : WalkState
started = record { reads = 0; steps = 0; known = []; walking = []; readings = 0; served = 0 }

unfoldable pub walk_relations : Walker → ObjectRef → String → Outcome (Walk × WalkState)
unfolding walk_member
walk_relations w object member = walk_member w (max_depth + 1) object member 0 started
