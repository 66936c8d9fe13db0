-- ===== src/Authz/Walk.antt =====
-- The data of the bounded walk over the relations kept:
-- crates/saffui-core/src/authz/relations/check.rs, and the storage errors of
-- crates/saffui-core/src/ports/storage.rs.
-- Instants are numbers. What the walk reads of the world is a parameter: `now n` is the n-th
-- reading of the clock, and `list_relation_subjects n` the answer to the n-th read of the storage.
use saffui.Base.{ℕ, String, Bool, true, false, List}
use saffui.Authz.Schema.{ObjectRef, SubjectRef, CompiledSchema}

abbrev pub max_depth : ℕ
max_depth = 64

abbrev pub max_reads : ℕ
max_reads = 1000

abbrev pub max_fanout : ℕ
max_fanout = 1000

abbrev pub max_steps : ℕ
max_steps = 10000

pub data WalkLimit : Type 0 where
  depth reads fanout duration cycle steps : WalkLimit

unfoldable pub name : WalkLimit → String
name depth = "depth"
name reads = "reads"
name fanout = "fanout"
name duration = "duration"
name cycle = "cycle"
name steps = "steps"

pub data Walk : Type 0 where
  found : Walk
  not_found : Walk
  undecided : WalkLimit → Walk

pub data StorageUnavailable : Type 0 where
  pool_exhausted timed_out tls_failed refused schema_behind schema_ahead unreachable :
      StorageUnavailable

pub data StorageError : Type 0 where
  unavailable : StorageUnavailable → StorageError
  taken : String → StorageError
  failed : StorageError

pub data Fetched : Type 0 where
  rows : List SubjectRef → Fetched
  lost : StorageError → Fetched

-- What one read of a walk found.
pub data Subjects : Type 0 where
  read : List SubjectRef → Subjects
  bound : WalkLimit → Subjects

-- What a walk reads and never changes.
pub record Walker : Type 0 where
  pub schema : CompiledSchema
  pub subject : ObjectRef
  pub deadline : ℕ
  pub now : ℕ → ℕ
  pub list_relation_subjects : ℕ → ObjectRef → String → ℕ → Fetched

-- What a walk changes. `readings` and `served` count the readings of the clock and the reads the
-- storage answered.
pub record WalkState : Type 0 where
  pub reads : ℕ
  pub steps : ℕ
  pub known : List ((ObjectRef × String) × Walk)
  pub walking : List (ObjectRef × String)
  pub readings : ℕ
  pub served : ℕ

-- `exhausted` is the model's: the fuel of the recursion ran out.
pub data Outcome (A : Type 0) : Type 0 where
  ok : A → Outcome A
  err : StorageError → Outcome A
  exhausted : Outcome A

abbrev pub M : Type 0 → Type 0
M A = WalkState → Outcome (A × WalkState)

infixl 5 ◌>>=◌
abbrev pub ◌>>=◌ : {A B : Type 0} → M A → (A → M B) → M B
◌>>=◌ m f s = elim (m s) [ ok (a, s') ↦ f a s' | err e ↦ err e | exhausted ↦ exhausted ]

abbrev pub pure : {A : Type 0} → A → M A
pure a s = ok (a, s)

abbrev pub is_found : Walk → Bool
is_found found = true
is_found _ = false
