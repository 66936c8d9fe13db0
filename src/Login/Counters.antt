-- ===== src/Login/Counters.antt =====
-- The counters of failures of one realm, in buckets of time: the buckets of
-- crates/saffui-core/src/login/throttle.rs, and the storage of counters as
-- crates/saffui-core/src/testkit/memory/login.rs keeps it. A digest is a list of bytes.
-- An instant is in whole seconds from the earliest date an instant can be, at midnight: the parts of
-- a second never count, and that date is a whole number of hours before 1970.
use saffui.Base.Bytes.{bytes_keys, bytes_eqb_iff}
use saffui.Base.{
  ℕ, suc, ◌+◌, ◌-◌, ◌*◌, ◌%◌, ◌≤◌, ◌≡◌, refl, ◌&&◌, List, [], ◌∷◌, arith, ◌==◌, number_keys,
  if◌then◌else◌, leb,
}

abbrev pub bucket_seconds : ℕ
bucket_seconds = 300

abbrev pub long_bucket_seconds : ℕ
long_bucket_seconds = 3600

abbrev pub long_window_buckets : ℕ
long_window_buckets = 24

unfoldable pub start_bucket : ℕ → ℕ
start_bucket now = now - now % bucket_seconds

unfoldable pub start_long_bucket : ℕ → ℕ
start_long_bucket now = now - now % long_bucket_seconds

unfoldable pub start_long_window : ℕ → ℕ
unfolding start_long_bucket
start_long_window now = start_long_bucket now - long_bucket_seconds * (long_window_buckets - 1)

unfoldable pub start_window : ℕ → ℕ
unfolding start_bucket
start_window now = start_bucket now - bucket_seconds

abbrev pub Digest : Type 0
Digest = List ℕ

-- A counter's bucket, and its failures.
pub record Kept : Type 0 where
  pub digest : Digest
  pub bucket : ℕ
  pub failures : ℕ

-- The map of `login_failures`, with distinct keys.
abbrev pub Failures : Type 0
Failures = List Kept

unfoldable pub count_login_failures : Failures → Digest → ℕ → ℕ
count_login_failures [] d since = 0
count_login_failures (k ∷ ks) d since =
    if k.digest == d && leb since k.bucket
    then k.failures + count_login_failures ks d since
    else count_login_failures ks d since

unfoldable pub record_login_failure : Failures → Digest → ℕ → Failures
record_login_failure [] d b = record { digest = d; bucket = b; failures = 1 } ∷ []
record_login_failure (k ∷ ks) d b =
    if k.digest == d && k.bucket == b
    then record k { failures = k.failures + 1 } ∷ ks
    else k ∷ record_login_failure ks d b

unfoldable pub forget_login_failures : Failures → Digest → Failures
forget_login_failures [] d = []
forget_login_failures (k ∷ ks) d =
    let rest = forget_login_failures ks d in if k.digest == d then rest else k ∷ rest

pub count-record :
    (ks : Failures) (d x : Digest) (b since : ℕ)
    → count_login_failures (record_login_failure ks d b) x since ≡ (
        if d == x && leb since b
        then suc (count_login_failures ks x since)
        else count_login_failures ks x since)
unfolding count_login_failures record_login_failure
count-record [] d x b since = ground arith
count-record (k ∷ ks) d x b since = ground (
  arith,
  bytes_eqb_iff k.digest d,
  bytes_eqb_iff k.digest x,
  bytes_eqb_iff d x,
  count-record ks d x b since,
)

pub count-forget :
    (ks : Failures) (d x : Digest) (since : ℕ)
    → count_login_failures (forget_login_failures ks d) x since
      ≡ (if d == x then 0 else count_login_failures ks x since)
unfolding count_login_failures forget_login_failures
count-forget [] d x since = ground arith
count-forget (k ∷ ks) d x since = ground (
  arith,
  bytes_eqb_iff k.digest d,
  bytes_eqb_iff k.digest x,
  bytes_eqb_iff d x,
  count-forget ks d x since,
)

pub count_none : (d : Digest) (since : ℕ) → count_login_failures [] d since ≡ 0
unfolding count_login_failures
count_none d since = refl

-- A later window holds no more.
pub count_mono :
    (ks : Failures) (d : Digest) (since later : ℕ)
    → since ≤ later
    → count_login_failures ks d later ≤ count_login_failures ks d since
unfolding count_login_failures
count_mono [] d since later h = omega arith
count_mono (k ∷ ks) d since later h = ground (arith, count_mono ks d since later h)
