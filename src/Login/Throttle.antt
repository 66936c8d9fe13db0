-- ===== src/Login/Throttle.antt =====
-- The brake on guesses: crates/saffui-core/src/login/throttle.rs, over the counters of Counters.
-- A text is the bytes of its UTF-8. The keyed digest is a parameter, bound to the realm of the scope;
-- it answers none where the sealer cannot digest. What is recorded before an error is of a unit of
-- work that is rolled back, so an error carries no counters.
pub mod Attempts
pub mod Held
pub mod Kinds
pub mod Bounds
pub mod Apart
pub mod Tests
use saffui.Base.{
  ℕ, Bool, false, ◌||◌, Option, none, some, List, [], ◌∷◌, ◌++◌, leb, ltb, number_keys, ◌==◌,
  if◌then◌else◌, find, take, contains, is_empty,
}
use saffui.Base.Bytes.{bytes_keys, bytes_eqb_iff}
use saffui.Base.Options.{◌>>=◌}
use saffui.Login.Counters.{
  Digest, Failures, start_bucket, start_long_bucket, start_long_window, start_window,
  count_login_failures, record_login_failure, forget_login_failures,
}

abbrev pub max_recent_failures : ℕ
max_recent_failures = 5

abbrev pub max_recent_attempts_per_address : ℕ
max_recent_attempts_per_address = 30

abbrev pub max_recent_attempts_per_browser : ℕ
max_recent_attempts_per_browser = 30

abbrev pub max_recent_failures_per_name : ℕ
max_recent_failures_per_name = 50

abbrev pub max_daily_failures : ℕ
max_daily_failures = 100

abbrev pub max_daily_failures_per_browser : ℕ
max_daily_failures_per_browser = 20

abbrev pub max_pending_sign_ins_per_address : ℕ
max_pending_sign_ins_per_address = 60

-- `MOST_MARKS` of crates/saffui-core/src/login/device.rs
abbrev pub most_marks : ℕ
most_marks = 4

abbrev pub is_locked : ℕ → Bool
is_locked recent_failures = leb max_recent_failures recent_failures

abbrev pub write_parts : List (List ℕ) → List ℕ
write_parts [] = []
write_parts (part ∷ parts) = part ++ 0 ∷ write_parts parts

-- A device is the sixteen bytes of its identifier.
pub record BrowserCounters : Type 0 where
  pub device : List ℕ
  pub attempts : Digest
  pub recent : Digest
  pub today : Digest

pub record Brake : Type 0 where
  pub name : Digest
  pub name_today : Digest
  pub address : Option Digest
  pub address_and_name : Option Digest
  pub browser : Option BrowserCounters

-- What refuses an attempt: `ErrorCode::HashingBusy` and `ErrorCode::SignInRequestsTooFrequent`.
pub data Admission : Type 0 where
  admitted : Failures → Admission
  hashing_busy : Admission
  sign_in_requests_too_frequent : Admission
  crypto_unavailable : Admission

abbrev pub count_under : Failures → Digest → ℕ → ℕ → Admission → Admission
count_under ks counter now most refusal =
    if leb most (count_login_failures ks counter (start_window now))
    then refusal
    else admitted (record_login_failure ks counter (start_bucket now))

abbrev admit_address : Option Digest → Failures → ℕ → Admission
admit_address none ks now = admitted ks
admit_address (some counter) ks now =
    count_under ks counter now max_recent_attempts_per_address hashing_busy

abbrev admit_as : Option BrowserCounters → Option Digest → Failures → ℕ → Admission
admit_as none address ks now = admit_address address ks now
admit_as (some browser) address ks now =
    count_under ks browser.attempts now max_recent_attempts_per_browser hashing_busy

pub admit : Brake → Failures → ℕ → Admission
admit b ks now = admit_as b.browser b.address ks now

abbrev is_browser_locked : BrowserCounters → Failures → ℕ → Bool
is_browser_locked browser ks now =
    is_locked (count_login_failures ks browser.recent (start_window now))
    || leb max_daily_failures_per_browser
        (count_login_failures ks browser.today (start_long_window now))

abbrev failed_recently : Option Digest → Digest → Failures → ℕ → Bool
failed_recently (some by_both) name ks now =
    is_locked (count_login_failures ks by_both (start_window now))
    || leb max_recent_failures_per_name (count_login_failures ks name (start_window now))
failed_recently none name ks now = is_locked (count_login_failures ks name (start_window now))

abbrev is_locked_as : Option BrowserCounters → Brake → Failures → ℕ → Bool
is_locked_as (some browser) b ks now = is_browser_locked browser ks now
is_locked_as none b ks now =
    failed_recently b.address_and_name b.name ks now
    || leb max_daily_failures (count_login_failures ks b.name_today (start_long_window now))

pub is_name_locked : Brake → Failures → ℕ → Bool
is_name_locked b ks now = is_locked_as b.browser b ks now

abbrev record_by_both : Option Digest → Failures → ℕ → Failures
record_by_both none ks bucket = ks
record_by_both (some by_both) ks bucket = record_login_failure ks by_both bucket

abbrev record_as : Option BrowserCounters → Brake → Failures → ℕ → Failures
record_as (some browser) b ks now =
    record_login_failure (record_login_failure ks browser.recent (start_bucket now)) browser.today
      (start_long_bucket now)
record_as none b ks now =
    record_by_both b.address_and_name (record_login_failure ks b.name (start_bucket now))
      (start_bucket now)

pub record_failure : Brake → Failures → ℕ → Failures
record_failure b ks now =
    record_as b.browser b (record_login_failure ks b.name_today (start_long_bucket now)) now

abbrev forget_as : Option BrowserCounters → Failures → Failures
forget_as none ks = ks
forget_as (some browser) ks =
    forget_login_failures (forget_login_failures ks browser.recent) browser.today

pub forget_browser_failures : Brake → Failures → Failures
forget_browser_failures b ks = forget_as b.browser ks

module _ (digest_typed_name : List ℕ → Option Digest) where
  pub digest_counter : ℕ → List (List ℕ) → Option Digest
  digest_counter kind parts = digest_typed_name (kind ∷ write_parts parts)

  pub digest_name_locks : List ℕ → Option (Digest × Digest)
  unfolding digest_counter
  digest_name_locks typed = do
    name ← digest_counter 1 (typed ∷ [])
    name_today ← digest_counter 5 (typed ∷ [])
    some (name, name_today)

  -- What was typed, and what the address of the caller is counted as.
  pub of : List ℕ → Option (List ℕ) → Option Brake
  unfolding digest_name_locks digest_counter
  of typed none = do
    locks ← digest_name_locks typed
    some (record {
      name = locks.0;
      name_today = locks.1;
      address = none;
      address_and_name = none;
      browser = none;
    })
  of typed (some caller) = do
    locks ← digest_name_locks typed
    address ← digest_counter 2 (caller ∷ [])
    by_both ← digest_counter 3 (caller ∷ typed ∷ [])
    some (record {
      name = locks.0;
      name_today = locks.1;
      address = some address;
      address_and_name = some by_both;
      browser = none;
    })

  pub count_browser_apart : Brake → List ℕ → List ℕ → Option Brake
  unfolding digest_counter
  count_browser_apart b typed device = do
    attempts ← digest_counter 10 (device ∷ [])
    recent ← digest_counter 6 (device ∷ typed ∷ [])
    today ← digest_counter 7 (device ∷ typed ∷ [])
    some (record b {
      browser =
          some (record { device = device; attempts = attempts; recent = recent; today = today });
    })

  abbrev admit_pending_as : Option (List ℕ) → Option (List ℕ) → Failures → ℕ → Admission
  admit_pending_as none none ks now = admitted ks
  admit_pending_as none (some address) ks now = elim (digest_typed_name (4 ∷ address ++ 0 ∷ [])) [
    | none ↦ crypto_unavailable
    | some counter ↦
        count_under ks counter now max_pending_sign_ins_per_address sign_in_requests_too_frequent
  ]
  admit_pending_as (some device) caller ks now = elim (digest_typed_name (11 ∷ device)) [
    | none ↦ crypto_unavailable
    | some counter ↦
        count_under ks counter now max_pending_sign_ins_per_address sign_in_requests_too_frequent
  ]

  -- The devices of the marks of the cookie, and the live browsers the realm keeps among them.
  pub kept_device : List (List ℕ) → (List (List ℕ) → List (List ℕ)) → Option (List ℕ)
  kept_device known_browsers read_live_browsers =
      let devices = take most_marks known_browsers in
      let live = if is_empty devices then [] else read_live_browsers devices in
      find (contains live) devices

  pub admit_pending_sign_in :
      Option (List ℕ) → List (List ℕ) → (List (List ℕ) → List (List ℕ)) → Failures → ℕ → Admission
  unfolding kept_device
  admit_pending_sign_in caller known_browsers read_live_browsers ks now =
      admit_pending_as (kept_device known_browsers read_live_browsers) caller ks now
