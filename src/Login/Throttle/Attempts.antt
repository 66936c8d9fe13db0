-- ===== src/Login/Throttle/Attempts.antt =====
-- The attempts of a realm, one after the other, and what crates/saffui-core/src/login/throttle.rs lets
-- each kind of counter hold.
use saffui.Base.{
  ℕ, ◌+◌, ◌≤◌, ◌≡◌, false, ◌||◌, Option, none, some, List, [], ◌∷◌, arith, number_keys, ◌==◌,
  if◌then◌else◌,
}
use saffui.Base.Bytes.{bytes_keys}
use saffui.Login.Counters.{
  Digest, Failures, start_bucket, start_long_bucket, start_long_window, start_window,
  count_login_failures,
}
use saffui.Login.Throttle.{
  Brake, BrowserCounters, admitted, admit, is_name_locked, record_failure, forget_browser_failures,
  of, count_browser_apart, admit_pending_sign_in,
}

start_window_mono : (t now : ℕ) → t ≤ now → start_window t ≤ start_window now
unfolding start_window start_bucket
start_window_mono t now h = omega arith

start_long_window_mono : (t now : ℕ) → t ≤ now → start_long_window t ≤ start_long_window now
unfolding start_long_window start_long_bucket
start_long_window_mono t now h = omega arith

abbrev pub browsers : Option BrowserCounters → ℕ
browsers none = 0
browsers (some r) = 1

-- What is counted of a kind: since when, and up to how many, after `k` failures of known browsers.
-- No kind but these is ever counted.
abbrev pub window : ℕ → ℕ → ℕ
window kind now = if kind == 5 || kind == 7 then start_long_window now else start_window now

abbrev pub most : ℕ → ℕ → ℕ
most kind k =
    if kind == 1
    then 50
    else if kind == 2 || kind == 10
    then 30
    else if kind == 3 || kind == 6
    then 5
    else if kind == 4 || kind == 11
    then 60
    else if kind == 5
    then 100 + k
    else if kind == 7
    then 20
    else 0

pub window_mono : (kind t now : ℕ) → t ≤ now → window kind t ≤ window kind now
window_mono kind t now h = ground (arith, start_window_mono t now h, start_long_window_mono t now h)

module _ (digest_typed_name : List ℕ → Option Digest) where
  -- A counter of a kind.
  abbrev pub OfKind : ℕ → Digest → Type 0
  OfKind kind d = (w : List ℕ) × digest_typed_name (kind ∷ w) ≡ some d

  -- The brakes of the attempts: of a known browser or of none.
  pub data IsBrake : Brake → Type 0 where
    unknown :
        (typed : List ℕ) (caller : Option (List ℕ)) (b : Brake)
        → of digest_typed_name typed caller ≡ some b
        → IsBrake b
    known :
        (typed device : List ℕ) (a b : Brake)
        → IsBrake a
        → count_browser_apart digest_typed_name a typed device ≡ some b
        → IsBrake b

  -- What the calls make of no counters, up to an instant, with the failures of known browsers.
  pub data Attempts : ℕ → ℕ → Failures → Type 0 where
    start : Attempts 0 0 []
    tried :
        {t k : ℕ} {ks after : Failures} (b : Brake) (now : ℕ)
        → Attempts t k ks
        → t ≤ now
        → IsBrake b
        → admit b ks now ≡ admitted after
        → Attempts now k after
    failed :
        {t k : ℕ} {ks : Failures} (b : Brake) (now : ℕ)
        → Attempts t k ks
        → t ≤ now
        → IsBrake b
        → is_name_locked b ks now ≡ false
        → Attempts now (k + browsers b.browser) (record_failure b ks now)
    proved :
        {t k : ℕ} {ks : Failures} (b : Brake)
        → Attempts t k ks
        → Attempts t k (forget_browser_failures b ks)
    asked :
        {t k : ℕ} {ks after : Failures} (caller : Option (List ℕ)) (marks : List (List ℕ))
        (read_live : List (List ℕ) → List (List ℕ)) (now : ℕ)
        → Attempts t k ks
        → t ≤ now
        → admit_pending_sign_in digest_typed_name caller marks read_live ks now ≡ admitted after
        → Attempts now k after

  pub record Kinds (b : Brake) : Type 0 where
    pub name : OfKind 1 b.name
    pub name_today : OfKind 5 b.name_today
    pub address : (d : Digest) → b.address ≡ some d → OfKind 2 d
    pub by_both : (d : Digest) → b.address_and_name ≡ some d → OfKind 3 d
    pub browser :
        (r : BrowserCounters)
        → b.browser ≡ some r
        → OfKind 10 r.attempts × OfKind 6 r.recent × OfKind 7 r.today

  unfoldable pub Held : ℕ → ℕ → Failures → Type 0
  Held t k ks =
      (kind : ℕ) (d : Digest)
      → OfKind kind d
      → count_login_failures ks d (window kind t) ≤ most kind k
