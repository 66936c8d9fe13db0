-- ===== src/Login/Throttle/Bounds.antt =====
-- The bounds of the brake of crates/saffui-core/src/login/throttle.rs, over any attempts of a realm
-- one after the other. The digest is taken to be injective, as its key and its length make it.
use saffui.Base.{
  ℕ, suc, ◌+◌, ◌<◌, ◌≡◌, refl, false, Option, none, some, List, [], ◌∷◌, ◌++◌, arith, number_keys,
  subst,
}
use saffui.Base.Bytes.{bytes_keys}
use saffui.Login.Counters.{
  Digest, Failures, start_bucket, start_long_bucket, start_window, count_login_failures,
  forget_login_failures, count_none,
}
use saffui.Login.Throttle.{
  Brake, BrowserCounters, admitted, admit, is_name_locked, record_failure, forget_browser_failures,
  admit_pending_sign_in, kept_device, max_pending_sign_ins_per_address,
  sign_in_requests_too_frequent, count_under,
}
use saffui.Login.Throttle.Attempts.{
  window, most, OfKind, Attempts, Kinds, Held, browsers, start, tried, failed, proved, asked,
}
use saffui.Login.Throttle.Held.{
  Injective, Held-later, Held-by, Held-more, Held-forget, Held-record, Held-pair, Held-triple,
}
use saffui.Login.Throttle.Kinds.{IsBrake-Kinds}

module _ (f : List ℕ → Option Digest) (inj : Injective f) where
  abbrev pending_counter : Option (List ℕ) → Option (List ℕ) → Option Digest
  pending_counter none none = none
  pending_counter (some w) none = f (4 ∷ w ++ 0 ∷ [])
  pending_counter caller (some device) = f (11 ∷ device)

  admit-Held :
      (b : Brake) (t k : ℕ) (ks after : Failures) (browser : Option BrowserCounters)
      (address : Option Digest)
      → Kinds f b
      → Held f t k ks
      → b.browser ≡ browser
      → b.address ≡ address
      → admit b ks t ≡ admitted after
      → Held f t k after
  unfolding admit
  admit-Held b t k ks after none none h a e g q = subst (Held f t k) (ground (arith, e, g, q)) a
  admit-Held b t k ks after none (some x) h a e g q =
      subst (Held f t k) (ground (arith, e, g, q))
        (Held-record f inj 2 t k ks x (start_bucket t) (h.address x g) (ground (arith, e, g, q)) a)
  admit-Held b t k ks after (some r) address h a e g q =
      subst (Held f t k) (ground (arith, e, g, q)) (
        Held-record f inj 10 t k ks r.attempts (start_bucket t) (h.browser r e).0
          (ground (arith, e, q)) a)

  asked_under :
      (j t k : ℕ) (ks after : Failures) (x : Digest)
      → window j t ≡ start_window t
      → most j k ≡ max_pending_sign_ins_per_address
      → OfKind f j x
      → Held f t k ks
      → count_under ks x t max_pending_sign_ins_per_address sign_in_requests_too_frequent
        ≡ admitted after
      → Held f t k after
  asked_under j t k ks after x u v o a e =
      subst (Held f t k) (ground (arith, e))
        (Held-record f inj j t k ks x (start_bucket t) o (ground (arith, e, u, v)) a)

  asked-Held :
      (caller : Option (List ℕ)) (marks : List (List ℕ)) (live : List (List ℕ) → List (List ℕ))
      (t k : ℕ) (ks after : Failures) (kept : Option (List ℕ)) (counter : Option Digest)
      → Held f t k ks
      → kept_device f marks live ≡ kept
      → pending_counter caller kept ≡ counter
      → admit_pending_sign_in f caller marks live ks t ≡ admitted after
      → Held f t k after
  unfolding admit_pending_sign_in
  asked-Held none marks live t k ks after none c a e g q =
      subst (Held f t k) (ground (arith, e, q)) a
  asked-Held (some w) marks live t k ks after none none a e g q = absurd (ground (arith, e, q, g))
  asked-Held (some w) marks live t k ks after none (some x) a e g q =
      asked_under 4 t k ks after x refl refl (w ++ 0 ∷ [], g) a (ground (arith, e, g, q))
  asked-Held caller marks live t k ks after (some w) none a e g q = absurd (ground (arith, e, g, q))
  asked-Held caller marks live t k ks after (some w) (some x) a e g q =
      asked_under 11 t k ks after x refl refl (w, g) a (ground (arith, e, g, q))

  today_within :
      (t k : ℕ) (ks : Failures) (d : Digest)
      → Held f t k ks
      → OfKind f 5 d
      → count_login_failures ks d (window 5 t) < most 5 (suc k)
  unfolding Held
  today_within t k ks d a o = omega (arith, a 5 d o)

  record_failure-Held :
      (b : Brake) (t k : ℕ) (ks : Failures) (browser : Option BrowserCounters)
      (by_both : Option Digest)
      → Kinds f b
      → Held f t k ks
      → b.browser ≡ browser
      → b.address_and_name ≡ by_both
      → is_name_locked b ks t ≡ false
      → Held f t (k + browsers browser) (record_failure b ks t)
  unfolding record_failure is_name_locked
  record_failure-Held b t k ks none none h a e g q =
      Held-by f t (omega arith) (ground (arith, e, g)) (
        Held-pair f inj 5 1 t k ks b.name_today b.name (start_long_bucket t) (start_bucket t)
          (λ r. absurd (omega (arith, r))) h.name_today h.name (ground (arith, e, g, q))
          (ground (arith, e, g, q)) a)
  record_failure-Held b t k ks none (some x) h a e g q =
      Held-by f t (omega arith) (ground (arith, e, g)) (
        Held-triple f inj 5 1 3 t k ks b.name_today b.name x (start_long_bucket t) (start_bucket t)
          (start_bucket t) (λ r. absurd (omega (arith, r))) (λ r. absurd (omega (arith, r)))
          (λ r. absurd (omega (arith, r))) h.name_today h.name (h.by_both x g)
          (ground (arith, e, g, q)) (ground (arith, e, g, q)) (ground (arith, e, g, q)) a)
  record_failure-Held b t k ks (some r) by_both h a e g q =
      Held-by f t (omega arith) (ground (arith, e, g)) (
        Held-triple f inj 5 6 7 t (suc k) ks b.name_today r.recent r.today (start_long_bucket t)
          (start_bucket t) (start_long_bucket t) (λ v. absurd (omega (arith, v)))
          (λ v. absurd (omega (arith, v))) (λ v. absurd (omega (arith, v))) h.name_today
          (h.browser r e).1 (h.browser r e).2 (today_within t k ks b.name_today a h.name_today)
          (ground (arith, e, g, q)) (ground (arith, e, g, q)) (Held-more f t k ks a))

  start-Held : Held f 0 0 []
  unfolding Held
  start-Held kind d o = omega (arith, count_none d (window kind 0))

  forget-Held :
      (b : Brake) (t k : ℕ) (ks : Failures) (browser : Option BrowserCounters)
      → b.browser ≡ browser
      → Held f t k ks
      → Held f t k (forget_browser_failures b ks)
  unfolding forget_browser_failures
  forget-Held b t k ks none e a = subst (Held f t k) (ground (arith, e)) a
  forget-Held b t k ks (some r) e a = subst (Held f t k) (ground (arith, e)) (
      Held-forget f t k (forget_login_failures ks r.recent) r.today
        (Held-forget f t k ks r.recent a))

  -- Whatever attempts a realm sees, one after the other, with browsers it knows or not, no counter
  -- is past its bound in its window: 30 attempts of an address and of a known browser, 5 failures
  -- of an address for a name and of a known browser, 20 of a browser in a day, 50 of a name, 60
  -- sign-ins left waiting, and in a day 100 failures of a name besides those of known browsers.
  -- The digest is taken to be injective.
  pub Attempts-Held : {t k : ℕ} {ks : Failures} → Attempts f t k ks → Held f t k ks
  Attempts-Held start = start-Held
  Attempts-Held (tried {t} {k} {ks} {after} b now r h i e) =
      admit-Held b now k ks after b.browser b.address (IsBrake-Kinds f i)
        (Held-later f t now k ks h (Attempts-Held r)) refl refl e
  Attempts-Held (failed {t} {k} {ks} b now r h i e) =
      record_failure-Held b now k ks b.browser b.address_and_name (IsBrake-Kinds f i)
        (Held-later f t now k ks h (Attempts-Held r)) refl refl e
  Attempts-Held (proved {t} {k} {ks} b r) = forget-Held b t k ks b.browser refl (Attempts-Held r)
  Attempts-Held (asked {t} {k} {ks} {after} caller marks live now r h e) =
      asked-Held caller marks live now k ks after (kept_device f marks live)
        (pending_counter caller (kept_device f marks live))
        (Held-later f t now k ks h (Attempts-Held r)) refl refl e
