-- ===== src/Login/Throttle/Held.antt =====
-- What recording and forgetting do to the bounds that the counters of
-- crates/saffui-core/src/login/throttle.rs keep, under a digest that is injective.
use saffui.Base.{
  ℕ, suc, ◌≤◌, ◌<◌, ◌≡◌, ◌≢◌, false, Option, some, List, ◌∷◌, arith, number_keys, ◌==◌, Bool-cases,
  inl, inr, subst,
}
use saffui.Base.Bytes.{bytes_keys, bytes_eqb_iff}
use saffui.Login.Counters.{
  Digest, Failures, count_login_failures, record_login_failure, forget_login_failures, count-record,
  count-forget, count_mono,
}
use saffui.Login.Throttle.Attempts.{window, most, window_mono, OfKind, Held}

abbrev pub Injective : (List ℕ → Option Digest) → Type 0
Injective f = (v w : List ℕ) (d : Digest) → f v ≡ some d → f w ≡ some d → v ≡ w

module _ (f : List ℕ → Option Digest) where
  pub Held-later : (t now k : ℕ) (ks : Failures) → t ≤ now → Held f t k ks → Held f now k ks
  unfolding Held
  Held-later t now k ks h a kind d o = ground (
    arith,
    a kind d o,
    count_mono ks d (window kind t) (window kind now) (window_mono kind t now h),
  )

  pub Held-by :
      (t : ℕ) {m n : ℕ} {ks ls : Failures} → m ≡ n → ks ≡ ls → Held f t m ks → Held f t n ls
  Held-by t {m} {n} {ks} {ls} e g a = subst (λ i. Held f t i ls) e (subst (Held f t m) g a)

  most-more : (kind k : ℕ) → most kind k ≤ most kind (suc k)
  most-more kind k = ground arith

  pub Held-more : (t k : ℕ) (ks : Failures) → Held f t k ks → Held f t (suc k) ks
  unfolding Held
  Held-more t k ks a kind d o = omega (arith, a kind d o, most-more kind k)

  pub Held-forget :
      (t k : ℕ) (ks : Failures) (x : Digest)
      → Held f t k ks
      → Held f t k (forget_login_failures ks x)
  unfolding Held
  Held-forget t k ks x a kind d o = ground (arith, a kind d o, count-forget ks x d (window kind t))

  module _ (inj : Injective f) where
    kinds_apart : (j k : ℕ) (x d : Digest) → OfKind f j x → OfKind f k d → j ≢ k → (x == d) ≡ false
    kinds_apart j k x d (v, p) (w, q) ne = elim (Bool-cases (x == d)) [
      | inl e ↦ absurd (ground (arith, bytes_eqb_iff x d, inj (j ∷ v) (k ∷ w) d))
      | inr e ↦ e
    ]

    count_apart :
        (j k : ℕ) (ks : Failures) (x d : Digest) (b since : ℕ)
        → OfKind f j x
        → OfKind f k d
        → j ≢ k
        → count_login_failures (record_login_failure ks x b) d since
          ≡ count_login_failures ks d since
    count_apart j k ks x d b since p q ne =
        ground (arith, count-record ks x d b since, kinds_apart j k x d p q ne)

    record_own :
        (j now k : ℕ) (ks : Failures) (x : Digest) (b : ℕ)
        → count_login_failures ks x (window j now) < most j k
        → Held f now k ks
        → (d : Digest) → OfKind f j d
        → count_login_failures (record_login_failure ks x b) d (window j now) ≤ most j k
    unfolding Held
    record_own j now k ks x b h a d q =
        ground (arith, count-record ks x d b (window j now), a j d q, bytes_eqb_iff x d)

    pub Held-record :
        (j now k : ℕ) (ks : Failures) (x : Digest) (b : ℕ)
        → OfKind f j x
        → count_login_failures ks x (window j now) < most j k
        → Held f now k ks
        → Held f now k (record_login_failure ks x b)
    unfolding Held
    Held-record j now k ks x b p h a kind d q = elim (Bool-cases (j == kind)) [
      | inl e ↦
          subst
            (λ i.
              (d : Digest)
              → OfKind f i d
              → count_login_failures (record_login_failure ks x b) d (window i now) ≤ most i k)
            ((number_keys.same_iff j kind).0 e) (record_own j now k ks x b h a) d q
      | inr e ↦ omega (
        arith,
        count_apart j kind ks x d b (window kind now) p q
            (λ r. absurd (ground (arith, number_keys.same_iff j kind))),
        a kind d q,
      )
    ]

    pub Held-pair :
        (i j t k : ℕ) (ks : Failures) (x y : Digest) (b c : ℕ)
        → i ≢ j
        → OfKind f i x
        → OfKind f j y
        → count_login_failures ks x (window i t) < most i k
        → count_login_failures ks y (window j t) < most j k
        → Held f t k ks
        → Held f t k (record_login_failure (record_login_failure ks x b) y c)
    Held-pair i j t k ks x y b c ne o p u v a =
        Held-record j t k (record_login_failure ks x b) y c p
          (omega (arith, v, count_apart i j ks x y b (window j t) o p ne))
          (Held-record i t k ks x b o u a)

    pub Held-triple :
        (i j l t k : ℕ) (ks : Failures) (x y z : Digest) (b c e : ℕ)
        → i ≢ j
        → i ≢ l
        → j ≢ l
        → OfKind f i x
        → OfKind f j y
        → OfKind f l z
        → count_login_failures ks x (window i t) < most i k
        → count_login_failures ks y (window j t) < most j k
        → count_login_failures ks z (window l t) < most l k
        → Held f t k ks
        → Held f t k
            (record_login_failure (record_login_failure (record_login_failure ks x b) y c) z e)
    Held-triple i j l t k ks x y z b c e ij il jl o p q u v w a =
        Held-record l t k (record_login_failure (record_login_failure ks x b) y c) z e q
          (omega (
            arith,
            w,
            count_apart i l ks x z b (window l t) o q il,
            count_apart j l (record_login_failure ks x b) y z c (window l t) p q jl,
          ))
          (Held-pair i j t k ks x y b c ij o p u v a)
