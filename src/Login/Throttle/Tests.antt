-- ===== src/Login/Throttle/Tests.antt =====
-- Runs of the brake, and the theorem at them, under a digest that keeps what is digested.
use saffui.Base.{ℕ, ◌≡◌, refl, Option, none, some, List, [], ◌∷◌, arith}
use saffui.Login.Counters.{Digest, count_login_failures}
use saffui.Login.Throttle.{Brake, of, is_name_locked, record_failure}
use saffui.Login.Throttle.Attempts.{IsBrake, unknown, Attempts, start, failed, Held}
use saffui.Login.Throttle.Held.{Injective}
use saffui.Login.Throttle.Bounds.{Attempts-Held}
use saffui.Login.Throttle.Apart.{NoEnd, of-address_and_name}

kept : List ℕ → Option Digest
kept v = some v

kept-Injective : Injective kept
unfolding kept
kept-Injective v w d p q = ground (arith, p, q)

-- The name `a` typed from 1.2.3.4.
abbrev address : List ℕ
address = 49 ∷ 46 ∷ 50 ∷ 46 ∷ 51 ∷ 46 ∷ 52 ∷ []

abbrev brake : Brake
brake = record {
  name = 1 ∷ 97 ∷ 0 ∷ [];
  name_today = 5 ∷ 97 ∷ 0 ∷ [];
  address = some (2 ∷ 49 ∷ 46 ∷ 50 ∷ 46 ∷ 51 ∷ 46 ∷ 52 ∷ 0 ∷ []);
  address_and_name = some (3 ∷ 49 ∷ 46 ∷ 50 ∷ 46 ∷ 51 ∷ 46 ∷ 52 ∷ 0 ∷ 97 ∷ 0 ∷ []);
  browser = none;
}

brake-IsBrake : IsBrake kept brake
unfolding kept of
brake-IsBrake = unknown (97 ∷ []) (some address) brake refl

one-Attempts : Attempts kept 100000 0 (record_failure brake [] 100000)
unfolding is_name_locked count_login_failures
one-Attempts = failed brake 100000 start (omega arith) brake-IsBrake refl

Attempts-Held_example : Held kept 100000 0 (record_failure brake [] 100000)
Attempts-Held_example = Attempts-Held kept kept-Injective one-Attempts

address-NoEnd : NoEnd address
address-NoEnd = (
  λ e. absurd (omega (arith, e)),
  (
    λ e. absurd (omega (arith, e)),
    (
      λ e. absurd (omega (arith, e)),
      (
        λ e. absurd (omega (arith, e)),
        (
          λ e. absurd (omega (arith, e)),
          (λ e. absurd (omega (arith, e)), (λ e. absurd (omega (arith, e)), tt)),
        ),
      ),
    ),
  ),
)

abbrev typed_name : List ℕ
typed_name = 97 ∷ []

of-address_and_name_example : (address ≡ address) × (typed_name ≡ typed_name)
unfolding kept of
of-address_and_name_example =
    of-address_and_name kept kept-Injective typed_name typed_name address address brake brake
      (3 ∷ 49 ∷ 46 ∷ 50 ∷ 46 ∷ 51 ∷ 46 ∷ 52 ∷ 0 ∷ 97 ∷ 0 ∷ []) address-NoEnd address-NoEnd refl refl
      refl refl
