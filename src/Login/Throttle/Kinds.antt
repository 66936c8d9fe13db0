-- ===== src/Login/Throttle/Kinds.antt =====
-- The kinds of the counters of a brake of crates/saffui-core/src/login/throttle.rs.
use saffui.Base.{ℕ, ◌≡◌, Option, none, some, List, [], ◌∷◌, arith, number_keys}
use saffui.Base.Bytes.{bytes_keys}
use saffui.Login.Counters.{Digest}
use saffui.Login.Throttle.{
  Brake, digest_counter, digest_name_locks, of, count_browser_apart, write_parts,
}
use saffui.Login.Throttle.Attempts.{IsBrake, Kinds, unknown, known}

module _ (f : List ℕ → Option Digest) where
  Kinds-of :
      (typed : List ℕ) (caller : Option (List ℕ)) (b : Brake)
      → of f typed caller ≡ some b
      → Kinds f b
  unfolding of digest_name_locks digest_counter
  Kinds-of typed none b e = record {
    name = (write_parts (typed ∷ []), ground (arith, e));
    name_today = (write_parts (typed ∷ []), ground (arith, e));
    address = λ d q. absurd (ground (arith, e));
    by_both = λ d q. absurd (ground (arith, e));
    browser = λ r q. absurd (ground (arith, e));
  }
  Kinds-of typed (some caller) b e = record {
    name = (write_parts (typed ∷ []), ground (arith, e));
    name_today = (write_parts (typed ∷ []), ground (arith, e));
    address = λ d q. (write_parts (caller ∷ []), ground (arith, e));
    by_both = λ d q. (write_parts (caller ∷ typed ∷ []), ground (arith, e));
    browser = λ r q. absurd (ground (arith, e));
  }

  Kinds-apart :
      (typed device : List ℕ) (a b : Brake)
      → Kinds f a
      → count_browser_apart f a typed device ≡ some b
      → Kinds f b
  unfolding count_browser_apart digest_counter
  Kinds-apart typed device a b h e = record {
    name = (h.name.0, ground (arith, h.name.1));
    name_today = (h.name_today.0, ground (arith, h.name_today.1));
    address = λ d q. h.address d (ground arith);
    by_both = λ d q. h.by_both d (ground arith);
    browser = λ r q. (
      (write_parts (device ∷ []), ground arith),
      (write_parts (device ∷ typed ∷ []), ground arith),
      (write_parts (device ∷ typed ∷ []), ground arith),
    );
  }

  pub IsBrake-Kinds : {b : Brake} → IsBrake f b → Kinds f b
  IsBrake-Kinds (unknown typed caller b e) = Kinds-of typed caller b e
  IsBrake-Kinds (known typed device a b i e) = Kinds-apart typed device a b (IsBrake-Kinds i) e
