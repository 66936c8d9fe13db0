-- ===== src/Login/Throttle/Apart.antt =====
-- What the counters of crates/saffui-core/src/login/throttle.rs stand for: two attempts share one only
-- if they are by the same name and the same address.
use saffui.Base.{ℕ, ◌≡◌, ◌≢◌, refl, Option, some, List, [], ◌∷◌, ◌++◌, All, arith}
use saffui.Login.Counters.{Digest}
use saffui.Login.Throttle.{Brake, write_parts, digest_counter, digest_name_locks, of}
use saffui.Login.Throttle.Held.{Injective}

-- A text without the byte that ends a part. No text of an address holds it.
abbrev pub NoEnd : List ℕ → Type 0
NoEnd = All (λ c. c ≢ 0)

ended : (a b v w : List ℕ) → NoEnd a → NoEnd b → a ++ 0 ∷ v ≡ b ++ 0 ∷ w → (a ≡ b) × (v ≡ w)
ended [] [] v w h k e = (refl, ground (arith, e))
ended [] (y ∷ b) v w h k e = absurd (k.0 (ground (arith, e)))
ended (x ∷ a) [] v w h k e = absurd (h.0 (ground (arith, e)))
ended (x ∷ a) (y ∷ b) v w h k e =
    let rest = ended a b v w h.1 k.1 (ground (arith, e)) in (ground (arith, e, rest.0), rest.1)

-- The last part needs no such care: it ends where the whole does.
ended_last : (v w : List ℕ) → v ++ 0 ∷ [] ≡ w ++ 0 ∷ [] → v ≡ w
ended_last [] [] e = refl
ended_last [] (y ∷ []) e = absurd (ground (arith, e))
ended_last [] (y ∷ z ∷ w) e = absurd (ground (arith, e))
ended_last (x ∷ []) [] e = absurd (ground (arith, e))
ended_last (x ∷ z ∷ v) [] e = absurd (ground (arith, e))
ended_last (x ∷ v) (y ∷ w) e =
    let rest = ended_last v w (ground (arith, e)) in ground (arith, e, rest)

module _ (f : List ℕ → Option Digest) (inj : Injective f) where
  by_both_written :
      (typed caller : List ℕ) (b : Brake) (d : Digest)
      → of f typed (some caller) ≡ some b
      → b.address_and_name ≡ some d
      → f (3 ∷ write_parts (caller ∷ typed ∷ [])) ≡ some d
  unfolding of digest_name_locks digest_counter
  by_both_written typed caller b d e g = ground (arith, e, g)

  -- Under a digest that is injective, the failures of an address for a name are counted with those of
  -- no other name and no other address, whatever bytes a typed name holds. An address holds no byte
  -- that ends a part.
  pub of-address_and_name :
      (typed typed' caller caller' : List ℕ) (b b' : Brake) (d : Digest)
      → NoEnd caller
      → NoEnd caller'
      → of f typed (some caller) ≡ some b
      → of f typed' (some caller') ≡ some b'
      → b.address_and_name ≡ some d
      → b'.address_and_name ≡ some d
      → (caller ≡ caller') × (typed ≡ typed')
  of-address_and_name typed typed' caller caller' b b' d h k e e' g g' =
      let written =
        inj (3 ∷ write_parts (caller ∷ typed ∷ [])) (3 ∷ write_parts (caller' ∷ typed' ∷ [])) d
          (by_both_written typed caller b d e g) (by_both_written typed' caller' b' d e' g') in
      let parts =
        ended caller caller' (typed ++ 0 ∷ []) (typed' ++ 0 ∷ []) h k (ground (arith, written)) in
      (parts.0, ended_last typed typed' parts.1)
