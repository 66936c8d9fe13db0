-- ===== src/Counts.antt =====
-- Counters by key, as the shares of a node keep them: a `HashMap` of counts, and `give_back` of
-- crates/saffui-core/src/login/fairness.rs.
use saffui.Base.{
  ℕ, suc, ◌+◌, ◌-◌, ◌≡◌, refl, Option, none, some, List, [], ◌∷◌, ◌++◌, arith, Keys, ◌==◌,
  number_keys, if◌then◌else◌, get,
}

abbrev pub or_zero : Option ℕ → ℕ
or_zero none = 0
or_zero (some n) = n

module _ {ℓ} {K : Type ℓ} ⦃e : Keys K⦄ where
  -- `get(key).copied().unwrap_or(0)`
  unfoldable pub held : List (K × ℕ) → K → ℕ
  held m k = or_zero (get m k)

  unfoldable pub put : List (K × ℕ) → K → ℕ → List (K × ℕ)
  put [] k n = (k, n) ∷ []
  put ((j, c) ∷ m) k n = if j == k then (k, n) ∷ m else (j, c) ∷ put m k n

  unfoldable pub remove : List (K × ℕ) → K → List (K × ℕ)
  remove [] k = []
  remove ((j, c) ∷ m) k = let rest = remove m k in if j == k then rest else (j, c) ∷ rest

  -- `*entry(key).or_insert(0) += 1`
  unfoldable pub take_one : List (K × ℕ) → K → List (K × ℕ)
  unfolding held put
  take_one m k = put m k (held m k + 1)

  unfoldable pub give_back : List (K × ℕ) → K → List (K × ℕ)
  unfolding put remove
  give_back m k = elim (get m k) [
    | none ↦ m
    | some n ↦ if n - 1 == 0 then remove m k else put m k (n - 1)
  ]

  get-put :
      (m : List (K × ℕ)) (k j : K) (n : ℕ)
      → get (put m k n) j ≡ (if k == j then some n else get m j)
  unfolding put
  get-put [] k j n = refl
  get-put ((i, c) ∷ m) k j n =
      ground (arith, e.same_iff i k, e.same_iff i j, e.same_iff k j, get-put m k j n)

  get-remove :
      (m : List (K × ℕ)) (k j : K) → get (remove m k) j ≡ (if k == j then none else get m j)
  unfolding remove
  get-remove [] k j = ground arith
  get-remove ((i, c) ∷ m) k j =
      ground (arith, e.same_iff i k, e.same_iff i j, e.same_iff k j, get-remove m k j)

  pub held-take_one :
      (m : List (K × ℕ)) (k j : K)
      → held (take_one m k) j ≡ (if k == j then suc (held m j) else held m j)
  unfolding held take_one
  held-take_one m k j = ground (arith, e.same_iff k j, get-put m k j (held m k + 1))

  pub held-give_back :
      (m : List (K × ℕ)) (k j : K)
      → held (give_back m k) j ≡ (if k == j then held m j - 1 else held m j)
  unfolding held give_back
  held-give_back m k j =
      ground (arith, e.same_iff k j, get-put m k j (held m k - 1), get-remove m k j)

  -- How many of the leases are of a key.
  unfoldable pub count : K → List K → ℕ
  count k [] = 0
  count k (x ∷ xs) = if x == k then suc (count k xs) else count k xs

  pub count-append : (k : K) (xs ys : List K) → count k (xs ++ ys) ≡ count k xs + count k ys
  unfolding count
  count-append k [] ys = omega arith
  count-append k (x ∷ xs) ys = ground (arith, count-append k xs ys)

  pub count_middle :
      (k t : K) (xs ys : List K)
      → count k (xs ++ t ∷ ys) ≡ (if t == k then suc (count k (xs ++ ys)) else count k (xs ++ ys))
  unfolding count
  count_middle k t [] ys = refl
  count_middle k t (x ∷ xs) ys = ground (arith, count_middle k t xs ys)
