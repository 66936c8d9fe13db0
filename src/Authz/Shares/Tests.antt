-- ===== src/Authz/Shares/Tests.antt =====
-- Runs of the shares of the point of decision, and the theorems at them.
use Prim.Native.Nat.{max}
use saffui.Base.{number_keys, ℕ, ◌≤◌, ◌≡◌, ◌↔◌, ◌⊎◌, ◌/◌, refl, none, [], ◌∷◌}
use saffui.Counts.{count, take_one, give_back, put, remove}
use saffui.Authz.Shares.{DecisionShares, new, for_pool, take, drop_share}
use saffui.Authz.Shares.Accounts.{
  Reach, fresh, took, Accounts, Reach-Accounts, take-none_iff, for_pool_bounds,
}

abbrev one_taken : DecisionShares
one_taken = record { per_node = 3; per_tenant = 1; node = 1; tenants = (7, 1) ∷ [] }

one-Reach : Reach 3 1 one_taken (7 ∷ [])
unfolding take new take_one put
one-Reach = took 7 fresh refl

Reach-Accounts_example : Accounts 3 1 one_taken (7 ∷ [])
Reach-Accounts_example = Reach-Accounts one-Reach

take-none_iff_example : (take one_taken 7 ≡ none) ↔ ((3 ≤ 1) ⊎ (1 ≤ count {K = ℕ} 7 (7 ∷ [])))
take-none_iff_example = take-none_iff 7 one-Reach

given_back : drop_share one_taken 7 ≡ new 3 1
unfolding drop_share new give_back put remove
given_back = refl

for_pool_bounds_example :
    (1 ≤ (for_pool 20).per_tenant)
    × ((for_pool 20).per_tenant ≤ (for_pool 20).per_node)
    × ((for_pool 20).per_node ≤ max (20 / 4) 1)
for_pool_bounds_example = for_pool_bounds 20
