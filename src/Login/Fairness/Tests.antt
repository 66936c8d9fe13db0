-- ===== src/Login/Fairness/Tests.antt =====
-- Runs of the shares of the hashers, and the theorems at them.
use Prim.Native.Nat.{min, max}
use saffui.Base.{◌≤◌, ◌/◌, ◌-◌, ◌^◌, ◌⊎◌, ◌≡◌, ◌↔◌, refl, true, none, some, [], ◌∷◌}
use saffui.Counts.{held, take_one, put}
use saffui.Login.Fairness.{HashingShares, HashingShare, new, is_held_whole, take, has_free_share}
use saffui.Login.Fairness.Accounts.{
  Reach, fresh, took, Accounts, shares-Accounts, take-none_iff_shares, of_realm, IsPast,
}

abbrev share : HashingShare
share = record { realm = 9; network = some "2001:db8:1::/48" }

abbrev one_taken : HashingShares
one_taken = record {
  per_realm = 4;
  per_network = 2;
  realms = (9, 1) ∷ [];
  networks = ("2001:db8:1::/48", 1) ∷ [];
}

one-Reach : Reach 8 one_taken (share ∷ [])
unfolding take new is_held_whole held take_one put
one-Reach = took 9 (some "2001:db8:1::/48") share fresh refl

shares-Accounts_example : Accounts 8 one_taken (share ∷ [])
shares-Accounts_example = shares-Accounts one-Reach

take-none_iff_shares_example :
    ((take one_taken 9 none ≡ none)
      ↔ ((max (min (8 / 2) (2 ^ 32 - 1)) 1 ≤ of_realm 9 (share ∷ [])) ⊎ IsPast 8 none (share ∷ [])))
    × ((has_free_share one_taken 9 none ≡ true)
        ↔ ¬ (
            (max (min (8 / 2) (2 ^ 32 - 1)) 1 ≤ of_realm 9 (share ∷ []))
            ⊎ IsPast 8 none (share ∷ [])))
take-none_iff_shares_example = take-none_iff_shares 9 none one-Reach
