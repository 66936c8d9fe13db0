-- ===== src/Authz/Shares.antt =====
-- The shares of the questions to the point of decision: crates/saffui-core/src/authz/shares.rs.
-- A `Mutex` orders the calls; a share that is dropped gives its question back.
pub mod Accounts
pub mod Tests
use saffui.Base.{
  ℕ, ◌+◌, ◌-◌, ◌/◌, ◌^◌, Bool, ◌||◌, Option, none, some, List, [], leb, if◌then◌else◌, number_keys,
}
use Prim.Native.Nat.{min, max}
use saffui.Counts.{held, take_one, give_back}

-- A tenant is its identifier, a number.
pub record DecisionShares : Type 0 where
  pub per_node : ℕ
  pub per_tenant : ℕ
  pub node : ℕ
  pub tenants : List (ℕ × ℕ)

unfoldable pub new : ℕ → ℕ → DecisionShares
new per_node per_tenant = record {
  per_node = per_node;
  per_tenant = per_tenant;
  node = 0;
  tenants = [];
}

-- `u32::try_from` of a larger number is `u32::MAX`.
pub for_pool : ℕ → DecisionShares
unfolding new
for_pool connections =
    let per_node = max (min (connections / 4) (2 ^ 32 - 1)) 1 in new per_node (max (per_node / 2) 1)

unfoldable pub is_refused : DecisionShares → ℕ → Bool
unfolding held
is_refused s tenant = leb s.per_node s.node || leb s.per_tenant (held s.tenants tenant)

unfoldable pub take : DecisionShares → ℕ → Option DecisionShares
unfolding is_refused
take s tenant =
    if is_refused s tenant
    then none
    else some (record s { node = s.node + 1; tenants = take_one s.tenants tenant })

-- `Drop for DecisionShare`
unfoldable pub drop_share : DecisionShares → ℕ → DecisionShares
drop_share s tenant = record s { node = s.node - 1; tenants = give_back s.tenants tenant }
