-- ===== src/Login/Fairness.antt =====
-- The shares of the password hashers: crates/saffui-core/src/login/fairness.rs.
-- A `Mutex` orders the calls; a share that is dropped gives its hash back.
pub mod Accounts
pub mod Tests
use Prim.Native.Nat.{min, max}
use saffui.Base.{
  ℕ, ◌+◌, ◌-◌, ◌/◌, ◌^◌, String, Bool, false, not, ◌||◌, Option, none, some, List, [], leb,
  if◌then◌else◌, number_keys, text_keys,
}
use saffui.Counts.{held, take_one, give_back}

-- A realm is its identifier, a number; a network is what is written of it.
pub record HashingShares : Type 0 where
  pub per_realm : ℕ
  pub per_network : ℕ
  pub realms : List (ℕ × ℕ)
  pub networks : List (String × ℕ)

-- What a caller holds for the time of a hash.
pub record HashingShare : Type 0 where
  pub realm : ℕ
  pub network : Option String

abbrev part : ℕ → ℕ → ℕ
part hashers divisor = max (min (hashers / divisor) (2 ^ 32 - 1)) 1

pub new : ℕ → HashingShares
new hashers = record {
  per_realm = part hashers 2;
  per_network = part hashers 4;
  realms = [];
  networks = [];
}

abbrev network_is_whole : HashingShares → Option String → Bool
network_is_whole s none = false
network_is_whole s (some network) = leb s.per_network (held s.networks network)

pub is_held_whole : HashingShares → ℕ → Option String → Bool
is_held_whole s realm network = leb s.per_realm (held s.realms realm) || network_is_whole s network

pub has_free_share : HashingShares → ℕ → Option String → Bool
unfolding is_held_whole
has_free_share s realm network = not (is_held_whole s realm network)

abbrev take_network : List (String × ℕ) → Option String → List (String × ℕ)
take_network m none = m
take_network m (some network) = take_one m network

abbrev give_network : List (String × ℕ) → Option String → List (String × ℕ)
give_network m none = m
give_network m (some network) = give_back m network

pub take : HashingShares → ℕ → Option String → Option (HashingShares × HashingShare)
unfolding is_held_whole
take s realm network =
    if is_held_whole s realm network
    then none
    else some (
      record s { realms = take_one s.realms realm; networks = take_network s.networks network },
      record { realm = realm; network = network },
    )

-- `Drop for HashingShare`
pub drop_share : HashingShares → HashingShare → HashingShares
drop_share s share = record s {
  realms = give_back s.realms share.realm;
  networks = give_network s.networks share.network;
}
