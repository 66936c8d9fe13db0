-- ===== src/Login/Fairness/Accounts.antt =====
-- The counts of crates/saffui-core/src/login/fairness.rs are those of the shares held, after any
-- calls in any order.
use Prim.Native.Nat.{min, max}
use saffui.Base.{
  ℕ, suc, ◌≤◌, ◌≡◌, refl, String, Bool, true, false, Option, none, some, List, [], ◌∷◌, ◌++◌, ◌/◌,
  ◌-◌, ◌^◌, ◌⊎◌, arith, ◌==◌, ◌↔◌, number_keys, text_keys, if◌then◌else◌,
}
use saffui.Counts.{held, held-take_one, held-give_back}
use saffui.Login.Fairness.{
  HashingShares, HashingShare, new, take, drop_share, is_held_whole, has_free_share,
}

-- How many of the shares are of a realm, and of a network.
pub of_realm : ℕ → List HashingShare → ℕ
of_realm r [] = 0
of_realm r (x ∷ xs) = if x.realm == r then suc (of_realm r xs) else of_realm r xs

abbrev is_network : String → Option String → Bool
is_network n none = false
is_network n (some m) = m == n

pub of_network : String → List HashingShare → ℕ
of_network n [] = 0
of_network n (x ∷ xs) = if is_network n x.network then suc (of_network n xs) else of_network n xs

of_realm_middle :
    (r : ℕ) (x : HashingShare) (xs ys : List HashingShare)
    → of_realm r (xs ++ x ∷ ys)
      ≡ (if x.realm == r then suc (of_realm r (xs ++ ys)) else of_realm r (xs ++ ys))
unfolding of_realm
of_realm_middle r x [] ys = refl
of_realm_middle r x (y ∷ xs) ys = ground (arith, of_realm_middle r x xs ys)

of_network_middle :
    (n : String) (x : HashingShare) (xs ys : List HashingShare)
    → of_network n (xs ++ x ∷ ys)
      ≡ (if is_network n x.network then suc (of_network n (xs ++ ys)) else of_network n (xs ++ ys))
unfolding of_network
of_network_middle n x [] ys = refl
of_network_middle n x (y ∷ xs) ys = ground (arith, of_network_middle n x xs ys)

-- What the calls make of new shares, with the shares that are held.
pub data Reach (hashers : ℕ) : HashingShares → List HashingShare → Type 0 where
  fresh : Reach hashers (new hashers) []
  took :
      {s t : HashingShares} {shares : List HashingShare} (realm : ℕ) (network : Option String)
      (share : HashingShare)
      → Reach hashers s shares
      → take s realm network ≡ some (t, share)
      → Reach hashers t (share ∷ shares)
  gave :
      {s : HashingShares} {shares : List HashingShare} (share : HashingShare)
      (xs ys : List HashingShare)
      → Reach hashers s shares
      → shares ≡ xs ++ share ∷ ys
      → Reach hashers (drop_share s share) (xs ++ ys)

pub record Accounts (h : ℕ) (s : HashingShares) (shares : List HashingShare) : Type 0 where
  pub realm_bound : s.per_realm ≡ (new h).per_realm
  pub network_bound : s.per_network ≡ (new h).per_network
  pub realm : (r : ℕ) → held s.realms r ≡ of_realm r shares
  pub network : (n : String) → held s.networks n ≡ of_network n shares
  pub realm_within : (r : ℕ) → of_realm r shares ≤ (new h).per_realm
  pub network_within : (n : String) → of_network n shares ≤ (new h).per_network

fresh-Accounts : (h : ℕ) → Accounts h (new h) []
unfolding new held of_realm of_network
fresh-Accounts h = record {
  realm_bound = refl;
  network_bound = refl;
  realm = λ r. refl;
  network = λ n. refl;
  realm_within = λ r. omega arith;
  network_within = λ n. omega arith;
}

took-Accounts :
    (h : ℕ) (s t : HashingShares) (shares : List HashingShare) (realm : ℕ) (network : Option String)
    (share : HashingShare)
    → take s realm network ≡ some (t, share)
    → Accounts h s shares
    → Accounts h t (share ∷ shares)
unfolding take is_held_whole of_realm of_network
took-Accounts h s t shares r none x e a = record {
  realm_bound = ground (arith, a.realm_bound);
  network_bound = ground (arith, a.network_bound);
  realm = λ q. ground (arith, a.realm q, held-take_one s.realms r q);
  network = λ n. ground (arith, a.network n);
  realm_within = λ q.
      ground
        (arith, a.realm q, a.realm r, a.realm_within q, a.realm_bound, number_keys.same_iff r q);
  network_within = λ n. ground (arith, a.network_within n);
}
took-Accounts h s t shares r (some m) x e a = record {
  realm_bound = ground (arith, a.realm_bound);
  network_bound = ground (arith, a.network_bound);
  realm = λ q. ground (arith, a.realm q, held-take_one s.realms r q);
  network = λ n. ground (arith, a.network n, held-take_one s.networks m n);
  realm_within = λ q.
      ground
        (arith, a.realm q, a.realm r, a.realm_within q, a.realm_bound, number_keys.same_iff r q);
  network_within = λ n. ground (
    arith,
    a.network n,
    a.network m,
    a.network_within n,
    a.network_bound,
    text_keys.same_iff m n,
  );
}

gave-Accounts :
    (h : ℕ) (s : HashingShares) (x : HashingShare) (xs ys : List HashingShare) (o : Option String)
    → x.network ≡ o
    → Accounts h s (xs ++ x ∷ ys)
    → Accounts h (drop_share s x) (xs ++ ys)
unfolding drop_share
gave-Accounts h s x xs ys o e a = record {
  realm_bound = a.realm_bound;
  network_bound = a.network_bound;
  realm =
      λ q. ground (arith, a.realm q, held-give_back s.realms x.realm q, of_realm_middle q x xs ys);
  network = λ n. given n o e;
  realm_within = λ q. ground (arith, a.realm_within q, of_realm_middle q x xs ys);
  network_within = λ n. ground (arith, a.network_within n, of_network_middle n x xs ys);
}
  where
    given :
        (n : String) (p : Option String)
        → x.network ≡ p
        → held (drop_share s x).networks n ≡ of_network n (xs ++ ys)
    given n none q = ground (arith, a.network n, of_network_middle n x xs ys)
    given n (some m) q =
        ground (arith, a.network n, held-give_back s.networks m n, of_network_middle n x xs ys)

-- After any takings and givings back, in any order, each realm and each network holds as many hashes
-- as its shares, and neither is past its bound: half and a quarter of the hashers, one at least.
pub shares-Accounts :
    {h : ℕ} {s : HashingShares} {shares : List HashingShare}
    → Reach h s shares
    → Accounts h s shares
shares-Accounts {h} fresh = fresh-Accounts h
shares-Accounts {h} (took {s} {t} {shares} realm network x r e) =
    took-Accounts h s t shares realm network x e (shares-Accounts r)
shares-Accounts {h} (gave {s} x xs ys r e) =
    gave-Accounts h s x xs ys x.network refl (rw e at (shares-Accounts r))

-- Whether the network, where there is one, holds its whole share.
abbrev pub IsPast : ℕ → Option String → List HashingShare → Type 0
IsPast h none shares = ⊥
IsPast h (some network) shares = max (min (h / 4) (2 ^ 32 - 1)) 1 ≤ of_network network shares

-- A hash is refused exactly when its realm holds half the hashers already, or its network a quarter of
-- them (one at least, and no more than 32 bits hold), whatever was taken and given back before; and a
-- share is told free exactly when it is not refused.
pub take-none_iff_shares :
    {h : ℕ} {s : HashingShares} {shares : List HashingShare} (realm : ℕ) (network : Option String)
    → Reach h s shares
    → ((take s realm network ≡ none)
        ↔ ((max (min (h / 2) (2 ^ 32 - 1)) 1 ≤ of_realm realm shares) ⊎ IsPast h network shares))
      × ((has_free_share s realm network ≡ true)
          ↔ ¬ (
              (max (min (h / 2) (2 ^ 32 - 1)) 1 ≤ of_realm realm shares) ⊎ IsPast h network shares))
unfolding take has_free_share is_held_whole new
take-none_iff_shares {h} {s} {shares} realm none r =
    let a = shares-Accounts r in
    (ground (arith, a.realm realm, a.realm_bound), ground (arith, a.realm realm, a.realm_bound))
take-none_iff_shares {h} {s} {shares} realm (some n) r =
    let a = shares-Accounts r in
    (
      ground (arith, a.realm realm, a.realm_bound, a.network n, a.network_bound),
      ground (arith, a.realm realm, a.realm_bound, a.network n, a.network_bound),
    )
