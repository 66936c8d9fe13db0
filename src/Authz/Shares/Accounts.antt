-- ===== src/Authz/Shares/Accounts.antt =====
-- The counts of crates/saffui-core/src/authz/shares.rs are those of the shares held, after any
-- calls in any order.
use Prim.Native.Nat.{max}
use saffui.Base.{
  ℕ, suc, ◌≤◌, ◌≡◌, refl, none, some, List, [], ◌∷◌, ◌++◌, arith, ◌↔◌, ◌⊎◌, ◌/◌, number_keys,
  length,
}
use saffui.Counts.{held, held-take_one, held-give_back, count, count_middle}
use saffui.Authz.Shares.{DecisionShares, new, for_pool, take, drop_share, is_refused}

-- What the calls make of new shares, with the tenants of the shares that are held.
pub data Reach (per_node per_tenant : ℕ) : DecisionShares → List ℕ → Type 0 where
  fresh : Reach per_node per_tenant (new per_node per_tenant) []
  took :
      {s t : DecisionShares} {leases : List ℕ} (tenant : ℕ)
      → Reach per_node per_tenant s leases
      → take s tenant ≡ some t
      → Reach per_node per_tenant t (tenant ∷ leases)
  gave :
      {s : DecisionShares} {leases : List ℕ} (tenant : ℕ) (xs ys : List ℕ)
      → Reach per_node per_tenant s leases
      → leases ≡ xs ++ tenant ∷ ys
      → Reach per_node per_tenant (drop_share s tenant) (xs ++ ys)

pub record Accounts (per_node per_tenant : ℕ) (s : DecisionShares) (leases : List ℕ) : Type 0 where
  pub node_bound : s.per_node ≡ per_node
  pub tenant_bound : s.per_tenant ≡ per_tenant
  pub node : s.node ≡ length leases
  pub tenant : (t : ℕ) → held s.tenants t ≡ count t leases
  pub node_within : length leases ≤ per_node
  pub tenant_within : (t : ℕ) → count t leases ≤ per_tenant

length_middle {ℓ} :
    {A : Type ℓ} (x : A) (xs ys : List A) → length (xs ++ x ∷ ys) ≡ suc (length (xs ++ ys))
length_middle x [] ys = refl
length_middle x (y ∷ xs) ys = ground (arith, length_middle x xs ys)

fresh-Accounts : (n k : ℕ) → Accounts n k (new n k) []
unfolding new held count
fresh-Accounts n k = record {
  node_bound = refl;
  tenant_bound = refl;
  node = refl;
  tenant = λ t. refl;
  node_within = omega arith;
  tenant_within = λ t. omega arith;
}

took-Accounts :
    (n k : ℕ) (s t : DecisionShares) (leases : List ℕ) (tenant : ℕ)
    → take s tenant ≡ some t
    → Accounts n k s leases
    → Accounts n k t (tenant ∷ leases)
unfolding take is_refused count
took-Accounts n k s t leases tenant e a = record {
  node_bound = ground (arith, a.node_bound);
  tenant_bound = ground (arith, a.tenant_bound);
  node = ground (arith, a.node);
  tenant = λ x. ground (arith, a.tenant x, a.tenant tenant, held-take_one s.tenants tenant x);
  node_within = ground (arith, a.node, a.node_bound);
  tenant_within = λ x. ground (
    arith,
    a.tenant x,
    a.tenant tenant,
    a.tenant_within x,
    a.tenant_bound,
    number_keys.same_iff tenant x,
  );
}

gave-Accounts :
    (n k : ℕ) (s : DecisionShares) (tenant : ℕ) (xs ys : List ℕ)
    → Accounts n k s (xs ++ tenant ∷ ys)
    → Accounts n k (drop_share s tenant) (xs ++ ys)
unfolding drop_share
gave-Accounts n k s tenant xs ys a = record {
  node_bound = a.node_bound;
  tenant_bound = a.tenant_bound;
  node = omega (arith, a.node, length_middle tenant xs ys);
  tenant = λ x.
      ground (arith, a.tenant x, held-give_back s.tenants tenant x, count_middle x tenant xs ys);
  node_within = omega (arith, a.node_within, length_middle tenant xs ys);
  tenant_within = λ x. ground (arith, a.tenant_within x, count_middle x tenant xs ys);
}

-- After any takings and givings back, in any order, a node holds as many questions as its shares, each
-- tenant as many as its own, and neither is past its bound.
pub Reach-Accounts :
    {n k : ℕ} {s : DecisionShares} {leases : List ℕ} → Reach n k s leases → Accounts n k s leases
Reach-Accounts {n} {k} fresh = fresh-Accounts n k
Reach-Accounts {n} {k} (took {s} {t} {leases} tenant r e) =
    took-Accounts n k s t leases tenant e (Reach-Accounts r)
Reach-Accounts {n} {k} (gave {s} tenant xs ys r e) =
    gave-Accounts n k s tenant xs ys (rw e at (Reach-Accounts r))

-- A question is refused exactly when the node, or the tenant that asks, holds its whole share. So a
-- tenant past its share leaves the others theirs, and given-back shares are taken again.
pub take-none_iff :
    {n k : ℕ} {s : DecisionShares} {leases : List ℕ} (tenant : ℕ)
    → Reach n k s leases
    → (take s tenant ≡ none) ↔ ((n ≤ length leases) ⊎ (k ≤ count tenant leases))
unfolding take is_refused
take-none_iff {n} {k} {s} {leases} tenant r =
    let a = Reach-Accounts r in
    ground (arith, a.node, a.tenant tenant, a.node_bound, a.tenant_bound)

-- A pool of any size gives a node a share of one question at least and of a quarter of the
-- connections at most (one for the smallest pools), and a tenant at least one and no more than the
-- node.
pub for_pool_bounds :
    (connections : ℕ)
    → (1 ≤ (for_pool connections).per_tenant)
      × ((for_pool connections).per_tenant ≤ (for_pool connections).per_node)
      × ((for_pool connections).per_node ≤ max (connections / 4) 1)
unfolding for_pool new
for_pool_bounds connections = omega arith

-- A share that is taken and given back leaves the counts as they were.
pub take-drop_share :
    (s t : DecisionShares) (tenant : ℕ)
    → take s tenant ≡ some t
    → ((drop_share t tenant).node ≡ s.node)
      × ((other : ℕ) → held (drop_share t tenant).tenants other ≡ held s.tenants other)
unfolding take drop_share is_refused
take-drop_share s t tenant e = (
  ground (arith, e),
  λ other.
      ground
        (arith, e, held-take_one s.tenants tenant other, held-give_back t.tenants tenant other),
)
