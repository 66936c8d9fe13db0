-- ===== src/Tokens/Families.antt =====
-- What the operations on refresh tokens, of crates/saffui-core/src/testkit/memory/refresh.rs, do to a
-- family: one whose tokens are all revoked stays so, and none of its tokens is spent.
use saffui.Base.{
  ℕ, String, Bool, true, false, ◌≡◌, ◌≢◌, some, List, [], ◌∷◌, arith, number_keys, ◌==◌, All,
  Bool-cases, Option-cases, inl, inr, subst,
}
use saffui.Base.Bytes.{bytes_keys}
use saffui.Tokens.{
  RefreshToken, StoredRefreshToken, is_some, is_spendable, revoke_where, spend_first,
  insert_refresh_token,
}

-- Every token of the family is revoked.
abbrev pub IsClosed : ℕ → List StoredRefreshToken → Type 0
IsClosed f = All (λ s. s.token.family ≡ f → is_some s.revoked_at ≡ true)

-- No token is of the family.
abbrev pub IsUnused : ℕ → List StoredRefreshToken → Type 0
IsUnused f = All (λ s. s.token.family ≢ f)

pub IsUnused-IsClosed : (f : ℕ) (ts : List StoredRefreshToken) → IsUnused f ts → IsClosed f ts
IsUnused-IsClosed f [] h = tt
IsUnused-IsClosed f (s ∷ ts) h = (λ e. absurd (h.0 e), IsUnused-IsClosed f ts h.1)

module _ (p : RefreshToken → Bool) (now : ℕ) where
  pub IsClosed-revoke_where :
      (f : ℕ) (ts : List StoredRefreshToken) → IsClosed f ts → IsClosed f (revoke_where p now ts)
  unfolding revoke_where
  IsClosed-revoke_where f [] h = tt
  IsClosed-revoke_where f (s ∷ ts) h = (λ e. ground (arith, h.0), IsClosed-revoke_where f ts h.1)

-- To revoke a family closes it.
pub revoke_where-IsClosed :
    (f now : ℕ) (ts : List StoredRefreshToken)
    → IsClosed f (revoke_where (λ t. t.family == f) now ts)
unfolding revoke_where
revoke_where-IsClosed f now [] = tt
revoke_where-IsClosed f now (s ∷ ts) = (λ e. ground arith, revoke_where-IsClosed f now ts)

pub IsClosed-insert :
    (f : ℕ) (t : RefreshToken) (ts : List StoredRefreshToken)
    → t.family ≢ f
    → IsClosed f ts
    → IsClosed f (insert_refresh_token ts t)
unfolding insert_refresh_token
IsClosed-insert f t [] ne h = (λ e. absurd (ne e), tt)
IsClosed-insert f t (s ∷ ts) ne h = (h.0, IsClosed-insert f t ts ne h.1)

-- What a spending does: the first token that passes is marked used.
pub data Spends (p : StoredRefreshToken → Bool) (now : ℕ)
    : List StoredRefreshToken → RefreshToken → List StoredRefreshToken → Type 0 where
  first :
      {s : StoredRefreshToken} {ts : List StoredRefreshToken}
      → p s ≡ true
      → Spends p now (s ∷ ts) s.token (record s { used_at = some now } ∷ ts)
  later :
      {s : StoredRefreshToken} {ts rest : List StoredRefreshToken} {t : RefreshToken}
      → Spends p now ts t rest
      → Spends p now (s ∷ ts) t (s ∷ rest)

module _ (p : StoredRefreshToken → Bool) (now : ℕ) where
  Spends-by :
      {ts l rest : List StoredRefreshToken} {a t : RefreshToken}
      → (a ≡ t) × (l ≡ rest)
      → Spends p now ts a l
      → Spends p now ts t rest
  Spends-by {ts} {l} {rest} {a} {t} e d =
      subst (λ r. Spends p now ts t r) e.1 (subst (λ b. Spends p now ts b l) e.0 d)

  pub spend_first-Spends :
      (ts : List StoredRefreshToken) (t : RefreshToken) (rest : List StoredRefreshToken)
      → spend_first p now ts ≡ some (t, rest)
      → Spends p now ts t rest
  unfolding spend_first
  spend_first-Spends [] t rest e = absurd (cc)
  spend_first-Spends (s ∷ ts) t rest e = elim (Bool-cases (p s)) [
    | inl h ↦ Spends-by (ground (arith, e, h), ground (arith, e, h)) (first h)
    | inr h ↦ elim (Option-cases (spend_first p now ts)) [
      | inl g ↦ absurd (ground (arith, e, h, g))
      | inr (q, g) ↦
          Spends-by (ground (arith, e, h, g), ground (arith, e, h, g))
            (later (spend_first-Spends ts q.0 q.1 g))
    ]
  ]

  pub Spends-IsClosed :
      {ts rest : List StoredRefreshToken} {t : RefreshToken} (f : ℕ)
      → Spends p now ts t rest
      → IsClosed f ts
      → IsClosed f rest
  Spends-IsClosed f (first h) c = c
  Spends-IsClosed f (later d) c = (c.0, Spends-IsClosed f d c.1)

  -- A test that no revoked token passes spends none of a closed family.
  pub Spends-ne :
      {ts rest : List StoredRefreshToken} {t : RefreshToken} (f : ℕ)
      → ((s : StoredRefreshToken) → p s ≡ true → is_some s.revoked_at ≡ false)
      → Spends p now ts t rest
      → IsClosed f ts
      → t.family ≢ f
  Spends-ne f live (first {s} h) c = λ e. ground (arith, c.0 e, live s h)
  Spends-ne f live (later d) c = Spends-ne f live d c.1

pub spendable-live :
    (ts : List StoredRefreshToken) (digest : List ℕ) (client_id : String) (now : ℕ)
    (s : StoredRefreshToken)
    → is_spendable ts digest client_id now s ≡ true
    → is_some s.revoked_at ≡ false
unfolding is_spendable
spendable-live ts digest client_id now s h = ground (arith, h)
