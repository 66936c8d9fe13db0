-- ===== src/Oidc/OneGrant.antt =====
-- The grants of a family of refresh tokens: crates/saffui-core/src/tokens/store.rs over the flow of
-- crates/saffui-core/src/oidc/token.rs and refresh.rs.
pub mod Kept
use mathlib.Core.List.{Memᴰ}
use saffui.Base.{
  ℕ, String, Bool, true, false, ◌&&◌, ◌≡◌, ◌≢◌, refl, sym, ap, ◌∙◌, Option, none, some, List, [],
  ◌∷◌, ◌++◌, map, arith, inl, inr, subst, Bool-cases, Option-cases, ◌==◌, text_keys, number_keys,
  find, All,
}
use saffui.Base.Bytes.{bytes_keys}
use saffui.Tokens.{
  RefreshToken, StoredRefreshToken, is_spendable, insert_refresh_token, revoke_where,
}
use saffui.Tokens.Families.{IsUnused, Spends, first, later}
use saffui.Login.Sessions.{Session, ReadSession, read_session, standing}
use saffui.Clients.{Client}
use saffui.Oidc.World.{Db, World, TokenResponse}
use saffui.Oidc.Issue.{next_token}
use saffui.Oidc.Codes.{AuthorizationCode, ReplayedCode}
use saffui.Oidc.Units.{Spent, exchange_spend-Gives}
use saffui.Oidc.Parts.{taken_tokens}
use saffui.Oidc.Issued.{exchange_finish-Gives}
use saffui.Oidc.Rotated.{Rotated, renewed, replayed, rotate_refresh_token-Gives}
use saffui.Oidc.Steps.{
  Step, authorized, spent, finished, rotated, revoked, closed, elsewhere, withdrawn, Reach, here,
  next, Revokes, close_session-Revokes, revoke_work-Revokes,
}
use saffui.Oidc.Safety.{spend-Spends, nothing}

-- Two tokens of one family are of one client, of one session and for the same scopes.
pub record SameGrant (t u : RefreshToken) : Type 0 where
  pub client : t.client_id ≡ u.client_id
  pub session : t.session ≡ u.session
  pub scopes : t.scopes ≡ u.scopes

abbrev pub Agree : RefreshToken → RefreshToken → Type 0
Agree t u = t.family ≡ u.family → SameGrant t u

abbrev pub OneGrant : List RefreshToken → Type 0
OneGrant [] = Unit
OneGrant (t ∷ ts) = All (Agree t) ts × OneGrant ts

abbrev pub tokens_of : List StoredRefreshToken → List RefreshToken
tokens_of = map (λ s. s.token)

Agree-sym : (t u : RefreshToken) → Agree t u → Agree u t
Agree-sym t u h = λ e.
    let g = h (sym e) in
    record { client = sym g.client; session = sym g.session; scopes = sym g.scopes }

Agree-refl : (t : RefreshToken) → Agree t t
Agree-refl t = λ e. record { client = refl; session = refl; scopes = refl }

All-at :
    (P : RefreshToken → Type 0) (x : RefreshToken) (xs : List RefreshToken)
    → All P xs
    → Memᴰ x xs
    → P x
All-at P x [] h m = elim m [ ]
All-at P x (y ∷ xs) h (Memᴰ.head e) = subst P (sym e) h.0
All-at P x (y ∷ xs) h (Memᴰ.tail m) = All-at P x xs h.1 m

-- A token of the list agrees with the whole list.
Agree-mem : (x : RefreshToken) (xs : List RefreshToken) → OneGrant xs → Memᴰ x xs → All (Agree x) xs
Agree-mem x [] h m = elim m [ ]
Agree-mem x (y ∷ xs) h (Memᴰ.head e) =
    subst (λ z. All (Agree z) (y ∷ xs)) (sym e) (Agree-refl y, h.0)
Agree-mem x (y ∷ xs) h (Memᴰ.tail m) =
    (Agree-sym y x (All-at (Agree y) x xs h.0 m), Agree-mem x xs h.1 m)

-- A token of the grant of another agrees with what that one agrees with.
Agree-like :
    (t u : RefreshToken) (xs : List RefreshToken)
    → t.family ≡ u.family
    → SameGrant t u
    → All (Agree u) xs
    → All (Agree t) xs
Agree-like t u [] e g h = tt
Agree-like t u (x ∷ xs) e g h = (
  λ f.
      let k = h.0 (sym e ∙ f) in
      record {
        client = g.client ∙ k.client;
        session = g.session ∙ k.session;
        scopes = g.scopes ∙ k.scopes;
      },
  Agree-like t u xs e g h.1,
)

OneGrant-snoc :
    (t : RefreshToken) (xs : List RefreshToken)
    → All (Agree t) xs
    → OneGrant xs
    → OneGrant (xs ++ t ∷ [])
OneGrant-snoc t [] a h = (tt, tt)
OneGrant-snoc t (x ∷ xs) a h = (snoc xs h.0, OneGrant-snoc t xs a.1 h.1)
  where
    snoc : (ys : List RefreshToken) → All (Agree x) ys → All (Agree x) (ys ++ t ∷ [])
    snoc [] k = (Agree-sym t x a.0, tt)
    snoc (y ∷ ys) k = (k.0, snoc ys k.1)

tokens_of-revoke_where :
    (p : RefreshToken → Bool) (now : ℕ) (ts : List StoredRefreshToken)
    → tokens_of (revoke_where p now ts) ≡ tokens_of ts
unfolding revoke_where
tokens_of-revoke_where p now [] = refl
tokens_of-revoke_where p now (s ∷ ts) = ground (arith, tokens_of-revoke_where p now ts)

tokens_of-insert :
    (t : RefreshToken) (ts : List StoredRefreshToken)
    → tokens_of (insert_refresh_token ts t) ≡ tokens_of ts ++ t ∷ []
unfolding insert_refresh_token
tokens_of-insert t [] = refl
tokens_of-insert t (s ∷ ts) = ap (◌∷◌ s.token) (tokens_of-insert t ts)

module _ (p : StoredRefreshToken → Bool) (now : ℕ) where
  tokens_of-Spends :
      {ts rest : List StoredRefreshToken} {t : RefreshToken}
      → Spends p now ts t rest
      → tokens_of rest ≡ tokens_of ts
  tokens_of-Spends (first h) = refl
  tokens_of-Spends (later {s} d) = ap (◌∷◌ s.token) (tokens_of-Spends d)

  Spends-mem :
      {ts rest : List StoredRefreshToken} {t : RefreshToken}
      → Spends p now ts t rest
      → Memᴰ t (tokens_of ts)
  Spends-mem (first h) = Memᴰ.head refl
  Spends-mem (later d) = Memᴰ.tail (Spends-mem d)

  pub Spends-passes :
      {ts rest : List StoredRefreshToken} {t : RefreshToken}
      → Spends p now ts t rest
      → (s : StoredRefreshToken) × (p s ≡ true) × (s.token ≡ t)
  Spends-passes (first {s} h) = (s, h, refl)
  Spends-passes (later d) = Spends-passes d

spendable-client :
    (ts : List StoredRefreshToken) (digest : List ℕ) (client_id : String) (now : ℕ)
    (s : StoredRefreshToken)
    → is_spendable ts digest client_id now s ≡ true
    → s.token.client_id ≡ client_id
unfolding is_spendable
spendable-client ts digest client_id now s h =
    ground (arith, h, text_keys.same_iff s.token.client_id client_id)

found-id :
    (id : ℕ) (ss : List Session) (x : Session) → find (λ s. s.id == id) ss ≡ some x → x.id ≡ id
found-id id [] x e = absurd (cc)
found-id id (s ∷ ss) x e = elim (Bool-cases (s.id == id)) [
  | inl h ↦
      let same : s ≡ x = ground (arith, e, h) in
      subst (λ (y : Session). y.id ≡ id) same ((number_keys.same_iff s.id id).0 h)
  | inr h ↦ found-id id ss x (rw h at e)
]

standing-id :
    (holds : ℕ → Bool) (ss : List Session) (id now : ℕ) (x : Session)
    → standing (read_session holds ss id) now ≡ some x
    → x.id ≡ id
unfolding standing read_session
standing-id holds ss id now x e = elim (Option-cases (find (λ s. s.id == id) ss)) [
  | inl h ↦ absurd (ground (arith, e, h))
  | inr (y, h) ↦
      let same : y ≡ x = ground (arith, e, h) in
      subst (λ (z : Session). z.id ≡ id) same (found-id id ss y h)
]
