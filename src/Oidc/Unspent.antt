-- ===== src/Oidc/Unspent.antt =====
-- How many refresh tokens of a family are left to be used, over the steps of crates/saffui-core/src/oidc:
-- a rotation writes one for the one that it spends.
use saffui.Base.{
  ℕ, ◌+◌, ◌≤◌, ◌≡◌, refl, Bool, true, false, not, ◌&&◌, if◌then◌else◌, Option, none, some, String,
  List, [], ◌∷◌, arith, number_keys, ◌==◌, nat_eqb_iff, subst, Bool-cases, Option-cases, inl, inr,
}
use saffui.Tokens.{
  RefreshToken, StoredRefreshToken, is_some, is_live, is_spendable, insert_refresh_token,
  revoke_where,
}
use saffui.Tokens.Families.{IsUnused, Spends, first, later}
use saffui.Clients.{Client}
use saffui.Oidc.World.{Db, World, TokenResponse}
use saffui.Oidc.Issue.{next_token}
use saffui.Oidc.Codes.{AuthorizationCode, ReplayedCode}
use saffui.Oidc.Parts.{taken_tokens}
use saffui.Oidc.Units.{Spent, exchange_spend-Gives}
use saffui.Oidc.Issued.{exchange_finish-Gives}
use saffui.Oidc.Rotated.{Rotated, renewed, replayed, rotate_refresh_token-Gives}
use saffui.Oidc.Steps.{
  Step, authorized, spent, finished, rotated, revoked, closed, elsewhere, withdrawn, Reach, here,
  next, Revokes, close_session-Revokes, revoke_work-Revokes,
}
use saffui.Oidc.Safety.{spend-Spends, nothing}

-- What a token counts for in a family.
abbrev counts : ℕ → StoredRefreshToken → ℕ
counts f s = if s.token.family == f && not (is_some s.used_at) then 1 else 0

-- How many tokens of a family were not used.
pub unspent : ℕ → List StoredRefreshToken → ℕ
unspent f [] = 0
unspent f (s ∷ ts) = counts f s + unspent f ts

unspent-revoke_where :
    (f : ℕ) (p : RefreshToken → Bool) (now : ℕ) (ts : List StoredRefreshToken)
    → unspent f (revoke_where p now ts) ≡ unspent f ts
unfolding unspent revoke_where
unspent-revoke_where f p now [] = refl
unspent-revoke_where f p now (s ∷ ts) = ground (arith, unspent-revoke_where f p now ts)

unspent-insert :
    (f : ℕ) (t : RefreshToken) (ts : List StoredRefreshToken)
    → unspent f (insert_refresh_token ts t) ≡ unspent f ts + (if t.family == f then 1 else 0)
unfolding unspent insert_refresh_token
unspent-insert f t [] = ground arith
unspent-insert f t (s ∷ ts) = omega (arith, unspent-insert f t ts)

unspent-Spends :
    (p : StoredRefreshToken → Bool) (now f : ℕ)
    → ((s : StoredRefreshToken) → p s ≡ true → is_some s.used_at ≡ false)
    → {ts rest : List StoredRefreshToken} {t : RefreshToken} → Spends p now ts t rest
    → unspent f rest + (if t.family == f then 1 else 0) ≡ unspent f ts
unfolding unspent
unspent-Spends p now f live (first {s} h) = ground (arith, live s h)
unspent-Spends p now f live (later d) = omega (arith, unspent-Spends p now f live d)

unspent-IsUnused : (f : ℕ) (ts : List StoredRefreshToken) → IsUnused f ts → unspent f ts ≡ 0
unfolding unspent
unspent-IsUnused f [] h = refl
unspent-IsUnused f (s ∷ ts) h =
    ground (arith, unspent-IsUnused f ts h.1, h.0, nat_eqb_iff s.token.family f)

spendable-unused :
    (ts : List StoredRefreshToken) (digest : List ℕ) (client_id : String) (now : ℕ)
    (s : StoredRefreshToken)
    → is_spendable ts digest client_id now s ≡ true
    → is_some s.used_at ≡ false
unfolding is_spendable is_live
spendable-unused ts digest client_id now s h = ground (arith, h)

abbrev OneUnspent : List StoredRefreshToken → Type 0
OneUnspent ts = (f : ℕ) → unspent f ts ≤ 1

-- What leaves each family as many tokens to use.
abbrev SameUnspent : List StoredRefreshToken → List StoredRefreshToken → Type 0
SameUnspent us ts = (f : ℕ) → unspent f us ≡ unspent f ts

kept_unspent : (us ts : List StoredRefreshToken) → SameUnspent us ts → OneUnspent ts → OneUnspent us
kept_unspent us ts e h f = omega (arith, e f, h f)

-- A token written in place of one that was spent, or in a family that has none.
inserted_unspent :
    (us ts rest : List StoredRefreshToken) (t : RefreshToken)
    → us ≡ insert_refresh_token rest t
    → ((f : ℕ) → unspent f rest + (if t.family == f then 1 else 0) ≤ 1)
    → OneUnspent us
inserted_unspent us ts rest t e h f = rw e (omega (arith, unspent-insert f t rest, h f))

unspent-taken :
    (now : ℕ) (o : Option ReplayedCode) (ts : List StoredRefreshToken)
    → SameUnspent (taken_tokens now o ts) ts
unspent-taken now none ts f = refl
unspent-taken now (some r) ts f = elim (Option-cases r.family) [
  | inl e ↦ rw e refl
  | inr (g, e) ↦ rw e (unspent-revoke_where f _ now ts)
]

unspent-Spent :
    (w : World) (digest : List ℕ) (client : Client) (o : Option AuthorizationCode) (d d' : Db)
    → Spent w digest client o d d'
    → SameUnspent d'.tokens d.tokens
unspent-Spent w digest client (some code) d d' s f = rw s.1.tokens_are refl
unspent-Spent w digest client none d d' (e, _, p, t) f =
    rw (t.marks.tokens_are, p.tokens_are) (unspent-taken w.asked_at _ d.tokens f)

unspent-Revokes : {d d' : Db} → Revokes d d' → SameUnspent d'.tokens d.tokens
unspent-Revokes {d} r f = elim r.tokens_are [
  | inl e ↦ rw e refl
  | inr (p, now, e) ↦ rw e (unspent-revoke_where f p now d.tokens)
]

Rotated-OneUnspent :
    (w : World) (client : Client) (scopes : Option String) (digest : List ℕ)
    (a : Option TokenResponse) (d d' : Db)
    → Rotated w client scopes digest d a d'
    → OneUnspent d.tokens
    → OneUnspent d'.tokens
unfolding next_token
Rotated-OneUnspent w client scopes digest a d d' (renewed {spent = used} {rest} e r) h =
    inserted_unspent d'.tokens d.tokens rest _ r.leaves.tokens_are λ f. omega (
      arith,
      unspent-Spends (is_spendable d.tokens digest client.client_id w.asked_at) w.asked_at f
          (spendable-unused d.tokens digest client.client_id w.asked_at)
          (spend-Spends d.tokens digest client.client_id w.asked_at used rest e),
      h f,
    )
Rotated-OneUnspent w client scopes digest a d d' (replayed e r) h =
    kept_unspent d'.tokens d.tokens
      (λ f. rw r.leaves.tokens_are (unspent-revoke_where f _ w.asked_at d.tokens)) h

fresh_unspent :
    (t : RefreshToken) (ts : List StoredRefreshToken)
    → IsUnused t.family ts
    → OneUnspent ts
    → (f : ℕ) → unspent f ts + (if t.family == f then 1 else 0) ≤ 1
fresh_unspent t ts u h f = elim (Bool-cases (t.family == f)) [
  | inl e ↦
      let same : t.family ≡ f = (nat_eqb_iff t.family f).0 e in
      let none_left : unspent f ts ≡ 0 =
        unspent-IsUnused f ts (subst (λ g. IsUnused g ts) same u) in
      rw e (omega (arith, none_left))
  | inr e ↦ rw e (omega (arith, h f))
]

fresh_inserted :
    (us ts : List StoredRefreshToken) (t : RefreshToken)
    → us ≡ insert_refresh_token ts t
    → IsUnused t.family ts
    → OneUnspent ts
    → OneUnspent us
fresh_inserted us ts t e u h = inserted_unspent us ts ts t e (fresh_unspent t ts u h)

Step-OneUnspent : {d d' : Db} → Step d d' → OneUnspent d.tokens → OneUnspent d'.tokens
unfolding next_token
Step-OneUnspent (authorized code) h = h
Step-OneUnspent (spent w id secret code s r e) h =
    kept_unspent r.1.kept.tokens s.kept.tokens
      (unspent-Spent w _ r.0.0 r.0.1 s.kept r.1.kept
        (exchange_spend-Gives w id secret code s r e).2)
      h
Step-OneUnspent (finished w client code digest s r fresh e) h =
    let o = (exchange_finish-Gives w client code digest s r e).obtains in
    fresh_inserted r.1.kept.tokens s.kept.tokens _ o.leaves.tokens_are (fresh o.family o.minted).0 h
Step-OneUnspent (rotated w id secret presented scopes s r e) h =
    let (client, _, _, t) = rotate_refresh_token-Gives w id secret presented scopes s r e in
    Rotated-OneUnspent w client scopes _ r.0 s.kept r.1.kept t h
Step-OneUnspent (revoked w id secret presented s r e) h =
    kept_unspent r.1.kept.tokens s.kept.tokens
      (unspent-Revokes (revoke_work-Revokes w id secret presented s r e)) h
Step-OneUnspent (closed w session s r e) h =
    kept_unspent r.1.kept.tokens s.kept.tokens
      (unspent-Revokes (close_session-Revokes w session s r e)) h
Step-OneUnspent (elsewhere sessions) h = h
Step-OneUnspent (withdrawn p now {d}) h =
    kept_unspent _ d.tokens (λ f. unspent-revoke_where f p now d.tokens) h

-- Whatever requests are served and in whatever order, a family has one refresh token at most that was
-- not used: each rotation takes the place of the token that it spends. What `mint_id` makes is taken to
-- be new.
pub Reach-unspent : {d : Db} (f : ℕ) → Reach nothing d → unspent f d.tokens ≤ 1
unfolding unspent
Reach-unspent f here = omega arith
Reach-unspent f (next r st) = Step-OneUnspent st (λ g. Reach-unspent g r) f
