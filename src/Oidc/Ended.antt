-- ===== src/Oidc/Ended.antt =====
-- Families of refresh tokens that ended, over the units of work of crates/saffui-core/src/oidc.
use saffui.Base.{
  sym, ℕ, String, Bool, true, false, ◌≡◌, ◌≢◌, refl, ap, ◌∙◌, subst, Option, none, some, List, [],
  ◌∷◌, arith, number_keys, nat_eqb_iff, text_keys, ◌==◌, find, Bool-cases, Option-cases, inl, inr,
}
use saffui.Base.Bytes.{bytes_keys}
use saffui.Tokens.{
  RefreshToken, StoredRefreshToken, is_some, is_spendable, revoked_family, insert_refresh_token,
  spend_refresh_token, read_refresh_token, revoke_where,
}
use saffui.Tokens.Families.{IsUnused, Spends, first, later}
use saffui.Clients.{Client}
use saffui.Oidc.Codes.{AuthorizationCode, ReplayedCode}
use saffui.Oidc.World.{Db, World, TokenResponse}
use saffui.Oidc.Parts.{taken_tokens}
use saffui.Oidc.Units.{Spent, exchange_spend-Gives}
use saffui.Oidc.Issued.{exchange_finish-Gives}
use saffui.Oidc.Rotated.{Rotated, renewed, replayed, rotate_refresh_token-Gives}
use saffui.Oidc.Steps.{
  Step, authorized, spent, finished, rotated, revoked, closed, elsewhere, withdrawn, Reach, here,
  next, Revokes, close_session-Revokes, revoke_work-Revokes,
}
use saffui.Oidc.Safety.{spend-Spends}
use saffui.Oidc.OneGrant.{Spends-passes}

-- Some token of the family is revoked: none of them can be spent.
abbrev pub is_ended : ℕ → List StoredRefreshToken → Bool
is_ended f ts = is_some (revoked_family ts f)

is_ended-revoke_where :
    (f : ℕ) (p : RefreshToken → Bool) (now : ℕ) (ts : List StoredRefreshToken)
    → is_ended f ts ≡ true
    → is_ended f (revoke_where p now ts) ≡ true
unfolding revoked_family revoke_where
is_ended-revoke_where f p now [] h = h
is_ended-revoke_where f p now (s ∷ ts) h = ground (arith, h, is_ended-revoke_where f p now ts)

is_ended-insert :
    (f : ℕ) (t : RefreshToken) (ts : List StoredRefreshToken)
    → is_ended f ts ≡ true
    → is_ended f (insert_refresh_token ts t) ≡ true
unfolding revoked_family insert_refresh_token
is_ended-insert f t [] h = cc
is_ended-insert f t (s ∷ ts) h = ground (arith, h, is_ended-insert f t ts)

is_ended-Spends :
    (f : ℕ) (p : StoredRefreshToken → Bool) (now : ℕ) {ts rest : List StoredRefreshToken}
    {t : RefreshToken}
    → Spends p now ts t rest
    → is_ended f ts ≡ true
    → is_ended f rest ≡ true
unfolding revoked_family
is_ended-Spends f p now (first k) h = h
is_ended-Spends f p now (later {s} d) h = ground (arith, h, is_ended-Spends f p now d)

-- The revocation of a family that has a token ends it.
pub ended_by_revocation :
    (f now : ℕ) (ts : List StoredRefreshToken)
    → ¬ IsUnused f ts
    → is_ended f (revoke_where (λ t. t.family == f) now ts) ≡ true
unfolding revoked_family revoke_where
ended_by_revocation f now [] h = absurd (h tt)
ended_by_revocation f now (s ∷ ts) h = elim (Bool-cases (s.token.family == f)) [
  | inl e ↦ ground (arith, e)
  | inr e ↦
      let other : s.token.family ≢ f =
        λ same. ground (arith, e, (nat_eqb_iff s.token.family f).1 same) in
      ground (arith, e, ended_by_revocation f now ts (λ u. h (other, u)))
]

found_of_family :
    (p : StoredRefreshToken → Bool) (ts : List StoredRefreshToken) (x : StoredRefreshToken)
    → find p ts ≡ some x
    → ¬ IsUnused x.token.family ts
found_of_family p [] x e u = cc
found_of_family p (s ∷ ts) x e u = elim (Bool-cases (p s)) [
  | inl h ↦
      let same : s ≡ x = ground (arith, e, h) in
      u.0 (ap (λ (y : StoredRefreshToken). y.token.family) same)
  | inr h ↦ found_of_family p ts x (rw h at e) u.1
]

pub read_of_family :
    (ts : List StoredRefreshToken) (digest : List ℕ) (known : StoredRefreshToken)
    → read_refresh_token ts digest ≡ some known
    → ¬ IsUnused known.token.family ts
unfolding read_refresh_token
read_of_family ts digest known e u =
    elim (Option-cases (find (λ s. s.token.token_digest == digest) ts)) [
      | inl h ↦ ground (arith, e, h)
      | inr (x, h) ↦
          let same : x.token ≡ known.token = ground (arith, e, h) in
          found_of_family (λ s. s.token.token_digest == digest) ts x h
            (subst (λ (t : RefreshToken). IsUnused t.family ts) (sym same) u)
    ]

-- A token of an ended family is not spent.
spent-not_ended :
    (ts : List StoredRefreshToken) (digest : List ℕ) (client_id : String) (now : ℕ)
    (s : StoredRefreshToken)
    → is_spendable ts digest client_id now s ≡ true
    → is_ended s.token.family ts ≡ false
unfolding is_spendable
spent-not_ended ts digest client_id now s h = ground (arith, h)

-- What is read revoked is of a family that ended.
family_of_revoked :
    (p : StoredRefreshToken → Bool) (ts : List StoredRefreshToken) (x : StoredRefreshToken)
    → find p ts ≡ some x
    → is_some x.revoked_at ≡ true
    → is_ended x.token.family ts ≡ true
unfolding revoked_family
family_of_revoked p [] x e h = absurd (cc)
family_of_revoked p (s ∷ ts) x e h = elim (Bool-cases (p s)) [
  | inl q ↦
      let same : s ≡ x = ground (arith, e, q) in
      subst (λ (y : StoredRefreshToken). is_ended y.token.family (s ∷ ts) ≡ true) same
        (ground (arith, h, same, (nat_eqb_iff s.token.family s.token.family).1 refl))
  | inr q ↦ ground (arith, family_of_revoked p ts x (rw q at e) h)
]

pub read-ended :
    (ts : List StoredRefreshToken) (digest : List ℕ) (known : StoredRefreshToken)
    → read_refresh_token ts digest ≡ some known
    → is_some known.revoked_at ≡ true
    → is_ended known.token.family ts ≡ true
unfolding read_refresh_token
read-ended ts digest known e h =
    elim (Option-cases (find (λ s. s.token.token_digest == digest) ts)) [
      | inl g ↦ absurd (ground (arith, e, g))
      | inr (x, g) ↦
          let same : x.token ≡ known.token = ground (arith, e, g) in
          subst (λ (t : RefreshToken). is_ended t.family ts ≡ true) same
            (elim (Bool-cases (is_some x.revoked_at)) [
              | inl q ↦ family_of_revoked (λ s. s.token.token_digest == digest) ts x g q
              | inr q ↦ ground (arith, e, g, h, q)
            ])
    ]

taken-is_ended :
    (f now : ℕ) (o : Option ReplayedCode) (ts : List StoredRefreshToken)
    → is_ended f ts ≡ true
    → is_ended f (taken_tokens now o ts) ≡ true
taken-is_ended f now none ts h = h
taken-is_ended f now (some r) ts h = elim (Option-cases r.family) [
  | inl e ↦ rw e h
  | inr (g, e) ↦ rw e (is_ended-revoke_where f _ now ts h)
]

Spent-is_ended :
    (w : World) (digest : List ℕ) (client : Client) (o : Option AuthorizationCode) (f : ℕ)
    (d d' : Db)
    → Spent w digest client o d d'
    → is_ended f d.tokens ≡ true
    → is_ended f d'.tokens ≡ true
Spent-is_ended w digest client (some code) f d d' s h = rw s.1.tokens_are h
Spent-is_ended w digest client none f d d' (e, _, p, t) h =
    rw t.marks.tokens_are (taken-is_ended f w.asked_at _ e.tokens (rw p.tokens_are h))

Rotated-is_ended :
    (w : World) (client : Client) (scopes : Option String) (digest : List ℕ)
    (a : Option TokenResponse) (f : ℕ) (d d' : Db)
    → Rotated w client scopes digest d a d'
    → is_ended f d.tokens ≡ true
    → is_ended f d'.tokens ≡ true
Rotated-is_ended w client scopes digest a f d d' (renewed {spent = used} {rest} e r) h =
    rw r.leaves.tokens_are (
      is_ended-insert f _ rest (
        is_ended-Spends f (is_spendable d.tokens digest client.client_id w.asked_at) w.asked_at
          (spend-Spends d.tokens digest client.client_id w.asked_at used rest e) h))
Rotated-is_ended w client scopes digest a f d d' (replayed e r) h =
    rw r.leaves.tokens_are (is_ended-revoke_where f _ w.asked_at d.tokens h)

Revokes-is_ended :
    (f : ℕ) {d d' : Db} → Revokes d d' → is_ended f d.tokens ≡ true → is_ended f d'.tokens ≡ true
Revokes-is_ended f {d} r h = elim r.tokens_are [
  | inl e ↦ rw e h
  | inr (p, now, e) ↦ rw e (is_ended-revoke_where f p now d.tokens h)
]

Step-is_ended :
    (f : ℕ) {d d' : Db} → Step d d' → is_ended f d.tokens ≡ true → is_ended f d'.tokens ≡ true
Step-is_ended f (authorized code) h = h
Step-is_ended f (spent w id secret code s r e) h =
    Spent-is_ended w _ r.0.0 r.0.1 f s.kept r.1.kept (exchange_spend-Gives w id secret code s r e).2
      h
Step-is_ended f (finished w client code digest s r fresh e) h =
    let o = (exchange_finish-Gives w client code digest s r e).obtains in
    rw o.leaves.tokens_are (is_ended-insert f _ s.kept.tokens h)
Step-is_ended f (rotated w id secret presented scopes s r e) h =
    let (client, _, _, t) = rotate_refresh_token-Gives w id secret presented scopes s r e in
    Rotated-is_ended w client scopes _ r.0 f s.kept r.1.kept t h
Step-is_ended f (revoked w id secret presented s r e) h =
    Revokes-is_ended f (revoke_work-Revokes w id secret presented s r e) h
Step-is_ended f (closed w session s r e) h =
    Revokes-is_ended f (close_session-Revokes w session s r e) h
Step-is_ended f (elsewhere sessions) h = h
Step-is_ended f (withdrawn p now {d}) h = is_ended-revoke_where f p now d.tokens h

pub Reach-is_ended :
    (f : ℕ) {d d' : Db} → Reach d d' → is_ended f d.tokens ≡ true → is_ended f d'.tokens ≡ true
Reach-is_ended f here h = h
Reach-is_ended f (next r st) h = Step-is_ended f st (Reach-is_ended f r h)

-- No token of a family that ended is spent.
pub spent-ne :
    (ts : List StoredRefreshToken) (digest : List ℕ) (client_id : String) (now f : ℕ)
    (t : RefreshToken) (rest : List StoredRefreshToken)
    → spend_refresh_token ts digest client_id now ≡ some (t, rest)
    → is_ended f ts ≡ true
    → t.family ≢ f
spent-ne ts digest client_id now f t rest e h same =
    let (s, passes, is) =
      Spends-passes (is_spendable ts digest client_id now) now
        (spend-Spends ts digest client_id now t rest e) in
    let of_family : s.token.family ≡ f = ap (λ (x : RefreshToken). x.family) is ∙ same in
    let left : is_ended f ts ≡ false =
      subst (λ g. is_ended g ts ≡ false) of_family
        (spent-not_ended ts digest client_id now s passes) in
    ground (arith, left, h)
