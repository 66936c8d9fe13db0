-- ===== src/Oidc/Safety.antt =====
-- What no sequence of units of work of crates/saffui-core/src/oidc/token.rs, refresh.rs and revoke.rs
-- does, whatever requests come between the two of an exchange.
use mathlib.Core.List.{Memᴰ}
use saffui.Base.{
  ℕ, String, true, ◌≡◌, ◌≢◌, refl, sym, Option, none, some, List, [], ◌∷◌, All, inl, inr, subst,
}
use saffui.Tokens.{RefreshToken, StoredRefreshToken, is_some, is_spendable, spend_refresh_token}
use saffui.Tokens.Families.{
  IsClosed, IsClosed-revoke_where, Spends, Spends-IsClosed, Spends-ne, spend_first-Spends,
  spendable-live,
}
use saffui.Clients.{Client}
use saffui.Oidc.Codes.{AuthorizationCode, KeptCode}
use saffui.Oidc.World.{Db, World, TokenResponse}
use saffui.Oidc.Issue.{next_token}
use saffui.Oidc.Units.{Spent, TakenBack, exchange_spend-Gives}
use saffui.Oidc.Parts.{Parts}
use saffui.Oidc.Issued.{Finished, exchange_finish-Gives}
use saffui.Oidc.Rotated.{Rotated, renewed, replayed, rotate_refresh_token-Gives}
use saffui.Oidc.Rotations.{Renewed}
use saffui.Oidc.Replays.{
  Quiet, Quiet-more, Quiet-asked, Quiet-spend, Quiet-bind, Open-bind, Quiet-insert, Quiet-mark,
  All-map,
}
use saffui.Oidc.Steps.{
  Step, authorized, spent, finished, rotated, revoked, closed, elsewhere, withdrawn, Reach, here,
  next, MintsUnused, Revokes, close_session-Revokes, revoke_work-Revokes,
}

abbrev pub IsQuiet : Db → Type 0
IsQuiet d = All (Quiet d.tokens) d.codes

pub spend-Spends :
    (ts : List StoredRefreshToken) (digest : List ℕ) (client_id : String) (now : ℕ)
    (t : RefreshToken) (rest : List StoredRefreshToken)
    → spend_refresh_token ts digest client_id now ≡ some (t, rest)
    → Spends (is_spendable ts digest client_id now) now ts t rest
unfolding spend_refresh_token
spend-Spends ts digest client_id now t rest e =
    spend_first-Spends (is_spendable ts digest client_id now) now ts t rest e

-- The invariant at the codes and the tokens that a step leaves.
Quiet-Parts :
    {cs : List KeptCode} {ts : List StoredRefreshToken} {d d' : Db}
    → Parts cs ts d d'
    → All (Quiet ts) cs
    → IsQuiet d'
Quiet-Parts {cs} {ts} {d} {d'} p h =
    subst (λ us. All (Quiet us) d'.codes) (sym p.tokens_are)
      (subst (λ ks. All (Quiet ts) ks) (sym p.codes_are) h)

Revokes-IsQuiet : {d d' : Db} → Revokes d d' → IsQuiet d → IsQuiet d'
Revokes-IsQuiet {d} {d'} r h =
    subst (λ ks. All (Quiet d'.tokens) ks) (sym r.codes_are)
      (Quiet-more d.tokens d'.tokens d.codes
        (λ f c. elim r.tokens_are [
          | inl e ↦ subst (IsClosed f) (sym e) c
          | inr (p, now, e) ↦ subst (IsClosed f) (sym e) (IsClosed-revoke_where p now f d.tokens c)
        ])
        h)

module _ (w : World) where
  TakenBack-IsQuiet :
      {digest : List ℕ} {client_id : String} {d d' : Db}
      → TakenBack w digest client_id d d'
      → IsQuiet d
      → IsQuiet d'
  TakenBack-IsQuiet {digest} {client_id} {d} t h =
      Quiet-Parts t.marks (Quiet-mark digest client_id w.asked_at d.tokens d.codes h)

  Spent-IsQuiet :
      (digest : List ℕ) (client : Client) (o : Option AuthorizationCode) (d d' : Db)
      → Spent w digest client o d d'
      → IsQuiet d
      → IsQuiet d'
  Spent-IsQuiet digest client (some code) d d' s h =
      Quiet-Parts s.1 (Quiet-spend d.tokens digest w.asked_at d.codes h)
  Spent-IsQuiet digest client none d d' (e, _, p, t) h =
      TakenBack-IsQuiet t (Quiet-Parts p (Quiet-spend d.tokens digest w.asked_at d.codes h))

  Finished-IsQuiet :
      {client : Client} {code : AuthorizationCode} {digest : List ℕ} {d d' : Db} {a : TokenResponse}
      → MintsUnused w d
      → Finished w client code digest d a d'
      → IsQuiet d
      → IsQuiet d'
  unfolding next_token
  Finished-IsQuiet {digest = digest} {d = d} fresh f h =
      let o = f.obtains in
      Quiet-Parts o.leaves (
        Quiet-insert _ d.tokens _ (Open-bind digest o.family d.codes (fresh o.family o.minted).1)
          (Quiet-bind d.tokens digest o.family d.codes h))

  Renewed-IsQuiet :
      (client : Client) (asked : Option String) (digest : List ℕ) (used : RefreshToken)
      (rest : List StoredRefreshToken) (a : TokenResponse) (d d' : Db)
      → spend_refresh_token d.tokens digest client.client_id w.asked_at ≡ some (used, rest)
      → Renewed w client asked used (record d { tokens = rest }) a d'
      → IsQuiet d
      → IsQuiet d'
  unfolding next_token
  Renewed-IsQuiet client asked digest used rest a d d' e r h =
      let p = is_spendable d.tokens digest client.client_id w.asked_at in
      let sp = spend-Spends d.tokens digest client.client_id w.asked_at used rest e in
      Quiet-Parts r.leaves (
        Quiet-insert _ rest d.codes
          (All-map
            (λ k q again g.
              Spends-ne p w.asked_at used.family
                (spendable-live d.tokens digest client.client_id w.asked_at) sp
                (q again used.family g) refl)
            d.codes h)
          (Quiet-more d.tokens rest d.codes (λ f. Spends-IsClosed p w.asked_at f sp) h))

  Rotated-IsQuiet :
      (client : Client) (asked : Option String) (digest : List ℕ) (a : Option TokenResponse)
      (d d' : Db)
      → Rotated w client asked digest d a d'
      → IsQuiet d
      → IsQuiet d'
  Rotated-IsQuiet client asked digest a d d' (renewed {spent = used} {rest} {response} e r) h =
      Renewed-IsQuiet client asked digest used rest response d d' e r h
  Rotated-IsQuiet client asked digest a d d' (replayed e r) h =
      Quiet-Parts r.leaves
        (Quiet-more d.tokens _ d.codes (λ f. IsClosed-revoke_where _ w.asked_at f d.tokens) h)

Step-IsQuiet : {d d' : Db} → Step d d' → IsQuiet d → IsQuiet d'
Step-IsQuiet (authorized code {d}) h = Quiet-asked d.tokens code d.codes h
Step-IsQuiet (spent w id secret code s r e) h =
    Spent-IsQuiet w _ r.0.0 r.0.1 s.kept r.1.kept (exchange_spend-Gives w id secret code s r e).2 h
Step-IsQuiet (finished w client code digest s r fresh e) h =
    Finished-IsQuiet w fresh (exchange_finish-Gives w client code digest s r e) h
Step-IsQuiet (rotated w id secret presented asked s r e) h =
    let (client, _, _, t) = rotate_refresh_token-Gives w id secret presented asked s r e in
    Rotated-IsQuiet w client asked _ r.0 s.kept r.1.kept t h
Step-IsQuiet (revoked w id secret presented s r e) h =
    Revokes-IsQuiet (revoke_work-Revokes w id secret presented s r e) h
Step-IsQuiet (closed w session s r e) h = Revokes-IsQuiet (close_session-Revokes w session s r e) h
Step-IsQuiet (elsewhere sessions) h = h
Step-IsQuiet (withdrawn p now {d}) h =
    Quiet-more d.tokens _ d.codes (λ f. IsClosed-revoke_where p now f d.tokens) h

Reach-IsQuiet : {d d' : Db} → IsQuiet d → Reach d d' → IsQuiet d'
Reach-IsQuiet h here = h
Reach-IsQuiet h (next r st) = Step-IsQuiet st (Reach-IsQuiet h r)

All-mem {ℓ κ} : {A : Type ℓ} (P : A → Type κ) (x : A) (xs : List A) → All P xs → Memᴰ x xs → P x
All-mem P x [] h m = elim m [ ]
All-mem P x (y ∷ xs) h (Memᴰ.head e) = subst P (sym e) h.0
All-mem P x (y ∷ xs) h (Memᴰ.tail m) = All-mem P x xs h.1 m

-- A realm with no code and no token.
abbrev pub nothing : Db
nothing = record { codes = []; tokens = []; sessions = []; events = [] }

-- No token of the family of a code that is marked replayed is spent.
pub marked-ne :
    {d : Db} (k : KeptCode) (f : ℕ) (digest : List ℕ) (client_id : String) (now : ℕ)
    (t : RefreshToken) (rest : List StoredRefreshToken)
    → Reach nothing d
    → Memᴰ k d.codes
    → is_some k.replayed_at ≡ true
    → k.family ≡ some f
    → spend_refresh_token d.tokens digest client_id now ≡ some (t, rest)
    → t.family ≢ f
marked-ne {d} k f digest client_id now t rest reach m again bound e =
    Spends-ne (is_spendable d.tokens digest client_id now) now f
      (spendable-live d.tokens digest client_id now)
      (spend-Spends d.tokens digest client_id now t rest e)
      (All-mem (Quiet d.tokens) k d.codes (Reach-IsQuiet tt reach) m again f bound)
