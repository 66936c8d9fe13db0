-- ===== src/Oidc/Replays.antt =====
-- What a code that was presented again keeps closed: the families that the codes of
-- crates/saffui-core/src/oidc/code.rs are bound to, over the operations on codes and on tokens.
use saffui.Base.{
  ℕ, String, true, false, not, ◌||◌, ◌≡◌, ◌≢◌, sym, ap, ◌∙◌, Option, none, some, List, [], ◌∷◌,
  ◌++◌, arith, text_keys, number_keys, ◌==◌, All, Bool-cases, Option-cases, inl, inr, subst,
}
use saffui.Base.Bytes.{bytes_keys}
use saffui.Tokens.{RefreshToken, StoredRefreshToken, is_some, insert_refresh_token}
use saffui.Tokens.Families.{IsClosed, IsClosed-revoke_where, revoke_where-IsClosed, IsClosed-insert}
use saffui.Oidc.Codes.{
  AuthorizationCode, KeptCode, ReplayedCode, at_code, spend_kept, bind_kept, mark_kept,
  insert_authorization_code, spend_authorization_code, bind_code_family, mark_code_replayed,
}
use saffui.Oidc.Parts.{taken_tokens}

-- What holds of every code holds of every code after one is found and changed, if it holds of that one.
pub All-at_code {ℓ} :
    {A : Type ℓ} (P : KeptCode → Type 0) (digest : List ℕ) (missing : A)
    (found : KeptCode → A × KeptCode) (ks : List KeptCode)
    → ((k : KeptCode) → P k → (at_code digest missing found ks).0 ≡ (found k).0 → P (found k).1)
    → All P ks
    → All P (at_code digest missing found ks).1
unfolding at_code
All-at_code P digest missing found [] f h = tt
All-at_code P digest missing found (k ∷ ks) f h = elim (Bool-cases (k.code.code_digest == digest)) [
  | inl e ↦ rw e (f k h.0 (rw e), h.1)
  | inr e ↦ rw e (h.0, All-at_code P digest missing found ks (λ j p g. f j p (rw e g)) h.1)
]

pub All-map {ℓ κ ι} :
    {A : Type ℓ} {P : A → Type κ} {Q : A → Type ι}
    → ((x : A) → P x → Q x)
    → (xs : List A) → All P xs
    → All Q xs
All-map f [] h = tt
All-map f (x ∷ xs) h = (f x h.0, All-map f xs h.1)

All-snoc {ℓ κ} :
    {A : Type ℓ} (P : A → Type κ) (xs : List A) (x : A) → All P xs → P x → All P (xs ++ x ∷ [])
All-snoc P [] x h p = (p, tt)
All-snoc P (y ∷ xs) x h p = (h.0, All-snoc P xs x h.1 p)

-- A code that was presented again has no token left but revoked ones.
abbrev pub Quiet : List StoredRefreshToken → KeptCode → Type 0
Quiet ts k = is_some k.replayed_at ≡ true → (f : ℕ) → k.family ≡ some f → IsClosed f ts

-- A token of the family can be written: the code is not bound to it, or was not presented again.
abbrev pub Open : ℕ → KeptCode → Type 0
Open g k = is_some k.replayed_at ≡ true → k.family ≢ some g

pub Quiet-more :
    (ts us : List StoredRefreshToken) (ks : List KeptCode)
    → ((f : ℕ) → IsClosed f ts → IsClosed f us)
    → All (Quiet ts) ks
    → All (Quiet us) ks
Quiet-more ts us ks h = All-map (λ k q r f e. h f (q r f e)) ks

pub Quiet-asked :
    (ts : List StoredRefreshToken) (code : AuthorizationCode) (ks : List KeptCode)
    → All (Quiet ts) ks
    → All (Quiet ts) (insert_authorization_code ks code)
unfolding insert_authorization_code
Quiet-asked ts code ks h = All-snoc (Quiet ts) ks _ h (λ r. absurd (cc))

pub Quiet-spend :
    (ts : List StoredRefreshToken) (digest : List ℕ) (now : ℕ) (ks : List KeptCode)
    → All (Quiet ts) ks
    → All (Quiet ts) (spend_authorization_code ks digest now).1
unfolding spend_authorization_code
Quiet-spend ts digest now ks =
    All-at_code (Quiet ts) digest none (spend_kept now) ks
      (λ k q e. λ r f g. q (ground (arith, r)) f (ground (arith, g)))

pub Quiet-bind :
    (ts : List StoredRefreshToken) (digest : List ℕ) (family : ℕ) (ks : List KeptCode)
    → All (Quiet ts) ks
    → All (Quiet ts) (bind_code_family ks digest family).1
unfolding bind_code_family
Quiet-bind ts digest family ks = All-at_code (Quiet ts) digest false (bind_kept family) ks (λ k q e.
    elim (Bool-cases (is_some k.replayed_at)) [
      | inl h ↦ λ r f g. q h f (ground (arith, g, h))
      | inr h ↦ λ r. absurd (ground (arith, r, h))
    ])

pub Open-bind :
    (digest : List ℕ) (family : ℕ) (ks : List KeptCode)
    → All (λ k. k.family ≢ some family) ks
    → All (Open family) (bind_code_family ks digest family).1
unfolding bind_code_family
Open-bind digest family ks h =
    All-at_code (Open family) digest false (bind_kept family) ks
      (λ k q e. λ r g. ground (arith, q, r, g)) (All-map (λ k n r. n) ks h)

pub Quiet-insert :
    (t : RefreshToken) (ts : List StoredRefreshToken) (ks : List KeptCode)
    → All (Open t.family) ks
    → All (Quiet ts) ks
    → All (Quiet (insert_refresh_token ts t)) ks
Quiet-insert t ts [] o h = tt
Quiet-insert t ts (k ∷ ks) o h = (
  λ r f e. IsClosed-insert f t ts (λ g. o.0 r (e ∙ ap some (sym g))) (h.0 r f e),
  Quiet-insert t ts ks o.1 h.1,
)

IsClosed-taken :
    (now : ℕ) (o : Option ReplayedCode) (f : ℕ) (ts : List StoredRefreshToken)
    → IsClosed f ts
    → IsClosed f (taken_tokens now o ts)
IsClosed-taken now none f ts h = h
IsClosed-taken now (some r) f ts h = elim (Option-cases r.family) [
  | inl e ↦ rw e h
  | inr (g, e) ↦ rw e (IsClosed-revoke_where (λ t. t.family == g) now f ts h)
]

marked-Quiet :
    (client_id : String) (now : ℕ) (ts : List StoredRefreshToken) (k : KeptCode)
    (o : Option ReplayedCode)
    → Quiet (taken_tokens now o ts) k
    → o ≡ (mark_kept client_id now k).0
    → Quiet (taken_tokens now o ts) (mark_kept client_id now k).1
marked-Quiet client_id now ts k o q e =
    elim (Bool-cases
      (not (is_some k.spent_at) || is_some k.replayed_at || not (k.code.client_id == client_id))) [
        | inl g ↦ rw g q
        | inr g ↦ rw g (λ r f h.
            let found : o
                ≡ some (record {
                  person = k.code.person;
                  session = k.code.session;
                  family = k.family;
                }) =
              rw g at e in
            subst (λ x. IsClosed f (taken_tokens now x ts)) (sym found)
              (rw h (revoke_where-IsClosed f now ts)))
      ]

-- The code that a replay marks is bound to a family that the replay ends.
pub Quiet-mark :
    (digest : List ℕ) (client_id : String) (now : ℕ) (ts : List StoredRefreshToken)
    (ks : List KeptCode)
    → All (Quiet ts) ks
    → All
        (Quiet (taken_tokens now (mark_code_replayed ks digest client_id now).0 ts))
        (mark_code_replayed ks digest client_id now).1
unfolding mark_code_replayed
Quiet-mark digest client_id now ts ks h =
    let o = (mark_code_replayed ks digest client_id now).0 in
    All-at_code (Quiet (taken_tokens now o ts)) digest none (mark_kept client_id now) ks
      (λ k q e. marked-Quiet client_id now ts k o q e)
      (Quiet-more ts (taken_tokens now o ts) ks (λ f. IsClosed-taken now o f ts) h)
