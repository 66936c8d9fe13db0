-- ===== src/Oidc/Reuse.antt =====
-- A refresh token presented after it was used: rotate_refresh_token of
-- crates/saffui-core/src/oidc/refresh.rs, and the requests of token.rs and revoke.rs that come after.
use saffui.Base.Bytes.{bytes_keys, bytes_eqb_iff}
use saffui.Base.{
  ℕ, String, Bool, true, false, ◌≡◌, ◌≢◌, refl, sym, ap, ◌∙◌, subst, Option, none, some, List, [],
  ◌∷◌, ◌++◌, arith, All, ◌==◌, find, number_keys, text_keys, Bool-cases, Option-cases, inl, inr,
}
use saffui.Errors.{grant_invalid}
use saffui.Work.{done}
use saffui.Tokens.{
  RefreshToken, StoredRefreshToken, is_some, is_live, is_spendable, revoked_family, ended_family,
  revoked_where, spend_first, spend_refresh_token, read_refresh_token, revoke_where,
  revoke_refresh_family,
}
use saffui.Tokens.Families.{IsUnused}
use saffui.Clients.{Client}
use saffui.Oidc.World.{Db, World, TokenResponse, token_revoked, record_event}
use saffui.Oidc.Token.{end_family, rotate_refresh_token, is_replayed, end_replayed}
use saffui.Oidc.Grant.{Answer, refuse, settle_rotation}
use saffui.Oidc.Units.{IsClient}
use saffui.Oidc.Steps.{Reach}
use saffui.Oidc.Clear.{clear, identify-clear}
use saffui.Oidc.Renewed.{unlike}
use saffui.Oidc.Ended.{
  is_ended, read-ended, read_of_family, ended_by_revocation, Reach-is_ended, spent-ne,
}

spend_first-none :
    (p : StoredRefreshToken → Bool) (now : ℕ) (ts : List StoredRefreshToken)
    → All (λ x. p x ≡ false) ts
    → spend_first p now ts ≡ none
unfolding spend_first
spend_first-none p now [] h = refl
spend_first-none p now (x ∷ ts) h = rw (h.0, spend_first-none p now ts h.1) refl

All-around {ℓ κ} :
    {A : Type ℓ} (P : A → Type κ) (before after : List A) (x : A)
    → All P before
    → P x
    → All P after
    → All P (before ++ x ∷ after)
All-around P [] after x h p k = (p, k)
All-around P (y ∷ before) after x h p k = (h.0, All-around P before after x h.1 p k)

pub find_middle {ℓ} :
    {A : Type ℓ} (p : A → Bool) (before after : List A) (x : A)
    → All (λ y. p y ≡ false) before
    → p x ≡ true
    → find p (before ++ x ∷ after) ≡ some x
find_middle p [] after x h e = rw e refl
find_middle p (y ∷ before) after x h e = rw (h.0, find_middle p before after x h.1 e) refl

pub other_digest :
    (digest : List ℕ) (ts : List StoredRefreshToken)
    → All (λ x. x.token.token_digest ≢ digest) ts
    → All (λ x. (x.token.token_digest == digest) ≡ false) ts
other_digest digest [] h = tt
other_digest digest (x ∷ ts) h = (
  elim (Bool-cases (x.token.token_digest == digest)) [
    | inl e ↦ absurd (h.0 ((bytes_eqb_iff x.token.token_digest digest).0 e))
    | inr e ↦ e
  ],
  other_digest digest ts h.1,
)

-- A used token is not spent.
used-unspendable :
    (ts : List StoredRefreshToken) (digest : List ℕ) (client_id : String) (now : ℕ)
    (s : StoredRefreshToken)
    → is_some s.used_at ≡ true
    → is_spendable ts digest client_id now s ≡ false
unfolding is_spendable is_live
used-unspendable ts digest client_id now s u = ground (arith, u)

-- A token as it is read: revoked as soon as one of its family is.
abbrev as_read : List StoredRefreshToken → StoredRefreshToken → StoredRefreshToken
as_read ts s = record s {
  revoked_at = elim s.revoked_at [ some at ↦ some at | none ↦ revoked_family ts s.token.family ];
}

-- The one token of a digest, used, is read and not spent.
module _ (ts before after : List StoredRefreshToken) (known : StoredRefreshToken) (digest : List ℕ)
    (tokens_are : ts ≡ before ++ known ∷ after)
    (earlier : All (λ x. x.token.token_digest ≢ digest) before)
    (later : All (λ x. x.token.token_digest ≢ digest) after)
    (of_digest : known.token.token_digest ≡ digest) where
  used-unspent :
      (client_id : String) (now : ℕ)
      → is_some known.used_at ≡ true
      → spend_refresh_token ts digest client_id now ≡ none
  unfolding spend_refresh_token
  used-unspent client_id now u =
      let p : StoredRefreshToken → Bool = is_spendable ts digest client_id now in
      ap (λ us. spend_first p now us) tokens_are
      ∙ spend_first-none p now (before ++ known ∷ after) (
          All-around (λ x. p x ≡ false) before after known
            (unlike ts before digest client_id now earlier)
            (used-unspendable ts digest client_id now known u)
            (unlike ts after digest client_id now later))

  read-known : read_refresh_token ts digest ≡ some (as_read ts known)
  unfolding read_refresh_token
  read-known =
      let found : find (λ s. s.token.token_digest == digest) ts ≡ some known =
        ap (find (λ s. s.token.token_digest == digest)) tokens_are
        ∙ find_middle (λ s. s.token.token_digest == digest) before after known
            (other_digest digest before earlier)
            ((bytes_eqb_iff known.token.token_digest digest).1 of_digest) in
      rw (found, read_refresh_token) refl

-- The end of a family, where no call fails.
pub end_family-clear :
    (client_id : String) (family person session : ℕ) (reason : String) (now : ℕ) (d : Db)
    → (d' : Db) × (end_family client_id family person session reason now (clear d)
        ≡ done (tt, clear d'))
      × (d'.tokens ≡ revoke_where (λ t. t.family == family) now d.tokens)
      × (d'.codes ≡ d.codes)
unfolding end_family revoke_refresh_family record_event
end_family-clear client_id family person session reason now d =
    elim (Option-cases (ended_family (revoked_where (λ t. t.family == family) d.tokens))) [
      | inl e ↦ (
        record d { tokens = revoke_where (λ t. t.family == family) now d.tokens },
        rw e refl,
        refl,
        refl,
      )
      | inr (ended, e) ↦ (
        record d {
          tokens = revoke_where (λ t. t.family == family) now d.tokens;
          events = d.events ++ token_revoked client_id family person session reason ended ∷ [];
        },
        rw e refl,
        refl,
        refl,
      )
    ]

-- What a rotation finds and leaves of a family, one way or the other: it was ended, or it is.
module _ (w : World) where
  -- Presented by its client, a token that was used ends its family, or its family was ended already.
  replayed-clear :
      (client : Client) (known : StoredRefreshToken) (d : Db)
      → is_some known.used_at ≡ true
      → known.token.client_id ≡ client.client_id
      → ¬ IsUnused known.token.family d.tokens
      → (is_some known.revoked_at ≡ true → is_ended known.token.family d.tokens ≡ true)
      → (d' : Db) × (settle_rotation d
            (end_replayed w client (is_replayed w client (some known)) (clear d))
          ≡ (d', refuse grant_invalid))
        × (is_ended known.token.family d'.tokens ≡ true)
  unfolding is_replayed
  replayed-clear client known d used of_client owned ended =
      let yes : (known.token.client_id == client.client_id) ≡ true =
        (text_keys.same_iff known.token.client_id client.client_id).1 of_client in
      elim (Bool-cases (is_some known.revoked_at)) [
        | inl e ↦ (d, rw (used, e) refl, ended e)
        | inr e ↦
            let (d', ends, tokens_are, codes_are) =
              end_family-clear client.client_id known.token.family known.token.person
                known.token.session "replayed" w.asked_at d in
            (
              d',
              rw (used, e, yes, ends) refl,
              rw tokens_are (ended_by_revocation known.token.family w.asked_at d.tokens owned),
            )
      ]

  rotate-unspent :
      (id : String) (secret : Option (List ℕ)) (presented : List ℕ) (asked : Option String)
      (client : Client) (known : StoredRefreshToken) (d : Db)
      → IsClient w id secret client
      → client.allows_authorization_code ≡ true
      → spend_refresh_token d.tokens (w.sha256 presented) client.client_id w.asked_at ≡ none
      → read_refresh_token d.tokens (w.sha256 presented) ≡ some known
      → rotate_refresh_token w id secret presented asked (clear d)
        ≡ end_replayed w client (is_replayed w client (some known)) (clear d)
  unfolding rotate_refresh_token
  rotate-unspent id secret presented asked client known d proves may unspent is =
      simp (identify-clear w id secret client d proves, may, unspent, is)

  -- Where a refresh token that was used, the one of its digest, is presented again by a client that
  -- proves to be its client and may use codes, and no call fails, the answer is `invalid_grant`, and
  -- no token of its family is ever spent again, whatever its state then and whatever requests come
  -- after, in whatever order. What `mint_id` makes is taken to be new.
  pub reused-ne :
      (id : String) (secret : Option (List ℕ)) (presented : List ℕ) (asked : Option String)
      (client : Client) (before after : List StoredRefreshToken) (known : StoredRefreshToken)
      (d d' : Db) (answer : Answer TokenResponse) {e : Db} (digest : List ℕ) (client_id : String)
      (now : ℕ) (t : RefreshToken) (rest : List StoredRefreshToken)
      → d.tokens ≡ before ++ known ∷ after
      → All (λ x. x.token.token_digest ≢ w.sha256 presented) before
      → All (λ x. x.token.token_digest ≢ w.sha256 presented) after
      → known.token.token_digest ≡ w.sha256 presented
      → is_some known.used_at ≡ true
      → known.token.client_id ≡ client.client_id
      → IsClient w id secret client
      → client.allows_authorization_code ≡ true
      → settle_rotation d (rotate_refresh_token w id secret presented asked (clear d))
        ≡ (d', answer)
      → Reach d' e
      → spend_refresh_token e.tokens digest client_id now ≡ some (t, rest)
      → (answer ≡ refuse grant_invalid) × (t.family ≢ known.token.family)
  reused-ne id secret presented asked client before after known d d' answer {e} digest client_id now
        t rest tokens_are earlier later of_digest used of_client proves may answers reach h =
      let read : StoredRefreshToken = as_read d.tokens known in
      let is =
        read-known d.tokens before after known (w.sha256 presented) tokens_are earlier later
          of_digest in
      let unspent =
        used-unspent d.tokens before after known (w.sha256 presented) tokens_are earlier later
          of_digest client.client_id w.asked_at used in
      let (end, ends, ended) =
        replayed-clear client read d used of_client
          (read_of_family d.tokens (w.sha256 presented) read is)
          (read-ended d.tokens (w.sha256 presented) read is) in
      let same : (end, refuse grant_invalid) ≡ (d', answer) =
        sym ends
        ∙ ap (settle_rotation d)
            (sym (rotate-unspent id secret presented asked client read d proves may unspent is))
        ∙ answers in
      (
        sym (ap (λ (p : Db × Answer TokenResponse). p.1) same),
        spent-ne e.tokens digest client_id now known.token.family t rest h (
            Reach-is_ended known.token.family reach (
              subst
                (λ (p : Db × Answer TokenResponse). is_ended known.token.family p.0.tokens ≡ true)
                same ended)),
      )
