-- ===== src/Oidc/Renewed.antt =====
-- What a rotation of crates/saffui-core/src/oidc/refresh.rs makes where no call fails: the other side of
-- Oidc/Rotated.
use saffui.Base.Bytes.{bytes_keys, bytes_eqb_iff}
use Prim.Native.Nat.{min}
use saffui.Base.{
  ◌==◌, ℕ, String, true, ◌≡◌, Option, some, List, number_keys, nat_eqb_iff, ◌<◌, ◌+◌, ◌*◌, ◌≢◌,
  Bool, false, ap, ◌∙◌, none, [], ◌∷◌, ◌++◌, arith, All, Bool-cases, inl, inr, text_keys, refl,
}
use saffui.Work.{done}
use saffui.Tokens.{
  RefreshToken, StoredRefreshToken, is_live, revoked_family, insert_refresh_token, spend_first,
  is_spendable, spend_refresh_token,
}
use saffui.Oidc.Grant.{granted, settle_rotation}
use saffui.Oidc.Signed.{Signed, mint_for_person-Signed}
use saffui.Login.Sessions.{Session}
use saffui.Clients.{Client}
use saffui.Oidc.Scopes.{narrow_scopes}
use saffui.Oidc.World.{Person, Db, World, IssuedAccessToken}
use saffui.Oidc.Issue.{next_token, mint_for_person}
use saffui.Oidc.Token.{rotation_grant, rotate_refresh_token}
use saffui.Oidc.Effects.{IsLive, with_token}
use saffui.Oidc.Units.{IsClient}
use saffui.Oidc.Clear.{
  clear, answer_of, identify-clear, read_live_subject-clear, answer_for_person-clear,
}

-- What is spent is the first token that can be.
spend_first_middle :
    (p : StoredRefreshToken → Bool) (now : ℕ) (before after : List StoredRefreshToken)
    (s : StoredRefreshToken)
    → All (λ x. p x ≡ false) before
    → p s ≡ true
    → spend_first p now (before ++ s ∷ after)
      ≡ some (s.token, before ++ record s { used_at = some now } ∷ after)
unfolding spend_first
spend_first_middle p now [] after s h e = rw e refl
spend_first_middle p now (x ∷ before) after s h e =
    rw (h.0, spend_first_middle p now before after s h.1 e) refl

-- No token of the family is revoked.
abbrev pub Unrevoked : ℕ → StoredRefreshToken → Type 0
Unrevoked f s = s.token.family ≡ f → s.revoked_at ≡ none

Unrevoked-family :
    (f : ℕ) (ts : List StoredRefreshToken) → All (Unrevoked f) ts → revoked_family ts f ≡ none
unfolding revoked_family
Unrevoked-family f [] h = refl
Unrevoked-family f (s ∷ ts) h = elim (Bool-cases (s.token.family == f)) [
  | inl e ↦ rw (e, h.0 ((nat_eqb_iff s.token.family f).0 e), Unrevoked-family f ts h.1) refl
  | inr e ↦ rw (e, Unrevoked-family f ts h.1) refl
]

pub unlike :
    (ts before : List StoredRefreshToken) (digest : List ℕ) (client_id : String) (now : ℕ)
    → All (λ x. x.token.token_digest ≢ digest) before
    → All (λ x. is_spendable ts digest client_id now x ≡ false) before
unfolding is_spendable
unlike ts [] digest client_id now h = tt
unlike ts (x ∷ before) digest client_id now h = (
  elim (Bool-cases (x.token.token_digest == digest)) [
    | inl e ↦ absurd (h.0 ((bytes_eqb_iff x.token.token_digest digest).0 e))
    | inr e ↦ ground (arith, e)
  ],
  unlike ts before digest client_id now h.1,
)

-- A token can be spent that is of the client, unused, unrevoked and in time, in a family none of whose
-- tokens is revoked.
spendable :
    (ts : List StoredRefreshToken) (digest : List ℕ) (client_id : String) (now : ℕ)
    (s : StoredRefreshToken)
    → s.token.token_digest ≡ digest
    → s.token.client_id ≡ client_id
    → s.used_at ≡ none
    → s.revoked_at ≡ none
    → now < s.token.expires_at
    → All (Unrevoked s.token.family) ts
    → is_spendable ts digest client_id now s ≡ true
unfolding is_spendable is_live
spendable ts digest client_id now s a b u r t h = ground (
  arith,
  (bytes_eqb_iff s.token.token_digest digest).1 a,
  (text_keys.same_iff s.token.client_id client_id).1 b,
  u,
  r,
  t,
  Unrevoked-family s.token.family ts h,
)

spend_middle :
    (ts before after : List StoredRefreshToken) (s : StoredRefreshToken) (digest : List ℕ)
    (client_id : String) (now : ℕ)
    → ts ≡ before ++ s ∷ after
    → All (λ x. x.token.token_digest ≢ digest) before
    → is_spendable ts digest client_id now s ≡ true
    → spend_refresh_token ts digest client_id now
      ≡ some (s.token, before ++ record s { used_at = some now } ∷ after)
unfolding spend_refresh_token
spend_middle ts before after s digest client_id now c h e =
    ap (λ us. spend_first (is_spendable ts digest client_id now) now us) c
    ∙ spend_first_middle (is_spendable ts digest client_id now) now before after s
        (unlike ts before digest client_id now h) e

module _ (w : World) where
  rotate_refresh_token-clear :
      (id : String) (secret : Option (List ℕ)) (presented : List ℕ) (asked : Option String)
      (client : Client) (t : RefreshToken) (rest : List StoredRefreshToken)
      (subject : Session × Person) (scopes : List String) (random : List ℕ)
      (minted : IssuedAccessToken × Option String) (d : Db)
      → IsClient w id secret client
      → client.allows_authorization_code ≡ true
      → spend_refresh_token d.tokens (w.sha256 presented) client.client_id w.asked_at
        ≡ some (t, rest)
      → IsLive w d t.session subject
      → subject.1.id ≡ t.person
      → narrow_scopes asked t.scopes ≡ done scopes
      → w.random_bytes ≡ some random
      → mint_for_person w (rotation_grant w client t subject scopes) ≡ done minted
      → rotate_refresh_token w id secret presented asked (clear d)
        ≡ done (
          some (answer_of w minted (w.encode random)),
          clear (
              with_token w
                (rotation_grant w client t subject scopes)
                (w.encode random)
                (record d { tokens = rest })),
        )
  unfolding rotate_refresh_token
  rotate_refresh_token-clear id secret presented asked client t rest subject scopes random minted d
        proves may spent live same narrowed r m =
      let between : Db = record d { tokens = rest } in
      let stands : IsLive w between t.session subject = record {
        session = live.session;
        person = live.person;
        enabled = live.enabled;
      } in
      simp (
        identify-clear w id secret client d proves,
        may,
        spent,
        read_live_subject-clear w t.session between subject stands,
        (nat_eqb_iff subject.1.id t.person).1 same,
        narrowed,
        answer_for_person-clear w (rotation_grant w client t subject scopes) random minted between r
            m,
      )

  -- Where no call fails, a client that proves to be the client of a refresh token and may use codes
  -- gets tokens for the scopes that it asks and that were granted, all of them where it asks none,
  -- when the first token of this digest is unused, unrevoked and in time, none of its family is
  -- revoked, its session stands, its person is enabled, and random bytes and signed tokens are had.
  -- The token is used from then on, the others being as they were; and one token is added, unused, of
  -- the same family and client, of this session and its person, with the scopes of the one it follows
  -- whatever was asked, good for thirty days but no longer than the session.
  pub rotate_refresh_token-renewed :
      (id : String) (secret : Option (List ℕ)) (presented : List ℕ) (asked : Option String)
      (client : Client) (before after : List StoredRefreshToken) (known : StoredRefreshToken)
      (subject : Session × Person) (scopes : List String) (random : List ℕ)
      (access : IssuedAccessToken) (id_token : Option String) (d : Db)
      → d.tokens ≡ before ++ known ∷ after
      → All (λ x. x.token.token_digest ≢ w.sha256 presented) before
      → known.token.token_digest ≡ w.sha256 presented
      → known.token.client_id ≡ client.client_id
      → known.used_at ≡ none
      → known.revoked_at ≡ none
      → w.asked_at < known.token.expires_at
      → All (Unrevoked known.token.family) d.tokens
      → IsClient w id secret client
      → client.allows_authorization_code ≡ true
      → IsLive w d known.token.session subject
      → subject.1.id ≡ known.token.person
      → narrow_scopes asked known.token.scopes ≡ done scopes
      → w.random_bytes ≡ some random
      → Signed w client.client_id subject scopes none access id_token
      → settle_rotation d (rotate_refresh_token w id secret presented asked (clear d)) ≡ (
        record d {
          tokens =
              (before ++ record known { used_at = some w.asked_at } ∷ after)
              ++ record {
                token = record {
                  token_digest = w.sha256 (w.encode random);
                  family = known.token.family;
                  client_id = client.client_id;
                  person = subject.0.person;
                  session = subject.0.id;
                  scopes = known.token.scopes;
                  issued_at = w.issued_at;
                  expires_at = min (w.issued_at + 30 * 24 * 3600) subject.0.expires_at;
                };
                used_at = none;
                revoked_at = none;
              }
                ∷ [];
        },
        granted (answer_of w (access, id_token) (w.encode random)),
      )
  unfolding next_token insert_refresh_token
  rotate_refresh_token-renewed id secret presented asked client before after known subject scopes
        random access id_token d tokens_are others digest of_client unused unrevoked in_time family
        proves may live same narrowed r signed =
      let spends =
        spend_middle d.tokens before after known (w.sha256 presented) client.client_id w.asked_at
          tokens_are others
          (spendable d.tokens (w.sha256 presented) client.client_id w.asked_at known digest
            of_client unused unrevoked in_time family) in
      ap (settle_rotation d) (
        rotate_refresh_token-clear id secret presented asked client known.token
          (before ++ record known { used_at = some w.asked_at } ∷ after) subject scopes random
          (access, id_token) d proves may spends live same narrowed r
          (mint_for_person-Signed w (rotation_grant w client known.token subject scopes) access
            id_token signed))
