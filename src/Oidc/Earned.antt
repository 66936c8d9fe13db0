-- ===== src/Oidc/Earned.antt =====
-- What an exchange of crates/saffui-core/src/oidc/token.rs that is granted proves.
use saffui.Base.{
  ℕ, String, true, ◌<◌, ◌≡◌, refl, Option, none, some, List, [], ◌∷◌, arith, text_keys, ◌==◌,
  Bool-cases, inl, inr, subst,
}
use saffui.Base.Bytes.{bytes_keys, bytes_eqb_iff}
use saffui.Work.{Stage, Result, done, failing}
use saffui.Clients.{Client}
use saffui.Oidc.Pkce.{matches_challenge}
use saffui.Oidc.Codes.{AuthorizationCode, KeptCode, at_code, spend_authorization_code}
use saffui.Oidc.World.{Db, World, TokenResponse}
use saffui.Oidc.Token.{exchange_spend, exchange_finish}
use saffui.Oidc.Grant.{granted, finish, exchange_code, is_bound_to, settle}
use saffui.Oidc.Units.{spending, IsClient, exchange_spend-Gives}
use saffui.Oidc.Issued.{Finished, exchange_finish-Gives}

-- A code that is spent was kept under its digest and had not expired.
spend-live :
    (digest : List ℕ) (now : ℕ) (ks : List KeptCode) (code : AuthorizationCode)
    → (spend_authorization_code ks digest now).0 ≡ some code
    → (code.code_digest ≡ digest) × (now < code.expires_at)
unfolding spend_authorization_code at_code
spend-live digest now [] code h = absurd (cc)
spend-live digest now (k ∷ ks) code h = elim (Bool-cases (k.code.code_digest == digest)) [
  | inr e ↦ spend-live digest now ks code (ground (arith, h, e))
  | inl e ↦
      let same : k.code ≡ code = ground (arith, h, e) in
      subst (λ (c : AuthorizationCode). (c.code_digest ≡ digest) × (now < c.expires_at)) same
        ((bytes_eqb_iff k.code.code_digest digest).0 e, ground (arith, h, e))
]

module _ (w : World) where
  -- All that stands behind the answer to an exchange.
  pub record Earned (id : String) (secret : Option (List ℕ)) (presented : List ℕ)
      (redirect_uri : String) (verifier : List ℕ) (d : Db) (a : TokenResponse) (d' : Db)
      : Type 0 where
    pub client : Client
    pub code : AuthorizationCode
    pub between : Db
    pub proves : IsClient w id secret client
    pub may : client.allows_authorization_code ≡ true
    pub kept : (spending w (w.sha256 presented) d).0 ≡ some code
    pub digest_is : code.code_digest ≡ w.sha256 presented
    pub in_time : w.asked_at < code.expires_at
    pub client_is : code.client_id ≡ client.client_id
    pub redirect_is : code.redirect_uri ≡ redirect_uri
    pub challenge_is : matches_challenge w.sha256 w.encode verifier code.code_challenge ≡ true
    pub spends : between.codes ≡ (spending w (w.sha256 presented) d).1
    pub finishes : Finished w client code (w.sha256 presented) between a d'

  pub settle-granted :
      {A : Type 0} (d d' : Db) (a : A) (x : Result (A × Stage Db))
      → settle d x ≡ (d', granted a)
      → (r : Stage Db) × (x ≡ done (a, r)) × (r.kept ≡ d')
  settle-granted d d' a (done (b, r)) h = (r, ground (arith, h), ground (arith, h))
  settle-granted d d' a (failing e) h = absurd (ground (arith, h))

  bound_parts :
      (code : AuthorizationCode) (client : Client) (redirect_uri : String) (verifier : List ℕ)
      → is_bound_to w code client redirect_uri verifier ≡ true
      → (code.client_id ≡ client.client_id)
        × (code.redirect_uri ≡ redirect_uri)
        × (matches_challenge w.sha256 w.encode verifier code.code_challenge ≡ true)
  unfolding is_bound_to
  bound_parts code client redirect_uri verifier h = (
    ground (arith, h, text_keys.same_iff code.client_id client.client_id),
    ground (arith, h, text_keys.same_iff code.redirect_uri redirect_uri),
    ground (arith, h),
  )

  finish-granted :
      (id : String) (secret : Option (List ℕ)) (presented : List ℕ) (redirect_uri : String)
      (verifier : List ℕ) (s : Stage Db) (d' : Db) (a : TokenResponse)
      (x : Result ((Client × Option AuthorizationCode) × Stage Db))
      → exchange_spend w id secret presented s ≡ x
      → finish w redirect_uri verifier (w.sha256 presented) s.kept x ≡ (d', granted a)
      → Earned id secret presented redirect_uri verifier s.kept a d'
  finish-granted id secret presented uri verifier s d' a (failing e) g h =
      absurd (ground (arith, h))
  finish-granted id secret presented uri verifier s d' a (done ((client, none), r)) g h =
      absurd (ground (arith, h))
  finish-granted id secret presented uri verifier s d' a (done ((client, some code), r)) g h =
      elim (Bool-cases (is_bound_to w code client uri verifier)) [
        | inr b ↦ absurd (ground (arith, h, b))
        | inl b ↦
            let (proves, may, spent) =
              exchange_spend-Gives w id secret presented s ((client, some code), r) g in
            let (end, f, is) =
              settle-granted r.kept d' a (exchange_finish w client code (w.sha256 presented) r)
                (rw b at h) in
            let bound = bound_parts code client uri verifier b in
            let live = spend-live (w.sha256 presented) w.asked_at s.kept.codes code spent.0 in
            record {
              client = client;
              code = code;
              between = r.kept;
              proves = proves;
              may = may;
              kept = spent.0;
              digest_is = live.0;
              in_time = live.1;
              client_is = bound.0;
              redirect_is = bound.1;
              challenge_is = bound.2;
              spends = spent.1.codes_are;
              finishes =
                  subst (λ d. Finished w client code (w.sha256 presented) r.kept a d) is
                    (exchange_finish-Gives w client code (w.sha256 presented) r (a, end) f);
            }
      ]

  -- A client gets tokens for a code only if it is known and proves to be the client of the code and may
  -- use codes, the code is kept, unspent and in time, what it says of the redirection and of the
  -- verifier is what the code was bound to, its session stands and answers for its person, who is
  -- enabled, and any consent it requires covers the scopes; and the tokens are of a new family, bound to
  -- the code, which was not presented again meanwhile.
  pub exchange_code-Earned :
      (id : String) (secret : Option (List ℕ)) (presented : List ℕ) (redirect_uri : String)
      (verifier : List ℕ) (s : Stage Db) (d' : Db) (a : TokenResponse)
      → exchange_code w id secret presented redirect_uri verifier s ≡ (d', granted a)
      → Earned id secret presented redirect_uri verifier s.kept a d'
  unfolding exchange_code
  exchange_code-Earned id secret presented uri verifier s d' a h =
      finish-granted id secret presented uri verifier s d' a
        (exchange_spend w id secret presented s) refl h
