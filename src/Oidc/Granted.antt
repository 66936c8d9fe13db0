-- ===== src/Oidc/Granted.antt =====
-- What an exchange of crates/saffui-core/src/oidc/token.rs makes where no call fails: the other side of
-- Oidc/Earned.
use Prim.Native.Nat.{min}
use saffui.Base.Bytes.{bytes_keys}
use saffui.Base.{
  ◌<◌, ◌+◌, ◌*◌, ◌≢◌, Bool, false, sym, ap, ◌∙◌, subst, none, text_keys, ℕ, String, true, ◌≡◌, refl,
  Option, some, List, [], ◌∷◌, ◌++◌, arith, All, number_keys, nat_eqb_iff,
}
use saffui.Work.{done}
use saffui.Tokens.{insert_refresh_token}
use saffui.Login.Sessions.{Session}
use saffui.Clients.{Client}
use saffui.Oidc.Codes.{
  AuthorizationCode, KeptCode, spend_kept, bind_kept, spend_authorization_code, bind_code_family,
}
use saffui.Oidc.World.{Person, Db, World, IssuedAccessToken, token_issued}
use saffui.Oidc.Issue.{next_token, mint_for_person}
use saffui.Oidc.Token.{code_grant}
use saffui.Oidc.Pkce.{matches_challenge}
use saffui.Oidc.Signed.{Signed, mint_for_person-Signed}
use saffui.Oidc.Effects.{IsLive}
use saffui.Oidc.Units.{IsClient, spending}
use saffui.Oidc.Issued.{Allowed}
use saffui.Oidc.Steps.{Reach}
use saffui.Oidc.Safety.{nothing}
use saffui.Oidc.Marks.{SpentFirst, Reach-SpentFirst}
use saffui.Oidc.Grant.{granted, exchange_code, is_bound_to}
use saffui.Oidc.Clear.{
  clear, at_code_middle, exchange_spend-clear, answer_of, exchanged, exchange_finish-clear,
}

All-middle {ℓ κ} :
    {A : Type ℓ} (P : A → Type κ) (xs ys : List A) (x : A) → All P (xs ++ x ∷ ys) → P x
All-middle P [] ys x h = h.0
All-middle P (y ∷ xs) ys x h = All-middle P xs ys x h.1

module _ (w : World) where
  bound_to :
      (code : AuthorizationCode) (client : Client) (redirect_uri : String) (verifier : List ℕ)
      → code.client_id ≡ client.client_id
      → code.redirect_uri ≡ redirect_uri
      → matches_challenge w.sha256 w.encode verifier code.code_challenge ≡ true
      → is_bound_to w code client redirect_uri verifier ≡ true
  unfolding is_bound_to
  bound_to code client uri verifier a b c =
      rw
        (
          (text_keys.same_iff code.client_id client.client_id).1 a,
          (text_keys.same_iff code.redirect_uri uri).1 b,
          c,
        )
        refl

  spend_middle :
      (digest : List ℕ) (before after : List KeptCode) (k : KeptCode) (d : Db)
      → d.codes ≡ before ++ k ∷ after
      → All (λ x. x.code.code_digest ≢ digest) before
      → k.code.code_digest ≡ digest
      → k.spent_at ≡ none
      → w.asked_at < k.code.expires_at
      → spending w digest d
        ≡ (some k.code, before ++ record k { spent_at = some w.asked_at } ∷ after)
  unfolding spend_authorization_code
  spend_middle digest before after k d c h e u t =
      ap (λ ks. spend_authorization_code ks digest w.asked_at) c
      ∙ at_code_middle digest none (spend_kept w.asked_at) before after k h e
      ∙ ap (λ (p : Option AuthorizationCode × KeptCode). (p.0, before ++ p.1 ∷ after)) kept
    where
      kept : spend_kept w.asked_at k ≡ (some k.code, record k { spent_at = some w.asked_at })
      kept = ground (arith, u, t)

  bind_middle :
      (digest : List ℕ) (family : ℕ) (before after : List KeptCode) (k : KeptCode)
      → All (λ x. x.code.code_digest ≢ digest) before
      → k.code.code_digest ≡ digest
      → k.spent_at ≡ some w.asked_at
      → k.replayed_at ≡ none
      → bind_code_family (before ++ k ∷ after) digest family
        ≡ (true, before ++ record k { family = some family } ∷ after)
  unfolding bind_code_family
  bind_middle digest family before after k h e s u =
      at_code_middle digest false (bind_kept family) before after k h e
      ∙ ap (λ (p : Bool × KeptCode). (p.0, before ++ p.1 ∷ after)) kept
    where
      kept : bind_kept family k ≡ (true, record k { family = some family })
      kept = ground (arith, s, u)

  exchange_code-clear :
      (id : String) (secret : Option (List ℕ)) (presented : List ℕ) (redirect_uri : String)
      (verifier : List ℕ) (client : Client) (code : AuthorizationCode) (subject : Session × Person)
      (family : ℕ) (random : List ℕ) (minted : IssuedAccessToken × Option String) (d between : Db)
      → IsClient w id secret client
      → client.allows_authorization_code ≡ true
      → (spending w (w.sha256 presented) d).0 ≡ some code
      → between ≡ record d { codes = (spending w (w.sha256 presented) d).1 }
      → is_bound_to w code client redirect_uri verifier ≡ true
      → IsLive w d code.session subject
      → subject.1.id ≡ code.person
      → Allowed w client subject.1.id code.scopes
      → w.mint_id ≡ some family
      → (bind_code_family between.codes (w.sha256 presented) family).0 ≡ true
      → w.random_bytes ≡ some random
      → mint_for_person w (code_grant w client code subject family) ≡ done minted
      → exchange_code w id secret presented redirect_uri verifier (clear d) ≡ (
        exchanged w client code
            (w.sha256 presented)
            subject
            family
            (w.encode random)
            minted
            between,
        granted (answer_of w minted (w.encode random)),
      )
  unfolding exchange_code
  exchange_code-clear id secret presented uri verifier client code subject family random minted d
        between proves may spent left bound live same allowed f binds r m =
      let stands : IsLive w between code.session subject =
        subst (λ x. IsLive w x code.session subject) (sym left)
          (record { session = live.session; person = live.person; enabled = live.enabled }) in
      rw
        (
          exchange_spend-clear w id secret presented client code d proves may spent,
          bound,
          sym left,
          exchange_finish-clear w client code (w.sha256 presented) subject family random minted
              between stands ((nat_eqb_iff subject.1.id code.person).1 same) allowed f binds r m,
        )
        refl

  -- In a realm that its requests made, where no call fails, a client that proves to be the client of a
  -- code, may use codes, and brings the redirection and the verifier that the code was bound to gets
  -- tokens for the person, the session and the scopes of the code, when the first code of this digest
  -- is unspent and in time, its session stands, its person is enabled, any consent the client requires
  -- covers the scopes, and an identifier, random bytes and signed tokens are had. This code is spent
  -- and bound to the new family, the others being as they were; one refresh token is added, unused, of
  -- this family, of this client, of this session and its person, for the scopes of the code, good for
  -- thirty days but no longer than the session; and the event is told.
  pub exchange_code-granted :
      (id : String) (secret : Option (List ℕ)) (presented : List ℕ) (redirect_uri : String)
      (verifier : List ℕ) (client : Client) (before after : List KeptCode) (k : KeptCode)
      (subject : Session × Person) (family : ℕ) (random : List ℕ) (access : IssuedAccessToken)
      (id_token : Option String) (d : Db)
      → Reach nothing d
      → d.codes ≡ before ++ k ∷ after
      → All (λ x. x.code.code_digest ≢ w.sha256 presented) before
      → k.code.code_digest ≡ w.sha256 presented
      → k.spent_at ≡ none
      → w.asked_at < k.code.expires_at
      → IsClient w id secret client
      → client.allows_authorization_code ≡ true
      → k.code.client_id ≡ client.client_id
      → k.code.redirect_uri ≡ redirect_uri
      → matches_challenge w.sha256 w.encode verifier k.code.code_challenge ≡ true
      → IsLive w d k.code.session subject
      → subject.1.id ≡ k.code.person
      → Allowed w client subject.1.id k.code.scopes
      → w.mint_id ≡ some family
      → w.random_bytes ≡ some random
      → Signed w client.client_id subject k.code.scopes k.code.nonce access id_token
      → exchange_code w id secret presented redirect_uri verifier (clear d) ≡ (
        record d {
          codes = before ++ record k { spent_at = some w.asked_at; family = some family } ∷ after;
          tokens =
              d.tokens
              ++ record {
                token = record {
                  token_digest = w.sha256 (w.encode random);
                  family = family;
                  client_id = client.client_id;
                  person = subject.0.person;
                  session = subject.0.id;
                  scopes = k.code.scopes;
                  issued_at = w.issued_at;
                  expires_at = min (w.issued_at + 30 * 24 * 3600) subject.0.expires_at;
                };
                used_at = none;
                revoked_at = none;
              }
                ∷ [];
          events =
              d.events
              ++ token_issued client.client_id family subject.1.id access.scope subject.0.id ∷ [];
        },
        granted (answer_of w (access, id_token) (w.encode random)),
      )
  unfolding next_token insert_refresh_token
  exchange_code-granted id secret presented uri verifier client before after k subject family random
        access id_token d reach codes_are others digest unspent in_time proves may of_client to_uri
        matches live same allowed f r signed =
      let digest_of = w.sha256 presented in
      let spent : KeptCode = record k { spent_at = some w.asked_at } in
      let unplayed : k.replayed_at ≡ none =
        All-middle SpentFirst before after k
          (subst (All SpentFirst) codes_are (Reach-SpentFirst reach tt)) unspent in
      let spends : spending w digest_of d ≡ (some k.code, before ++ spent ∷ after) =
        spend_middle digest_of before after k d codes_are others digest unspent in_time in
      let binds : bind_code_family (before ++ spent ∷ after) digest_of family
          ≡ (true, before ++ record spent { family = some family } ∷ after) =
        bind_middle digest_of family before after spent others digest refl unplayed in
      let between : Db = record d { codes = before ++ spent ∷ after } in
      exchange_code-clear id secret presented uri verifier client k.code subject family random
        (access, id_token) d between proves may (ap (λ p. p.0) spends)
        (ap (λ (p : Option AuthorizationCode × List KeptCode). record d { codes = p.1 })
          (sym spends))
        (bound_to k.code client uri verifier of_client to_uri matches) live same allowed f
        (ap (λ p. p.0) binds) r
        (mint_for_person-Signed w (code_grant w client k.code subject family) access id_token
          signed)
      ∙ ap
          (λ (p : Bool × List KeptCode). (
            record (exchanged w client k.code digest_of subject family (w.encode random)
                (access, id_token) between) { codes = p.1 },
            granted (answer_of w (access, id_token) (w.encode random)),
          ))
          binds
