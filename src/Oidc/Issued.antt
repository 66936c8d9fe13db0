-- ===== src/Oidc/Issued.antt =====
-- What the second unit of work of an exchange of crates/saffui-core/src/oidc/token.rs leaves in the
-- realm when it succeeds.
use saffui.Base.{
  ℕ, String, Bool, true, false, not, ◌≡◌, sym, ap, ◌∙◌, Option, none, some, List, arith,
  number_keys, nat_eqb_iff, text_keys, ◌==◌, Bool-cases, inl, inr, subst,
}
use saffui.Errors.{grant_invalid, random_unavailable}
use saffui.Work.{M, ◌>>=◌, ◌>>◌, pure, ensure, expect, call, look, begin, commit, >>=-done}
use saffui.Tokens.{insert_refresh_token}
use saffui.Consent.{allows, is_consent_owed}
use saffui.Clients.{Client}
use saffui.Login.Sessions.{Session}
use saffui.Oidc.Codes.{AuthorizationCode, bind_code_family}
use saffui.Oidc.World.{Db, World, Person, TokenResponse, Event, token_issued, record_event}
use saffui.Oidc.Issue.{Granted, read_live_subject, next_token, answer_for_person}
use saffui.Oidc.Token.{
  code_grant, tell_issued, obtain, exchange_finish, is_of_person, check_consent,
}
use saffui.Oidc.Effects.{
  Gives, Gives-call, Gives-look, Gives-ensure, Gives-expect, Gives-pure, IsLive,
  read_live_subject-Gives, answer_for_person-Gives, with_token,
}
use saffui.Oidc.Parts.{Parts, Stays, Stays-of, Parts-then, Parts-by, record_event-Gives}

pub is_of_person-some :
    (person : ℕ) (o : Option (Session × Person)) (x : Session × Person)
    → (w : World) → is_of_person w person o ≡ some x
    → (o ≡ some x) × (x.1.id ≡ person)
is_of_person-some person none x w e = absurd (cc)
is_of_person-some person (some y) x w e = elim (Bool-cases (y.1.id == person)) [
  | inl h ↦
      let same : y ≡ x = ground (arith, e, h) in
      (
        ap (λ z. some z) same,
        subst (λ (z : Session × Person). z.1.id ≡ person) same ((nat_eqb_iff _ _).0 h),
      )
  | inr h ↦ absurd (ground (arith, e, h))
]

module _ (w : World) where
  -- Whether the client is owed no consent for the scopes.
  abbrev pub Allowed : Client → ℕ → List String → Type 0
  Allowed client person scopes =
      client.requires_consent ≡ true → allows (w.hold_consent person client.client_id) scopes ≡ true

  owed_not :
      (o : Option (List String)) (scopes : List String)
      → not (is_consent_owed (record { requires_consent = true; allowed = o }) false scopes) ≡ true
      → allows o scopes ≡ true
  unfolding is_consent_owed
  owed_not o scopes h = elim (Bool-cases (allows o scopes)) [
    | inl e ↦ e
    | inr e ↦ absurd (ground (arith, h, e))
  ]

  check_consent-Gives :
      (client : Client) (person : ℕ) (scopes : List String)
      → Gives
          (λ d a d'. Allowed client person scopes × (d' ≡ d))
          (check_consent w client person scopes)
  check_consent-Gives client person scopes s r e = elim (Bool-cases client.requires_consent) [
    | inr h ↦ (λ g. absurd (ground (arith, g, h)), (Gives-pure tt s r (rw h at e)).1)
    | inl h ↦
        let ask : Option (List String) → M Db (Unit {0}) = λ allowed.
          ensure
            (not (
              is_consent_owed (record { requires_consent = true; allowed = allowed }) false scopes))
            grant_invalid in
        let find : Db → Option (List String) = λ d. w.hold_consent person client.client_id in
        let (q, p, k) = >>=-done (look find) ask s (rw h at e) in
        let a = Gives-look find s q p in
        let b =
          Gives-ensure
            (not (is_consent_owed (record { requires_consent = true; allowed = q.0 }) false scopes))
            grant_invalid q.1 r k in
        (λ _. subst (λ o. allows o scopes ≡ true) a.0 (owed_not q.0 scopes b.0), b.1 ∙ a.1)
  ]

  -- What the end of an exchange does.
  pub record Obtained (client : Client) (code : AuthorizationCode) (digest : List ℕ)
      (subject : Session × Person) (d : Db) (a : TokenResponse) (d' : Db) : Type 0 where
    pub family : ℕ
    pub token : List ℕ
    pub minted : w.mint_id ≡ some family
    pub bound : (bind_code_family d.codes digest family).0 ≡ true
    pub answers : a.refresh_token ≡ some token
    pub leaves :
        Parts
          (bind_code_family d.codes digest family).1
          (insert_refresh_token d.tokens
            (next_token w (code_grant w client code subject family) token))
          d
          d'

  tell_issued-Gives :
      (client : Client) (subject : Session × Person) (family : ℕ) (response : TokenResponse)
      → Gives (λ d a d'. (a ≡ response) × Stays d d') (tell_issued w client subject family response)
  tell_issued-Gives client subject family response s r e =
      let ev : Event =
        token_issued client.client_id family subject.1.id response.scope subject.0.id in
      let (q, p, k) = >>=-done (record_event ev) (λ _. commit >> pure response) s e in
      let (q', p', k') = >>=-done commit (λ _. pure response) q.1 k in
      let a = Gives-look (λ (d : Db). tt) q.1 q' p' in
      let b = Gives-pure response q'.1 r k' in
      (b.0, Parts-then (record_event-Gives ev s q p) (Stays-of (b.1 ∙ a.1)))

  obtain-Gives :
      (client : Client) (code : AuthorizationCode) (digest : List ℕ) (subject : Session × Person)
      → Gives
          (λ d a d'. Obtained client code digest subject d a d')
          (obtain w client code digest subject)
  unfolding obtain
  obtain-Gives client code digest subject s r e =
      let op : ℕ → Db → Bool × Db = λ family d.
        let x = bind_code_family d.codes digest family in (x.0, record d { codes = x.1 }) in
      let answer : ℕ → M Db TokenResponse = λ family.
        answer_for_person w (code_grant w client code subject family)
        >>= tell_issued w client subject family in
      let bind : ℕ → M Db TokenResponse =
        λ family. call (op family) >>= λ bound. ensure bound grant_invalid >> answer family in
      let (q1, p1, k1) = >>=-done (expect w.mint_id random_unavailable) bind s e in
      let a = Gives-expect w.mint_id random_unavailable s q1 p1 in
      let (q2, p2, k2) =
        >>=-done (call (op q1.0)) (λ bound. ensure bound grant_invalid >> answer q1.0) q1.1 k1 in
      let b = Gives-call (op q1.0) q1.1 q2 p2 in
      let (q3, p3, k3) = >>=-done (ensure q2.0 grant_invalid) (λ _. answer q1.0) q2.1 k2 in
      let c = Gives-ensure q2.0 grant_invalid q2.1 q3 p3 in
      let grant : Granted = code_grant w client code subject q1.0 in
      let (q4, p4, k4) =
        >>=-done (answer_for_person w grant) (tell_issued w client subject q1.0) q3.1 k3 in
      let (token, f, g) = answer_for_person-Gives w grant q3.1 q4 p4 in
      let (h, i) = tell_issued-Gives client subject q1.0 q4.0 q4.1 r k4 in
      let left : q3.1.kept ≡ (op q1.0 s.kept).1 = c.1 ∙ b.1 ∙ ap (λ d. (op q1.0 d).1) a.1 in
      record {
        family = q1.0;
        token = token;
        minted = a.0;
        bound = sym (b.0 ∙ ap (λ d. (op q1.0 d).0) a.1) ∙ c.0;
        answers = ap (λ (x : TokenResponse). x.refresh_token) h ∙ f;
        leaves = Parts-then (Parts-by (g ∙ ap (with_token w grant token) left)) i;
      }

  pub record Finished (client : Client) (code : AuthorizationCode) (digest : List ℕ) (d : Db)
      (a : TokenResponse) (d' : Db) : Type 0 where
    pub subject : Session × Person
    pub live : IsLive w d code.session subject
    pub person_is : subject.1.id ≡ code.person
    pub allowed : Allowed client subject.1.id code.scopes
    pub obtains : Obtained client code digest subject d a d'

  pub exchange_finish-Gives :
      (client : Client) (code : AuthorizationCode) (digest : List ℕ)
      → Gives (λ d a d'. Finished client code digest d a d') (exchange_finish w client code digest)
  unfolding exchange_finish
  exchange_finish-Gives client code digest s r e =
      let issue : Session × Person → M Db TokenResponse = λ subject.
        check_consent w client subject.1.id code.scopes >> obtain w client code digest subject in
      let find : Option (Session × Person) → M Db TokenResponse =
        λ live. expect (is_of_person w code.person live) grant_invalid >>= issue in
      let (q0, p0, k0) = >>=-done begin (λ _. read_live_subject w code.session >>= find) s e in
      let a = Gives-look (λ (d : Db). tt) s q0 p0 in
      let (q1, p1, k1) = >>=-done (read_live_subject w code.session) find q0.1 k0 in
      let b = read_live_subject-Gives w code.session q0.1 q1 p1 in
      let (q2, p2, k2) =
        >>=-done (expect (is_of_person w code.person q1.0) grant_invalid) issue q1.1 k1 in
      let c = Gives-expect (is_of_person w code.person q1.0) grant_invalid q1.1 q2 p2 in
      let who = is_of_person-some code.person q1.0 q2.0 w c.0 in
      let (q3, p3, k3) =
        >>=-done (check_consent w client q2.0.1.id code.scopes)
          (λ _. obtain w client code digest q2.0) q2.1 k2 in
      let f = check_consent-Gives client q2.0.1.id code.scopes q2.1 q3 p3 in
      let same : q3.1.kept ≡ s.kept = f.1 ∙ c.1 ∙ b.1 ∙ a.1 in
      record {
        subject = q2.0;
        live = subst (λ d. IsLive w d code.session q2.0) a.1 (b.0 q2.0 who.0);
        person_is = who.1;
        allowed = f.0;
        obtains =
            subst (λ d. Obtained client code digest q2.0 d r.0 r.1.kept) same
              (obtain-Gives client code digest q2.0 q3.1 r k3);
      }
