-- ===== src/Oidc/Effects.antt =====
-- What the calls of crates/saffui-core/src/oidc/token.rs and refresh.rs leave in the realm when they
-- succeed.
use saffui.Base.{
  ℕ, String, Bool, true, ◌≡◌, refl, sym, ap, ◌∙◌, Option, none, some, List, arith, number_keys,
  Bool-cases, inl, inr, subst,
}
use mathlib.Core.Path.{ap₂}
use saffui.Errors.{ErrorCode, client_authentication_failed, random_unavailable}
use saffui.Work.{
  M, Stage, Result, done, ◌>>=◌, pure, answered, ensure, expect, call, look, >>=-done, call-done,
  answered-done, ensure-done, expect-done,
}
use saffui.Tokens.{insert_refresh_token}
use saffui.Clients.{Client, identified, named_client, is_client_identifier}
use saffui.Login.Sessions.{Session, read_session, standing}
use saffui.Oidc.World.{Db, World, Person, TokenResponse, IssuedAccessToken}
use saffui.Oidc.Issue.{
  Granted, digested, read_named_client, identify_client, read_live_subject, next_token,
  issue_refresh_token, person_of, enabled_person, answer_for_person, mint_for_person,
}

-- What a call that succeeds tells of what it found, answered and left.
abbrev pub Gives : {A : Type 0} → (Db → A → Db → Type 0) → M Db A → Type 0
Gives {A} Q m = (s : Stage Db) (r : A × Stage Db) → m s ≡ done r → Q s.kept r.0 r.1.kept

abbrev pub Same : {A : Type 0} → Db → A → Db → Type 0
Same d a d' = d' ≡ d

pub Gives-bind :
    {A B : Type 0} (Q : Db → A → Db → Type 0) (R : A → Db → B → Db → Type 0) (m : M Db A)
    (f : A → M Db B)
    → Gives Q m
    → ((a : A) → Gives (R a) (f a))
    → Gives (λ d b d'. (a : A) × (e : Db) × Q d a e × R a e b d') (m >>= f)
Gives-bind Q R m f g h s r e =
    let (q, p, k) = >>=-done m f s e in (q.0, q.1.kept, g s q p, h q.0 q.1 r k)

pub Gives-call :
    {A : Type 0} (op : Db → A × Db) → Gives (λ d a d'. (a ≡ (op d).0) × (d' ≡ (op d).1)) (call op)
Gives-call op s r e = call-done op s r e

pub Gives-look : {A : Type 0} (op : Db → A) → Gives (λ d a d'. (a ≡ op d) × (d' ≡ d)) (look op)
Gives-look op s r e = call-done (λ d. (op d, d)) s r e

pub Gives-answered :
    {A : Type 0} (x : Result A) → Gives (λ d a d'. (x ≡ done a) × (d' ≡ d)) (answered x)
Gives-answered x s r e = let h = answered-done x s r e in (h.0, ap (λ (t : Stage Db). t.kept) h.1)

pub Gives-ensure :
    (b : Bool) (code : ErrorCode) → Gives (λ d a d'. (b ≡ true) × (d' ≡ d)) (ensure b code)
Gives-ensure b code s r e =
    let h = ensure-done b code s r e in (h.0, ap (λ (t : Stage Db). t.kept) h.1)

pub Gives-expect :
    {A : Type 0} (o : Option A) (code : ErrorCode)
    → Gives (λ d a d'. (o ≡ some a) × (d' ≡ d)) (expect o code)
Gives-expect o code s r e =
    let h = expect-done o code s r e in (h.0, ap (λ (t : Stage Db). t.kept) h.1)

pub Gives-pure : {A : Type 0} (x : A) → Gives (λ d a d'. (a ≡ x) × (d' ≡ d)) (pure {A = A} x)
Gives-pure x s r e = ground (arith, e)

module _ (w : World) where
  abbrev known_client : String → Option Client
  known_client client_id = named_client w.parses_as_uuid w.read_client client_id

  read_named_client-Gives :
      (id : String) → Gives (λ d o d'. (o ≡ known_client id) × (d' ≡ d)) (read_named_client w id)
  unfolding read_named_client named_client
  read_named_client-Gives id s r e = elim (Bool-cases (is_client_identifier w.parses_as_uuid id)) [
    | inl h ↦ rw h (Gives-look (λ d. w.read_client id) s r (rw h at e))
    | inr h ↦ rw h (Gives-pure none s r (rw h at e))
  ]

  pub identify_client-Gives :
      (id : String) (secret : Option (List ℕ))
      → Gives
          (λ d c d'. (identified (known_client id) (digested w.sha256 secret) ≡ some c) × (d' ≡ d))
          (identify_client w id secret)
  unfolding identify_client
  identify_client-Gives id secret s r e =
      let (o, d1, (p, q), (k, l)) =
        Gives-bind (λ d o d'. (o ≡ known_client id) × (d' ≡ d))
          (λ o d c d'. (identified o (digested w.sha256 secret) ≡ some c) × (d' ≡ d))
          (read_named_client w id)
          (λ o. expect (identified o (digested w.sha256 secret)) client_authentication_failed)
          (read_named_client-Gives id)
          (λ o. Gives-expect (identified o (digested w.sha256 secret)) client_authentication_failed)
          s r e in
      (subst (λ o. identified o (digested w.sha256 secret) ≡ some r.0) p k, l ∙ q)

  -- A session that stands, and its person, who is enabled.
  pub record IsLive (d : Db) (id : ℕ) (subject : Session × Person) : Type 0 where
    pub session : standing (read_session w.holds_factor d.sessions id) w.read_at ≡ some subject.0
    pub person : w.read_person subject.0.person ≡ some subject.1
    pub enabled : subject.1.enabled ≡ true

  person_of-Gives :
      (o : Option Session)
      → Gives
          (λ d a d'.
            ((x : Session × Person)
              → a ≡ some x
              → (o ≡ some x.0) × (w.read_person x.0.person ≡ some x.1) × (x.1.enabled ≡ true))
            × (d' ≡ d))
          (person_of w o)
  person_of-Gives none s r e = (λ x h. absurd (ground (arith, h, e)), ground (arith, e))
  person_of-Gives (some t) s r e =
      let (q, p, k) =
        >>=-done (look (λ (d : Db). w.read_person t.person))
          (λ person. pure (enabled_person w t person)) s e in
      let a = Gives-look (λ (d : Db). w.read_person t.person) s q p in
      let b = Gives-pure (enabled_person w t q.0) q.1 r k in
      (
        λ x h.
            enabled_of x (w.read_person t.person) refl (sym h ∙ b.0 ∙ ap (enabled_person w t) a.0),
        b.1 ∙ a.1,
      )
    where
      enabled_of :
          (x : Session × Person) (o : Option Person)
          → w.read_person t.person ≡ o
          → some x ≡ enabled_person w t o
          → (some t ≡ some x.0) × (w.read_person x.0.person ≡ some x.1) × (x.1.enabled ≡ true)
      enabled_of x none g h = absurd (cc)
      enabled_of x (some p) g h = elim (Bool-cases p.enabled) [
        | inl en ↦
            let same : x ≡ (t, p) = ground (arith, h, en) in
            subst
              (λ (y : Session × Person).
                (some t ≡ some y.0) × (w.read_person y.0.person ≡ some y.1) × (y.1.enabled ≡ true))
              (sym same) (refl, g, en)
        | inr en ↦ absurd (ground (arith, h, en))
      ]

  pub read_live_subject-Gives :
      (id : ℕ)
      → Gives
          (λ d a d'. ((x : Session × Person) → a ≡ some x → IsLive d id x) × (d' ≡ d))
          (read_live_subject w id)
  unfolding read_live_subject
  read_live_subject-Gives id s r e =
      let (q, p, k) =
        >>=-done (look (λ (d : Db). read_session w.holds_factor d.sessions id))
          (λ read. person_of w (standing read w.read_at)) s e in
      let a = Gives-look (λ (d : Db). read_session w.holds_factor d.sessions id) s q p in
      let b = person_of-Gives (standing q.0 w.read_at) q.1 r k in
      (
        λ x h.
            let f = b.0 x h in
            record {
              session = sym (ap (λ o. standing o w.read_at) a.0) ∙ f.0;
              person = f.1;
              enabled = f.2;
            },
        b.1 ∙ a.1,
      )

  -- The realm with one more refresh token.
  abbrev pub with_token : Granted → List ℕ → Db → Db
  with_token g token d = record d { tokens = insert_refresh_token d.tokens (next_token w g token) }

  issue_refresh_token-Gives :
      (g : Granted) → Gives (λ d a d'. d' ≡ with_token g a d) (issue_refresh_token w g)
  unfolding issue_refresh_token
  issue_refresh_token-Gives g s r e =
      let op : List ℕ → Db → List ℕ × Db = λ random d. (
        w.encode random,
        record d { tokens = insert_refresh_token d.tokens (next_token w g (w.encode random)) },
      ) in
      let (q, p, k) = >>=-done (expect w.random_bytes random_unavailable) (λ x. call (op x)) s e in
      let a = Gives-expect w.random_bytes random_unavailable s q p in
      let b = Gives-call (op q.0) q.1 r k in b.1 ∙ ap₂ (with_token g) (sym b.0) a.1

  pub answer_for_person-Gives :
      (g : Granted)
      → Gives
          (λ d a d'.
            (token : List ℕ) × (a.refresh_token ≡ some token) × (d' ≡ with_token g token d))
          (answer_for_person w g)
  unfolding answer_for_person
  answer_for_person-Gives g s r e =
      let response : IssuedAccessToken × Option String → List ℕ → TokenResponse = λ minted token.
        record {
          access_token = minted.0.token;
          token_type = "Bearer";
          expires_in = minted.0.expires_in;
          scope = minted.0.scope;
          id_token = minted.1;
          refresh_token = some token;
        } in
      let (q, p, k) =
        >>=-done (answered (mint_for_person w g))
          (λ m. issue_refresh_token w g >>= λ token. pure (response m token)) s e in
      let a = Gives-answered (mint_for_person w g) s q p in
      let (q', p', k') =
        >>=-done (issue_refresh_token w g) (λ token. pure (response q.0 token)) q.1 k in
      let b = issue_refresh_token-Gives g q.1 q' p' in
      let c = Gives-pure (response q.0 q'.0) q'.1 r k' in
      (q'.0, ap (λ (x : TokenResponse). x.refresh_token) c.0, c.1 ∙ b ∙ ap (with_token g q'.0) a.1)
