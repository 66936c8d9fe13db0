-- ===== src/Oidc/Units.antt =====
-- What the first unit of work of an exchange of crates/saffui-core/src/oidc/token.rs leaves in the realm
-- when it succeeds.
use saffui.Base.{
  ℕ, String, true, ◌≡◌, sym, ap, ◌∙◌, Option, none, some, List, number_keys, text_keys,
  Option-cases, inl, inr, subst,
}
use mathlib.Core.Path.{ap₂}
use saffui.Errors.{grant_not_allowed}
use saffui.Work.{M, Stage, done, ◌>>=◌, ◌>>◌, pure, ensure, call, begin, commit, >>=-done}
use saffui.Clients.{Client, identified, named_client}
use saffui.Oidc.Codes.{
  AuthorizationCode, ReplayedCode, KeptCode, spend_authorization_code, mark_code_replayed,
}
use saffui.Oidc.World.{Db, World}
use saffui.Oidc.Issue.{digested, identify_client}
use saffui.Oidc.Token.{take_back, take_back_what_a_code_obtained, after_spend, exchange_spend}
use saffui.Oidc.Effects.{
  Gives, Gives-call, Gives-look, Gives-ensure, Gives-pure, identify_client-Gives,
}
use saffui.Oidc.Parts.{end_family-Gives, Parts, Stays, Stays-of, Parts-then, Parts-by, taken_tokens}

module _ (w : World) where
  take_back-Gives :
      (client_id : String) (o : Option ReplayedCode)
      → Gives
          (λ d a d'. Parts d.codes (taken_tokens w.asked_at o d.tokens) d d')
          (take_back w client_id o)
  take_back-Gives client_id none s r e = Stays-of (Gives-pure tt s r e).1
  take_back-Gives client_id (some x) s r e = elim (Option-cases x.family) [
    | inl h ↦ rw h (Stays-of (Gives-pure tt s r (rw h at e)).1)
    | inr (f, h) ↦
        rw h (
          end_family-Gives client_id f x.person x.session "code_replayed" w.asked_at s r
            (rw h at e))
  ]

  -- A code presented after it was spent, and what it obtained taken back.
  pub record TakenBack (digest : List ℕ) (client_id : String) (d d' : Db) : Type 0 where
    pub marks :
        Parts
          (mark_code_replayed d.codes digest client_id w.asked_at).1
          (taken_tokens w.asked_at
            (mark_code_replayed d.codes digest client_id w.asked_at).0
            d.tokens)
          d
          d'

  take_back_what_a_code_obtained-Gives :
      (digest : List ℕ) (client_id : String)
      → Gives
          (λ d a d'. TakenBack digest client_id d d')
          (take_back_what_a_code_obtained w digest client_id)
  unfolding take_back_what_a_code_obtained
  take_back_what_a_code_obtained-Gives digest client_id s r e =
      let op : Db → Option ReplayedCode × Db = λ d.
        let x = mark_code_replayed d.codes digest client_id w.asked_at in
        (x.0, record d { codes = x.1 }) in
      let (q, p, k) = >>=-done (call op) (λ o. take_back w client_id o) s e in
      let a = Gives-call op s q p in
      let b = take_back-Gives client_id q.0 q.1 r k in
      record {
        marks = record {
          codes_are = b.codes_are ∙ ap (λ (d : Db). d.codes) a.1;
          tokens_are =
              b.tokens_are ∙ ap₂ (λ o (d : Db). taken_tokens w.asked_at o d.tokens) a.0 a.1;
          sessions_stay = b.sessions_stay ∙ ap (λ (d : Db). d.sessions) a.1;
        };
      }

  abbrev pub spending : List ℕ → Db → Option AuthorizationCode × List KeptCode
  spending digest d = spend_authorization_code d.codes digest w.asked_at

  -- What the first unit of work of an exchange does, where there is a code to spend and where not.
  abbrev pub Spent : List ℕ → Client → Option AuthorizationCode → Db → Db → Type 0
  Spent digest client (some code) d d' =
      ((spending digest d).0 ≡ some code) × Parts (spending digest d).1 d.tokens d d'
  Spent digest client none d d' =
      (e : Db) × ((spending digest d).0 ≡ none)
      × Parts (spending digest d).1 d.tokens d e
      × TakenBack digest client.client_id e d'

  TakenBack-then :
      {digest : List ℕ} {client_id : String} {d e f : Db}
      → TakenBack digest client_id d e
      → Stays e f
      → TakenBack digest client_id d f
  TakenBack-then t q = record { marks = Parts-then t.marks q }

  after_spend-Gives :
      (digest : List ℕ) (client : Client) (d : Db) (o : Option AuthorizationCode)
      → o ≡ (spending digest d).0
      → (s : Stage Db) (r : (Client × Option AuthorizationCode) × Stage Db)
      → s.kept ≡ record d { codes = (spending digest d).1 }
      → after_spend w digest client o s ≡ done r
      → (r.0 ≡ (client, o)) × Spent digest client o d r.1.kept
  after_spend-Gives digest client d (some code) h s r g e =
      let (q, p, k) = >>=-done commit (λ _. pure (client, some code)) s e in
      let a = Gives-look (λ (d : Db). tt) s q p in
      let b = Gives-pure (client, some code) q.1 r k in (b.0, (sym h, Parts-by (b.1 ∙ a.1 ∙ g)))
  after_spend-Gives digest client d none h s r g e =
      let answer : Client × Option AuthorizationCode = (client, none) in
      let (q, p, k) =
        >>=-done (take_back_what_a_code_obtained w digest client.client_id)
          (λ _. commit >> pure answer) s e in
      let (q', p', k') = >>=-done commit (λ _. pure answer) q.1 k in
      let a = Gives-look (λ (d : Db). tt) q.1 q' p' in
      let b = Gives-pure answer q'.1 r k' in
      (
        b.0,
        (
          s.kept,
          sym h,
          Parts-by g,
          TakenBack-then (take_back_what_a_code_obtained-Gives digest client.client_id s q p)
              (Stays-of (b.1 ∙ a.1)),
        ),
      )

  -- The client that a request names and proves to be.
  abbrev pub IsClient : String → Option (List ℕ) → Client → Type 0
  IsClient id secret c =
      identified (named_client w.parses_as_uuid w.read_client id) (digested w.sha256 secret)
      ≡ some c

  pub exchange_spend-Gives :
      (id : String) (secret : Option (List ℕ)) (code : List ℕ)
      → Gives
          (λ d a d'.
            IsClient id secret a.0
            × (a.0.allows_authorization_code ≡ true)
            × Spent (w.sha256 code) a.0 a.1 d d')
          (exchange_spend w id secret code)
  unfolding exchange_spend
  exchange_spend-Gives id secret code s r e =
      let digest : List ℕ = w.sha256 code in
      let op : Db → Option AuthorizationCode × Db = λ d.
        let x = spend_authorization_code d.codes digest w.asked_at in
        (x.0, record d { codes = x.1 }) in
      let rest : Client → M Db (Client × Option AuthorizationCode) = λ client.
        ensure client.allows_authorization_code grant_not_allowed
        >> (call op >>= λ spent. after_spend w digest client spent) in
      let (q, p, k) = >>=-done begin (λ _. identify_client w id secret >>= rest) s e in
      let a = Gives-look (λ (d : Db). tt) s q p in
      let (q1, p1, k1) = >>=-done (identify_client w id secret) rest q.1 k in
      let b = identify_client-Gives w id secret q.1 q1 p1 in
      let (q2, p2, k2) =
        >>=-done (ensure q1.0.allows_authorization_code grant_not_allowed)
          (λ _. call op >>= λ spent. after_spend w digest q1.0 spent) q1.1 k1 in
      let c = Gives-ensure q1.0.allows_authorization_code grant_not_allowed q1.1 q2 p2 in
      let (q3, p3, k3) = >>=-done (call op) (λ spent. after_spend w digest q1.0 spent) q2.1 k2 in
      let d = Gives-call op q2.1 q3 p3 in
      let same : q2.1.kept ≡ s.kept = c.1 ∙ b.1 ∙ a.1 in
      let f =
        after_spend-Gives digest q1.0 s.kept q3.0 (d.0 ∙ ap (λ (d : Db). (op d).0) same) q3.1 r
          (d.1 ∙ ap (λ (d : Db). (op d).1) same) k3 in
      subst
        (λ (x : Client × Option AuthorizationCode).
          IsClient id secret x.0
          × (x.0.allows_authorization_code ≡ true)
          × Spent digest x.0 x.1 s.kept r.1.kept)
        (sym f.0) (b.0, c.0, f.1)
