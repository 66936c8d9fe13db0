-- ===== src/Oidc/Parts.antt =====
-- What a unit of work of crates/saffui-core/src/oidc leaves of each part of a realm, and the end of a
-- family of refresh tokens.
use saffui.Base.{
  ℕ, String, ◌≡◌, ap, ◌∙◌, Option, none, some, List, [], ◌∷◌, ◌++◌, number_keys, text_keys, ◌==◌,
}
use saffui.Work.{call, >>=-done}
use saffui.Tokens.{StoredRefreshToken, EndedFamily, revoke_where, revoke_refresh_family}
use saffui.Oidc.Codes.{ReplayedCode, KeptCode}
use saffui.Oidc.World.{Db, Event, record_event}
use saffui.Oidc.Token.{end_family, tell_end}
use saffui.Oidc.Effects.{Gives, Gives-call, Gives-pure}

-- The parts of the realm that the theorems read.
pub record Parts (codes : List KeptCode) (tokens : List StoredRefreshToken) (d d' : Db)
    : Type 0 where
  pub codes_are : d'.codes ≡ codes
  pub tokens_are : d'.tokens ≡ tokens
  pub sessions_stay : d'.sessions ≡ d.sessions

abbrev pub Stays : Db → Db → Type 0
Stays d d' = Parts d.codes d.tokens d d'

pub Stays-of : {d d' : Db} → d' ≡ d → Stays d d'
Stays-of e = record {
  codes_are = ap (λ (d : Db). d.codes) e;
  tokens_are = ap (λ (d : Db). d.tokens) e;
  sessions_stay = ap (λ (d : Db). d.sessions) e;
}

pub Parts-then :
    {cs : List KeptCode} {ts : List StoredRefreshToken} {d e f : Db}
    → Parts cs ts d e
    → Stays e f
    → Parts cs ts d f
Parts-then p q = record {
  codes_are = q.codes_are ∙ p.codes_are;
  tokens_are = q.tokens_are ∙ p.tokens_are;
  sessions_stay = q.sessions_stay ∙ p.sessions_stay;
}

pub Parts-by :
    {cs : List KeptCode} {ts : List StoredRefreshToken} {d e : Db}
    → e ≡ record d { codes = cs; tokens = ts }
    → Parts cs ts d e
Parts-by g = record {
  codes_are = ap (λ (d : Db). d.codes) g;
  tokens_are = ap (λ (d : Db). d.tokens) g;
  sessions_stay = ap (λ (d : Db). d.sessions) g;
}

pub record_event-Gives : (ev : Event) → Gives (λ d a d'. Stays d d') (record_event ev)
unfolding record_event
record_event-Gives ev s r e =
    let b = Gives-call (λ (d : Db). (tt, record d { events = d.events ++ ev ∷ [] })) s r e in
    record {
      codes_are = ap (λ (d : Db). d.codes) b.1;
      tokens_are = ap (λ (d : Db). d.tokens) b.1;
      sessions_stay = ap (λ (d : Db). d.sessions) b.1;
    }

abbrev pub ended_tokens : ℕ → ℕ → List StoredRefreshToken → List StoredRefreshToken
ended_tokens family now = revoke_where (λ t. t.family == family) now

module _ (client_id : String) (family person session : ℕ) (reason : String) where
  tell_end-Gives :
      (ended : Option EndedFamily)
      → Gives (λ d a d'. Stays d d') (tell_end client_id family person session reason ended)
  tell_end-Gives none s r e = Stays-of (Gives-pure tt s r e).1
  tell_end-Gives (some x) s r e = record_event-Gives _ s r e

  pub end_family-Gives :
      (now : ℕ)
      → Gives
          (λ d a d'. Parts d.codes (ended_tokens family now d.tokens) d d')
          (end_family client_id family person session reason now)
  unfolding end_family revoke_refresh_family
  end_family-Gives now s r e =
      let op : Db → Option EndedFamily × Db = λ d.
        let x = revoke_refresh_family d.tokens family now in (x.0, record d { tokens = x.1 }) in
      let (q, p, k) =
        >>=-done (call op) (λ ended. tell_end client_id family person session reason ended) s e in
      let a = Gives-call op s q p in
      Parts-then
        (record {
          codes_are = ap (λ (d : Db). d.codes) a.1;
          tokens_are = ap (λ (d : Db). d.tokens) a.1;
          sessions_stay = ap (λ (d : Db). d.sessions) a.1;
        })
        (tell_end-Gives q.0 q.1 r k)

-- The tokens once a replayed code is taken back.
abbrev pub taken_tokens :
    ℕ → Option ReplayedCode → List StoredRefreshToken → List StoredRefreshToken
taken_tokens now none ts = ts
taken_tokens now (some r) ts = elim r.family [
  | none ↦ ts
  | some family ↦ ended_tokens family now ts
]
