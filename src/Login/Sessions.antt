-- ===== src/Login/Sessions.antt =====
-- Sessions: crates/saffui-core/src/login/session.rs, over the sessions of one realm as
-- crates/saffui-core/src/testkit/memory/login.rs keeps them. An identifier is a number, an instant is
-- in seconds; whether a person holds a second factor is read beside a session, and is a parameter.
use saffui.Base.{
  ℕ, ◌*◌, String, Bool, true, false, not, ◌&&◌, ◌||◌, Option, none, some, List, [], ◌∷◌, ◌++◌, ltb,
  text_keys, number_keys, ◌==◌, if◌then◌else◌, find, any,
}

-- `SESSION_LIFETIME`, twelve hours.
abbrev pub session_lifetime : ℕ
session_lifetime = 12 * 3600

pub data SessionState : Type 0 where
  active : SessionState
  ended : SessionState

abbrev pub state_name : SessionState → String
state_name active = "active"
state_name ended = "ended"

abbrev pub parse_state : String → Option SessionState
parse_state text = find (λ s. state_name s == text) (active ∷ ended ∷ [])

pub data AuthenticationMethod : Type 0 where
  password : AuthenticationMethod
  one_time_code : AuthenticationMethod
  security_key : AuthenticationMethod

abbrev pub method_name : AuthenticationMethod → String
method_name password = "pwd"
method_name one_time_code = "otp"
method_name security_key = "pop"

abbrev pub parse_method : String → Option AuthenticationMethod
parse_method text = find (λ m. method_name m == text) (password ∷ one_time_code ∷ security_key ∷ [])

pub record Session : Type 0 where
  pub id : ℕ
  pub person : ℕ
  pub secret_digest : List ℕ
  pub state : SessionState
  pub methods : List AuthenticationMethod
  pub authenticated_at : ℕ
  pub expires_at : ℕ

pub record ReadSession : Type 0 where
  pub session : Session
  pub person_holds_factor : Bool

abbrev pub is_active : SessionState → Bool
is_active active = true
is_active ended = false

abbrev is_password : AuthenticationMethod → Bool
is_password password = true
is_password one_time_code = false
is_password security_key = false

unfoldable pub insert_session : List Session → Session → List Session
insert_session ss s = ss ++ s ∷ []

unfoldable pub read_session : (ℕ → Bool) → List Session → ℕ → Option ReadSession
read_session holds_factor ss id = elim (find (λ s. s.id == id) ss) [
  | none ↦ none
  | some s ↦ some (record { session = s; person_holds_factor = holds_factor s.person })
]

-- Whether there was an active session to end, and the sessions left.
unfoldable pub end_session : List Session → ℕ → Bool × List Session
end_session [] id = (false, [])
end_session (s ∷ ss) id =
    let rest = end_session ss id in
    if s.id == id && is_active s.state
    then (true, record s { state = ended } ∷ ss)
    else (rest.0, s ∷ rest.1)

unfoldable pub proves_second_factor : Session → Bool
proves_second_factor s = any (λ m. not (is_password m)) s.methods

unfoldable pub answers_for_its_person : ReadSession → Bool
unfolding proves_second_factor
answers_for_its_person r = proves_second_factor r.session || not r.person_holds_factor

-- `read_proven_session`: `proven` is the comparison of the digest of the ticket's secret with that of
-- the session, or with one that nothing matches.
unfoldable pub read_proven_session :
    (Option ReadSession → Bool) → Option ReadSession → ℕ → Option ReadSession
read_proven_session proven none now = none
read_proven_session proven (some r) now =
    if proven (some r) && is_active r.session.state && ltb now r.session.expires_at
    then some r
    else none

unfoldable pub find_answering_session :
    (Option ReadSession → Bool) → Option ReadSession → ℕ → Option Session
unfolding read_proven_session answers_for_its_person
find_answering_session proven read now = elim (read_proven_session proven read now) [
  | none ↦ none
  | some r ↦ if answers_for_its_person r then some r.session else none
]

-- The session that `read_live_subject` goes on with.
unfoldable pub standing : Option ReadSession → ℕ → Option Session
unfolding answers_for_its_person
standing none now = none
standing (some r) now =
    if is_active r.session.state && ltb now r.session.expires_at && answers_for_its_person r
    then some r.session
    else none
