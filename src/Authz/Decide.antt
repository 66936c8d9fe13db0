-- ===== src/Authz/Decide.antt =====
-- The point of decision of a realm: crates/saffui-core/src/authz/decide.rs. What the other parts of
-- the core answer to a question (the realm, the client, the token, the session, the rows of the
-- storage) are fields of its world; a failure of any of them is the answer. An identifier of a person
-- is a number, and `id_text` is what is written of it; an instant is in milliseconds.
pub mod Question
pub mod Grounds
pub mod Origins
pub mod Permits
pub mod Returned
pub mod Tests
use Prim.Native.String.{len}
use saffui.Base.{
  ℕ, zero, suc, ◌+◌, ◌*◌, String, Bool, true, false, not, ◌&&◌, ◌||◌, Option, none, some, List, [],
  ◌∷◌, leb, ltb, text_keys, number_keys, ◌==◌, if◌then◌else◌, is_empty, all, contains, get,
}
use saffui.Base.Text.{codes, is_ascii_alphanumeric}
use saffui.Names.{is_role_name}
use saffui.Json.{Members}
use saffui.Errors.{
  Failure, ErrorCode, request_invalid, client_authentication_failed, storage_unavailable,
  from_storage,
}
use saffui.Authz.Schema.{ObjectRef, CompiledSchema, find_member, MemberKind}
use saffui.Authz.Walk.{
  Walk, found, not_found, undecided, Walker, WalkState, Outcome, ok, err, exhausted, Fetched,
  WalkLimit, name as limit_name, StorageUnavailable,
}
use saffui.Authz.Check.{walk_relations}
use saffui.Authz.Condition.{SubjectFacts, Facts, Readers}
use saffui.Authz.Policy.{
  Policy, PolicyVerdict, permitted_by, denied_by, undecided_by, no_policy, weigh_policies,
}
use saffui.Authz.Compile.Schema.{compiled}
use saffui.Authz.Parse.Whole.{compile_schema}
use saffui.Authz.Shares.{DecisionShares, take, drop_share}

abbrev pub max_duration : ℕ
max_duration = 100

abbrev pub max_attributes_bytes : ℕ
max_attributes_bytes = 8 * 1024

pub record DecisionRequest : Type 0 where
  pub subject_token : Option String
  pub action : String
  pub resource_type : String
  pub resource_id : Option String
  pub attributes : Members

pub record Decision : Type 0 where
  pub decision : String
  pub reason : String
  pub policy : Option String

abbrev pub permit : String → Option String → Decision
permit reason policy = record { decision = "permit"; reason = reason; policy = policy }

abbrev pub deny : String → Option String → Decision
deny reason policy = record { decision = "deny"; reason = reason; policy = policy }

-- What a call answers, or the failure that the caller passes on.
pub data Answered (A : Type 0) : Type 0 where
  got : A → Answered A
  failing : Failure → Answered A

-- `stuck` is the model's: the fuel of a walk ran out.
pub data Decided : Type 0 where
  decided : Decision → Decided
  failing : Failure → Decided
  stuck : Decided

pub record Subject : Type 0 where
  pub facts : SubjectFacts
  pub object : ObjectRef
  pub person : Option ℕ

-- What a token that verifies says.
pub record Claims : Type 0 where
  pub session : Option ℕ
  pub subject : String
  pub client_id : String
  pub scopes : List String

pub record Client : Type 0 where
  pub client_id : String
  pub enabled : Bool

pub record Person : Type 0 where
  pub id : ℕ
  pub username : String
  pub email : Option String
  pub email_verified : Bool

pub record HeldRole : Type 0 where
  pub role : ℕ
  pub client_id : Option String

-- A schema read with the guard of a client: its form, none if another version wrote it.
pub record GuardedSchema : Type 0 where
  pub compiled_form : Option CompiledSchema
  pub guarded : Bool

-- What the rest of the core answers to one question. A token that does not verify is none.
pub record World : Type 0 where
  pub asked_at : ℕ
  pub resolve_realm : Answered ℕ
  pub authenticate_client : String → Answered Client
  pub verify_access_token : String → Answered (Option Claims)
  pub read_named_client : String → Answered (Option Client)
  pub read_live_subject : ℕ → Answered (Option Person)
  pub read_guarded_schema : String → String → Answered (Option GuardedSchema)
  pub read_relation_schema : Answered (Option String)
  pub list_applicable_policies : String → String → String → Answered (List Policy)
  pub read_held_roles : ℕ → Answered (List HeldRole)
  pub read_member_groups : ℕ → Answered (List ℕ)
  pub decided_at : ℕ
  pub walk_now : ℕ → ℕ
  pub list_relation_subjects : ℕ → ObjectRef → String → ℕ → Fetched
  pub id_text : ℕ → String
  pub written : CompiledSchema → ℕ
  pub written_attributes : Members → ℕ
  pub reason_of : StorageUnavailable → String
  pub readers : Readers

infixl 5 ◌>>=◌
abbrev pub ◌>>=◌ : {A B : Type 0} → Answered A → (A → Answered B) → Answered B
got a >>= f = f a
failing failure >>= f = failing failure

abbrev subject_client : Claims → Option Client → Option Subject
subject_client claims none = none
subject_client claims (some client) =
    if client.enabled
    then some (record {
      facts = record {
        id = client.client_id;
        username = none;
        email = none;
        email_verified = none;
        client_id = claims.client_id;
        scopes = claims.scopes;
        roles = [];
        groups = [];
      };
      object = record { object_type = "client"; object_id = client.client_id };
      person = none;
    })
    else none

abbrev subject_person : World → Claims → Option Person → Option Subject
subject_person w claims none = none
subject_person w claims (some person) =
    if w.id_text person.id == claims.subject
    then some (record {
      facts = record {
        id = w.id_text person.id;
        username = some person.username;
        email = person.email;
        email_verified = some person.email_verified;
        client_id = claims.client_id;
        scopes = claims.scopes;
        roles = [];
        groups = [];
      };
      object = record { object_type = "user"; object_id = w.id_text person.id };
      person = some person.id;
    })
    else none

abbrev subject_of : World → Claims → Option ℕ → Answered (Option Subject)
subject_of w claims none =
    w.read_named_client claims.subject >>= λ client. got (subject_client claims client)
subject_of w claims (some session) =
    w.read_live_subject session >>= λ person. got (subject_person w claims person)

abbrev subject_claimed : World → Option Claims → Answered (Option Subject)
subject_claimed w none = got none
subject_claimed w (some claims) = subject_of w claims claims.session

unfoldable pub read_subject : World → String → Answered (Option Subject)
read_subject w token = w.verify_access_token token >>= subject_claimed w

pub data SchemaFor : Type 0 where
  unreadable : SchemaFor
  relations : CompiledSchema → SchemaFor
  policies : SchemaFor

abbrev schema_of_source : World → Option String → Option CompiledSchema
schema_of_source w none = none
schema_of_source w (some source) = elim (compile_schema w.written source) [
  | some (compiled schema) ↦ some schema
  | _ ↦ none
]

abbrev read_form : World → Option CompiledSchema → Answered (Option CompiledSchema)
read_form w (some schema) = got (some schema)
read_form w none = w.read_relation_schema >>= λ source. got (schema_of_source w source)

abbrev defines : CompiledSchema → String → Bool
defines schema object_type = elim (get schema.types object_type) [ none ↦ false | some t ↦ true ]

abbrev schema_for : String → Bool → Option CompiledSchema → SchemaFor
schema_for resource_type guarded none = unreadable
schema_for resource_type guarded (some schema) =
    if not (defines schema resource_type) || not guarded then policies else relations schema

abbrev schema_guarded : World → String → Option GuardedSchema → Answered SchemaFor
schema_guarded w resource_type none = got policies
schema_guarded w resource_type (some read) =
    read_form w read.compiled_form >>= λ schema. got (schema_for resource_type read.guarded schema)

unfoldable pub read_schema_for : World → String → String → Answered SchemaFor
read_schema_for w client_id resource_type =
    w.read_guarded_schema resource_type client_id >>= schema_guarded w resource_type

unfoldable pub is_object_id : String → Bool
is_object_id text =
    leb 1 (len text)
    && leb (len text) 128
    && all (λ c. is_ascii_alphanumeric c || contains (b'.' ∷ b':' ∷ b'@' ∷ b'_' ∷ b'-' ∷ []) c)
        (codes text)

abbrev pub failure_of : ErrorCode → Failure
failure_of code = record { code = code; detail = none }

abbrev pub undecided_reason : WalkLimit → String
undecided_reason limit = Prim.Native.String.◌++◌ "undecided_" (limit_name limit)

abbrev pub decide_walk : World → Outcome (Walk × WalkState) → Decided
decide_walk w (ok (found, s)) = decided (permit "relation" none)
decide_walk w (ok (not_found, s)) = decided (deny "no_relation" none)
decide_walk w (ok (undecided limit, s)) = decided (deny (undecided_reason limit) none)
decide_walk w (err e) = failing (from_storage w.reason_of e)
decide_walk w exhausted = stuck

-- The walk of a question, whose budget runs from the question.
abbrev pub walker_of : World → CompiledSchema → ObjectRef → Walker
walker_of w schema subject = record {
  schema = schema;
  subject = subject;
  deadline = w.asked_at + max_duration;
  now = w.walk_now;
  list_relation_subjects = w.list_relation_subjects;
}

abbrev pub decide_found :
    World → CompiledSchema → DecisionRequest → ObjectRef → String → Option MemberKind → Decided
decide_found w schema q subject id none = decided (deny "relation_unknown" none)
decide_found w schema q subject id (some member) = decide_walk w (
    walk_relations (walker_of w schema subject)
      (record { object_type = q.resource_type; object_id = id }) q.action)

abbrev pub decide_object : World → CompiledSchema → DecisionRequest → ObjectRef → String → Decided
decide_object w schema q subject id =
    decide_found w schema q subject id (find_member schema q.resource_type q.action)

abbrev pub decide_named :
    World → CompiledSchema → DecisionRequest → ObjectRef → Option String → Decided
decide_named w schema q subject none = failing (failure_of request_invalid)
decide_named w schema q subject (some id) =
    if is_object_id id
    then decide_object w schema q subject id
    else failing (failure_of request_invalid)

unfoldable pub decide_by_relations : World → CompiledSchema → DecisionRequest → ObjectRef → Decided
decide_by_relations w schema q subject = decide_named w schema q subject q.resource_id
