-- ===== src/Authz/Decide/Grounds.antt =====
-- What a permission of crates/saffui-core/src/authz/decide.rs may rest on, told without its functions:
-- who asks, through which token and for whom, what decides of the type, and what it says.
use saffui.Base.{
  Bool, ◌&&◌, contains, any, number_keys, ◌==◌, ℕ, ◌≡◌, ◌⊎◌, String, true, false, Option, none,
  some, List, [], get, text_keys,
}
use saffui.Names.{is_role_name}
use saffui.Authz.Schema.{CompiledSchema, ObjectType}
use saffui.Authz.Check.Spec.{Kept, Goal, Stands}
use saffui.Authz.Compile.Schema.{compiled}
use saffui.Authz.Parse.Whole.{compile_schema}
use saffui.Authz.Condition.{SubjectFacts}
use saffui.Authz.Policy.{Policy, permitted_by, weigh_policies}
use saffui.Authz.Decide.{
  DecisionRequest, got, Subject, Claims, Client, Person, GuardedSchema, HeldRole, World, SchemaFor,
  relations, policies,
}

-- A service that asks for itself, or the person of a session.
abbrev pub service : Claims → Client → Subject
service claims client = record {
  facts = record {
    id = client.client_id;
    username = none;
    email = none;
    email_verified = none;
    client_id = claims.client_id;
    scopes = claims.scopes;
    roles = [];
    groups = [];
  };
  object = record { object_type = "client"; object_id = client.client_id };
  person = none;
}

abbrev pub person_speaking : World → Claims → Person → Subject
person_speaking w claims person = record {
  facts = record {
    id = w.id_text person.id;
    username = some person.username;
    email = person.email;
    email_verified = some person.email_verified;
    client_id = claims.client_id;
    scopes = claims.scopes;
    roles = [];
    groups = [];
  };
  object = record { object_type = "user"; object_id = w.id_text person.id };
  person = some person.id;
}

-- Whom the claims of a token name: without a session the enabled client that is its subject; with one the
-- person whose session stands, who is its subject.
pub data Speaks (w : World) (claims : Claims) : Subject → Type 0 where
  for_itself :
      (client : Client)
      → claims.session ≡ none
      → w.read_named_client claims.subject ≡ got (some client)
      → client.enabled ≡ true
      → Speaks w claims (service claims client)
  for_person :
      (session : ℕ) (person : Person)
      → claims.session ≡ some session
      → w.read_live_subject session ≡ got (some person)
      → w.id_text person.id ≡ claims.subject
      → Speaks w claims (person_speaking w claims person)

-- A question of an authenticated client that can be asked, with a token that verifies and names a subject.
pub record Asked (w : World) (q : DecisionRequest) (id : Option String) (client : Client)
    (subject : Subject) : Type 0 where
  pub presented : String
  pub presents : id ≡ some presented
  pub proves : w.authenticate_client presented ≡ got client
  pub token : String
  pub given : q.subject_token ≡ some token
  pub claims : Claims
  pub verified : w.verify_access_token token ≡ got (some claims)
  pub speaks : Speaks w claims subject
  pub action_named : is_role_name q.action ≡ true
  pub type_named : is_role_name q.resource_type ≡ true

-- The schema of a realm: as it was compiled, or compiled from the source that is kept.
pub data Formed (w : World) (read : GuardedSchema) (schema : CompiledSchema) : Type 0 where
  kept_form : read.compiled_form ≡ some schema → Formed w read schema
  from_source :
      (source : String)
      → read.compiled_form ≡ none
      → w.read_relation_schema ≡ got (some source)
      → compile_schema w.written source ≡ some (compiled schema)
      → Formed w read schema

-- What decides of a type for a client: the relations of the schema that defines it and that the client
-- guards; else policies, where no schema is kept, or the one that is read does not define the type or is
-- not guarded.
pub data Chosen (w : World) (client_id resource_type : String) : SchemaFor → Type 0 where
  by_relations :
      (read : GuardedSchema) (schema : CompiledSchema) (t : ObjectType)
      → w.read_guarded_schema resource_type client_id ≡ got (some read)
      → Formed w read schema
      → get schema.types resource_type ≡ some t
      → read.guarded ≡ true
      → Chosen w client_id resource_type (relations schema)
  no_schema :
      w.read_guarded_schema resource_type client_id ≡ got none
      → Chosen w client_id resource_type policies
  apart :
      (read : GuardedSchema) (schema : CompiledSchema)
      → w.read_guarded_schema resource_type client_id ≡ got (some read)
      → Formed w read schema
      → (get schema.types resource_type ≡ none) ⊎ (read.guarded ≡ false)
      → Chosen w client_id resource_type policies

-- A role that is held across the realm, or for the client.
abbrev pub is_role_of : String → ℕ → HeldRole → Bool
is_role_of client_id role held =
    held.role == role && elim held.client_id [ none ↦ true | some owner ↦ owner == client_id ]

-- What is known of a subject: of a person, the roles held for the client and the groups too.
pub data Known (w : World) (client_id : String) (subject : Subject) : SubjectFacts → Type 0 where
  of_service : subject.person ≡ none → Known w client_id subject subject.facts
  of_person :
      (person : ℕ) (held : List HeldRole) (roles groups : List ℕ)
      → subject.person ≡ some person
      → w.read_held_roles person ≡ got held
      → w.read_member_groups person ≡ got groups
      → ((role : ℕ) → contains roles role ≡ any (is_role_of client_id role) held)
      → Known w client_id subject (record subject.facts { roles = roles; groups = groups })

-- What a permission rests on: where relations decide, one that stands on the relations kept between the
-- subject and the object asked for; else a policy of the client that permits the subject, none denying and
-- none being undecided.
pub data IsGrounded (w : World) (kept : Kept) (q : DecisionRequest) (asker : Option String)
    : Type 0 where
  by_relation :
      (client : Client) (subject : Subject) (schema : CompiledSchema) (id : String)
      → Asked w q asker client subject
      → Chosen w client.client_id q.resource_type (relations schema)
      → q.resource_id ≡ some id
      → Stands schema kept subject.object
          (Goal.member (record { object_type = q.resource_type; object_id = id }) q.action)
      → IsGrounded w kept q asker
  by_policy :
      (client : Client) (subject : Subject) (policy : String) (listed : List Policy)
      (facts : SubjectFacts)
      → Asked w q asker client subject
      → Chosen w client.client_id q.resource_type policies
      → w.list_applicable_policies client.client_id q.resource_type q.action ≡ got listed
      → Known w client.client_id subject facts
      → weigh_policies w.readers listed
          (record { subject = facts; resource = q.attributes; now = w.decided_at })
        ≡ permitted_by policy
      → IsGrounded w kept q asker
