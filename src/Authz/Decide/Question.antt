-- ===== src/Authz/Decide/Question.antt =====
-- One question to the point of decision: `decide_by_policies` and `decide` of
-- crates/saffui-core/src/authz/decide.rs. The shares of the questions are passed on; the share that
-- is taken is given back where the function returns.
use saffui.Base.{
  ℕ, String, Bool, true, not, ◌||◌, Option, none, some, List, [], ◌∷◌, ltb, text_keys, number_keys,
  ◌==◌, if◌then◌else◌, is_empty,
}
use saffui.Names.{is_role_name}
use saffui.Errors.{request_invalid, client_authentication_failed, storage_unavailable}
use saffui.Authz.Condition.{SubjectFacts}
use saffui.Authz.Policy.{
  Policy, PolicyVerdict, permitted_by, denied_by, undecided_by, no_policy, weigh_policies,
}
use saffui.Authz.Shares.{DecisionShares, take, drop_share}
use saffui.Authz.Decide.{
  DecisionRequest, Decision, permit, deny, Answered, got, Decided, decided, Subject, Client,
  HeldRole, World, ◌>>=◌, read_subject, SchemaFor, unreadable, relations, policies, read_schema_for,
  decide_by_relations, failure_of, max_attributes_bytes,
}

abbrev pub is_of : String → Option String → Bool
is_of client_id none = true
is_of client_id (some owner) = owner == client_id

-- `sort_unstable` and `dedup`
abbrev pub insert_role : ℕ → List ℕ → List ℕ
insert_role r [] = r ∷ []
insert_role r (s ∷ rest) =
    if ltb r s then r ∷ s ∷ rest else if r == s then s ∷ rest else s ∷ insert_role r rest

abbrev pub roles_for : String → List HeldRole → List ℕ
roles_for client_id [] = []
roles_for client_id (held ∷ rest) =
    let roles = roles_for client_id rest in
    if is_of client_id held.client_id then insert_role held.role roles else roles

abbrev pub facts_of : World → String → SubjectFacts → Option ℕ → Answered SubjectFacts
facts_of w client_id facts none = got facts
facts_of w client_id facts (some person) = w.read_held_roles person >>= λ held.
    w.read_member_groups person >>= λ groups.
    got (record facts { roles = roles_for client_id held; groups = groups })

abbrev pub decide_verdict : PolicyVerdict → Decision
decide_verdict (permitted_by name) = permit "policy" (some name)
decide_verdict (denied_by name) = deny "policy" (some name)
decide_verdict (undecided_by name) = deny "undecided" (some name)
decide_verdict no_policy = deny "no_policy" none

abbrev pub weigh_listed :
    World → String → DecisionRequest → Subject → List Policy → Answered Decision
weigh_listed w client_id q subject listed =
    if is_empty listed
    then got (deny "no_policy" none)
    else facts_of w client_id subject.facts subject.person >>= λ facts. got (
        decide_verdict (
          weigh_policies w.readers listed
            (record { subject = facts; resource = q.attributes; now = w.decided_at })))

unfoldable pub decide_by_policies : World → String → DecisionRequest → Subject → Answered Decision
decide_by_policies w client_id q subject =
    w.list_applicable_policies client_id q.resource_type q.action
    >>= weigh_listed w client_id q subject

-- What an answer is to the caller.
abbrev pub told : Answered Decision → Decided
told (got decision) = decided decision
told (Answered.failing failure) = Decided.failing failure

abbrev pub decide_schema : World → String → DecisionRequest → Subject → SchemaFor → Decided
decide_schema w client_id q subject unreadable = decided (deny "schema_unreadable" none)
decide_schema w client_id q subject (relations schema) =
    decide_by_relations w schema q subject.object
decide_schema w client_id q subject policies = told (decide_by_policies w client_id q subject)

abbrev pub decide_answered :
    World → String → DecisionRequest → Subject → Answered SchemaFor → Decided
decide_answered w client_id q subject (got schema) = decide_schema w client_id q subject schema
decide_answered w client_id q subject (Answered.failing failure) = Decided.failing failure

abbrev pub decide_subject : World → String → DecisionRequest → Answered (Option Subject) → Decided
decide_subject w client_id q (Answered.failing failure) = Decided.failing failure
decide_subject w client_id q (got none) = decided (deny "subject_unknown" none)
decide_subject w client_id q (got (some subject)) =
    decide_answered w client_id q subject (read_schema_for w client_id q.resource_type)

abbrev pub cannot_be_asked : World → DecisionRequest → Bool
cannot_be_asked w q =
    not (is_role_name q.action)
    || not (is_role_name q.resource_type)
    || ltb max_attributes_bytes (w.written_attributes q.attributes)

-- With the share that was taken of the tenant, or none past its share.
abbrev pub decide_shared :
    World
    → String
    → DecisionRequest
    → String
    → ℕ
    → DecisionShares
    → Option DecisionShares
    → Decided × DecisionShares
decide_shared w client_id q token tenant shares none =
    (Decided.failing (failure_of storage_unavailable), shares)
decide_shared w client_id q token tenant shares (some held) =
    (decide_subject w client_id q (read_subject w token), drop_share held tenant)

abbrev pub decide_asked :
    World → String → DecisionRequest → ℕ → DecisionShares → Option String → Decided × DecisionShares
decide_asked w client_id q tenant shares none =
    (Decided.failing (failure_of request_invalid), shares)
decide_asked w client_id q tenant shares (some token) =
    if cannot_be_asked w q
    then (Decided.failing (failure_of request_invalid), shares)
    else decide_shared w client_id q token tenant shares (take shares tenant)

abbrev pub decide_client :
    World → DecisionRequest → ℕ → DecisionShares → Answered Client → Decided × DecisionShares
decide_client w q tenant shares (Answered.failing failure) = (Decided.failing failure, shares)
decide_client w q tenant shares (got client) =
    decide_asked w client.client_id q tenant shares q.subject_token

abbrev pub decide_in_realm :
    World → Option String → DecisionRequest → DecisionShares → Answered ℕ → Decided × DecisionShares
decide_in_realm w client_id q shares (Answered.failing failure) = (Decided.failing failure, shares)
decide_in_realm w none q shares (got tenant) =
    (Decided.failing (failure_of client_authentication_failed), shares)
decide_in_realm w (some client_id) q shares (got tenant) =
    decide_client w q tenant shares (w.authenticate_client client_id)

-- The identifier of the client is none where the client or its secret is not given.
unfoldable pub decide :
    World → Option String → DecisionRequest → DecisionShares → Decided × DecisionShares
decide w client_id q shares = decide_in_realm w client_id q shares w.resolve_realm
