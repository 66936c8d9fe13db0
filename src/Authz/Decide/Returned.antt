-- ===== src/Authz/Decide/Returned.antt =====
-- The answers to a question to crates/saffui-core/src/authz/decide.rs, and its share, on every path.
use saffui.Base.{
  ℕ, ◌≡◌, ◌≢◌, refl, String, Bool, true, false, Option, none, some, if◌then◌else◌, number_keys,
  text_keys,
}
use saffui.Counts.{held}
use saffui.Authz.Schema.{ObjectRef, CompiledSchema, find_member, MemberKind}
use saffui.Authz.Walk.{Walk, found, not_found, undecided, WalkState, Outcome, ok, err, exhausted}
use saffui.Authz.Check.Bounds.{walk_within_bounds}
use saffui.Authz.Shares.{DecisionShares, take}
use saffui.Authz.Shares.Accounts.{take-drop_share}
use saffui.Errors.{request_invalid}
use saffui.Authz.Decide.{
  DecisionRequest, Decision, Answered, got, Decided, decided, stuck, Subject, Client, World,
  read_subject, SchemaFor, unreadable, relations, policies, read_schema_for, decide_by_relations,
  walker_of, decide_walk, decide_found, decide_named, decide_object, is_object_id, failure_of,
}
use saffui.Authz.Decide.Question.{
  decide, decide_in_realm, decide_client, decide_asked, decide_shared, decide_subject,
  decide_answered, decide_schema, decide_by_policies, told, cannot_be_asked,
}

-- An answer or a failure.
abbrev pub IsAnswer : Decided → Type 0
IsAnswer (decided d) = Unit
IsAnswer (Decided.failing failure) = Unit
IsAnswer stuck = ⊥

abbrev pub SameCounts : DecisionShares → DecisionShares → Type 0
SameCounts s t = (t.node ≡ s.node) × ((tenant : ℕ) → held t.tenants tenant ≡ held s.tenants tenant)

-- What a question leaves of the shares, with an answer.
abbrev pub Returns : DecisionShares → Decided × DecisionShares → Type 0
Returns s r = IsAnswer r.0 × SameCounts s r.1

same : (s : DecisionShares) → SameCounts s s
same s = (refl, λ tenant. refl)

module _ (w : World) (q : DecisionRequest) where
  walk_answers : (r : Outcome (Walk × WalkState)) → r ≢ exhausted → IsAnswer (decide_walk w r)
  walk_answers (ok (found, s)) h = tt
  walk_answers (ok (not_found, s)) h = tt
  walk_answers (ok (undecided limit, s)) h = tt
  walk_answers (err e) h = tt
  walk_answers exhausted h = absurd (h refl)

  found_answers :
      (schema : CompiledSchema) (subject : ObjectRef) (id : String) (member : Option MemberKind)
      → IsAnswer (decide_found w schema q subject id member)
  found_answers schema subject id none = tt
  found_answers schema subject id (some m) =
      walk_answers _
        (walk_within_bounds (walker_of w schema subject)
          (record { object_type = q.resource_type; object_id = id }) q.action).0

  if_answers : (b : Bool) (x y : Decided) → IsAnswer x → IsAnswer y → IsAnswer (if b then x else y)
  if_answers true x y h k = h
  if_answers false x y h k = k

  named_answers :
      (schema : CompiledSchema) (subject : ObjectRef) (id : Option String)
      → IsAnswer (decide_named w schema q subject id)
  named_answers schema subject none = tt
  named_answers schema subject (some id) =
      if_answers (is_object_id id) (decide_object w schema q subject id)
        (Decided.failing (failure_of request_invalid))
        (found_answers schema subject id (find_member schema q.resource_type q.action)) tt

  told_answers : (a : Answered Decision) → IsAnswer (told a)
  told_answers (got d) = tt
  told_answers (Answered.failing failure) = tt

  schema_answers :
      (client_id : String) (subject : Subject) (s : SchemaFor)
      → IsAnswer (decide_schema w client_id q subject s)
  unfolding decide_by_relations
  schema_answers client_id subject unreadable = tt
  schema_answers client_id subject (relations schema) =
      named_answers schema subject.object q.resource_id
  schema_answers client_id subject policies =
      told_answers (decide_by_policies w client_id q subject)

  answered_answers :
      (client_id : String) (subject : Subject) (a : Answered SchemaFor)
      → IsAnswer (decide_answered w client_id q subject a)
  answered_answers client_id subject (got s) = schema_answers client_id subject s
  answered_answers client_id subject (Answered.failing failure) = tt

  subject_answers :
      (client_id : String) (a : Answered (Option Subject))
      → IsAnswer (decide_subject w client_id q a)
  subject_answers client_id (Answered.failing failure) = tt
  subject_answers client_id (got none) = tt
  subject_answers client_id (got (some subject)) =
      answered_answers client_id subject (read_schema_for w client_id q.resource_type)

  shared-Returns :
      (client_id token : String) (tenant : ℕ) (shares : DecisionShares) (o : Option DecisionShares)
      → take shares tenant ≡ o
      → Returns shares (decide_shared w client_id q token tenant shares o)
  shared-Returns client_id token tenant shares none e = (tt, same shares)
  shared-Returns client_id token tenant shares (some s) e =
      (subject_answers client_id (read_subject w token), take-drop_share shares s tenant e)

  if_Returns :
      (s : DecisionShares) (b : Bool) (x y : Decided × DecisionShares)
      → Returns s x
      → Returns s y
      → Returns s (if b then x else y)
  if_Returns s true x y h k = h
  if_Returns s false x y h k = k

  asked-Returns :
      (client_id : String) (tenant : ℕ) (shares : DecisionShares) (token : Option String)
      → Returns shares (decide_asked w client_id q tenant shares token)
  asked-Returns client_id tenant shares none = (tt, same shares)
  asked-Returns client_id tenant shares (some token) =
      if_Returns shares (cannot_be_asked w q) (Decided.failing (failure_of request_invalid), shares)
        (decide_shared w client_id q token tenant shares (take shares tenant)) (tt, same shares)
        (shared-Returns client_id token tenant shares (take shares tenant) refl)

  client-Returns :
      (tenant : ℕ) (shares : DecisionShares) (a : Answered Client)
      → Returns shares (decide_client w q tenant shares a)
  client-Returns tenant shares (Answered.failing failure) = (tt, same shares)
  client-Returns tenant shares (got client) =
      asked-Returns client.client_id tenant shares q.subject_token

  realm-Returns :
      (client_id : Option String) (shares : DecisionShares) (a : Answered ℕ)
      → Returns shares (decide_in_realm w client_id q shares a)
  realm-Returns client_id shares (Answered.failing failure) = (tt, same shares)
  realm-Returns none shares (got tenant) = (tt, same shares)
  realm-Returns (some client_id) shares (got tenant) =
      client-Returns tenant shares (w.authenticate_client client_id)

-- Every question ends with a decision or a failure, and leaves the counts of the questions of the node
-- and of each tenant as it found them, errors included.
pub decide-Returns :
    (w : World) (q : DecisionRequest) (client_id : Option String) (shares : DecisionShares)
    → Returns shares (decide w client_id q shares)
unfolding decide
decide-Returns w q client_id shares = realm-Returns w q client_id shares w.resolve_realm
