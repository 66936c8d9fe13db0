-- ===== src/Authz/Decide/Permits.antt =====
-- The steps of a question of crates/saffui-core/src/authz/decide.rs that permits, from its walk or its
-- policies up to the client that asks.
use saffui.Base.{
  ℕ, ◌≡◌, refl, ap, subst, String, Bool, true, false, Option, none, some, List, [], ◌∷◌, text_keys,
  number_keys, if◌then◌else◌, arith, Bool-cases, inl, inr,
}
use saffui.Errors.{request_invalid}
use saffui.Authz.Schema.{ObjectRef, CompiledSchema, find_member, MemberKind}
use saffui.Authz.Walk.{Walk, found, not_found, undecided, WalkState, Outcome, ok, err, exhausted}
use saffui.Authz.Check.{walk_relations}
use saffui.Authz.Check.Spec.{Kept, Answers}
use saffui.Authz.Check.Answer.{walk-Tells}
use saffui.Authz.Condition.{SubjectFacts}
use saffui.Authz.Policy.{
  Policy, PolicyVerdict, permitted_by, denied_by, undecided_by, no_policy, weigh_policies,
}
use saffui.Authz.Shares.{DecisionShares, take}
use saffui.Authz.Decide.Grounds.{Asked, Chosen, IsGrounded, by_relation, by_policy}
use saffui.Authz.Decide.Origins.{facts_of-Known, read_subject-Speaks, read_schema_for-Chosen}
use saffui.Authz.Decide.{
  DecisionRequest, Answered, got, Decided, decided, stuck, Subject, Client, World, ◌>>=◌,
  read_subject, SchemaFor, unreadable, relations, policies, read_schema_for, decide_by_relations,
  walker_of, decide_walk, decide_object, decide_named, is_object_id, decide_found, failure_of,
}
use saffui.Authz.Decide.Question.{
  decide, decide_in_realm, decide_client, decide_asked, decide_shared, decide_subject,
  decide_answered, decide_schema, decide_by_policies, decide_verdict, told, weigh_listed, facts_of,
  cannot_be_asked,
}

-- An answer that permits.
abbrev pub Permits : Decided → Type 0
Permits (decided d) = d.decision ≡ "permit"
Permits (Decided.failing failure) = ⊥
Permits stuck = ⊥

deny_is_no_permit : ◌≡◌ {A = String} "deny" "permit" → ⊥
deny_is_no_permit p =
    let e : false ≡ true = (text_keys.same_iff "deny" "permit").1 p in absurd (ground (arith, e))

module _ (w : World) (kept : Kept) (q : DecisionRequest)
    (answers : (schema : CompiledSchema) (subject : ObjectRef)
      → Answers (walker_of w schema subject) kept)
    (asker : Option String) where
  module _ (client : Client) (subject : Subject) (asked : Asked w q asker client subject) where
    -- The relations of a schema decide.
    module _ (schema : CompiledSchema)
        (chosen : Chosen w client.client_id q.resource_type (relations schema)) where
      walk-IsGrounded :
          (id : String) (r : Outcome (Walk × WalkState))
          → q.resource_id ≡ some id
          → walk_relations
              (walker_of w schema subject.object)
              (record { object_type = q.resource_type; object_id = id })
              q.action
            ≡ r
          → Permits (decide_walk w r)
          → IsGrounded w kept q asker
      walk-IsGrounded id (ok (found, s)) h e p =
          by_relation client subject schema id asked chosen h (
            walk-Tells (walker_of w schema subject.object) kept (answers schema subject.object)
              (record { object_type = q.resource_type; object_id = id }) q.action found s e)
      walk-IsGrounded id (ok (not_found, s)) h e p = absurd (deny_is_no_permit p)
      walk-IsGrounded id (ok (undecided limit, s)) h e p = absurd (deny_is_no_permit p)
      walk-IsGrounded id (err x) h e p = absurd p
      walk-IsGrounded id exhausted h e p = absurd p

      object-IsGrounded :
          (id : String) (member : Option MemberKind)
          → q.resource_id ≡ some id
          → find_member schema q.resource_type q.action ≡ member
          → Permits (decide_object w schema q subject.object id)
          → IsGrounded w kept q asker
      object-IsGrounded id none h e p =
          absurd
            (deny_is_no_permit (subst Permits (ap (decide_found w schema q subject.object id) e) p))
      object-IsGrounded id (some m) h e p =
          walk-IsGrounded id _ h refl
            (subst Permits (ap (decide_found w schema q subject.object id) e) p)

      relations-IsGrounded :
          (id : Option String)
          → q.resource_id ≡ id
          → Permits (decide_named w schema q subject.object id)
          → IsGrounded w kept q asker
      relations-IsGrounded none h p = absurd p
      relations-IsGrounded (some id) h p =
          let of_test : Bool → Type 0 = λ c. Permits (
            if c
            then decide_object w schema q subject.object id
            else Decided.failing (failure_of request_invalid)) in
          elim (Bool-cases (is_object_id id)) [
            | inl b ↦
                object-IsGrounded id (find_member schema q.resource_type q.action) h refl
                  (subst of_test b p)
            | inr b ↦ absurd (subst of_test b p)
          ]

    -- Policies decide.
    module _ (chosen : Chosen w client.client_id q.resource_type policies) where
      verdict-IsGrounded :
          (listed : List Policy) (facts : SubjectFacts) (v : PolicyVerdict)
          → w.list_applicable_policies client.client_id q.resource_type q.action ≡ got listed
          → facts_of w client.client_id subject.facts subject.person ≡ got facts
          → weigh_policies w.readers listed
              (record { subject = facts; resource = q.attributes; now = w.decided_at })
            ≡ v
          → (decide_verdict v).decision ≡ "permit"
          → IsGrounded w kept q asker
      verdict-IsGrounded listed facts (permitted_by policy) h f e p =
          by_policy client subject policy listed facts asked chosen h
            (facts_of-Known w client.client_id subject facts f) e
      verdict-IsGrounded listed facts (denied_by policy) h f e p = absurd (deny_is_no_permit p)
      verdict-IsGrounded listed facts (undecided_by policy) h f e p = absurd (deny_is_no_permit p)
      verdict-IsGrounded listed facts no_policy h f e p = absurd (deny_is_no_permit p)

      facts-IsGrounded :
          (listed : List Policy) (f : Answered SubjectFacts)
          → w.list_applicable_policies client.client_id q.resource_type q.action ≡ got listed
          → facts_of w client.client_id subject.facts subject.person ≡ f
          → Permits (
              told (
                f >>= λ facts. got (
                  decide_verdict (
                    weigh_policies w.readers listed
                      (record { subject = facts; resource = q.attributes; now = w.decided_at })))))
          → IsGrounded w kept q asker
      facts-IsGrounded listed (Answered.failing failure) h f p = absurd p
      facts-IsGrounded listed (got facts) h f p = verdict-IsGrounded listed facts _ h f refl p

      listed-IsGrounded :
          (l : Answered (List Policy))
          → w.list_applicable_policies client.client_id q.resource_type q.action ≡ l
          → Permits (told (l >>= weigh_listed w client.client_id q subject))
          → IsGrounded w kept q asker
      listed-IsGrounded (Answered.failing failure) h p = absurd p
      listed-IsGrounded (got []) h p = absurd (deny_is_no_permit p)
      listed-IsGrounded (got (x ∷ xs)) h p =
          facts-IsGrounded (x ∷ xs) (facts_of w client.client_id subject.facts subject.person) h
            refl p

    schema-IsGrounded :
        (s : SchemaFor)
        → read_schema_for w client.client_id q.resource_type ≡ got s
        → Permits (decide_schema w client.client_id q subject s)
        → IsGrounded w kept q asker
    unfolding decide_by_relations decide_by_policies
    schema-IsGrounded unreadable h p = absurd (deny_is_no_permit p)
    schema-IsGrounded (relations schema) h p =
        relations-IsGrounded schema
          (read_schema_for-Chosen w client.client_id q.resource_type (relations schema) h
            (λ e. absurd (cc e)))
          q.resource_id refl p
    schema-IsGrounded policies h p =
        listed-IsGrounded
          (read_schema_for-Chosen w client.client_id q.resource_type policies h
            (λ e. absurd (cc e)))
          _ refl p

    answered-IsGrounded :
        (a : Answered SchemaFor)
        → read_schema_for w client.client_id q.resource_type ≡ a
        → Permits (decide_answered w client.client_id q subject a)
        → IsGrounded w kept q asker
    answered-IsGrounded (got s) h p = schema-IsGrounded s h p
    answered-IsGrounded (Answered.failing failure) h p = absurd p

  -- A client that is authenticated asks what can be asked.
  module _ (presented : String) (presents : asker ≡ some presented) (client : Client)
      (proves : w.authenticate_client presented ≡ got client) (token : String)
      (given : q.subject_token ≡ some token) (askable : cannot_be_asked w q ≡ false) where
    subject-IsGrounded :
        (a : Answered (Option Subject))
        → read_subject w token ≡ a
        → Permits (decide_subject w client.client_id q a)
        → IsGrounded w kept q asker
    subject-IsGrounded (Answered.failing failure) h p = absurd p
    subject-IsGrounded (got none) h p = absurd (deny_is_no_permit p)
    subject-IsGrounded (got (some subject)) h p =
        let (claims, verified, speaks) = read_subject-Speaks w token subject h in
        answered-IsGrounded client subject
          (record {
            presented = presented;
            presents = presents;
            proves = proves;
            token = token;
            given = given;
            claims = claims;
            verified = verified;
            speaks = speaks;
            action_named = ground (arith, askable);
            type_named = ground (arith, askable);
          })
          (read_schema_for w client.client_id q.resource_type) refl p

    shared-IsGrounded :
        (tenant : ℕ) (shares : DecisionShares) (o : Option DecisionShares)
        → Permits (decide_shared w client.client_id q token tenant shares o).0
        → IsGrounded w kept q asker
    shared-IsGrounded tenant shares none p = absurd p
    shared-IsGrounded tenant shares (some s) p = subject-IsGrounded (read_subject w token) refl p

  asked-IsGrounded :
      (presented : String) (client : Client) (tenant : ℕ) (shares : DecisionShares)
      (token : Option String)
      → asker ≡ some presented
      → w.authenticate_client presented ≡ got client
      → q.subject_token ≡ token
      → Permits (decide_asked w client.client_id q tenant shares token).0
      → IsGrounded w kept q asker
  asked-IsGrounded presented client tenant shares none i a g p = absurd p
  asked-IsGrounded presented client tenant shares (some token) i a g p =
      let of_test : Bool → Type 0 = λ c.
        Permits
          (if c
            then (Decided.failing (failure_of request_invalid), shares)
            else decide_shared w client.client_id q token tenant shares (take shares tenant)).0 in
      elim (Bool-cases (cannot_be_asked w q)) [
        | inl b ↦ absurd (subst of_test b p)
        | inr b ↦
            shared-IsGrounded presented i client a token g b tenant shares (take shares tenant)
              (subst of_test b p)
      ]

  client-IsGrounded :
      (presented : String) (tenant : ℕ) (shares : DecisionShares) (a : Answered Client)
      → asker ≡ some presented
      → w.authenticate_client presented ≡ a
      → Permits (decide_client w q tenant shares a).0
      → IsGrounded w kept q asker
  client-IsGrounded presented tenant shares (Answered.failing failure) i e p = absurd p
  client-IsGrounded presented tenant shares (got client) i e p =
      asked-IsGrounded presented client tenant shares q.subject_token i e refl p

  realm-IsGrounded :
      (client_id : Option String) (shares : DecisionShares) (a : Answered ℕ)
      → asker ≡ client_id
      → Permits (decide_in_realm w client_id q shares a).0
      → IsGrounded w kept q asker
  realm-IsGrounded client_id shares (Answered.failing failure) i p = absurd p
  realm-IsGrounded none shares (got tenant) i p = absurd p
  realm-IsGrounded (some client_id) shares (got tenant) i p =
      client-IsGrounded client_id tenant shares (w.authenticate_client client_id) i refl p

  -- A question is permitted only to a client that is authenticated, for the subject that the token it
  -- brings is of: the enabled client that its claims name, or the person whose session stands and whom
  -- they name. Where the schema that is read defines the type and is guarded for the client, it is by a
  -- relation of this subject to the object asked for that stands on the relations kept; where no schema is
  -- kept, or the one that is read does not define the type or is not guarded, by a policy of the client
  -- for this type and this action that permits the subject, where none denies and none cannot tell. The
  -- storage answers from the relations kept, or fails.
  pub decide-IsGrounded :
      (shares : DecisionShares) → Permits (decide w asker q shares).0 → IsGrounded w kept q asker
  unfolding decide
  decide-IsGrounded shares p = realm-IsGrounded asker shares w.resolve_realm refl p
