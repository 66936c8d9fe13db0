-- ===== src/Authz/Decide/Origins.antt =====
-- Where the subject of a question and what decides of its type come from: `read_subject` and
-- `read_schema_for` of crates/saffui-core/src/authz/decide.rs against the grounds of a permission.
use saffui.Base.{
  List, [], ◌∷◌, contains, any, number_keys, ℕ, ◌≡◌, ◌≢◌, refl, subst, String, ◌||◌, Option, none,
  some, arith, text_keys, ◌==◌, get, Bool-cases, Option-cases, inl, inr,
}
use saffui.Authz.Schema.{CompiledSchema}
use saffui.Authz.Compile.Schema.{Compiled, compiled}
use saffui.Authz.Parse.Whole.{compile_schema}
use saffui.Authz.Decide.{
  Answered, got, Subject, Claims, Client, Person, GuardedSchema, HeldRole, World, ◌>>=◌,
  subject_client, subject_person, subject_of, subject_claimed, read_subject, SchemaFor, unreadable,
  relations, policies, schema_of_source, read_form, schema_for, schema_guarded, read_schema_for,
}
use saffui.Authz.Condition.{SubjectFacts}
use saffui.Authz.Decide.Question.{insert_role, roles_for, facts_of}
use saffui.Authz.Decide.Grounds.{
  is_role_of, Known, of_service, of_person, service, person_speaking, Speaks, for_itself,
  for_person, Formed, kept_form, from_source, Chosen, by_relations, no_schema, apart,
}

contains-insert_role :
    (role r : ℕ) (roles : List ℕ)
    → contains (insert_role r roles) role ≡ (r == role || contains roles role)
contains-insert_role role r [] = ground arith
contains-insert_role role r (x ∷ rest) = ground (arith, contains-insert_role role r rest)

contains-roles_for :
    (client_id : String) (role : ℕ) (held : List HeldRole)
    → contains (roles_for client_id held) role ≡ any (is_role_of client_id role) held
contains-roles_for client_id role [] = refl
contains-roles_for client_id role (h ∷ held) = elim (Option-cases h.client_id) [
  | inl e ↦ rw e (
      ground (
        arith,
        contains-roles_for client_id role held,
        contains-insert_role role h.role (roles_for client_id held),
      ))
  | inr (owner, e) ↦ rw e (
      ground (
        arith,
        contains-roles_for client_id role held,
        contains-insert_role role h.role (roles_for client_id held),
      ))
]

module _ (w : World) where
  groups-Known :
      (client_id : String) (subject : Subject) (facts : SubjectFacts) (person : ℕ)
      (a : Answered (List HeldRole)) (b : Answered (List ℕ))
      → subject.person ≡ some person
      → w.read_held_roles person ≡ a
      → w.read_member_groups person ≡ b
      → (a >>= λ held. b >>= λ groups.
          got (record subject.facts { roles = roles_for client_id held; groups = groups }))
        ≡ got facts
      → Known w client_id subject facts
  groups-Known client_id subject facts person (Answered.failing x) b p e f h = absurd (cc)
  groups-Known client_id subject facts person (got held) (Answered.failing x) p e f h = absurd (cc)
  groups-Known client_id subject facts person (got held) (got groups) p e f h =
      let same : (record subject.facts { roles = roles_for client_id held; groups = groups })
          ≡ facts =
        ground (arith, h) in
      subst (Known w client_id subject) same (
        of_person person held (roles_for client_id held) groups p e f
          (λ role. contains-roles_for client_id role held))

  facts-Known :
      (client_id : String) (subject : Subject) (facts : SubjectFacts) (o : Option ℕ)
      → subject.person ≡ o
      → facts_of w client_id subject.facts o ≡ got facts
      → Known w client_id subject facts
  facts-Known client_id subject facts none p h =
      subst (Known w client_id subject) (ground (arith, h)) (of_service p)
  facts-Known client_id subject facts (some person) p h =
      groups-Known client_id subject facts person (w.read_held_roles person)
        (w.read_member_groups person) p refl refl h

  pub facts_of-Known :
      (client_id : String) (subject : Subject) (facts : SubjectFacts)
      → facts_of w client_id subject.facts subject.person ≡ got facts
      → Known w client_id subject facts
  facts_of-Known client_id subject facts h =
      facts-Known client_id subject facts subject.person refl h

  client-Speaks :
      (claims : Claims) (subject : Subject) (a : Answered (Option Client))
      → claims.session ≡ none
      → w.read_named_client claims.subject ≡ a
      → (a >>= λ client. got (subject_client claims client)) ≡ got (some subject)
      → Speaks w claims subject
  client-Speaks claims subject (Answered.failing failure) n e h = absurd (cc)
  client-Speaks claims subject (got none) n e h = absurd (cc)
  client-Speaks claims subject (got (some client)) n e h = elim (Bool-cases client.enabled) [
    | inl b ↦
        let same : service claims client ≡ subject = ground (arith, h, b) in
        subst (Speaks w claims) same (for_itself client n e b)
    | inr b ↦ absurd (ground (arith, h, b))
  ]

  person-Speaks :
      (claims : Claims) (subject : Subject) (session : ℕ) (a : Answered (Option Person))
      → claims.session ≡ some session
      → w.read_live_subject session ≡ a
      → (a >>= λ person. got (subject_person w claims person)) ≡ got (some subject)
      → Speaks w claims subject
  person-Speaks claims subject session (Answered.failing failure) n e h = absurd (cc)
  person-Speaks claims subject session (got none) n e h = absurd (cc)
  person-Speaks claims subject session (got (some person)) n e h =
      elim (Bool-cases (w.id_text person.id == claims.subject)) [
        | inl b ↦
            let same : person_speaking w claims person ≡ subject = ground (arith, h, b) in
            subst (Speaks w claims) same (
              for_person session person n e
                ((text_keys.same_iff (w.id_text person.id) claims.subject).0 b))
        | inr b ↦ absurd (ground (arith, h, b))
      ]

  subject-Speaks :
      (claims : Claims) (subject : Subject) (o : Option ℕ)
      → claims.session ≡ o
      → subject_of w claims o ≡ got (some subject)
      → Speaks w claims subject
  subject-Speaks claims subject none n h =
      client-Speaks claims subject (w.read_named_client claims.subject) n refl h
  subject-Speaks claims subject (some session) n h =
      person-Speaks claims subject session (w.read_live_subject session) n refl h

  claimed-Speaks :
      (token : String) (subject : Subject) (a : Answered (Option Claims))
      → w.verify_access_token token ≡ a
      → (a >>= subject_claimed w) ≡ got (some subject)
      → (claims : Claims) × (w.verify_access_token token ≡ got (some claims))
        × Speaks w claims subject
  claimed-Speaks token subject (Answered.failing failure) e h = absurd (cc)
  claimed-Speaks token subject (got none) e h = absurd (cc)
  claimed-Speaks token subject (got (some claims)) e h =
      (claims, e, subject-Speaks claims subject claims.session refl h)

  pub read_subject-Speaks :
      (token : String) (subject : Subject)
      → read_subject w token ≡ got (some subject)
      → (claims : Claims) × (w.verify_access_token token ≡ got (some claims))
        × Speaks w claims subject
  unfolding read_subject
  read_subject-Speaks token subject h =
      claimed-Speaks token subject (w.verify_access_token token) refl h

  -- A form that is read is the one kept, or compiled from the source.
  source-Formed :
      (read : GuardedSchema) (schema : CompiledSchema) (a : Answered (Option String))
      → read.compiled_form ≡ none
      → w.read_relation_schema ≡ a
      → (a >>= λ source. got (schema_of_source w source)) ≡ got (some schema)
      → Formed w read schema
  source-Formed read schema (Answered.failing failure) n e h = absurd (cc)
  source-Formed read schema (got none) n e h = absurd (cc)
  source-Formed read schema (got (some source)) n e h =
      compiled_of (compile_schema w.written source) refl h
    where
      compiled_of :
          (o : Option Compiled)
          → compile_schema w.written source ≡ o
          → ◌≡◌ {A = Answered (Option CompiledSchema)}
              (got (elim o [ some (compiled schema) ↦ some schema | _ ↦ none ]))
              (got (some schema))
          → Formed w read schema
      compiled_of (some (compiled other)) c k =
          from_source source n e
            (subst (λ x. compile_schema w.written source ≡ some (compiled x)) (ground (arith, k)) c)
      compiled_of (some _) c k = absurd (cc)
      compiled_of none c k = absurd (cc)

  form-Formed :
      (read : GuardedSchema) (schema : CompiledSchema) (o : Option CompiledSchema)
      → read.compiled_form ≡ o
      → read_form w o ≡ got (some schema)
      → Formed w read schema
  form-Formed read schema (some form) n h = subst (Formed w read) (ground (arith, h)) (kept_form n)
  form-Formed read schema none n h = source-Formed read schema w.read_relation_schema n refl h

  -- What is chosen once a form is read.
  form-Chosen :
      (client_id resource_type : String) (read : GuardedSchema)
      (a : Answered (Option CompiledSchema)) (s : SchemaFor)
      → w.read_guarded_schema resource_type client_id ≡ got (some read)
      → read_form w read.compiled_form ≡ a
      → (a >>= λ schema. got (schema_for resource_type read.guarded schema)) ≡ got s
      → s ≢ unreadable
      → Chosen w client_id resource_type s
  form-Chosen client_id type read (Answered.failing failure) s g e h u = absurd (cc)
  form-Chosen client_id type read (got none) s g e h u = absurd (u (ground (arith, h)))
  form-Chosen client_id type read (got (some schema)) s g e h u =
      let formed = form-Formed read schema read.compiled_form refl e in
      elim (Option-cases (get schema.types type)) [
        | inl n ↦
            let same : policies ≡ s = ground (arith, h, n) in
            subst (Chosen w client_id type) same (apart read schema g formed (inl n))
        | inr (t, n) ↦ elim (Bool-cases read.guarded) [
          | inl b ↦
              let same : relations schema ≡ s = ground (arith, h, n, b) in
              subst (Chosen w client_id type) same (by_relations read schema t g formed n b)
          | inr b ↦
              let same : policies ≡ s = ground (arith, h, n, b) in
              subst (Chosen w client_id type) same (apart read schema g formed (inr b))
        ]
      ]

  guarded-Chosen :
      (client_id resource_type : String) (a : Answered (Option GuardedSchema)) (s : SchemaFor)
      → w.read_guarded_schema resource_type client_id ≡ a
      → (a >>= schema_guarded w resource_type) ≡ got s
      → s ≢ unreadable
      → Chosen w client_id resource_type s
  guarded-Chosen client_id type (Answered.failing failure) s e h u = absurd (cc)
  guarded-Chosen client_id type (got none) s e h u =
      let same : policies ≡ s = ground (arith, h) in
      subst (Chosen w client_id type) same (no_schema e)
  guarded-Chosen client_id type (got (some read)) s e h u =
      form-Chosen client_id type read (read_form w read.compiled_form) s e refl h u

  pub read_schema_for-Chosen :
      (client_id resource_type : String) (s : SchemaFor)
      → read_schema_for w client_id resource_type ≡ got s
      → s ≢ unreadable
      → Chosen w client_id resource_type s
  unfolding read_schema_for
  read_schema_for-Chosen client_id type s h u =
      guarded-Chosen client_id type (w.read_guarded_schema type client_id) s refl h u
