-- ===== src/Audit/Kinds.antt =====
-- The kinds of the events of the audit chain: crates/saffui-core/src/audit/mod.rs.
use saffui.Base.{◌≡◌, refl, String, Option, some, ap, sym, ◌∙◌, List, [], ◌∷◌, get, text_keys}

pub data EventKind : Type 0 where
  realm_created : EventKind
  signing_key_created : EventKind
  client_created : EventKind
  token_issued : EventKind
  person_created : EventKind
  person_unlocked : EventKind
  session_opened : EventKind
  session_ended : EventKind
  token_revoked : EventKind
  authenticator_enrolled : EventKind
  authenticator_removed : EventKind
  codes_suspended : EventKind
  codes_resumed : EventKind
  key_copy_suspected : EventKind
  role_created : EventKind
  role_deleted : EventKind
  group_created : EventKind
  group_deleted : EventKind
  role_granted : EventKind
  role_revoked : EventKind
  member_added : EventKind
  member_removed : EventKind
  relation_schema_written : EventKind
  relation_written : EventKind
  relation_deleted : EventKind
  relation_guard_written : EventKind
  relation_guard_deleted : EventKind
  policy_created : EventKind
  policy_deleted : EventKind
  consent_granted : EventKind
  consent_withdrawn : EventKind

abbrev pub name : EventKind → String
name realm_created = "realm.created"
name signing_key_created = "key.created"
name client_created = "client.created"
name token_issued = "token.issued"
name person_created = "person.created"
name person_unlocked = "person.unlocked"
name session_opened = "session.opened"
name session_ended = "session.ended"
name token_revoked = "token.revoked"
name authenticator_enrolled = "authenticator.enrolled"
name authenticator_removed = "authenticator.removed"
name codes_suspended = "authenticator.codes_suspended"
name codes_resumed = "authenticator.codes_resumed"
name key_copy_suspected = "authenticator.key_copy_suspected"
name role_created = "role.created"
name role_deleted = "role.deleted"
name group_created = "group.created"
name group_deleted = "group.deleted"
name role_granted = "role.granted"
name role_revoked = "role.revoked"
name member_added = "group.member_added"
name member_removed = "group.member_removed"
name relation_schema_written = "relation.schema_written"
name relation_written = "relation.written"
name relation_deleted = "relation.deleted"
name relation_guard_written = "relation.guard_written"
name relation_guard_deleted = "relation.guard_deleted"
name policy_created = "policy.created"
name policy_deleted = "policy.deleted"
name consent_granted = "consent.granted"
name consent_withdrawn = "consent.withdrawn"

-- The kinds by their names.
pub names : List (String × EventKind)
names =
    ("realm.created", realm_created)
    ∷ ("key.created", signing_key_created)
    ∷ ("client.created", client_created)
    ∷ ("token.issued", token_issued)
    ∷ ("person.created", person_created)
    ∷ ("person.unlocked", person_unlocked)
    ∷ ("session.opened", session_opened)
    ∷ ("session.ended", session_ended)
    ∷ ("token.revoked", token_revoked)
    ∷ ("authenticator.enrolled", authenticator_enrolled)
    ∷ ("authenticator.removed", authenticator_removed)
    ∷ ("authenticator.codes_suspended", codes_suspended)
    ∷ ("authenticator.codes_resumed", codes_resumed)
    ∷ ("authenticator.key_copy_suspected", key_copy_suspected)
    ∷ ("role.created", role_created)
    ∷ ("role.deleted", role_deleted)
    ∷ ("group.created", group_created)
    ∷ ("group.deleted", group_deleted)
    ∷ ("role.granted", role_granted)
    ∷ ("role.revoked", role_revoked)
    ∷ ("group.member_added", member_added)
    ∷ ("group.member_removed", member_removed)
    ∷ ("relation.schema_written", relation_schema_written)
    ∷ ("relation.written", relation_written)
    ∷ ("relation.deleted", relation_deleted)
    ∷ ("relation.guard_written", relation_guard_written)
    ∷ ("relation.guard_deleted", relation_guard_deleted)
    ∷ ("policy.created", policy_created)
    ∷ ("policy.deleted", policy_deleted)
    ∷ ("consent.granted", consent_granted)
    ∷ ("consent.withdrawn", consent_withdrawn)
    ∷ []

pub read_kind : String → Option EventKind
unfolding names
read_kind text = get names text

read-name : (kind : EventKind) → read_kind (name kind) ≡ some kind
unfolding read_kind names
read-name realm_created = refl
read-name signing_key_created = refl
read-name client_created = refl
read-name token_issued = refl
read-name person_created = refl
read-name person_unlocked = refl
read-name session_opened = refl
read-name session_ended = refl
read-name token_revoked = refl
read-name authenticator_enrolled = refl
read-name authenticator_removed = refl
read-name codes_suspended = refl
read-name codes_resumed = refl
read-name key_copy_suspected = refl
read-name role_created = refl
read-name role_deleted = refl
read-name group_created = refl
read-name group_deleted = refl
read-name role_granted = refl
read-name role_revoked = refl
read-name member_added = refl
read-name member_removed = refl
read-name relation_schema_written = refl
read-name relation_written = refl
read-name relation_deleted = refl
read-name relation_guard_written = refl
read-name relation_guard_deleted = refl
read-name policy_created = refl
read-name policy_deleted = refl
read-name consent_granted = refl
read-name consent_withdrawn = refl

some_same : {a b : EventKind} → some a ≡ some b → a ≡ b
some_same e = cc

-- Two kinds of events that are written the same in a chain are the same kind.
pub name-injective : (a b : EventKind) → name a ≡ name b → a ≡ b
name-injective a b e = some_same (sym (read-name a) ∙ ap read_kind e ∙ read-name b)
