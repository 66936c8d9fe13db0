-- ===== src/Lib.antt =====
-- saffui: an identity provider. Its core (crates/saffui-core) decides who may sign in and who may do
-- what; its other crates serve it over HTTP and keep its state in PostgreSQL. This library models the
-- parts of the core that decide, and proves what makes them right.
--
-- The parts, and the files that model them:
-- - Authz/Schema, Authz/Walk and Authz/Check: the schema of relations and the walk that tells whether
--   a subject stands in a relation to an object (crates/saffui-core/src/authz/relations/schema.rs and
--   check.rs). A function of the source is the definition of its name: walk_member, walk_relation,
--   walk_rule, read_subjects. The state of a walk (reads, steps, what is known, what is being walked)
--   is passed on; the storage and the clock are functions of the walker. Authz/Check/Spec says what a
--   relation that stands is, without a walk.
-- - Authz/Parse and Authz/Compile: the compiler of a schema (schema.rs again): its lexemes
--   (read_lexemes), its parser (read_definition, read_expression, read_term), the checks of what it
--   names, the search for a permission that computes itself (find_cycles), and all of compile_schema.
-- - Authz/Condition and Authz/Policy: the conditions of policies, one policy, and the verdict of all
--   (crates/saffui-core/src/authz/policy.rs), over what Json keeps of a JSON document.
-- - Authz/Decide: the one point of decision (crates/saffui-core/src/authz/decide.rs), which composes the
--   walk, the compiler, the policies and the shares; what else it asks of the core is a field of World.
--   Authz/Decide/Grounds tells what a permission may rest on without the functions of the model.
-- - Authz/Shares: how many questions a node and a tenant may ask at once
--   (crates/saffui-core/src/authz/shares.rs); Login/Fairness: how many hashes a realm and a network may
--   run at once (crates/saffui-core/src/login/fairness.rs). Both count by key, as Counts does.
-- - Login/Counters and Login/Throttle: the brake on guesses
--   (crates/saffui-core/src/login/throttle.rs) over the counters of failures as
--   crates/saffui-core/src/testkit/memory/login.rs keeps them.
-- - Work: a unit of work of the storage (crates/saffui-core/src/ports/storage.rs) and the calls made in
--   it, each of which may fail; a failure ends the unit of work, which then leaves nothing.
-- - Tokens: the refresh tokens a realm keeps (crates/saffui-core/src/tokens/store.rs and
--   testkit/memory/refresh.rs); Login/Sessions: the sessions (crates/saffui-core/src/login/session.rs and
--   testkit/memory/login.rs); Clients: how a client is known (crates/saffui-core/src/clients/mod.rs and
--   authenticate.rs); Consent: when a person must be asked (crates/saffui-core/src/consent/mod.rs).
-- - Oidc: the token endpoint (crates/saffui-core/src/oidc/token.rs and refresh.rs) and the revocation of
--   tokens (oidc/revoke.rs): grant_token, exchange_code, rotate_refresh_token, revoke_token and what they
--   call, in Oidc/Grant, Oidc/Token and Oidc/Issue over what Oidc/World says a request finds; the codes
--   (oidc/code.rs and testkit/memory/login.rs) in Oidc/Codes, the scopes, the verifier of a code and the
--   words of a refusal (oidc/token.rs, pkce.rs, errors.rs) in Oidc/Scopes, Oidc/Pkce and Oidc/Failures.
--   Oidc/Steps is the realm as its requests change it: each unit of work is one step.
-- - Audit: the audit chain and its verification (crates/saffui-core/src/audit/mod.rs and verify.rs)
--   over the chain of crates/saffui-core/src/testkit/memory/audit.rs, and the names of the events.
-- - Errors: the catalog of refusals (crates/saffui-core/src/error.rs) and its rendering
--   (crates/server/src/error.rs).
-- - Names: what may name a thing, and what a page can show. Base: what all share.
--
-- Conventions. Numbers are natural numbers; where a machine integer could wrap, its bound is written
-- or a reason is given. An identifier is a number or its bytes, a text is a native string or its
-- bytes, an instant is in whole seconds. A map is an association list with distinct keys. An error is
-- a value of the outcome. A share that is dropped is an explicit call. Units of work of one realm come
-- one after the other, in any order: the two of an exchange of a code are two steps, and any others may
-- come between. The calls of a unit of work that fail, and with what, are listed ahead in its Stage, so
-- that a theorem on every Stage is one on every failure. A digest is compared as it is.
--
-- Bounds and fuel. A walk is on fuel, one more than the deepest member: a deeper member is answered
-- before it is opened, so the fuel never runs out. The verification of a chain is on fuel, one more
-- page than there are events: each page that is read holds an event at least. The search for a
-- permission that computes itself is on fuel, two more than the names that permissions compute: a name
-- is pushed once. The parser is on fuel by the number of lexemes: every step takes one, and a nested
-- expression takes two steps of fuel for each. The file of each says so, and proves it.
--
-- Parameters: what the parts that are not modelled answer to a question; the storage and the clock
-- of a walk; floats, the reading of instants and of documents of conditions; the length of the
-- written form of a schema; the keyed digest of the brake and the SHA-256 digest of the chain and
-- of tokens, codes and secrets; the clock, the random source, the rows of clients, people and
-- consents, the claims of roles and the tokens that are signed, at the token endpoint. Where a
-- theorem runs over the steps of a realm, the identifier that an exchange mints is new
-- (MintsUnused, in Oidc/Steps): no family of the realm has it.
--
-- Not modelled: input and output, the web framework and the database, third-party cryptography, and
-- the parts left for later: the sign-in flow but for its sessions, administration, the signing and the
-- verification of tokens and their keys, the stores in PostgreSQL, the sweep of what has expired, and of
-- OpenID Connect the authorization requests, introspection, logout, discovery and what a person's
-- information answers. An event is what it tells: its envelope and its canonical writing are left out.
pub mod Base
pub mod Names
pub mod Errors
pub mod Json
pub mod Counts
pub mod Audit
pub mod Authz
pub mod Login
pub mod Work
pub mod Tokens
pub mod Consent
pub mod Clients
pub mod Oidc
