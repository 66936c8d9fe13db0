-- ===== src/Audit.antt =====
-- The audit chain of one realm: crates/saffui-core/src/audit/mod.rs and verify.rs, over the chain as
-- crates/saffui-core/src/testkit/memory/audit.rs keeps it. The SHA-256 digest is a parameter.
-- A sequence number is a natural number: only events numbered above 0 are ever read.
pub mod Kinds
pub mod Linked
pub mod Appended
pub mod Paging
pub mod Commitment
pub mod Tests
use saffui.Base.{
  ℕ, zero, suc, ◌+◌, ◌/◌, ◌%◌, ◌^◌, Bool, true, not, ◌&&◌, Option, none, some, List, [], ◌∷◌, ◌++◌,
  ltb, number_keys, ◌==◌, if◌then◌else◌, filter_by, take,
}
use saffui.Base.Bytes.{bytes_keys}

abbrev pub zeros : ℕ → List ℕ
zeros zero = []
zeros (suc n) = 0 ∷ zeros n

abbrev pub genesis_hash : List ℕ
genesis_hash = zeros 32

-- `i64::to_be_bytes`
abbrev pub be_bytes : ℕ → ℕ → List ℕ
be_bytes zero n = []
be_bytes (suc w) n = n / 256 ^ w % 256 ∷ be_bytes w n

pub record ChainedEvent : Type 0 where
  pub seq : ℕ
  pub previous_hash : List ℕ
  pub hash : List ℕ
  pub envelope : List ℕ

pub record ChainPosition : Type 0 where
  pub seq : ℕ
  pub hash : List ℕ

pub data ChainBreak : Type 0 where
  gap : ChainBreak
  unlinked : ChainBreak
  altered : ChainBreak
  head_mismatch : ChainBreak

pub data ChainVerdict : Type 0 where
  intact : ℕ → ChainVerdict
  broken : ℕ → ChainBreak → ChainVerdict

abbrev pub page_limit : ℕ
page_limit = 500

pub read_audit_events : List ChainedEvent → ℕ → ℕ → List ChainedEvent
read_audit_events chain after_seq limit = take limit (filter_by (λ e. ltb after_seq e.seq) chain)

abbrev pub position_of : ChainedEvent → ChainPosition
position_of e = record { seq = e.seq; hash = e.hash }

pub read_audit_head : List ChainedEvent → Option ChainPosition
read_audit_head [] = none
read_audit_head (e ∷ []) = some (position_of e)
read_audit_head (e ∷ f ∷ chain) = read_audit_head (f ∷ chain)

abbrev pub next_of : Option ChainPosition → ChainPosition
next_of none = record { seq = 1; hash = genesis_hash }
next_of (some head) = record { seq = head.seq + 1; hash = head.hash }

-- What the loop of `verify_chain` keeps: where it stands, or the verdict it returned.
pub data Checked : Type 0 where
  at : ℕ → List ℕ → Checked
  refused : ℕ → ChainBreak → Checked
  exhausted : Checked

module _ (sha256 : List ℕ → List ℕ) where
  abbrev pub preimage : List ℕ → ℕ → List ℕ → List ℕ
  preimage previous seq envelope = previous ++ be_bytes 8 seq ++ envelope

  pub hash_link : List ℕ → ℕ → List ℕ → List ℕ
  hash_link previous seq envelope = sha256 (preimage previous seq envelope)

  -- The end of `link_event`: the event that is pushed.
  pub link_event : List ChainedEvent → List ℕ → ChainedEvent
  unfolding read_audit_head hash_link
  link_event chain envelope =
      let next = next_of (read_audit_head chain) in
      record {
        seq = next.seq;
        previous_hash = next.hash;
        hash = hash_link next.hash next.seq envelope;
        envelope = envelope;
      }

  pub append_audit_event : List ChainedEvent → List ℕ → List ChainedEvent
  unfolding link_event
  append_audit_event chain envelope = chain ++ link_event chain envelope ∷ []

  pub check_link : ℕ → List ℕ → ChainedEvent → Option ChainBreak
  unfolding hash_link
  check_link seq hash event =
      if not (event.seq == seq + 1)
      then some gap
      else if not (event.previous_hash == hash)
      then some unlinked
      else if not (hash_link hash event.seq event.envelope == event.hash)
      then some altered
      else none

  pub check_page : ℕ → List ℕ → List ChainedEvent → Checked
  unfolding check_link
  check_page seq hash [] = at seq hash
  check_page seq hash (event ∷ page) =
      let rest = check_page event.seq event.hash page in
      elim (check_link seq hash event) [ none ↦ rest | some reason ↦ refused event.seq reason ]

  pub check_pages : ℕ → List ChainedEvent → ℕ → List ℕ → Checked
  unfolding check_page read_audit_events
  check_pages zero chain seq hash = exhausted
  check_pages (suc fuel) chain seq hash = elim (read_audit_events chain seq page_limit) [
    | [] ↦ at seq hash
    | e ∷ page ↦ elim (check_page seq hash (e ∷ page)) [
      | at seq hash ↦ check_pages fuel chain seq hash
      | refused seq reason ↦ refused seq reason
      | exhausted ↦ exhausted
    ]
  ]

  abbrev pub matches_head : Option ChainPosition → ℕ → List ℕ → Bool
  matches_head none seq hash = seq == 0
  matches_head (some head) seq hash = head.seq == seq && head.hash == hash

  -- None where the fuel is not enough.
  abbrev pub conclude : Option ChainPosition → Checked → Option ChainVerdict
  conclude head (at seq hash) =
      some (if matches_head head seq hash then intact seq else broken seq head_mismatch)
  conclude head (refused seq reason) = some (broken seq reason)
  conclude head exhausted = none

  pub verify_chain : ℕ → List ChainedEvent → Option ChainPosition → Option ChainVerdict
  unfolding check_pages
  verify_chain fuel chain head = conclude head (check_pages fuel chain 0 genesis_hash)
