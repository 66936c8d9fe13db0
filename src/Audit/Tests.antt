-- ===== src/Audit/Tests.antt =====
-- Chains under a digest of 32 bytes that is easy to run, and the theorems at them.
use saffui.Base.{ℕ, ◌+◌, ◌*◌, ◌≡◌, ◌↔◌, ◌⊎◌, refl, true, none, some, List, [], ◌∷◌, arith, length}
use saffui.Audit.{
  ChainedEvent, genesis_hash, hash_link, verify_chain, check_pages, check_link, read_audit_events,
  intact, broken, altered, read_audit_head, matches_head, conclude, check_page, be_bytes,
}
use saffui.Audit.Linked.{Linked, first, next, linked_event}
use saffui.Audit.Appended.{appended, verify_chain-appended, verify_chain-Linked}
use saffui.Audit.Paging.{Rising, verify_chain-whole}
use saffui.Audit.Kinds.{role_granted, name-injective}
use saffui.Audit.Commitment.{Collision, Linked-commitment}

abbrev sum : List ℕ → ℕ
sum [] = 0
sum (x ∷ xs) = x + 3 * sum xs

abbrev weak : List ℕ → List ℕ
weak v = be_bytes 32 (sum v)

length-weak : (v : List ℕ) → length (weak v) ≡ 32
length-weak v = refl

abbrev event : ChainedEvent
event = linked_event weak 0 genesis_hash (1 ∷ 2 ∷ [])

one-Linked : Linked weak (event ∷ []) 1 event.hash
one-Linked = next (1 ∷ 2 ∷ []) first

one-Rising : Rising 0 (event ∷ [])
unfolding Rising
one-Rising = (omega arith, tt)

-- Its envelope with another byte.
abbrev tampered : ChainedEvent
tampered = record event { envelope = 1 ∷ 3 ∷ [] }

found_intact :
    verify_chain weak 2 (event ∷ []) (some (record { seq = 1; hash = event.hash }))
    ≡ some (intact 1)
unfolding verify_chain check_pages check_page check_link read_audit_events hash_link
found_intact = refl

found_altered :
    verify_chain weak 2 (tampered ∷ []) (some (record { seq = 1; hash = event.hash }))
    ≡ some (broken 1 altered)
unfolding verify_chain check_pages check_page check_link read_audit_events hash_link
found_altered = refl

verify_chain-whole_example :
    verify_chain weak 2 (event ∷ []) none
    ≡ conclude weak none (check_page weak 0 genesis_hash (event ∷ []))
verify_chain-whole_example = verify_chain-whole weak 2 (event ∷ []) none one-Rising (omega arith)

verify_chain-appended_example :
    verify_chain weak 3
      (appended weak ((7 ∷ []) ∷ (8 ∷ []) ∷ []))
      (read_audit_head (appended weak ((7 ∷ []) ∷ (8 ∷ []) ∷ [])))
    ≡ some (intact 2)
verify_chain-appended_example =
    verify_chain-appended weak 3 ((7 ∷ []) ∷ (8 ∷ []) ∷ []) (omega arith)

verify_chain-Linked_example :
    (verify_chain weak 2 (event ∷ []) (some (record { seq = 1; hash = event.hash }))
      ≡ some (intact 1))
    ↔ ((h : List ℕ) × Linked weak (event ∷ []) 1 h
        × (matches_head weak (some (record { seq = 1; hash = event.hash })) 1 h ≡ true))
verify_chain-Linked_example =
    verify_chain-Linked weak 2 (event ∷ []) (some (record { seq = 1; hash = event.hash })) 1
      one-Rising (omega arith)

Linked-commitment_example : (event ∷ [] ≡ event ∷ []) ⊎ Collision weak
Linked-commitment_example = Linked-commitment weak length-weak one-Linked one-Linked refl refl

name-injective_example : role_granted ≡ role_granted
name-injective_example = name-injective role_granted role_granted refl
