-- ===== src/Audit/Appended.antt =====
-- A chain that only `append_audit_event` of crates/saffui-core/src/testkit/memory/audit.rs wrote.
use saffui.Base.{
  ℕ, ◌+◌, ◌≤◌, ◌<◌, ◌≡◌, refl, sym, subst, ap, ◌∙◌, true, Option, some, List, [], ◌∷◌, ◌++◌,
  number_keys, arith, ◌↔◌, length, length-append, All, Bool-cases, inl, inr,
}
use saffui.Base.Bytes.{bytes_keys, bytes_eqb_iff}
use saffui.Audit.{
  genesis_hash, ChainedEvent, ChainPosition, Checked, at, refused, exhausted, read_audit_head,
  append_audit_event, link_event, hash_link, verify_chain, conclude, intact, matches_head, next_of,
  position_of, check_page,
}
use saffui.Audit.Linked.{Linked, first, next, linked_event, Linked-check_page, check_page-Linked}
use saffui.Audit.Paging.{Rising, verify_chain-whole, All-append, All-weaken}

module _ (sha256 : List ℕ → List ℕ) where
  -- The chain of the envelopes appended in turn, the last one first.
  pub appended : List (List ℕ) → List ChainedEvent
  appended [] = []
  appended (envelope ∷ earlier) = append_audit_event sha256 (appended earlier) envelope

  head-append :
      (chain : List ChainedEvent) (e : ChainedEvent)
      → read_audit_head (chain ++ e ∷ []) ≡ some (position_of e)
  unfolding read_audit_head
  head-append [] e = refl
  head-append (x ∷ []) e = refl
  head-append (x ∷ y ∷ chain) e = head-append (y ∷ chain) e

  -- The head that is read of a whole chain is where it ends.
  pub head-Linked :
      {chain : List ChainedEvent} {n : ℕ} {h : List ℕ}
      → Linked sha256 chain n h
      → next_of (read_audit_head chain) ≡ record { seq = n + 1; hash = h }
  unfolding read_audit_head
  head-Linked first = refl
  head-Linked (next {chain} {n} {h} w l) =
      ap next_of (head-append chain (linked_event sha256 n h w))

  pub append-Linked :
      (chain : List ChainedEvent) (n : ℕ) (h envelope : List ℕ)
      → Linked sha256 chain n h
      → Linked sha256
          (append_audit_event sha256 chain envelope)
          (n + 1)
          (hash_link sha256 h (n + 1) envelope)
  unfolding append_audit_event link_event
  append-Linked chain n h envelope l =
      subst
        (λ p.
          Linked sha256
            (chain
              ++ record {
                seq = p.seq;
                previous_hash = p.hash;
                hash = hash_link sha256 p.hash p.seq envelope;
                envelope = envelope;
              }
                ∷ [])
            (n + 1) (hash_link sha256 h (n + 1) envelope))
        (sym (head-Linked l)) (next envelope l)

  pub appended-Linked :
      (envelopes : List (List ℕ))
      → (h : List ℕ) × Linked sha256 (appended envelopes) (length envelopes) h
  unfolding appended
  appended-Linked [] = (genesis_hash, first)
  appended-Linked (envelope ∷ earlier) =
      let rest = appended-Linked earlier in
      (
        hash_link sha256 rest.0 (length earlier + 1) envelope,
        subst
            (λ k.
              Linked sha256 (append_audit_event sha256 (appended earlier) envelope) k
                (hash_link sha256 rest.0 (length earlier + 1) envelope))
            (omega arith)
            (append-Linked (appended earlier) (length earlier) rest.0 envelope rest.1),
      )

  Rising-snoc :
      (m n : ℕ) (xs : List ChainedEvent) (e : ChainedEvent)
      → m ≤ n
      → Rising m xs
      → All (λ x. x.seq ≤ n) xs
      → n < e.seq
      → Rising m (xs ++ e ∷ [])
  unfolding Rising
  Rising-snoc m n [] e h r a l = (omega (arith, h, l), tt)
  Rising-snoc m n (x ∷ xs) e h r a l = (r.0, Rising-snoc x.seq n xs e a.0 r.1 a.1 l)

  pub Linked-Rising :
      {chain : List ChainedEvent} {n : ℕ} {h : List ℕ}
      → Linked sha256 chain n h
      → Rising 0 chain × All (λ x. x.seq ≤ n) chain
  unfolding Rising
  Linked-Rising first = (tt, tt)
  Linked-Rising (next {chain} {n} {h} w l) =
      let rest = Linked-Rising l in
      (
        Rising-snoc 0 n chain (linked_event sha256 n h w) (omega arith) rest.0 rest.1 (omega arith),
        All-append (n + 1) chain (linked_event sha256 n h w ∷ [])
            (All-weaken n (n + 1) chain (omega arith) rest.1) (omega arith, tt),
      )

  matches_head-Linked :
      {chain : List ChainedEvent} {n : ℕ} {h : List ℕ}
      → Linked sha256 chain n h
      → matches_head sha256 (read_audit_head chain) n h ≡ true
  unfolding read_audit_head
  matches_head-Linked first = refl
  matches_head-Linked (next {chain} {n} {h} w l) = ground (
    arith,
    head-append chain (linked_event sha256 n h w),
    bytes_eqb_iff (hash_link sha256 h (n + 1) w) (hash_link sha256 h (n + 1) w),
  )

  length-appended : (envelopes : List (List ℕ)) → length (appended envelopes) ≡ length envelopes
  unfolding appended append_audit_event
  length-appended [] = refl
  length-appended (envelope ∷ earlier) = ground (
    arith,
    length-appended earlier,
    length-append (appended earlier) (link_event sha256 (appended earlier) envelope ∷ []),
  )

  conclude-intact :
      (head : Option ChainPosition) (n : ℕ) (h : List ℕ)
      → matches_head sha256 head n h ≡ true
      → conclude sha256 head (at n h) ≡ some (intact n)
  conclude-intact head n h e = ground (arith, e)

  Linked-of :
      (chain : List ChainedEvent) (head : Option ChainPosition) (n : ℕ) (c : Checked)
      → check_page sha256 0 genesis_hash chain ≡ c
      → conclude sha256 head c ≡ some (intact n)
      → (h : List ℕ) × Linked sha256 chain n h × (matches_head sha256 head n h ≡ true)
  Linked-of chain head n (at m h) q e = elim (Bool-cases (matches_head sha256 head m h)) [
    | inl b ↦ (
      h,
      subst (λ k. Linked sha256 chain k h) (ground (arith, e, b))
          (check_page-Linked sha256 [] chain 0 m genesis_hash h first q),
      subst (λ k. matches_head sha256 head k h ≡ true) (ground (arith, e, b)) b,
    )
    | inr b ↦ absurd (ground (arith, e, b))
  ]
  Linked-of chain head n (refused m reason) q e = absurd (ground (arith, e))
  Linked-of chain head n exhausted q e = absurd (ground (arith, e))

  -- A chain that appends alone wrote is found intact, with as many events as there were appends.
  pub verify_chain-appended :
      (fuel : ℕ) (envelopes : List (List ℕ))
      → length envelopes < fuel
      → verify_chain sha256 fuel (appended envelopes) (read_audit_head (appended envelopes))
        ≡ some (intact (length envelopes))
  verify_chain-appended fuel envelopes f =
      let chain = appended envelopes in
      let l = (appended-Linked envelopes).1 in
      verify_chain-whole sha256 fuel chain (read_audit_head chain) (Linked-Rising l).0
        (omega (arith, f, length-appended envelopes))
      ∙ ap (conclude sha256 (read_audit_head chain)) (Linked-check_page sha256 l)
      ∙ conclude-intact (read_audit_head chain) (length envelopes) (appended-Linked envelopes).0
          (matches_head-Linked l)

  -- The verdict is that the chain is intact exactly when every event links to the one before, from
  -- the first hash on, and the head is the last of them, over events in the order of their numbers,
  -- each with a number of its own.
  pub verify_chain-Linked :
      (fuel : ℕ) (chain : List ChainedEvent) (head : Option ChainPosition) (n : ℕ)
      → Rising 0 chain
      → length chain < fuel
      → (verify_chain sha256 fuel chain head ≡ some (intact n))
        ↔ ((h : List ℕ) × Linked sha256 chain n h × (matches_head sha256 head n h ≡ true))
  verify_chain-Linked fuel chain head n r f =
      let whole = verify_chain-whole sha256 fuel chain head r f in
      (
        (λ e. Linked-of chain head n (check_page sha256 0 genesis_hash chain) refl (sym whole ∙ e)),
        (λ w.
            whole
            ∙ ap (conclude sha256 head) (Linked-check_page sha256 w.1)
            ∙ conclude-intact head n w.0 w.2),
      )
