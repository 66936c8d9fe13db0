-- ===== src/Audit/Commitment.antt =====
-- The head of an audit chain stands for the whole of it: crates/saffui-core/src/audit/mod.rs.
use saffui.Base.{
  ℕ, ◌+◌, ◌≡◌, ◌≢◌, refl, sym, ap, ◌∙◌, List, [], ◌∷◌, ◌++◌, number_keys, ◌==◌, arith, length,
  length-append, ◌⊎◌, inl, inr, Bool-cases,
}
use saffui.Base.Bytes.{bytes_keys, bytes_eqb_iff}
use saffui.Audit.{ChainedEvent, hash_link, be_bytes, preimage}
use saffui.Audit.Linked.{Linked, first, next, linked_event}

-- Two lists that give the same digest.
abbrev pub Collision : (List ℕ → List ℕ) → Type 0
Collision sha256 = (v : List ℕ) × (w : List ℕ) × (v ≢ w) × (sha256 v ≡ sha256 w)

append_same : (a b v w : List ℕ) → length a ≡ length b → a ++ v ≡ b ++ w → (a ≡ b) × (v ≡ w)
append_same [] [] v w l e = (refl, e)
append_same [] (y ∷ b) v w l e = absurd (omega (arith, l))
append_same (x ∷ a) [] v w l e = absurd (omega (arith, l))
append_same (x ∷ a) (y ∷ b) v w l e =
    let rest = append_same a b v w (omega (arith, l)) (ground (arith, e)) in
    (ground (arith, e, rest.0), rest.1)

module _ (sha256 : List ℕ → List ℕ) (sha256_length : (v : List ℕ) → length (sha256 v) ≡ 32) where
  hash_length :
      {chain : List ChainedEvent} {n : ℕ} {h : List ℕ} → Linked sha256 chain n h → length h ≡ 32
  unfolding hash_link
  hash_length first = refl
  hash_length (next {chain} {n} {h} w l) = sha256_length (preimage sha256 h (n + 1) w)

  preimage_same :
      (g h v w : List ℕ) (n : ℕ)
      → length g ≡ 32
      → length h ≡ 32
      → preimage sha256 g n v ≡ preimage sha256 h n w
      → (g ≡ h) × (v ≡ w)
  preimage_same g h v w n lg lh e =
      let bytes = be_bytes 8 n in
      let both =
        append_same (g ++ bytes) (h ++ bytes) v w
          (omega (arith, length-append g bytes, length-append h bytes, lg, lh)) e in
      ((append_same g h bytes bytes (omega (arith, lg, lh)) both.0).0, both.1)

  hash_link-same :
      (g h v w : List ℕ) (n : ℕ)
      → length g ≡ 32
      → length h ≡ 32
      → hash_link sha256 g n v ≡ hash_link sha256 h n w
      → ((g ≡ h) × (v ≡ w)) ⊎ Collision sha256
  unfolding hash_link
  hash_link-same g h v w n lg lh e =
      let p = preimage sha256 g n v in
      let q = preimage sha256 h n w in
      elim (Bool-cases (p == q)) [
        | inl b ↦ inl (preimage_same g h v w n lg lh ((bytes_eqb_iff p q).0 b))
        | inr b ↦ inr (p, q, (λ s. absurd (ground (arith, b, s, bytes_eqb_iff p q))), e)
      ]

  chain_same :
      {n m : ℕ} {c d : List ChainedEvent} {g h v w : List ℕ}
      → n ≡ m
      → c ≡ d
      → g ≡ h
      → v ≡ w
      → c ++ linked_event sha256 n g v ∷ [] ≡ d ++ linked_event sha256 m h w ∷ []
  chain_same e t p q = cc

  -- Two whole chains with as many events that end with the same hash are the same chain, event by
  -- event, or two lists with one digest are at hand. A digest has 32 bytes.
  pub Linked-commitment :
      {a b : List ChainedEvent} {n m : ℕ} {g h : List ℕ}
      → Linked sha256 a n g
      → Linked sha256 b m h
      → n ≡ m
      → g ≡ h
      → (a ≡ b) ⊎ Collision sha256
  Linked-commitment first first e q = inl refl
  Linked-commitment first (next w r) e q = absurd (omega (arith, e))
  Linked-commitment (next v l) first e q = absurd (omega (arith, e))
  Linked-commitment (next {chain = c} {n} {h = g} v l) (next {chain = d} {n = m} {h} w r) e q =
      let same : n ≡ m = omega (arith, e) in
      elim (hash_link-same g h v w (n + 1) (hash_length l) (hash_length r)
        (q ∙ ap (λ k. hash_link sha256 h (k + 1) w) (sym same))) [
          | inl p ↦ elim (Linked-commitment l r same p.0) [
            | inl t ↦ inl (chain_same same t p.0 p.1)
            | inr t ↦ inr t
          ]
          | inr p ↦ inr p
        ]
