-- ===== src/Audit/Linked.antt =====
-- What a whole audit chain is, and that the checks of crates/saffui-core/src/audit/verify.rs tell it.
use saffui.Base.{ℕ, ◌+◌, ◌≡◌, refl, sym, subst, none, List, [], ◌∷◌, ◌++◌, number_keys, arith}
use saffui.Base.Bytes.{bytes_keys, bytes_eqb_iff}
use saffui.Audit.{
  genesis_hash, ChainedEvent, Checked, at, refused, exhausted, hash_link, check_link, check_page,
}

module _ (sha256 : List ℕ → List ℕ) where
  abbrev pub linked_event : ℕ → List ℕ → List ℕ → ChainedEvent
  linked_event n h envelope = record {
    seq = n + 1;
    previous_hash = h;
    hash = hash_link sha256 h (n + 1) envelope;
    envelope = envelope;
  }

  -- A chain that is whole: its events, their number, and the hash of the last.
  pub data Linked : List ChainedEvent → ℕ → List ℕ → Type 0 where
    first : Linked [] 0 genesis_hash
    next :
        {chain : List ChainedEvent} {n : ℕ} {h : List ℕ} (envelope : List ℕ)
        → Linked chain n h
        → Linked
            (chain ++ linked_event n h envelope ∷ [])
            (n + 1)
            (hash_link sha256 h (n + 1) envelope)

  check_link-none :
      (seq : ℕ) (hash : List ℕ) (e : ChainedEvent)
      → check_link sha256 seq hash e ≡ none
      → e ≡ linked_event seq hash e.envelope
  unfolding check_link
  check_link-none seq hash e q = ground (
    arith,
    bytes_eqb_iff e.previous_hash hash,
    bytes_eqb_iff (hash_link sha256 hash e.seq e.envelope) e.hash,
  )

  append_cons : (xs ys : List ChainedEvent) (x : ChainedEvent) → (xs ++ x ∷ []) ++ ys ≡ xs ++ x ∷ ys
  append_cons [] ys x = refl
  append_cons (y ∷ xs) ys x = ground (arith, append_cons xs ys x)

  append_nil : (xs : List ChainedEvent) → xs ++ [] ≡ xs
  append_nil [] = refl
  append_nil (x ∷ xs) = ground (arith, append_nil xs)

  pub check_page-Linked :
      (before chain : List ChainedEvent) (seq n : ℕ) (hash h : List ℕ)
      → Linked before seq hash
      → check_page sha256 seq hash chain ≡ at n h
      → Linked (before ++ chain) n h
  unfolding check_page
  check_page-Linked before [] seq n hash h l q =
      subst (λ c. Linked c n h) (sym (append_nil before))
        (subst (λ k. Linked before k h) (ground arith) (subst (Linked before seq) (ground arith) l))
  check_page-Linked before (e ∷ chain) seq n hash h l q =
      subst (λ c. Linked c n h) (append_cons before chain e)
        (check_page-Linked (before ++ e ∷ []) chain e.seq n e.hash h
          (subst (λ x. Linked (before ++ x ∷ []) x.seq x.hash)
            (sym (check_link-none seq hash e (ground arith))) (next e.envelope l))
          (ground arith))

  abbrev pub continue : Checked → List ChainedEvent → Checked
  continue (at seq hash) page = check_page sha256 seq hash page
  continue (refused seq reason) page = refused seq reason
  continue exhausted page = exhausted

  pub check_page-append :
      (seq : ℕ) (hash : List ℕ) (xs ys : List ChainedEvent)
      → check_page sha256 seq hash (xs ++ ys) ≡ continue (check_page sha256 seq hash xs) ys
  unfolding check_page
  check_page-append seq hash [] ys = refl
  check_page-append seq hash (x ∷ xs) ys = ground (arith, check_page-append x.seq x.hash xs ys)

  check_link-linked_event :
      (n : ℕ) (h w : List ℕ) → check_link sha256 n h (linked_event n h w) ≡ none
  unfolding check_link
  check_link-linked_event n h w = ground (
    arith,
    bytes_eqb_iff h h,
    bytes_eqb_iff (hash_link sha256 h (n + 1) w) (hash_link sha256 h (n + 1) w),
  )

  pub Linked-check_page :
      {chain : List ChainedEvent} {n : ℕ} {h : List ℕ}
      → Linked chain n h
      → check_page sha256 0 genesis_hash chain ≡ at n h
  unfolding check_page
  Linked-check_page first = refl
  Linked-check_page (next {chain} {n} {h} w l) = ground (
    arith,
    Linked-check_page l,
    check_page-append 0 genesis_hash chain (linked_event n h w ∷ []),
    check_link-linked_event n h w,
  )
