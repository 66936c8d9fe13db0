-- ===== src/Audit/Paging.antt =====
-- The loop over pages of `verify_chain` of crates/saffui-core/src/audit/verify.rs, over events in the
-- order of their numbers, each of its own, as the key and the order of the storage give them.
use saffui.Base.{
  ℕ, zero, suc, ◌≤◌, ◌<◌, ◌≡◌, refl, sym, subst, ap, ◌∙◌, Option, List, [], ◌∷◌, ◌++◌, number_keys,
  arith, ltb, length, take, filter_by, All,
}
use saffui.Base.Bytes.{bytes_keys}
use saffui.Audit.{
  genesis_hash, ChainedEvent, ChainPosition, Checked, at, refused, exhausted, check_page,
  check_pages, read_audit_events, page_limit, verify_chain, conclude,
}
use saffui.Audit.Linked.{continue, check_page-append}

-- Numbered above `n`, in order.
unfoldable pub Rising : ℕ → List ChainedEvent → Type 0
Rising n [] = Unit
Rising n (e ∷ chain) = (n < e.seq) × Rising e.seq chain

pub drop : ℕ → List ChainedEvent → List ChainedEvent
drop zero xs = xs
drop (suc k) [] = []
drop (suc k) (x ∷ xs) = drop k xs

take-drop : (k : ℕ) (xs : List ChainedEvent) → take k xs ++ drop k xs ≡ xs
unfolding drop
take-drop zero xs = refl
take-drop (suc k) [] = refl
take-drop (suc k) (x ∷ xs) = ground (arith, take-drop k xs)

abbrev events_after : ℕ → List ChainedEvent → List ChainedEvent
events_after n = filter_by (λ e. ltb n e.seq)

Rising-weaken : (m n : ℕ) (xs : List ChainedEvent) → m ≤ n → Rising n xs → Rising m xs
unfolding Rising
Rising-weaken m n [] h r = tt
Rising-weaken m n (x ∷ xs) h r = (omega (arith, r.0), r.1)

after_none : (n : ℕ) (xs : List ChainedEvent) → All (λ e. e.seq ≤ n) xs → events_after n xs ≡ []
after_none n [] a = refl
after_none n (x ∷ xs) a = ground (arith, a.0, after_none n xs a.1)

after_all : (n : ℕ) (xs : List ChainedEvent) → Rising n xs → events_after n xs ≡ xs
unfolding Rising
after_all n [] r = refl
after_all n (x ∷ xs) r =
    ground (arith, r.0, after_all n xs (Rising-weaken n x.seq xs (omega (arith, r.0)) r.1))

after-append :
    (n : ℕ) (xs ys : List ChainedEvent)
    → events_after n (xs ++ ys) ≡ events_after n xs ++ events_after n ys
after-append n [] ys = refl
after-append n (x ∷ xs) ys = ground (arith, after-append n xs ys)

after_split :
    (n : ℕ) (xs ys : List ChainedEvent)
    → All (λ e. e.seq ≤ n) xs
    → Rising n ys
    → events_after n (xs ++ ys) ≡ ys
after_split n xs ys a r = ground (arith, after-append n xs ys, after_none n xs a, after_all n ys r)

pub All-append :
    (n : ℕ) (xs ys : List ChainedEvent)
    → All (λ e. e.seq ≤ n) xs
    → All (λ e. e.seq ≤ n) ys
    → All (λ e. e.seq ≤ n) (xs ++ ys)
All-append n [] ys a b = b
All-append n (x ∷ xs) ys a b = (a.0, All-append n xs ys a.1 b)

pub All-weaken :
    (m n : ℕ) (xs : List ChainedEvent) → m ≤ n → All (λ e. e.seq ≤ m) xs → All (λ e. e.seq ≤ n) xs
All-weaken m n [] h a = tt
All-weaken m n (x ∷ xs) h a = (omega (arith, a.0), All-weaken m n xs h a.1)

module _ (sha256 : List ℕ → List ℕ) where
  -- A page that is checked whole leaves the numbers where its last event is.
  page_within :
      (seq n : ℕ) (hash h : List ℕ) (xs ys : List ChainedEvent)
      → check_page sha256 seq hash xs ≡ at n h
      → Rising seq (xs ++ ys)
      → (seq ≤ n) × All (λ e. e.seq ≤ n) xs × Rising n ys
  unfolding check_page Rising
  page_within seq n hash h [] ys q r = (ground arith, tt, subst (λ k. Rising k ys) (ground arith) r)
  page_within seq n hash h (x ∷ xs) ys q r =
      let rest = page_within x.seq n x.hash h xs ys (ground arith) r.1 in
      (omega (arith, rest.0, r.0), (rest.0, rest.1), rest.2)

  append_assoc : (xs ys zs : List ChainedEvent) → (xs ++ ys) ++ zs ≡ xs ++ (ys ++ zs)
  append_assoc [] ys zs = refl
  append_assoc (x ∷ xs) ys zs = ground (arith, append_assoc xs ys zs)

  length-drop : (k : ℕ) (xs : List ChainedEvent) → length (drop k xs) ≤ length xs
  unfolding drop
  length-drop zero xs = omega arith
  length-drop (suc k) [] = omega arith
  length-drop (suc k) (x ∷ xs) = omega (arith, length-drop k xs)

  read_split :
      (seq : ℕ) (before chain : List ChainedEvent)
      → All (λ e. e.seq ≤ seq) before
      → Rising seq chain
      → read_audit_events (before ++ chain) seq page_limit ≡ take page_limit chain
  unfolding read_audit_events
  read_split seq before chain a r = ap (take page_limit) (after_split seq before chain a r)

  -- What this much fuel is enough for.
  abbrev EnoughFor : ℕ → Type 0
  EnoughFor fuel =
      (before chain : List ChainedEvent) (seq : ℕ) (hash : List ℕ)
      → All (λ e. e.seq ≤ seq) before
      → Rising seq chain
      → length chain < fuel
      → check_pages sha256 fuel (before ++ chain) seq hash ≡ check_page sha256 seq hash chain

  page_at :
      (fuel : ℕ) (chain : List ChainedEvent) (x : ChainedEvent) (page : List ChainedEvent)
      (seq n : ℕ) (hash h : List ℕ)
      → read_audit_events chain seq page_limit ≡ x ∷ page
      → check_page sha256 seq hash (x ∷ page) ≡ at n h
      → check_pages sha256 (suc fuel) chain seq hash ≡ check_pages sha256 fuel chain n h
  unfolding check_pages
  page_at fuel chain x page seq n hash h e q = ground (arith, e, q)

  chain_split :
      (before : List ChainedEvent) (x : ChainedEvent) (xs : List ChainedEvent)
      → before ++ x ∷ xs ≡ (before ++ x ∷ take 499 xs) ++ drop 499 xs
  chain_split before x xs =
      ap (λ ys. before ++ x ∷ ys) (sym (take-drop 499 xs))
      ∙ sym (append_assoc before (x ∷ take 499 xs) (drop 499 xs))

  page_step :
      (fuel : ℕ) (before : List ChainedEvent) (x : ChainedEvent) (xs : List ChainedEvent) (seq : ℕ)
      (hash : List ℕ) (c : Checked)
      → EnoughFor fuel
      → check_page sha256 seq hash (x ∷ take 499 xs) ≡ c
      → All (λ e. e.seq ≤ seq) before
      → Rising seq (x ∷ xs)
      → length xs < fuel
      → check_pages sha256 (suc fuel) (before ++ x ∷ xs) seq hash ≡ continue sha256 c (drop 499 xs)
  unfolding check_pages
  page_step fuel before x xs seq hash (at n h) enough q a r l =
      let page = x ∷ take 499 xs in
      let rest = drop 499 xs in
      let w =
        page_within seq n hash h page rest q
          (subst (Rising seq) (sym (ap (λ ys. x ∷ ys) (take-drop 499 xs))) r) in
      let later =
        enough (before ++ page) rest n h
          (All-append n before page (All-weaken seq n before w.0 a) w.1) w.2
          (omega (arith, l, length-drop 499 xs)) in
      page_at fuel (before ++ x ∷ xs) x (take 499 xs) seq n hash h
        (read_split seq before (x ∷ xs) a r) q
      ∙ ap (λ c. check_pages sha256 fuel c n h) (chain_split before x xs)
      ∙ later
  page_step fuel before x xs seq hash (refused n reason) enough q a r l =
      ground (arith, read_split seq before (x ∷ xs) a r, q)
  page_step fuel before x xs seq hash exhausted enough q a r l =
      ground (arith, read_split seq before (x ∷ xs) a r, q)

  enough_fuel : (fuel : ℕ) → EnoughFor fuel
  unfolding check_pages check_page
  enough_fuel zero before chain seq hash a r h = absurd (omega arith)
  enough_fuel (suc fuel) before [] seq hash a r h = ground (arith, read_split seq before [] a r)
  enough_fuel (suc fuel) before (x ∷ xs) seq hash a r h =
      page_step fuel before x xs seq hash (check_page sha256 seq hash (x ∷ take 499 xs))
        (enough_fuel fuel) refl a r (omega (arith, h))
      ∙ sym (check_page-append sha256 seq hash (x ∷ take 499 xs) (drop 499 xs))
      ∙ ap (check_page sha256 seq hash) (ap (λ ys. x ∷ ys) (take-drop 499 xs))

  -- Over events in the order of their numbers, each with a number of its own, as many pages as there
  -- are events and one more are enough, and the verdict of the pages is that of one walk from the
  -- first event to the last.
  pub verify_chain-whole :
      (fuel : ℕ) (chain : List ChainedEvent) (head : Option ChainPosition)
      → Rising 0 chain
      → length chain < fuel
      → verify_chain sha256 fuel chain head
        ≡ conclude sha256 head (check_page sha256 0 genesis_hash chain)
  unfolding verify_chain
  verify_chain-whole fuel chain head r h =
      ap (conclude sha256 head) (enough_fuel fuel [] chain 0 genesis_hash tt r h)
