-- ===== src/Work.antt =====
-- A unit of work of crates/saffui-core/src/ports/storage.rs, and the calls made in it. Each call to
-- the storage may fail, and what the next ones fail with is listed ahead; a call past the list
-- succeeds. A call that fails ends the unit of work, which then leaves nothing: so a failure carries
-- no state. Units of work of one realm come one after the other.
use saffui.Base.{◌≡◌, refl, Bool, true, false, Option, none, some, List, [], ◌∷◌, arith}
use saffui.Errors.{Failure, ErrorCode}

pub data Result {ℓ} (A : Type ℓ) : Type ℓ where
  done : A → Result A
  failing : Failure → Result A

abbrev pub failure : ErrorCode → Failure
failure code = record { code = code; detail = none }

abbrev pub refused {ℓ} : {A : Type ℓ} → ErrorCode → Result A
refused code = failing (failure code)

pub record Stage (D : Type 0) : Type 0 where
  pub kept : D
  pub faults : List (Option Failure)

abbrev pub M : Type 0 → Type 0 → Type 0
M D A = Stage D → Result (A × Stage D)

abbrev pub then_on {ℓ κ} : {A : Type ℓ} {B : Type κ} → Result A → (A → Result B) → Result B
then_on (done a) f = f a
then_on (failing e) f = failing e

module _ {D : Type 0} where
  infixl 5 ◌>>=◌ ◌>>◌
  abbrev pub ◌>>=◌ : {A B : Type 0} → M D A → (A → M D B) → M D B
  ◌>>=◌ m f s = then_on (m s) (λ r. f r.0 r.1)

  abbrev pub ◌>>◌ : {B : Type 0} → M D (Unit {0}) → M D B → M D B
  m >> k = m >>= λ _. k

  abbrev pub pure : {A : Type 0} → A → M D A
  pure a s = done (a, s)

  -- What another part of the core answers, or fails with.
  abbrev pub answered : {A : Type 0} → Result A → M D A
  answered (done a) s = done (a, s)
  answered (failing e) s = failing e

  abbrev pub ensure : Bool → ErrorCode → M D (Unit {0})
  ensure true code = pure tt
  ensure false code = answered (refused code)

  abbrev pub expect : {A : Type 0} → Option A → ErrorCode → M D A
  expect (some a) code = pure a
  expect none code = answered (refused code)

  abbrev call_with : {A : Type 0} → List (Option Failure) → A × D → Result (A × Stage D)
  call_with [] r = done (r.0, record { kept = r.1; faults = [] })
  call_with (none ∷ faults) r = done (r.0, record { kept = r.1; faults = faults })
  call_with (some e ∷ faults) r = failing e

  -- A statement of the unit of work, and its start and its commit, which change nothing more.
  abbrev pub call : {A : Type 0} → (D → A × D) → M D A
  call op s = call_with s.faults (op s.kept)

  abbrev pub look : {A : Type 0} → (D → A) → M D A
  look op = call (λ d. (op d, d))

  abbrev pub begin : M D (Unit {0})
  begin = look (λ d. tt)

  abbrev pub commit : M D (Unit {0})
  commit = look (λ d. tt)

  pub >>=-done :
      {A B : Type 0} (m : M D A) (f : A → M D B) (s : Stage D) {r : B × Stage D}
      → (m >>= f) s ≡ done r
      → (q : A × Stage D) × (m s ≡ done q) × (f q.0 q.1 ≡ done r)
  >>=-done m f s {r} h = split (m s) refl h
    where
      split :
          (x : Result (_ × Stage D))
          → m s ≡ x
          → then_on x (λ r. f r.0 r.1) ≡ done r
          → (q : _ × Stage D) × (m s ≡ done q) × (f q.0 q.1 ≡ done r)
      split (done q) e k = (q, e, k)
      split (failing x) e k = cc

  pub call-done :
      {A : Type 0} (op : D → A × D) (s : Stage D) (r : A × Stage D)
      → call op s ≡ done r
      → (r.0 ≡ (op s.kept).0) × (r.1.kept ≡ (op s.kept).1)
  call-done op s r h = ground arith

  pub answered-done :
      {A : Type 0} (x : Result A) (s : Stage D) (r : A × Stage D)
      → answered x s ≡ done r
      → (x ≡ done r.0) × (r.1 ≡ s)
  answered-done (done a) s r h = ground arith
  answered-done (failing e) s r h = cc

  pub ensure-done :
      (b : Bool) (code : ErrorCode) (s : Stage D) (r : Unit {0} × Stage D)
      → ensure b code s ≡ done r
      → (b ≡ true) × (r.1 ≡ s)
  ensure-done true code s r h = ground arith
  ensure-done false code s r h = cc

  pub expect-done :
      {A : Type 0} (o : Option A) (code : ErrorCode) (s : Stage D) (r : A × Stage D)
      → expect o code s ≡ done r
      → (o ≡ some r.0) × (r.1 ≡ s)
  expect-done (some a) code s r h = ground arith
  expect-done none code s r h = cc
