-- ===== src/Oidc/Scopes/Narrowed.antt =====
-- What `narrow_scopes` of crates/saffui-core/src/oidc/token.rs gives.
use saffui.Base.{
  String, Bool, true, false, not, ◌&&◌, ◌||◌, ◌≡◌, refl, some, List, [], ◌∷◌, ◌++◌, arith,
  text_keys, ◌==◌, contains, All, Bool-cases, inl, inr, subst, if◌then◌else◌, all,
}
use saffui.Work.{Result, done, failing}
use saffui.Clients.{is_scope_token}
use saffui.Oidc.Scopes.{narrow, narrow_scopes, asked_tokens}

-- No text twice.
abbrev pub distinct : List String → Bool
distinct [] = true
distinct (x ∷ xs) = not (contains xs x) && distinct xs

contains-snoc :
    (x y : String) (xs : List String) → contains (xs ++ y ∷ []) x ≡ (contains xs x || y == x)
contains-snoc x y [] = ground arith
contains-snoc x y (z ∷ xs) = ground (arith, contains-snoc x y xs)

distinct-snoc :
    (y : String) (xs : List String)
    → contains xs y ≡ false
    → distinct xs ≡ true
    → distinct (xs ++ y ∷ []) ≡ true
distinct-snoc y [] h k = refl
distinct-snoc y (x ∷ xs) h k = ground (
  arith,
  h,
  k,
  contains-snoc x y xs,
  distinct-snoc y xs,
  text_keys.same_iff x y,
  text_keys.same_iff y x,
)

abbrev pub with_scope : List String → String → List String
with_scope granted token = if contains granted token then granted else granted ++ token ∷ []

contains-with_scope :
    (x token : String) (granted : List String)
    → contains (with_scope granted token) x ≡ (contains granted x || token == x)
contains-with_scope x token granted = elim (Bool-cases (contains granted token)) [
  | inr h ↦ rw h (contains-snoc x token granted)
  | inl h ↦ elim (Bool-cases (token == x)) [
    | inl e ↦
        let same = (text_keys.same_iff token x).0 e in
        rw (h, e, subst (λ y. contains granted y ≡ true) same h)
    | inr e ↦ rw (h, e) (ground arith)
  ]
]

-- One step of the loop, where it goes on.
narrow-step :
    (allowed granted : List String) (token : String) (asked out : List String)
    → narrow allowed granted (token ∷ asked) ≡ done out
    → (is_scope_token token ≡ true)
      × (contains allowed token ≡ true)
      × (narrow allowed (with_scope granted token) asked ≡ done out)
unfolding narrow
narrow-step allowed granted token asked out h = elim (Bool-cases (is_scope_token token)) [
  | inr e ↦ absurd (ground (arith, h, e))
  | inl e ↦ elim (Bool-cases (contains allowed token)) [
    | inr g ↦ absurd (ground (arith, h, e, g))
    | inl g ↦ (e, g, ground (arith, h, e, g))
  ]
]

narrow-contains :
    (allowed granted asked out : List String) (x : String)
    → narrow allowed granted asked ≡ done out
    → contains out x ≡ (contains granted x || contains asked x)
narrow-contains allowed granted [] out x h = unfold narrow in ground (arith, h)
narrow-contains allowed granted (token ∷ asked) out x h =
    let (_, _, k) = narrow-step allowed granted token asked out h in
    ground (
      arith,
      narrow-contains allowed (with_scope granted token) asked out x k,
      contains-with_scope x token granted,
    )

abbrev WithinAll : List String → List String → Type 0
WithinAll allowed = All (λ x. contains allowed x ≡ true)

WithinAll-with_scope :
    (allowed granted : List String) (token : String)
    → contains allowed token ≡ true
    → WithinAll allowed granted
    → WithinAll allowed (with_scope granted token)
WithinAll-with_scope allowed granted token h k = elim (Bool-cases (contains granted token)) [
  | inl e ↦ rw e k
  | inr e ↦ rw e (snoc granted k)
]
  where
    snoc : (xs : List String) → WithinAll allowed xs → WithinAll allowed (xs ++ token ∷ [])
    snoc [] q = (h, tt)
    snoc (x ∷ xs) q = (q.0, snoc xs q.1)

distinct-with_scope :
    (granted : List String) (token : String)
    → distinct granted ≡ true
    → distinct (with_scope granted token) ≡ true
distinct-with_scope granted token h = elim (Bool-cases (contains granted token)) [
  | inl e ↦ rw e h
  | inr e ↦ rw e (distinct-snoc token granted e h)
]

narrow-within :
    (allowed granted asked out : List String)
    → narrow allowed granted asked ≡ done out
    → WithinAll allowed granted × (distinct granted ≡ true)
    → WithinAll allowed out × (distinct out ≡ true)
narrow-within allowed granted [] out h k =
    let same : granted ≡ out = unfold narrow in ground (arith, h) in
    subst (λ xs. WithinAll allowed xs × (distinct xs ≡ true)) same k
narrow-within allowed granted (token ∷ asked) out h k =
    let (_, g, n) = narrow-step allowed granted token asked out h in
    narrow-within allowed (with_scope granted token) asked out n
      (WithinAll-with_scope allowed granted token g k.0, distinct-with_scope granted token k.1)

-- A request that is narrowed gets the scopes it asks for, each once, and none that is not allowed.
pub narrow_scopes-done :
    (text : String) (allowed granted : List String) (x : String)
    → narrow_scopes (some text) allowed ≡ done granted
    → (contains granted x ≡ contains (asked_tokens text) x)
      × All (λ scope. contains allowed scope ≡ true) granted
      × (distinct granted ≡ true)
unfolding narrow_scopes
narrow_scopes-done text allowed granted x h =
    let k = narrow-within allowed [] (asked_tokens text) granted h (tt, refl) in
    (narrow-contains allowed [] (asked_tokens text) granted x h, k.0, k.1)

abbrev pub is_done {ℓ} : {A : Type ℓ} → Result A → Bool
is_done (done a) = true
is_done (failing e) = false

abbrev pub is_grantable : List String → String → Bool
is_grantable allowed token = is_scope_token token && contains allowed token

narrow-is_done :
    (allowed granted asked : List String)
    → is_done (narrow allowed granted asked) ≡ all (is_grantable allowed) asked
unfolding narrow
narrow-is_done allowed granted [] = refl
narrow-is_done allowed granted (token ∷ asked) =
    ground (arith, narrow-is_done allowed (with_scope granted token) asked)

-- A request is narrowed exactly when each scope that it asks for is well formed and allowed: one that
-- is not refuses the whole request, and is not left out of it.
pub narrow_scopes-is_done :
    (text : String) (allowed : List String)
    → is_done (narrow_scopes (some text) allowed) ≡ all (is_grantable allowed) (asked_tokens text)
unfolding narrow_scopes
narrow_scopes-is_done text allowed = narrow-is_done allowed [] (asked_tokens text)
