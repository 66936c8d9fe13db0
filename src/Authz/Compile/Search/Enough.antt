-- ===== src/Authz/Compile/Search/Enough.antt =====
-- The fuel of the search of a permission that computes itself is enough.
use saffui.Base.{
  ℕ, zero, suc, ◌+◌, ◌≤◌, ◌<◌, ◌≡◌, ◌≢◌, refl, String, true, false, ◌||◌, some, List, [], ◌∷◌, ◌++◌,
  text_keys, contains, get, arith, if◌then◌else◌, length, All, Option-cases, inl, inr, Bool-cases,
}
use saffui.Authz.Schema.{Rule}
use saffui.Authz.Compile.Cycles.{
  collect, push_unseen, search, computed_names, search_fuel, exhausted,
}

-- How many of the names are not seen.
unseen : List String → List String → ℕ
unseen [] seen = 0
unseen (x ∷ xs) seen = if contains seen x then unseen xs seen else suc (unseen xs seen)

unseen_none : (xs : List String) → unseen xs [] ≡ length xs
unfolding unseen
unseen_none [] = refl
unseen_none (x ∷ xs) = ground (arith, unseen_none xs)

unseen_less : (xs seen : List String) (m : String) → unseen xs (m ∷ seen) ≤ unseen xs seen
unfolding unseen
unseen_less [] seen m = omega arith
unseen_less (x ∷ xs) seen m = ground (arith, unseen_less xs seen m)

unseen_fewer :
    (xs seen : List String) (m : String)
    → contains xs m ≡ true
    → contains seen m ≡ false
    → unseen xs (m ∷ seen) < unseen xs seen
unfolding unseen
unseen_fewer [] seen m h n = absurd (ground (arith, h))
unseen_fewer (x ∷ xs) seen m h n = ground (
  arith,
  h,
  n,
  text_keys.same_iff x m,
  text_keys.same_iff m x,
  unseen_less xs seen m,
  unseen_fewer xs seen m,
)

abbrev Among : List String → List String → Type 0
Among names = All (λ x. contains names x ≡ true)

push_unseen_less :
    (names next stack seen : List String)
    → Among names next
    → length (push_unseen next stack seen).0 + unseen names (push_unseen next stack seen).1
      ≤ length stack + unseen names seen
unfolding push_unseen
push_unseen_less names [] stack seen a = omega arith
push_unseen_less names (m ∷ next) stack seen a = elim (Bool-cases (contains seen m)) [
  | inl e ↦ ground (arith, e, push_unseen_less names next stack seen a.1)
  | inr e ↦ ground (
    arith,
    e,
    push_unseen_less names next (m ∷ stack) (m ∷ seen) a.1,
    unseen_fewer names seen m a.0 e,
  )
]

contains-append :
    (xs ys : List String) (m : String) → contains (xs ++ ys) m ≡ (contains xs m || contains ys m)
contains-append [] ys m = refl
contains-append (x ∷ xs) ys m = ground (arith, contains-append xs ys m)

All-contains :
    (names zs : List String)
    → ((m : String) → contains zs m ≡ true → contains names m ≡ true)
    → Among names zs
All-contains names [] h = tt
All-contains names (z ∷ zs) h = (
  h z (ground (arith, text_keys.same_iff z z)),
  All-contains names zs (λ m e. h m (ground (arith, e))),
)

contains-computed_names :
    (permissions : List (String × Rule)) (m n : String) (rule : Rule)
    → get permissions m ≡ some rule
    → contains (collect rule) n ≡ true
    → contains (computed_names permissions) n ≡ true
unfolding computed_names
contains-computed_names [] m n rule e h = absurd (ground (arith, e))
contains-computed_names ((k, r) ∷ rest) m n rule e h = ground (
  arith,
  e,
  h,
  contains-append (collect r) (computed_names rest) n,
  contains-computed_names rest m n rule,
)

search_enough :
    (fuel : ℕ) (permissions : List (String × Rule)) (start : String) (stack seen : List String)
    → length stack + unseen (computed_names permissions) seen < fuel
    → search fuel permissions start stack seen ≢ exhausted
unfolding search
search_enough zero permissions start stack seen h e = absurd (omega (arith, h))
search_enough (suc fuel) permissions start [] seen h e = absurd (ground (arith, e))
search_enough (suc fuel) permissions start (m ∷ stack) seen h e =
    elim (Option-cases (get permissions m)) [
      | inl n ↦
          search_enough fuel permissions start stack seen (omega (arith, h)) (ground (arith, e, n))
      | inr s ↦
          let next = collect s.0 in
          let pushed = push_unseen next stack seen in
          elim (Bool-cases (contains next start)) [
            | inl c ↦ absurd (ground (arith, e, s.1, c))
            | inr c ↦
                search_enough fuel permissions start pushed.0 pushed.1
                  (omega (
                    arith,
                    h,
                    push_unseen_less (computed_names permissions) next stack seen (
                        All-contains (computed_names permissions) next
                          (λ n. contains-computed_names permissions m n s.0 s.1)),
                  ))
                  (ground (arith, e, s.1, c))
          ]
    ]

-- The search of a permission always ends: its fuel is never exhausted.
pub search-ends :
    (permissions : List (String × Rule)) (start : String)
    → search (search_fuel permissions) permissions start (start ∷ []) [] ≢ exhausted
unfolding search_fuel
search-ends permissions start =
    search_enough (search_fuel permissions) permissions start (start ∷ []) []
      (omega (arith, unseen_none (computed_names permissions)))
