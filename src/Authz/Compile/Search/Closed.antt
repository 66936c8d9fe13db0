-- ===== src/Authz/Compile/Search/Closed.antt =====
-- Where the search of a permission finishes, no permission it got to computes the one it started from.
use saffui.Base.{
  ℕ, zero, suc, ◌≡◌, ◌≢◌, ◌↔◌, refl, String, true, false, none, some, List, [], ◌∷◌, text_keys,
  ◌==◌, contains, get, arith, Option-cases, ◌⊎◌, inl, inr, Bool-cases,
}
use saffui.Authz.Schema.{Rule}
use saffui.Authz.Compile.Cycles.{
  collect, push_unseen, search, search_fuel, Search, exhausted, computes_itself, finished,
}
use saffui.Authz.Compile.Search.{Computes, Way, one, more}
use saffui.Authz.Compile.Search.Enough.{search-ends}
use saffui.Authz.Compile.Search.Found.{search-Way}

-- A name of a list.
abbrev In : List String → String → Type 0
In xs m = contains xs m ≡ true

push-seen :
    (next stack seen : List String) (q : String) → In seen q → In (push_unseen next stack seen).1 q
unfolding push_unseen
push-seen [] stack seen q h = h
push-seen (m ∷ next) stack seen q h =
    ground (arith, h, push-seen next stack seen q, push-seen next (m ∷ stack) (m ∷ seen) q)

push-next :
    (next stack seen : List String) (q : String) → In next q → In (push_unseen next stack seen).1 q
unfolding push_unseen
push-next [] stack seen q h = absurd (ground (arith, h))
push-next (m ∷ next) stack seen q h = ground (
  arith,
  h,
  text_keys.same_iff m q,
  push-seen next stack seen q,
  push-seen next (m ∷ stack) (m ∷ seen) q,
  push-next next stack seen q,
  push-next next (m ∷ stack) (m ∷ seen) q,
)

push-stack :
    (next stack seen : List String) (q : String) → In stack q → In (push_unseen next stack seen).0 q
unfolding push_unseen
push-stack [] stack seen q h = h
push-stack (m ∷ next) stack seen q h =
    ground (arith, h, push-stack next stack seen q, push-stack next (m ∷ stack) (m ∷ seen) q)

push-from :
    (next stack seen : List String) (q : String)
    → In (push_unseen next stack seen).1 q
    → In seen q ⊎ In (push_unseen next stack seen).0 q
unfolding push_unseen
push-from [] stack seen q h = inl h
push-from (m ∷ next) stack seen q h = elim (Bool-cases (contains seen m)) [
  | inl e ↦ ground (arith, e, h, push-from next stack seen q)
  | inr e ↦ ground (
    arith,
    e,
    h,
    push-from next (m ∷ stack) (m ∷ seen) q,
    push-stack next (m ∷ stack) (m ∷ seen) q,
  )
]

-- The names popped so far, closed up to what is seen.
record Popped (permissions : List (String × Rule)) (start : String)
    (popped stack seen : List String) : Type 0 where
  onward : (p q : String) → In popped p → Computes permissions p q → (q ≢ start) × In seen q
  seen_only : (q : String) → In seen q → In popped q ⊎ In stack q
  origin : In popped start ⊎ In stack start

-- A set that holds the permission, is closed, and computes it nowhere.
record Closed (permissions : List (String × Rule)) (start : String) (set : List String)
    : Type 0 where
  holds_start : In set start
  closed : (p q : String) → In set p → Computes permissions p q → (q ≢ start) × In set q

Popped-Closed :
    (permissions : List (String × Rule)) (start : String) (popped seen : List String)
    → Popped permissions start popped [] seen
    → Closed permissions start popped
Popped-Closed permissions start popped seen w = record {
  holds_start = ground (arith, w.origin);
  closed = λ p q h c. let next = w.onward p q h c in (next.0, ground (arith, w.seen_only q next.1));
}

pop-none :
    (permissions : List (String × Rule)) (start m : String) (popped stack seen : List String)
    → get permissions m ≡ none
    → Popped permissions start popped (m ∷ stack) seen
    → Popped permissions start (m ∷ popped) stack seen
unfolding Computes
pop-none permissions start m popped stack seen e w = record {
  onward = λ p q h c. elim (Bool-cases (m == p)) [
    | inl s ↦ absurd (ground (arith, e, c.1, text_keys.same_iff m p))
    | inr s ↦ w.onward p q (ground (arith, h, s)) c
  ];
  seen_only = λ q h. ground (arith, w.seen_only q h);
  origin = ground (arith, w.origin);
}

pop-some :
    (permissions : List (String × Rule)) (start m : String) (rule : Rule)
    (popped stack seen : List String)
    → get permissions m ≡ some rule
    → contains (collect rule) start ≡ false
    → Popped permissions start popped (m ∷ stack) seen
    → Popped permissions start
        (m ∷ popped)
        (push_unseen (collect rule) stack seen).0
        (push_unseen (collect rule) stack seen).1
unfolding Computes
pop-some permissions start m rule popped stack seen e n w = record {
  onward = λ p q h c. elim (Bool-cases (m == p)) [
    | inl s ↦
        let held : In (collect rule) q = ground (arith, e, c.1, c.2, text_keys.same_iff m p) in
        ((λ r. absurd (ground (arith, n, held, r))), push-next (collect rule) stack seen q held)
    | inr s ↦
        let old = w.onward p q (ground (arith, h, s)) c in
        (old.0, push-seen (collect rule) stack seen q old.1)
  ];
  seen_only = λ q h. ground (
    arith,
    push-from (collect rule) stack seen q h,
    w.seen_only q,
    push-stack (collect rule) stack seen q,
  );
  origin = ground (arith, w.origin, push-stack (collect rule) stack seen start);
}

search-Closed :
    (fuel : ℕ) (permissions : List (String × Rule)) (start : String)
    (popped stack seen : List String)
    → Popped permissions start popped stack seen
    → search fuel permissions start stack seen ≡ finished
    → (set : List String) × Closed permissions start set
unfolding search
search-Closed zero permissions start popped stack seen w e = absurd (ground (arith, e))
search-Closed (suc fuel) permissions start popped [] seen w e =
    (popped, Popped-Closed permissions start popped seen w)
search-Closed (suc fuel) permissions start popped (m ∷ stack) seen w e =
    elim (Option-cases (get permissions m)) [
      | inl n ↦
          search-Closed fuel permissions start (m ∷ popped) stack seen
            (pop-none permissions start m popped stack seen n w) (ground (arith, e, n))
      | inr s ↦
          let next = collect s.0 in
          elim (Bool-cases (contains next start)) [
            | inl c ↦ absurd (ground (arith, e, s.1, c))
            | inr c ↦
                search-Closed fuel permissions start (m ∷ popped) (push_unseen next stack seen).0
                  (push_unseen next stack seen).1
                  (pop-some permissions start m s.0 popped stack seen s.1 c w)
                  (ground (arith, e, s.1, c))
          ]
    ]

Closed-Way :
    (permissions : List (String × Rule)) (start q : String) (set : List String)
    → Closed permissions start set
    → Way permissions start q
    → (q ≢ start) × In set q
Closed-Way permissions start q set w (one c) = w.closed start q w.holds_start c
Closed-Way permissions start q set w (more {b} p c) =
    w.closed b q (Closed-Way permissions start b set w p).1 c

start-Popped :
    (permissions : List (String × Rule)) (start : String)
    → Popped permissions start [] (start ∷ []) []
start-Popped permissions start = record {
  onward = λ p q h c. absurd (ground (arith, h));
  seen_only = λ q h. absurd (ground (arith, h));
  origin = ground (arith, text_keys.same_iff start start);
}

-- A permission is found to compute itself exactly when it does, in one step or in several.
pub search-Way_iff :
    (permissions : List (String × Rule)) (start : String)
    → (search (search_fuel permissions) permissions start (start ∷ []) [] ≡ computes_itself)
      ↔ Way permissions start start
search-Way_iff permissions start = (
  search-Way (search_fuel permissions) permissions start (start ∷ []) [] (inl refl, tt),
  (λ p. decided p (search (search_fuel permissions) permissions start (start ∷ []) []) refl),
)
  where
    decided :
        Way permissions start start
        → (s : Search) → search (search_fuel permissions) permissions start (start ∷ []) [] ≡ s
        → search (search_fuel permissions) permissions start (start ∷ []) [] ≡ computes_itself
    decided p computes_itself e = e
    decided p exhausted e = absurd (search-ends permissions start e)
    decided p finished e =
        let c =
          search-Closed (search_fuel permissions) permissions start [] (start ∷ []) []
            (start-Popped permissions start) e in
        absurd ((Closed-Way permissions start start c.0 c.1 p).0 refl)
