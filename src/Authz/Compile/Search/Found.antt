-- ===== src/Authz/Compile/Search/Found.antt =====
-- What the search of a permission finds is a way from the permission to itself.
use saffui.Base.{
  ℕ, zero, suc, ◌≡◌, sym, subst, String, true, List, [], ◌∷◌, text_keys, contains, get, arith,
  if◌then◌else◌, All, Option-cases, ◌⊎◌, inl, inr, Bool-cases,
}
use saffui.Authz.Schema.{Rule}
use saffui.Authz.Compile.Cycles.{collect, push_unseen, search, computes_itself}
use saffui.Authz.Compile.Search.{Computes, Way, one, more}

-- What the search gets to: the permission it starts from, and what that one computes.
abbrev Reached : List (String × Rule) → String → String → Type 0
Reached permissions start m = (m ≡ start) ⊎ Way permissions start m

step :
    (permissions : List (String × Rule)) (start m n : String)
    → Reached permissions start m
    → Computes permissions m n
    → Way permissions start n
step permissions start m n (inl e) c = one (subst (λ k. Computes permissions k n) e c)
step permissions start m n (inr p) c = more p c

push-Reached :
    (permissions : List (String × Rule)) (start : String) (next stack seen : List String)
    → All (Reached permissions start) next
    → All (Reached permissions start) stack
    → All (Reached permissions start) (push_unseen next stack seen).0
unfolding push_unseen
push-Reached permissions start [] stack seen a b = b
push-Reached permissions start (m ∷ next) stack seen a b = elim (Bool-cases (contains seen m)) [
  | inl e ↦
      subst
        (λ c.
          All (Reached permissions start)
            (if c then push_unseen next stack seen else push_unseen next (m ∷ stack) (m ∷ seen)).0)
        (sym e) (push-Reached permissions start next stack seen a.1 b)
  | inr e ↦
      subst
        (λ c.
          All (Reached permissions start)
            (if c then push_unseen next stack seen else push_unseen next (m ∷ stack) (m ∷ seen)).0)
        (sym e) (push-Reached permissions start next (m ∷ stack) (m ∷ seen) a.1 (a.0, b))
]

All-next :
    (permissions : List (String × Rule)) (start m : String) (zs : List String)
    → Reached permissions start m
    → ((n : String) → contains zs n ≡ true → Computes permissions m n)
    → All (Reached permissions start) zs
All-next permissions start m [] r h = tt
All-next permissions start m (z ∷ zs) r h = (
  inr (step permissions start m z r (h z (ground (arith, text_keys.same_iff z z)))),
  All-next permissions start m zs r (λ n e. h n (ground (arith, e))),
)

pub search-Way :
    (fuel : ℕ) (permissions : List (String × Rule)) (start : String) (stack seen : List String)
    → All (Reached permissions start) stack
    → search fuel permissions start stack seen ≡ computes_itself
    → Way permissions start start
unfolding search Computes
search-Way zero permissions start stack seen a e = absurd (ground (arith, e))
search-Way (suc fuel) permissions start [] seen a e = absurd (ground (arith, e))
search-Way (suc fuel) permissions start (m ∷ stack) seen a e =
    elim (Option-cases (get permissions m)) [
      | inl n ↦ search-Way fuel permissions start stack seen a.1 (ground (arith, e, n))
      | inr s ↦
          let next = collect s.0 in
          elim (Bool-cases (contains next start)) [
            | inl c ↦ step permissions start m start a.0 (s.0, s.1, c)
            | inr c ↦
                search-Way fuel permissions start (push_unseen next stack seen).0
                  (push_unseen next stack seen).1
                  (push-Reached permissions start next stack seen
                    (All-next permissions start m next a.0 (λ n h. (s.0, s.1, h))) a.1)
                  (ground (arith, e, s.1, c))
          ]
    ]
