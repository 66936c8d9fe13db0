-- ===== src/Base/Members.antt =====
-- What the tests on lists say of the elements.
use mathlib.Core.Path.{◌≡◌, refl, sym, subst, ◌∙◌}
use mathlib.Core.Logic.{inl, inr, ∥∥₁_elim}
use mathlib.Core.Bool.{Bool, true}
use mathlib.Core.List.{List, [], ◌∷◌, Memᴰ, Perm, Permᴰ}
use native.Mathlib.Omega.{arith}
use saffui.Base.Tests.{Bool-cases}
use saffui.Base.Lists.{any, filter_by}

Bool_set : IsSet Bool
Bool_set = hlevel

module _ {ℓ} {A : Type ℓ} (p : A → Bool) where
  pub any-mem : (xs : List A) → any p xs ≡ true → (x : A) × Memᴰ x xs × (p x ≡ true)
  any-mem [] h = absurd (cc)
  any-mem (x ∷ xs) h = elim (Bool-cases (p x)) [
    | inl e ↦ (x, Memᴰ.head refl, e)
    | inr e ↦ let (y, m, q) = any-mem xs (rw e at h) in (y, Memᴰ.tail m, q)
  ]

  pub mem-any : (x : A) (xs : List A) → Memᴰ x xs → p x ≡ true → any p xs ≡ true
  mem-any x [] m h = elim m [ ]
  mem-any x (y ∷ xs) (Memᴰ.head e) h = rw ((subst (λ z. p z ≡ true) e h))
  mem-any x (y ∷ xs) (Memᴰ.tail m) h = ground (arith, mem-any x xs m h)

  pub mem-filter_by : (x : A) (xs : List A) → Memᴰ x xs → p x ≡ true → Memᴰ x (filter_by p xs)
  mem-filter_by x [] m h = elim m [ ]
  mem-filter_by x (y ∷ xs) (Memᴰ.head e) h = rw ((subst (λ z. p z ≡ true) e h)) (Memᴰ.head e)
  mem-filter_by x (y ∷ xs) (Memᴰ.tail m) h = elim (Bool-cases (p y)) [
    | inl e ↦ rw e (Memᴰ.tail (mem-filter_by x xs m h))
    | inr e ↦ rw e (mem-filter_by x xs m h)
  ]

  kept_head :
      (x y : A) (xs : List A)
      → (Memᴰ x (filter_by p xs) → Memᴰ x xs × (p x ≡ true))
      → p y ≡ true
      → Memᴰ x (y ∷ filter_by p xs)
      → Memᴰ x (y ∷ xs) × (p x ≡ true)
  kept_head x y xs ih e (Memᴰ.head s) = (Memᴰ.head s, subst (λ z. p z ≡ true) (sym s) e)
  kept_head x y xs ih e (Memᴰ.tail n) = let (k, q) = ih n in (Memᴰ.tail k, q)

  pub filter_by-mem : (x : A) (xs : List A) → Memᴰ x (filter_by p xs) → Memᴰ x xs × (p x ≡ true)
  filter_by-mem x [] m = elim m [ ]
  filter_by-mem x (y ∷ xs) m = elim (Bool-cases (p y)) [
    | inl e ↦ kept_head x y xs (filter_by-mem x xs) e (rw e at m)
    | inr e ↦ let (n, q) = filter_by-mem x xs (rw e at m) in (Memᴰ.tail n, q)
  ]

module _ {ℓ} {A : Type ℓ} (p : A → Bool) where
  any-permᴰ : {xs ys : List A} → Permᴰ xs ys → any p xs ≡ any p ys
  any-permᴰ Permᴰ.nil = refl
  any-permᴰ (Permᴰ.cons e h) = rw (e, any-permᴰ h)
  any-permᴰ (Permᴰ.swap {a} {b} e f) = rw (← e, ← f) (ground arith)
  any-permᴰ (Permᴰ.trans h k) = any-permᴰ h ∙ any-permᴰ k

  pub any-perm : (xs ys : List A) → Perm xs ys → any p xs ≡ any p ys
  any-perm xs ys h = ∥∥₁_elim h (Bool_set (any p xs) (any p ys)) any-permᴰ
