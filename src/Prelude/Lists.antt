-- ===== src/Prelude/Lists.antt =====
-- Lists measured by native numbers, predicates over lists by recursion, and tests of membership.
use Prim.Native.Nat.{ℕ, suc}
use mathlib.Core.Path.{◌≡◌, refl, sym}
use mathlib.Core.Logic.{◌≢◌, inl, inr}
use mathlib.Core.Bool.{Bool, true, false, ◌||◌}
use mathlib.Core.List.{List, [], ◌∷◌, ◌++◌}
use native.Mathlib.Omega.{arith}
use kube_ovn_global_vpc.Prelude.Tests.{Bool-cases}

module _ {ℓ} {A : Type ℓ} where
  abbrev pub length : List A → ℕ
  length [] = 0
  length (x ∷ xs) = suc (length xs)

  abbrev pub is_empty : List A → Bool
  is_empty [] = true
  is_empty (x ∷ xs) = false

  -- a test that some, or every, element passes
  unfoldable pub any : (A → Bool) → List A → Bool
  any p [] = false
  any p (x ∷ xs) = p x || any p xs

module _ {ℓ κ} {A : Type ℓ} where
  abbrev pub All : (A → Type κ) → List A → Type κ
  All P [] = Unit
  All P (x ∷ xs) = P x × All P xs

  -- some element satisfies the predicate, with the place where it stands
  pub data Some (P : A → Type κ) : List A → Type (ℓ ⊔ κ) where
    here : {x : A} {xs : List A} → P x → Some P (x ∷ xs)
    there : {x : A} {xs : List A} → Some P xs → Some P (x ∷ xs)

module _ {ℓ} {A : Type ℓ} where
  -- an element of a list
  abbrev pub In : A → List A → Type ℓ
  In a xs = Some (λ x. x ≡ a) xs

  -- every element is related to all the later ones
  abbrev pub Pairs : (A → A → Type 0) → List A → Type 0
  Pairs R [] = Unit
  Pairs R (x ∷ xs) = All (R x) xs × Pairs R xs

module _ {ℓ κ} {A : Type ℓ} (P : A → Type κ) where
  pub All-In : (a : A) (xs : List A) → All P xs → In a xs → P a
  All-In a _ h (here e) = unfold_eq e h.0
    where
      unfold_eq : {x : A} → x ≡ a → P x → P a
      unfold_eq e p = rw (sym e) p
  All-In a (x ∷ xs) h (there m) = All-In a xs h.1 m

  pub All-append : (xs ys : List A) → All P xs → All P ys → All P (xs ++ ys)
  All-append [] ys _ hy = hy
  All-append (x ∷ xs) ys h hy = (h.0, All-append xs ys h.1 hy)

  pub All-tabulate : (xs : List A) → ((a : A) → In a xs → P a) → All P xs
  All-tabulate [] f = tt
  All-tabulate (x ∷ xs) f = (f x (here refl), All-tabulate xs (λ a m. f a (there m)))

module _ {ℓ κ μ} {A : Type ℓ} {P : A → Type κ} {Q : A → Type μ} where
  pub All-map : ((a : A) → P a → Q a) → (xs : List A) → All P xs → All Q xs
  All-map f [] h = tt
  All-map f (x ∷ xs) h = (f x h.0, All-map f xs h.1)

module _ {ℓ} {A : Type ℓ} (p : A → Bool) where
  pub any-false : (xs : List A) → any p xs ≡ false → All (λ x. p x ≡ false) xs
  unfolding any
  any-false [] h = tt
  any-false (x ∷ xs) h = (ground arith, any-false xs (ground arith))

  pub any-true : (a : A) (xs : List A) → In a xs → p a ≡ true → any p xs ≡ true
  unfolding any
  any-true a [] m h = elim m [ ]
  any-true a (x ∷ xs) (here e) h = ground arith
  any-true a (x ∷ xs) (there m) h = ground (arith, any-true a xs m h)

module _ {ℓ} {A : Type ℓ} where
  pub is_empty-true : (xs : List A) → is_empty xs ≡ true → xs ≡ []
  is_empty-true [] h = refl
  is_empty-true (x ∷ xs) h = cc

  pub is_empty-false : (xs : List A) → is_empty xs ≡ false → xs ≢ []
  is_empty-false [] h e = cc
  is_empty-false (x ∷ xs) h e = cc

module _ {ℓ} {A : Type ℓ} (p : A → Bool) where
  pub any-Some : (xs : List A) → any p xs ≡ true → Some (λ x. p x ≡ true) xs
  unfolding any
  any-Some [] h = cc
  any-Some (x ∷ xs) h = elim (Bool-cases (p x)) [
    | inl e ↦ here e
    | inr e ↦ there (any-Some xs (rw e at h))
  ]

  pub Some-any : (xs : List A) → Some (λ x. p x ≡ true) xs → any p xs ≡ true
  unfolding any
  Some-any [] m = elim m [ ]
  Some-any (x ∷ xs) (here e) = ground arith
  Some-any (x ∷ xs) (there m) = ground (arith, Some-any xs m)

module _ {ℓ κ μ} {A : Type ℓ} {P : A → Type κ} {Q : A → Type μ} where
  pub Some-map : ((a : A) → P a → Q a) → (xs : List A) → Some P xs → Some Q xs
  Some-map f [] m = elim m [ ]
  Some-map f (x ∷ xs) (here p) = here (f x p)
  Some-map f (x ∷ xs) (there m) = there (Some-map f xs m)
