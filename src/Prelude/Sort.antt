-- ===== src/Prelude/Sort.antt =====
-- `sort.Slice` and `sort.Strings` as insertion, and what survives a sort. `less` is Go's `less`.
use mathlib.Core.Path.{◌≡◌, refl}
use mathlib.Core.Logic.{inl, inr}
use mathlib.Core.Bool.{Bool, true, false}
use mathlib.Core.List.{List, [], ◌∷◌}
use native.Mathlib.Omega.{arith}
use kube_ovn_global_vpc.Prelude.Tests.{if◌then◌else◌, Bool-cases}
use kube_ovn_global_vpc.Prelude.Lists.{length, any, All, Pairs, Some, here, there}

module _ {ℓ} {A : Type ℓ} (less : A → A → Bool) where
  unfoldable pub insert_by : A → List A → List A
  insert_by x [] = x ∷ []
  insert_by x (y ∷ ys) = let rest = insert_by x ys in if less y x then y ∷ rest else x ∷ y ∷ ys

  unfoldable pub sort_by : List A → List A
  sort_by [] = []
  sort_by (x ∷ xs) = insert_by x (sort_by xs)

  pub length-insert_by : (x : A) (ys : List A) → length (insert_by x ys) ≡ length (x ∷ ys)
  unfolding insert_by
  length-insert_by x [] = refl
  length-insert_by x (y ∷ ys) = ground (arith, length-insert_by x ys)

  pub length-sort_by : (xs : List A) → length (sort_by xs) ≡ length xs
  unfolding sort_by
  length-sort_by [] = refl
  length-sort_by (x ∷ xs) = ground (arith, length-insert_by x (sort_by xs), length-sort_by xs)

module _ {ℓ κ} {A : Type ℓ} (less : A → A → Bool) (P : A → Type κ) where
  pub All-insert_by : (x : A) (ys : List A) → P x → All P ys → All P (insert_by less x ys)
  unfolding insert_by
  All-insert_by x [] p h = (p, tt)
  All-insert_by x (y ∷ ys) p h = elim (Bool-cases (less y x)) [
    | inl e ↦ rw e (h.0, All-insert_by x ys p h.1)
    | inr e ↦ rw e (p, h)
  ]

  pub All_of_insert_by : (x : A) (ys : List A) → All P (insert_by less x ys) → P x × All P ys
  unfolding insert_by
  All_of_insert_by x [] h = h
  All_of_insert_by x (y ∷ ys) h = elim (Bool-cases (less y x)) [
    | inl e ↦ let g = rw e at h in let ih = All_of_insert_by x ys g.1 in (ih.0, (g.0, ih.1))
    | inr e ↦ rw e at h
  ]

  pub All-sort_by : (xs : List A) → All P xs → All P (sort_by less xs)
  unfolding sort_by
  All-sort_by [] h = tt
  All-sort_by (x ∷ xs) h = All-insert_by x (sort_by less xs) h.0 (All-sort_by xs h.1)

  pub All_of_sort_by : (xs : List A) → All P (sort_by less xs) → All P xs
  unfolding sort_by
  All_of_sort_by [] h = tt
  All_of_sort_by (x ∷ xs) h =
      let ih = All_of_insert_by x (sort_by less xs) h in (ih.0, All_of_sort_by xs ih.1)

module _ {ℓ} {A : Type ℓ} (less : A → A → Bool) (R : A → A → Type 0) where
  -- a symmetric relation between all pairs does not depend on the order
  pub Pairs-insert_by :
      ((a b : A) → R a b → R b a)
      → (x : A) (ys : List A) → All (R x) ys
      → Pairs R ys
      → Pairs R (insert_by less x ys)
  unfolding insert_by
  Pairs-insert_by symm x [] hx h = (tt, tt)
  Pairs-insert_by symm x (y ∷ ys) hx h = elim (Bool-cases (less y x)) [
    | inl e ↦
        rw e (All-insert_by less (R y) x ys (symm x y hx.0) h.0, Pairs-insert_by symm x ys hx.1 h.1)
    | inr e ↦ rw e (hx, h)
  ]

  pub Pairs-sort_by :
      ((a b : A) → R a b → R b a) → (xs : List A) → Pairs R xs → Pairs R (sort_by less xs)
  unfolding sort_by
  Pairs-sort_by symm [] h = tt
  Pairs-sort_by symm (x ∷ xs) h =
      Pairs-insert_by symm x (sort_by less xs) (All-sort_by less (R x) xs h.0)
        (Pairs-sort_by symm xs h.1)

module _ {ℓ} {A : Type ℓ} (less : A → A → Bool) where
  -- no element is less than one before it
  abbrev pub IsSorted : List A → Type 0
  IsSorted = Pairs (λ a b. less b a ≡ false)

  pub IsSorted-insert_by :
      ((a b : A) → less a b ≡ true → less b a ≡ false)
      → ((a b c : A) → less b a ≡ false → less c b ≡ false → less c a ≡ false)
      → (x : A) (ys : List A) → IsSorted ys
      → IsSorted (insert_by less x ys)
  unfolding insert_by
  IsSorted-insert_by asym trans x [] h = (tt, tt)
  IsSorted-insert_by asym trans x (y ∷ ys) h = elim (Bool-cases (less y x)) [
    | inl e ↦ rw e (
      All-insert_by less (λ b. less b y ≡ false) x ys (asym y x e) h.0,
      IsSorted-insert_by asym trans x ys h.1,
    )
    | inr e ↦ rw e ((e, after trans x y ys e h.0), h)
  ]
    where
      after :
          ((a b c : A) → less b a ≡ false → less c b ≡ false → less c a ≡ false)
          → (x y : A) (zs : List A) → less y x ≡ false
          → All (λ b. less b y ≡ false) zs
          → All (λ b. less b x ≡ false) zs
      after trans x y [] e h = tt
      after trans x y (z ∷ zs) e h = (trans x y z e h.0, after trans x y zs e h.1)

  pub sort_by-IsSorted :
      ((a b : A) → less a b ≡ true → less b a ≡ false)
      → ((a b c : A) → less b a ≡ false → less c b ≡ false → less c a ≡ false)
      → (xs : List A) → IsSorted (sort_by less xs)
  unfolding sort_by
  sort_by-IsSorted asym trans [] = tt
  sort_by-IsSorted asym trans (x ∷ xs) =
      IsSorted-insert_by asym trans x (sort_by less xs) (sort_by-IsSorted asym trans xs)

module _ {ℓ κ} {A : Type ℓ} (less : A → A → Bool) {P : A → Type κ} where
  Some-insert_by_here : (x : A) (ys : List A) → P x → Some P (insert_by less x ys)
  unfolding insert_by
  Some-insert_by_here x [] p = here p
  Some-insert_by_here x (y ∷ ys) p = elim (Bool-cases (less y x)) [
    | inl e ↦ rw e (there (Some-insert_by_here x ys p))
    | inr e ↦ rw e (here p)
  ]

  Some-insert_by_there : (x : A) (ys : List A) → Some P ys → Some P (insert_by less x ys)
  unfolding insert_by
  Some-insert_by_there x (y ∷ ys) (here p) = elim (Bool-cases (less y x)) [
    | inl e ↦ rw e (here p)
    | inr e ↦ rw e (there (here p))
  ]
  Some-insert_by_there x (y ∷ ys) (there m) = elim (Bool-cases (less y x)) [
    | inl e ↦ rw e (there (Some-insert_by_there x ys m))
    | inr e ↦ rw e (there (there m))
  ]
  Some-insert_by_there x [] m = elim m [ ]

  -- an element with a property is still there behind a sort
  pub Some-sort_by : (xs : List A) → Some P xs → Some P (sort_by less xs)
  unfolding sort_by
  Some-sort_by (x ∷ xs) (here p) = Some-insert_by_here x (sort_by less xs) p
  Some-sort_by (x ∷ xs) (there m) = Some-insert_by_there x (sort_by less xs) (Some-sort_by xs m)
  Some-sort_by [] m = elim m [ ]

module _ {ℓ} {A : Type ℓ} (less : A → A → Bool) (p : A → Bool) where
  any-insert_by : (x : A) (ys : List A) → any p (insert_by less x ys) ≡ any p (x ∷ ys)
  unfolding insert_by any
  any-insert_by x [] = refl
  any-insert_by x (y ∷ ys) = ground (arith, any-insert_by x ys)

  pub any-sort_by : (xs : List A) → any p (sort_by less xs) ≡ any p xs
  unfolding sort_by any
  any-sort_by [] = refl
  any-sort_by (x ∷ xs) = ground (arith, any-insert_by x (sort_by less xs), any-sort_by xs)
