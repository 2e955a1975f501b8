-- ===== src/Prelude/Distinct.antt =====
-- A loop that checks every element, and that no text of an element was met before.
use Prim.Native.String.{String}
use mathlib.Core.Path.{◌≡◌, refl}
use mathlib.Core.Logic.{◌≢◌, ◌↔◌}
use mathlib.Core.Bool.{Bool, false, ◌||◌}
use mathlib.Core.List.{List, [], ◌∷◌, ◌++◌}
use native.Mathlib.Omega.{arith}
use text.Mathlib.TextEquality.{eq_iff}
use kube_ovn_global_vpc.Prelude.Tests.{or-false}
use kube_ovn_global_vpc.Prelude.Results.{Result, ok, reject, ◌>>◌, reject-eq-ok}
use kube_ovn_global_vpc.Prelude.Lists.{All, All-map, All-append, Pairs}
use kube_ovn_global_vpc.Prelude.Text.{contains_text, contains_text-false}

pub contains_text_absent :
    (s : String) (ts : List String) → All (λ t. t ≢ s) ts → contains_text s ts ≡ false
unfolding contains_text
contains_text_absent s [] h = refl
contains_text_absent s (t ∷ ts) h = ground (arith, eq_iff t s, h.0, contains_text_absent s ts h.1)

module _ {ℓ} {A : Type ℓ} (R : A → A → Type 0) where
  pub Pairs-append :
      (xs : List A) (y : A) → Pairs R xs → All (λ x. R x y) xs → Pairs R (xs ++ y ∷ [])
  Pairs-append [] y h k = (tt, tt)
  Pairs-append (x ∷ xs) y h k =
      (All-append (R x) xs (y ∷ []) h.0 (k.0, tt), Pairs-append xs y h.1 k.1)

module _ {A : Type 0} (bad : A → Bool) (text_of : A → String) (message : String) where
  unfoldable pub check_each : List String → List A → Result (Unit {0})
  check_each used [] = ok tt
  check_each used (x ∷ xs) = do
    reject (bad x || contains_text (text_of x) used) message
    check_each (text_of x ∷ used) xs

  -- the elements are good and their texts new
  abbrev Fresh : List String → A → Type 0
  Fresh used x = (bad x ≡ false) × All (λ t. t ≢ text_of x) used

  accepts :
      (used : List String) (xs : List A)
      → check_each used xs ≡ ok tt
      → All (Fresh used) xs × Pairs (λ x y. text_of x ≢ text_of y) xs
  unfolding check_each
  accepts used [] h = (tt, tt)
  accepts used (x ∷ xs) h =
      let (good, more) =
        reject-eq-ok (bad x || contains_text (text_of x) used) message
          (check_each (text_of x ∷ used) xs) h in
      let (fine, new) = or-false (bad x) (contains_text (text_of x) used) good in
      let (all, pairs) = accepts (text_of x ∷ used) xs more in
      (
        (
          (fine, contains_text-false (text_of x) used new),
          All-map {Q = Fresh used} (λ y f. (f.0, f.1.1)) xs all,
        ),
        (All-map {Q = λ y. text_of x ≢ text_of y} (λ y f. f.1.0) xs all, pairs),
      )

  accepted :
      (used : List String) (xs : List A)
      → All (Fresh used) xs
      → Pairs (λ x y. text_of x ≢ text_of y) xs
      → check_each used xs ≡ ok tt
  unfolding check_each
  accepted used [] all pairs = refl
  accepted used (x ∷ xs) all pairs =
      let (fine, new) = all.0 in
      rw (fine, contains_text_absent (text_of x) used new)
        (accepted (text_of x ∷ used) xs (joined xs all.1 pairs.0) pairs.1)
    where
      joined :
          (ys : List A)
          → All (Fresh used) ys
          → All (λ y. text_of x ≢ text_of y) ys
          → All (Fresh (text_of x ∷ used)) ys
      joined [] h k = tt
      joined (y ∷ ys) h k = ((h.0.0, (k.0, h.0.1)), joined ys h.1 k.1)

  -- The loop accepts a list exactly when every element is good and no two have one text.
  pub check_each_iff :
      (xs : List A)
      → (check_each [] xs ≡ ok tt)
        ↔ (All (λ x. bad x ≡ false) xs × Pairs (λ x y. text_of x ≢ text_of y) xs)
  check_each_iff xs = (
    (λ h.
        let (all, pairs) = accepts [] xs h in
        (All-map {Q = λ x. bad x ≡ false} (λ x f. f.0) xs all, pairs)),
    (λ p. accepted [] xs (All-map {Q = Fresh []} (λ x f. (f, tt)) xs p.0) p.1),
  )
