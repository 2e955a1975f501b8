-- ===== src/Prelude/Equality.antt =====
-- `reflect.DeepEqual` on the data of the program: equality tests with their soundness, by the parts
-- of a value. A nil slice and an empty one are one list.
use Prim.Native.Nat.{ℕ}
use Prim.Native.String.{String}
use mathlib.Core.Path.{◌≡◌, refl, sym, ap, ◌∙◌}
use mathlib.Core.Bool.{Bool, true, false, ◌&&◌, not}
use mathlib.Core.List.{List, [], ◌∷◌}
use native.Mathlib.Omega.{arith}
use text.Mathlib.Text.{◌==◌}
use text.Mathlib.TextEquality.{eq_iff}
use kube_ovn_global_vpc.Prelude.Tests.{eqb, eqb_iff, and-true}

pub record Equal (A : Type 0) : Type 0 where
  pub test : A → A → Bool
  pub sound : (a b : A) → test a b ≡ true → a ≡ b
  pub same : (a : A) → test a a ≡ true

abbrev pub text_equal : Equal String
text_equal = record { test = ◌==◌; sound = λ a b. (eq_iff a b).0; same = λ a. (eq_iff a a).1 refl }

abbrev pub number_equal : Equal ℕ
number_equal = record {
  test = eqb;
  sound = λ a b. (eqb_iff a b).0;
  same = λ a. (eqb_iff a a).1 refl;
}

abbrev same_bool : Bool → Bool → Bool
same_bool true b = b
same_bool false b = not b

pub bool_sound : (a b : Bool) → same_bool a b ≡ true → a ≡ b
bool_sound true true h = refl
bool_sound true false h = cc
bool_sound false true h = cc
bool_sound false false h = refl

pub bool_same : (a : Bool) → same_bool a a ≡ true
bool_same true = refl
bool_same false = refl

abbrev pub bool_equal : Equal Bool
bool_equal = record { test = same_bool; sound = bool_sound; same = bool_same }

module _ {A B : Type 0} (a : Equal A) (b : Equal B) where
  abbrev pair_test : A × B → A × B → Bool
  pair_test (x, y) (u, v) = a.test x u && b.test y v

  pub pair_sound : (p q : A × B) → pair_test p q ≡ true → p ≡ q
  pair_sound (x, y) (u, v) h =
      let (first, second) = and-true _ _ h in
      let e : x ≡ u = a.sound x u first in let f : y ≡ v = b.sound y v second in λ i. (e i, f i)

  pub pair_same : (p : A × B) → pair_test p p ≡ true
  pair_same (x, y) =
      let first : a.test x x ≡ true = a.same x in
      let second : b.test y y ≡ true = b.same y in ground (arith, first, second)

  abbrev pub pair_equal : Equal (A × B)
  pair_equal = record { test = pair_test; sound = pair_sound; same = pair_same }

module _ {A : Type 0} (a : Equal A) where
  unfoldable pub list_test : List A → List A → Bool
  list_test [] [] = true
  list_test (x ∷ xs) (y ∷ ys) = let rest = list_test xs ys in a.test x y && rest
  list_test _ _ = false

  pub list_sound : (xs ys : List A) → list_test xs ys ≡ true → xs ≡ ys
  unfolding list_test
  list_sound [] [] h = refl
  list_sound [] (y ∷ ys) h = cc
  list_sound (x ∷ xs) [] h = cc
  list_sound (x ∷ xs) (y ∷ ys) h =
      let (first, second) = and-true _ _ h in
      let e : x ≡ y = a.sound x y first in
      let f : xs ≡ ys = list_sound xs ys second in λ i. e i ∷ f i

  pub list_same : (xs : List A) → list_test xs xs ≡ true
  unfolding list_test
  list_same [] = refl
  list_same (x ∷ xs) =
      let first : a.test x x ≡ true = a.same x in
      let second : list_test xs xs ≡ true = list_same xs in ground (arith, first, second)

  abbrev pub list_equal : Equal (List A)
  list_equal = record { test = list_test; sound = list_sound; same = list_same }

-- a type whose values are made of parts
module _ {A B : Type 0} (parts : A → B) (whole : B → A) (back : (a : A) → whole (parts a) ≡ a)
    (b : Equal B) where
  abbrev parts_test : A → A → Bool
  parts_test x y = b.test (parts x) (parts y)

  pub parts_sound : (x y : A) → parts_test x y ≡ true → x ≡ y
  parts_sound x y h = sym (back x) ∙ ap whole (b.sound (parts x) (parts y) h) ∙ back y

  pub parts_same : (x : A) → parts_test x x ≡ true
  parts_same x = b.same (parts x)

  abbrev pub parts_equal : Equal A
  parts_equal = record { test = parts_test; sound = parts_sound; same = parts_same }
