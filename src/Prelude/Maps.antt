-- ===== src/Prelude/Maps.antt =====
-- A Go map with text keys, as an association list. The order of the list is the order in which a
-- loop over the map meets its keys, which Go leaves open.
use Prim.Native.String.{String}
use mathlib.Core.Path.{◌≡◌, refl, sym, ◌∙◌}
use mathlib.Core.Bool.{Bool, true, false}
use mathlib.Core.Option.{Option, none, some}
use mathlib.Core.List.{List, [], ◌∷◌, ◌++◌}
use native.Mathlib.Omega.{arith}
use text.Mathlib.Text.{◌==◌}
use text.Mathlib.TextEquality.{eq_iff}
use text.Mathlib.TextPositions.{eq_refl}
use kube_ovn_global_vpc.Prelude.Tests.{if◌then◌else◌, Bool-cases}
use mathlib.Core.Logic.{◌≢◌, inl, inr}

abbrev pub Map {ℓ} : Type ℓ → Type ℓ
Map V = List (String × V)

module _ {ℓ} {V : Type ℓ} where
  -- `v, ok := m[k]`
  unfoldable pub find : String → Map V → Option V
  find k [] = none
  find k ((j, v) ∷ m) = if j == k then some v else find k m

  -- `m[k] = v`
  unfoldable pub put : String → V → Map V → Map V
  put k v [] = (k, v) ∷ []
  put k v ((j, w) ∷ m) = if j == k then (k, v) ∷ m else (j, w) ∷ put k v m

  pub find-put :
      (k j : String) (v : V) (m : Map V)
      → find j (put k v m) ≡ (if k == j then some v else find j m)
  unfolding find put
  find-put k j v [] = refl
  find-put k j v ((i, w) ∷ m) = ground (arith, eq_iff k j, eq_iff i k, eq_iff i j, find-put k j v m)

  -- whether a key is in the map
  unfoldable pub has : String → Map V → Bool
  unfolding find
  has k m = elim (find k m) [ none ↦ false | some _ ↦ true ]

-- `m[k]` where a missing key gives the empty text
unfoldable pub text_at : String → Map String → String
text_at k [] = ""
text_at k ((j, v) ∷ m) = if j == k then v else text_at k m

module _ {ℓ} {V : Type ℓ} where
  -- a new key goes to the end
  pub put_new : (k : String) (v : V) (m : Map V) → find k m ≡ none → put k v m ≡ m ++ (k, v) ∷ []
  unfolding find put
  put_new k v [] h = refl
  put_new k v ((j, w) ∷ m) h = ground (arith, put_new k v m)

  pub find-append :
      (k : String) (m n : Map V) {v : V} → find k m ≡ some v → find k (m ++ n) ≡ some v
  unfolding find
  find-append k [] n h = cc
  find-append k ((j, w) ∷ m) n {v} h = elim (Bool-cases (j == k)) [
    | inl e ↦ rw (find, e) (rw e at h)
    | inr e ↦ rw (find, e) (find-append k m n (rw e at h))
  ]

-- a key with a text keeps it when other keys are added
pub text_at-append :
    (k : String) (m n : Map String) → text_at k m ≢ "" → text_at k (m ++ n) ≡ text_at k m
unfolding text_at
text_at-append k [] n h = absurd (h refl)
text_at-append k ((j, v) ∷ m) n h = elim (Bool-cases (j == k)) [
  | inl e ↦ rw (text_at, e) refl
  | inr e ↦ rw (text_at, e) (text_at-append k m n (rw e at h))
]

-- the text of a key is that of its entry
pub text_at-find :
    (k : String) (m : Map String) → text_at k m ≡ elim (find k m) [ none ↦ "" | some v ↦ v ]
unfolding text_at find
text_at-find k [] = refl
text_at-find k ((j, v) ∷ m) = ground (arith, text_at-find k m)

pub text_at-put : (k v : String) (m : Map String) → text_at k (put k v m) ≡ v
text_at-put k v m = text_at-find k (put k v m) ∙ (rw (find-put, eq_refl) refl)

pub text_at-put_other :
    (k j v : String) (m : Map String) → (k == j) ≡ false → text_at j (put k v m) ≡ text_at j m
text_at-put_other k j v m h =
    text_at-find j (put k v m) ∙ (rw (find-put, h) (sym (text_at-find j m)))
