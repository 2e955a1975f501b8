-- ===== src/Prelude/Keys.antt =====
-- The keys of a Go map, which are different texts.
use Prim.Native.String.{String}
use mathlib.Core.Path.{refl, sym, subst, ◌∙◌}
use mathlib.Core.Logic.{◌≢◌, inl, inr}
use mathlib.Core.List.{List, [], ◌∷◌, map}
use kube_ovn_global_vpc.Prelude.Tests.{Bool-cases}
use kube_ovn_global_vpc.Prelude.Lists.{All, In, here, there, Pairs}
use kube_ovn_global_vpc.Prelude.Text.{◌==◌, text_eq, text_ne}
use kube_ovn_global_vpc.Prelude.Maps.{Map, put}

module _ {V : Type 0} where
  abbrev pub keys : Map V → List String
  keys m = map (λ e. e.0) m

  pub put-key : (k : String) (v : V) (m : Map V) → In k (keys (put k v m))
  unfolding put
  put-key k v [] = here refl
  put-key k v ((j, w) ∷ m) = elim (Bool-cases (j == k)) [
    | inl e ↦ rw e (here refl)
    | inr e ↦ rw e (there (put-key k v m))
  ]

  pub put-other_key : (k j : String) (v : V) (m : Map V) → In j (keys m) → In j (keys (put k v m))
  unfolding put
  put-other_key k j v ((i, w) ∷ m) (here e) = elim (Bool-cases (i == k)) [
    | inl same ↦ rw same (here (sym (text_eq i k same) ∙ e))
    | inr other ↦ rw other (here e)
  ]
  put-other_key k j v ((i, w) ∷ m) (there h) = elim (Bool-cases (i == k)) [
    | inl same ↦ rw same (there h)
    | inr other ↦ rw other (there (put-other_key k j v m h))
  ]
  put-other_key k j v [] h = elim h [ ]

  All-put :
      (P : String → Type 0) (k : String) (v : V) (m : Map V)
      → P k
      → All P (keys m)
      → All P (keys (put k v m))
  unfolding put
  All-put P k v [] p h = (p, tt)
  All-put P k v ((i, w) ∷ m) p h = elim (Bool-cases (i == k)) [
    | inl same ↦ rw same (p, h.1)
    | inr other ↦ rw other (h.0, All-put P k v m p h.1)
  ]

  -- the keys stay different
  pub put-different :
      (k : String) (v : V) (m : Map V)
      → Pairs (λ s t. s ≢ t) (keys m)
      → Pairs (λ s t. s ≢ t) (keys (put k v m))
  unfolding put
  put-different k v [] h = (tt, tt)
  put-different k v ((i, w) ∷ m) h = elim (Bool-cases (i == k)) [
    | inl same ↦ rw same (subst (λ x. Pairs (λ s t. s ≢ t) (x ∷ keys m)) (text_eq i k same) h)
    | inr other ↦
        rw other (All-put (λ t. i ≢ t) k v m (text_ne i k other) h.0, put-different k v m h.1)
  ]
