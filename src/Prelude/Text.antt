-- ===== src/Prelude/Text.antt =====
-- Texts. A Go string is a native `String`: the program compares, joins and scans it.
use Prim.Native.String.{String, compare}
use mathlib.Core.Bool.{Bool, true, false, ◌||◌}
use mathlib.Core.List.{List, [], ◌∷◌}
use mathlib.Core.Path.{◌≡◌}
use mathlib.Core.Logic.{◌≢◌, ◌↔◌, inl, inr}
use native.Mathlib.Omega.{arith}
use kube_ovn_global_vpc.Prelude.Lists.{All, In, here, there}
use kube_ovn_global_vpc.Prelude.Tests.{Bool-cases}
use text.Mathlib.Text.{is_lt}
pub use text.Mathlib.Text.{◌==◌, starts_with}
pub use text.Mathlib.TextEquality.{eq_iff}
pub use text.Mathlib.TextPositions.{eq_refl}

-- Go's `<` on strings
abbrev pub text_ltb : String → String → Bool
text_ltb s t = is_lt (compare s t)

unfoldable pub contains_text : String → List String → Bool
contains_text s [] = false
contains_text s (t ∷ ts) = (t == s) || contains_text s ts

pub contains_text-false :
    (s : String) (ts : List String) → contains_text s ts ≡ false → All (λ t. t ≢ s) ts
unfolding contains_text
contains_text-false s [] h = tt
contains_text-false s (t ∷ ts) h =
    (λ e. ground (arith, eq_iff t s), contains_text-false s ts (ground arith))

pub text_ne : (s t : String) → (s == t) ≡ false → s ≢ t
text_ne s t h e = ground (arith, eq_iff s t)

pub text_eq : (s t : String) → (s == t) ≡ true → s ≡ t
text_eq s t h = (eq_iff s t).0 h

text_found : (s : String) (ts : List String) → contains_text s ts ≡ true → In s ts
unfolding contains_text
text_found s [] h = cc
text_found s (t ∷ ts) h = elim (Bool-cases (t == s)) [
  | inl e ↦ here (text_eq t s e)
  | inr e ↦ there (text_found s ts (rw e at h))
]

text_held : (s : String) (ts : List String) → In s ts → contains_text s ts ≡ true
unfolding contains_text
text_held s [] m = elim m [ ]
text_held s (t ∷ ts) (here e) = ground (arith, eq_iff t s)
text_held s (t ∷ ts) (there m) = ground (arith, text_held s ts m)

pub contains_text-In : (s : String) (ts : List String) → (contains_text s ts ≡ true) ↔ In s ts
contains_text-In s ts = (text_found s ts, text_held s ts)
