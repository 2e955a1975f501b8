-- ===== src/Prelude/TextOrder.antt =====
-- The order of texts is a strict weak order, as a sort wants it.
use Prim.Native.Char.{Char, code}
use Prim.Native.String.{String}
use Prim.Native.String.compare as compare_laws
use mathlib.Core.Path.{◌≡◌, refl, ap, ◌∙◌}
use mathlib.Core.Bool.{true, false}
use native.Mathlib.Omega.{arith}
use text.Mathlib.Text.{is_lt}
use kube_ovn_global_vpc.Prelude.Tests.{ltb, eqb, if◌then◌else◌}
use kube_ovn_global_vpc.Prelude.Text.{text_ltb}

text_ltb-nil-nil : text_ltb "" "" ≡ false
text_ltb-nil-nil = refl

text_ltb-cons :
    (c d : Char) (s t : String)
    → text_ltb (String.◌∷◌ c s) (String.◌∷◌ d t) ≡ (
        if ltb (code c) (code d)
        then true
        else if eqb (code c) (code d)
        then text_ltb s t
        else false)
text_ltb-cons c d s t = ap is_lt (compare_laws.cons-cons c d s t) ∙ ground arith

text_ltb-nil-cons : (d : Char) (t : String) → text_ltb "" (String.◌∷◌ d t) ≡ true
text_ltb-nil-cons d t = ap is_lt (compare_laws.nil-cons d t)

text_ltb-cons-nil : (c : Char) (s : String) → text_ltb (String.◌∷◌ c s) "" ≡ false
text_ltb-cons-nil c s = ap is_lt (compare_laws.cons-nil c s)

-- A text that is less than another is not greater.
pub text_ltb_asym : (s t : String) → text_ltb s t ≡ true → text_ltb t s ≡ false
text_ltb_asym String.[] String.[] h = refl
text_ltb_asym String.[] (String.◌∷◌ d t) h = text_ltb-cons-nil d t
text_ltb_asym (String.◌∷◌ c s) String.[] h = cc (text_ltb-cons-nil c s)
text_ltb_asym (String.◌∷◌ c s) (String.◌∷◌ d t) h =
    ground (arith, text_ltb-cons c d s t, text_ltb-cons d c t s, text_ltb_asym s t)

-- Not being less is transitive.
pub text_ltb_trans :
    (a b c : String) → text_ltb b a ≡ false → text_ltb c b ≡ false → text_ltb c a ≡ false
text_ltb_trans String.[] String.[] c h k = k
text_ltb_trans String.[] (String.◌∷◌ y b) String.[] h k = refl
text_ltb_trans String.[] (String.◌∷◌ y b) (String.◌∷◌ z c) h k = text_ltb-cons-nil z c
text_ltb_trans (String.◌∷◌ x a) String.[] c h k = cc (text_ltb-nil-cons x a)
text_ltb_trans (String.◌∷◌ x a) (String.◌∷◌ y b) String.[] h k = cc (text_ltb-nil-cons y b)
text_ltb_trans (String.◌∷◌ x a) (String.◌∷◌ y b) (String.◌∷◌ z c) h k = ground (
  arith,
  text_ltb-cons y x b a,
  text_ltb-cons z y c b,
  text_ltb-cons z x c a,
  text_ltb_trans a b c,
)
