-- ===== src/Netip/Cut.antt =====
-- What `strings.Cut(s, "/")` returns.
use Prim.Native.Char.{Char, code}
use text.Mathlib.TextEquality.{Char-path}
use text.Mathlib.TextLemmas.{nil-append, cons-append}
use kube_ovn_global_vpc.Prelude.{
  ◌≡◌, refl, ap, sym, ◌∙◌, String, ◌⧺◌, false, Option, some, none, eqb, eqb_iff, Bool-cases, inl,
  inr, some_eq, subst,
}
use kube_ovn_global_vpc.Netip.Parse.{cut_slash}

slash_text : (c : Char) (s : String) → code c ≡ 47 → String.◌∷◌ c s ≡ "" ⧺ "/" ⧺ s
slash_text c s h =
    let same : c ≡ "/" = Char-path c "/" h in
    rw (nil-append, cons-append, nil-append) (ap (λ d. String.◌∷◌ d s) same)

-- a text and its two parts
abbrev IsCut : String → String × String → Type 0
IsCut s p = (s ≡ p.0 ⧺ "/" ⧺ p.1) × (cut_slash p.0 ≡ none)

-- the parts of a rest, with a character before
abbrev behind : Char → Option (String × String) → Option (String × String)
behind c o = elim o [ none ↦ none | some (before, after) ↦ some (String.◌∷◌ c before, after) ]

behind-IsCut :
    (c : Char) (s : String) (o : Option (String × String)) (p : String × String)
    → eqb (code c) 47 ≡ false
    → ((q : String × String) → o ≡ some q → IsCut s q)
    → behind c o ≡ some p
    → IsCut (String.◌∷◌ c s) p
behind-IsCut c s none p e ih h = absurd (cc h)
behind-IsCut c s (some (x, y)) p e ih h =
    let same : ◌≡◌ {A = String × String} (String.◌∷◌ c x, y) p = some_eq h in
    let (whole, clean) = ih (x, y) refl in
    let cut : cut_slash (String.◌∷◌ c x) ≡ none = unfold cut_slash in rw (e, clean) refl in
    let text : String.◌∷◌ c s ≡ String.◌∷◌ c x ⧺ "/" ⧺ y =
      ap (λ t. String.◌∷◌ c t) whole ∙ sym (cons-append c x ("/" ⧺ y)) in
    subst (IsCut (String.◌∷◌ c s)) same (text, cut)

parts : (s : String) (p : String × String) → cut_slash s ≡ some p → IsCut s p
unfolding cut_slash
parts String.[] p h = absurd (cc h)
parts (String.◌∷◌ c s) p h = elim (Bool-cases (eqb (code c) 47)) [
  | inl e ↦
      let k : some ("", s) ≡ some p = rw e at h in
      subst (IsCut (String.◌∷◌ c s)) (some_eq k)
        (slash_text c s ((eqb_iff _ _).0 e), unfold cut_slash in refl)
  | inr e ↦ behind-IsCut c s (cut_slash s) p e (parts s) (rw e at h)
]

-- A text with a slash is its part before the first slash, which has none, and the part after it.
pub cut_slash-parts :
    (s a b : String) → cut_slash s ≡ some (a, b) → (s ≡ a ⧺ "/" ⧺ b) × (cut_slash a ≡ none)
cut_slash-parts s a b h = parts s (a, b) h
