-- ===== src/Examples/Codes.antt =====
-- A code of values as texts that can be read back, as an instance of what the program asks of JSON.
use Prim.Native.Char.{code}
use text.Mathlib.TextLemmas.{nil-append, cons-append, append_assoc, append-nil}
use kube_ovn_global_vpc.Prelude.{
  ℕ, zero, suc, String, ◌⧺◌, Option, none, some, List, [], ◌∷◌, length, eqb, if◌then◌else◌, ◌≡◌,
  refl, sym, ◌∙◌, ap,
}

-- a text for a value, a parser that also returns the rest, and that it reads the text
pub record Code (A : Type 0) : Type 0 where
  pub enc : A → String
  pub dec : String → Option (A × String)
  pub law : (a : A) (t : String) → dec (enc a ⧺ t) ≡ some (a, t)

-- on with a value that was read
unfoldable pub then_read : {A B : Type 0} → Option (A × String) → (A → String → Option B) → Option B
then_read none f = none
then_read (some (a, t)) f = f a t

number_enc : ℕ → String
number_enc zero = "."
number_enc (suc n) = "x" ⧺ number_enc n

number_dec : String → Option (ℕ × String)
number_dec String.[] = none
number_dec (String.◌∷◌ c s) =
    let rest = then_read (number_dec s) (λ n t. some (suc n, t)) in
    if eqb (code c) b'x' then rest else some (0, s)

number_law : (n : ℕ) (t : String) → number_dec (number_enc n ⧺ t) ≡ some (n, t)
unfolding number_enc number_dec then_read
number_law zero t = rw (cons-append, nil-append) refl
number_law (suc n) t =
    rw (append_assoc, cons-append, nil-append) (unfold number_dec in rw (number_law n t) refl)

pub number_code : Code ℕ
number_code = record { enc = number_enc; dec = number_dec; law = number_law }

text_enc : String → String
text_enc String.[] = "."
text_enc (String.◌∷◌ c s) = "x" ⧺ String.◌∷◌ c (text_enc s)

text_dec : String → Option (String × String)
text_dec String.[] = none
text_dec (String.◌∷◌ c String.[]) = some ("", "")
text_dec (String.◌∷◌ c (String.◌∷◌ d s)) =
    let rest = then_read (text_dec s) (λ u t. some (String.◌∷◌ d u, t)) in
    if eqb (code c) b'x' then rest else some ("", String.◌∷◌ d s)

dot : (t : String) → text_dec ("." ⧺ t) ≡ some ("", t)
unfolding text_dec
dot String.[] = refl
dot (String.◌∷◌ d s) = rw (cons-append, nil-append) refl

text_law : (s t : String) → text_dec (text_enc s ⧺ t) ≡ some (s, t)
unfolding text_enc text_dec then_read
text_law String.[] t = dot t
text_law (String.◌∷◌ c s) t =
    rw (append_assoc, cons-append, nil-append, cons-append)
      (unfold text_dec in rw (text_law s t) refl)

pub text_code : Code String
text_code = record { enc = text_enc; dec = text_dec; law = text_law }

module _ {A B : Type 0} (a : Code A) (b : Code B) where
  pair_enc : A × B → String
  pair_enc (x, y) = a.enc x ⧺ b.enc y

  pair_dec : String → Option ((A × B) × String)
  pair_dec s = then_read (a.dec s) (λ x t. then_read (b.dec t) (λ y u. some ((x, y), u)))

  pair_law : (p : A × B) (t : String) → pair_dec (pair_enc p ⧺ t) ≡ some (p, t)
  unfolding pair_enc pair_dec then_read
  pair_law (x, y) t = rw (append_assoc, a.law, then_read, b.law) refl

  pub pair_code : Code (A × B)
  pair_code = record { enc = pair_enc; dec = pair_dec; law = pair_law }

module _ {A : Type 0} (a : Code A) where
  items_enc : List A → String
  items_enc [] = ""
  items_enc (x ∷ xs) = a.enc x ⧺ items_enc xs

  items_dec : ℕ → String → Option (List A × String)
  items_dec zero s = some ([], s)
  items_dec (suc n) s =
      then_read (a.dec s) (λ x t. then_read (items_dec n t) (λ xs u. some (x ∷ xs, u)))

  items_law : (xs : List A) (t : String) → items_dec (length xs) (items_enc xs ⧺ t) ≡ some (xs, t)
  unfolding items_enc items_dec then_read
  items_law [] t = rw nil-append refl
  items_law (x ∷ xs) t = rw (append_assoc, a.law, then_read, items_law xs t) refl

  list_enc : List A → String
  list_enc xs = number_enc (length xs) ⧺ items_enc xs

  list_dec : String → Option (List A × String)
  list_dec s = then_read (number_dec s) items_dec

  list_law : (xs : List A) (t : String) → list_dec (list_enc xs ⧺ t) ≡ some (xs, t)
  unfolding list_enc list_dec then_read
  list_law xs t = rw (append_assoc, number_law, then_read) (items_law xs t)

  pub list_code : Code (List A)
  list_code = record { enc = list_enc; dec = list_dec; law = list_law }

-- the value alone
pub value_of : {A : Type 0} → Code A → String → Option A
value_of a s = then_read (a.dec s) (λ x t. some x)

pub value_of-enc : {A : Type 0} (a : Code A) (x : A) → value_of a (a.enc x) ≡ some x
unfolding value_of then_read
value_of-enc a x = rw (ap a.dec (sym (append-nil (a.enc x))) ∙ a.law x "") refl
