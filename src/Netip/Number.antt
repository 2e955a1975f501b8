-- ===== src/Netip/Number.antt =====
-- The decimal print of a number and its parser are inverse.
use Prim.Native.Char.{Char, code}
use native.Mathlib.Nat.{pow-suc}
use text.Mathlib.TextLemmas.{nil-append, cons-append, append_assoc, append-nil}
use kube_ovn_global_vpc.Prelude.{
  ℕ, zero, suc, ◌+◌, ◌*◌, ◌/◌, ◌%◌, ◌^◌, ◌-◌, ◌<◌, ◌≡◌, refl, ap, sym, ◌∙◌, arith, String, ◌⧺◌,
  some, true, ◌≢◌, Bool-cases, ltb, inl, inr, some_eq, ltb→lt,
}
use kube_ovn_global_vpc.Netip.Parse.{is_digit, digit, digits_value, decimal, number_text}
use kube_ovn_global_vpc.Netip.Parse.RoundTrip.{digit-cons}

digits_value-digit :
    (d : ℕ) (t : String) (n : ℕ)
    → d < 10
    → digits_value (digit d ⧺ t) n ≡ digits_value t (n * 10 + d)
digits_value-digit d t n h =
    let (c, e, f) = digit-cons d h in
    let same : code c - 48 ≡ d = omega (arith, f) in
    rw (e, cons-append, nil-append) (unfold digits_value in ground arith)

-- the digits of a number, read from nothing, give the number, and the rest is read behind it
digits_value-decimal :
    (fuel n : ℕ) (t : String)
    → n < 10 ^ suc fuel
    → digits_value (decimal (suc fuel) n ⧺ t) 0 ≡ digits_value t n
unfolding decimal
digits_value-decimal zero n t h =
    let small : ltb n 10 ≡ true = ground arith in
    rw small (digits_value-digit n t 0 (omega arith) ∙ ap (digits_value t) (omega arith))
digits_value-decimal (suc fuel) n t h = elim (Bool-cases (ltb n 10)) [
  | inl small ↦ rw small (
      digits_value-digit n t 0 (omega (arith, ltb→lt n 10 small))
      ∙ ap (digits_value t) (omega arith))
  | inr large ↦
      let less : n / 10 < 10 ^ suc fuel =
        let step : 10 ^ suc (suc fuel) ≡ 10 ^ suc fuel * 10 = pow-suc 10 (suc fuel) in
        omega (arith, h, step) in
      rw large (
        ap (λ s. digits_value s 0) (append_assoc (decimal (suc fuel) (n / 10)) (digit (n % 10)) t)
        ∙ digits_value-decimal fuel (n / 10) (digit (n % 10) ⧺ t) less
        ∙ digits_value-digit (n % 10) t (n / 10) (omega arith)
        ∙ ap (digits_value t) (omega arith))
]

-- Numbers of at most 20 digits with the same decimal print are equal.
pub number_text-injective :
    (n m : ℕ) → n < 10 ^ 20 → m < 10 ^ 20 → number_text n ≡ number_text m → n ≡ m
unfolding number_text
number_text-injective n m h k e =
    let value : (i : ℕ) → i < 10 ^ 20 → digits_value (decimal 20 i) 0 ≡ some i = λ i l.
      ap (λ s. digits_value s 0) (sym (append-nil (decimal 20 i)))
      ∙ digits_value-decimal 19 i "" l
      ∙ (unfold digits_value in refl) in
    some_eq (sym (value n h) ∙ ap (λ s. digits_value s 0) e ∙ value m k)

-- a text that is read as digits begins with one
first-digit :
    (c : Char) (s : String) {n : ℕ}
    → digits_value (String.◌∷◌ c s) 0 ≡ some n
    → is_digit (code c) ≡ true
unfolding digits_value
first-digit c s h = elim (Bool-cases (is_digit (code c))) [
  | inl e ↦ e
  | inr e ↦ absurd (cc (rw e at h))
]

digit-ne_empty : (d : ℕ) → d < 10 → digit d ≢ ""
digit-ne_empty d h e = let (c, f, _) = digit-cons d h in absurd (cc (sym f ∙ e))

append-ne_empty : (s t : String) → t ≢ "" → s ⧺ t ≢ ""
append-ne_empty String.[] t h e = h (sym (nil-append t) ∙ e)
append-ne_empty (String.◌∷◌ c s) t h e = absurd (cc (sym (cons-append c s t) ∙ e))

decimal-ne_empty : (fuel n : ℕ) → decimal (suc fuel) n ≢ ""
unfolding decimal
decimal-ne_empty fuel n = elim (Bool-cases (ltb n 10)) [
  | inl e ↦ rw e (digit-ne_empty n (ltb→lt n 10 e))
  | inr e ↦ rw e (
      append-ne_empty (decimal fuel (n / 10)) (digit (n % 10))
        (digit-ne_empty (n % 10) (omega arith)))
]

-- The decimal print of a number of at most 20 digits is a text that begins with a digit, and is read
-- as the number.
pub number_text-cons :
    (n : ℕ)
    → n < 10 ^ 20
    → (c : Char) × (s : String) × (number_text n ≡ String.◌∷◌ c s)
      × (is_digit (code c) ≡ true)
      × (digits_value (String.◌∷◌ c s) 0 ≡ some n)
unfolding number_text
number_text-cons n h = by_text (decimal 20 n) refl
  where
    value : digits_value (decimal 20 n) 0 ≡ some n
    value =
        ap (λ s. digits_value s 0) (sym (append-nil (decimal 20 n)))
        ∙ digits_value-decimal 19 n "" h
        ∙ (unfold digits_value in refl)

    by_text :
        (t : String)
        → decimal 20 n ≡ t
        → (c : Char) × (s : String) × (decimal 20 n ≡ String.◌∷◌ c s)
          × (is_digit (code c) ≡ true)
          × (digits_value (String.◌∷◌ c s) 0 ≡ some n)
    by_text String.[] e = absurd (decimal-ne_empty 19 n e)
    by_text (String.◌∷◌ c s) e =
        let read = ap (λ u. digits_value u 0) (sym e) ∙ value in
        (c, s, e, first-digit c s read, read)
