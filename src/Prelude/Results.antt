-- ===== src/Prelude/Results.antt =====
-- The Go convention `(value, error)`: a value, or an error that says what was refused.
use Prim.Native.String.{String}
use mathlib.Core.Path.{◌≡◌, refl}
use mathlib.Core.Bool.{Bool, true, false}
use mathlib.Core.Option.{some}

-- `invalid` is an error that the program makes, by its text without the values that it prints.
-- The others are what a Kubernetes API call can answer; `unavailable` is any other failure.
pub data Error : Type 0 where
  invalid : String → Error
  not_found already_exists conflict unavailable : Error

pub data Result {ℓ} (V : Type ℓ) : Type ℓ where
  err : Error → Result V
  ok : V → Result V

infixl 5 ◌>>=◌ ◌>>◌
-- `if err != nil { return err }`, and on with the value
abbrev pub ◌>>=◌ {ℓ κ} : {V : Type ℓ} {W : Type κ} → Result V → (V → Result W) → Result W
err problem >>= next = err problem
ok value >>= next = next value

-- the same for a call that returns nothing but an error
abbrev pub ◌>>◌ {κ} : {W : Type κ} → Result (Unit {0}) → Result W → Result W
call >> rest = call >>= λ _. rest

-- `if bad { return fmt.Errorf(text) }`
abbrev pub reject : Bool → String → Result (Unit {0})
reject true text = err (invalid text)
reject false text = ok tt

-- a chain that gives a value: its first call gave one, and the rest gave the value from it
pub >>=-eq-ok {ℓ κ} :
    {V : Type ℓ} {W : Type κ} (call : Result V) (next : V → Result W) {last : W}
    → (call >>= next) ≡ ok last
    → (value : V) × (call ≡ ok value) × (next value ≡ ok last)
>>=-eq-ok (err problem) next h = cc
>>=-eq-ok (ok value) next h = (value, refl, h)

pub reject-eq-ok {κ} :
    {B : Type κ} (bad : Bool) (text : String) (k : Result B) {b : B}
    → (reject bad text >> k) ≡ ok b
    → (bad ≡ false) × (k ≡ ok b)
reject-eq-ok true text k h = cc
reject-eq-ok false text k h = (refl, h)

-- whether a result is a value
abbrev pub is_ok {ℓ} : {A : Type ℓ} → Result A → Bool
is_ok (ok _) = true
is_ok (err _) = false

pub ok-injective {ℓ} : {A : Type ℓ} {a b : A} → ok a ≡ ok b → a ≡ b
ok-injective h = cc

pub reject_passed : (bad : Bool) (text : String) → reject bad text ≡ ok tt → bad ≡ false
reject_passed true text h = cc
reject_passed false text h = refl

pub some_eq {ℓ} : {A : Type ℓ} {a b : A} → some a ≡ some b → a ≡ b
some_eq h = cc
