-- ===== src/Prelude/Search.antt =====
-- A loop `for v := start; more(v); v++` that stops at the first value that is not taken. The fuel
-- bounds the rounds; `first_free-none` says what enough fuel is.
use Prim.Native.Nat.{ℕ, zero, suc, ◌+◌, ◌≤◌, ◌<◌}
use mathlib.Core.Path.{◌≡◌}
use mathlib.Core.Logic.{inl, inr}
use mathlib.Core.Bool.{Bool, true, false}
use mathlib.Core.Option.{Option, none, some}
use native.Mathlib.Omega.{arith}
use native.Mathlib.Decide.{ℕ_discrete}
use kube_ovn_global_vpc.Prelude.Tests.{if◌then◌else◌, Bool-cases}

module _ (more taken : ℕ → Bool) where
  unfoldable pub first_free : ℕ → ℕ → Option ℕ
  first_free zero v = none
  first_free (suc fuel) v =
      let rest = first_free fuel (v + 1) in
      if more v then (if taken v then rest else some v) else none

  -- The value that the loop stops at: the loop's condition holds up to it, and all before are taken.
  pub record IsFirst (start v : ℕ) : Type 0 where
    pub from : start ≤ v
    pub allowed : more v ≡ true
    pub free : taken v ≡ false
    pub least : (u : ℕ) → start ≤ u → u < v → taken u ≡ true

  pub first_free-IsFirst :
      (fuel start : ℕ) {v : ℕ} → first_free fuel start ≡ some v → IsFirst start v
  unfolding first_free
  first_free-IsFirst zero start h = cc
  first_free-IsFirst (suc fuel) start {v} h = elim (Bool-cases (more start)) [
    | inr e ↦ absurd (cc (rw e at h))
    | inl e ↦ elim (Bool-cases (taken start)) [
      | inr f ↦
          let same : start ≡ v = ground arith in
          record {
            from = omega arith;
            allowed = ground arith;
            free = ground arith;
            least = λ u low high. absurd (omega (arith, same));
          }
      | inl f ↦
          let rest : IsFirst (start + 1) v = first_free-IsFirst fuel (start + 1) (ground arith) in
          record {
            from = omega (arith, rest.from);
            allowed = rest.allowed;
            free = rest.free;
            least = λ u low high. elim (ℕ_discrete start u) [
              | yes same ↦ rw (← same) f
              | no differ ↦ rest.least u (omega arith) high
            ];
          }
    ]
  ]

  -- With fuel for every value at which the condition holds, a loop that finds nothing has tried
  -- every value up to the first one at which the condition fails.
  pub first_free-none :
      (fuel start : ℕ)
      → ((v : ℕ) → more v ≡ true → v < start + fuel)
      → first_free fuel start ≡ none
      → (v : ℕ) → start ≤ v
      → ((u : ℕ) → start ≤ u → u ≤ v → more u ≡ true)
      → taken v ≡ true
  unfolding first_free
  first_free-none zero start enough h v low all =
      absurd (omega (arith, enough v (all v low (omega arith))))
  first_free-none (suc fuel) start enough h v low all = elim (Bool-cases (taken start)) [
    | inr f ↦ let e = all start (omega arith) low in absurd (cc (rw (e, f) at h))
    | inl f ↦
        let e = all start (omega arith) low in
        elim (ℕ_discrete start v) [
          | yes same ↦ rw (← same) f
          | no differ ↦
              first_free-none fuel (start + 1) (λ u m. omega (arith, enough u m)) (rw (e, f) at h) v
                (omega arith) (λ u a b. all u (omega arith) b)
        ]
  ]
