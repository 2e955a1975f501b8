-- ===== src/Netip/Blocks.antt =====
-- Aligned blocks of addresses: what a prefix contains, and when two prefixes meet.
use native.Mathlib.Nat.{div-div-eq-div-mul, pow-suc, pow-le-pow_right}
use kube_ovn_global_vpc.Prelude.{
  ℕ, zero, suc, ◌+◌, ◌*◌, ◌/◌, ◌-◌, ◌^◌, ◌≤◌, ◌<◌, ◌≡◌, ap, ◌∙◌, arith, true, false, ltb,
  Bool-cases, inl, inr, ltb→lt, ltb→le, eqb_iff,
}
use kube_ovn_global_vpc.Netip.Prefix.{Prefix, masked_addr, contains, overlaps, block}

pub pow_pos : (k : ℕ) → 0 < 2 ^ k
pow_pos zero = omega arith
pow_pos (suc k) = rw pow-suc (omega (arith, pow_pos k))

pub pow-add : (j k : ℕ) → 2 ^ (j + k) ≡ 2 ^ j * 2 ^ k
pow-add j zero = grind arith
pow-add j (suc k) =
    let step : 2 ^ (j + suc k) ≡ 2 ^ suc (j + k) = ap (λ n. 2 ^ n) (omega arith) in
    rw (step, pow-suc, pow-suc) (grind (arith, pow-add j k))

-- numbers that agree above a digit agree above a higher one
pub coarsen : (x y : ℕ) {j k : ℕ} → j ≤ k → x / 2 ^ j ≡ y / 2 ^ j → x / 2 ^ k ≡ y / 2 ^ k
coarsen x y {j} {k} h e =
    let split : 2 ^ k ≡ 2 ^ j * 2 ^ (k - j) = ap (λ n. 2 ^ n) (omega arith) ∙ pow-add j (k - j) in
    rw (split, ← div-div-eq-div-mul, ← div-div-eq-div-mul) (ap (λ n. n / 2 ^ (k - j)) e)

pub contains_bounds :
    (p : Prefix) (a : ℕ)
    → contains p a ≡ true
    → (masked_addr p ≤ a) × (a < masked_addr p + block p.bits)
unfolding contains
contains_bounds p a h = grind (arith, pow_pos (32 - p.bits))

in_block : (a b n : ℕ) → 0 < n → b / n * n ≤ a → a < b / n * n + n → a / n ≡ b / n
in_block a b n pos h k = grind arith

pub bounds-contains :
    (p : Prefix) (a : ℕ)
    → masked_addr p ≤ a
    → a < masked_addr p + block p.bits
    → contains p a ≡ true
unfolding contains
bounds-contains p a h k =
    (eqb_iff _ _).1 (in_block a p.addr (block p.bits) (pow_pos (32 - p.bits)) h k)

-- no address lies in both
abbrev pub Disjoint : Prefix → Prefix → Type 0
Disjoint p q = (a : ℕ) → contains p a ≡ true → contains q a ≡ false

-- every address of the second lies in the first
abbrev pub Covers : Prefix → Prefix → Type 0
Covers p q = (a : ℕ) → contains q a ≡ true → contains p a ≡ true

pub Disjoint-symm : (p q : Prefix) → Disjoint p q → Disjoint q p
Disjoint-symm p q d a h = ground (arith, d a)

pub overlaps-Disjoint : (p q : Prefix) → overlaps p q ≡ false → Disjoint p q
unfolding overlaps contains
overlaps-Disjoint p q h a hp = ground (
  arith,
  coarsen a p.addr {j = 32 - p.bits} {k = 32 - q.bits},
  coarsen a q.addr {j = 32 - q.bits} {k = 32 - p.bits},
)

pub contains-Covers : (p q : Prefix) → p.bits ≤ q.bits → contains p q.addr ≡ true → Covers p q
unfolding contains
contains-Covers p q le h a hq = ground (arith, coarsen a q.addr {j = 32 - q.bits} {k = 32 - p.bits})

-- two prefixes that overlap share an address
pub overlaps_common :
    (p q : Prefix) → overlaps p q ≡ true → (a : ℕ) × (contains p a ≡ true) × (contains q a ≡ true)
unfolding overlaps contains
overlaps_common p q h = elim (Bool-cases (ltb p.bits q.bits)) [
  | inl e ↦ (q.addr, ground arith, ground arith)
  | inr e ↦ (p.addr, ground arith, ground arith)
]

-- a network of at most 30 bits has at least four addresses
pub block_of_small : (n : ℕ) → n ≤ 30 → 4 ≤ block n
block_of_small n h =
    let two : 2 ^ 2 ≤ 2 ^ (32 - n) =
      pow-le-pow_right {n = 2} (omega arith) {i = 2} {j = 32 - n} (omega arith) in
    two

-- an address lies in its own network
pub own_address : (p : Prefix) → contains p p.addr ≡ true
unfolding contains
own_address p = ground arith

pub pow-lt : (j k : ℕ) → j < k → 2 ^ j * 2 ≤ 2 ^ k
pow-lt j k h =
    let step : 2 ^ suc j ≡ 2 ^ j * 2 = pow-suc 2 j in
    let le : 2 ^ suc j ≤ 2 ^ k =
      pow-le-pow_right {n = 2} (omega arith) {i = suc j} {j = k} (omega arith) in
    rw step at le

-- a network that covers another is at most as long
pub Covers-bits : (p q : Prefix) → p.bits ≤ 32 → q.bits ≤ 32 → Covers p q → p.bits ≤ q.bits
Covers-bits p q h k covers = elim (Bool-cases (ltb q.bits p.bits)) [
  | inr e ↦ ltb→le q.bits p.bits e
  | inl e ↦
      let small : 2 ^ (32 - p.bits) * 2 ≤ 2 ^ (32 - q.bits) =
        pow-lt (32 - p.bits) (32 - q.bits) (omega (arith, ltb→lt q.bits p.bits e)) in
      let pos = pow_pos (32 - p.bits) in
      let pos' = pow_pos (32 - q.bits) in
      let low = contains_bounds p (masked_addr q) (
        covers (masked_addr q)
          (bounds-contains q (masked_addr q) (omega arith) (omega (arith, pos')))) in
      let last : ℕ = masked_addr q + (block q.bits - 1) in
      let high =
        contains_bounds p last
          (covers last (bounds-contains q last (omega arith) (omega (arith, pos')))) in
      omega (arith, small, pos, pos', low, high)
]
