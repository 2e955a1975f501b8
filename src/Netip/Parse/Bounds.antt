-- ===== src/Netip/Parse/Bounds.antt =====
-- What the parsers return is in range.
use Prim.Native.Char.{code}
use kube_ovn_global_vpc.Prelude.{
  ℕ, zero, suc, ◌+◌, ◌*◌, ◌-◌, ◌^◌, ◌≤◌, ◌<◌, ◌≡◌, some, arith, String,
}
use kube_ovn_global_vpc.Netip.Parse.{octets, parse_addr, parse_uint, parse_bits}

-- what the octets read so far stay below
abbrev limit : ℕ → ℕ
limit zero = 1
limit (suc zero) = 256
limit (suc (suc zero)) = 65536
limit (suc (suc (suc _))) = 16777216

limit_step :
    (pos acc val : ℕ) → pos < 3 → acc < limit pos → val < 256 → acc * 256 + val < limit (pos + 1)
limit_step zero acc val p h k = omega arith
limit_step (suc zero) acc val p h k = omega arith
limit_step (suc (suc zero)) acc val p h k = omega arith
limit_step (suc (suc (suc n))) acc val p h k = absurd (omega arith)

octets-lt :
    (s : String) (pos acc val n a : ℕ)
    → pos ≤ 3
    → acc < limit pos
    → val < 256
    → octets s pos acc val n ≡ some a
    → a < 2 ^ 32
unfolding octets
octets-lt String.[] zero acc val n a h k l e = ground arith
octets-lt String.[] (suc zero) acc val n a h k l e = ground arith
octets-lt String.[] (suc (suc zero)) acc val n a h k l e = ground arith
octets-lt String.[] (suc (suc (suc pos))) acc val n a h k l e = ground arith
octets-lt (String.◌∷◌ c s) pos acc val n a h k l e = ground (
  arith,
  limit_step pos acc val,
  octets-lt s pos acc (val * 10 + (code c - 48)) (n + 1) a,
  octets-lt s (pos + 1) (acc * 256 + val) 0 0 a,
)

-- A parsed address has 32 bits.
pub parse_addr-lt : (s : String) {a : ℕ} → parse_addr s ≡ some a → a < 2 ^ 32
unfolding parse_addr
parse_addr-lt s {a} h = octets-lt s 0 0 0 0 a (omega arith) (omega arith) (omega arith) h

pub parse_uint-le : (m : ℕ) (s : String) {n : ℕ} → parse_uint m s ≡ some n → n ≤ m
unfolding parse_uint
parse_uint-le m String.[] h = cc
parse_uint-le m (String.◌∷◌ c s) h = ground arith

-- A parsed length is at most 32.
pub parse_bits-le : (s : String) {n : ℕ} → parse_bits s ≡ some n → n ≤ 32
unfolding parse_bits
parse_bits-le String.[] h = cc
parse_bits-le (String.◌∷◌ c String.[]) h = parse_uint-le 32 (String.◌∷◌ c String.[]) h
parse_bits-le (String.◌∷◌ c (String.◌∷◌ d s)) h =
    parse_uint-le 32 (String.◌∷◌ c (String.◌∷◌ d s)) (ground arith)
