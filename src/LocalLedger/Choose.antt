-- ===== src/LocalLedger/Choose.antt =====
-- The choice of a new allocation in `allocate` of internal/localcontroller/allocation.go. A 32-bit
-- number keeps its wrap-around.
pub mod Laws
pub mod Fresh
use kube_ovn_global_vpc.Prelude.{
  ℕ, ◌+◌, ◌-◌, ◌*◌, ◌%◌, ◌^◌, String, Bool, true, false, ◌||◌, Option, none, some, List, [], ◌∷◌,
  Map, put, any, first_free, ltb, ◌==◌, Result, ok, err, invalid,
}
use kube_ovn_global_vpc.Netip.Parse.{addr_text}
use kube_ovn_global_vpc.Netip.Prefix.{Prefix, parse_prefix, prefix_text, next}
use kube_ovn_global_vpc.LocalConfig.{Config}
use kube_ovn_global_vpc.LocalLedger.{Allocation, AllocatorState}

-- `ipAt`
unfoldable pub ip_at : Prefix → ℕ → ℕ
ip_at p index = (p.addr + index) % 2 ^ 32

-- the i-th network of the length in the pool
unfoldable pub transit_at : Prefix → ℕ → ℕ → Prefix
unfolding ip_at
transit_at pool length i = record {
  addr = ip_at pool (i * 2 ^ (32 - length) % 2 ^ 32);
  bits = length;
}

-- `usedTransit[text]` and `usedBFD[text]`
unfoldable pub transit_used : Map Allocation → String → Bool
transit_used allocations raw =
    any (λ (e : String × Allocation). e.1.transit_cidr == raw) allocations

unfoldable pub source_used : Map Allocation → String → Bool
source_used allocations raw =
    any (λ (e : String × Allocation). e.1.bfd_source_ip == raw) allocations

-- `for i := uint32(0); i < uint32(1)<<(length-pool.Bits()); i++`
unfoldable pub free_transit : Prefix → ℕ → Map Allocation → Option ℕ
free_transit pool length allocations =
    first_free (λ i. ltb i (2 ^ (length - pool.bits) % 2 ^ 32))
      (λ i. transit_used allocations (prefix_text (transit_at pool length i))) (2 ^ 32) 0

-- `for i := uint32(1); i < (uint32(1)<<(32-pool.Bits()))-1; i++`, with a pool that is not /0
unfoldable pub free_source : Prefix → Map Allocation → Option ℕ
free_source pool allocations =
    first_free (λ i. ltb i (2 ^ (32 - pool.bits) % 2 ^ 32 - 1))
      (λ i. source_used allocations (addr_text (ip_at pool i))) (2 ^ 32) 1

unfoldable pub chosen : Prefix → Prefix → ℕ → Option ℕ → Option ℕ → Result Allocation
chosen pool bfd length (some i) (some j) =
    let p = transit_at pool length i in
    ok (record {
      transit_cidr = prefix_text p;
      router_ip = addr_text (next p.addr);
      bfd_source_ip = addr_text (ip_at bfd j);
    })
chosen pool bfd length _ _ = err (
    invalid
      "reserved local network pool exhausted; retained allocations are not automatically reused")

-- pools that do not parse do not pass `Validate`
unfoldable pub choose_from : Option Prefix → Option Prefix → ℕ → Map Allocation → Result Allocation
choose_from (some pool) (some bfd) length allocations =
    chosen pool bfd length (free_transit pool length allocations) (free_source bfd allocations)
choose_from _ _ length allocations = err (
    invalid
      "reserved local network pool exhausted; retained allocations are not automatically reused")

unfoldable pub choose : Config → Map Allocation → Result Allocation
choose c allocations =
    choose_from (parse_prefix c.transit_pool) (parse_prefix c.bfd_source_pool)
      c.transit_prefix_length allocations
