-- ===== src/ManagedGateway/Reserve/Laws.antt =====
-- The loops: what they find, and that they find nothing only where nothing is left.
use kube_ovn_global_vpc.Prelude.{
  ℕ, ◌+◌, ◌-◌, ◌^◌, ◌≤◌, ◌<◌, String, Bool, true, false, ◌&&◌, none, some, Map, first_free-IsFirst,
  first_free-none, ltb, leb, ◌≡◌, refl, arith, and-true, ltb→lt,
}
use kube_ovn_global_vpc.Netip.Prefix.{Prefix, contains, block, masked_addr, next}
use kube_ovn_global_vpc.Netip.Blocks.{contains_bounds, bounds-contains}
use kube_ovn_global_vpc.SiteConfig.Prefix.{last_address}
use kube_ovn_global_vpc.SiteConfig.Prefix.Laws.{IsNetwork, last_address-lt}
use kube_ovn_global_vpc.ManagedGateway.Types.{Settings}
use kube_ovn_global_vpc.ManagedGateway.Reserve.{port_taken, address_taken, free_port, free_address}

-- A port that the loop finds is in the range, unused at the node, and the least such port.
pub free_port-IsFirst :
    (s : Settings) (node : String) (ports : Map ℕ) {v : ℕ}
    → free_port s node ports ≡ some v
    → (s.port_start ≤ v)
      × (v ≤ s.port_end)
      × (port_taken node ports v ≡ false)
      × ((u : ℕ) → s.port_start ≤ u → u < v → port_taken node ports u ≡ true)
unfolding free_port
free_port-IsFirst s node ports h =
    let f =
      first_free-IsFirst (λ v. leb v s.port_end) (port_taken node ports) (s.port_end + 1)
        s.port_start h in
    (f.from, ground (arith, f.allowed), f.free, f.least)

-- The loop over the ports finds none only where every port of the range is used at the node.
pub free_port-none :
    (s : Settings) (node : String) (ports : Map ℕ)
    → free_port s node ports ≡ none
    → (v : ℕ) → s.port_start ≤ v
    → v ≤ s.port_end
    → port_taken node ports v ≡ true
unfolding free_port
free_port-none s node ports h v low high =
    first_free-none (λ v. leb v s.port_end) (port_taken node ports) (s.port_end + 1) s.port_start
      (λ u m. ground arith) h v low (λ u a b. ground arith)

module _ (pool : Prefix) (n : IsNetwork pool) (addresses : Map String) where
  abbrev more : ℕ → Bool
  more ip = ltb ip (2 ^ 32) && contains pool (next ip)

  -- the loop's condition holds of the hosts
  more-host : (ip : ℕ) → pool.addr < ip → more ip ≡ true → (ip < last_address pool) × (ip < 2 ^ 32)
  more-host ip low h =
      let (small, inside) = and-true (ltb ip (2 ^ 32)) (contains pool (next ip)) h in
      let (_, high) = contains_bounds pool (next ip) inside in
      let whole : last_address pool ≡ masked_addr pool + (block pool.bits - 1) =
        unfold last_address in refl in
      (omega (arith, n.aligned, high, whole), ltb→lt ip (2 ^ 32) small)

  host-more : (ip : ℕ) → pool.addr < ip → ip < last_address pool → more ip ≡ true
  host-more ip low high =
      let whole : last_address pool ≡ masked_addr pool + (block pool.bits - 1) =
        unfold last_address in refl in
      let top = last_address-lt pool (omega (arith, n.large)) n.in_range in
      let inside : contains pool (next ip) ≡ true =
        bounds-contains pool (next ip) (omega (arith, n.aligned))
          (omega (arith, n.aligned, whole, high)) in
      let small : ltb ip (2 ^ 32) ≡ true = ground arith in rw (small, inside) refl

  -- An address that the loop finds is strictly between the first and the last address of the
  -- pool, unused, and the least such address.
  pub free_address-IsFirst :
      {ip : ℕ}
      → free_address pool addresses ≡ some ip
      → (pool.addr < ip)
        × (ip < last_address pool)
        × (address_taken addresses ip ≡ false)
        × ((u : ℕ) → pool.addr < u → u < ip → address_taken addresses u ≡ true)
  unfolding free_address
  free_address-IsFirst {ip} h =
      let f = first_free-IsFirst more (address_taken addresses) (2 ^ 32) (next pool.addr) h in
      let low : pool.addr < ip = omega (arith, f.from) in
      (low, (more-host ip low f.allowed).0, f.free, λ u a b. f.least u (omega arith) b)

  -- The loop over the addresses finds none only where every address strictly between the first
  -- and the last one of the pool is retained.
  pub free_address-none :
      free_address pool addresses ≡ none
      → (ip : ℕ) → pool.addr < ip
      → ip < last_address pool
      → address_taken addresses ip ≡ true
  unfolding free_address
  free_address-none h ip low high =
      first_free-none more (address_taken addresses) (2 ^ 32) (next pool.addr)
        (λ u m. ground (arith, and-true (ltb u (2 ^ 32)) (contains pool (next u)) m)) h ip
        (omega arith) (λ u a b. host-more u (omega arith) (omega arith))
