-- ===== src/LocalLedger/Choose/Laws.antt =====
-- A chosen allocation is a network of the pool, with its first host as the router, and a source,
-- all of them new; and the choice fails only where one of the pools is used up.
use kube_ovn_global_vpc.Prelude.{
  ℕ, ◌+◌, ◌-◌, ◌*◌, ◌/◌, ◌^◌, ◌≤◌, ◌<◌, true, ◌≡◌, refl, sym, ◌∙◌, ap, arith, inr,
}
use kube_ovn_global_vpc.Netip.Prefix.{Prefix, block, masked_addr, contains}
use kube_ovn_global_vpc.Netip.Blocks.{pow_pos, pow-add, bounds-contains}
use kube_ovn_global_vpc.SiteConfig.Prefix.{last_address}
use kube_ovn_global_vpc.SiteConfig.Prefix.Laws.{
  IsNetwork, NoLinkLocal, last_address-lt, network-unicast,
}
use kube_ovn_global_vpc.LocalLedger.Choose.{ip_at, transit_at}

module _ (pool : Prefix) (n : IsNetwork pool) (length i : ℕ) (long : pool.bits ≤ length)
    (short : length ≤ 30) (h : i < 2 ^ (length - pool.bits)) where
  -- the blocks of the length fill the pool
  pool_split : block pool.bits ≡ 2 ^ (length - pool.bits) * block length
  pool_split = ap (λ k. 2 ^ k) (omega arith) ∙ pow-add (length - pool.bits) (32 - length)

  fits : i * block length + block length ≤ block pool.bits
  fits = rw pool_split (grind (arith, pow_pos (32 - length)))

  transit_addr : (transit_at pool length i).addr ≡ pool.addr + i * block length
  unfolding transit_at ip_at
  transit_addr =
      let top = last_address-lt pool (omega (arith, n.large)) n.in_range in
      let whole : last_address pool ≡ masked_addr pool + (block pool.bits - 1) =
        unfold last_address in refl in
      let pos = pow_pos (32 - length) in omega (arith, fits, n.aligned, top, whole, pos)

  pub transit_bits : (transit_at pool length i).bits ≡ length
  unfolding transit_at
  transit_bits = refl

  -- the pool is made of whole blocks
  multiple : (q k i b : ℕ) → 0 < b → (q * (k * b) + i * b) / b * b ≡ q * (k * b) + i * b
  multiple q k i b pos =
      let sum : q * (k * b) + i * b ≡ (q * k + i) * b = grind arith in
      rw sum (ap (λ m. m * b) (mul-div (q * k + i) b pos))
    where
      mul-div : (m b : ℕ) → 0 < b → m * b / b ≡ m
      mul-div m b pos = grind arith

  transit_aligned : masked_addr (transit_at pool length i) ≡ (transit_at pool length i).addr
  transit_aligned =
      let whole : pool.addr
          ≡ pool.addr / block pool.bits * (2 ^ (length - pool.bits) * block length) =
        sym n.aligned ∙ ap (λ k. pool.addr / block pool.bits * k) pool_split in
      let spot : (transit_at pool length i).addr
          ≡ pool.addr / block pool.bits * (2 ^ (length - pool.bits) * block length)
            + i * block length =
        transit_addr ∙ ap (λ a. a + i * block length) whole in
      let step =
        multiple (pool.addr / block pool.bits) (2 ^ (length - pool.bits)) i (block length)
          (pow_pos (32 - length)) in
      ap (λ k. (transit_at pool length i).addr / block k * block k) transit_bits
      ∙ ap (λ a. a / block length * block length) spot
      ∙ step
      ∙ sym spot

  transit_last :
      last_address (transit_at pool length i) ≡ pool.addr + i * block length + (block length - 1)
  transit_last =
      let shape : last_address (transit_at pool length i)
          ≡ masked_addr (transit_at pool length i) + (block (transit_at pool length i).bits - 1) =
        unfold last_address in refl in
      shape
      ∙ ap (λ k. masked_addr (transit_at pool length i) + (block k - 1)) transit_bits
      ∙ ap (λ a. a + (block length - 1)) (transit_aligned ∙ transit_addr)

  -- an address of the block lies in the pool
  block_inside :
      (a : ℕ)
      → pool.addr + i * block length ≤ a
      → a < pool.addr + i * block length + block length
      → contains pool a ≡ true
  block_inside a low high =
      bounds-contains pool a (omega (arith, n.aligned)) (omega (arith, n.aligned, fits))

  pub transit_first_inside : contains pool (transit_at pool length i).addr ≡ true
  transit_first_inside =
      block_inside (transit_at pool length i).addr (omega (arith, transit_addr))
        (omega (arith, transit_addr, pow_pos (32 - length)))

  pub transit_last_inside : contains pool (last_address (transit_at pool length i)) ≡ true
  transit_last_inside =
      let pos = pow_pos (32 - length) in
      block_inside (last_address (transit_at pool length i)) (omega (arith, transit_last))
        (omega (arith, transit_last, pos))

  -- The i-th block of a pool without link-local addresses is a canonical network.
  pub transit_at-IsNetwork : NoLinkLocal pool → IsNetwork (transit_at pool length i)
  transit_at-IsNetwork clean =
      let top = last_address-lt pool (omega (arith, n.large)) n.in_range in
      let whole : last_address pool ≡ masked_addr pool + (block pool.bits - 1) =
        unfold last_address in refl in
      let pos = pow_pos (32 - length) in
      record {
        small = omega (arith, transit_bits, n.small);
        large = omega (arith, transit_bits);
        in_range = omega (arith, transit_addr, fits, n.aligned, top, whole, pos);
        aligned = transit_aligned;
        first_unicast =
            network-unicast pool (transit_at pool length i).addr n transit_first_inside
              (inr (clean (transit_at pool length i).addr transit_first_inside));
        last_unicast =
            network-unicast pool (last_address (transit_at pool length i)) n transit_last_inside
              (inr (clean (last_address (transit_at pool length i)) transit_last_inside));
      }
