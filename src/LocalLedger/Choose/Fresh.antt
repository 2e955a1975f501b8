-- ===== src/LocalLedger/Choose/Fresh.antt =====
-- A chosen allocation is a network of the transit pool and a host of the source pool that no
-- retained allocation has; and the choice fails only where one of the pools is used up.
use kube_ovn_global_vpc.Prelude.{
  ℕ, ◌+◌, ◌-◌, ◌%◌, ◌^◌, ◌≤◌, ◌<◌, String, true, false, Option, none, some, [], ◌∷◌, Map,
  first_free-IsFirst, first_free-none, ltb, ltb→lt, lt→ltb, ◌≡◌, ◌⊎◌, inl, inr, refl, sym, ◌∙◌, ap,
  arith, ok, err, Error, ok-injective, All, any-false, text_ne, ◌==◌, subst,
}
use kube_ovn_global_vpc.Netip.Parse.{addr_text}
use kube_ovn_global_vpc.Netip.Prefix.{
  Prefix, block, masked_addr, contains, parse_prefix, prefix_text, next,
}
use kube_ovn_global_vpc.Netip.Prefix.RoundTrip.{parse_prefix-prefix_text}
use kube_ovn_global_vpc.Netip.Blocks.{Disjoint, contains-Covers, pow_pos, pow-lt}
use kube_ovn_global_vpc.SiteConfig.Prefix.{last_address, prefix}
use kube_ovn_global_vpc.SiteConfig.Prefix.Laws.{
  IsNetwork, IsHost, NoLinkLocal, prefix-IsNetwork, host-IsHost, last_address-lt, between-IsHost,
}
use kube_ovn_global_vpc.Kube.Validation.{Validation}
use kube_ovn_global_vpc.LocalConfig.{Config, validate}
use kube_ovn_global_vpc.LocalConfig.Laws.{validate-IsLocal}
use kube_ovn_global_vpc.LocalLedger.{Allocation}
use kube_ovn_global_vpc.LocalLedger.Networks.{apart_of_texts}
use kube_ovn_global_vpc.LocalLedger.Laws.{IsRetained, Separate}
use kube_ovn_global_vpc.LocalLedger.Choose.{
  ip_at, transit_at, transit_used, source_used, free_transit, free_source, chosen, choose_from,
  choose,
}
use kube_ovn_global_vpc.LocalLedger.Choose.Laws.{
  transit_at-IsNetwork, transit_bits, transit_first_inside,
}

-- The settings that the choice depends on, as `Validate` leaves them: two networks as pools, and a
-- length that fits.
pub record HasPools (c : Config) : Type 0 where
  pub pool : Prefix
  pub transit : prefix c.transit_pool ≡ ok pool
  pub bfd : Prefix
  pub source : prefix c.bfd_source_pool ≡ ok bfd
  pub fits : pool.bits ≤ c.transit_prefix_length
  pub short : c.transit_prefix_length ≤ 29

pub validate-HasPools : (v : Validation) (c : Config) → validate v c ≡ ok tt → HasPools c
validate-HasPools v c h =
    let l = validate-IsLocal v c h in
    record {
      pool = l.transit;
      transit = l.transit_text;
      bfd = l.bfd;
      source = l.bfd_text;
      fits = l.numbers.fits;
      short = l.numbers.length.1;
    }

-- What `Validate` leaves open: no pool has a link-local address.
pub record NoLinkLocalPools (c : Config) (p : HasPools c) : Type 0 where
  pub transit : NoLinkLocal p.pool
  pub source : NoLinkLocal p.bfd

module _ (c : Config) (p : HasPools c) where
  pool_network : IsNetwork p.pool
  pool_network = ((prefix-IsNetwork c.transit_pool).0 p.transit).0

  bfd_network : IsNetwork p.bfd
  bfd_network = ((prefix-IsNetwork c.bfd_source_pool).0 p.source).0

  parsed : (raw : String) (q : Prefix) → prefix raw ≡ ok q → parse_prefix raw ≡ some q
  parsed raw q h =
      let (n, text) = (prefix-IsNetwork raw).0 h in
      ap parse_prefix (sym text) ∙ parse_prefix-prefix_text q n.in_range (omega (arith, n.large))

  -- the numbers of the loops do not wrap around
  rounds : (a : ℕ) → a < 32 → 2 ^ a % 2 ^ 32 ≡ 2 ^ a
  rounds a h = let small = pow-lt a 32 h in let pos = pow_pos a in omega (arith, small, pos)

  module _ (allocations : Map Allocation) where
    free_source-IsHost :
        NoLinkLocalPools c p
        → (j : ℕ) → free_source p.bfd allocations ≡ some j
        → IsHost p.bfd (ip_at p.bfd j)
          × (source_used allocations (addr_text (ip_at p.bfd j)) ≡ false)
    unfolding free_source
    free_source-IsHost unlinked j h =
        let f =
          first_free-IsFirst (λ i. ltb i (2 ^ (32 - p.bfd.bits) % 2 ^ 32 - 1))
            (λ i. source_used allocations (addr_text (ip_at p.bfd i))) (2 ^ 32) 1 h in
        let n = bfd_network in
        let top = last_address-lt p.bfd (omega (arith, n.large)) n.in_range in
        let whole : last_address p.bfd ≡ masked_addr p.bfd + (block p.bfd.bits - 1) =
          unfold last_address in refl in
        let wrap = rounds (32 - p.bfd.bits) (omega (arith, n.small)) in
        let below : j < 2 ^ (32 - p.bfd.bits) % 2 ^ 32 - 1 = ltb→lt _ _ f.allowed in
        let spot : ip_at p.bfd j ≡ p.bfd.addr + j =
          unfold ip_at in omega (arith, top, whole, n.aligned, wrap, below) in
        (
          between-IsHost p.bfd (ip_at p.bfd j) n unlinked.source (omega (arith, spot, f.from))
              (omega (arith, spot, whole, n.aligned, wrap, below)),
          f.free,
        )

    transit_network :
        NoLinkLocalPools c p
        → (i : ℕ) → free_transit p.pool c.transit_prefix_length allocations ≡ some i
        → IsNetwork (transit_at p.pool c.transit_prefix_length i)
          × ((transit_at p.pool c.transit_prefix_length i).bits ≡ c.transit_prefix_length)
          × (contains p.pool (transit_at p.pool c.transit_prefix_length i).addr ≡ true)
          × (transit_used allocations (prefix_text (transit_at p.pool c.transit_prefix_length i))
              ≡ false)
    unfolding free_transit
    transit_network unlinked i h =
        let length = c.transit_prefix_length in
        let f =
          first_free-IsFirst (λ k. ltb k (2 ^ (length - p.pool.bits) % 2 ^ 32))
            (λ k. transit_used allocations (prefix_text (transit_at p.pool length k))) (2 ^ 32) 0
            h in
        let n = pool_network in
        let wrap = rounds (length - p.pool.bits) (omega (arith, p.short)) in
        let below : i < 2 ^ (length - p.pool.bits) =
          omega (arith, wrap, ltb→lt i (2 ^ (length - p.pool.bits) % 2 ^ 32) f.allowed) in
        let short : length ≤ 30 = omega (arith, p.short) in
        (
          transit_at-IsNetwork p.pool n length i p.fits short below unlinked.transit,
          transit_bits p.pool n length i p.fits short below,
          transit_first_inside p.pool n length i p.fits short below,
          f.free,
        )

    all_transit :
        free_transit p.pool c.transit_prefix_length allocations ≡ none
        → (i : ℕ) → i < 2 ^ (c.transit_prefix_length - p.pool.bits)
        → transit_used allocations (prefix_text (transit_at p.pool c.transit_prefix_length i))
          ≡ true
    unfolding free_transit
    all_transit h i below =
        let length = c.transit_prefix_length in
        let wrap = rounds (length - p.pool.bits) (omega (arith, p.short)) in
        first_free-none (λ k. ltb k (2 ^ (length - p.pool.bits) % 2 ^ 32))
          (λ k. transit_used allocations (prefix_text (transit_at p.pool length k))) (2 ^ 32) 0
          (λ k m. omega (arith, ltb→lt k (2 ^ (length - p.pool.bits) % 2 ^ 32) m)) h i (omega arith)
          (λ k low high.
            lt→ltb k (2 ^ (length - p.pool.bits) % 2 ^ 32) (omega (arith, wrap, below)))

    all_sources :
        free_source p.bfd allocations ≡ none
        → (j : ℕ) → 1 ≤ j
        → j < block p.bfd.bits - 1
        → source_used allocations (addr_text (ip_at p.bfd j)) ≡ true
    unfolding free_source
    all_sources h j low below =
        let wrap = rounds (32 - p.bfd.bits) (omega (arith, bfd_network.small)) in
        first_free-none (λ k. ltb k (2 ^ (32 - p.bfd.bits) % 2 ^ 32 - 1))
          (λ k. source_used allocations (addr_text (ip_at p.bfd k))) (2 ^ 32) 1
          (λ k m. omega (arith, ltb→lt k (2 ^ (32 - p.bfd.bits) % 2 ^ 32 - 1) m)) h j low
          (λ k a z. lt→ltb k (2 ^ (32 - p.bfd.bits) % 2 ^ 32 - 1) (omega (arith, wrap, below)))

    -- a new network and source share nothing with a retained one
    separate :
        (owner : String) (new : Allocation) (network : Prefix)
        → prefix new.transit_cidr ≡ ok network
        → network.bits ≡ c.transit_prefix_length
        → (e : String × Allocation) → IsRetained c [] [] e
        → (e.1.transit_cidr == new.transit_cidr) ≡ false
        → (e.1.bfd_source_ip == new.bfd_source_ip) ≡ false
        → Separate (owner, new) e
    separate owner new network read bits e k other_transit other_source = (
      (λ p' q h g.
          subst (λ n. Disjoint n q) (ok-injective (sym read ∙ h))
            (subst (λ n. Disjoint network n) (ok-injective (sym k.parsed ∙ g))
              (apart_of_texts new.transit_cidr e.1.transit_cidr network k.network read k.parsed
                (bits ∙ sym k.of_length)
                (λ s. text_ne e.1.transit_cidr new.transit_cidr other_transit (sym s))))),
      (λ s. text_ne e.1.bfd_source_ip new.bfd_source_ip other_source (sym s)),
    )

    chosen-Separate :
        (owner : String) (new : Allocation) (network : Prefix)
        → prefix new.transit_cidr ≡ ok network
        → network.bits ≡ c.transit_prefix_length
        → (entries : Map Allocation) → All (IsRetained c [] []) entries
        → All (λ e. (e.1.transit_cidr == new.transit_cidr) ≡ false) entries
        → All (λ e. (e.1.bfd_source_ip == new.bfd_source_ip) ≡ false) entries
        → All (Separate (owner, new)) entries
    chosen-Separate owner new network read bits [] all t s = tt
    chosen-Separate owner new network read bits (e ∷ entries) all t s = (
      separate owner new network read bits e all.0 t.0 s.0,
      chosen-Separate owner new network read bits entries all.1 t.1 s.1,
    )

    chosen-IsRetained :
        NoLinkLocalPools c p
        → (o q : Option ℕ) {a : Allocation}
        → free_transit p.pool c.transit_prefix_length allocations ≡ o
        → free_source p.bfd allocations ≡ q
        → chosen p.pool p.bfd c.transit_prefix_length o q ≡ ok a
        → (owner : String) → All (IsRetained c [] []) allocations
        → IsRetained c [] [] (owner, a) × All (Separate (owner, a)) allocations
    unfolding chosen
    chosen-IsRetained unlinked none q e f h owner all = absurd (cc h)
    chosen-IsRetained unlinked (some i) none e f h owner all = absurd (cc h)
    chosen-IsRetained unlinked (some i) (some j) e f h owner all =
        let (is_host, new_source) = free_source-IsHost unlinked j f in
        let (n, bits, inside, new_transit) = transit_network unlinked i e in
        let network : Prefix = transit_at p.pool c.transit_prefix_length i in
        let new : Allocation = record {
          transit_cidr = prefix_text network;
          router_ip = addr_text (next network.addr);
          bfd_source_ip = addr_text (ip_at p.bfd j);
        } in
        let read : prefix new.transit_cidr ≡ ok network =
          (prefix-IsNetwork new.transit_cidr).1 (n, refl) in
        subst (λ x. IsRetained c [] [] (owner, x) × All (Separate (owner, x)) allocations)
          (ok-injective h)
          (
            record {
              network = network;
              parsed = read;
              of_length = bits;
              pooled = (
                p.pool,
                p.transit,
                contains-Covers p.pool network (omega (arith, bits, p.fits)) inside,
              );
              router = refl;
              source =
                  rw p.source (rw ((host-IsHost new.bfd_source_ip p.bfd).1 (is_host, refl)) refl);
              new_transit = tt;
              new_source = tt;
            },
            chosen-Separate owner new network read bits allocations all
                (any-false (λ (x : String × Allocation). x.1.transit_cidr == new.transit_cidr)
                  allocations (unfold transit_used in new_transit))
                (any-false (λ (x : String × Allocation). x.1.bfd_source_ip == new.bfd_source_ip)
                  allocations (unfold source_used in new_source)),
          )

    -- Where the two pools are networks without a link-local address and the length fits, an
    -- allocation that is chosen beside valid ones is valid itself: a network of the configured
    -- length in the transit pool, its first host as the router and a host of the source pool. It
    -- shares no address of its network and no source with any of them.
    pub choose-IsRetained :
        NoLinkLocalPools c p
        → {a : Allocation} → choose c allocations ≡ ok a
        → (owner : String) → All (IsRetained c [] []) allocations
        → IsRetained c [] [] (owner, a) × All (Separate (owner, a)) allocations
    unfolding choose choose_from
    choose-IsRetained unlinked h owner all =
        chosen-IsRetained unlinked (free_transit p.pool c.transit_prefix_length allocations)
          (free_source p.bfd allocations) refl refl
          (rw (parsed c.transit_pool p.pool p.transit, parsed c.bfd_source_pool p.bfd p.source) at
            h)
          owner all

    chosen_refused :
        (o q : Option ℕ) {e : Error}
        → chosen p.pool p.bfd c.transit_prefix_length o q ≡ err e
        → (o ≡ none) ⊎ (q ≡ none)
    unfolding chosen
    chosen_refused none q h = inl refl
    chosen_refused (some i) none h = inr refl
    chosen_refused (some i) (some j) h = absurd (cc h)

    -- Where the two pools are networks and the length fits, as in accepted settings, the choice fails
    -- only where every network of the length in the transit pool, or every source strictly inside
    -- the source pool, is retained: the fuel of the loops is enough.
    pub choose-exhausted :
        {e : Error}
        → choose c allocations ≡ err e
        → ((i : ℕ)
            → i < 2 ^ (c.transit_prefix_length - p.pool.bits)
            → transit_used allocations (prefix_text (transit_at p.pool c.transit_prefix_length i))
              ≡ true)
          ⊎ ((j : ℕ)
              → 1 ≤ j
              → j < block p.bfd.bits - 1
              → source_used allocations (addr_text (ip_at p.bfd j)) ≡ true)
    unfolding choose choose_from
    choose-exhausted {e} h =
        let length = c.transit_prefix_length in
        let refused : chosen p.pool p.bfd length (free_transit p.pool length allocations)
              (free_source p.bfd allocations)
            ≡ err e =
          rw (parsed c.transit_pool p.pool p.transit, parsed c.bfd_source_pool p.bfd p.source) at
            h in
        elim (chosen_refused (free_transit p.pool length allocations)
          (free_source p.bfd allocations) refused) [
            | inl no_transit ↦ inl (all_transit no_transit)
            | inr no_source ↦ inr (all_sources no_source)
          ]
