-- ===== src/LocalLedger/Laws.antt =====
-- The retained allocations of an accepted ledger.
use kube_ovn_global_vpc.Prelude.{
  String, Bool, true, false, not, ◌||◌, List, [], ◌∷◌, Map, text_at, length, eqb, eqb_iff, ◌==◌,
  contains_text, contains_text-false, All, All-map, Pairs, ◌≡◌, ◌≢◌, refl, sym, ◌∙◌, subst, arith,
  Result, ok, err, >>=-eq-ok, reject-eq-ok, ok-injective, text_eq,
}
use kube_ovn_global_vpc.Kube.Client.{ConfigMap}
use kube_ovn_global_vpc.Netip.Parse.{addr_text}
use kube_ovn_global_vpc.Netip.Prefix.{Prefix, masked_addr, next}
use kube_ovn_global_vpc.Netip.Blocks.{Covers, Disjoint}
use kube_ovn_global_vpc.SiteConfig.Prefix.{prefix, last_address}
use kube_ovn_global_vpc.SiteConfig.Prefix.Laws.{prefix-IsNetwork}
use kube_ovn_global_vpc.SiteConfig.Validate.Delegated.{TextsDisjoint}
use kube_ovn_global_vpc.LocalConfig.{Config}
use kube_ovn_global_vpc.LocalLedger.{
  Allocation, AllocatorState, Codec, in_pool, usable, bad_allocation, check_allocations, decoded,
  read_allocation_state,
}
use kube_ovn_global_vpc.LocalLedger.Networks.{apart_of_texts, ends-Covers}

-- the range of a pool text, if it has one, covers a network
abbrev pub PoolCovers : String → Prefix → Type 0
PoolCovers raw p = (pool : Prefix) × (prefix raw ≡ ok pool) × Covers pool p

pool_ends :
    (raw : String) (p : Prefix)
    → masked_addr p ≡ p.addr
    → in_pool (prefix raw) p.addr ≡ true
    → in_pool (prefix raw) (last_address p) ≡ true
    → PoolCovers raw p
pool_ends raw p aligned = by_parse (prefix raw) refl
  where
    by_parse :
        (r : Result Prefix)
        → prefix raw ≡ r
        → in_pool r p.addr ≡ true
        → in_pool r (last_address p) ≡ true
        → PoolCovers raw p
    by_parse (err e) parsed h k = absurd (cc h)
    by_parse (ok pool) parsed h k = (pool, parsed, ends-Covers pool p aligned h k)

-- A retained allocation: a network of the configured length in the transit pool with its first host
-- as the router, whose text and source are new.
pub record IsRetained (c : Config) (transits sources : List String) (entry : String × Allocation)
    : Type 0 where
  pub network : Prefix
  pub parsed : prefix entry.1.transit_cidr ≡ ok network
  pub of_length : network.bits ≡ c.transit_prefix_length
  pub pooled : PoolCovers c.transit_pool network
  pub router : entry.1.router_ip ≡ addr_text (next network.addr)
  pub source : usable (prefix c.bfd_source_pool) entry.1.bfd_source_ip ≡ true
  pub new_transit : All (λ t. t ≢ entry.1.transit_cidr) transits
  pub new_source : All (λ t. t ≢ entry.1.bfd_source_ip) sources

-- two allocations share neither an address of their networks nor a source
abbrev pub Separate : String × Allocation → String × Allocation → Type 0
Separate e f =
    TextsDisjoint e.1.transit_cidr f.1.transit_cidr × (e.1.bfd_source_ip ≢ f.1.bfd_source_ip)

-- the disjuncts of the condition on an allocation that the theorem uses
nine :
    (a b c d e f g h i j : Bool)
    → (a || b || c || not d || not e || not f || not g || not h || i || j) ≡ false
    → (d ≡ true) × (e ≡ true) × (f ≡ true) × (g ≡ true) × (h ≡ true) × (i ≡ false) × (j ≡ false)
nine a b c d e f g h i j k = ground arith

module _ (c : Config) where
  retained :
      (transits sources uids : List String) (owner uid : String) (a : Allocation)
      → bad_allocation c transits sources uids owner uid a (prefix a.transit_cidr) ≡ false
      → IsRetained c transits sources (owner, a)
  retained transits sources uids owner uid a = by_parse (prefix a.transit_cidr) refl
    where
      by_parse :
          (r : Result Prefix)
          → prefix a.transit_cidr ≡ r
          → bad_allocation c transits sources uids owner uid a r ≡ false
          → IsRetained c transits sources (owner, a)
      by_parse (err e) parsed h = absurd (unfold bad_allocation in cc h)
      by_parse (ok p) parsed h =
          let (source, bits, first, last, router, new_transit, new_source) =
            nine (owner == "") (uid == "") (contains_text uid uids)
              (usable (prefix c.bfd_source_pool) a.bfd_source_ip)
              (eqb p.bits c.transit_prefix_length) (in_pool (prefix c.transit_pool) p.addr)
              (in_pool (prefix c.transit_pool) (last_address p))
              (a.router_ip == addr_text (next p.addr)) (contains_text a.transit_cidr transits)
              (contains_text a.bfd_source_ip sources) (unfold bad_allocation in h) in
          let (network, _) = (prefix-IsNetwork a.transit_cidr).0 parsed in
          record {
            network = p;
            parsed = parsed;
            of_length = (eqb_iff _ _).0 bits;
            pooled = pool_ends c.transit_pool p network.aligned first last;
            router = text_eq _ _ router;
            source = source;
            new_transit = contains_text-false a.transit_cidr transits new_transit;
            new_source = contains_text-false a.bfd_source_ip sources new_source;
          }

  separate :
      (transits sources : List String) (owner : String) (a : Allocation) (p : Prefix)
      → prefix a.transit_cidr ≡ ok p
      → p.bits ≡ c.transit_prefix_length
      → (f : String × Allocation)
      → IsRetained c (a.transit_cidr ∷ transits) (a.bfd_source_ip ∷ sources) f
      → Separate (owner, a) f
  separate transits sources owner a p parsed bits f k = (
    (λ p' q e g.
        subst (λ n. Disjoint n q) (ok-injective (sym parsed ∙ e))
          (subst (λ n. Disjoint p n) (ok-injective (sym k.parsed ∙ g))
            (apart_of_texts a.transit_cidr f.1.transit_cidr p k.network parsed k.parsed
              (bits ∙ sym k.of_length) k.new_transit.0))),
    k.new_source.0,
  )

  weaken :
      (t u : String) (transits sources : List String) (f : String × Allocation)
      → IsRetained c (t ∷ transits) (u ∷ sources) f
      → IsRetained c transits sources f
  weaken t u transits sources f k = record {
    network = k.network;
    parsed = k.parsed;
    of_length = k.of_length;
    pooled = k.pooled;
    router = k.router;
    source = k.source;
    new_transit = k.new_transit.1;
    new_source = k.new_source.1;
  }

  check_allocations-All :
      (binding_uids : Map String) (transits sources uids : List String) (entries : Map Allocation)
      → check_allocations c binding_uids transits sources uids entries ≡ ok tt
      → All (IsRetained c transits sources) entries × Pairs Separate entries
  unfolding check_allocations
  check_allocations-All binding_uids transits sources uids [] h = (tt, tt)
  check_allocations-All binding_uids transits sources uids ((owner, a) ∷ rest) h =
      let (good, more) =
        reject-eq-ok
          (bad_allocation c transits sources uids owner (text_at owner binding_uids) a
            (prefix a.transit_cidr))
          _ _ h in
      let k = retained transits sources uids owner (text_at owner binding_uids) a good in
      let (all, pairs) =
        check_allocations-All binding_uids (a.transit_cidr ∷ transits) (a.bfd_source_ip ∷ sources)
          (text_at owner binding_uids ∷ uids) rest more in
      (
        (k, All-map (weaken a.transit_cidr a.bfd_source_ip transits sources) rest all),
        (
          All-map (separate transits sources owner a k.network k.parsed k.of_length) rest all,
          pairs,
        ),
      )

-- In an accepted ledger every allocation is a network of the configured length that the transit
-- pool covers, with its first host as the router and a usable source of the BFD pool, and two
-- allocations share neither an address of their networks nor a source.
pub read_allocation_state-IsRetained :
    (codec : Codec) (cm : ConfigMap) (c : Config) (state : AllocatorState)
    → read_allocation_state codec cm c ≡ ok state
    → All (IsRetained c [] []) state.allocations × Pairs Separate state.allocations
unfolding read_allocation_state
read_allocation_state-IsRetained codec cm c state h =
    let (_, h₁) =
      reject-eq-ok
        (cm.uid == ""
          || not (text_at "platform.globalvpc.io/allocator" cm.labels == "true")
          || not (
              text_at "platform.globalvpc.io/allocation-digest" cm.annotations
              == codec.digest (text_at "state.json" cm.values)))
        _ _ h in
    let (st, _, h₂) = >>=-eq-ok (decoded (codec.decode (text_at "state.json" cm.values))) _ h₁ in
    let (_, h₃) =
      reject-eq-ok
        (not (st.cluster_uid == c.cluster_uid)
          || not (eqb (length st.allocations) (length st.binding_uids)))
        _ _ h₂ in
    let (_, checked, h₄) =
      >>=-eq-ok (check_allocations c st.binding_uids [] [] [] st.allocations) _ h₃ in
    subst
      (λ (s : AllocatorState).
        All (IsRetained c [] []) s.allocations × Pairs Separate s.allocations)
      (ok-injective h₄) (check_allocations-All c st.binding_uids [] [] [] st.allocations checked)
