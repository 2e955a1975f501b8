-- ===== src/ManagedGateway/Reserve/Keeps.antt =====
-- A reservation keeps the registry valid and everything that it retains.
use text.Mathlib.TextLemmas.{append_assoc}
use text.Mathlib.TextPositions.{starts_with-append}
use kube_ovn_global_vpc.Prelude.{
  ℕ, ◌^◌, ◌≤◌, ◌<◌, String, ◌⧺◌, true, false, ◌&&◌, none, some, [], ◌∷◌, ◌++◌, Map, find, put,
  put_new, text_at, text_at-append, any-false, All, All-map, All-append, Pairs-append, eqb, ◌==◌,
  starts_with, text_ne, ◌≡◌, ◌≢◌, refl, sym, ◌∙◌, ap, subst, arith, some_eq,
}
use kube_ovn_global_vpc.Netip.Cut.{cut_slash-parts}
use kube_ovn_global_vpc.Netip.Number.{number_text-injective}
use kube_ovn_global_vpc.Netip.Parse.{addr_text, number_text, cut_slash}
use kube_ovn_global_vpc.Netip.Parse.RoundTrip.{cut_slash-slash}
use kube_ovn_global_vpc.Netip.Prefix.{Prefix}
use kube_ovn_global_vpc.SiteConfig.Prefix.Laws.{IsNetwork, IsHost, prefix-IsNetwork}
use kube_ovn_global_vpc.ManagedGateway.Types.{Settings, AllocationRegistry}
use kube_ovn_global_vpc.ManagedGateway.Decode.{port_identity, identity_of}
use kube_ovn_global_vpc.ManagedGateway.Decode.Laws.{IsAddress, IsPort, IsRegistry}
use kube_ovn_global_vpc.ManagedGateway.Reserve.{port_taken, address_taken}

-- every claim of the first registry is in the second with the same value
pub record Retains (reg reg' : AllocationRegistry) : Type 0 where
  pub same_cluster : reg'.cluster_uid ≡ reg.cluster_uid
  pub addresses :
      (k : String) {v : String} → find k reg.addresses ≡ some v → find k reg'.addresses ≡ some v
  pub ports : (k : String) {v : ℕ} → find k reg.ports ≡ some v → find k reg'.ports ≡ some v

module _ (s : Settings) (pool : Prefix) (reg : AllocationRegistry) (r : IsRegistry s pool reg) where
  pub network : IsNetwork pool
  network = ((prefix-IsNetwork s.allocation_pool).0 r.pooled).0

  pub address-IsRegistry :
      (key : String) (ip : ℕ)
      → key ≢ ""
      → find key reg.addresses ≡ none
      → IsHost pool ip
      → address_taken reg.addresses ip ≡ false
      → IsRegistry s pool (record reg { addresses = put key (addr_text ip) reg.addresses })
  address-IsRegistry key ip named new is_host free =
      let at_end = put_new key (addr_text ip) reg.addresses new in
      let fresh : All (λ e. e.1 ≢ addr_text ip) reg.addresses =
        All-map {Q = λ e. e.1 ≢ addr_text ip} (λ e f. text_ne e.1 (addr_text ip) f) reg.addresses
          (any-false (λ e. e.1 == addr_text ip) reg.addresses (unfold address_taken in free)) in
      subst (λ m. IsRegistry s pool (record reg { addresses = m })) (sym at_end)
        (record {
          of_cluster = r.of_cluster;
          pooled = r.pooled;
          unprivileged = r.unprivileged;
          ordered = r.ordered;
          bounded = r.bounded;
          addresses =
              All-append (IsAddress pool) reg.addresses ((key, addr_text ip) ∷ []) r.addresses
                ((named, ip, is_host, refl), tt);
          distinct =
              Pairs-append (λ (e f : String × String). e.1 ≢ f.1) reg.addresses (key, addr_text ip)
                r.distinct fresh;
          ports = All-map (linked_still) reg.ports r.ports;
          apart = r.apart;
        })
    where
      linked_still :
          (e : String × ℕ)
          → IsPort s reg.addresses e
          → IsPort s (reg.addresses ++ (key, addr_text ip) ∷ []) e
      linked_still e p = record {
        node = p.node;
        key = p.key;
        claim = p.claim;
        of_node = p.of_node;
        of_link = p.of_link;
        low = p.low;
        high = p.high;
        linked =
            subst (λ t. t ≢ "")
              (sym (text_at-append p.key reg.addresses ((key, addr_text ip) ∷ []) p.linked))
              p.linked;
      }

  pub port-IsRegistry :
      (node key : String) (v : ℕ)
      → node ≢ ""
      → key ≢ ""
      → cut_slash node ≡ none
      → text_at key reg.addresses ≢ ""
      → find (node ⧺ "/" ⧺ key) reg.ports ≡ none
      → s.port_start ≤ v
      → v ≤ s.port_end
      → port_taken node reg.ports v ≡ false
      → IsRegistry s pool (record reg { ports = put (node ⧺ "/" ⧺ key) v reg.ports })
  port-IsRegistry node key v of_node of_link clean linked new low high free =
      let claim : String = node ⧺ "/" ⧺ key in
      let cut : cut_slash claim ≡ some (node, key) = cut_slash-slash node key clean in
      let at_end = put_new claim v reg.ports new in
      let unused =
        any-false (λ (e : String × ℕ). starts_with e.0 (node ⧺ "/") && eqb e.1 v) reg.ports
          (unfold port_taken in free) in
      subst (λ m. IsRegistry s pool (record reg { ports = m })) (sym at_end)
        (record {
          of_cluster = r.of_cluster;
          pooled = r.pooled;
          unprivileged = r.unprivileged;
          ordered = r.ordered;
          bounded = r.bounded;
          addresses = r.addresses;
          distinct = r.distinct;
          ports = All-append (IsPort s reg.addresses) reg.ports ((claim, v) ∷ []) r.ports (
            record {
              node = node;
              key = key;
              claim = cut;
              of_node = of_node;
              of_link = of_link;
              low = low;
              high = high;
              linked = linked;
            },
            tt,
          );
          apart =
              Pairs-append (λ e f. port_identity e ≢ port_identity f) reg.ports (claim, v) r.apart
                (fresh reg.ports r.ports unused);
        })
    where
      small : (n : ℕ) → n ≤ s.port_end → n < 10 ^ 20
      small n h = omega (arith, r.bounded)

      differs :
          (e : String × ℕ)
          → IsPort s reg.addresses e
          → (starts_with e.0 (node ⧺ "/") && eqb e.1 v) ≡ false
          → port_identity e ≢ port_identity (node ⧺ "/" ⧺ key, v)
      differs e p unused same =
          let (whole, alone) = cut_slash-parts e.0 p.node p.key p.claim in
          let here : port_identity e ≡ p.node ⧺ "/" ⧺ number_text e.1 =
            unfold identity_of in rw p.claim refl in
          let there : port_identity (node ⧺ "/" ⧺ key, v) ≡ node ⧺ "/" ⧺ number_text v =
            unfold identity_of in rw (cut_slash-slash node key clean) refl in
          let texts : p.node ⧺ "/" ⧺ number_text e.1 ≡ node ⧺ "/" ⧺ number_text v =
            sym here ∙ same ∙ there in
          let cuts : some (p.node, number_text e.1) ≡ some (node, number_text v) =
            sym (cut_slash-slash p.node (number_text e.1) alone)
            ∙ ap cut_slash texts
            ∙ cut_slash-slash node (number_text v) clean in
          let pair : ◌≡◌ {A = String × String} (p.node, number_text e.1) (node, number_text v) =
            some_eq cuts in
          let same_node : p.node ≡ node = ap (λ (q : String × String). q.0) pair in
          let same_port : e.1 ≡ v =
            number_text-injective e.1 v (small e.1 p.high) (small v high)
              (ap (λ (q : String × String). q.1) pair) in
          let starts : starts_with e.0 (node ⧺ "/") ≡ true =
            subst (λ t. starts_with t (node ⧺ "/") ≡ true)
              (append_assoc node "/" p.key ∙ ap (λ t. t ⧺ "/" ⧺ p.key) (sym same_node) ∙ sym whole)
              (starts_with-append (node ⧺ "/") p.key) in
          ground (arith, starts, same_port, unused)

      fresh :
          (ports : Map ℕ)
          → All (IsPort s reg.addresses) ports
          → All (λ (e : String × ℕ). (starts_with e.0 (node ⧺ "/") && eqb e.1 v) ≡ false) ports
          → All (λ e. port_identity e ≢ port_identity (node ⧺ "/" ⧺ key, v)) ports
      fresh [] h k = tt
      fresh (e ∷ rest) h k = (differs e h.0 k.0, fresh rest h.1 k.1)
