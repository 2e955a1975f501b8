-- ===== src/LocalConfig/Laws.antt =====
-- What `Config.Validate` of internal/localconfig accepts.
use kube_ovn_global_vpc.Prelude.{
  ℕ, ◌+◌, ◌-◌, ◌^◌, ◌≤◌, ◌≡◌, Bool, false, ◌||◌, [], ◌∷◌, any, any-false, is_empty, All, ltb, ok,
  or-false, >>=-eq-ok, reject-eq-ok, reject_passed, ◌==◌, arith,
}
use kube_ovn_global_vpc.Kube.Validation.{Validation}
use kube_ovn_global_vpc.Netip.Prefix.{Prefix, overlaps}
use kube_ovn_global_vpc.Netip.Blocks.{Disjoint, overlaps-Disjoint}
use kube_ovn_global_vpc.SiteConfig.Prefix.{prefix}
use kube_ovn_global_vpc.LocalConfig.{
  Config, native_ports, in_ports, not_label, check_numbers, validate,
}

-- ports, lengths and counts in range; enough addresses of a transit network for the gateways,
-- besides the network, the broadcast and the router
pub record HasNumbers (c : Config) (transit : Prefix) : Type 0 where
  pub unprivileged : 1024 ≤ c.port_start
  pub ports : c.port_start ≤ c.port_end
  pub port_bound : c.port_end ≤ 65535
  pub native : All (λ port. in_ports c port ≡ false) native_ports
  pub fits : transit.bits ≤ c.transit_prefix_length
  pub length : (16 ≤ c.transit_prefix_length) × (c.transit_prefix_length ≤ 29)
  pub replicas : (2 ≤ c.gateway_replicas) × (c.gateway_replicas ≤ 64)
  pub capacity : c.gateway_replicas + 3 ≤ 2 ^ (32 - c.transit_prefix_length)
  pub mtu : (1280 ≤ c.mtu) × (c.mtu ≤ 1400)

port_facts :
    (first last : ℕ) (dir : Bool)
    → (ltb first 1024 || ltb 65535 last || ltb last first || dir) ≡ false
    → (1024 ≤ first) × (first ≤ last) × (last ≤ 65535)
port_facts first last dir h = ground arith

length_facts :
    (bits n : ℕ) → (ltb n bits || ltb 29 n || ltb n 16) ≡ false → (bits ≤ n) × (16 ≤ n) × (n ≤ 29)
length_facts bits n h = ground arith

replica_facts :
    (n k : ℕ) → (ltb n 2 || ltb 64 n || ltb (k - 3) n) ≡ false → (2 ≤ n) × (n ≤ 64) × (n + 3 ≤ k)
replica_facts n k h = ground arith

mtu_facts :
    (a b : Bool) (n : ℕ) → (a || b || ltb n 1280 || ltb 1400 n) ≡ false → (1280 ≤ n) × (n ≤ 1400)
mtu_facts a b n h = ground arith

check_numbers-HasNumbers :
    (c : Config) (transit : Prefix) → check_numbers c transit ≡ ok tt → HasNumbers c transit
unfolding check_numbers
check_numbers-HasNumbers c transit h =
    let (ports, h₁) =
      reject-eq-ok
        (ltb c.port_start 1024
          || ltb 65535 c.port_end
          || ltb c.port_end c.port_start
          || c.runtime_dir == "")
        _ _ h in
    let (native, h₂) = reject-eq-ok (any (in_ports c) native_ports) _ _ h₁ in
    let (lengths, h₃) =
      reject-eq-ok
        (ltb c.transit_prefix_length transit.bits
          || ltb 29 c.transit_prefix_length
          || ltb c.transit_prefix_length 16)
        _ _ h₂ in
    let (replicas, h₄) =
      reject-eq-ok
        (ltb c.gateway_replicas 2
          || ltb 64 c.gateway_replicas
          || ltb (2 ^ (32 - c.transit_prefix_length) - 3) c.gateway_replicas)
        _ _ h₃ in
    let (low, order, high) = port_facts c.port_start c.port_end (c.runtime_dir == "") ports in
    let (fits, short, long) = length_facts transit.bits c.transit_prefix_length lengths in
    let (two, many, space) =
      replica_facts c.gateway_replicas (2 ^ (32 - c.transit_prefix_length)) replicas in
    record {
      unprivileged = low;
      ports = order;
      port_bound = high;
      native = any-false (in_ports c) native_ports native;
      fits = fits;
      length = (short, long);
      replicas = (two, many);
      capacity = space;
      mtu =
          mtu_facts (is_empty c.gateway_node_selector) (c.gateway_image == "") c.mtu
            (reject_passed _ _ h₄);
    }

-- the three pools of an installation, which share no address, and its numbers
pub record IsLocal (c : Config) : Type 0 where
  pub transit : Prefix
  pub transit_text : prefix c.transit_pool ≡ ok transit
  pub bfd : Prefix
  pub bfd_text : prefix c.bfd_source_pool ≡ ok bfd
  pub control : Prefix
  pub control_text : prefix c.control_pool ≡ ok control
  pub transit_bfd : Disjoint transit bfd
  pub control_transit : Disjoint control transit
  pub control_bfd : Disjoint control bfd
  pub numbers : HasNumbers c transit

-- In accepted settings the transit, BFD and control pools are networks without a common address,
-- the port range is unprivileged and avoids the native ports, and a transit network of the chosen
-- length has room for all gateways.
pub validate-IsLocal : (v : Validation) (c : Config) → validate v c ≡ ok tt → IsLocal c
unfolding validate
validate-IsLocal v c h =
    let (_, h₁) =
      reject-eq-ok (any (not_label v) (c.location_ref ∷ c.namespace ∷ c.authority_namespace ∷ [])) _
        _ h in
    let (_, h₂) = reject-eq-ok (c.cluster_uid == "" || c.authority_kubeconfig == "") _ _ h₁ in
    let (transit, transit_text, h₃) = >>=-eq-ok (prefix c.transit_pool) _ h₂ in
    let (bfd, bfd_text, h₄) = >>=-eq-ok (prefix c.bfd_source_pool) _ h₃ in
    let (apart, h₅) = reject-eq-ok (overlaps transit bfd) _ _ h₄ in
    let (control, control_text, h₆) = >>=-eq-ok (prefix c.control_pool) _ h₅ in
    let (clear, h₇) = reject-eq-ok (overlaps control transit || overlaps control bfd) _ _ h₆ in
    let (_, numbers, _) = >>=-eq-ok (check_numbers c transit) _ h₇ in
    let (of_transit, of_bfd) = or-false _ _ clear in
    record {
      transit = transit;
      transit_text = transit_text;
      bfd = bfd;
      bfd_text = bfd_text;
      control = control;
      control_text = control_text;
      transit_bfd = overlaps-Disjoint transit bfd apart;
      control_transit = overlaps-Disjoint control transit of_transit;
      control_bfd = overlaps-Disjoint control bfd of_bfd;
      numbers = check_numbers-HasNumbers c transit numbers;
    }
