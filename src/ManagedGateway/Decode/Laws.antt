-- ===== src/ManagedGateway/Decode/Laws.antt =====
-- What an accepted registry retains.
use kube_ovn_global_vpc.Prelude.{
  ℕ, ◌≤◌, String, false, not, ◌||◌, Option, none, some, Map, text_at, ltb, ◌==◌, eq_iff, text_eq,
  text_ne, All, All-map, Pairs, check_each_iff, ◌≡◌, ◌≢◌, ◌↔◌, refl, arith, Result, ok, err,
  reject-eq-ok, >>=-eq-ok, is_ok, or-false, not-false,
}
use kube_ovn_global_vpc.Netip.Parse.{cut_slash, addr_text}
use kube_ovn_global_vpc.Netip.Prefix.{Prefix}
use kube_ovn_global_vpc.SiteConfig.Prefix.{prefix, host}
use kube_ovn_global_vpc.SiteConfig.Prefix.Laws.{IsHost, host-IsHost}
use kube_ovn_global_vpc.ManagedGateway.Types.{Settings, AllocationRegistry}
use kube_ovn_global_vpc.ManagedGateway.Decode.{
  pool_of, bad_address, check_addresses, port_identity, bad_cut, bad_port, check_ports,
  check_registry,
}

-- a retained address is the text of a host of the pool, under a key
abbrev pub IsAddress : Prefix → String × String → Type 0
IsAddress pool (claim, raw) = (claim ≢ "") × (a : ℕ) × IsHost pool a × (addr_text a ≡ raw)

-- A retained port: its claim names a node and a link with a retained address, and it is in range.
pub record IsPort (s : Settings) (addresses : Map String) (entry : String × ℕ) : Type 0 where
  pub node : String
  pub key : String
  pub claim : cut_slash entry.0 ≡ some (node, key)
  pub of_node : node ≢ ""
  pub of_link : key ≢ ""
  pub low : s.port_start ≤ entry.1
  pub high : entry.1 ≤ s.port_end
  pub linked : text_at key addresses ≢ ""

address_iff :
    (pool : Prefix) (e : String × String) → (bad_address pool e ≡ false) ↔ IsAddress pool e
address_iff pool (claim, raw) = (accepts, accepted)
  where
    host_of : (r : Result ℕ) → not (is_ok r) ≡ false → (a : ℕ) × (r ≡ ok a)
    host_of (ok a) h = (a, refl)
    host_of (err e) h = cc

    accepts : bad_address pool (claim, raw) ≡ false → IsAddress pool (claim, raw)
    accepts h =
        let (named, hosted) = or-false (claim == "") (not (is_ok (host raw pool))) h in
        let (a, e) = host_of (host raw pool) hosted in
        let (is_host, text) = (host-IsHost raw pool).0 e in
        (text_ne claim "" named, a, is_host, text)

    accepted : IsAddress pool (claim, raw) → bad_address pool (claim, raw) ≡ false
    accepted (named, a, is_host, text) =
        let e : host raw pool ≡ ok a = (host-IsHost raw pool).1 (is_host, text) in
        rw e (ground (arith, eq_iff claim ""))

module _ (s : Settings) (addresses : Map String) (claim : String) (port : ℕ) where
  cut_port :
      (o : Option (String × String))
      → cut_slash claim ≡ o
      → bad_cut s addresses port o ≡ false
      → IsPort s addresses (claim, port)
  unfolding bad_cut
  cut_port none e h = cc
  cut_port (some (node, key)) e h = record {
    node = node;
    key = key;
    claim = e;
    of_node = text_ne node "" (ground arith);
    of_link = text_ne key "" (ground arith);
    low = ground arith;
    high = ground arith;
    linked = text_ne (text_at key addresses) "" (ground arith);
  }

  port_cut : IsPort s addresses (claim, port) → bad_port s addresses (claim, port) ≡ false
  unfolding bad_cut
  port_cut p = rw p.claim (
      ground (
        arith,
        eq_iff p.node "",
        eq_iff p.key "",
        eq_iff (text_at p.key addresses) "",
        p.of_node,
        p.of_link,
        p.low,
        p.high,
        p.linked,
      ))

  port_iff : (bad_port s addresses (claim, port) ≡ false) ↔ IsPort s addresses (claim, port)
  port_iff = (cut_port (cut_slash claim) refl, port_cut)

-- A valid registry of an installation: its retained addresses are different hosts of the pool, and
-- its retained ports are in range and, at one node, different.
pub record IsRegistry (s : Settings) (pool : Prefix) (reg : AllocationRegistry) : Type 0 where
  pub of_cluster : reg.cluster_uid ≡ s.cluster_uid
  pub pooled : prefix s.allocation_pool ≡ ok pool
  pub unprivileged : 1024 ≤ s.port_start
  pub ordered : s.port_start ≤ s.port_end
  pub bounded : s.port_end ≤ 65535
  pub addresses : All (IsAddress pool) reg.addresses
  pub distinct : Pairs (λ e f. e.1 ≢ f.1) reg.addresses
  pub ports : All (IsPort s reg.addresses) reg.ports
  pub apart : Pairs (λ e f. port_identity e ≢ port_identity f) reg.ports

pool_of-eq-ok : (r : Result Prefix) {pool : Prefix} → pool_of r ≡ ok pool → r ≡ ok pool
unfolding pool_of
pool_of-eq-ok (ok p) h = h
pool_of-eq-ok (err e) h = cc

module _ (s : Settings) (reg : AllocationRegistry) where
  accepts : check_registry s reg ≡ ok tt → (pool : Prefix) × IsRegistry s pool reg
  unfolding check_registry check_addresses check_ports
  accepts h =
      let (cluster, h₁) = reject-eq-ok (not (reg.cluster_uid == s.cluster_uid)) _ _ h in
      let (pool, parsed, h₂) = >>=-eq-ok (pool_of (prefix s.allocation_pool)) _ h₁ in
      let (range, h₃) =
        reject-eq-ok (ltb s.port_start 1024 || ltb 65535 s.port_end || ltb s.port_end s.port_start)
          _ _ h₂ in
      let (_, first, second) = >>=-eq-ok (check_addresses pool reg.addresses) _ h₃ in
      let (addresses, distinct) =
        (check_each_iff (bad_address pool) (λ e. e.1) _ reg.addresses).0 first in
      let (ports, apart) =
        (check_each_iff (bad_port s reg.addresses) port_identity _ reg.ports).0 second in
      (
        pool,
        record {
          of_cluster = text_eq _ _ (not-false _ cluster);
          pooled = pool_of-eq-ok (prefix s.allocation_pool) parsed;
          unprivileged = ground arith;
          ordered = ground arith;
          bounded = ground arith;
          addresses = All-map (λ e. (address_iff pool e).0) reg.addresses addresses;
          distinct = distinct;
          ports = All-map (λ e. (port_iff s reg.addresses e.0 e.1).0) reg.ports ports;
          apart = apart;
        },
      )

  accepted : (pool : Prefix) → IsRegistry s pool reg → check_registry s reg ≡ ok tt
  unfolding check_registry check_addresses check_ports
  accepted pool r =
      let cluster : not (reg.cluster_uid == s.cluster_uid) ≡ false =
        ground (arith, eq_iff reg.cluster_uid s.cluster_uid, r.of_cluster) in
      let parsed : pool_of (prefix s.allocation_pool) ≡ ok pool =
        unfold pool_of in rw r.pooled refl in
      let range : (ltb s.port_start 1024 || ltb 65535 s.port_end || ltb s.port_end s.port_start)
          ≡ false =
        ground (arith, r.unprivileged, r.ordered, r.bounded) in
      let first =
        (check_each_iff (bad_address pool) (λ e. e.1)
            "GatewayAllocationRegistryInvalid: duplicate or invalid retained address"
            reg.addresses).1
          (All-map (λ e. (address_iff pool e).1) reg.addresses r.addresses, r.distinct) in
      let second =
        (check_each_iff (bad_port s reg.addresses) port_identity
            "GatewayAllocationRegistryInvalid: duplicate, orphaned or invalid retained port"
            reg.ports).1
          (All-map (λ e. (port_iff s reg.addresses e.0 e.1).1) reg.ports r.ports, r.apart) in
      rw (cluster, parsed, range, first) second

-- The checks of a decoded registry accept it exactly when it is of the installation, the pools are
-- usable, its addresses are different hosts of the pool, and its ports are in range, belong to links
-- with an address and are, with their nodes, different.
pub check_registry-IsRegistry :
    (s : Settings) (reg : AllocationRegistry)
    → (check_registry s reg ≡ ok tt) ↔ ((pool : Prefix) × IsRegistry s pool reg)
check_registry-IsRegistry s reg = (accepts s reg, λ p. accepted s reg p.0 p.1)
