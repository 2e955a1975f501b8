-- ===== src/LocalConfig.antt =====
-- internal/localconfig/config.go: the settings of one local installation. A negative number is
-- refused by the same lower bound as a small one, so the numbers are ℕ.
pub mod Laws
use kube_ovn_global_vpc.Prelude.{
  ℕ, ◌-◌, ◌^◌, String, Bool, true, false, not, ◌&&◌, ◌||◌, List, [], ◌∷◌, Map, any, is_empty, ltb,
  leb, ◌==◌, Result, ok, err, invalid, reject, ◌>>=◌, ◌>>◌,
}
use kube_ovn_global_vpc.Kube.Validation.{Validation}
use kube_ovn_global_vpc.Netip.Prefix.{Prefix, overlaps}
use kube_ovn_global_vpc.SiteConfig.Prefix.{prefix}

pub record Config : Type 0 where
  pub location_ref : String
  pub cluster_uid : String
  pub namespace : String
  pub authority_namespace : String
  pub authority_kubeconfig : String
  pub gateway_node_selector : Map String
  pub endpoint_annotation : String
  pub transit_pool : String
  pub transit_prefix_length : ℕ
  pub bfd_source_pool : String
  pub gateway_replicas : ℕ
  pub gateway_image : String
  pub mtu : ℕ
  pub control_pool : String
  pub port_start : ℕ
  pub port_end : ℕ
  pub runtime_dir : String

-- the ports that the native transports use
abbrev pub native_ports : List ℕ
native_ports = 4788 ∷ 4789 ∷ 6081 ∷ 6082 ∷ []

abbrev pub in_ports : Config → ℕ → Bool
in_ports c port = leb c.port_start port && leb port c.port_end

abbrev not_label : Validation → String → Bool
not_label v s = not (v.is_dns_label s)

abbrev bad_pair : Validation → String × String → Bool
bad_pair v (key, value) = not (v.is_qualified_name key) || not (v.is_label_value value)

-- the numbers, after the pools
unfoldable pub check_numbers : Config → Prefix → Result (Unit {0})
check_numbers c transit = do
  reject
      (ltb c.port_start 1024
        || ltb 65535 c.port_end
        || ltb c.port_end c.port_start
        || c.runtime_dir == "")
      "reserved WireGuard port range and runtime directory are required"
  reject (any (in_ports c) native_ports)
      "WireGuard port range overlaps reserved native transport ports"
  reject
      (ltb c.transit_prefix_length transit.bits
        || ltb 29 c.transit_prefix_length
        || ltb c.transit_prefix_length 16)
      "transit prefix length must fit pool and provide usable gateway addresses"
  reject
      (ltb c.gateway_replicas 2
        || ltb 64 c.gateway_replicas
        || ltb (2 ^ (32 - c.transit_prefix_length) - 3) c.gateway_replicas)
      "require 2 through 64 gateways and sufficient transit addresses"
  reject
      (is_empty c.gateway_node_selector
        || c.gateway_image == ""
        || ltb c.mtu 1280
        || ltb 1400 c.mtu)
      "gateway selector, image and MTU 1280 through 1400 are required"

unfoldable pub validate : Validation → Config → Result (Unit {0})
validate v c = do
  reject (any (not_label v) (c.location_ref ∷ c.namespace ∷ c.authority_namespace ∷ []))
      "local identity and namespaces must be DNS labels"
  reject (c.cluster_uid == "" || c.authority_kubeconfig == "")
      "cluster UID and authority kubeconfig reference are required"
  transit ← prefix c.transit_pool
  bfd ← prefix c.bfd_source_pool
  reject (overlaps transit bfd) "transit and BFD pools must not overlap"
  control ← prefix c.control_pool
  reject (overlaps control transit || overlaps control bfd)
      "control, transit and BFD pools must not overlap"
  check_numbers c transit
  reject (any (bad_pair v) c.gateway_node_selector) "invalid gateway node selector"
  reject (not (c.endpoint_annotation == "") && not (v.is_qualified_name c.endpoint_annotation))
      "invalid endpoint annotation"
