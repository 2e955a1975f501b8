-- ===== src/ManagedGateway/Claims.antt =====
-- `validateGatewayClaims` and `gatewayStatusEvidence` of internal/managedgateway/registry.go.
pub mod Laws
use kube_ovn_global_vpc.Prelude.{
  ℕ, String, ◌⧺◌, Bool, not, ◌&&◌, ◌||◌, List, [], ◌∷◌, Map, find, text_at, any, is_empty, eqb,
  ◌==◌, starts_with, Option, none, some, Result, ok, invalid, reject, ◌>>=◌, ◌>>◌,
}
use kube_ovn_global_vpc.Binding.{
  GatewayLink, GatewayEndpoint, ResourceRecord, NetworkBindingStatus, NetworkBinding,
}
use kube_ovn_global_vpc.ManagedGateway.Types.{AllocationRegistry}

-- `reg.Ports[k]`, where a missing key gives 0
unfoldable pub port_at : Option ℕ → ℕ
port_at none = 0
port_at (some v) = v

unfoldable pub check_link :
    AllocationRegistry → String → String → GatewayEndpoint → GatewayLink → Result (Unit {0})
check_link reg prefix profile g link = do
  reject
      (link.peer_id == ""
        || link.tunnel_ip == ""
        || not (text_at (prefix ⧺ "/" ⧺ link.peer_id) reg.addresses == link.tunnel_ip))
      "GatewayAllocationReceiptMismatch: member control address disagrees with retained registry"
  reject
      (profile == "wireguard-bgp"
        && (eqb link.listen_port 0
            || not (
                eqb (port_at (find (g.node_uid ⧺ "/" ⧺ prefix ⧺ "/" ⧺ link.peer_id) reg.ports))
                  link.listen_port)))
      "GatewayAllocationReceiptMismatch: member port disagrees with retained registry"

unfoldable pub check_links :
    AllocationRegistry → String → String → GatewayEndpoint → List GatewayLink → Result (Unit {0})
check_links reg prefix profile g [] = ok tt
check_links reg prefix profile g (link ∷ links) = do
  check_link reg prefix profile g link
  check_links reg prefix profile g links

-- `validateGatewayClaims`
unfoldable pub validate_gateway_claims :
    AllocationRegistry → String → String → List GatewayEndpoint → Result (Unit {0})
validate_gateway_claims reg owner profile [] = ok tt
validate_gateway_claims reg owner profile (g ∷ gateways) = do
  reject
      (owner == ""
        || g.id == ""
        || g.node_uid == ""
        || not (text_at (owner ⧺ "/" ⧺ g.id ⧺ "/health") reg.addresses == g.health_ip)
        || g.health_ip == "")
      "GatewayAllocationReceiptMismatch: member health identity disagrees with retained registry"
  check_links reg (owner ⧺ "/" ⧺ g.id) profile g g.links
  validate_gateway_claims reg owner profile gateways

-- a resource that only the managed gateway creates
unfoldable pub gateway_resource : String → ResourceRecord → Bool
gateway_resource namespace r =
    r.namespace == namespace
    && starts_with r.name "pg-"
    && (r.kind == "ConfigMap" || r.kind == "Secret" || r.kind == "Pod")

-- `gatewayStatusEvidence`
unfoldable pub gateway_status_evidence : NetworkBinding → String → Bool
gateway_status_evidence b namespace =
    not (is_empty b.status.gateways) || any (gateway_resource namespace) b.status.resources
