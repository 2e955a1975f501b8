-- ===== src/ManagedGateway/Decode.antt =====
-- `decodeRegistry` of internal/managedgateway/registry.go. A range over a map meets its entries in
-- the order of the list.
pub mod Laws
pub mod RoundTrip
use kube_ovn_global_vpc.Prelude.{
  ℕ, String, ◌⧺◌, Bool, true, false, not, ◌||◌, Option, none, some, List, [], ◌∷◌, Map, text_at,
  ltb, ◌==◌, check_each, Result, ok, err, invalid, reject, is_ok, ◌>>=◌, ◌>>◌,
}
use kube_ovn_global_vpc.Kube.Client.{ConfigMap}
use kube_ovn_global_vpc.Netip.Parse.{cut_slash, number_text}
use kube_ovn_global_vpc.Netip.Prefix.{Prefix}
use kube_ovn_global_vpc.SiteConfig.Prefix.{prefix, host}
use kube_ovn_global_vpc.ManagedGateway.Types.{
  Settings, AllocationRegistry, Codec, component_label, ledger_data, registry_digest_annotation,
}

abbrev pub corrupt : String
corrupt = "GatewayAllocationRegistryInvalid: corrupt or foreign registry requires fenced recovery"

unfoldable pub decoded : Option AllocationRegistry → Result AllocationRegistry
decoded none = err (invalid corrupt)
decoded (some reg) = ok reg

-- the pool, with the error that the program makes of a bad one
unfoldable pub pool_of : Result Prefix → Result Prefix
pool_of (ok pool) = ok pool
pool_of (err _) = err (invalid "invalid gateway allocation pools")

abbrev pub bad_address : Prefix → String × String → Bool
bad_address pool (claim, raw) = claim == "" || not (is_ok (host raw pool))

-- the loop over the addresses
unfoldable pub check_addresses : Prefix → Map String → Result (Unit {0})
check_addresses pool =
    check_each (bad_address pool) (λ e. e.1)
      "GatewayAllocationRegistryInvalid: duplicate or invalid retained address" []

-- the node of a port and the port, by the claim cut at its first slash
unfoldable pub identity_of : Option (String × String) → ℕ → String
identity_of none port = "/" ⧺ number_text port
identity_of (some (node, key)) port = node ⧺ "/" ⧺ number_text port

abbrev pub port_identity : String × ℕ → String
port_identity (claim, port) = identity_of (cut_slash claim) port

unfoldable pub bad_cut : Settings → Map String → ℕ → Option (String × String) → Bool
bad_cut s addresses port none = true
bad_cut s addresses port (some (node, key)) =
    node == ""
    || key == ""
    || ltb port s.port_start
    || ltb s.port_end port
    || text_at key addresses == ""

abbrev pub bad_port : Settings → Map String → String × ℕ → Bool
bad_port s addresses (claim, port) = bad_cut s addresses port (cut_slash claim)

-- the loop over the ports
unfoldable pub check_ports : Settings → Map String → Map ℕ → Result (Unit {0})
check_ports s addresses =
    check_each (bad_port s addresses) port_identity
      "GatewayAllocationRegistryInvalid: duplicate, orphaned or invalid retained port" []

-- the checks of a decoded registry
unfoldable pub check_registry : Settings → AllocationRegistry → Result (Unit {0})
check_registry s reg = do
  reject (not (reg.cluster_uid == s.cluster_uid)) corrupt
  pool ← pool_of (prefix s.allocation_pool)
  reject (ltb s.port_start 1024 || ltb 65535 s.port_end || ltb s.port_end s.port_start)
      "invalid gateway allocation pools"
  check_addresses pool reg.addresses
  check_ports s reg.addresses reg.ports

-- `decodeRegistry`
unfoldable pub decode_registry : Codec → Settings → ConfigMap → Result AllocationRegistry
decode_registry codec s cm = do
  reject
      (cm.uid == ""
        || not (text_at component_label cm.labels == "gateway-allocator")
        || not (
            text_at registry_digest_annotation cm.annotations
            == codec.digest (text_at ledger_data cm.values)))
      corrupt
  reg ← decoded (codec.decode (text_at ledger_data cm.values))
  check_registry s reg
  ok reg
