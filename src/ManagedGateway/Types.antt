-- ===== src/ManagedGateway/Types.antt =====
-- The settings and the retained values of internal/managedgateway/reconciler.go, and how the
-- registry is stored, from internal/managedgateway/registry.go.
use kube_ovn_global_vpc.Prelude.{ℕ, String, Option, List, [], ◌∷◌, Map, put}
use kube_ovn_global_vpc.Kube.Client.{ConfigMap}
use kube_ovn_global_vpc.Binding.{GatewayEndpoint}

-- the fields of `Reconciler` that the registry reads
pub record Settings : Type 0 where
  pub namespace : String
  pub cluster_uid : String
  pub allocation_pool : String
  pub port_start : ℕ
  pub port_end : ℕ

pub record AllocationRegistry : Type 0 where
  pub cluster_uid : String
  pub addresses : Map String
  pub ports : Map ℕ

pub record Member : Type 0 where
  pub endpoint : GatewayEndpoint
  pub secret_name : String

pub record Ledger : Type 0 where
  pub owner_uid : String
  pub vpc_uid : String
  pub location : String
  pub transit_cidr : String
  pub profile : String
  pub members : List Member

-- Code outside the repository: SHA-256 in hexadecimal, whole or its first 20 digits, and JSON. A
-- registry that lacks one of its maps decodes to `none`, as one that is malformed does, and a
-- negative port to 0, which is refused like it.
pub record Codec : Type 0 where
  pub digest : String → String
  pub short : String → String
  pub encode : AllocationRegistry → String
  pub decode : String → Option AllocationRegistry
  pub decode_ledger : String → Option Ledger

abbrev pub component_label : String
component_label = "platform.globalvpc.io/component"

abbrev pub ledger_data : String
ledger_data = "ledger.json"

abbrev pub registry_name : String
registry_name = "managed-gateway-allocations"

abbrev pub registry_identity_name : String
registry_identity_name = "managed-gateway-allocation-identity"

abbrev pub registry_digest_annotation : String
registry_digest_annotation = "platform.globalvpc.io/gateway-allocation-digest"

-- `storeRegistry`
unfoldable pub store_registry : Codec → ConfigMap → AllocationRegistry → ConfigMap
store_registry codec cm reg = record cm {
  values = (ledger_data, codec.encode reg) ∷ [];
  annotations = put registry_digest_annotation (codec.digest (codec.encode reg)) cm.annotations;
}
