-- ===== src/Binding.antt =====
-- The types of api/v1alpha2/types.go that the managed platform shares: a NetworkBinding, its
-- snapshot of a VPC at one location, and the report of that location. A number that the program
-- only compares and copies, or refuses when it is not positive, is a natural number.
pub mod Equality
use kube_ovn_global_vpc.Prelude.{ℕ, String, Bool, List, Map}

pub record ObjectIdentity : Type 0 where
  pub namespace : String
  pub name : String
  pub uid : String

pub record BindingSubnet : Type 0 where
  pub name : String
  pub uid : String
  pub cidr : String
  pub gateway : String
  pub native_subnet_name : String
  pub deleting : Bool

pub record RemoteSubnet : Type 0 where
  pub location_ref : String
  pub cidr : String

pub record GatewayLink : Type 0 where
  pub peer_id : String
  pub listen_port : ℕ
  pub tunnel_ip : String
  pub control_vni : ℕ

pub record GatewayEndpoint : Type 0 where
  pub id : String
  pub node_name : String
  pub node_uid : String
  pub endpoint_ip : String
  pub transit_ip : String
  pub public_key : String
  pub local_asn : ℕ
  pub health_ip : String
  pub links : List GatewayLink
  pub ready : Bool

pub record LinkAllocation : Type 0 where
  pub peer_a : String
  pub peer_b : String
  pub control_vni : ℕ

pub record PeerGateway : Type 0 where
  pub location_ref : String
  pub endpoint : GatewayEndpoint

pub record NetworkBindingSpec : Type 0 where
  pub vpc_ref : ObjectIdentity
  pub network_id : ℕ
  pub local_asn : ℕ
  pub location_ref : String
  pub network_class_ref : String
  pub native_vpc_name : String
  pub transport_profile : String
  pub subnets : List BindingSubnet
  pub authorized_locations : List String
  pub remote_subnets : List RemoteSubnet
  pub peers : List PeerGateway
  pub link_allocations : List LinkAllocation
  pub revision : String
  pub deleting : Bool

pub record ResourceRecord : Type 0 where
  pub api_version : String
  pub kind : String
  pub namespace : String
  pub name : String
  pub uid : String

-- `metav1.Condition` of the Kubernetes API, without its time
pub record Condition : Type 0 where
  pub condition_type : String
  pub status : String
  pub observed_generation : ℕ
  pub reason : String
  pub message : String

pub record NetworkBindingStatus : Type 0 where
  pub observed_generation : ℕ
  pub phase : String
  pub applied_revision : String
  pub resources : List ResourceRecord
  pub gateways : List GatewayEndpoint
  pub conditions : List Condition

-- with the fields of its `ObjectMeta` that the program reads
pub record NetworkBinding : Type 0 where
  pub namespace : String
  pub name : String
  pub uid : String
  pub resource_version : String
  pub generation : ℕ
  pub labels : Map String
  pub annotations : Map String
  pub spec : NetworkBindingSpec
  pub status : NetworkBindingStatus
