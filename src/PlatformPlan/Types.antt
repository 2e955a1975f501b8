-- ===== src/PlatformPlan/Types.antt =====
-- The VPC and the Subnet of api/v1alpha2/types.go, with the fields that the planner reads.
use kube_ovn_global_vpc.Prelude.{String, Bool}

pub record VpcSpec : Type 0 where
  pub network_class_ref : String

pub record Vpc : Type 0 where
  pub namespace : String
  pub name : String
  pub uid : String
  pub spec : VpcSpec

pub record SubnetSpec : Type 0 where
  pub vpc_ref : String
  pub location_ref : String
  pub cidr : String

pub record SubnetStatus : Type 0 where
  pub vpc_uid : String

-- `deleting` is whether the object has a time of deletion.
pub record Subnet : Type 0 where
  pub namespace : String
  pub name : String
  pub uid : String
  pub deleting : Bool
  pub spec : SubnetSpec
  pub status : SubnetStatus
