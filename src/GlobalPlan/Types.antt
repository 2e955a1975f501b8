-- ===== src/GlobalPlan/Types.antt =====
-- The intent of api/v1alpha1/types.go and the plan of internal/plan/plan.go.
use kube_ovn_global_vpc.Prelude.{String, List}
use kube_ovn_global_vpc.Kube.Json.{Value}
use kube_ovn_global_vpc.GlobalPlan.Config.{Cluster}

pub record IpamReference : Type 0 where
  pub provider_ref : String
  pub scope_ref : String

pub record Attachment : Type 0 where
  pub cluster_ref : String
  pub cidr : String
  pub gateway : String
  pub transit_ip : String

pub record GlobalVpcSpec : Type 0 where
  pub domain_ref : String
  pub ipam : IpamReference
  pub transit_cidr : String
  pub attachments : List Attachment

-- what the planner reads of a `GlobalVpc`
pub record GlobalVpc : Type 0 where
  pub uid : String
  pub spec : GlobalVpcSpec

pub record PrefixClaim : Type 0 where
  pub claim_uid : String
  pub vpc_uid : String
  pub scope_ref : String
  pub cidr : String

pub record Site : Type 0 where
  pub cluster : Cluster
  pub intent : Attachment
  pub vpc_name : String
  pub subnet_name : String
  pub transit_name : String
  pub vpc : Value
  pub subnet : Value
  pub transit : Value

pub record Plan : Type 0 where
  pub uid : String
  pub hash : String
  pub transit_switch : String
  pub claims : List PrefixClaim
  pub attachments : List Site
