-- ===== src/SiteConfig/Types.antt =====
-- The registered configuration of one site: internal/siteconfig/config.go.
use kube_ovn_global_vpc.Prelude.{ℕ, String, List, Option}
use kube_ovn_global_vpc.Kube.Validation.{LabelSelector}

pub record Cluster : Type 0 where
  pub name : String
  pub uid : String
  pub kubeconfig : String
  pub nb_command : List String
  pub sb_command : List String

pub record Gateway : Type 0 where
  pub id : String
  pub ip : String

-- A negative number is refused by the same lower bounds as a small one, so timers are ℕ.
pub record Bfd : Type 0 where
  pub source_ip : String
  pub min_rx : ℕ
  pub min_tx : ℕ
  pub multiplier : ℕ
  pub node_selector : Option LabelSelector

pub record Grant : Type 0 where
  pub global_vpc_id : String
  pub delegated_prefixes : List String
  pub transit_cidr : String
  pub router_ip : String
  pub gateway_ip : String
  pub gateways : List Gateway
  pub bfd : Option Bfd

pub record Config : Type 0 where
  pub site_id : String
  pub attachment_id : String
  pub cluster : Cluster
  pub gateway_command : List String
  pub gateway_revision : String
  pub grants : List Grant
  pub bfd_transaction_command : List String
