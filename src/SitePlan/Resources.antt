-- ===== src/SitePlan/Resources.antt =====
-- `resource` and `subnet` of internal/siteplan/plan.go, and the types that the plan is made of.
use kube_ovn_global_vpc.Prelude.{
  String, ◌⧺◌, Bool, false, true, List, [], ◌∷◌, Map, Option, ◌==◌, if◌then◌else◌,
}
use kube_ovn_global_vpc.Kube.Json.{
  Value, Fields, text, bool, arr, obj, field, no_field, texts, text_fields,
}
use kube_ovn_global_vpc.SiteConfig.Types.{Gateway, Bfd}

-- api/v1alpha1/site_types.go
pub record SiteVpcSpec : Type 0 where
  pub global_vpc_id : String
  pub site_id : String
  pub attachment_id : String
  pub cidr : String
  pub gateway : String

-- what the planner reads of a `SiteVpc`
pub record SiteVpc : Type 0 where
  pub uid : String
  pub spec : SiteVpcSpec

pub record GatewayConfig : Type 0 where
  pub version : String
  pub global_vpc_id : String
  pub owner_uid : String
  pub site_id : String
  pub attachment_id : String
  pub gateway_revision : String
  pub delegated_prefixes : List String
  pub cidr : String
  pub transit_cidr : String
  pub router_ip : String
  pub gateway_ip : String
  pub vpc_name : String
  pub subnet_name : String
  pub transit_name : String
  pub gateways : List Gateway
  pub bfd : Option Bfd

unfoldable pub is_ha : GatewayConfig → Bool
is_ha g = g.version == "v2"

unfoldable pub members : GatewayConfig → List Gateway
unfolding is_ha
members g = if is_ha g then g.gateways else record { id = "default"; ip = g.gateway_ip } ∷ []

unfoldable pub bfd_port_name : GatewayConfig → String
bfd_port_name g = "bfd@" ⧺ g.vpc_name

pub record Plan : Type 0 where
  pub owner_uid : String
  pub global_vpc_id : String
  pub site_id : String
  pub attachment_id : String
  pub hash : String
  pub vpc_name : String
  pub subnet_name : String
  pub transit_name : String
  pub vpc : Value
  pub subnet : Value
  pub transit : Value
  pub gateway : GatewayConfig

unfoldable pub resource : String → String → Map String → Fields → Value
unfolding text_fields
resource kind name labels spec = obj (
    field "apiVersion" (text "kubeovn.io/v1") (
      field "kind" (text kind) (
        field "metadata"
          (obj (field "name" (text name) (field "labels" (obj (text_fields labels)) no_field)))
          (field "spec" (obj spec) no_field))))

unfoldable pub subnet_resource :
    String → String → String → String → List String → Map String → Value
unfolding resource texts
subnet_resource name vpc cidr gateway excluded labels = resource "Subnet" name labels (
    field "vpc" (text vpc) (
      field "cidrBlock" (text cidr) (
        field "gateway" (text gateway) (
          field "excludeIps" (arr (texts excluded)) (
            field "provider" (text "ovn") (
              field "protocol" (text "IPv4") (
                field "natOutgoing" (bool false) (
                  field "enableDHCP" (bool false) (
                    field "enableLb" (bool false) (
                      field "disableGatewayCheck" (bool true)
                        (field "disableInterConnection" (bool true) no_field)))))))))))
