-- ===== src/SitePlan/Build.antt =====
-- `Build` of internal/siteplan/plan.go. `DeepCopy` and the copies of slices are the identity here.
pub mod Laws
use Prim.Native.Char.{nul}
use kube_ovn_global_vpc.Prelude.{
  ℕ, String, ◌⧺◌, Bool, true, false, not, ◌&&◌, ◌||◌, Option, none, some, List, [], ◌∷◌, map, Map,
  any, is_empty, leb, ◌==◌, text_ltb, sort_by, Result, ok, err, invalid, reject, ◌>>=◌, ◌>>◌,
  if◌then◌else◌,
}
use kube_ovn_global_vpc.Kube.Validation.{Validation, LabelSelector, Requirement}
use kube_ovn_global_vpc.Kube.Json.{
  Value, Fields, Items, text, bool, arr, obj, field, no_field, empty_array, element,
}
use kube_ovn_global_vpc.Netip.Prefix.{Prefix, prefix_text, contains}
use kube_ovn_global_vpc.SiteConfig.Types.{Cluster, Gateway, Bfd, Grant, Config}
use kube_ovn_global_vpc.SiteConfig.Prefix.{prefix, host}
use kube_ovn_global_vpc.SiteConfig.Validate.{validate}
use kube_ovn_global_vpc.SitePlan.Transit.{transit_exclusions}
use kube_ovn_global_vpc.SitePlan.Resources.{
  SiteVpcSpec, SiteVpc, GatewayConfig, Plan, resource, subnet_resource,
}

-- what the plan hash covers
pub record Identity : Type 0 where
  pub version : String
  pub owner_uid : String
  pub spec : SiteVpcSpec
  pub cluster : Cluster
  pub gateway_command : List String
  pub gateway_revision : String
  pub grant : Grant

-- Code outside the repository: the validation library, the converter of a label selector, and the
-- hexadecimal SHA-256 of a text (its first 16 digits) and of the JSON of an identity.
pub record Libraries : Type 0 where
  pub validation : Validation
  pub selector_value : LabelSelector → Result Value
  pub short_hash : String → String
  pub identity_hash : Identity → String

-- the text "\x00"
abbrev separator : String
separator = String.◌∷◌ nul ""

-- `strings.Join(values, "\x00")`
unfoldable pub join_values : List String → String
join_values [] = ""
join_values (s ∷ []) = s
join_values (s ∷ t ∷ rest) = s ⧺ separator ⧺ join_values (t ∷ rest)

abbrev requirement_key : Requirement → String
requirement_key r = r.key ⧺ separator ⧺ r.operator ⧺ separator ⧺ join_values r.values

abbrev sort_values : Requirement → Requirement
sort_values r = record r { values = sort_by text_ltb r.values }

abbrev by_requirement : Requirement → Requirement → Bool
by_requirement a z = text_ltb (requirement_key a) (requirement_key z)

abbrev canonical_selector : Option LabelSelector → Option LabelSelector
canonical_selector none = none
canonical_selector (some s) =
    some (record s {
      match_expressions = sort_by by_requirement (map sort_values s.match_expressions);
    })

unfoldable pub canonical_bfd : Option Bfd → Option Bfd
canonical_bfd none = none
canonical_bfd (some b) = some (record b { node_selector = canonical_selector b.node_selector })

abbrev by_id : Gateway → Gateway → Bool
by_id a b = text_ltb a.id b.id

unfoldable pub canonical_grant : Grant → Grant
canonical_grant g = record g {
  delegated_prefixes = sort_by text_ltb g.delegated_prefixes;
  gateways = sort_by by_id g.gateways;
  bfd = canonical_bfd g.bfd;
}

-- the loop that selects the grant of a tenant
unfoldable pub select_grant : String → List Grant → Option Grant
select_grant id [] = none
select_grant id (g ∷ rest) =
    if g.global_vpc_id == id then some (canonical_grant g) else select_grant id rest

abbrev within : Prefix → Result Prefix → Bool
within p (ok parent) = leb parent.bits p.bits && contains parent p.addr
within p (err _) = false

-- whether a delegated prefix holds the requested one
unfoldable pub delegated_by : Prefix → String → Bool
delegated_by p raw = within p (prefix raw)

abbrev default_route : String → Items
default_route next_hop =
    element
      (obj (
        field "policy" (text "policyDst")
          (field "cidr" (text "0.0.0.0/0") (field "nextHopIP" (text next_hop) no_field))))
      empty_array

unfoldable pub require_grant : Option Grant → Result Grant
require_grant none = err (invalid "globalVpcID has no local administrator grant")
require_grant (some g) = ok g

module _ (lib : Libraries) where
  -- `selector` in the map of the BFD port
  unfoldable pub selector_fields : Option LabelSelector → Result Fields
  selector_fields none = ok no_field
  selector_fields (some s) = do
    value ← lib.selector_value s
    ok (field "nodeSelector" value no_field)

  -- the branch for several gateways; `none` would be a nil dereference, which `Validate` excludes
  unfoldable pub ha_plan : Prefix → Grant → Map String → Option Bfd → Plan → Result Plan
  ha_plan transit grant labels none p = err (invalid "nil pointer dereference")
  ha_plan transit grant labels (some b) p = do
    selector ← selector_fields b.node_selector
    let port = field "enabled" (bool true) (field "ip" (text b.source_ip) selector)
    let ips = map (λ (member : Gateway). member.ip) grant.gateways
    ok (record p {
      gateway = record p.gateway { version = "v2"; gateways = grant.gateways; bfd = grant.bfd };
      vpc =
          resource "Vpc" p.vpc_name labels
            (field "staticRoutes" (arr empty_array) (field "bfdPort" (obj port) no_field));
      transit =
          subnet_resource p.transit_name p.vpc_name (prefix_text transit) grant.router_ip
            (transit_exclusions transit ips) labels;
    })

  unfoldable pub names_key : Config → SiteVpcSpec → String
  names_key c spec =
      lib.short_hash (spec.global_vpc_id ⧺ separator ⧺ c.site_id ⧺ separator ⧺ c.attachment_id)

  unfoldable pub plan_labels : Config → SiteVpc → Map String
  plan_labels c v =
      ("networking.globalvpc.io/vpc-uid", v.uid)
      ∷ ("networking.globalvpc.io/cluster-uid", c.cluster.uid)
      ∷ ("networking.globalvpc.io/global-id-hash", lib.short_hash v.spec.global_vpc_id)
      ∷ ("networking.globalvpc.io/attachment-id", c.attachment_id)
      ∷ []

  -- the plan for one gateway, from which the plan for several starts; its hash is set at the end
  unfoldable pub base_plan : Config → SiteVpc → Grant → Prefix → Prefix → Plan
  base_plan c v grant p transit =
      let key = names_key c v.spec in
      let labels = plan_labels c v in
      let vpc = "sv-" ⧺ key in
      let net = "ss-" ⧺ key in
      let link = "st-" ⧺ key in
      record {
        owner_uid = v.uid;
        global_vpc_id = v.spec.global_vpc_id;
        site_id = c.site_id;
        attachment_id = c.attachment_id;
        hash = "";
        vpc_name = vpc;
        subnet_name = net;
        transit_name = link;
        vpc =
            resource "Vpc" vpc labels
              (field "staticRoutes" (arr (default_route grant.gateway_ip)) no_field);
        subnet =
            subnet_resource net vpc (prefix_text p) v.spec.gateway (v.spec.gateway ∷ []) labels;
        transit =
            subnet_resource link vpc (prefix_text transit) grant.router_ip
              (transit_exclusions transit (grant.gateway_ip ∷ [])) labels;
        gateway = record {
          version = "v1";
          global_vpc_id = v.spec.global_vpc_id;
          owner_uid = v.uid;
          site_id = c.site_id;
          attachment_id = c.attachment_id;
          gateway_revision = c.gateway_revision;
          delegated_prefixes = grant.delegated_prefixes;
          cidr = prefix_text p;
          transit_cidr = prefix_text transit;
          router_ip = grant.router_ip;
          gateway_ip = grant.gateway_ip;
          vpc_name = vpc;
          subnet_name = net;
          transit_name = link;
          gateways = [];
          bfd = none;
        };
      }

  -- the plan by the number of gateways
  unfoldable pub plan_of : Config → SiteVpc → Grant → Prefix → Prefix → Result Plan
  plan_of c v grant p transit =
      let base = base_plan c v grant p transit in
      if is_empty grant.gateways
      then ok base
      else ha_plan transit grant (plan_labels c v) grant.bfd base

  unfoldable pub identity_of : Config → SiteVpc → Grant → Identity
  identity_of c v grant = record {
    version = if is_empty grant.gateways then "site-v1" else "site-v2";
    owner_uid = v.uid;
    spec = v.spec;
    cluster = c.cluster;
    gateway_command = c.gateway_command;
    gateway_revision = c.gateway_revision;
    grant = grant;
  }

  -- The transit network is that of an accepted grant, so the error that the source drops there
  -- does not occur.
  unfoldable pub build : Option SiteVpc → Config → Result Plan
  build none c = err (invalid "SiteVpc is required")
  build (some v) c = do
    validate lib.validation c
    reject (v.uid == "" || not (lib.validation.is_label_value v.uid))
        "SiteVpc must have a valid server-assigned UID"
    reject (not (v.spec.site_id == c.site_id) || not (v.spec.attachment_id == c.attachment_id))
        "SiteVpc does not target this local attachment"
    grant ← require_grant (select_grant v.spec.global_vpc_id c.grants)
    p ← prefix v.spec.cidr
    reject (not (any (delegated_by p) grant.delegated_prefixes))
        "cidr is outside this attachment's delegated prefixes"
    _ ← host v.spec.gateway p
    transit ← prefix grant.transit_cidr
    plan ← plan_of c v grant p transit
    ok (record plan { hash = lib.identity_hash (identity_of c v grant) })
