-- ===== src/GlobalPlan/Build.antt =====
-- `Build` of internal/plan/plan.go.
use kube_ovn_global_vpc.Prelude.{
  ◌-◌, String, ◌⧺◌, Bool, not, ◌||◌, Option, none, some, List, [], ◌∷◌, map, Map, find, length, eqb,
  ◌==◌, text_ltb, sort_by, Result, ok, err, invalid, reject, ◌>>=◌, ◌>>◌, if◌then◌else◌,
}
use kube_ovn_global_vpc.Kube.Validation.{Validation}
use kube_ovn_global_vpc.Kube.Json.{
  Value, Items, text, arr, obj, field, no_field, empty_array, element,
}
use kube_ovn_global_vpc.Netip.Parse.{addr_text}
use kube_ovn_global_vpc.Netip.Prefix.{Prefix, prefix_text, next}
use kube_ovn_global_vpc.SiteConfig.Prefix.{prefix, last_address}
use kube_ovn_global_vpc.SitePlan.Resources.{resource, subnet_resource}
use kube_ovn_global_vpc.GlobalPlan.Config.{Cluster, Config, validate}
use kube_ovn_global_vpc.GlobalPlan.Types.{
  IpamReference, Attachment, GlobalVpc, PrefixClaim, Site, Plan,
}
use kube_ovn_global_vpc.GlobalPlan.Intents.{bad_scope, register, cluster_of, check_intents}

-- what the plan hash covers
pub record Identity : Type 0 where
  pub version : String
  pub uid : String
  pub domain : String
  pub ipam : IpamReference
  pub transit_cidr : String
  pub attachments : List Attachment
  pub clusters : List Cluster
  pub icnb_command : List String
  pub provider_command : List String
  pub resources : List Site

-- code outside the repository: the validation library, and SHA-256 as in internal/siteplan
pub record Libraries : Type 0 where
  pub validation : Validation
  pub short_hash : String → String
  pub identity_hash : Identity → String

abbrev pub by_cluster : Attachment → Attachment → Bool
by_cluster a b = text_ltb a.cluster_ref b.cluster_ref

abbrev by_name : Cluster → Cluster → Bool
by_name a b = text_ltb a.name b.name

unfoldable pub claim : String → String → String → String → PrefixClaim
claim uid attachment scope cidr = record {
  claim_uid = uid ⧺ "/" ⧺ attachment;
  vpc_uid = uid;
  scope_ref = scope;
  cidr = cidr;
}

abbrev pub route : Attachment → Value
route remote = obj (
    field "policy" (text "policyDst")
      (field "cidr" (text remote.cidr) (field "nextHopIP" (text remote.transit_ip) no_field)))

-- the loop over the remote attachments
unfoldable pub routes : Attachment → List Attachment → Items
routes intent [] = empty_array
routes intent (remote ∷ rest) =
    let others = routes intent rest in
    if not (remote.cluster_ref == intent.cluster_ref) then element (route remote) others else others

module _ (lib : Libraries) where
  unfoldable pub site_of : String → Prefix → List Attachment → Cluster → Attachment → Site
  site_of uid transit intents cluster intent =
      let tenant = lib.short_hash uid in
      let key = tenant ⧺ "-" ⧺ lib.short_hash cluster.uid in
      let vpc = "gv-" ⧺ key in
      let labels : Map String =
        ("networking.globalvpc.io/vpc-uid", uid)
        ∷ ("networking.globalvpc.io/cluster-uid", cluster.uid)
        ∷ [] in
      let excluded = addr_text (next transit.addr) ⧺ ".." ⧺ addr_text (last_address transit - 1) in
      record {
        cluster = cluster;
        intent = intent;
        vpc_name = vpc;
        subnet_name = "gs-" ⧺ key;
        transit_name = "gt-" ⧺ tenant;
        vpc =
            resource "Vpc" vpc labels (field "staticRoutes" (arr (routes intent intents)) no_field);
        subnet =
            subnet_resource ("gs-" ⧺ key) vpc intent.cidr intent.gateway (intent.gateway ∷ [])
              labels;
        transit =
            subnet_resource ("gt-" ⧺ tenant) vpc (prefix_text transit) intent.transit_ip
              (excluded ∷ []) labels;
      }

  abbrev pub planned :
      String → Prefix → List Attachment → Attachment → Option Cluster → List Site → List Site
  planned uid transit intents intent none sites = sites
  planned uid transit intents intent (some cluster) sites =
      site_of uid transit intents cluster intent ∷ sites

  -- the loop over the attachments, whose clusters are registered
  unfoldable pub sites_of :
      String → Prefix → List Attachment → List Cluster → List Attachment → List Site
  sites_of uid transit intents clusters [] = []
  sites_of uid transit intents clusters (intent ∷ rest) =
      planned uid transit intents intent (cluster_of intent.cluster_ref clusters)
        (sites_of uid transit intents clusters rest)

  unfoldable pub site_claim : String → String → Site → PrefixClaim
  site_claim uid scope site = claim uid ("cluster/" ⧺ site.cluster.uid) scope site.intent.cidr

  unfoldable pub plan_of :
      GlobalVpc → Config → List String → Prefix → List Cluster → List Attachment → Plan
  plan_of v c command transit clusters intents =
      let sites = sites_of v.uid transit intents clusters intents in
      record {
        uid = v.uid;
        transit_switch = "gt-" ⧺ lib.short_hash v.uid;
        claims =
            claim v.uid "transit" v.spec.ipam.scope_ref (prefix_text transit)
            ∷ map (site_claim v.uid v.spec.ipam.scope_ref) sites;
        attachments = sites;
        hash = lib.identity_hash (record {
          version = "v1";
          uid = v.uid;
          domain = c.domain;
          ipam = v.spec.ipam;
          transit_cidr = prefix_text transit;
          attachments = intents;
          clusters = sort_by by_name clusters;
          icnb_command = c.icnb_command;
          provider_command = command;
          resources = sites;
        });
      }

  unfoldable pub provider_of : Option (List String) → Result (List String)
  provider_of none = err (invalid "ipam.providerRef is not registered")
  provider_of (some command) = ok command

  unfoldable pub build : Option GlobalVpc → Config → Result Plan
  build none c = err (invalid "GlobalVpc is required")
  build (some v) c = do
    validate lib.validation c
    reject (v.uid == "" || not (lib.validation.is_label_value v.uid))
        "GlobalVpc must have a valid server-assigned UID"
    reject (not (v.spec.domain_ref == c.domain))
        "domainRef does not match this controller's registered domain"
    command ← provider_of (find v.spec.ipam.provider_ref c.providers)
    reject (bad_scope v.spec.ipam.scope_ref)
        "ipam.scopeRef must be a nonempty reference of at most 253 characters without surrounding whitespace"
    reject (not (eqb (length v.spec.attachments) (length c.clusters)))
        "attachments must include every cluster registered in the domain; sparse membership is unsupported"
    transit ← prefix v.spec.transit_cidr
    clusters ← register lib.validation c.clusters
    let intents = sort_by by_cluster v.spec.attachments
    check_intents clusters transit [] [] (transit ∷ []) intents
    ok (plan_of v c command transit clusters intents)
