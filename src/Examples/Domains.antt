-- ===== src/Examples/Domains.antt =====
-- A domain of two clusters, the locations of a platform, and the settings of one installation.
use kube_ovn_global_vpc.Prelude.{
  String, true, some, [], ◌∷◌, find, any, contains_text, sort_by, insert_by, All, Some, In, Pairs,
  has, ◌≢◌, Result, ok, ◌≡◌, ◌↔◌, refl,
}
use kube_ovn_global_vpc.Netip.Parse.{
  octets, octet_text, addr_text, parse_addr, cut_slash, parse_uint, parse_bits, number_text,
}
use kube_ovn_global_vpc.Netip.Prefix.{
  Prefix, parse_prefix, prefix_text, masked_text, contains, overlaps, is_loopback, is_link_local,
  is_multicast, is_global_unicast,
}
use kube_ovn_global_vpc.SiteConfig.Prefix.{prefix, host, last_address}
use kube_ovn_global_vpc.GlobalPlan.Config.{Cluster, check_clusters}
use kube_ovn_global_vpc.GlobalPlan.Types.{GlobalVpc, Plan}
use kube_ovn_global_vpc.GlobalPlan.Intents.{
  is_blank, ends_in_space, byte_length, bad_scope, bad_chassis, register, cluster_of, check_intents,
}
use kube_ovn_global_vpc.GlobalPlan.Build.{Libraries, provider_of, build}
use kube_ovn_global_vpc.GlobalPlan.Mesh.{IsMesh, build-IsMesh}
use kube_ovn_global_vpc.PlatformConfig.{
  Location, known_profile, check_classes, check_pools, check_location, check_locations, location,
  allows_cidr,
}
use kube_ovn_global_vpc.PlatformConfig.Validate.{IsLocation, OtherLocation, validate-IsLocation}
use kube_ovn_global_vpc.PlatformConfig.Lookup.{location-registered, Pools, allows_cidr-Pools}
use kube_ovn_global_vpc.LocalConfig.{check_numbers}
use kube_ovn_global_vpc.LocalConfig.Laws.{IsLocal, validate-IsLocal}
use kube_ovn_global_vpc.GlobalPlan
use kube_ovn_global_vpc.PlatformConfig
use kube_ovn_global_vpc.LocalConfig
use kube_ovn_global_vpc.Prelude.{none, text_at}
use kube_ovn_global_vpc.Kube.Client.{ConfigMap}
use kube_ovn_global_vpc.LocalLedger
use kube_ovn_global_vpc.LocalLedger.{
  AllocatorState, bad_allocation, check_allocations, decoded, read_allocation_state,
}
use kube_ovn_global_vpc.LocalLedger.Laws.{
  IsRetained, Separate as ApartEntries, read_allocation_state-IsRetained,
}
use kube_ovn_global_vpc.Examples.Site.{permissive}

abbrev libraries : Libraries
libraries = record {
  validation = permissive;
  short_hash = λ _. "0123456789abcdef";
  identity_hash = λ _. "hash";
}

abbrev cluster : String → Cluster
cluster name = record {
  name = name;
  uid = name;
  region = "r";
  site = "s";
  dc = "d";
  kubeconfig = "k";
  nb_command = "nb" ∷ [];
  sb_command = "sb" ∷ [];
  gateway_chassis = "ch-2" ∷ "ch-1" ∷ [];
  az_name = name;
  ic_deployment = record { namespace = "ic"; name = "ovn-ic"; uid = "u" };
}

abbrev domain : GlobalPlan.Config.Config
domain = record {
  domain = "dc";
  clusters = cluster "a" ∷ cluster "b" ∷ [];
  icnb_command = "ic-nb" ∷ [];
  providers = ("ipam", "provider" ∷ []) ∷ [];
}

abbrev vpc : GlobalVpc
vpc = record {
  uid = "uid-v";
  spec = record {
    domain_ref = "dc";
    ipam = record { provider_ref = "ipam"; scope_ref = "scope" };
    transit_cidr = "10.9.0.0/24";
    attachments =
        (record {
          cluster_ref = "b";
          cidr = "10.2.0.0/16";
          gateway = "10.2.0.1";
          transit_ip = "10.9.0.12";
        })
        ∷ (record {
          cluster_ref = "a";
          cidr = "10.1.0.0/16";
          gateway = "10.1.0.1";
          transit_ip = "10.9.0.11";
        })
        ∷ [];
  };
}

abbrev empty_plan : Plan
empty_plan = record { uid = ""; hash = ""; transit_switch = ""; claims = []; attachments = [] }

abbrev value_or : Plan → Result Plan → Plan
value_or p (ok q) = q
value_or p _ = p

abbrev domain_plan : Plan
domain_plan = value_or empty_plan (build libraries (some vpc) domain)

domain_planned : build libraries (some vpc) domain ≡ ok domain_plan
unfolding build GlobalPlan.Config.validate check_clusters provider_of find bad_scope is_blank
    ends_in_space byte_length register bad_chassis sort_by insert_by check_intents cluster_of prefix
    host last_address octets octet_text addr_text parse_addr cut_slash parse_uint parse_bits
    number_text parse_prefix prefix_text masked_text contains overlaps is_loopback is_link_local
    is_multicast is_global_unicast contains_text any
domain_planned = refl

build-IsMesh_example : IsMesh vpc domain domain_plan
build-IsMesh_example = build-IsMesh libraries vpc domain domain_plan domain_planned

abbrev dc_a : Location
dc_a = record {
  name = "dc-a";
  region = "r";
  site = "s";
  dc = "d";
  binding_namespace = "ns-a";
  allowed_projects = "p" ∷ [];
  cidr_pools = "10.64.0.0/10" ∷ [];
}

abbrev platform : PlatformConfig.Config
platform = record {
  registry_namespace = "";
  network_classes = ("default", record { transport_profile = "geneve-bgp" }) ∷ [];
  locations = dc_a ∷ [];
}

platform_accepted : PlatformConfig.validate permissive platform ≡ ok tt
unfolding PlatformConfig.validate known_profile check_classes check_pools check_location
    check_locations has find any contains_text prefix last_address octets octet_text addr_text
    parse_addr cut_slash parse_uint parse_bits number_text parse_prefix prefix_text masked_text
    is_loopback is_link_local is_multicast is_global_unicast
platform_accepted = refl

validate-IsLocation_example :
    (platform.locations ≢ [])
    × All IsLocation platform.locations
    × Pairs OtherLocation platform.locations
validate-IsLocation_example = validate-IsLocation permissive platform platform_accepted

location-registered_example :
    (location "dc-a" "p" platform.locations ≡ ok dc_a)
    ↔ (In dc_a platform.locations × (dc_a.name ≡ "dc-a") × In "p" dc_a.allowed_projects)
location-registered_example =
    location-registered permissive platform "dc-a" "p" dc_a platform_accepted

abbrev requested : Prefix
requested = record { addr = 172032000; bits = 16 }

requested_accepted : prefix "10.65.0.0/16" ≡ ok requested
unfolding prefix last_address octets octet_text addr_text parse_addr cut_slash parse_uint parse_bits
    number_text parse_prefix prefix_text masked_text is_loopback is_link_local is_multicast
    is_global_unicast
requested_accepted = refl

allows_cidr-Pools_example :
    (allows_cidr dc_a "10.65.0.0/16" ≡ true) ↔ Some (Pools requested) dc_a.cidr_pools
allows_cidr-Pools_example = allows_cidr-Pools dc_a "10.65.0.0/16" requested_accepted

abbrev installation : LocalConfig.Config
installation = record {
  location_ref = "dc-a";
  cluster_uid = "uid-a";
  namespace = "ns";
  authority_namespace = "ns-a";
  authority_kubeconfig = "/etc/kubeconfig";
  gateway_node_selector = ("gateway", "true") ∷ [];
  endpoint_annotation = "";
  transit_pool = "10.9.0.0/16";
  transit_prefix_length = 24;
  bfd_source_pool = "10.250.0.0/16";
  gateway_replicas = 2;
  gateway_image = "image";
  mtu = 1380;
  control_pool = "10.251.0.0/16";
  port_start = 51820;
  port_end = 52819;
  runtime_dir = "/run";
}

installation_accepted : LocalConfig.validate permissive installation ≡ ok tt
unfolding LocalConfig.validate check_numbers any prefix last_address overlaps contains octets
    octet_text addr_text parse_addr cut_slash parse_uint parse_bits number_text parse_prefix
    prefix_text masked_text is_loopback is_link_local is_multicast is_global_unicast
installation_accepted = refl

validate-IsLocal_example : IsLocal installation
validate-IsLocal_example = validate-IsLocal permissive installation installation_accepted

-- a ledger with two allocations
abbrev ledger_state : AllocatorState
ledger_state = record {
  cluster_uid = "uid-a";
  allocations =
      (
        "b-1",
        record {
          transit_cidr = "10.9.0.0/24";
          router_ip = "10.9.0.1";
          bfd_source_ip = "10.250.0.1";
        },
      )
      ∷ (
        "b-2",
        record {
          transit_cidr = "10.9.1.0/24";
          router_ip = "10.9.1.1";
          bfd_source_ip = "10.250.0.2";
        },
      )
      ∷ [];
  binding_uids = ("b-1", "u-1") ∷ ("b-2", "u-2") ∷ [];
}

abbrev ledger_codec : LocalLedger.Codec
ledger_codec = record { digest = λ _. "digest"; decode = λ _. some ledger_state }

abbrev ledger_map : ConfigMap
ledger_map = record {
  namespace = "ns";
  name = "managed-network-allocations";
  uid = "uid-l";
  resource_version = "1";
  labels = ("platform.globalvpc.io/allocator", "true") ∷ [];
  annotations = ("platform.globalvpc.io/allocation-digest", "digest") ∷ [];
  immutable = none;
  values = ("state.json", "state") ∷ [];
}

ledger_accepted : read_allocation_state ledger_codec ledger_map installation ≡ ok ledger_state
unfolding read_allocation_state decoded check_allocations bad_allocation text_at contains_text
    prefix host last_address overlaps contains octets octet_text addr_text parse_addr cut_slash
    parse_uint parse_bits number_text parse_prefix prefix_text masked_text is_loopback is_link_local
    is_multicast is_global_unicast
ledger_accepted = refl

read_allocation_state-IsRetained_example :
    All (IsRetained installation [] []) ledger_state.allocations
    × Pairs ApartEntries ledger_state.allocations
read_allocation_state-IsRetained_example =
    read_allocation_state-IsRetained ledger_codec ledger_map installation ledger_state
      ledger_accepted
