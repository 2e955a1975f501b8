-- ===== src/Examples/Platform.antt =====
-- A VPC with subnets at two locations.
use kube_ovn_global_vpc.Prelude.{
  String, true, false, some, List, [], ◌∷◌, All, Some, Pairs, find, any, contains_text, ok, err,
  not_found, ◌≡◌, ◌≢◌, refl,
}
use kube_ovn_global_vpc.Netip.Parse.{
  cut_slash, number_text, parse_addr, octets, addr_text, octet_text, parse_bits, parse_uint,
}
use kube_ovn_global_vpc.Netip.Prefix.{
  parse_prefix, prefix_text, masked_text, contains, is_global_unicast, is_loopback, is_link_local,
  is_multicast,
}
use kube_ovn_global_vpc.SiteConfig.Prefix.{prefix, last_address}
use kube_ovn_global_vpc.PlatformConfig.{Location, Config, location, allows_cidr}
use kube_ovn_global_vpc.Binding.{GatewayEndpoint, NetworkBinding}
use kube_ovn_global_vpc.PlatformPlan.Types.{Vpc, Subnet}
use kube_ovn_global_vpc.PlatformPlan.Names.{Hashes}
use kube_ovn_global_vpc.PlatformPlan.Build.{validate_subnet, class_name}
use kube_ovn_global_vpc.PlatformPlan.Snapshots.{build}
use kube_ovn_global_vpc.PlatformPlan.Laws.{place, IsSnapshot}
use kube_ovn_global_vpc.PlatformPlan.Complete.{Delivered, build-IsSnapshot, build_complete}
use kube_ovn_global_vpc.PlatformPlan.Accepts.{
  IsAdmitted, IsRegistration, validate_subnet-IsAdmitted, build-ok,
}
use kube_ovn_global_vpc.LocalSync.{creates, new_local, decide}
use kube_ovn_global_vpc.LocalSync.Planned.{build-created}
use kube_ovn_global_vpc.Examples.Allocations

abbrev hashes : Hashes
hashes = record { short = λ s. s; spec_hash = λ s. s.location_ref }

abbrev vpc : Vpc
vpc = record { namespace = "p"; name = "v"; uid = "v1"; spec = record { network_class_ref = "" } }

abbrev site : String → String → Location
site name pool = record {
  name = name;
  region = "r";
  site = "s";
  dc = "d";
  binding_namespace = "net";
  allowed_projects = "p" ∷ [];
  cidr_pools = pool ∷ [];
}

abbrev config : Config
config = record {
  registry_namespace = "";
  network_classes = ("default", record { transport_profile = "vxlan-evpn" }) ∷ [];
  locations = site "l" "10.1.0.0/16" ∷ site "m" "10.2.0.0/16" ∷ [];
}

abbrev subnet : String → String → String → Subnet
subnet name at cidr = record {
  namespace = "p";
  name = name;
  uid = name;
  deleting = false;
  spec = record { vpc_ref = "v"; location_ref = at; cidr = cidr };
  status = record { vpc_uid = "v1" };
}

abbrev subnets : List Subnet
subnets = subnet "s1" "l" "10.1.1.0/24" ∷ subnet "s2" "m" "10.2.1.0/24" ∷ []

-- a registered gateway at the first location
abbrev gateway : GatewayEndpoint
gateway = record {
  id = "g1";
  node_name = "n1";
  node_uid = "u1";
  endpoint_ip = "192.0.2.1";
  transit_ip = "10.8.0.1";
  public_key = "";
  local_asn = 4200000000;
  health_ip = "10.9.0.1";
  links = [];
  ready = true;
}

abbrev known_binding : NetworkBinding
known_binding = record Allocations.binding {
  status = record Allocations.binding.status { gateways = gateway ∷ [] };
}

admitted : validate_subnet vpc (subnet "s1" "l" "10.1.1.0/24") config ≡ ok tt
unfolding validate_subnet location allows_cidr any contains contains_text prefix last_address octets
    octet_text addr_text parse_addr cut_slash parse_uint parse_bits number_text parse_prefix
    prefix_text masked_text is_loopback is_link_local is_multicast is_global_unicast
admitted = refl

admitted_too : validate_subnet vpc (subnet "s2" "m" "10.2.1.0/24") config ≡ ok tt
unfolding validate_subnet location allows_cidr any contains contains_text prefix last_address octets
    octet_text addr_text parse_addr cut_slash parse_uint parse_bits number_text parse_prefix
    prefix_text masked_text is_loopback is_link_local is_multicast is_global_unicast
admitted_too = refl

class_found :
    find (class_name vpc) config.network_classes
    ≡ some (record { transport_profile = "vxlan-evpn" })
unfolding class_name find
class_found = refl

registrations : All (λ b. IsRegistration b.status.gateways) (known_binding ∷ [])
unfolding parse_addr octets is_global_unicast is_loopback is_link_local is_multicast
registrations = (record { valid = (refl, tt); apart = (tt, tt) }, tt)

subnets-IsAdmitted : All (λ s. s.status.vpc_uid ≡ vpc.uid → IsAdmitted vpc config s) subnets
subnets-IsAdmitted = (
  (λ _. (validate_subnet-IsAdmitted vpc (subnet "s1" "l" "10.1.1.0/24") config).0 admitted),
  (
    (λ _. (validate_subnet-IsAdmitted vpc (subnet "s2" "m" "10.2.1.0/24") config).0 admitted_too),
    tt,
  ),
)

made : (bs : List NetworkBinding) × (build hashes vpc subnets (known_binding ∷ []) config ≡ ok bs)
made =
    build-ok hashes vpc (known_binding ∷ []) registrations subnets config
      (record { transport_profile = "vxlan-evpn" }) class_found ((refl, refl), tt)
      subnets-IsAdmitted

build-ok_example :
    (bs : List NetworkBinding) × (build hashes vpc subnets (known_binding ∷ []) config ≡ ok bs)
build-ok_example =
    build-ok hashes vpc (known_binding ∷ []) registrations subnets config
      (record { transport_profile = "vxlan-evpn" }) class_found ((refl, refl), tt)
      subnets-IsAdmitted

build-IsSnapshot_example :
    All (IsSnapshot hashes vpc subnets (known_binding ∷ [])) made.0
    × Pairs (λ a b. place a ≢ place b) made.0
build-IsSnapshot_example = build-IsSnapshot hashes vpc subnets (known_binding ∷ []) config made.1

build_complete_example :
    All (λ e. Some (λ b. place b ≡ place e) made.0) (known_binding ∷ [])
    × All (λ t. t.status.vpc_uid ≡ vpc.uid → Delivered hashes (known_binding ∷ []) made.0 t) subnets
build_complete_example = build_complete hashes vpc subnets (known_binding ∷ []) config made.1

build-created_example :
    All
      (λ b.
        b.spec.location_ref ≡ Allocations.config.location_ref
        → decide hashes Allocations.config b (err not_found)
          ≡ ok (creates (new_local Allocations.config b)))
      made.0
build-created_example =
    build-created hashes vpc subnets (known_binding ∷ []) Allocations.config config made.1
