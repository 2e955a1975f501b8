-- ===== src/Examples/Plans.antt =====
-- A plan of the site of Examples/Site.antt, destination routes, and a plan over two clusters.
use kube_ovn_global_vpc.Prelude.{
  String, ◌&&◌, not, some, none, List, [], ◌∷◌, map, any, contains_text, sort_by, insert_by, All,
  Result, ok, ◌≡◌, refl, sym, subst, ltb, eqb,
}
use kube_ovn_global_vpc.Kube.Json.{null}
use kube_ovn_global_vpc.Netip.Parse.{
  octets, octet_text, addr_text, parse_addr, cut_slash, parse_uint, parse_bits, number_text,
}
use kube_ovn_global_vpc.Netip.Prefix.{
  parse_prefix, prefix_text, masked_text, contains, overlaps, is_loopback, is_link_local,
  is_multicast, is_global_unicast,
}
use kube_ovn_global_vpc.SiteConfig.Types.{Grant, Config}
use kube_ovn_global_vpc.SiteConfig.Prefix.{prefix, host, last_address}
use kube_ovn_global_vpc.SiteConfig.Prefix.Laws.{IsHost, prefix-IsNetwork, host-IsHost}
use kube_ovn_global_vpc.SiteConfig.Validate.{
  command, check_members, check_bfd, check_ha, validate_gateways, check_delegated, check_source,
  check_grant, check_grants, validate,
}
use kube_ovn_global_vpc.SitePlan.Transit.{
  exclusion_ranges, range_text, transit_ranges, transit_exclusions, gateway_address,
}
use kube_ovn_global_vpc.SitePlan.Transit.Laws.{covers, transit_ranges-covers}
use kube_ovn_global_vpc.SitePlan.Resources.{SiteVpc, Plan}
use kube_ovn_global_vpc.SitePlan.Build.{
  Libraries, canonical_bfd, canonical_grant, select_grant, delegated_by, selector_fields, ha_plan,
  base_plan, plan_of, require_grant, build,
}
use kube_ovn_global_vpc.SitePlan.Build.Laws.{IsSitePlan, build-IsSitePlan, build-other_grants}
use kube_ovn_global_vpc.Examples.Site.{permissive, tenant_grant, site, transit_net}

abbrev libraries : Libraries
libraries = record {
  validation = permissive;
  selector_value = λ _. ok null;
  short_hash = λ _. "0123456789abcdef";
  identity_hash = λ _. "hash";
}

abbrev site_vpc : SiteVpc
site_vpc = record {
  uid = "uid-v";
  spec = record {
    global_vpc_id = "tenant-a";
    site_id = "dc-a";
    attachment_id = "infra-1";
    cidr = "10.1.2.0/24";
    gateway = "10.1.2.1";
  };
}

abbrev value_or : Plan → Result Plan → Plan
value_or p (ok q) = q
value_or p _ = p

abbrev empty_plan : Plan
empty_plan = record {
  owner_uid = "";
  global_vpc_id = "";
  site_id = "";
  attachment_id = "";
  hash = "";
  vpc_name = "";
  subnet_name = "";
  transit_name = "";
  vpc = null;
  subnet = null;
  transit = null;
  gateway = record {
    version = "";
    global_vpc_id = "";
    owner_uid = "";
    site_id = "";
    attachment_id = "";
    gateway_revision = "";
    delegated_prefixes = [];
    cidr = "";
    transit_cidr = "";
    router_ip = "";
    gateway_ip = "";
    vpc_name = "";
    subnet_name = "";
    transit_name = "";
    gateways = [];
    bfd = none;
  };
}

abbrev site_plan : Plan
site_plan = value_or empty_plan (build libraries (some site_vpc) site)

site_planned : build libraries (some site_vpc) site ≡ ok site_plan
unfolding build validate check_grants check_grant command check_members check_bfd check_ha
    validate_gateways check_delegated check_source prefix host last_address octets octet_text
    addr_text parse_addr cut_slash parse_uint parse_bits number_text parse_prefix prefix_text
    masked_text contains overlaps is_loopback is_link_local is_multicast is_global_unicast
    contains_text any require_grant select_grant canonical_grant canonical_bfd sort_by insert_by
    delegated_by plan_of ha_plan selector_fields base_plan
site_planned = refl

build-IsSitePlan_example : IsSitePlan libraries site_vpc site site_plan
build-IsSitePlan_example = build-IsSitePlan libraries site_vpc site site_plan site_planned

-- the site after another tenant has joined
abbrev other_grant : Grant
other_grant = record tenant_grant { global_vpc_id = "tenant-b" }

abbrev joined : Config
joined = record site {
  grants = other_grant ∷ tenant_grant ∷ [];
  bfd_transaction_command = "other" ∷ [];
}

joined_accepted : validate permissive joined ≡ ok tt
unfolding validate check_grants check_grant command check_members check_bfd check_ha
    validate_gateways check_delegated check_source prefix host last_address octets octet_text
    addr_text parse_addr cut_slash parse_uint parse_bits number_text parse_prefix prefix_text
    masked_text contains overlaps is_loopback is_link_local is_multicast is_global_unicast
    contains_text any
joined_accepted = refl

site_accepted_too : validate permissive site ≡ ok tt
unfolding validate check_grants check_grant command check_members check_bfd check_ha
    validate_gateways check_delegated check_source prefix host last_address octets octet_text
    addr_text parse_addr cut_slash parse_uint parse_bits number_text parse_prefix prefix_text
    masked_text contains overlaps is_loopback is_link_local is_multicast is_global_unicast
    contains_text any
site_accepted_too = refl

same_grant :
    select_grant "tenant-a" (other_grant ∷ tenant_grant ∷ [])
    ≡ select_grant "tenant-a" (tenant_grant ∷ [])
unfolding select_grant
same_grant = refl

build-other_grants_example :
    build libraries (some site_vpc) joined ≡ build libraries (some site_vpc) site
build-other_grants_example =
    build-other_grants libraries site_vpc site (other_grant ∷ tenant_grant ∷ []) ("other" ∷ [])
      same_grant site_accepted_too joined_accepted

-- the gateways of the transit network, and its exclusions
abbrev gateways : List String
gateways = "10.9.0.10" ∷ "10.9.0.11" ∷ []

exclusions_test :
    transit_exclusions transit_net gateways ≡ "10.9.0.1..10.9.0.9" ∷ "10.9.0.12..10.9.0.254" ∷ []
unfolding transit_exclusions transit_ranges exclusion_ranges range_text addr_text octet_text
    last_address sort_by insert_by parse_addr octets
exclusions_test = refl

net_accepted : prefix "10.9.0.0/24" ≡ ok transit_net
unfolding prefix last_address octets octet_text addr_text parse_addr cut_slash parse_uint parse_bits
    number_text parse_prefix prefix_text masked_text is_loopback is_link_local is_multicast
    is_global_unicast
net_accepted = refl

addresses : map gateway_address gateways ≡ 168361994 ∷ 168361995 ∷ []
unfolding parse_addr octets
addresses = refl

hosts_accepted :
    (host "10.9.0.10" transit_net ≡ ok 168361994) × (host "10.9.0.11" transit_net ≡ ok 168361995)
unfolding host last_address contains octets octet_text addr_text parse_addr is_loopback
    is_link_local is_multicast is_global_unicast
hosts_accepted = (refl, refl)

are_hosts : All (λ a. IsHost transit_net a) (map gateway_address gateways)
are_hosts = subst (All (λ a. IsHost transit_net a)) (sym addresses) (
  ((host-IsHost "10.9.0.10" transit_net).0 hosts_accepted.0).0,
  (((host-IsHost "10.9.0.11" transit_net).0 hosts_accepted.1).0, tt),
)

transit_ranges-covers_example : any (covers 168361990) (transit_ranges transit_net gateways) ≡ (
    ltb transit_net.addr 168361990
    && ltb 168361990 (last_address transit_net)
    && not (any (eqb 168361990) (map gateway_address gateways)))
transit_ranges-covers_example =
    transit_ranges-covers transit_net gateways 168361990
      ((prefix-IsNetwork "10.9.0.0/24").0 net_accepted).0 are_hosts
