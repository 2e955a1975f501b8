-- ===== src/Examples/Site.antt =====
-- A site with two gateways, and the theorems about internal/siteconfig at it.
use kube_ovn_global_vpc.Prelude.{
  true, some, none, [], ◌∷◌, false, ◌≡◌, ◌↔◌, refl, All, Pairs, ok, contains_text, any,
}
use kube_ovn_global_vpc.Kube.Validation.{Validation}
use kube_ovn_global_vpc.Netip.Parse.{
  octets, octet_text, addr_text, parse_addr, cut_slash, parse_uint, parse_bits, number_text,
}
use kube_ovn_global_vpc.Netip.Prefix.{
  Prefix, parse_prefix, prefix_text, masked_text, contains, overlaps, is_loopback, is_link_local,
  is_multicast, is_global_unicast,
}
use kube_ovn_global_vpc.SiteConfig.Types.{Grant, Config}
use kube_ovn_global_vpc.SiteConfig.Prefix.{prefix, host, last_address}
use kube_ovn_global_vpc.SiteConfig.Prefix.Laws.{
  IsNetwork, IsHost, NoLinkLocal, prefix-IsNetwork, host-IsHost,
}
use kube_ovn_global_vpc.SiteConfig.Prefix.Gap.{prefix-NoLinkLocal}
use kube_ovn_global_vpc.SiteConfig.Validate.{
  command, check_members, check_bfd, check_ha, validate_gateways, check_delegated, check_source,
  check_grant, check_grants, validate,
}
use kube_ovn_global_vpc.SiteConfig.Validate.Laws.{IsSound, OtherTenant, validate-IsSound}

-- a validation library that has no complaint
abbrev pub permissive : Validation
permissive = record {
  is_dns_label = λ _. true;
  is_dns_subdomain = λ _. true;
  is_label_value = λ _. true;
  is_qualified_name = λ _. true;
  is_label_selector = λ _. true;
}

abbrev pub tenant_grant : Grant
tenant_grant = record {
  global_vpc_id = "tenant-a";
  delegated_prefixes = "10.1.0.0/16" ∷ "10.2.0.0/16" ∷ [];
  transit_cidr = "10.9.0.0/24";
  router_ip = "10.9.0.1";
  gateway_ip = "";
  gateways =
      record { id = "gw-a"; ip = "10.9.0.10" } ∷ record { id = "gw-b"; ip = "10.9.0.11" } ∷ [];
  bfd = some (record {
    source_ip = "10.250.0.1";
    min_rx = 300;
    min_tx = 300;
    multiplier = 3;
    node_selector = none;
  });
}

abbrev pub site : Config
site = record {
  site_id = "dc-a";
  attachment_id = "infra-1";
  cluster = record {
    name = "cluster-a";
    uid = "uid-a";
    kubeconfig = "/etc/kubeconfig";
    nb_command = "ovn-nbctl" ∷ [];
    sb_command = "ovn-sbctl" ∷ [];
  };
  gateway_command = "gateway" ∷ [];
  gateway_revision = "r1";
  grants = tenant_grant ∷ [];
  bfd_transaction_command = "ovsdb-client" ∷ [];
}

site_accepted : validate permissive site ≡ ok tt
unfolding validate check_grants check_grant command check_members check_bfd check_ha
    validate_gateways check_delegated check_source prefix host last_address octets octet_text
    addr_text parse_addr cut_slash parse_uint parse_bits number_text parse_prefix prefix_text
    masked_text contains overlaps is_loopback is_link_local is_multicast is_global_unicast
    contains_text any
site_accepted = refl

validate-IsSound_example : All IsSound site.grants × Pairs OtherTenant site.grants
validate-IsSound_example = validate-IsSound permissive site site_accepted

abbrev pub transit_net : Prefix
transit_net = record { addr = 168361984; bits = 24 }

prefix-IsNetwork_example :
    (prefix "10.9.0.0/24" ≡ ok transit_net)
    ↔ (IsNetwork transit_net × (prefix_text transit_net ≡ "10.9.0.0/24"))
prefix-IsNetwork_example = prefix-IsNetwork "10.9.0.0/24" {p = transit_net}

transit_accepted : prefix "10.9.0.0/24" ≡ ok transit_net
unfolding prefix last_address octets octet_text addr_text parse_addr cut_slash parse_uint parse_bits
    number_text parse_prefix prefix_text masked_text is_loopback is_link_local is_multicast
    is_global_unicast
transit_accepted = refl

host-IsHost_example :
    (host "10.9.0.1" transit_net ≡ ok 168361985)
    ↔ (IsHost transit_net 168361985 × (addr_text 168361985 ≡ "10.9.0.1"))
host-IsHost_example = host-IsHost "10.9.0.1" transit_net {a = 168361985}

-- a network that is accepted with link-local addresses in it
gap_accepted : prefix "169.248.0.0/13" ≡ ok (record { addr = 2851602432; bits = 13 })
unfolding prefix last_address octets octet_text addr_text parse_addr cut_slash parse_uint parse_bits
    number_text parse_prefix prefix_text masked_text is_loopback is_link_local is_multicast
    is_global_unicast
gap_accepted = refl

prefix-NoLinkLocal_example :
    NoLinkLocal (record { addr = 2851602432; bits = 13 })
    ↔ (contains (record { addr = 2851602432; bits = 13 }) 2851995648 ≡ false)
prefix-NoLinkLocal_example =
    prefix-NoLinkLocal "169.248.0.0/13" (record { addr = 2851602432; bits = 13 }) gap_accepted
