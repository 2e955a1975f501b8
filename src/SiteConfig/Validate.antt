-- ===== src/SiteConfig/Validate.antt =====
-- `Config.Validate` and `Grant.validateGateways` of internal/siteconfig/config.go. A map that is
-- used as a set is the list of the keys put into it.
pub mod Delegated
pub mod Members
pub mod Laws
use kube_ovn_global_vpc.Prelude.{
  ℕ, String, Bool, true, false, not, ◌&&◌, ◌||◌, Option, none, some, List, [], ◌∷◌, is_empty,
  length, any, contains_text, ltb, eqb, ◌==◌, Result, ok, err, invalid, reject, is_ok,
  if◌then◌else◌, ◌>>=◌, ◌>>◌,
}
use kube_ovn_global_vpc.Kube.Validation.{Validation, LabelSelector}
use kube_ovn_global_vpc.Netip.Parse.{addr_text, parse_addr}
use kube_ovn_global_vpc.Netip.Prefix.{
  Prefix, contains, overlaps, is_global_unicast, is_loopback, is_link_local,
}
use kube_ovn_global_vpc.SiteConfig.Prefix.{prefix, host}
use kube_ovn_global_vpc.SiteConfig.Types.{Cluster, Gateway, Bfd, Grant, Config}

abbrev has_program : List String → Bool
has_program [] = false
has_program (program ∷ _) = not (program == "")

-- `command`
unfoldable pub command : List String → Bool
command = has_program

abbrev bad_source : String → Option ℕ → Bool
bad_source raw none = true
bad_source raw (some a) =
    not (addr_text a == raw) || not (is_global_unicast a) || is_loopback a || is_link_local a

-- one gateway, without BFD
unfoldable pub check_single : Grant → Option Bfd → Prefix → Result (Unit {0})
check_single g (some _) transit = err (invalid "BFD requires HA gateways")
check_single g none transit = do
  _ ← host g.gateway_ip transit
  reject (g.router_ip == g.gateway_ip) "grant routerIP and gatewayIP must differ"

-- the delegated prefixes of a grant, each against all before it; the result is `seen`
unfoldable pub check_delegated : List Prefix → List String → Result (List Prefix)
check_delegated seen [] = ok seen
check_delegated seen (raw ∷ rest) = do
  p ← prefix raw
  reject (any (overlaps p) seen)
      "delegated prefixes and local transit must not overlap within a tenant"
  check_delegated (p ∷ seen) rest

-- `source, _ := netip.ParseAddr(…)`: no prefix contains the invalid address
abbrev pub contains_source : Option ℕ → Prefix → Bool
contains_source none p = false
contains_source (some source) p = contains p source

unfoldable pub check_source : Option Bfd → List Prefix → Result (Unit {0})
check_source none seen = ok tt
check_source (some b) seen =
    reject (any (contains_source (parse_addr b.source_ip)) seen)
      "BFD sourceIP must be outside local delegated prefixes and transit"

module _ (v : Validation) where
  -- the loop over the members of a grant
  unfoldable pub check_members :
      Prefix → List String → List String → List Gateway → Result (Unit {0})
  check_members transit ids ips [] = ok tt
  check_members transit ids ips (member ∷ rest) = do
    reject (not (v.is_dns_label member.id) || contains_text member.id ids)
        "gateway IDs must be unique DNS labels"
    reject (not (is_ok (host member.ip transit)) || contains_text member.ip ips)
        "gateway IPs must be unique usable transit hosts distinct from routerIP"
    check_members transit (member.id ∷ ids) (member.ip ∷ ips) rest

  abbrev bad_selector : Option LabelSelector → Bool
  bad_selector none = false
  bad_selector (some selector) = not (v.is_label_selector selector)

  -- the part of `validateGateways` behind the loop
  unfoldable pub check_bfd : Bfd → Result (Unit {0})
  check_bfd b = do
    reject (bad_source b.source_ip (parse_addr b.source_ip))
        "BFD sourceIP must be a canonical unicast IPv4 address outside loopback and link-local ranges"
    reject
        (ltb b.min_rx 100
          || ltb 60000 b.min_rx
          || ltb b.min_tx 100
          || ltb 60000 b.min_tx
          || ltb b.multiplier 2
          || ltb 255 b.multiplier)
        "BFD minRX/minTX must be 100 through 60000 milliseconds and multiplier 2 through 255"
    reject (bad_selector b.node_selector) "BFD nodeSelector is invalid"

  abbrev needs_ha : String
  needs_ha = "HA requires 2 through 8 gateways and BFD, without legacy gatewayIP"

  -- several gateways, with BFD
  unfoldable pub check_ha : Grant → Option Bfd → Prefix → Result (Unit {0})
  check_ha g none transit = err (invalid needs_ha)
  check_ha g (some b) transit = do
    reject (not (g.gateway_ip == "") || ltb (length g.gateways) 2 || ltb 8 (length g.gateways))
        needs_ha
    check_members transit [] (g.router_ip ∷ []) g.gateways
    check_bfd b

  unfoldable pub validate_gateways : Grant → Prefix → Result (Unit {0})
  validate_gateways g transit =
      if is_empty g.gateways then check_single g g.bfd transit else check_ha g g.bfd transit

  -- one round of the loop over the grants
  unfoldable pub check_grant : Config → List String → Grant → Result (Unit {0})
  check_grant c ids g = do
    reject (not (v.is_dns_subdomain g.global_vpc_id) || contains_text g.global_vpc_id ids)
        "grant globalVpcID must be a unique DNS subdomain"
    transit ← prefix g.transit_cidr
    _ ← host g.router_ip transit
    validate_gateways g transit
    reject (not (is_empty g.gateways) && not (command c.bfd_transaction_command))
        "HA requires a local BFD transaction command"
    reject (is_empty g.delegated_prefixes) "grant requires delegated prefixes"
    seen ← check_delegated (transit ∷ []) g.delegated_prefixes
    check_source g.bfd seen

  unfoldable pub check_grants : Config → List String → List Grant → Result (Unit {0})
  check_grants c ids [] = ok tt
  check_grants c ids (g ∷ rest) = do
    check_grant c ids g
    check_grants c (g.global_vpc_id ∷ ids) rest

  -- `Config.Validate`
  unfoldable pub validate : Config → Result (Unit {0})
  validate c = do
    reject (not (v.is_dns_label c.site_id) || not (v.is_dns_label c.attachment_id))
        "siteID and attachmentID must be DNS labels"
    reject
        (not (v.is_dns_subdomain c.cluster.name)
          || c.cluster.uid == ""
          || not (v.is_label_value c.cluster.uid)
          || c.cluster.kubeconfig == "")
        "local cluster name, UID and kubeconfig are required"
    reject
        (not (command c.cluster.nb_command)
          || not (command c.cluster.sb_command)
          || not (command c.gateway_command))
        "local NB, SB and gateway commands are required"
    reject (not (v.is_dns_label c.gateway_revision))
        "gatewayRevision must be a DNS label matching the local backend registration"
    reject (is_empty c.grants) "at least one local tenant grant is required"
    check_grants c [] c.grants
