-- ===== src/PlatformPlan/Build.antt =====
-- `ValidateSubnet`, `Build` and `withdrawn` of internal/platformplan/plan.go.
use kube_ovn_global_vpc.Prelude.{
  ℕ, String, ◌⧺◌, Bool, true, false, not, ◌&&◌, ◌||◌, Option, none, some, List, [], ◌∷◌, ◌++◌, Map,
  find, put, any, is_empty, contains_text, starts_with, ◌==◌, text_ltb, Result, ok, reject, ◌>>=◌,
  ◌>>◌, if◌then◌else◌,
}
use kube_ovn_global_vpc.Netip.Parse.{parse_addr, addr_text}
use kube_ovn_global_vpc.Netip.Prefix.{Prefix, is_global_unicast, next}
use kube_ovn_global_vpc.SiteConfig.Prefix.{prefix}
use kube_ovn_global_vpc.PlatformConfig.{Location, Config, location, allows_cidr}
use kube_ovn_global_vpc.Binding.{
  BindingSubnet, RemoteSubnet, GatewayLink, GatewayEndpoint, PeerGateway, ResourceRecord,
  NetworkBinding,
}
use kube_ovn_global_vpc.PlatformPlan.Types.{Vpc, Subnet}
use kube_ovn_global_vpc.PlatformPlan.Names.{Hashes, subnet_name}

-- `ValidateSubnet`
unfoldable pub validate_subnet : Vpc → Subnet → Config → Result (Unit {0})
validate_subnet v s c = do
  reject (not (s.namespace == v.namespace) || not (s.spec.vpc_ref == v.name))
      "subnet must reference a VPC in its project"
  reject (not (s.status.vpc_uid == "") && not (s.status.vpc_uid == v.uid))
      "VPC identity changed; subnet cannot adopt a same-name replacement"
  l ← location s.spec.location_ref s.namespace c.locations
  _ ← prefix s.spec.cidr
  reject (not (allows_cidr l s.spec.cidr)) "CIDR is outside this location's reserved workload pools"

unfoldable pub class_name : Vpc → String
class_name v = if v.spec.network_class_ref == "" then "default" else v.spec.network_class_ref

-- a location that is known by its binding only
abbrev pub location_of : NetworkBinding → Location
location_of b = record {
  name = b.spec.location_ref;
  region = "";
  site = "";
  dc = "";
  binding_namespace = b.namespace;
  allowed_projects = [];
  cidr_pools = [];
}

-- the loop over the existing bindings
unfoldable pub known : Vpc → List NetworkBinding → Map Location → Result (Map Location)
known v [] locations = ok locations
known v (b ∷ rest) locations = do
  reject (not (b.spec.vpc_ref.uid == v.uid) || not (b.spec.vpc_ref.namespace == v.namespace))
      "foreign binding identity"
  known v rest (put b.spec.location_ref (location_of b) locations)

abbrev pub Subnets : Type 0
Subnets = Map (List BindingSubnet)

abbrev pub entry : Option (List BindingSubnet) → List BindingSubnet
entry none = []
entry (some subnets) = subnets

-- `byLocation[name]`
abbrev pub at : String → Subnets → List BindingSubnet
at name by_location = entry (find name by_location)

module _ (hashes : Hashes) where
  abbrev pub binding_subnet : Subnet → Prefix → BindingSubnet
  binding_subnet s p = record {
    name = s.name;
    uid = s.uid;
    cidr = s.spec.cidr;
    gateway = addr_text (next p.addr);
    native_subnet_name = subnet_name hashes s.uid;
    deleting = s.deleting;
  }

  -- the loop over the subnets
  unfoldable pub collect :
      Vpc → Config → List Subnet → Map Location → Subnets → Result (Map Location × Subnets)
  collect v c [] locations by_location = ok (locations, by_location)
  collect v c (s ∷ rest) locations by_location =
      let skipped = collect v c rest locations by_location in
      if not (s.status.vpc_uid == v.uid) then skipped else do
        l ← location s.spec.location_ref s.namespace c.locations
        p ← prefix s.spec.cidr
        collect v c rest (put l.name l locations)
            (put l.name (at l.name by_location ++ binding_subnet s p ∷ []) by_location)

-- the locations with subnets
unfoldable pub authorized : Subnets → List String → List String
authorized by_location [] = []
authorized by_location (name ∷ names) =
    let rest = authorized by_location names in
    if not (is_empty (at name by_location)) then name ∷ rest else rest

abbrev same_subnet : String → ResourceRecord → Bool
same_subnet name r = r.kind == "Subnet" && r.name == name

-- `withdrawn`: the first up-to-date report of the location no longer lists the subnet
unfoldable pub withdrawn : List NetworkBinding → String → String → Bool
withdrawn [] location name = false
withdrawn (b ∷ rest) location name =
    let later = withdrawn rest location name in
    if not (b.spec.location_ref == location) || not (b.status.applied_revision == b.spec.revision)
    then later
    else not (any (same_subnet name) b.status.resources)

-- the subnets of another location that are still to be reached
unfoldable pub reachable : List NetworkBinding → String → List BindingSubnet → List RemoteSubnet
reachable existing remote [] = []
reachable existing remote (s ∷ rest) =
    let others = reachable existing remote rest in
    if not s.deleting || not (withdrawn existing remote s.native_subnet_name)
    then record { location_ref = remote; cidr = s.cidr } ∷ others
    else others

unfoldable pub remote_subnets :
    List NetworkBinding → Subnets → String → List String → List RemoteSubnet
remote_subnets existing by_location name [] = []
remote_subnets existing by_location name (remote ∷ rest) =
    let others = remote_subnets existing by_location name rest in
    if remote == name then others else reachable existing remote (at remote by_location) ++ others

-- `netip.ParseAddr` gives something else than a unicast IPv4 address
abbrev bad_ip : Option ℕ → Bool
bad_ip none = true
bad_ip (some a) = not (is_global_unicast a)

abbrev no_ip : Option ℕ → Bool
no_ip none = true
no_ip (some a) = false

abbrev pub bad_endpoint : GatewayEndpoint → Bool
bad_endpoint g =
    bad_ip (parse_addr g.endpoint_ip)
    || no_ip (parse_addr g.transit_ip)
    || g.id == ""
    || g.node_uid == ""
    || g.node_name == ""

-- the links to a location
unfoldable pub links_to : String → List GatewayLink → List GatewayLink
links_to name [] = []
links_to name (link ∷ rest) =
    let others = links_to name rest in
    if starts_with link.peer_id (name ⧺ "/") then link ∷ others else others

abbrev pub peer : String → String → GatewayEndpoint → PeerGateway
peer name remote g = record {
  location_ref = remote;
  endpoint = record g { ready = false; links = links_to name g.links };
}

-- the loop over the gateways of another location; `ids` and `nodes` are the seen ones
unfoldable pub peers_at :
    String → String → List String → List String → List GatewayEndpoint → Result (List PeerGateway)
peers_at name remote ids nodes [] = ok []
peers_at name remote ids nodes (g ∷ rest) = do
  reject (bad_endpoint g || contains_text g.id ids || contains_text g.node_uid nodes)
      ("invalid gateway registration at " ⧺ remote)
  others ← peers_at name remote (g.id ∷ ids) (g.node_uid ∷ nodes) rest
  ok (peer name remote g ∷ others)

-- the loop over the bindings of the other locations
unfoldable pub peers : Subnets → String → List NetworkBinding → Result (List PeerGateway)
peers by_location name [] = ok []
peers by_location name (remote ∷ rest) =
    let later = peers by_location name rest in
    if remote.spec.location_ref == name || is_empty (at remote.spec.location_ref by_location)
    then later
    else do
      own ← peers_at name remote.spec.location_ref [] [] remote.status.gateways
      others ← later
      ok (own ++ others)

abbrev pub by_uid : BindingSubnet → BindingSubnet → Bool
by_uid a b = text_ltb a.uid b.uid

abbrev pub by_cidr : RemoteSubnet → RemoteSubnet → Bool
by_cidr a b = text_ltb (a.location_ref ⧺ "/" ⧺ a.cidr) (b.location_ref ⧺ "/" ⧺ b.cidr)

abbrev pub by_id : PeerGateway → PeerGateway → Bool
by_id a b = text_ltb (a.location_ref ⧺ "/" ⧺ a.endpoint.id) (b.location_ref ⧺ "/" ⧺ b.endpoint.id)

-- the location of a name, which is in the map
abbrev pub namespace_of : Option Location → String
namespace_of none = ""
namespace_of (some l) = l.binding_namespace
