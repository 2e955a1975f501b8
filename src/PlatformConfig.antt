-- ===== src/PlatformConfig.antt =====
-- internal/platformconfig/config.go: locations, their project grants and their CIDR pools. A range
-- over the map of network classes meets its entries in the order of the list.
pub mod Validate
pub mod Lookup
use kube_ovn_global_vpc.Prelude.{
  String, Bool, true, false, not, ◌&&◌, ◌||◌, Option, none, some, List, [], ◌∷◌, Map, has, any,
  is_empty, leb, ◌==◌, contains_text, Result, ok, err, invalid, reject, is_ok, if◌then◌else◌, ◌>>=◌,
  ◌>>◌,
}
use kube_ovn_global_vpc.Kube.Validation.{Validation}
use kube_ovn_global_vpc.Netip.Prefix.{Prefix, contains}
use kube_ovn_global_vpc.SiteConfig.Prefix.{prefix}

pub record NetworkClass : Type 0 where
  pub transport_profile : String

pub record Location : Type 0 where
  pub name : String
  pub region : String
  pub site : String
  pub dc : String
  pub binding_namespace : String
  pub allowed_projects : List String
  pub cidr_pools : List String

pub record Config : Type 0 where
  pub registry_namespace : String
  pub network_classes : Map NetworkClass
  pub locations : List Location

unfoldable pub known_profile : String → Bool
known_profile p = p == "wireguard-bgp" || p == "geneve-bgp" || p == "vxlan-evpn"

abbrev pub not_label : Validation → String → Bool
not_label v s = not (v.is_dns_label s)

-- the loop over the network classes
unfoldable pub check_classes : Validation → Map NetworkClass → Result (Unit {0})
check_classes v [] = ok tt
check_classes v ((name, class) ∷ rest) = do
  reject (not_label v name) "invalid network class name"
  reject (not (known_profile class.transport_profile)) "unsupported transport profile"
  check_classes v rest

-- the loop over the pools of a location
unfoldable pub check_pools : List String → Result (Unit {0})
check_pools [] = ok tt
check_pools (raw ∷ rest) = do _ ← prefix raw; check_pools rest

abbrev pub identity : Location → List String
identity l = l.name ∷ l.region ∷ l.site ∷ l.dc ∷ l.binding_namespace ∷ []

-- one round of the loop over the locations; `seen` and `namespaces` are lists of keys
unfoldable pub check_location :
    Validation → List String → List String → Location → Result (Unit {0})
check_location v seen namespaces l = do
  reject (any (not_label v) (identity l)) "location identity and namespace must be DNS labels"
  reject (contains_text l.name seen || contains_text l.binding_namespace namespaces)
      "locations require unique names and binding namespaces"
  reject (is_empty l.allowed_projects || is_empty l.cidr_pools)
      "location requires explicit project grants and reserved CIDR pools"
  reject (any (not_label v) l.allowed_projects) "project grants must name an explicit namespace"
  check_pools l.cidr_pools

unfoldable pub check_locations :
    Validation → List String → List String → List Location → Result (Unit {0})
check_locations v seen namespaces [] = ok tt
check_locations v seen namespaces (l ∷ rest) = do
  check_location v seen namespaces l
  check_locations v (l.name ∷ seen) (l.binding_namespace ∷ namespaces) rest

unfoldable pub validate : Validation → Config → Result (Unit {0})
validate v c = do
  reject (not (c.registry_namespace == "") && not_label v c.registry_namespace)
      "invalid registry namespace"
  reject (not (has "default" c.network_classes)) "a default network class is required"
  check_classes v c.network_classes
  check_locations v [] [] c.locations
  reject (is_empty c.locations) "at least one location is required"

-- `Config.Location`: the first location of the name decides
unfoldable pub location : String → String → List Location → Result Location
location name project [] = err (invalid "location is not registered")
location name project (l ∷ rest) =
    let later = location name project rest in
    if not (l.name == name)
    then later
    else if contains_text project l.allowed_projects
    then ok l
    else err (invalid "project is not authorized for location")

abbrev pub in_pool : Prefix → Result Prefix → Bool
in_pool p (err _) = false
in_pool p (ok pool) = leb pool.bits p.bits && contains pool p.addr

abbrev pub in_pool_text : Prefix → String → Bool
in_pool_text p raw = in_pool p (prefix raw)

abbrev allows : List String → Result Prefix → Bool
allows pools (err _) = false
allows pools (ok p) = any (in_pool_text p) pools

-- `Location.AllowsCIDR`
unfoldable pub allows_cidr : Location → String → Bool
allows_cidr l raw = allows l.cidr_pools (prefix raw)
