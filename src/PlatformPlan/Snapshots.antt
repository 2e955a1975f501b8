-- ===== src/PlatformPlan/Snapshots.antt =====
-- The snapshots of `Build` of internal/platformplan/plan.go.
use kube_ovn_global_vpc.Prelude.{
  keys, String, Option, none, some, List, [], ◌∷◌, Map, find, is_empty, text_ltb, sort_by, Result,
  ok, err, invalid, ◌⧺◌, ◌>>=◌,
}
use kube_ovn_global_vpc.PlatformConfig.{NetworkClass, Location, Config}
use kube_ovn_global_vpc.Binding.{
  PeerGateway, NetworkBindingSpec, NetworkBindingStatus, NetworkBinding,
}
use kube_ovn_global_vpc.PlatformPlan.Types.{Vpc, Subnet}
use kube_ovn_global_vpc.PlatformPlan.Names.{Hashes, binding_name, vpc_name, revision}
use kube_ovn_global_vpc.PlatformPlan.Build.{
  class_name, known, Subnets, at, collect, authorized, remote_subnets, peers, by_uid, by_cidr,
  by_id, namespace_of,
}

abbrev pub no_status : NetworkBindingStatus
no_status = record {
  observed_generation = 0;
  phase = "";
  applied_revision = "";
  resources = [];
  gateways = [];
  conditions = [];
}

module _ (hashes : Hashes) (v : Vpc) (class : NetworkClass) (existing : List NetworkBinding)
    (locations : Map Location) (by_location : Subnets) (names : List String) where
  -- the specification for one location, less its revision
  unfoldable pub spec_of : String → List PeerGateway → NetworkBindingSpec
  spec_of name gateways = record {
    vpc_ref = record { namespace = v.namespace; name = v.name; uid = v.uid };
    network_id = 0;
    local_asn = 0;
    location_ref = name;
    network_class_ref = class_name v;
    native_vpc_name = vpc_name hashes v.uid name;
    transport_profile = class.transport_profile;
    subnets = sort_by by_uid (at name by_location);
    authorized_locations = authorized by_location names;
    remote_subnets = sort_by by_cidr (remote_subnets existing by_location name names);
    peers = sort_by by_id gateways;
    link_allocations = [];
    revision = "";
    deleting = is_empty (at name by_location);
  }

  -- the snapshot for one location
  unfoldable pub snapshot : String → List PeerGateway → NetworkBinding
  snapshot name gateways =
      let spec = spec_of name gateways in
      record {
        namespace = namespace_of (find name locations);
        name = binding_name hashes v.uid name;
        uid = "";
        resource_version = "";
        generation = 0;
        labels =
            ("platform.globalvpc.io/vpc-uid", v.uid)
            ∷ ("platform.globalvpc.io/location", name)
            ∷ ("platform.globalvpc.io/project", v.namespace)
            ∷ [];
        annotations = [];
        spec = record spec { revision = revision hashes spec };
        status = no_status;
      }

  -- the loop over the locations
  unfoldable pub snapshots : List String → Result (List NetworkBinding)
  snapshots [] = ok []
  snapshots (name ∷ rest) = do
    gateways ← peers by_location name existing
    others ← snapshots rest
    ok (snapshot name gateways ∷ others)

unfoldable pub with_class :
    Hashes
    → Vpc
    → List Subnet
    → List NetworkBinding
    → Config
    → Option NetworkClass
    → Result (List NetworkBinding)
with_class hashes v subnets existing c none =
    err (invalid ("network class " ⧺ class_name v ⧺ " is not registered"))
with_class hashes v subnets existing c (some class) = do
  locations ← known v existing []
  collected ← collect hashes v c subnets locations []
  let names = sort_by text_ltb (keys collected.0)
  snapshots hashes v class existing collected.0 collected.1 names names

-- `Build`
unfoldable pub build :
    Hashes → Vpc → List Subnet → List NetworkBinding → Config → Result (List NetworkBinding)
build hashes v subnets existing c =
    with_class hashes v subnets existing c (find (class_name v) c.network_classes)
