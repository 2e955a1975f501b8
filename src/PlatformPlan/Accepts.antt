-- ===== src/PlatformPlan/Accepts.antt =====
-- When `Build` of internal/platformplan/plan.go succeeds.
use kube_ovn_global_vpc.Prelude.{
  String, true, false, not, ◌||◌, ◌&&◌, List, [], ◌∷◌, ◌++◌, Map, keys, find, put, text_ltb,
  sort_by, is_empty, contains_text, ◌==◌, eq_iff, text_eq, ◌≡◌, ◌≢◌, ◌↔◌, ◌⊎◌, inl, inr, refl,
  Bool-cases, All, Pairs, some, ok, reject-eq-ok, reject_passed, >>=-eq-ok, or-false, not-false,
  arith,
}
use kube_ovn_global_vpc.Netip.Prefix.{Prefix}
use kube_ovn_global_vpc.SiteConfig.Prefix.{prefix}
use kube_ovn_global_vpc.PlatformConfig.{NetworkClass, Location, Config, location, allows_cidr}
use kube_ovn_global_vpc.Binding.{GatewayEndpoint, PeerGateway, NetworkBinding}
use kube_ovn_global_vpc.PlatformPlan.Types.{Vpc, Subnet}
use kube_ovn_global_vpc.PlatformPlan.Names.{Hashes}
use kube_ovn_global_vpc.PlatformPlan.Build.{
  validate_subnet, class_name, location_of, known, Subnets, at, binding_subnet, collect,
  bad_endpoint, peer, peers_at, peers,
}
use kube_ovn_global_vpc.PlatformPlan.Snapshots.{snapshot, snapshots, with_class, build}

-- what an admitted subnet is
pub record IsAdmitted (v : Vpc) (c : Config) (s : Subnet) : Type 0 where
  pub project : s.namespace ≡ v.namespace
  pub reference : s.spec.vpc_ref ≡ v.name
  pub unadopted : (s.status.vpc_uid ≡ "") ⊎ (s.status.vpc_uid ≡ v.uid)
  pub at : Location
  pub found : location s.spec.location_ref s.namespace c.locations ≡ ok at
  pub network : Prefix
  pub parsed : prefix s.spec.cidr ≡ ok network
  pub allowed : allows_cidr at s.spec.cidr ≡ true

IsAdmitted-sound :
    (v : Vpc) (s : Subnet) (c : Config) → validate_subnet v s c ≡ ok tt → IsAdmitted v c s
unfolding validate_subnet
IsAdmitted-sound v s c h =
    let (own, h₁) =
      reject-eq-ok (not (s.namespace == v.namespace) || not (s.spec.vpc_ref == v.name)) _ _ h in
    let (same, h₂) =
      reject-eq-ok (not (s.status.vpc_uid == "") && not (s.status.vpc_uid == v.uid)) _ _ h₁ in
    let (l, found, h₃) = >>=-eq-ok (location s.spec.location_ref s.namespace c.locations) _ h₂ in
    let (p, parsed, h₄) = >>=-eq-ok (prefix s.spec.cidr) _ h₃ in
    let (project, reference) = or-false _ _ own in
    record {
      project = text_eq _ _ (not-false _ project);
      reference = text_eq _ _ (not-false _ reference);
      unadopted = elim (Bool-cases (s.status.vpc_uid == "")) [
        | inl e ↦ inl (text_eq _ _ e)
        | inr e ↦ inr (text_eq _ _ (ground (arith, same, e)))
      ];
      at = l;
      found = found;
      network = p;
      parsed = parsed;
      allowed = not-false _ (reject_passed (not (allows_cidr l s.spec.cidr)) _ h₄);
    }

IsAdmitted-accepted :
    (v : Vpc) (s : Subnet) (c : Config) → IsAdmitted v c s → validate_subnet v s c ≡ ok tt
unfolding validate_subnet
IsAdmitted-accepted v s c a =
    let project : (s.namespace == v.namespace) ≡ true = (eq_iff _ _).1 a.project in
    let reference : (s.spec.vpc_ref == v.name) ≡ true = (eq_iff _ _).1 a.reference in
    let unadopted : (not (s.status.vpc_uid == "") && not (s.status.vpc_uid == v.uid)) ≡ false =
      elim a.unadopted [
        | inl e ↦ ground (arith, (eq_iff s.status.vpc_uid "").1 e)
        | inr e ↦ ground (arith, (eq_iff s.status.vpc_uid v.uid).1 e)
      ] in
    rw (project, reference, unadopted, a.found, a.parsed, a.allowed) refl

-- A subnet is admitted exactly when it is in the project of the VPC and refers to it, is of no other
-- incarnation of it, and has a valid network from the pools of a location that grants the project.
pub validate_subnet-IsAdmitted :
    (v : Vpc) (s : Subnet) (c : Config) → (validate_subnet v s c ≡ ok tt) ↔ IsAdmitted v c s
validate_subnet-IsAdmitted v s c = (IsAdmitted-sound v s c, IsAdmitted-accepted v s c)

known-ok :
    (v : Vpc) (existing : List NetworkBinding) (m : Map Location)
    → All (λ b. (b.spec.vpc_ref.uid ≡ v.uid) × (b.spec.vpc_ref.namespace ≡ v.namespace)) existing
    → (last : Map Location) × (known v existing m ≡ ok last)
unfolding known
known-ok v [] m h = (m, refl)
known-ok v (b ∷ rest) m h =
    let uid : (b.spec.vpc_ref.uid == v.uid) ≡ true = (eq_iff _ _).1 h.0.0 in
    let namespace : (b.spec.vpc_ref.namespace == v.namespace) ≡ true = (eq_iff _ _).1 h.0.1 in
    let (last, e) = known-ok v rest (put b.spec.location_ref (location_of b) m) h.1 in
    (last, rw (uid, namespace) e)

collect-ok :
    (hashes : Hashes) (v : Vpc) (c : Config) (rest : List Subnet) (m : Map Location) (b : Subnets)
    → All (λ s. s.status.vpc_uid ≡ v.uid → IsAdmitted v c s) rest
    → (last : Map Location × Subnets) × (collect hashes v c rest m b ≡ ok last)
unfolding collect
collect-ok hashes v c [] m b h = ((m, b), refl)
collect-ok hashes v c (s ∷ rest) m b h = elim (Bool-cases (s.status.vpc_uid == v.uid)) [
  | inr other ↦ let (last, e) = collect-ok hashes v c rest m b h.1 in (last, rw other e)
  | inl own ↦
      let a : IsAdmitted v c s = h.0 (text_eq _ _ own) in
      let (last, e) =
        collect-ok hashes v c rest (put a.at.name a.at m)
          (put a.at.name (at a.at.name b ++ binding_subnet hashes s a.network ∷ []) b) h.1 in
      (last, rw (own, a.found, a.parsed) e)
]

-- gateways of different identities on different nodes
abbrev pub OtherGateway : GatewayEndpoint → GatewayEndpoint → Type 0
OtherGateway g k = (g.id ≢ k.id) × (g.node_uid ≢ k.node_uid)

-- the registrations of a location
pub record IsRegistration (gateways : List GatewayEndpoint) : Type 0 where
  pub valid : All (λ g. bad_endpoint g ≡ false) gateways
  pub apart : Pairs OtherGateway gateways

abbrev Unseen : List String → List String → GatewayEndpoint → Type 0
Unseen ids nodes g = (contains_text g.id ids ≡ false) × (contains_text g.node_uid nodes ≡ false)

unseen_too :
    (s t : String) (ts : List String)
    → t ≢ s
    → contains_text s ts ≡ false
    → contains_text s (t ∷ ts) ≡ false
unfolding contains_text
unseen_too s t ts other h =
    let differ : (t == s) ≡ false = elim (Bool-cases (t == s)) [
      | inl e ↦ absurd (other (text_eq t s e))
      | inr e ↦ e
    ] in
    rw (differ, h) refl

-- a gateway that is seen does not hide others
Unseen-cons :
    (g : GatewayEndpoint) (ids nodes : List String) (rest : List GatewayEndpoint)
    → All (OtherGateway g) rest
    → All (Unseen ids nodes) rest
    → All (Unseen (g.id ∷ ids) (g.node_uid ∷ nodes)) rest
Unseen-cons g ids nodes [] o u = tt
Unseen-cons g ids nodes (k ∷ rest) o u = (
  (unseen_too k.id g.id ids o.0.0 u.0.0, unseen_too k.node_uid g.node_uid nodes o.0.1 u.0.1),
  Unseen-cons g ids nodes rest o.1 u.1,
)

peers_at-ok :
    (name remote : String) (ids nodes : List String) (gateways : List GatewayEndpoint)
    → All (λ g. bad_endpoint g ≡ false) gateways
    → Pairs OtherGateway gateways
    → All (Unseen ids nodes) gateways
    → (ps : List PeerGateway) × (peers_at name remote ids nodes gateways ≡ ok ps)
unfolding peers_at
peers_at-ok name remote ids nodes [] valid apart unseen = ([], refl)
peers_at-ok name remote ids nodes (g ∷ rest) valid apart unseen =
    let fine : bad_endpoint g ≡ false = valid.0 in
    let (others, e) =
      peers_at-ok name remote (g.id ∷ ids) (g.node_uid ∷ nodes) rest valid.1 apart.1
        (Unseen-cons g ids nodes rest apart.0 unseen.1) in
    (peer name remote g ∷ others, rw (fine, unseen.0.0, unseen.0.1, e) refl)

none_seen : (gateways : List GatewayEndpoint) → All (Unseen [] []) gateways
unfolding contains_text
none_seen [] = tt
none_seen (g ∷ rest) = ((refl, refl), none_seen rest)

peers-ok :
    (by_location : Subnets) (name : String) (bs : List NetworkBinding)
    → All (λ b. IsRegistration b.status.gateways) bs
    → (ps : List PeerGateway) × (peers by_location name bs ≡ ok ps)
unfolding peers
peers-ok by_location name [] h = ([], refl)
peers-ok by_location name (b ∷ bs) h =
    let (others, later) = peers-ok by_location name bs h.1 in
    let (own, read) =
      peers_at-ok name b.spec.location_ref [] [] b.status.gateways h.0.valid h.0.apart
        (none_seen b.status.gateways) in
    elim (Bool-cases
      (b.spec.location_ref == name || is_empty (at b.spec.location_ref by_location))) [
        | inl skip ↦ (others, rw (skip, later) refl)
        | inr taken ↦ (own ++ others, rw (taken, read, later) refl)
      ]

module _ (hashes : Hashes) (v : Vpc) (existing : List NetworkBinding)
    (registrations : All (λ b. IsRegistration b.status.gateways) existing) where
  snapshots-ok :
      (class : NetworkClass) (m : Map Location) (by_location : Subnets) (names ns : List String)
      → (bs : List NetworkBinding) × (snapshots hashes v class existing m by_location names ns
          ≡ ok bs)
  unfolding snapshots
  snapshots-ok class m by_location names [] = ([], refl)
  snapshots-ok class m by_location names (name ∷ ns) =
      let (ps, read) = peers-ok by_location name existing registrations in
      let (others, rest) = snapshots-ok class m by_location names ns in
      (snapshot hashes v class existing m by_location names name ps ∷ others, rw (read, rest) refl)

  -- If the network class of the VPC is registered, every existing binding is its own with valid
  -- registrations of different gateways on different nodes, and its subnets are admitted, then
  -- a plan is made.
  pub build-ok :
      (subnets : List Subnet) (c : Config) (class : NetworkClass)
      → find (class_name v) c.network_classes ≡ some class
      → All (λ b. (b.spec.vpc_ref.uid ≡ v.uid) × (b.spec.vpc_ref.namespace ≡ v.namespace)) existing
      → All (λ s. s.status.vpc_uid ≡ v.uid → IsAdmitted v c s) subnets
      → (bs : List NetworkBinding) × (build hashes v subnets existing c ≡ ok bs)
  unfolding build with_class
  build-ok subnets c class registered own admitted =
      let (m, read) = known-ok v existing [] own in
      let (collected, gathered) = collect-ok hashes v c subnets m [] admitted in
      let names = sort_by text_ltb (keys collected.0) in
      let (bs, result) = snapshots-ok class collected.0 collected.1 names names in
      (bs, rw (registered, with_class, read, gathered, result) refl)
