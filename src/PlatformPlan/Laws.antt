-- ===== src/PlatformPlan/Laws.antt =====
-- What `Build` of internal/platformplan/plan.go gives: one snapshot for every location.
use kube_ovn_global_vpc.Prelude.{
  suc, length, length-sort_by, arith, String, true, false, List, [], ◌∷◌, map, Map, is_empty,
  sort_by, ◌≡◌, ◌↔◌, inl, inr, refl, sym, ap, ◌∙◌, subst, Bool-cases, All, All-In, All-sort_by,
  Some-sort_by, In, here, there, ok, >>=-eq-ok, ok-injective,
}
use kube_ovn_global_vpc.PlatformConfig.{NetworkClass, Location}
use kube_ovn_global_vpc.Binding.{BindingSubnet, RemoteSubnet, PeerGateway, NetworkBinding}
use kube_ovn_global_vpc.PlatformPlan.Types.{Vpc, Subnet}
use kube_ovn_global_vpc.PlatformPlan.Names.{Hashes, binding_name, revision}
use kube_ovn_global_vpc.PlatformPlan.Build.{
  Subnets, at, authorized, remote_subnets, peers, by_uid, by_cidr, by_id,
}
use kube_ovn_global_vpc.PlatformPlan.Snapshots.{spec_of, snapshot, snapshots}
use kube_ovn_global_vpc.PlatformPlan.Attached.{Attached}
use kube_ovn_global_vpc.PlatformPlan.Remote.{
  remote_part, IsRemote, remote_subnets-IsRemote, remote_subnets-complete,
}
use kube_ovn_global_vpc.PlatformPlan.Peers.{IsPeer, peers-IsPeer, IsPeer-In}

abbrev pub place : NetworkBinding → String
place b = b.spec.location_ref

sorted_empty : (xs : List BindingSubnet) → (is_empty xs ≡ true) ↔ (sort_by by_uid xs ≡ [])
unfolding sort_by
sorted_empty [] = ((λ _. refl), λ _. refl)
sorted_empty (x ∷ xs) = (
  (λ h. absurd (cc h)),
  λ h.
      let none_left : suc (length xs) ≡ 0 = sym (length-sort_by by_uid (x ∷ xs)) ∙ ap length h in
      absurd (omega (arith, none_left)),
)

-- the locations with subnets are authorized, and no others
authorized_sound :
    (by_location : Subnets) (names : List String)
    → All (λ k. is_empty (at k by_location) ≡ false) (authorized by_location names)
unfolding authorized
authorized_sound by_location [] = tt
authorized_sound by_location (k ∷ names) =
    let rest = authorized_sound by_location names in
    elim (Bool-cases (is_empty (at k by_location))) [ inl e ↦ rw e rest | inr e ↦ rw e (e, rest) ]

authorized-In :
    (by_location : Subnets) (names : List String) (name : String)
    → In name names
    → is_empty (at name by_location) ≡ false
    → In name (authorized by_location names)
unfolding authorized
authorized-In by_location (k ∷ names) name (here e) h =
    let same : is_empty (at k by_location) ≡ false =
      subst (λ j. is_empty (at j by_location) ≡ false) (sym e) h in
    rw same (here e)
authorized-In by_location (k ∷ names) name (there m) h =
    let rest = authorized-In by_location names name m h in
    elim (Bool-cases (is_empty (at k by_location))) [
      | inl e ↦ rw e rest
      | inr e ↦ rw e (there rest)
    ]
authorized-In by_location [] name m h = elim m [ ]

-- a location with a subnet of the VPC
abbrev pub Active : Hashes → Vpc → List Subnet → String → Type 0
Active hashes v subnets k = (x : BindingSubnet) × Attached hashes v subnets k x

-- A snapshot of the VPC for one location: its lists are exactly what the subnets and the bindings
-- give.
pub record IsSnapshot (hashes : Hashes) (v : Vpc) (subnets : List Subnet)
    (existing : List NetworkBinding) (b : NetworkBinding) : Type 0 where
  pub vpc : b.spec.vpc_ref ≡ record { namespace = v.namespace; name = v.name; uid = v.uid }
  pub identity : b.name ≡ binding_name hashes v.uid (place b)
  pub hashed : b.spec.revision ≡ revision hashes b.spec
  pub attached : (x : BindingSubnet) → In x b.spec.subnets ↔ Attached hashes v subnets (place b) x
  pub tombstone : (b.spec.deleting ≡ true) ↔ (b.spec.subnets ≡ [])
  pub remote :
      (r : RemoteSubnet)
      → In r b.spec.remote_subnets ↔ IsRemote hashes v subnets existing (place b) r
  pub peers :
      (p : PeerGateway) → In p b.spec.peers ↔ IsPeer existing (Active hashes v subnets) (place b) p
  pub authorized : (k : String) → In k b.spec.authorized_locations ↔ Active hashes v subnets k

module _ (hashes : Hashes) (v : Vpc) (class : NetworkClass) (subnets : List Subnet)
    (existing : List NetworkBinding) (locations : Map Location) (by_location : Subnets)
    (names : List String) where
  -- every snapshot is that of its location, and they come in the order of the names
  pub snapshots-each :
      (P : NetworkBinding → Type 0)
      → ((name : String) (ps : List PeerGateway)
          → peers by_location name existing ≡ ok ps
          → P (snapshot hashes v class existing locations by_location names name ps))
      → (ns : List String) {bs : List NetworkBinding}
      → snapshots hashes v class existing locations by_location names ns ≡ ok bs
      → All P bs × (map place bs ≡ ns)
  unfolding snapshots snapshot spec_of
  snapshots-each P f [] h = subst (λ x. All P x × (map place x ≡ [])) (ok-injective h) (tt, refl)
  snapshots-each P f (name ∷ ns) h =
      let (ps, read, h₁) = >>=-eq-ok (peers by_location name existing) _ h in
      let (others, rest, h₂) =
        >>=-eq-ok (snapshots hashes v class existing locations by_location names ns) _ h₁ in
      let (all, order) = snapshots-each P f ns rest in
      subst (λ x. All P x × (map place x ≡ name ∷ ns)) (ok-injective h₂)
        ((f name ps read, all), ap (λ l. name ∷ l) order)

  module _ (sound : (k : String) → All (Attached hashes v subnets k) (at k by_location))
      (complete : (k : String) (x : BindingSubnet)
        → Attached hashes v subnets k x
        → In x (at k by_location) × In k names) where
    acts : (k : String) → (is_empty (at k by_location) ≡ false) ↔ Active hashes v subnets k
    acts k = (
      (λ h. first (at k by_location) (sound k) h),
      λ act. let (x, a) = act in In-filled (at k by_location) x (complete k x a).0,
    )
      where
        first :
            (xs : List BindingSubnet)
            → All (Attached hashes v subnets k) xs
            → is_empty xs ≡ false
            → Active hashes v subnets k
        first [] a h = absurd (cc h)
        first (x ∷ xs) a h = (x, a.0)

        In-filled : (xs : List BindingSubnet) (x : BindingSubnet) → In x xs → is_empty xs ≡ false
        In-filled [] x m = elim m [ ]
        In-filled (y ∷ xs) x m = refl

    Attached-exact :
        (name : String) (x : BindingSubnet)
        → In x (sort_by by_uid (at name by_location)) ↔ Attached hashes v subnets name x
    Attached-exact name x = (
      All-In (Attached hashes v subnets name) x (sort_by by_uid (at name by_location))
          (All-sort_by by_uid (Attached hashes v subnets name) (at name by_location) (sound name)),
      λ a. Some-sort_by by_uid (at name by_location) (complete name x a).0,
    )

    remote_exact :
        (name : String) (r : RemoteSubnet)
        → In r (sort_by by_cidr (remote_subnets existing by_location name names))
          ↔ IsRemote hashes v subnets existing name r
    remote_exact name r = (
      All-In (IsRemote hashes v subnets existing name) r _ (
          All-sort_by by_cidr (IsRemote hashes v subnets existing name)
            (remote_subnets existing by_location name names)
            (remote_subnets-IsRemote hashes v subnets existing by_location name sound names)),
      λ q.
          let (placed, named) = complete r.location_ref q.origin q.attached in
          let e : r.cidr ≡ q.origin.cidr = q.cidr in
          let same : remote_part r.location_ref q.origin ≡ r =
            λ i. record { location_ref = r.location_ref; cidr = (sym e) i } in
          Some-sort_by by_cidr (remote_subnets existing by_location name names) (
            subst (λ z. In z (remote_subnets existing by_location name names)) same
              (remote_subnets-complete hashes v subnets existing by_location name r.location_ref
                q.origin names q.elsewhere q.reached placed named)),
    )

    peers_exact :
        (name : String) (ps : List PeerGateway)
        → peers by_location name existing ≡ ok ps
        → (p : PeerGateway)
        → In p (sort_by by_id ps) ↔ IsPeer existing (Active hashes v subnets) name p
    peers_exact name ps read p = (
      All-In (IsPeer existing (Active hashes v subnets) name) p (sort_by by_id ps) (
          All-sort_by by_id (IsPeer existing (Active hashes v subnets) name) ps (
            peers-IsPeer existing by_location (Active hashes v subnets) acts name existing
              (λ b i. i) read)),
      λ q.
          Some-sort_by by_id ps
            (IsPeer-In existing by_location (Active hashes v subnets) acts name p read q),
    )

    authorized_exact :
        (k : String) → In k (authorized by_location names) ↔ Active hashes v subnets k
    authorized_exact k = (
      (λ m. (acts k).0 (
          All-In (λ j. is_empty (at j by_location) ≡ false) k (authorized by_location names)
            (authorized_sound by_location names) m)),
      λ act. authorized-In by_location names k (complete k act.0 act.1).1 ((acts k).1 act),
    )

    pub snapshot-IsSnapshot :
        (name : String) (ps : List PeerGateway)
        → peers by_location name existing ≡ ok ps
        → IsSnapshot hashes v subnets existing
            (snapshot hashes v class existing locations by_location names name ps)
    unfolding snapshot spec_of revision
    snapshot-IsSnapshot name ps read = record {
      vpc = refl;
      identity = refl;
      hashed = refl;
      attached = Attached-exact name;
      tombstone = sorted_empty (at name by_location);
      remote = remote_exact name;
      peers = peers_exact name ps read;
      authorized = authorized_exact;
    }
