-- ===== src/PlatformPlan/Complete.antt =====
-- `Build` forgets no location and no subnet.
use kube_ovn_global_vpc.Prelude.{
  keys, String, List, [], ◌∷◌, map, Map, find, text_ltb, sort_by, ◌≡◌, ◌≢◌, sym, subst, Option,
  none, some, All, All-map, In, Some, Some-map, here, there, Pairs, Pairs-sort_by, Some-sort_by, ok,
  >>=-eq-ok, All-In, ok-injective, ap, ◌∙◌,
}
use kube_ovn_global_vpc.Netip.Prefix.{Prefix}
use kube_ovn_global_vpc.SiteConfig.Prefix.{prefix}
use kube_ovn_global_vpc.PlatformConfig.{NetworkClass, Location, Config}
use kube_ovn_global_vpc.Binding.{BindingSubnet, NetworkBinding}
use kube_ovn_global_vpc.PlatformPlan.Types.{Vpc, Subnet}
use kube_ovn_global_vpc.PlatformPlan.Names.{Hashes}
use kube_ovn_global_vpc.PlatformPlan.Build.{
  known, Subnets, at, binding_subnet, collect, by_uid, by_cidr,
}
use kube_ovn_global_vpc.PlatformPlan.Snapshots.{spec_of, snapshot, snapshots, with_class, build}
use kube_ovn_global_vpc.PlatformPlan.Attached.{
  Different, known-keys, Attached, Placed, Collects, collect-Collects,
}
use kube_ovn_global_vpc.PlatformPlan.Remote.{Reached, remote_part, remote_subnets-complete}
use kube_ovn_global_vpc.PlatformPlan.Laws.{place, IsSnapshot, snapshots-each, snapshot-IsSnapshot}

map-Some :
    (bs : List NetworkBinding) (k : String) → In k (map place bs) → Some (λ b. place b ≡ k) bs
map-Some (b ∷ bs) k (here e) = here e
map-Some (b ∷ bs) k (there m) = there (map-Some bs k m)
map-Some [] k m = elim m [ ]

map-All :
    (P : String → Type 0) (bs : List NetworkBinding)
    → All P (map place bs)
    → All (λ b. P (place b)) bs
map-All P [] h = tt
map-All P (b ∷ bs) h = (h.0, map-All P bs h.1)

map-Pairs :
    (bs : List NetworkBinding) → Different (map place bs) → Pairs (λ a b. place a ≢ place b) bs
map-Pairs [] h = tt
map-Pairs (b ∷ bs) h = (map-All (λ k. place b ≢ k) bs h.0, map-Pairs bs h.1)

both :
    {P Q : NetworkBinding → Type 0} (bs : List NetworkBinding)
    → All P bs
    → Some Q bs
    → Some (λ b. P b × Q b) bs
both (b ∷ bs) h (here q) = here (h.0, q)
both (b ∷ bs) h (there m) = there (both bs h.1 m)
both [] h m = elim m [ ]

-- What the plan does with a subnet of the VPC: the snapshot of its location has it, and every other
-- one reaches it unless it is deleted and withdrawn.
pub record Delivered (hashes : Hashes) (existing : List NetworkBinding) (bs : List NetworkBinding)
    (s : Subnet) : Type 0 where
  pub network : Prefix
  pub parsed : prefix s.spec.cidr ≡ ok network
  pub own :
      Some
        (λ b. In (binding_subnet hashes s network) b.spec.subnets × (place b ≡ s.spec.location_ref))
        bs
  pub elsewhere :
      Reached existing s.spec.location_ref (binding_subnet hashes s network)
      → All
          (λ b.
            s.spec.location_ref ≢ place b
            → In
                (remote_part s.spec.location_ref (binding_subnet hashes s network))
                b.spec.remote_subnets)
          bs

-- the steps of an accepted plan
record Steps (hashes : Hashes) (v : Vpc) (subnets : List Subnet) (existing : List NetworkBinding)
    (c : Config) (bs : List NetworkBinding) : Type 0 where
  pub class : NetworkClass
  pub collected : Map Location × Subnets
  pub sound : (k : String) → All (Attached hashes v subnets k) (at k collected.1)
  pub known_names : All (λ b. In (place b) (sort_by text_ltb (keys collected.0))) existing
  pub different : Different (sort_by text_ltb (keys collected.0))
  pub places :
      All
        (λ s. s.status.vpc_uid ≡ v.uid → Placed hashes v c subnets collected.0 collected.1 s)
        subnets
  pub result :
      snapshots hashes v class existing collected.0 collected.1
        (sort_by text_ltb (keys collected.0))
        (sort_by text_ltb (keys collected.0))
      ≡ ok bs

module _ (hashes : Hashes) (v : Vpc) (subnets : List Subnet) (existing : List NetworkBinding)
    (c : Config) {bs : List NetworkBinding} where
  with_class-Steps :
      (class : Option NetworkClass)
      → with_class hashes v subnets existing c class ≡ ok bs
      → Steps hashes v subnets existing c bs
  unfolding with_class
  with_class-Steps none h = absurd (cc h)
  with_class-Steps (some class) h =
      let (m, read, h₁) = >>=-eq-ok (known v existing []) _ h in
      let (collected, gathered, h₂) = >>=-eq-ok (collect hashes v c subnets m []) _ h₁ in
      let (all, _, apart) = known-keys v existing [] read in
      let r : Collects hashes v c subnets subnets m [] collected =
        collect-Collects hashes v c subnets subnets (λ s i. i) m [] gathered in
      record {
        class = class;
        collected = collected;
        sound = r.sound (λ k. unfold find in tt);
        known_names =
            All-map (λ b i. Some-sort_by text_ltb (keys collected.0) (r.keeps_key (place b) i))
              existing all;
        different =
            Pairs-sort_by text_ltb (λ s t. s ≢ t) (λ s t d e. d (sym e)) (keys collected.0)
              (r.different (apart tt));
        places = r.places;
        result = h₂;
      }

  module _ (s : Steps hashes v subnets existing c bs) where
    abbrev names : List String
    names = sort_by text_ltb (keys s.collected.0)

    order : map place bs ≡ names
    order =
        (snapshots-each hashes v s.class subnets existing s.collected.0 s.collected.1 names
          (λ b. Unit) (λ name ps e. tt) names s.result).1

    snapshots_here : (k : String) → In k names → Some (λ b. place b ≡ k) bs
    snapshots_here k i = map-Some bs k (subst (λ ks. In k ks) (sym order) i)

    own_subnets :
        (x : BindingSubnet)
        → All (λ b. (k : String) → place b ≡ k → In x (at k s.collected.1) → In x b.spec.subnets) bs
    unfolding snapshot spec_of
    own_subnets x =
        (snapshots-each hashes v s.class subnets existing s.collected.0 s.collected.1 names
          (λ b. (k : String) → place b ≡ k → In x (at k s.collected.1) → In x b.spec.subnets)
          (λ name ps e k same i.
            Some-sort_by by_uid (at name s.collected.1)
              (subst (λ j. In x (at j s.collected.1)) (sym same) i))
          names s.result).0

    remote_parts :
        (k : String) (x : BindingSubnet)
        → In k names
        → In x (at k s.collected.1)
        → Reached existing k x
        → All (λ b. k ≢ place b → In (remote_part k x) b.spec.remote_subnets) bs
    unfolding snapshot spec_of
    remote_parts k x known_name i r =
        (snapshots-each hashes v s.class subnets existing s.collected.0 s.collected.1 names
          (λ b. k ≢ place b → In (remote_part k x) b.spec.remote_subnets)
          (λ name ps e other. Some-sort_by by_cidr _ (
            remote_subnets-complete hashes v subnets existing s.collected.1 name k x names other r i
              known_name))
          names s.result).0

    delivered :
        (t : Subnet)
        → Placed hashes v c subnets s.collected.0 s.collected.1 t
        → Delivered hashes existing bs t
    delivered t p =
        let x = binding_subnet hashes t p.network in
        let known_name : In t.spec.location_ref names =
          Some-sort_by text_ltb (keys s.collected.0) p.located in
        record {
          network = p.network;
          parsed = p.parsed;
          own =
              Some-map (λ b q. (q.0 t.spec.location_ref q.1 p.placed, q.1)) bs
                (both bs (own_subnets x) (snapshots_here t.spec.location_ref known_name));
          elsewhere = remote_parts t.spec.location_ref x known_name p.placed;
        }

    -- a subnet of the VPC stands at its location, which is one of the names
    attached_here :
        (k : String) (x : BindingSubnet)
        → Attached hashes v subnets k x
        → In x (at k s.collected.1) × In k names
    attached_here k x a =
        let p : Placed hashes v c subnets s.collected.0 s.collected.1 a.subnet =
          All-In
            (λ t.
              t.status.vpc_uid ≡ v.uid → Placed hashes v c subnets s.collected.0 s.collected.1 t)
            a.subnet subnets s.places a.member a.of_vpc in
        let network : p.network ≡ a.network = ok-injective (sym p.parsed ∙ a.parsed) in
        let part : binding_subnet hashes a.subnet p.network ≡ x =
          ap (binding_subnet hashes a.subnet) network ∙ a.part in
        (
          subst (λ j. In x (at j s.collected.1)) a.at_location
              (subst (λ y. In y (at a.subnet.spec.location_ref s.collected.1)) part p.placed),
          subst (λ j. In j names) a.at_location
              (Some-sort_by text_ltb (keys s.collected.0) p.located),
        )

  -- Every snapshot of an accepted plan has the VPC, the name and the revision of its location, and is
  -- a tombstone exactly when it has no subnets. Its subnets are exactly those attached to the VPC at
  -- its location; its remote subnets exactly those attached elsewhere that are alive or not
  -- withdrawn; its peers exactly the gateways that the existing bindings of other locations with
  -- subnets register, all of them valid; its authorized locations exactly those with subnets. No
  -- two snapshots are for one location.
  pub build-IsSnapshot :
      build hashes v subnets existing c ≡ ok bs
      → All (IsSnapshot hashes v subnets existing) bs × Pairs (λ a b. place a ≢ place b) bs
  unfolding build
  build-IsSnapshot h =
      let s : Steps hashes v subnets existing c bs = with_class-Steps _ h in
      let ns = sort_by text_ltb (keys s.collected.0) in
      let (all, order) =
        snapshots-each hashes v s.class subnets existing s.collected.0 s.collected.1 ns
          (IsSnapshot hashes v subnets existing)
          (snapshot-IsSnapshot hashes v s.class subnets existing s.collected.0 s.collected.1 ns
            s.sound (attached_here s))
          ns s.result in
      (all, map-Pairs bs (subst Different (sym order) s.different))

  -- An accepted plan has a snapshot for the location of every existing binding, so that absence
  -- never means deletion. Every subnet of the VPC has a valid network and stands in the snapshot of its location, and all the
  -- others reach it unless it is deleted and its location has withdrawn it.
  pub build_complete :
      build hashes v subnets existing c ≡ ok bs
      → All (λ e. Some (λ b. place b ≡ place e) bs) existing
        × All (λ t. t.status.vpc_uid ≡ v.uid → Delivered hashes existing bs t) subnets
  unfolding build
  build_complete h =
      let s : Steps hashes v subnets existing c bs = with_class-Steps _ h in
      (
        All-map (λ e i. snapshots_here s (place e) i) existing s.known_names,
        All-map (λ t f same. delivered s t (f same)) subnets s.places,
      )
