-- ===== src/PlatformPlan/Attached.antt =====
-- What the loops over the bindings and the subnets collect.
use kube_ovn_global_vpc.Prelude.{
  String, not, ◌||◌, List, [], ◌∷◌, ◌++◌, Map, put, find-put, keys, put-key, put-other_key,
  put-different, ◌==◌, text_eq, text_ne, eq_refl, ◌≡◌, ◌≢◌, inl, inr, refl, sym, ◌∙◌, subst,
  Bool-cases, All, In, here, there, Pairs, All-append, ok, reject-eq-ok, >>=-eq-ok, ok-injective,
  if◌then◌else◌,
}
use kube_ovn_global_vpc.Netip.Prefix.{Prefix}
use kube_ovn_global_vpc.SiteConfig.Prefix.{prefix}
use kube_ovn_global_vpc.PlatformConfig.{Location, Config, location}
use kube_ovn_global_vpc.PlatformConfig.Lookup.{location_sound}
use kube_ovn_global_vpc.Binding.{BindingSubnet, NetworkBinding}
use kube_ovn_global_vpc.PlatformPlan.Types.{Vpc, Subnet}
use kube_ovn_global_vpc.PlatformPlan.Names.{Hashes}
use kube_ovn_global_vpc.PlatformPlan.Build.{
  location_of, known, Subnets, at, binding_subnet, collect,
}

abbrev pub Different : List String → Type 0
Different = Pairs (λ s t. s ≢ t)

-- the loop over the bindings keeps the locations and adds those of the bindings
pub known-keys :
    (v : Vpc) (existing : List NetworkBinding) (m : Map Location) {last : Map Location}
    → known v existing m ≡ ok last
    → All (λ b. In b.spec.location_ref (keys last)) existing
      × ((k : String) → In k (keys m) → In k (keys last))
      × (Different (keys m) → Different (keys last))
unfolding known
known-keys v [] m h =
    subst
      (λ x.
        Unit
        × ((k : String) → In k (keys m) → In k (keys x))
        × (Different (keys m) → Different (keys x)))
      (ok-injective h) (tt, (λ k i. i), λ d. d)
known-keys v (b ∷ rest) m h =
    let (_, h₁) =
      reject-eq-ok
        (not (b.spec.vpc_ref.uid == v.uid) || not (b.spec.vpc_ref.namespace == v.namespace)) _ _
        h in
    let k = b.spec.location_ref in
    let (all, keeps, different) = known-keys v rest (put k (location_of b) m) h₁ in
    (
      (keeps k (put-key k (location_of b) m), all),
      (λ j i. keeps j (put-other_key k j (location_of b) m i)),
      λ d. different (put-different k (location_of b) m d),
    )

-- a subnet of the VPC at a location, and its part in the snapshot
pub record Attached (hashes : Hashes) (v : Vpc) (subnets : List Subnet) (name : String)
    (x : BindingSubnet) : Type 0 where
  pub subnet : Subnet
  pub member : In subnet subnets
  pub of_vpc : subnet.status.vpc_uid ≡ v.uid
  pub at_location : subnet.spec.location_ref ≡ name
  pub network : Prefix
  pub parsed : prefix subnet.spec.cidr ≡ ok network
  pub part : binding_subnet hashes subnet network ≡ x

at-put :
    (k : String) (x : List BindingSubnet) (m : Subnets) (j : String)
    → at j (put k x m) ≡ (if k == j then x else at j m)
at-put k x m j = elim (Bool-cases (k == j)) [
  | inl e ↦ rw (find-put, e) refl
  | inr e ↦ rw (find-put, e) refl
]

append_last : {A : Type 0} (xs : List A) (x : A) → In x (xs ++ x ∷ [])
append_last [] x = here refl
append_last (y ∷ xs) x = there (append_last xs x)

pub append_before : {A : Type 0} (xs ys : List A) (x : A) → In x xs → In x (xs ++ ys)
append_before (y ∷ xs) ys x (here e) = here e
append_before (y ∷ xs) ys x (there m) = there (append_before xs ys x m)
append_before [] ys x m = elim m [ ]

module _ (hashes : Hashes) (v : Vpc) (c : Config) (subnets : List Subnet) where
  -- where a subnet of the VPC has gone
  pub record Placed (locations : Map Location) (by_location : Subnets) (s : Subnet) : Type 0 where
    pub network : Prefix
    pub parsed : prefix s.spec.cidr ≡ ok network
    pub placed : In (binding_subnet hashes s network) (at s.spec.location_ref by_location)
    pub located : In s.spec.location_ref (keys locations)

  -- what the loop does with the subnets that are left
  pub record Collects (rest : List Subnet) (m : Map Location) (b : Subnets)
      (last : Map Location × Subnets) : Type 0 where
    pub keeps_key : (k : String) → In k (keys m) → In k (keys last.0)
    pub different : Different (keys m) → Different (keys last.0)
    pub sound :
        ((k : String) → All (Attached hashes v subnets k) (at k b))
        → (k : String) → All (Attached hashes v subnets k) (at k last.1)
    pub keeps : (k : String) (x : BindingSubnet) → In x (at k b) → In x (at k last.1)
    pub places : All (λ s. s.status.vpc_uid ≡ v.uid → Placed last.0 last.1 s) rest

  -- one more subnet
  module _ (s : Subnet) (rest : List Subnet) (m : Map Location) (b : Subnets) (l : Location)
      (p : Prefix) (member : In s subnets) (of_vpc : s.status.vpc_uid ≡ v.uid)
      (name : l.name ≡ s.spec.location_ref) (parsed : prefix s.spec.cidr ≡ ok p) where
    abbrev more : Subnets
    more = put l.name (at l.name b ++ binding_subnet hashes s p ∷ []) b

    more_sound :
        ((k : String) → All (Attached hashes v subnets k) (at k b))
        → (k : String) → All (Attached hashes v subnets k) (at k more)
    more_sound h k = rw at-put (elim (Bool-cases (l.name == k)) [
      | inl e ↦ rw e (
          All-append (Attached hashes v subnets k) (at l.name b) (binding_subnet hashes s p ∷ [])
            (subst (λ j. All (Attached hashes v subnets k) (at j b)) (sym (text_eq _ _ e)) (h k))
            (
              record {
                subnet = s;
                member = member;
                of_vpc = of_vpc;
                at_location = sym name ∙ text_eq _ _ e;
                network = p;
                parsed = parsed;
                part = refl;
              },
              tt,
            ))
      | inr e ↦ rw e (h k)
    ])

    more-keeps : (k : String) (x : BindingSubnet) → In x (at k b) → In x (at k more)
    more-keeps k x i = rw at-put (elim (Bool-cases (l.name == k)) [
      | inl e ↦
          rw e
            (append_before (at l.name b) _ x (subst (λ j. In x (at j b)) (sym (text_eq _ _ e)) i))
      | inr e ↦ rw e i
    ])

    more-places : In (binding_subnet hashes s p) (at s.spec.location_ref more)
    more-places =
        subst (λ j. In (binding_subnet hashes s p) (at j more)) name
          (rw (at-put, eq_refl) (append_last (at l.name b) (binding_subnet hashes s p)))

    more-Collects :
        {last : Map Location × Subnets}
        → Collects rest (put l.name l m) more last
        → Collects (s ∷ rest) m b last
    more-Collects r = record {
      keeps_key = λ k i. r.keeps_key k (put-other_key l.name k l m i);
      different = λ d. r.different (put-different l.name l m d);
      sound = λ h. r.sound (more_sound h);
      keeps = λ k x i. r.keeps k x (more-keeps k x i);
      places = (
        λ _. record {
          network = p;
          parsed = parsed;
          placed = r.keeps s.spec.location_ref (binding_subnet hashes s p) more-places;
          located =
              r.keeps_key s.spec.location_ref
                (subst (λ j. In j (keys (put l.name l m))) name (put-key l.name l m));
        },
        r.places,
      );
    }

  pub collect-Collects :
      (rest : List Subnet)
      → ((s : Subnet) → In s rest → In s subnets)
      → (m : Map Location) (b : Subnets) {last : Map Location × Subnets}
      → collect hashes v c rest m b ≡ ok last
      → Collects rest m b last
  unfolding collect
  collect-Collects [] within m b h = subst (Collects [] m b) (ok-injective h) (record {
    keeps_key = λ k i. i;
    different = λ d. d;
    sound = λ a. a;
    keeps = λ k x i. i;
    places = tt;
  })
  collect-Collects (s ∷ rest) within m b h = elim (Bool-cases (s.status.vpc_uid == v.uid)) [
    | inr other ↦
        let r = collect-Collects rest (λ t i. within t (there i)) m b (rw other at h) in
        record {
          keeps_key = r.keeps_key;
          different = r.different;
          sound = r.sound;
          keeps = r.keeps;
          places = ((λ e. absurd (text_ne _ _ other e)), r.places);
        }
    | inl of_vpc ↦
        let (l, found, h₁) =
          >>=-eq-ok (location s.spec.location_ref s.namespace c.locations) _ (rw of_vpc at h) in
        let (p, parsed, h₂) = >>=-eq-ok (prefix s.spec.cidr) _ h₁ in
        let (_, name, _) = location_sound s.spec.location_ref s.namespace c.locations found in
        more-Collects s rest m b l p (within s (here refl)) (text_eq _ _ of_vpc) name parsed
          (collect-Collects rest (λ t i. within t (there i)) _ _ h₂)
  ]
