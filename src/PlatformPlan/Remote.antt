-- ===== src/PlatformPlan/Remote.antt =====
-- What a snapshot takes from the other locations.
use kube_ovn_global_vpc.Prelude.{
  String, Bool, true, false, not, ◌||◌, List, [], ◌∷◌, ◌++◌, ◌==◌, text_ne, ◌≡◌, ◌≢◌, ◌⊎◌, inl, inr,
  refl, sym, ap, ◌∙◌, text_eq, subst, Bool-cases, All, All-append, In, here, there, arith,
}
use kube_ovn_global_vpc.Binding.{BindingSubnet, RemoteSubnet, NetworkBinding}
use kube_ovn_global_vpc.PlatformPlan.Types.{Vpc, Subnet}
use kube_ovn_global_vpc.PlatformPlan.Names.{Hashes}
use kube_ovn_global_vpc.PlatformPlan.Build.{Subnets, at, withdrawn, reachable, remote_subnets}
use kube_ovn_global_vpc.PlatformPlan.Attached.{Attached, append_before}

-- a subnet is still to be reached from other locations
abbrev pub Reached : List NetworkBinding → String → BindingSubnet → Type 0
Reached existing remote x =
    (x.deleting ≡ false) ⊎ (withdrawn existing remote x.native_subnet_name ≡ false)

abbrev pub remote_part : String → BindingSubnet → RemoteSubnet
remote_part remote x = record { location_ref = remote; cidr = x.cidr }

pub append_after : {A : Type 0} (xs ys : List A) (x : A) → In x ys → In x (xs ++ ys)
append_after [] ys x m = m
append_after (y ∷ xs) ys x m = there (append_after xs ys x m)

module _ (hashes : Hashes) (v : Vpc) (subnets : List Subnet) (existing : List NetworkBinding) where
  -- a remote subnet of the snapshot of the location `name`
  pub record IsRemote (name : String) (r : RemoteSubnet) : Type 0 where
    pub elsewhere : r.location_ref ≢ name
    pub origin : BindingSubnet
    pub attached : Attached hashes v subnets r.location_ref origin
    pub cidr : r.cidr ≡ origin.cidr
    pub reached : Reached existing r.location_ref origin

  reachable-IsRemote :
      (name remote : String) (xs : List BindingSubnet)
      → remote ≢ name
      → All (Attached hashes v subnets remote) xs
      → All (IsRemote name) (reachable existing remote xs)
  unfolding reachable
  reachable-IsRemote name remote [] other h = tt
  reachable-IsRemote name remote (x ∷ xs) other h =
      let rest = reachable-IsRemote name remote xs other h.1 in
      elim (Bool-cases (not x.deleting || not (withdrawn existing remote x.native_subnet_name))) [
        | inr gone ↦ rw gone rest
        | inl kept ↦ rw kept (
          record {
            elsewhere = other;
            origin = x;
            attached = h.0;
            cidr = refl;
            reached = reach x.deleting (withdrawn existing remote x.native_subnet_name) kept;
          },
          rest,
        )
      ]
    where
      reach : (d w : Bool) → (not d || not w) ≡ true → (d ≡ false) ⊎ (w ≡ false)
      reach true true h = absurd (cc h)
      reach true false h = inr refl
      reach false w h = inl refl

  pub remote_subnets-IsRemote :
      (by_location : Subnets) (name : String)
      → ((k : String) → All (Attached hashes v subnets k) (at k by_location))
      → (names : List String) → All (IsRemote name) (remote_subnets existing by_location name names)
  unfolding remote_subnets
  remote_subnets-IsRemote by_location name h [] = tt
  remote_subnets-IsRemote by_location name h (remote ∷ rest) =
      let others = remote_subnets-IsRemote by_location name h rest in
      elim (Bool-cases (remote == name)) [
        | inl same ↦ rw same others
        | inr other ↦ rw other (
            All-append (IsRemote name) (reachable existing remote (at remote by_location)) _
              (reachable-IsRemote name remote (at remote by_location) (text_ne _ _ other)
                (h remote))
              others)
      ]

  reachable-complete :
      (remote : String) (x : BindingSubnet) (xs : List BindingSubnet)
      → Reached existing remote x
      → In x xs
      → In (remote_part remote x) (reachable existing remote xs)
  unfolding reachable
  reachable-complete remote x (y ∷ xs) r (here e) =
      let kept : (not y.deleting || not (withdrawn existing remote y.native_subnet_name)) ≡ true =
        subst (λ z. (not z.deleting || not (withdrawn existing remote z.native_subnet_name)) ≡ true)
          (sym e) (test x.deleting (withdrawn existing remote x.native_subnet_name) r) in
      rw kept (here (ap (remote_part remote) e))
    where
      test : (d w : Bool) → (d ≡ false) ⊎ (w ≡ false) → (not d || not w) ≡ true
      test d w (inl e) = ground (arith, e)
      test d w (inr e) = ground (arith, e)
  reachable-complete remote x (y ∷ xs) r (there m) =
      let rest = reachable-complete remote x xs r m in
      elim (Bool-cases (not y.deleting || not (withdrawn existing remote y.native_subnet_name))) [
        | inl kept ↦ rw kept (there rest)
        | inr gone ↦ rw gone rest
      ]
  reachable-complete remote x [] r m = elim m [ ]

  pub remote_subnets-complete :
      (by_location : Subnets) (name remote : String) (x : BindingSubnet) (names : List String)
      → remote ≢ name
      → Reached existing remote x
      → In x (at remote by_location)
      → In remote names
      → In (remote_part remote x) (remote_subnets existing by_location name names)
  unfolding remote_subnets
  remote_subnets-complete by_location name remote x (k ∷ names) other r m (here e) =
      elim (Bool-cases (k == name)) [
        | inl same ↦ absurd (other (sym e ∙ text_eq _ _ same))
        | inr differ ↦ rw differ (
            append_before (reachable existing k (at k by_location)) _ (remote_part remote x) (
              subst (λ j. In (remote_part remote x) (reachable existing j (at j by_location)))
                (sym e) (reachable-complete remote x (at remote by_location) r m)))
      ]
  remote_subnets-complete by_location name remote x (k ∷ names) other r m (there i) =
      let rest = remote_subnets-complete by_location name remote x names other r m i in
      elim (Bool-cases (k == name)) [
        | inl same ↦ rw same rest
        | inr differ ↦ rw differ (append_after (reachable existing k (at k by_location)) _ _ rest)
      ]
  remote_subnets-complete by_location name remote x [] other r m i = elim i [ ]
