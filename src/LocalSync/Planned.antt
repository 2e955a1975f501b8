-- ===== src/LocalSync/Planned.antt =====
-- The snapshots that the planner of the authority makes, as a location receives them.
use kube_ovn_global_vpc.Prelude.{
  List, true, ◌==◌, eq_iff, ◌≡◌, refl, sym, ◌∙◌, ap, All, All-map, ok, err, not_found,
}
use kube_ovn_global_vpc.LocalConfig.{Config}
use kube_ovn_global_vpc.PlatformConfig
use kube_ovn_global_vpc.Binding.{NetworkBinding}
use kube_ovn_global_vpc.PlatformPlan.Types.{Vpc, Subnet}
use kube_ovn_global_vpc.PlatformPlan.Names.{Hashes, binding_name, revision}
use kube_ovn_global_vpc.PlatformPlan.Snapshots.{build}
use kube_ovn_global_vpc.PlatformPlan.Laws.{IsSnapshot}
use kube_ovn_global_vpc.PlatformPlan.Complete.{build-IsSnapshot}
use kube_ovn_global_vpc.LocalSync.{creates, new_local, on_local, decide}

module _ (hashes : Hashes) (v : Vpc) (subnets : List Subnet) (existing : List NetworkBinding)
    (c : Config) where
  IsSnapshot-created :
      (b : NetworkBinding)
      → IsSnapshot hashes v subnets existing b
      → b.spec.location_ref ≡ c.location_ref
      → decide hashes c b (err not_found) ≡ ok (creates (new_local c b))
  unfolding decide on_local
  IsSnapshot-created b s here =
      let place : (b.spec.location_ref == c.location_ref) ≡ true = (eq_iff _ _).1 here in
      let name : (b.name == binding_name hashes b.spec.vpc_ref.uid c.location_ref) ≡ true =
        (eq_iff _ _).1 (
          s.identity
          ∙ ap (λ u. binding_name hashes u b.spec.location_ref) (ap (λ r. r.uid) (sym s.vpc))
          ∙ ap (binding_name hashes b.spec.vpc_ref.uid) here) in
      let hashed : (b.spec.revision == revision hashes b.spec) ≡ true = (eq_iff _ _).1 s.hashed in
      rw (place, name, hashed) refl

  -- A snapshot of an accepted plan passes the checks of the synchronization at its location, which
  -- creates it where it is not known.
  pub build-created :
      (p : PlatformConfig.Config) {bs : List NetworkBinding}
      → build hashes v subnets existing p ≡ ok bs
      → All
          (λ b.
            b.spec.location_ref ≡ c.location_ref
            → decide hashes c b (err not_found) ≡ ok (creates (new_local c b)))
          bs
  build-created p {bs} h =
      All-map IsSnapshot-created bs (build-IsSnapshot hashes v subnets existing p h).0
