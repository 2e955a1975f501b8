-- ===== src/Examples/Sync.antt =====
-- A snapshot of the authority that a location has accepted.
use native.Mathlib.Omega.{arith}
use kube_ovn_global_vpc.Prelude.{true, some, [], ◌∷◌, text_at, ok, ◌≡◌, refl}
use kube_ovn_global_vpc.Netip.Parse.{number_text, parse_uint}
use kube_ovn_global_vpc.Binding.{NetworkBinding}
use kube_ovn_global_vpc.PlatformPlan.Names.{Hashes, binding_name, revision}
use kube_ovn_global_vpc.LocalSync.{
  parse_int, updates, keeps, taken_over, by_generation, with_local, on_local, decide,
}
use kube_ovn_global_vpc.LocalSync.Laws.{Decided, decide-Decided}
use kube_ovn_global_vpc.LocalSync.Settled.{by_update, decide-settled}
use kube_ovn_global_vpc.LocalSync.Steps.{updated, stay, step, Later, Steps-Later}
use kube_ovn_global_vpc.Examples.Allocations.{binding, config}

abbrev hashes : Hashes
hashes = record { short = λ _. "1"; spec_hash = λ _. "r" }

-- the snapshot at the authority, at its fifth generation
abbrev remote : NetworkBinding
remote = record binding {
  uid = "s1";
  generation = 5;
  spec = record binding.spec { deleting = true };
}

-- the snapshot as it was accepted at the third generation
abbrev accepted : NetworkBinding
accepted = record binding {
  annotations =
      ("platform.globalvpc.io/source-binding-uid", "s1")
      ∷ ("platform.globalvpc.io/source-generation", "3")
      ∷ [];
}

decided : decide hashes config remote (ok accepted) ≡ ok (updates (taken_over remote accepted))
unfolding decide binding_name revision on_local with_local by_generation parse_int parse_uint
    taken_over number_text text_at
decided = refl

decide-Decided_example : Decided remote accepted (updates (taken_over remote accepted))
decide-Decided_example = decide-Decided hashes config remote accepted decided

Steps-Later_example : Later accepted (some (taken_over remote accepted))
Steps-Later_example = Steps-Later hashes config accepted (
    step
      (updated remote (omega arith) decided
        (record { spec = refl; source = refl; generation = refl }))
      stay)

decide-settled_example :
    decide hashes config remote (ok (taken_over remote accepted))
    ≡ ok (keeps (taken_over remote accepted))
decide-settled_example =
    decide-settled hashes config remote (omega arith) (ok accepted) (taken_over remote accepted)
      (taken_over remote accepted) decided by_update
      (record { spec = refl; source = refl; generation = refl })
