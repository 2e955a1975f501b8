-- ===== src/Examples/Locks.antt =====
-- Two tenants at the lock of a domain.
use kube_ovn_global_vpc.Prelude.{
  String, true, false, none, [], ◌∷◌, ok, err, invalid, not_found, already_exists, All, text_at,
  ◌≡◌, ◌≢◌, refl, eq_iff, arith,
}
use kube_ovn_global_vpc.Kube.Client.{ConfigMap, Ensures, done}
use kube_ovn_global_vpc.DomainGate.{
  Gate, owner, holder_of, plan_hash_of, held_data, acquire_from, acquire, release_from, release,
  holder_from, holder, domain_label,
}
use kube_ovn_global_vpc.DomainGate.Laws.{Respects, HeldBy, Acquired}
use kube_ovn_global_vpc.DomainGate.Exclusion.{acquire-Respects, release-Respects}
use kube_ovn_global_vpc.DomainGate.System.{
  Client, acquiring, Run, stay, next, starts_acquire, acquire_call, leaves, Waits, held-stays,
}
use kube_ovn_global_vpc.Examples.Api.{
  World, stored, store, creation, replacement, api, api-IsServer, run,
}

abbrev gate : Gate
gate = record { namespace = "global-vpc-system"; lock_name = "gvpc-domain-1"; domain = "dc" }

-- the first tenant gets the lock
abbrev first_lock : ConfigMap
first_lock = record {
  namespace = "global-vpc-system";
  name = "gvpc-domain-1";
  uid = "uid-gvpc-domain-1";
  resource_version = "1";
  labels = (domain_label, "dc") ∷ [];
  annotations = [];
  immutable = none;
  values = held_data "vpc-a" "plan-a";
}

abbrev locked : World
locked = first_lock ∷ []

acquire_first : run (acquire gate "vpc-a" "plan-a") [] ≡ (ok true, locked)
unfolding run acquire acquire_from creation stored store
acquire_first = refl

-- the second does not, until the first has released it
acquire_second : run (acquire gate "vpc-b" "plan-b") locked ≡ (ok false, locked)
unfolding run acquire acquire_from stored owner holder_of text_at
acquire_second = refl

acquire_released :
    (run (acquire gate "vpc-b" "plan-b") (run (release gate "vpc-a") locked).1).0 ≡ ok true
unfolding run acquire acquire_from release release_from replacement stored store owner holder_of
    text_at
acquire_released = refl

holder_first : (run (holder gate) locked).0 ≡ ok "vpc-a"
unfolding run holder holder_from stored owner holder_of text_at
holder_first = refl

acquire-Respects_example :
    Ensures api
      (Respects api api-IsServer gate "vpc-b")
      (Acquired api api-IsServer gate "vpc-b" "plan-b")
      (acquire gate "vpc-b" "plan-b")
      locked
acquire-Respects_example = acquire-Respects api api-IsServer gate "vpc-b" "plan-b" locked

release-Respects_example :
    Ensures api
      (Respects api api-IsServer gate "vpc-a")
      (λ r w. r ≡ ok tt → HeldBy api api-IsServer gate "vpc-a" "" "" w)
      (release gate "vpc-a")
      locked
release-Respects_example = release-Respects api api-IsServer gate "vpc-a" locked

first_holds : HeldBy api api-IsServer gate "vpc-a" "vpc-a" "plan-a" locked
unfolding stored owner holder_of plan_hash_of text_at
first_holds = record {
  lock = first_lock;
  present = refl;
  of_domain = refl;
  held = refl;
  of_plan = refl;
}

other_named : ◌≢◌ {A = String} "vpc-b" "vpc-a"
other_named e = ground (arith, eq_iff "vpc-b" "vpc-a")

some_name : ◌≢◌ {A = String} "vpc-a" ""
some_name e = ground (arith, eq_iff "vpc-a" "")

-- The second tenant has read that there is no lock before the first one creates it.
abbrev late : Client
late = acquiring "vpc-b" "plan-b" (acquire_from gate "vpc-b" "plan-b" (err not_found))

first_runs : Run api api-IsServer gate (λ other. Unit) [] [] locked (late ∷ [])
unfolding acquire acquire_from creation stored store
first_runs = next (starts_acquire "vpc-b" "plan-b" tt) (
    next (acquire_call "vpc-b" "plan-b" _ _ (err not_found) refl) (
      next (starts_acquire "vpc-a" "plan-a" tt) (
        next (acquire_call "vpc-a" "plan-a" _ _ (err not_found) refl) (
          next (acquire_call "vpc-a" "plan-a" _ _ (ok first_lock) refl)
            (next (leaves (acquiring "vpc-a" "plan-a" (done (ok true)))) stay)))))

-- its own creation then fails
late_fails :
    Run api api-IsServer gate
      (λ other. other ≢ "vpc-a")
      locked
      (late ∷ [])
      locked
      (acquiring "vpc-b" "plan-b" (done (err (invalid "domain lock creation failed"))) ∷ [])
unfolding acquire acquire_from creation stored store
late_fails = next (acquire_call "vpc-b" "plan-b" _ _ (err already_exists) refl) stay

late-Waits : All (Waits api api-IsServer gate "vpc-a" "plan-a" some_name) (late ∷ [])
unfolding acquire_from
late-Waits = ((other_named, refl), tt)

held-stays_example :
    HeldBy api api-IsServer gate "vpc-a" "vpc-a" "plan-a" locked
    × All
        (Waits api api-IsServer gate "vpc-a" "plan-a" some_name)
        (acquiring "vpc-b" "plan-b" (done (err (invalid "domain lock creation failed"))) ∷ [])
held-stays_example =
    held-stays api api-IsServer gate "vpc-a" "plan-a" some_name first_runs first_holds late-Waits
      late_fails
