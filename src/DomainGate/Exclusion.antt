-- ===== src/DomainGate/Exclusion.antt =====
-- The lock excludes: no run of `Acquire` or `Release`, interrupted by whatever others do, takes the
-- lock from another holder.
use kube_ovn_global_vpc.Prelude.{
  String, some, ◌≡◌, sym, subst, Result, ok, err, invalid, not_found, already_exists, conflict,
  unavailable,
}
use kube_ovn_global_vpc.Kube.Client.{ConfigMap, get, Server, IsServer, Ensures}
use kube_ovn_global_vpc.DomainGate.{Gate, acquire_from, acquire, release_from, release}
use kube_ovn_global_vpc.DomainGate.Laws.{
  Respects, HeldBy, same-Respects, Acquired, create-Ensures, acquire_from-Ensures,
  release_from-Ensures,
}

module _ (s : Server) (laws : IsServer s) (g : Gate) (uid : String) where
  read-Respects :
      (w₁ w₂ : s.World) (answer : Result ConfigMap)
      → s.Answers (get g.namespace g.lock_name) w₁ answer w₂
      → Respects s laws g uid w₁ w₂
  read-Respects w₁ w₂ answer h =
      same-Respects s laws g uid w₁ w₂ (laws.read_only g.namespace g.lock_name w₁ w₂ answer h)

  read_present :
      (w₁ w₂ : s.World) (cm : ConfigMap)
      → s.Answers (get g.namespace g.lock_name) w₁ (ok cm) w₂
      → (s.stored g.namespace g.lock_name w₂ ≡ some cm)
        × (cm.namespace ≡ g.namespace)
        × (cm.name ≡ g.lock_name)
  read_present w₁ w₂ cm h =
      let same = laws.read_only g.namespace g.lock_name w₁ w₂ (ok cm) h in
      subst
        (λ v.
          (s.stored g.namespace g.lock_name v ≡ some cm)
          × (cm.namespace ≡ g.namespace)
          × (cm.name ≡ g.lock_name))
        (sym same) (laws.read g.namespace g.lock_name w₁ w₂ cm h)

  -- At a server that keeps its documented concurrency, no call of `Acquire` changes a lock of another
  -- domain or one held by another, whatever the server answers and others do in between; and where
  -- it returns `true`, the lock is then held by the caller for its plan.
  pub acquire-Respects :
      (hash : String) (w : s.World)
      → Ensures s (Respects s laws g uid) (Acquired s laws g uid hash) (acquire g uid hash) w
  unfolding acquire acquire_from Ensures
  acquire-Respects hash w w₁ w₂ (ok cm) later h = (
    read-Respects w₁ w₂ (ok cm) h,
    acquire_from-Ensures s laws g uid hash cm w₂ (read_present w₁ w₂ cm h),
  )
  acquire-Respects hash w w₁ w₂ (err not_found) later h =
      (read-Respects w₁ w₂ (err not_found) h, create-Ensures s laws g uid hash w₂)
  acquire-Respects hash w w₁ w₂ (err (invalid text)) later h =
      (read-Respects w₁ w₂ (err (invalid text)) h, λ e. absurd (cc e))
  acquire-Respects hash w w₁ w₂ (err already_exists) later h =
      (read-Respects w₁ w₂ (err already_exists) h, λ e. absurd (cc e))
  acquire-Respects hash w w₁ w₂ (err conflict) later h =
      (read-Respects w₁ w₂ (err conflict) h, λ e. absurd (cc e))
  acquire-Respects hash w w₁ w₂ (err unavailable) later h =
      (read-Respects w₁ w₂ (err unavailable) h, λ e. absurd (cc e))

  -- At a server that keeps its documented concurrency, no call of `Release` changes a lock of another
  -- domain or one held by another, and where it succeeds, the lock is then free.
  pub release-Respects :
      (w : s.World)
      → Ensures s
          (Respects s laws g uid)
          (λ r w'. r ≡ ok tt → HeldBy s laws g uid "" "" w')
          (release g uid)
          w
  unfolding release Ensures
  release-Respects w w₁ w₂ (ok cm) later h = (
    read-Respects w₁ w₂ (ok cm) h,
    release_from-Ensures s laws g uid cm w₂ (read_present w₁ w₂ cm h),
  )
  release-Respects w w₁ w₂ (err e) later h =
      (read-Respects w₁ w₂ (err e) h, unfold release_from in λ r. absurd (cc r))
