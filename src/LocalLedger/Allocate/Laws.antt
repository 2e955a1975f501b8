-- ===== src/LocalLedger/Allocate/Laws.antt =====
-- What an allocation ensures, whatever the API answers and others do between its calls.
use native.Mathlib.Omega.{arith}
use kube_ovn_global_vpc.Prelude.{
  false, not, ◌||◌, Option, none, some, List, [], text_at, is_empty, length, eqb, ◌==◌, ◌≡◌, inl,
  inr, refl, ◌∙◌, subst, Bool-cases, All, Result, ok, err, invalid, not_found, already_exists,
  conflict, unavailable, reject-eq-ok, >>=-eq-ok,
}
use kube_ovn_global_vpc.Kube.Client.{
  ConfigMap, get, create, call, on_ok, Server, IsServer, Creates, Ensures, new_object,
}
use kube_ovn_global_vpc.Kube.Ensures.{on_ok-Ensures}
use kube_ovn_global_vpc.Kube.Retained.{
  get-Keeps, absent-Keeps, elsewhere-Keeps, create-Keeps, moved-Read, get-Read, create-Read,
}
use kube_ovn_global_vpc.Binding.{NetworkBinding}
use kube_ovn_global_vpc.LocalConfig.{Config}
use kube_ovn_global_vpc.LocalLedger.{
  AllocatorState, decoded, check_allocations, read_allocation_state,
}
use kube_ovn_global_vpc.LocalLedger.Laws.{IsRetained, read_allocation_state-IsRetained}
use kube_ovn_global_vpc.LocalLedger.Receipts.{bootstrap_allocation_evidence}
use kube_ovn_global_vpc.LocalLedger.Choose.Fresh.{HasPools, NoLinkLocalPools}
use kube_ovn_global_vpc.LocalLedger.Allocate.{
  Tools, ledger_name, identity_name, write_allocation_state, confirmed, identity_object,
  with_identity, with_ledger, empty_ledger, present, on_ledger, on_identity, admitted, allocate,
}
use kube_ovn_global_vpc.LocalLedger.Allocate.Writes.{
  Retains, Retains_refl, read_state, KeepsAllocations, IsAllocated, ReadLedger, Safe, failed,
  confirmed-Safe,
}

module _ (server : Server) (laws : IsServer server) (t : Tools)
    (law : (st : AllocatorState) → t.codec.decode (t.encode st) ≡ some st) (c : Config)
    (p : HasPools c) (unlinked : NoLinkLocalPools c p) (b : NetworkBinding) where
  identity_name_of : (cm : ConfigMap) → (identity_object c cm).name ≡ identity_name
  unfolding identity_object new_object
  identity_name_of cm = refl

  identity-Keeps :
      (cm : ConfigMap) (w w' : server.World)
      → Creates server (identity_object c cm) w w'
      → (KeepsAllocations server laws t law c p unlinked b) w w'
  identity-Keeps cm w w' =
      let differs : ((identity_object c cm).name == ledger_name) ≡ false =
        rw (identity_name_of cm) refl in
      elsewhere-Keeps server laws c.namespace ledger_name (read_state t) Retains Retains_refl
        (identity_object c cm) w w' (ground (arith, differs))

  with_identity-Safe :
      (bindings : List NetworkBinding) (identity : Option ConfigMap) (cm : ConfigMap)
      (st : AllocatorState) (w : server.World)
      → (ReadLedger server laws t law c p unlinked b) cm w
      → read_state t cm ≡ ok st
      → All (IsRetained c [] []) st.allocations
      → Safe server laws t law c p unlinked b (with_identity t c b bindings identity cm st) w
  unfolding with_identity
  with_identity-Safe bindings (some identity) cm st w read state all =
      confirmed-Safe server laws t law c p unlinked b cm st w read state all bindings identity
  with_identity-Safe bindings none cm st w read state all =
      elim (Bool-cases (not (is_empty st.allocations) || bootstrap_allocation_evidence bindings)) [
        | inl lost ↦ rw lost (failed server laws t law c p unlinked b _ w)
        | inr clean ↦ rw clean (
            unfold Ensures in
            λ w₁ w₂ answer later h. (
              create-Keeps server laws c.namespace ledger_name (read_state t) Retains Retains_refl
                  (identity_object c cm) w₁ w₂ answer (identity-Keeps cm) h,
              on_ok-Ensures server (KeepsAllocations server laws t law c p unlinked b)
                  (IsAllocated server laws t law c p unlinked b) (confirmed t c b bindings cm st)
                  answer w₂ (λ e a k. absurd (cc k))
                  (λ identity _.
                    confirmed-Safe server laws t law c p unlinked b cm st w₂
                      (moved-Read server laws c.namespace ledger_name (read_state t) Retains
                        Retains_refl cm w w₂ read
                        (laws.later_trans w w₁ w₂ later
                          (laws.later_step (create (identity_object c cm)) w₁ w₂ answer h)))
                      state all bindings identity),
            ))
      ]

  -- an accepted ledger is read as its state
  accepted_state :
      (cm : ConfigMap) {st : AllocatorState}
      → read_allocation_state t.codec cm c ≡ ok st
      → read_state t cm ≡ ok st
  unfolding read_allocation_state
  accepted_state cm {st} h =
      let (_, h₁) =
        reject-eq-ok
          (cm.uid == ""
            || not (text_at "platform.globalvpc.io/allocator" cm.labels == "true")
            || not (
                text_at "platform.globalvpc.io/allocation-digest" cm.annotations
                == t.codec.digest (text_at "state.json" cm.values)))
          _ _ h in
      let (read, first, h₂) =
        >>=-eq-ok (decoded (t.codec.decode (text_at "state.json" cm.values))) _ h₁ in
      let (_, h₃) =
        reject-eq-ok
          (not (read.cluster_uid == c.cluster_uid)
            || not (eqb (length read.allocations) (length read.binding_uids)))
          _ _ h₂ in
      let (_, _, h₄) =
        >>=-eq-ok (check_allocations c read.binding_uids [] [] [] read.allocations) _ h₃ in
      first ∙ h₄

  with_ledger-Safe :
      (bindings : List NetworkBinding) (identity : Option ConfigMap) (cm : ConfigMap)
      (w : server.World)
      → (ReadLedger server laws t law c p unlinked b) cm w
      → Safe server laws t law c p unlinked b (with_ledger t c b bindings identity cm) w
  unfolding with_ledger
  with_ledger-Safe bindings identity cm w read =
      on_ok-Ensures server (KeepsAllocations server laws t law c p unlinked b)
        (IsAllocated server laws t law c p unlinked b) (with_identity t c b bindings identity cm)
        (read_allocation_state t.codec cm c) w (λ e a k. absurd (cc k))
        (λ st accepted.
          with_identity-Safe bindings identity cm st w read (accepted_state cm accepted)
            (read_allocation_state-IsRetained t.codec cm c st accepted).0)

  empty_namespace : (empty_ledger t c).namespace ≡ c.namespace
  unfolding empty_ledger write_allocation_state new_object
  empty_namespace = refl

  empty_name : (empty_ledger t c).name ≡ ledger_name
  unfolding empty_ledger write_allocation_state new_object
  empty_name = refl

  bootstrap-Safe :
      (bindings : List NetworkBinding) (identity : Option ConfigMap) (w : server.World)
      → Safe server laws t law c p unlinked b
          (call (create (empty_ledger t c)) (on_ok (with_ledger t c b bindings identity)))
          w
  unfolding Ensures
  bootstrap-Safe bindings identity w w₁ w₂ answer later h = (
    create-Keeps server laws c.namespace ledger_name (read_state t) Retains Retains_refl
        (empty_ledger t c) w₁ w₂ answer
        (λ v v'.
          absent-Keeps server laws c.namespace ledger_name (read_state t) Retains Retains_refl
            (empty_ledger t c) v v' empty_namespace empty_name)
        h,
    on_ok-Ensures server (KeepsAllocations server laws t law c p unlinked b)
        (IsAllocated server laws t law c p unlinked b) (with_ledger t c b bindings identity) answer
        w₂ (λ e a k. absurd (cc k))
        (λ cm e. with_ledger-Safe bindings identity cm w₂ (
          create-Read server laws c.namespace ledger_name (read_state t) Retains Retains_refl
            (empty_ledger t c) cm w₁ w₂ empty_namespace empty_name
            (subst (λ r. server.Answers (create (empty_ledger t c)) w₁ r w₂) e h))),
  )

  on_ledger-Safe :
      (bindings : List NetworkBinding) (identity : Option ConfigMap) (w₁ w₂ : server.World)
      (answer : Result ConfigMap)
      → server.Answers (get c.namespace ledger_name) w₁ answer w₂
      → Safe server laws t law c p unlinked b (on_ledger t c b bindings identity answer) w₂
  unfolding on_ledger
  on_ledger-Safe bindings identity w₁ w₂ (ok cm) h =
      with_ledger-Safe bindings identity cm w₂ (
        get-Read server laws c.namespace ledger_name (read_state t) Retains Retains_refl cm w₁ w₂ h)
  on_ledger-Safe bindings identity w₁ w₂ (err not_found) h =
      elim (Bool-cases (present identity || bootstrap_allocation_evidence bindings)) [
        | inl lost ↦ rw lost (failed server laws t law c p unlinked b _ w₂)
        | inr clean ↦ rw clean (bootstrap-Safe bindings identity w₂)
      ]
  on_ledger-Safe bindings identity w₁ w₂ (err (invalid x)) h =
      failed server laws t law c p unlinked b (invalid x) w₂
  on_ledger-Safe bindings identity w₁ w₂ (err already_exists) h =
      failed server laws t law c p unlinked b already_exists w₂
  on_ledger-Safe bindings identity w₁ w₂ (err conflict) h =
      failed server laws t law c p unlinked b conflict w₂
  on_ledger-Safe bindings identity w₁ w₂ (err unavailable) h =
      failed server laws t law c p unlinked b unavailable w₂

  read_ledger-Safe :
      (bindings : List NetworkBinding) (identity : Option ConfigMap) (w : server.World)
      → Safe server laws t law c p unlinked b
          (call (get c.namespace ledger_name) (on_ledger t c b bindings identity))
          w
  unfolding Ensures
  read_ledger-Safe bindings identity w w₁ w₂ answer later h = (
    get-Keeps server laws c.namespace ledger_name (read_state t) Retains Retains_refl c.namespace
        ledger_name w₁ w₂ answer h,
    on_ledger-Safe bindings identity w₁ w₂ answer h,
  )

  on_identity-Safe :
      (bindings : List NetworkBinding) (answer : Result ConfigMap) (w : server.World)
      → Safe server laws t law c p unlinked b (on_identity t c b bindings answer) w
  unfolding on_identity
  on_identity-Safe bindings (ok identity) w = read_ledger-Safe bindings (some identity) w
  on_identity-Safe bindings (err not_found) w = read_ledger-Safe bindings none w
  on_identity-Safe bindings (err (invalid x)) w =
      failed server laws t law c p unlinked b (invalid x) w
  on_identity-Safe bindings (err already_exists) w =
      failed server laws t law c p unlinked b already_exists w
  on_identity-Safe bindings (err conflict) w = failed server laws t law c p unlinked b conflict w
  on_identity-Safe bindings (err unavailable) w =
      failed server laws t law c p unlinked b unavailable w

  -- Where the two pools are networks without a link-local address and the length fits, whatever the
  -- API answers and others do between the calls, no call of an allocation takes an allocation from
  -- its owner or moves it to another binding; and where an allocation is returned, the stored ledger
  -- has held it for the source and the identity of the binding, and it is a network of the pool with
  -- a source of the source pool.
  pub allocate-KeepsAllocations :
      (listed : Result (List NetworkBinding)) (w : server.World)
      → Ensures server
          (KeepsAllocations server laws t law c p unlinked b)
          (IsAllocated server laws t law c p unlinked b)
          (allocate t c b listed)
          w
  unfolding allocate
  allocate-KeepsAllocations listed w =
      on_ok-Ensures server (KeepsAllocations server laws t law c p unlinked b)
        (IsAllocated server laws t law c p unlinked b)
        (λ bindings. call (get c.namespace identity_name) (on_identity t c b bindings))
        (admitted t c b listed) w (λ e a k. absurd (cc k))
        (λ bindings _.
          unfold Ensures in
          λ w₁ w₂ answer later h. (
            get-Keeps server laws c.namespace ledger_name (read_state t) Retains Retains_refl
                c.namespace identity_name w₁ w₂ answer h,
            on_identity-Safe bindings answer w₂,
          ))
