-- ===== src/ManagedGateway/Registry/Laws.antt =====
-- What `registry` ensures, whatever the API answers and others do between its calls.
use kube_ovn_global_vpc.Prelude.{
  Bool, false, not, ◌||◌, Option, none, some, List, [], ◌∷◌, text_at, is_empty, ◌==◌, ◌≡◌, inl, inr,
  refl, subst, arith, All, Bool-cases, Result, ok, err, Error, invalid, not_found, already_exists,
  conflict, unavailable, reject-eq-ok, >>=-eq-ok, ok-injective, some_eq,
}
use kube_ovn_global_vpc.Kube.Client.{
  ConfigMap, get, create, done, call, Server, IsServer, Creates, Ensures, new_object, is_true,
}
use kube_ovn_global_vpc.Kube.Ensures.{on_ok-Ensures, weaken-Ensures}
use kube_ovn_global_vpc.Kube.Retained.{
  Stored, Keeps, Read, get-Keeps, absent-Keeps, elsewhere-Keeps, create-Keeps, moved-Read, get-Read,
  create-Read,
}
use kube_ovn_global_vpc.Binding.{NetworkBinding}
use kube_ovn_global_vpc.ManagedGateway.Types.{
  Settings, AllocationRegistry, Codec, registry_name, registry_identity_name, store_registry,
}
use kube_ovn_global_vpc.ManagedGateway.Decode.{decode_registry}
use kube_ovn_global_vpc.ManagedGateway.Claims.{validate_gateway_claims}
use kube_ovn_global_vpc.ManagedGateway.Claims.Laws.{IsGateway, validate_gateway_claims-IsGateway}
use kube_ovn_global_vpc.ManagedGateway.Reserve.Keeps.{Retains}
use kube_ovn_global_vpc.ManagedGateway.Registry.{
  Lists, Found, Outcome, collect, check_ledgers, check_bindings, confirm, raced, identity_object,
  with_identity, with_registry, empty_registry, present, on_registry, on_identity, registry,
}

-- the registry retains what the binding publishes
abbrev pub Published : AllocationRegistry → NetworkBinding → Type 0
Published reg b = All (IsGateway reg b.uid b.spec.transport_profile) b.status.gateways

check_bindings-All :
    (reg : AllocationRegistry) (bindings : List NetworkBinding)
    → check_bindings reg bindings ≡ ok tt
    → All (Published reg) bindings
unfolding check_bindings
check_bindings-All reg [] h = tt
check_bindings-All reg (b ∷ bindings) h =
    let (_, first, rest) =
      >>=-eq-ok (validate_gateway_claims reg b.uid b.spec.transport_profile b.status.gateways) _
        h in
    (
      (validate_gateway_claims-IsGateway reg b.uid b.spec.transport_profile b.status.gateways).0
          first,
      check_bindings-All reg bindings rest,
    )

-- nothing that a registry retains is lost
pub Retains_refl : (reg : AllocationRegistry) → Retains reg reg
Retains_refl reg = record { same_cluster = refl; addresses = λ k e. e; ports = λ k e. e }

module _ (server : Server) (laws : IsServer server) (codec : Codec) (s : Settings) where
  -- An accepted registry is stored in a state.
  abbrev pub StoredRegistry : server.World → ConfigMap → AllocationRegistry → Type 0
  StoredRegistry =
      Stored server laws s.namespace registry_name (decode_registry codec s) Retains Retains_refl

  -- A move that keeps every claim of a stored registry.
  abbrev pub KeepsClaims : server.World → server.World → Type 0
  KeepsClaims =
      Keeps server laws s.namespace registry_name (decode_registry codec s) Retains Retains_refl

  abbrev pub ReadRegistry : ConfigMap → server.World → Type 0
  ReadRegistry =
      Read server laws s.namespace registry_name (decode_registry codec s) Retains Retains_refl

  -- What a caller of `registry` may rely on: the registry was stored in an earlier state, and
  -- retains what the listed and the given bindings publish.
  pub record Confirmed (extra : List NetworkBinding) (found : Found) (cm : ConfigMap)
      (reg : AllocationRegistry) (w : server.World) : Type 0 where
    pub read : ReadRegistry cm w
    pub accepted : decode_registry codec s cm ≡ ok reg
    pub listed : All (Published reg) found.bindings
    pub given : All (Published reg) extra

  -- the identity is another object
  identity-KeepsClaims :
      (cm : ConfigMap) (w w' : server.World)
      → cm.name ≡ registry_identity_name
      → Creates server cm w w'
      → KeepsClaims w w'
  identity-KeepsClaims cm w w' named =
      let differs : (cm.name == registry_name) ≡ false = rw named refl in
      elsewhere-Keeps server laws s.namespace registry_name (decode_registry codec s) Retains
        Retains_refl cm w w' (ground (arith, differs))

  module _ (extra : List NetworkBinding) (found : Found) where
    abbrev Post : Result (Option (ConfigMap × AllocationRegistry)) → server.World → Type 0
    Post r w =
        (cm : ConfigMap) (reg : AllocationRegistry)
        → r ≡ ok (some (cm, reg))
        → Confirmed extra found cm reg w

    abbrev Safe : Outcome → server.World → Type 0
    Safe = Ensures server KeepsClaims Post

    failed : (e : Error) (w : server.World) → Safe (done (err e)) w
    unfolding Ensures
    failed e w cm reg h = absurd (cc h)

    confirm-Post :
        (identity cm : ConfigMap) (reg : AllocationRegistry) (w : server.World)
        → ReadRegistry cm w
        → decode_registry codec s cm ≡ ok reg
        → Post (confirm s extra found cm reg identity) w
    unfolding confirm
    confirm-Post identity cm reg w r accepted cm' reg' h =
        let (_, h₁) =
          reject-eq-ok
            (identity.uid == ""
              || not (is_true identity.immutable)
              || not (
                  text_at "platform.globalvpc.io/component" identity.labels
                  == "gateway-allocator-identity")
              || not (text_at "clusterUID" identity.values == s.cluster_uid)
              || not (text_at "registryUID" identity.values == cm.uid))
            _ _ h in
        let (_, _, h₂) = >>=-eq-ok (check_ledgers reg found.ledgers) _ h₁ in
        let (_, listed, h₃) = >>=-eq-ok (check_bindings reg found.bindings) _ h₂ in
        let (_, given, h₄) = >>=-eq-ok (check_bindings reg extra) _ h₃ in
        let same : ◌≡◌ {A = ConfigMap × AllocationRegistry} (cm, reg) (cm', reg') =
          some_eq (ok-injective h₄) in
        subst (λ (p : ConfigMap × AllocationRegistry). Confirmed extra found p.0 p.1 w) same
          (record {
            read = r;
            accepted = accepted;
            listed = check_bindings-All reg found.bindings listed;
            given = check_bindings-All reg extra given;
          })

    raced-Safe :
        (k : ConfigMap → Outcome) (r : Result ConfigMap) (w : server.World)
        → ((cm : ConfigMap) → r ≡ ok cm → Safe (k cm) w)
        → Safe (raced k r) w
    unfolding raced
    raced-Safe k (ok cm) w h = h cm refl
    raced-Safe k (err already_exists) w h = failed conflict w
    raced-Safe k (err (invalid t)) w h = failed (invalid t) w
    raced-Safe k (err not_found) w h = failed not_found w
    raced-Safe k (err conflict) w h = failed conflict w
    raced-Safe k (err unavailable) w h = failed unavailable w

    with_identity-Safe :
        (identity : Option ConfigMap) (cm : ConfigMap) (reg : AllocationRegistry) (w : server.World)
        → ReadRegistry cm w
        → decode_registry codec s cm ≡ ok reg
        → Safe (with_identity s extra found identity cm reg) w
    unfolding with_identity Ensures
    with_identity-Safe (some identity) cm reg w r accepted =
        confirm-Post identity cm reg w r accepted
    with_identity-Safe none cm reg w r accepted =
        elim (Bool-cases
          (not (is_empty reg.addresses) || not (is_empty reg.ports) || found.evidence)) [
            | inl e ↦ rw e (failed _ w)
            | inr e ↦ rw e (λ w₁ w₂ answer later h. (
              create-Keeps server laws s.namespace registry_name (decode_registry codec s) Retains
                  Retains_refl (identity_object s cm) w₁ w₂ answer
                  (λ v v' c.
                    identity-KeepsClaims (identity_object s cm) v v'
                      (unfold identity_object new_object in refl) c)
                  h,
              raced-Safe (λ identity. done (confirm s extra found cm reg identity)) answer w₂
                  (λ identity _.
                    unfold Ensures in
                    confirm-Post identity cm reg w₂
                      (moved-Read server laws s.namespace registry_name (decode_registry codec s)
                        Retains Retains_refl cm w w₂ r
                        (laws.later_trans w w₁ w₂ later
                          (laws.later_step (create (identity_object s cm)) w₁ w₂ answer h)))
                      accepted),
            ))
          ]

    with_registry-Safe :
        (identity : Option ConfigMap) (cm : ConfigMap) (w : server.World)
        → ReadRegistry cm w
        → Safe (with_registry codec s extra found identity cm) w
    unfolding with_registry
    with_registry-Safe identity cm w r =
        on_ok-Ensures server KeepsClaims Post (with_identity s extra found identity cm)
          (decode_registry codec s cm) w (λ e cm' reg' h. absurd (cc h))
          (λ reg accepted. with_identity-Safe identity cm reg w r accepted)

    empty_namespace : (empty_registry codec s).namespace ≡ s.namespace
    unfolding empty_registry store_registry new_object
    empty_namespace = refl

    empty_name : (empty_registry codec s).name ≡ registry_name
    unfolding empty_registry store_registry new_object
    empty_name = refl

    bootstrap-Safe :
        (identity : Option ConfigMap) (w : server.World)
        → Safe
            (call
              (create (empty_registry codec s))
              (raced (with_registry codec s extra found identity)))
            w
    unfolding Ensures
    bootstrap-Safe identity w w₁ w₂ answer later h = (
      create-Keeps server laws s.namespace registry_name (decode_registry codec s) Retains
          Retains_refl (empty_registry codec s) w₁ w₂ answer
          (λ v v'.
            absent-Keeps server laws s.namespace registry_name (decode_registry codec s) Retains
              Retains_refl (empty_registry codec s) v v' empty_namespace empty_name)
          h,
      raced-Safe (with_registry codec s extra found identity) answer w₂ (λ cm e.
          with_registry-Safe identity cm w₂ (
            create-Read server laws s.namespace registry_name (decode_registry codec s) Retains
              Retains_refl (empty_registry codec s) cm w₁ w₂ empty_namespace empty_name
              (subst (λ r. server.Answers (create (empty_registry codec s)) w₁ r w₂) e h))),
    )

    missing-Safe :
        (bootstrap : Bool) (identity : Option ConfigMap) (w : server.World)
        → Safe (on_registry codec s bootstrap extra found identity (err not_found)) w
    unfolding on_registry
    missing-Safe bootstrap identity w = elim (Bool-cases (present identity || found.evidence)) [
      | inl lost ↦ rw lost (failed _ w)
      | inr clean ↦ elim (Bool-cases bootstrap) [
        | inl wanted ↦ rw (clean, wanted) (bootstrap-Safe identity w)
        | inr unwanted ↦ rw (clean, unwanted) (unfold Ensures in λ cm reg h. absurd (cc h))
      ]
    ]

    on_registry-Safe :
        (bootstrap : Bool) (identity : Option ConfigMap) (w₁ w₂ : server.World)
        (answer : Result ConfigMap)
        → server.Answers (get s.namespace registry_name) w₁ answer w₂
        → Safe (on_registry codec s bootstrap extra found identity answer) w₂
    unfolding on_registry
    on_registry-Safe bootstrap identity w₁ w₂ (ok cm) h = with_registry-Safe identity cm w₂ (
        get-Read server laws s.namespace registry_name (decode_registry codec s) Retains
          Retains_refl cm w₁ w₂ h)
    on_registry-Safe bootstrap identity w₁ w₂ (err not_found) h = missing-Safe bootstrap identity w₂
    on_registry-Safe bootstrap identity w₁ w₂ (err (invalid t)) h = failed (invalid t) w₂
    on_registry-Safe bootstrap identity w₁ w₂ (err already_exists) h = failed already_exists w₂
    on_registry-Safe bootstrap identity w₁ w₂ (err conflict) h = failed conflict w₂
    on_registry-Safe bootstrap identity w₁ w₂ (err unavailable) h = failed unavailable w₂

    read_registry-Safe :
        (bootstrap : Bool) (identity : Option ConfigMap) (w : server.World)
        → Safe
            (call
              (get s.namespace registry_name)
              (on_registry codec s bootstrap extra found identity))
            w
    unfolding Ensures
    read_registry-Safe bootstrap identity w w₁ w₂ answer later h = (
      get-Keeps server laws s.namespace registry_name (decode_registry codec s) Retains Retains_refl
          s.namespace registry_name w₁ w₂ answer h,
      on_registry-Safe bootstrap identity w₁ w₂ answer h,
    )

    pub on_identity-Safe :
        (bootstrap : Bool) (answer : Result ConfigMap) (w : server.World)
        → Safe (on_identity codec s bootstrap extra found answer) w
    unfolding on_identity
    on_identity-Safe bootstrap (ok identity) w = read_registry-Safe bootstrap (some identity) w
    on_identity-Safe bootstrap (err not_found) w = read_registry-Safe bootstrap none w
    on_identity-Safe bootstrap (err (invalid t)) w = failed (invalid t) w
    on_identity-Safe bootstrap (err already_exists) w = failed already_exists w
    on_identity-Safe bootstrap (err conflict) w = failed conflict w
    on_identity-Safe bootstrap (err unavailable) w = failed unavailable w

  -- What `registry` returns, if it returns a registry: the lists were read, and the rest as above.
  abbrev pub IsRead :
      List NetworkBinding
      → Lists
      → Result (Option (ConfigMap × AllocationRegistry))
      → server.World
      → Type 0
  IsRead extra lists r w =
      (cm : ConfigMap) (reg : AllocationRegistry)
      → r ≡ ok (some (cm, reg))
      → (found : Found) × (collect codec s extra lists ≡ ok found) × Confirmed extra found cm reg w

  -- Whatever the API answers and others do in between, no call of `registry` loses a claim of a
  -- stored registry; and a registry that it returns was accepted as it was stored at some time since
  -- the call began, and retains the control addresses and ports of every gateway that a listed or
  -- given binding publishes.
  pub registry-KeepsClaims :
      (bootstrap : Bool) (extra : List NetworkBinding) (lists : Lists) (w : server.World)
      → Ensures server KeepsClaims (IsRead extra lists) (registry codec s bootstrap extra lists) w
  unfolding registry
  registry-KeepsClaims bootstrap extra lists w =
      on_ok-Ensures server KeepsClaims (IsRead extra lists)
        (λ found.
          call (get s.namespace registry_identity_name) (on_identity codec s bootstrap extra found))
        (collect codec s extra lists) w (λ e cm reg h. absurd (cc h))
        (λ found collected.
          unfold Ensures in
          λ w₁ w₂ answer later h. (
            get-Keeps server laws s.namespace registry_name (decode_registry codec s) Retains
                Retains_refl s.namespace registry_identity_name w₁ w₂ answer h,
            weaken-Ensures server KeepsClaims (Post extra found) (IsRead extra lists)
                (on_identity codec s bootstrap extra found answer) w₂
                (λ r w' post cm reg e. (found, collected, post cm reg e))
                (on_identity-Safe extra found bootstrap answer w₂),
          ))
