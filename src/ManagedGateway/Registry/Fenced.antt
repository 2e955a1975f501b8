-- ===== src/ManagedGateway/Registry/Fenced.antt =====
-- Where gateways have left traces, nothing is bootstrapped.
use kube_ovn_global_vpc.Prelude.{
  Bool, true, not, ◌||◌, Option, none, some, List, is_empty, ◌≡◌, arith, Result, ok, err, Error,
  invalid, not_found, already_exists, conflict, unavailable, >>=-eq-ok, reject-eq-ok, text_at, ◌==◌,
  String, refl, sym, subst, text_eq, not-false, or-false, ok-injective,
}
use kube_ovn_global_vpc.Kube.Client.{
  ConfigMap, get, done, call, on_ok, Server, IsServer, Ensures, is_true,
}
use kube_ovn_global_vpc.Kube.Ensures.{on_ok-Ensures}
use kube_ovn_global_vpc.Binding.{NetworkBinding}
use kube_ovn_global_vpc.ManagedGateway.Types.{
  Settings, AllocationRegistry, Codec, component_label, registry_name, registry_identity_name,
}
use kube_ovn_global_vpc.ManagedGateway.Decode.{decode_registry}
use kube_ovn_global_vpc.ManagedGateway.Registry.{
  Lists, Found, Outcome, collect, check_ledgers, check_bindings, confirm, with_identity,
  with_registry, present, on_registry, on_identity, registry,
}

module _ (server : Server) (codec : Codec) (s : Settings) where
  -- A registry that is returned is stored, and accepted, beside a stored identity that names it.
  pub record FromStored (cm : ConfigMap) (reg : AllocationRegistry) (w : server.World)
      : Type 0 where
    pub present : server.stored s.namespace registry_name w ≡ some cm
    pub accepted : decode_registry codec s cm ≡ ok reg
    pub identity : ConfigMap
    pub earlier : server.World
    pub since : server.Later earlier w
    pub identified : server.stored s.namespace registry_identity_name earlier ≡ some identity
    pub names_registry : text_at "registryUID" identity.values ≡ cm.uid

  -- an error, or what is stored: never an empty start
  abbrev pub Definite : Result (Option (ConfigMap × AllocationRegistry)) → server.World → Type 0
  Definite r w =
      (o : Option (ConfigMap × AllocationRegistry))
      → r ≡ ok o
      → (cm : ConfigMap) × (reg : AllocationRegistry) × (o ≡ some (cm, reg)) × FromStored cm reg w

module _ (server : Server) (laws : IsServer server) (codec : Codec) (s : Settings)
    (extra : List NetworkBinding) (found : Found) (traces : found.evidence ≡ true) where
  -- no call changes the state
  abbrev Unchanged : server.World → server.World → Type 0
  Unchanged w w' = w' ≡ w

  abbrev Fenced : Outcome → server.World → Type 0
  Fenced = Ensures server Unchanged (Definite server codec s)

  failed : (e : Error) (w : server.World) → Fenced (done (err e)) w
  unfolding Ensures
  failed e w o h = absurd (cc h)

  -- the identity that was read, if there was one
  abbrev Identified : Option ConfigMap → server.World → Type 0
  Identified none w = Unit
  Identified (some identity) w =
      (earlier : server.World) × server.Later earlier w
      × (server.stored s.namespace registry_identity_name earlier ≡ some identity)

  confirm-Definite :
      (cm identity : ConfigMap) (reg : AllocationRegistry) (w : server.World)
      → server.stored s.namespace registry_name w ≡ some cm
      → decode_registry codec s cm ≡ ok reg
      → Identified (some identity) w
      → Definite server codec s (confirm s extra found cm reg identity) w
  unfolding confirm
  confirm-Definite cm identity reg w present accepted (earlier, since, identified) o h =
      let (named, h₁) =
        reject-eq-ok
          (identity.uid == ""
            || not (is_true identity.immutable)
            || not (text_at component_label identity.labels == "gateway-allocator-identity")
            || not (text_at "clusterUID" identity.values == s.cluster_uid)
            || not (text_at "registryUID" identity.values == cm.uid))
          _ _ h in
      let (_, last) = or-false _ (not (text_at "registryUID" identity.values == cm.uid)) named in
      let (_, _, h₂) = >>=-eq-ok (check_ledgers reg found.ledgers) _ h₁ in
      let (_, _, h₃) = >>=-eq-ok (check_bindings reg found.bindings) _ h₂ in
      let (_, _, h₄) = >>=-eq-ok (check_bindings reg extra) _ h₃ in
      (
        cm,
        reg,
        sym (ok-injective h₄),
        record {
          present = present;
          accepted = accepted;
          identity = identity;
          earlier = earlier;
          since = since;
          identified = identified;
          names_registry = text_eq _ _ (not-false _ last);
        },
      )

  with_identity-Fenced :
      (identity : Option ConfigMap) (cm : ConfigMap) (reg : AllocationRegistry) (w : server.World)
      → server.stored s.namespace registry_name w ≡ some cm
      → decode_registry codec s cm ≡ ok reg
      → Identified identity w
      → Fenced (with_identity s extra found identity cm reg) w
  unfolding with_identity Ensures
  with_identity-Fenced (some identity) cm reg w present accepted identified =
      confirm-Definite cm identity reg w present accepted identified
  with_identity-Fenced none cm reg w present accepted identified =
      let all : (not (is_empty reg.addresses) || not (is_empty reg.ports) || found.evidence)
          ≡ true =
        ground (arith, traces) in
      rw all (failed _ w)

  on_registry-Fenced :
      (bootstrap : Bool) (identity : Option ConfigMap) (answer : Result ConfigMap)
      (w : server.World)
      → ((cm : ConfigMap) → answer ≡ ok cm → server.stored s.namespace registry_name w ≡ some cm)
      → Identified identity w
      → Fenced (on_registry codec s bootstrap extra found identity answer) w
  unfolding on_registry with_registry
  on_registry-Fenced bootstrap identity (ok cm) w read identified =
      on_ok-Ensures server Unchanged (Definite server codec s)
        (with_identity s extra found identity cm) (decode_registry codec s cm) w
        (λ e o h. absurd (cc h))
        (λ reg accepted. with_identity-Fenced identity cm reg w (read cm refl) accepted identified)
  on_registry-Fenced bootstrap identity (err not_found) w read identified =
      let all : (present identity || found.evidence) ≡ true = ground (arith, traces) in
      rw all (failed _ w)
  on_registry-Fenced bootstrap identity (err (invalid t)) w read identified = failed (invalid t) w
  on_registry-Fenced bootstrap identity (err already_exists) w read identified =
      failed already_exists w
  on_registry-Fenced bootstrap identity (err conflict) w read identified = failed conflict w
  on_registry-Fenced bootstrap identity (err unavailable) w read identified = failed unavailable w

  -- what a read returns is stored, also after it
  read_stored :
      (name : String) (w w' : server.World) (answer : Result ConfigMap)
      → server.Answers (get s.namespace name) w answer w'
      → (cm : ConfigMap) → answer ≡ ok cm
      → server.stored s.namespace name w' ≡ some cm
  read_stored name w w' answer h cm e =
      subst (λ v. server.stored s.namespace name v ≡ some cm)
        (sym (laws.read_only s.namespace name w w' answer h))
        (laws.read s.namespace name w w' cm
          (subst (λ r. server.Answers (get s.namespace name) w r w') e h)).0

  moved-Identified :
      (identity : Option ConfigMap) (w w' : server.World)
      → server.Later w w'
      → Identified identity w
      → Identified identity w'
  moved-Identified none w w' later h = tt
  moved-Identified (some identity) w w' later (earlier, since, identified) =
      (earlier, laws.later_trans earlier w w' since later, identified)

  read_registry-Fenced :
      (bootstrap : Bool) (identity : Option ConfigMap) (w : server.World)
      → Identified identity w
      → Fenced
          (call
            (get s.namespace registry_name)
            (on_registry codec s bootstrap extra found identity))
          w
  unfolding Ensures
  read_registry-Fenced bootstrap identity w identified w₁ w₂ answer later h = (
    laws.read_only s.namespace registry_name w₁ w₂ answer h,
    on_registry-Fenced bootstrap identity answer w₂ (read_stored registry_name w₁ w₂ answer h) (
        moved-Identified identity w w₂
          (laws.later_trans w w₁ w₂ later
            (laws.later_step (get s.namespace registry_name) w₁ w₂ answer h))
          identified),
  )

  on_identity-Fenced :
      (bootstrap : Bool) (answer : Result ConfigMap) (w : server.World)
      → ((cm : ConfigMap)
          → answer ≡ ok cm
          → server.stored s.namespace registry_identity_name w ≡ some cm)
      → Fenced (on_identity codec s bootstrap extra found answer) w
  unfolding on_identity
  on_identity-Fenced bootstrap (ok identity) w read =
      read_registry-Fenced bootstrap (some identity) w (w, laws.later_refl w, read identity refl)
  on_identity-Fenced bootstrap (err not_found) w read = read_registry-Fenced bootstrap none w tt
  on_identity-Fenced bootstrap (err (invalid t)) w read = failed (invalid t) w
  on_identity-Fenced bootstrap (err already_exists) w read = failed already_exists w
  on_identity-Fenced bootstrap (err conflict) w read = failed conflict w
  on_identity-Fenced bootstrap (err unavailable) w read = failed unavailable w

  -- Where a list shows a trace of gateways, no call of `registry` changes anything, even when it is
  -- asked to bootstrap; and it gives an error, or a registry that is stored and accepted, and that the
  -- identity names which was stored when it was read. So a registry or an identity that is missing
  -- is an error.
  pub registry-Unchanged :
      (bootstrap : Bool) (lists : Lists) (w : server.World)
      → collect codec s extra lists ≡ ok found
      → Ensures server
          (λ v v'. v' ≡ v)
          (Definite server codec s)
          (registry codec s bootstrap extra lists)
          w
  unfolding registry on_ok
  registry-Unchanged bootstrap lists w collected =
      rw (on_ok, collected)
        (unfold Ensures in
          λ w₁ w₂ answer later h. (
            laws.read_only s.namespace registry_identity_name w₁ w₂ answer h,
            on_identity-Fenced bootstrap answer w₂
                (read_stored registry_identity_name w₁ w₂ answer h),
          ))
