-- ===== src/ManagedGateway/Registry.antt =====
-- `registry` of internal/managedgateway/registry.go: what the API lists is checked against the
-- registry, and an empty installation gets one. The answers to the four lists are arguments, since
-- all lists come before the first call about the registry and its identity.
pub mod Laws
pub mod Fenced
use kube_ovn_global_vpc.Prelude.{
  String, ◌⧺◌, Bool, true, false, not, ◌&&◌, ◌||◌, Option, none, some, List, [], ◌∷◌, ◌++◌, map,
  Map, find, text_at, any, is_empty, ◌==◌, starts_with, Result, ok, err, invalid, not_found,
  already_exists, conflict, reject, ◌>>=◌, ◌>>◌, if◌then◌else◌,
}
use kube_ovn_global_vpc.Kube.Client.{
  ConfigMap, get, create, Program, done, call, on_ok, OwnerReference, Item, Named, new_object,
  is_true,
}
use kube_ovn_global_vpc.Binding.{GatewayEndpoint, NetworkBinding}
use kube_ovn_global_vpc.ManagedGateway.Types.{
  Settings, AllocationRegistry, Member, Ledger, Codec, component_label, ledger_data, registry_name,
  registry_identity_name, store_registry,
}
use kube_ovn_global_vpc.ManagedGateway.Decode.{decode_registry}
use kube_ovn_global_vpc.ManagedGateway.Claims.{validate_gateway_claims, gateway_status_evidence}

-- the answers to the lists of ConfigMaps, bindings, Pods and Secrets with the gateway's label
pub record Lists : Type 0 where
  pub config_maps : Result (List Item)
  pub bindings : Result (List NetworkBinding)
  pub pods : Result (List Named)
  pub secrets : Result (List Named)

-- what the lists show: whether there are traces of gateways, and what was published
pub record Found : Type 0 where
  pub evidence : Bool
  pub ledgers : List Ledger
  pub bindings : List NetworkBinding

abbrev pub owner_label : String
owner_label = "platform.globalvpc.io/owner-uid"

abbrev pub platform_api_version : String
platform_api_version = "platform.globalvpc.io/v1alpha2"

abbrev owned_by : String → OwnerReference → Bool
owned_by uid ref =
    ref.uid == uid
    && ref.kind == "NetworkBinding"
    && ref.api_version == platform_api_version
    && is_true ref.controller

abbrev bad_ledger : String
bad_ledger = "GatewayAllocationReceiptMismatch: invalid member ledger"

unfoldable pub check_ledger : Codec → Item → Option Ledger → Result Ledger
check_ledger codec item none = err (invalid bad_ledger)
check_ledger codec item (some l) = do
  reject
      (l.owner_uid == ""
        || not (item.object.name == "pg-" ⧺ codec.short l.owner_uid)
        || not (text_at owner_label item.object.labels == l.owner_uid)
        || not (text_at component_label item.object.labels == "gateway"))
      bad_ledger
  reject (not (any (owned_by l.owner_uid) item.owners))
      "GatewayAllocationReceiptMismatch: member ledger ownership changed"
  ok l

-- a ConfigMap of the gateways
abbrev pub of_gateway : String → Map String → Bool
of_gateway name labels = text_at component_label labels == "gateway" || starts_with name "pg-"

abbrev of_allocator : ConfigMap → Bool
of_allocator cm = cm.name == registry_name || cm.name == registry_identity_name

-- the member ledgers among the ConfigMaps, and whether any is a trace of gateways
unfoldable pub read_value :
    Codec → Item → Option String → Bool × List Ledger → Result (Bool × List Ledger)
read_value codec item none (evidence, ledgers) = ok (true, ledgers)
read_value codec item (some raw) (evidence, ledgers) = do
  l ← check_ledger codec item (codec.decode_ledger raw)
  ok (true, ledgers ++ l ∷ [])

unfoldable pub read_item : Codec → Item → Bool × List Ledger → Result (Bool × List Ledger)
read_item codec item (evidence, ledgers) =
    if of_allocator item.object || not (of_gateway item.object.name item.object.labels)
    then ok (evidence, ledgers)
    else read_value codec item (find ledger_data item.object.values) (evidence, ledgers)

unfoldable pub read_items : Codec → Bool × List Ledger → List Item → Result (Bool × List Ledger)
read_items codec acc [] = ok acc
read_items codec acc (item ∷ items) = do
  next ← read_item codec item acc
  read_items codec next items

abbrev pub published : String → NetworkBinding → Bool
published namespace b = gateway_status_evidence b namespace

-- the part before the calls about the registry
unfoldable pub collect : Codec → Settings → List NetworkBinding → Lists → Result Found
collect codec s extra lists = do
  items ← lists.config_maps
  bindings ← lists.bindings
  read ← read_items codec (false, []) items
  pods ← lists.pods
  keys ← lists.secrets
  ok (record {
    evidence =
        read.0
        || any (published s.namespace) bindings
        || any (published s.namespace) extra
        || any (λ (p : Named). of_gateway p.name p.labels) pods
        || not (is_empty keys);
    ledgers = read.1;
    bindings = bindings;
  })

abbrev endpoint_of : Member → GatewayEndpoint
endpoint_of m = m.endpoint

unfoldable pub check_ledgers : AllocationRegistry → List Ledger → Result (Unit {0})
check_ledgers reg [] = ok tt
check_ledgers reg (l ∷ ledgers) = do
  validate_gateway_claims reg l.owner_uid l.profile (map endpoint_of l.members)
  check_ledgers reg ledgers

unfoldable pub check_bindings : AllocationRegistry → List NetworkBinding → Result (Unit {0})
check_bindings reg [] = ok tt
check_bindings reg (b ∷ bindings) = do
  validate_gateway_claims reg b.uid b.spec.transport_profile b.status.gateways
  check_bindings reg bindings

-- a registry with its object, or none where none is needed yet
abbrev pub Outcome : Type 0
Outcome = Program (Result (Option (ConfigMap × AllocationRegistry)))

abbrev fail : String → Outcome
fail text = done (err (invalid text))

-- the checks behind the calls
unfoldable pub confirm :
    Settings
    → List NetworkBinding
    → Found
    → ConfigMap
    → AllocationRegistry
    → ConfigMap
    → Result (Option (ConfigMap × AllocationRegistry))
confirm s extra found cm reg identity = do
  reject
      (identity.uid == ""
        || not (is_true identity.immutable)
        || not (text_at component_label identity.labels == "gateway-allocator-identity")
        || not (text_at "clusterUID" identity.values == s.cluster_uid)
        || not (text_at "registryUID" identity.values == cm.uid))
      "GatewayAllocationIdentityChanged: registry UID changed; fenced recovery required"
  check_ledgers reg found.ledgers
  check_bindings reg found.bindings
  check_bindings reg extra
  ok (some (cm, reg))

-- a creation that raced is a conflict, so that the caller tries again
unfoldable pub raced :
    {A : Type 0} → (ConfigMap → Program (Result A)) → Result ConfigMap → Program (Result A)
raced k (ok cm) = k cm
raced k (err already_exists) = done (err conflict)
raced k (err e) = done (err e)

unfoldable pub identity_object : Settings → ConfigMap → ConfigMap
identity_object s cm =
    new_object s.namespace registry_identity_name
      ((component_label, "gateway-allocator-identity") ∷ []) (some true)
      (("clusterUID", s.cluster_uid) ∷ ("registryUID", cm.uid) ∷ [])

unfoldable pub with_identity :
    Settings
    → List NetworkBinding
    → Found
    → Option ConfigMap
    → ConfigMap
    → AllocationRegistry
    → Outcome
with_identity s extra found (some identity) cm reg = done (confirm s extra found cm reg identity)
with_identity s extra found none cm reg =
    if not (is_empty reg.addresses) || not (is_empty reg.ports) || found.evidence
    then fail "GatewayAllocationIdentityLost: retained reservations require fenced recovery"
    else call (create (identity_object s cm))
        (raced (λ identity. done (confirm s extra found cm reg identity)))

unfoldable pub with_registry :
    Codec → Settings → List NetworkBinding → Found → Option ConfigMap → ConfigMap → Outcome
with_registry codec s extra found identity cm =
    on_ok (with_identity s extra found identity cm) (decode_registry codec s cm)

unfoldable pub empty_registry : Codec → Settings → ConfigMap
empty_registry codec s =
    store_registry codec
      (new_object s.namespace registry_name ((component_label, "gateway-allocator") ∷ []) none [])
      (record { cluster_uid = s.cluster_uid; addresses = []; ports = [] })

abbrev pub present : Option ConfigMap → Bool
present none = false
present (some _) = true

unfoldable pub on_registry :
    Codec
    → Settings
    → Bool
    → List NetworkBinding
    → Found
    → Option ConfigMap
    → Result ConfigMap
    → Outcome
on_registry codec s bootstrap extra found identity (ok cm) =
    with_registry codec s extra found identity cm
on_registry codec s bootstrap extra found identity (err not_found) =
    if present identity || found.evidence
    then fail
        "GatewayAllocationRegistryLost: retained identity or member receipts require fenced recovery"
    else if not bootstrap
    then done (ok none)
    else call (create (empty_registry codec s)) (raced (with_registry codec s extra found identity))
on_registry codec s bootstrap extra found identity (err e) = done (err e)

unfoldable pub on_identity :
    Codec → Settings → Bool → List NetworkBinding → Found → Result ConfigMap → Outcome
on_identity codec s bootstrap extra found (ok identity) =
    call (get s.namespace registry_name) (on_registry codec s bootstrap extra found (some identity))
on_identity codec s bootstrap extra found (err not_found) =
    call (get s.namespace registry_name) (on_registry codec s bootstrap extra found none)
on_identity codec s bootstrap extra found (err e) = done (err e)

-- `registry`
unfoldable pub registry : Codec → Settings → Bool → List NetworkBinding → Lists → Outcome
registry codec s bootstrap extra lists =
    on_ok
      (λ found.
        call (get s.namespace registry_identity_name) (on_identity codec s bootstrap extra found))
      (collect codec s extra lists)
