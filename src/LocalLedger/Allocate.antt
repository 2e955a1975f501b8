-- ===== src/LocalLedger/Allocate.antt =====
-- `allocate` of internal/localcontroller/allocation.go as a program of API calls. The answer to the
-- list of the bindings is an argument, since that is the first call.
pub mod Writes
pub mod Laws
use kube_ovn_global_vpc.Prelude.{
  String, Bool, true, false, not, ◌||◌, ◌&&◌, Option, none, some, List, [], ◌∷◌, Map, find, put,
  text_at, any, is_empty, ◌==◌, Result, ok, err, invalid, not_found, reject, ◌>>=◌, ◌>>◌,
  if◌then◌else◌,
}
use kube_ovn_global_vpc.Kube.Validation.{Validation}
use kube_ovn_global_vpc.Kube.Client.{
  ConfigMap, get, create, update, update_binding, Program, done, call, on_ok, new_object, is_true,
}
use kube_ovn_global_vpc.Binding.{NetworkBinding}
use kube_ovn_global_vpc.LocalConfig.{Config, validate}
use kube_ovn_global_vpc.LocalLedger.{Allocation, AllocatorState, Codec, read_allocation_state}
use kube_ovn_global_vpc.LocalLedger.Receipts.{
  AllocationReceipt, ReceiptCodec, receipt_annotation, receipt_of, owner_of,
  validate_allocation_receipts, bootstrap_allocation_evidence,
}
use kube_ovn_global_vpc.LocalLedger.Choose.{choose}

abbrev pub ledger_name : String
ledger_name = "managed-network-allocations"

abbrev pub identity_name : String
identity_name = "managed-network-allocation-identity"

abbrev pub allocation_label : String
allocation_label = "platform.globalvpc.io/allocator"

abbrev pub digest_annotation : String
digest_annotation = "platform.globalvpc.io/allocation-digest"

-- the parameters of the program: the libraries, and `json.Marshal` of a state
pub record Tools : Type 0 where
  pub validation : Validation
  pub codec : Codec
  pub encode : AllocatorState → String
  pub receipts : ReceiptCodec

-- `writeAllocationState`
unfoldable pub write_allocation_state : Tools → ConfigMap → AllocatorState → ConfigMap
write_allocation_state t cm state = record cm {
  values = ("state.json", t.encode state) ∷ [];
  annotations = put digest_annotation (t.codec.digest (t.encode state)) cm.annotations;
}

abbrev pub Outcome : Type 0
Outcome = Program (Result Allocation)

abbrev fail : String → Outcome
fail text = done (err (invalid text))

-- the receipt, which the binding gets if it has none
unfoldable pub with_receipt : Tools → Config → NetworkBinding → ConfigMap → Allocation → Outcome
with_receipt t c b cm a =
    let raw = t.receipts.encode_receipt (record {
      cluster_uid = c.cluster_uid;
      source_uid = owner_of b;
      binding_uid = b.uid;
      ledger_uid = cm.uid;
      allocation = a;
    }) in
    if receipt_of b == ""
    then call (update_binding (record b { annotations = put receipt_annotation raw b.annotations }))
        (on_ok (λ _. done (ok a)))
    else done (ok a)

-- the state with a new allocation
unfoldable pub with_allocation : AllocatorState → NetworkBinding → Allocation → AllocatorState
with_allocation state b a = record state {
  allocations = put (owner_of b) a state.allocations;
  binding_uids = put (owner_of b) b.uid state.binding_uids;
}

-- the update of the ledger; the client stores the server's answer in `cm`
unfoldable pub commit :
    Tools → Config → NetworkBinding → ConfigMap → AllocatorState → Allocation → Outcome
commit t c b cm state a =
    call (update (write_allocation_state t cm (with_allocation state b a)))
      (on_ok (λ stored. with_receipt t c b stored a))

unfoldable pub claim :
    Tools → Config → NetworkBinding → ConfigMap → AllocatorState → Option Allocation → Outcome
claim t c b cm state (some a) =
    if not (text_at (owner_of b) state.binding_uids == b.uid)
    then fail "local binding UID changed for retained allocation; fenced recovery required"
    else with_receipt t c b cm a
claim t c b cm state none =
    if any (λ (e : String × String). e.1 == b.uid) state.binding_uids
    then fail
        "local binding source identity changed for retained allocation; fenced recovery required"
    else on_ok (commit t c b cm state) (choose c state.allocations)

-- the checks between the reads and the choice
unfoldable pub confirm :
    Tools
    → Config
    → NetworkBinding
    → List NetworkBinding
    → ConfigMap
    → AllocatorState
    → ConfigMap
    → Result (Unit {0})
confirm t c b bindings cm state identity = do
  reject
      (identity.uid == ""
        || not (is_true identity.immutable)
        || not (text_at allocation_label identity.labels == "identity")
        || not (text_at "clusterUID" identity.values == c.cluster_uid)
        || not (text_at "ledgerUID" identity.values == cm.uid))
      "local allocation identity or ledger UID changed; fenced recovery required"
  validate_allocation_receipts t.receipts cm state bindings
  validate_allocation_receipts t.receipts cm state (b ∷ [])

unfoldable pub confirmed :
    Tools
    → Config
    → NetworkBinding
    → List NetworkBinding
    → ConfigMap
    → AllocatorState
    → ConfigMap
    → Outcome
confirmed t c b bindings cm state identity =
    on_ok (λ _. claim t c b cm state (find (owner_of b) state.allocations))
      (confirm t c b bindings cm state identity)

unfoldable pub identity_object : Config → ConfigMap → ConfigMap
identity_object c cm =
    new_object c.namespace identity_name ((allocation_label, "identity") ∷ []) (some true)
      (("clusterUID", c.cluster_uid) ∷ ("ledgerUID", cm.uid) ∷ [])

unfoldable pub with_identity :
    Tools
    → Config
    → NetworkBinding
    → List NetworkBinding
    → Option ConfigMap
    → ConfigMap
    → AllocatorState
    → Outcome
with_identity t c b bindings (some identity) cm state = confirmed t c b bindings cm state identity
with_identity t c b bindings none cm state =
    if not (is_empty state.allocations) || bootstrap_allocation_evidence bindings
    then fail "local allocation identity is missing beside retained state; fenced recovery required"
    else call (create (identity_object c cm)) (on_ok (confirmed t c b bindings cm state))

unfoldable pub with_ledger :
    Tools → Config → NetworkBinding → List NetworkBinding → Option ConfigMap → ConfigMap → Outcome
with_ledger t c b bindings identity cm =
    on_ok (with_identity t c b bindings identity cm) (read_allocation_state t.codec cm c)

unfoldable pub empty_ledger : Tools → Config → ConfigMap
empty_ledger t c =
    write_allocation_state t
      (new_object c.namespace ledger_name ((allocation_label, "true") ∷ []) none [])
      (record { cluster_uid = c.cluster_uid; allocations = []; binding_uids = [] })

abbrev pub present : Option ConfigMap → Bool
present none = false
present (some _) = true

unfoldable pub on_ledger :
    Tools
    → Config
    → NetworkBinding
    → List NetworkBinding
    → Option ConfigMap
    → Result ConfigMap
    → Outcome
on_ledger t c b bindings identity (ok cm) = with_ledger t c b bindings identity cm
on_ledger t c b bindings identity (err not_found) =
    if present identity || bootstrap_allocation_evidence bindings
    then fail
        "local allocation ledger is missing beside retained identity or receipts; fenced recovery required"
    else call (create (empty_ledger t c)) (on_ok (with_ledger t c b bindings identity))
on_ledger t c b bindings identity (err e) = done (err e)

unfoldable pub on_identity :
    Tools → Config → NetworkBinding → List NetworkBinding → Result ConfigMap → Outcome
on_identity t c b bindings (ok identity) =
    call (get c.namespace ledger_name) (on_ledger t c b bindings (some identity))
on_identity t c b bindings (err not_found) =
    call (get c.namespace ledger_name) (on_ledger t c b bindings none)
on_identity t c b bindings (err e) = done (err e)

-- the binding is among the listed ones
unfoldable pub is_current : NetworkBinding → NetworkBinding → Bool
is_current b current =
    current.name == b.name && current.uid == b.uid && owner_of current == owner_of b

unfoldable pub admitted :
    Tools → Config → NetworkBinding → Result (List NetworkBinding) → Result (List NetworkBinding)
admitted t c b listed = do
  validate t.validation c
  reject (owner_of b == "" || b.uid == "" || not (b.namespace == c.namespace))
      "local allocation requires a persisted binding and source UID"
  bindings ← listed
  reject (not (any (is_current b) bindings))
      "local allocation binding identity is missing or changed"
  ok bindings

-- `allocate`
unfoldable pub allocate : Tools → Config → NetworkBinding → Result (List NetworkBinding) → Outcome
allocate t c b listed =
    on_ok (λ bindings. call (get c.namespace identity_name) (on_identity t c b bindings))
      (admitted t c b listed)
