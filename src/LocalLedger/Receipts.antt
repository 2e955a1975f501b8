-- ===== src/LocalLedger/Receipts.antt =====
-- `validateAllocationReceipts` and `bootstrapAllocationEvidence` of
-- internal/localcontroller/allocation.go.
pub mod Laws
use kube_ovn_global_vpc.Prelude.{
  String, Bool, true, false, not, ◌||◌, ◌&&◌, Option, none, some, List, [], ◌∷◌, find, text_at, any,
  is_empty, ◌==◌, Result, ok, err, invalid, reject, ◌>>=◌, ◌>>◌, if◌then◌else◌,
}
use kube_ovn_global_vpc.Kube.Client.{ConfigMap}
use kube_ovn_global_vpc.Binding.{NetworkBinding}
use kube_ovn_global_vpc.LocalLedger.{Allocation, AllocatorState}

pub record AllocationReceipt : Type 0 where
  pub cluster_uid : String
  pub source_uid : String
  pub binding_uid : String
  pub ledger_uid : String
  pub allocation : Allocation

-- JSON, outside the repository
pub record ReceiptCodec : Type 0 where
  pub encode_receipt : AllocationReceipt → String
  pub decode_receipt : String → Option AllocationReceipt

abbrev pub receipt_annotation : String
receipt_annotation = "platform.globalvpc.io/allocation-receipt"

abbrev pub source_uid_annotation : String
source_uid_annotation = "platform.globalvpc.io/source-binding-uid"

abbrev pub receipt_of : NetworkBinding → String
receipt_of b = text_at receipt_annotation b.annotations

abbrev pub owner_of : NetworkBinding → String
owner_of b = text_at source_uid_annotation b.annotations

unfoldable pub same_allocation : Allocation → Allocation → Bool
same_allocation a b =
    a.transit_cidr == b.transit_cidr
    && a.router_ip == b.router_ip
    && a.bfd_source_ip == b.bfd_source_ip

-- the condition on a receipt that decodes, beside the allocation that the ledger has for its owner
unfoldable pub bad_receipt :
    ConfigMap
    → AllocatorState
    → NetworkBinding
    → Option Allocation
    → Option AllocationReceipt
    → Bool
bad_receipt ledger state b none receipt = true
bad_receipt ledger state b (some a) none = true
bad_receipt ledger state b (some a) (some receipt) =
    not (receipt.cluster_uid == state.cluster_uid)
    || not (receipt.source_uid == owner_of b)
    || not (receipt.binding_uid == b.uid)
    || not (text_at (owner_of b) state.binding_uids == b.uid)
    || not (receipt.ledger_uid == ledger.uid)
    || not (same_allocation receipt.allocation a)

-- `validateAllocationReceipts`
unfoldable pub validate_allocation_receipts :
    ReceiptCodec → ConfigMap → AllocatorState → List NetworkBinding → Result (Unit {0})
validate_allocation_receipts codec ledger state [] = ok tt
validate_allocation_receipts codec ledger state (b ∷ bindings) =
    let rest = validate_allocation_receipts codec ledger state bindings in
    if receipt_of b == ""
    then rest
    else reject
        (bad_receipt ledger state b (find (owner_of b) state.allocations)
          (codec.decode_receipt (receipt_of b)))
        "local allocation receipt does not match retained ledger; fenced recovery required"
      >> rest

unfoldable pub is_evidence : NetworkBinding → Bool
is_evidence b =
    not (receipt_of b == "")
    || not (is_empty b.status.resources)
    || not (is_empty b.status.gateways)
    || not (b.status.applied_revision == "")

-- `bootstrapAllocationEvidence`
unfoldable pub bootstrap_allocation_evidence : List NetworkBinding → Bool
bootstrap_allocation_evidence bindings = any is_evidence bindings
