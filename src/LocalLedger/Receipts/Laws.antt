-- ===== src/LocalLedger/Receipts/Laws.antt =====
-- What a validated receipt says.
use kube_ovn_global_vpc.Prelude.{
  true, false, Option, none, some, List, [], ◌∷◌, find, text_at, ◌==◌, text_eq, All, or-false,
  not-false, and-true, ap, ◌∙◌, ◌≡◌, ◌≢◌, refl, inl, inr, Bool-cases, ok, reject-eq-ok,
}
use kube_ovn_global_vpc.Kube.Client.{ConfigMap}
use kube_ovn_global_vpc.Binding.{NetworkBinding}
use kube_ovn_global_vpc.LocalLedger.{Allocation, AllocatorState}
use kube_ovn_global_vpc.LocalLedger.Receipts.{
  AllocationReceipt, ReceiptCodec, receipt_of, owner_of, same_allocation, bad_receipt,
  validate_allocation_receipts,
}

module _ (codec : ReceiptCodec) (ledger : ConfigMap) (state : AllocatorState) where
  -- The receipt of a binding is the one that the ledger would give it.
  pub record IsReceipt (b : NetworkBinding) : Type 0 where
    pub allocation : Allocation
    pub retained : find (owner_of b) state.allocations ≡ some allocation
    pub bound : text_at (owner_of b) state.binding_uids ≡ b.uid
    pub decoded :
        codec.decode_receipt (receipt_of b)
        ≡ some (record {
          cluster_uid = state.cluster_uid;
          source_uid = owner_of b;
          binding_uid = b.uid;
          ledger_uid = ledger.uid;
          allocation = allocation;
        })

  allocation_eq : (a b : Allocation) → same_allocation a b ≡ true → a ≡ b
  unfolding same_allocation
  allocation_eq a b h =
      let (front, third) = and-true _ _ h in
      let (first, second) = and-true _ _ front in
      let e₁ : a.transit_cidr ≡ b.transit_cidr = text_eq _ _ first in
      let e₂ : a.router_ip ≡ b.router_ip = text_eq _ _ second in
      let e₃ : a.bfd_source_ip ≡ b.bfd_source_ip = text_eq _ _ third in
      λ i. record { transit_cidr = e₁ i; router_ip = e₂ i; bfd_source_ip = e₃ i }

  abbrev expected : NetworkBinding → Allocation → AllocationReceipt
  expected b a = record {
    cluster_uid = state.cluster_uid;
    source_uid = owner_of b;
    binding_uid = b.uid;
    ledger_uid = ledger.uid;
    allocation = a;
  }

  bad_receipt-IsReceipt :
      (b : NetworkBinding) (o : Option Allocation) (r : Option AllocationReceipt)
      → find (owner_of b) state.allocations ≡ o
      → codec.decode_receipt (receipt_of b) ≡ r
      → bad_receipt ledger state b o r ≡ false
      → IsReceipt b
  unfolding bad_receipt
  bad_receipt-IsReceipt b none r e f h = absurd (cc h)
  bad_receipt-IsReceipt b (some a) none e f h = absurd (cc h)
  bad_receipt-IsReceipt b (some a) (some receipt) e f h =
      let (h₅, last) = or-false _ _ h in
      let (h₄, fifth) = or-false _ _ h₅ in
      let (h₃, fourth) = or-false _ _ h₄ in
      let (h₂, third) = or-false _ _ h₃ in
      let (first, second) = or-false _ _ h₂ in
      let e₁ : receipt.cluster_uid ≡ state.cluster_uid = text_eq _ _ (not-false _ first) in
      let e₂ : receipt.source_uid ≡ owner_of b = text_eq _ _ (not-false _ second) in
      let e₃ : receipt.binding_uid ≡ b.uid = text_eq _ _ (not-false _ third) in
      let e₅ : receipt.ledger_uid ≡ ledger.uid = text_eq _ _ (not-false _ fifth) in
      let e₆ : receipt.allocation ≡ a = allocation_eq receipt.allocation a (not-false _ last) in
      let whole : receipt ≡ expected b a = λ i. record {
        cluster_uid = e₁ i;
        source_uid = e₂ i;
        binding_uid = e₃ i;
        ledger_uid = e₅ i;
        allocation = e₆ i;
      } in
      record {
        allocation = a;
        retained = e;
        bound = text_eq _ _ (not-false _ fourth);
        decoded = f ∙ ap some whole;
      }

  -- Where the validation passes, every binding that has a receipt has the one that the ledger gives
  -- it: for its source, its own identity, this ledger and the allocation that is retained.
  pub validate_allocation_receipts-IsReceipt :
      (bindings : List NetworkBinding)
      → validate_allocation_receipts codec ledger state bindings ≡ ok tt
      → All (λ b. receipt_of b ≢ "" → IsReceipt b) bindings
  unfolding validate_allocation_receipts
  validate_allocation_receipts-IsReceipt [] h = tt
  validate_allocation_receipts-IsReceipt (b ∷ bindings) h = elim (Bool-cases (receipt_of b == "")) [
    | inl empty ↦ (
      (λ full. absurd (full (text_eq _ _ empty))),
      validate_allocation_receipts-IsReceipt bindings (rw empty at h),
    )
    | inr full ↦
        let (good, rest) =
          reject-eq-ok
            (bad_receipt ledger state b (find (owner_of b) state.allocations)
              (codec.decode_receipt (receipt_of b)))
            _ _ (rw full at h) in
        (
          (λ _. bad_receipt-IsReceipt b _ _ refl refl good),
          validate_allocation_receipts-IsReceipt bindings rest,
        )
  ]
