-- ===== src/ManagedGateway/Decode/RoundTrip.antt =====
-- A stored registry is read back.
use kube_ovn_global_vpc.Prelude.{
  false, not, ◌||◌, some, text_at, text_at-put, ◌==◌, eq_iff, eq_refl, ◌≡◌, refl, ◌∙◌, ap, subst,
  arith, ok, reject-eq-ok, >>=-eq-ok, ok-injective, or-false, not-false, text_ne, text_eq, ◌≢◌,
}
use kube_ovn_global_vpc.Kube.Client.{ConfigMap, StoredAs}
use kube_ovn_global_vpc.Netip.Prefix.{Prefix}
use kube_ovn_global_vpc.ManagedGateway.Types.{
  Settings, AllocationRegistry, Codec, component_label, ledger_data, registry_digest_annotation,
  store_registry,
}
use kube_ovn_global_vpc.ManagedGateway.Decode.{decoded, check_registry, decode_registry}
use kube_ovn_global_vpc.ManagedGateway.Decode.Laws.{IsRegistry, check_registry-IsRegistry}

-- JSON as the program uses it: what it encodes, it decodes. A list of entries stands for a map, of
-- which no order matters.
abbrev pub IsCodec : Codec → Type 0
IsCodec codec = (reg : AllocationRegistry) → codec.decode (codec.encode reg) ≡ some reg

-- an accepted object has an identity and the allocator's label, and holds a valid registry
pub record IsAccepted (codec : Codec) (s : Settings) (cm : ConfigMap) (reg : AllocationRegistry)
    : Type 0 where
  pub identified : cm.uid ≢ ""
  pub labelled : text_at component_label cm.labels ≡ "gateway-allocator"
  pub checked : check_registry s reg ≡ ok tt

module _ (codec : Codec) (s : Settings) where
  pub decode_registry-IsAccepted :
      (cm : ConfigMap) {reg : AllocationRegistry}
      → decode_registry codec s cm ≡ ok reg
      → IsAccepted codec s cm reg
  unfolding decode_registry
  decode_registry-IsAccepted cm {reg} h =
      let (good, h₁) =
        reject-eq-ok
          (cm.uid == ""
            || not (text_at component_label cm.labels == "gateway-allocator")
            || not (
                text_at registry_digest_annotation cm.annotations
                == codec.digest (text_at ledger_data cm.values)))
          _ _ h in
      let (read, _, h₂) = >>=-eq-ok (decoded (codec.decode (text_at ledger_data cm.values))) _ h₁ in
      let (_, checked, h₃) = >>=-eq-ok (check_registry s read) _ h₂ in
      let same : read ≡ reg = ok-injective h₃ in
      let (both, _) = or-false _ _ good in
      let (first, second) = or-false _ _ both in
      record {
        identified = text_ne _ _ first;
        labelled = text_eq _ _ (not-false _ second);
        checked = subst (λ r. check_registry s r ≡ ok tt) same checked;
      }

  -- A valid registry that is written into an object of the allocator is read back from the object
  -- that the server stores for it.
  pub decode_registry-store_registry :
      IsCodec codec
      → (cm out : ConfigMap) (pool : Prefix) (reg : AllocationRegistry)
      → text_at component_label cm.labels ≡ "gateway-allocator"
      → StoredAs (store_registry codec cm reg) out
      → out.uid ≢ ""
      → IsRegistry s pool reg
      → decode_registry codec s out ≡ ok reg
  unfolding decode_registry store_registry
  decode_registry-store_registry law cm out pool reg labelled stored identified r =
      let values : text_at ledger_data out.values ≡ codec.encode reg =
        ap (λ (c : ConfigMap). text_at ledger_data c.values) stored ∙ (unfold text_at in refl) in
      let digest : text_at registry_digest_annotation out.annotations
          ≡ codec.digest (codec.encode reg) =
        ap (λ (c : ConfigMap). text_at registry_digest_annotation c.annotations) stored
        ∙ text_at-put registry_digest_annotation (codec.digest (codec.encode reg)) cm.annotations in
      let label : text_at component_label out.labels ≡ "gateway-allocator" =
        ap (λ (c : ConfigMap). text_at component_label c.labels) stored ∙ labelled in
      let checked : check_registry s reg ≡ ok tt = (check_registry-IsRegistry s reg).1 (pool, r) in
      let named : (out.uid == "") ≡ false = ground (arith, eq_iff out.uid "") in
      rw (named, label, values, digest, eq_refl, law) (unfold decoded in rw checked refl)
