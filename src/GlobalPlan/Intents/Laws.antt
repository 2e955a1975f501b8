-- ===== src/GlobalPlan/Intents/Laws.antt =====
-- The attachments that `Build` accepts.
use kube_ovn_global_vpc.Prelude.{
  ℕ, String, false, not, Option, none, some, List, [], ◌∷◌, any, any-false, All, All-map, Pairs,
  eqb, contains_text, contains_text-false, ◌≡◌, ◌≢◌, refl, sym, ◌∙◌, ap, subst, arith, ok,
  >>=-eq-ok, reject-eq-ok, ok-injective,
}
use kube_ovn_global_vpc.Netip.Prefix.{Prefix, overlaps}
use kube_ovn_global_vpc.Netip.Blocks.{Disjoint, Disjoint-symm, overlaps-Disjoint}
use kube_ovn_global_vpc.SiteConfig.Prefix.{prefix, host}
use kube_ovn_global_vpc.SiteConfig.Validate.Delegated.{TextsDisjoint}
use kube_ovn_global_vpc.GlobalPlan.Config.{Cluster}
use kube_ovn_global_vpc.GlobalPlan.Types.{Attachment}
use kube_ovn_global_vpc.GlobalPlan.Intents.{cluster_of, registered, check_intents}

-- an attachment to a registered cluster, with a network, a gateway in it and a transit address;
-- none of them is that of an earlier attachment
pub record IsIntent (clusters : List Cluster) (transit : Prefix) (seen : List String)
    (addresses : List ℕ) (prefixes : List Prefix) (a : Attachment) : Type 0 where
  pub cluster : Cluster
  pub found : cluster_of a.cluster_ref clusters ≡ some cluster
  pub subnet : Prefix
  pub parsed : prefix a.cidr ≡ ok subnet
  pub gateway : (n : ℕ) × (host a.gateway subnet ≡ ok n)
  pub address : ℕ
  pub addressed : host a.transit_ip transit ≡ ok address
  pub new_cluster : All (λ s. s ≢ a.cluster_ref) seen
  pub new_address : All (λ n. eqb address n ≡ false) addresses
  pub new_prefix : All (Disjoint subnet) prefixes

-- two attachments share neither a cluster nor an address nor a transit address
abbrev pub Separate : Attachment → Attachment → Type 0
Separate a b =
    (a.cluster_ref ≢ b.cluster_ref) × TextsDisjoint a.cidr b.cidr × (a.transit_ip ≢ b.transit_ip)

found_cluster : (o : Option Cluster) → not (registered o) ≡ false → (c : Cluster) × (o ≡ some c)
found_cluster none h = absurd (cc h)
found_cluster (some c) h = (c, refl)

module _ (clusters : List Cluster) (transit : Prefix) where
  apart :
      (a : Attachment) (seen : List String) (addresses : List ℕ) (prefixes : List Prefix)
      (subnet : Prefix) (address : ℕ)
      → prefix a.cidr ≡ ok subnet
      → host a.transit_ip transit ≡ ok address
      → (b : Attachment)
      → IsIntent clusters transit (a.cluster_ref ∷ seen) (address ∷ addresses) (subnet ∷ prefixes) b
      → Separate a b
  apart a seen addresses prefixes subnet address parsed addressed b k = (
    k.new_cluster.0,
    (λ p q e f.
        subst (λ n. Disjoint n q) (ok-injective (sym parsed ∙ e))
          (Disjoint-symm q subnet
            (subst (λ n. Disjoint n subnet) (ok-injective (sym k.parsed ∙ f)) k.new_prefix.0))),
    λ e.
        clash k.address address k.new_address.0
          (ok-injective (sym k.addressed ∙ ap (λ t. host t transit) (sym e) ∙ addressed)),
  )
    where
      clash : (m n : ℕ) → eqb m n ≡ false → m ≡ n → ⊥
      clash m n e f = ground arith

  weaken :
      (r : String) (n : ℕ) (p : Prefix) (seen : List String) (addresses : List ℕ)
      (prefixes : List Prefix) (b : Attachment)
      → IsIntent clusters transit (r ∷ seen) (n ∷ addresses) (p ∷ prefixes) b
      → IsIntent clusters transit seen addresses prefixes b
  weaken r n p seen addresses prefixes b k = record {
    cluster = k.cluster;
    found = k.found;
    subnet = k.subnet;
    parsed = k.parsed;
    gateway = k.gateway;
    address = k.address;
    addressed = k.addressed;
    new_cluster = k.new_cluster.1;
    new_address = k.new_address.1;
    new_prefix = k.new_prefix.1;
  }

  pub check_intents-All :
      (seen : List String) (addresses : List ℕ) (prefixes : List Prefix) (intents : List Attachment)
      → check_intents clusters transit seen addresses prefixes intents ≡ ok tt
      → All (IsIntent clusters transit seen addresses prefixes) intents × Pairs Separate intents
  unfolding check_intents
  check_intents-All seen addresses prefixes [] h = (tt, tt)
  check_intents-All seen addresses prefixes (a ∷ rest) h =
      let (known, h₁) = reject-eq-ok (not (registered (cluster_of a.cluster_ref clusters))) _ _ h in
      let (new, h₂) = reject-eq-ok (contains_text a.cluster_ref seen) _ _ h₁ in
      let (subnet, parsed, h₃) = >>=-eq-ok (prefix a.cidr) _ h₂ in
      let (free, h₄) = reject-eq-ok (any (overlaps subnet) prefixes) _ _ h₃ in
      let (gateway, hosted, h₅) = >>=-eq-ok (host a.gateway subnet) _ h₄ in
      let (address, addressed, h₆) = >>=-eq-ok (host a.transit_ip transit) _ h₅ in
      let (unused, h₇) = reject-eq-ok (any (eqb address) addresses) _ _ h₆ in
      let (all, pairs) =
        check_intents-All (a.cluster_ref ∷ seen) (address ∷ addresses) (subnet ∷ prefixes) rest
          h₇ in
      let (cluster, found) = found_cluster (cluster_of a.cluster_ref clusters) known in
      (
        (
          record {
            cluster = cluster;
            found = found;
            subnet = subnet;
            parsed = parsed;
            gateway = (gateway, hosted);
            address = address;
            addressed = addressed;
            new_cluster = contains_text-false a.cluster_ref seen new;
            new_address = any-false (eqb address) addresses unused;
            new_prefix =
                All-map (overlaps-Disjoint subnet) prefixes
                  (any-false (overlaps subnet) prefixes free);
          },
          All-map (weaken a.cluster_ref address subnet seen addresses prefixes) rest all,
        ),
        (All-map (apart a seen addresses prefixes subnet address parsed addressed) rest all, pairs),
      )
