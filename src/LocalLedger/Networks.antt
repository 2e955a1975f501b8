-- ===== src/LocalLedger/Networks.antt =====
-- Networks of one length, and networks whose ends lie in a pool.
use kube_ovn_global_vpc.Prelude.{
  ℕ, ◌+◌, ◌-◌, ◌*◌, ◌/◌, ◌^◌, String, Bool, true, false, eqb_iff, ◌≡◌, ◌≢◌, refl, sym, ◌∙◌, ap,
  arith, ok,
}
use kube_ovn_global_vpc.Netip.Prefix.{Prefix, block, masked_addr, contains, prefix_text}
use kube_ovn_global_vpc.Netip.Blocks.{Covers, Disjoint, contains_bounds, bounds-contains}
use kube_ovn_global_vpc.SiteConfig.Prefix.{prefix, last_address}
use kube_ovn_global_vpc.SiteConfig.Prefix.Laws.{prefix-IsNetwork}

-- networks of one length with a common address are the same
same_network :
    (p q : Prefix) (a : ℕ)
    → p.bits ≡ q.bits
    → masked_addr p ≡ p.addr
    → masked_addr q ≡ q.addr
    → contains p a ≡ true
    → contains q a ≡ true
    → p.addr ≡ q.addr
unfolding contains
same_network p q a bits mp mq hp hq =
    let k : block p.bits ≡ block q.bits = ap (λ n. 2 ^ (32 - n)) bits in
    let e : a / block p.bits ≡ p.addr / block p.bits = (eqb_iff _ _).0 hp in
    let f : a / block q.bits ≡ q.addr / block q.bits = (eqb_iff _ _).0 hq in
    let g : a / block p.bits ≡ a / block q.bits = ap (λ n. a / n) k in
    let quotients : p.addr / block p.bits ≡ q.addr / block q.bits = sym e ∙ g ∙ f in
    sym mp ∙ ap (λ n. n * block p.bits) quotients ∙ ap (λ n. q.addr / block q.bits * n) k ∙ mq

-- different texts of networks of one length stand for networks without a common address
pub apart_of_texts :
    (r s : String) (p q : Prefix)
    → prefix r ≡ ok p
    → prefix s ≡ ok q
    → p.bits ≡ q.bits
    → r ≢ s
    → Disjoint p q
apart_of_texts r s p q e f bits differ a hp =
    let (np, tp) = (prefix-IsNetwork r).0 e in
    let (nq, tq) = (prefix-IsNetwork s).0 f in
    excluded (contains q a) refl (λ hq.
      let addr = same_network p q a bits np.aligned nq.aligned hp hq in
      differ (
        sym tp
        ∙ ap (λ n. prefix_text (record { addr = n; bits = p.bits })) addr
        ∙ ap (λ n. prefix_text (record { addr = q.addr; bits = n })) bits
        ∙ tq))
  where
    excluded : (b : Bool) → contains q a ≡ b → (contains q a ≡ true → ⊥) → contains q a ≡ false
    excluded true h k = absurd (k h)
    excluded false h k = h

-- an interval whose ends lie in a network lies in it
pub ends-Covers :
    (pool p : Prefix)
    → masked_addr p ≡ p.addr
    → contains pool p.addr ≡ true
    → contains pool (last_address p) ≡ true
    → Covers pool p
ends-Covers pool p aligned first last a h =
    let low = contains_bounds pool p.addr first in
    let high = contains_bounds pool (last_address p) last in
    let inside = contains_bounds p a h in
    let whole : last_address p ≡ masked_addr p + (block p.bits - 1) = unfold last_address in refl in
    bounds-contains pool a (omega arith) (omega arith)
