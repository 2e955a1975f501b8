-- ===== src/SiteConfig/Prefix/Gap.antt =====
-- The gap of `Prefix`: its unicast tests look at the two ends of a network alone.
use kube_ovn_global_vpc.Prelude.{
  ◌-◌, ◌/◌, ◌^◌, ◌<◌, eqb, eqb_iff, sym, ◌∙◌, String, ◌≡◌, ◌↔◌, inl, inr, false, leb, leb→le,
  leb→lt, Bool-cases, ok, arith,
}
use kube_ovn_global_vpc.Netip.Blocks.{coarsen}
use kube_ovn_global_vpc.Netip.Prefix.{Prefix, contains, is_link_local}
use kube_ovn_global_vpc.SiteConfig.Prefix.{prefix}
use kube_ovn_global_vpc.SiteConfig.Prefix.Laws.{
  IsNetwork, prefix-IsNetwork, NoLinkLocal, long-NoLinkLocal,
}

link_local_base : is_link_local 2851995648 ≡ false → ⊥
unfolding is_link_local
link_local_base h = cc h

-- a network of length below 16 contains all link-local addresses or none
short-NoLinkLocal : (p : Prefix) → p.bits < 16 → contains p 2851995648 ≡ false → NoLinkLocal p
unfolding contains is_link_local
short-NoLinkLocal p short apart a inside = elim (Bool-cases (eqb (a / 2 ^ 16) 43518)) [
  | inr other ↦ other
  | inl linked ↦
      let same : a / 2 ^ 16 ≡ 2851995648 / 2 ^ 16 = (eqb_iff _ _).0 linked in
      let block_too : a / 2 ^ (32 - p.bits) ≡ 2851995648 / 2 ^ (32 - p.bits) =
        coarsen a 2851995648 {j = 16} {k = 32 - p.bits} (omega arith) same in
      let at : a / 2 ^ (32 - p.bits) ≡ p.addr / 2 ^ (32 - p.bits) = (eqb_iff _ _).0 inside in
      absurd (cc ((eqb_iff _ _).1 (sym block_too ∙ at), apart))
]

-- Of a network that `Prefix` accepts, no address is link-local exactly when the network does not
-- contain 169.254.0.0.
pub prefix-NoLinkLocal :
    (raw : String) (p : Prefix)
    → prefix raw ≡ ok p
    → NoLinkLocal p ↔ (contains p 2851995648 ≡ false)
prefix-NoLinkLocal raw p h = (to, from)
  where
    network : IsNetwork p
    network = ((prefix-IsNetwork raw).0 h).0

    to : NoLinkLocal p → contains p 2851995648 ≡ false
    to clean = elim (Bool-cases (contains p 2851995648)) [
      | inl inside ↦ absurd (link_local_base (clean 2851995648 inside))
      | inr apart ↦ apart
    ]

    from : contains p 2851995648 ≡ false → NoLinkLocal p
    from apart a inside = elim (Bool-cases (leb 16 p.bits)) [
      | inl long ↦ long-NoLinkLocal p network (leb→le 16 p.bits long) a inside
      | inr short ↦ short-NoLinkLocal p (leb→lt 16 p.bits short) apart a inside
    ]
