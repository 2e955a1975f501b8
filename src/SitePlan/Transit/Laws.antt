-- ===== src/SitePlan/Transit/Laws.antt =====
-- The exclusions leave exactly the gateways.
use kube_ovn_global_vpc.Prelude.{
  ℕ, ◌+◌, ◌-◌, ◌≤◌, ◌<◌, ◌≡◌, refl, ◌∙◌, ap, Bool, true, false, not, ◌&&◌, List, [], ◌∷◌, map, any,
  All, All-map, All-sort_by, IsSorted, sort_by, sort_by-IsSorted, any-sort_by, ltb, leb, eqb,
  ltb→le, arith, String,
}
use kube_ovn_global_vpc.Netip.Prefix.{Prefix, next}
use kube_ovn_global_vpc.Netip.Blocks.{block_of_small}
use kube_ovn_global_vpc.SiteConfig.Prefix.{last_address}
use kube_ovn_global_vpc.SiteConfig.Prefix.Laws.{IsNetwork, IsHost, IsHost-bounds}
use kube_ovn_global_vpc.SitePlan.Transit.{exclusion_ranges, transit_ranges, gateway_address}

-- whether an address lies in a range
abbrev pub covers : ℕ → ℕ × ℕ → Bool
covers a (first, last) = leb first a && leb a last

none_below :
    (a g : ℕ) (gs : List ℕ) → a < g → All (λ h. ltb h g ≡ false) gs → any (eqb a) gs ≡ false
unfolding any
none_below a g [] h k = refl
none_below a g (x ∷ gs) h k = ground (arith, none_below a g gs h k.1, k.0)

exclusion_ranges-covers :
    (first last a : ℕ) (gs : List ℕ)
    → IsSorted ltb gs
    → All (λ g. (first ≤ g + 1) × (g ≤ last)) gs
    → any (covers a) (exclusion_ranges first last gs)
      ≡ (leb first a && leb a last && not (any (eqb a) gs))
unfolding exclusion_ranges any
exclusion_ranges-covers first last a [] s h = ground arith
exclusion_ranges-covers first last a (g ∷ gs) s h = ground (
  arith,
  exclusion_ranges-covers (next g) last a gs s.1 (shift g gs s.0 h.1),
  λ (l : a < g). none_below a g gs l s.0,
  h.0,
)
  where
    shift :
        (g : ℕ) (gs : List ℕ)
        → All (λ x. ltb x g ≡ false) gs
        → All (λ x. (first ≤ x + 1) × (x ≤ last)) gs
        → All (λ x. (next g ≤ x + 1) × (x ≤ last)) gs
    shift g [] k l = tt
    shift g (x ∷ gs) k l = (omega (arith, ltb→le x g k.0, l.0), shift g gs k.1 l.1)

ltb_asym : (a b : ℕ) → ltb a b ≡ true → ltb b a ≡ false
ltb_asym a b h = ground arith

ltb_trans : (a b c : ℕ) → ltb b a ≡ false → ltb c b ≡ false → ltb c a ≡ false
ltb_trans a b c h k = ground arith

last_address_pos : (p : Prefix) → IsNetwork p → 0 < last_address p
unfolding last_address
last_address_pos p n = omega (arith, block_of_small p.bits n.large)

-- In a network, an address is excluded exactly when it lies strictly between the first and the
-- last address and is not that of a gateway, if every gateway is a host of the network.
pub transit_ranges-covers :
    (p : Prefix) (gateways : List String) (a : ℕ)
    → IsNetwork p
    → All (λ g. IsHost p g) (map gateway_address gateways)
    → any (covers a) (transit_ranges p gateways)
      ≡ (ltb p.addr a && ltb a (last_address p) && not (any (eqb a) (map gateway_address gateways)))
unfolding transit_ranges
transit_ranges-covers p gateways a n hosts =
    let gs = map gateway_address gateways in
    let bounds : All (λ g. (next p.addr ≤ g + 1) × (g ≤ last_address p - 1)) (sort_by ltb gs) =
      All-sort_by ltb (λ g. (next p.addr ≤ g + 1) × (g ≤ last_address p - 1)) gs
        (All-map (λ g h. omega (arith, IsHost-bounds p g n h)) gs hosts) in
    let covered =
      exclusion_ranges-covers (next p.addr) (last_address p - 1) a (sort_by ltb gs)
        (sort_by-IsSorted ltb ltb_asym ltb_trans gs) bounds in
    covered
    ∙ ends p.addr (last_address p) a (any (eqb a) (sort_by ltb gs)) (last_address_pos p n)
    ∙ ap (λ b. ltb p.addr a && ltb a (last_address p) && not b) (any-sort_by ltb (eqb a) gs)
  where
    ends :
        (first last a : ℕ) (b : Bool)
        → 0 < last
        → (leb (next first) a && leb a (last - 1) && not b) ≡ (ltb first a && ltb a last && not b)
    ends first last a b h = ground arith
