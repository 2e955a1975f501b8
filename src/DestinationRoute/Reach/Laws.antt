-- ===== src/DestinationRoute/Reach/Laws.antt =====
-- The children of a destination are its two halves.
use native.Mathlib.Nat.{div-div-eq-div-mul, pow-suc, mul-div_cancel, mul-add-div_right, div_self}
use kube_ovn_global_vpc.Prelude.{
  ℕ, suc, ◌+◌, ◌-◌, ◌*◌, ◌/◌, ◌^◌, ◌≤◌, ◌<◌, ◌≡◌, refl, sym, ap, ◌∙◌, true, ◌||◌, Option, some,
  none, eqb, ◌≢◌, String, List, Some, any-Some, Some-map, arith, Some-any, ◌↔◌, Map, All, All-map,
  ok,
}
use kube_ovn_global_vpc.Netip.Prefix.{
  Prefix, block, masked_addr, prefix_text, parse_prefix, contains,
}
use kube_ovn_global_vpc.Netip.Blocks.{pow_pos, Disjoint}
use kube_ovn_global_vpc.Netip.Parse.{parse_addr}
use kube_ovn_global_vpc.Netip.Prefix.Bounds.{parse_prefix-lt, masked-addr_of_text}
use kube_ovn_global_vpc.Netip.Prefix.RoundTrip.{parse_prefix-prefix_text}
use kube_ovn_global_vpc.SiteConfig.Prefix.{last_address}
use kube_ovn_global_vpc.SiteConfig.Prefix.Laws.{last_address-lt}
use kube_ovn_global_vpc.DestinationRoute.Types.{Bfd, Intent, Plan}
use kube_ovn_global_vpc.DestinationRoute.Compile.{compile}
use kube_ovn_global_vpc.DestinationRoute.Compile.Laws.{IsRoute, compile-IsPlan}
use kube_ovn_global_vpc.DestinationRoute.Reach.{
  set_bit, halves, reaches, reaches_text, broadcast, reachable_gateway, children,
}

-- dividing an aligned number, and the number half a block further on
half_facts : (m n : ℕ) → 0 < n → (m * (n * 2) / n ≡ m * 2) × ((m * (n * 2) + n) / n ≡ m * 2 + 1)
half_facts m n h =
    let regroup : m * (n * 2) ≡ m * 2 * n = omega arith in
    (
      rw regroup (mul-div_cancel (m * 2) h),
      rw regroup (mul-add-div_right h (m * 2) n ∙ ap (λ k. m * 2 + k) (div_self h)),
    )

contains_at :
    (q : Prefix) (a k : ℕ) → 32 - q.bits ≡ k → contains q a ≡ eqb (a / 2 ^ k) (q.addr / 2 ^ k)
unfolding contains
contains_at q a k e = ap (λ j. eqb (a / 2 ^ j) (q.addr / 2 ^ j)) e

-- a number is in a pair exactly when it is one of the two
pair_cases : (x m : ℕ) → eqb (x / 2) m ≡ (eqb x (m * 2) || eqb x (m * 2 + 1))
pair_cases x m = ground arith

-- Both halves are one bit longer, no address lies in both, and an address lies in the network
-- exactly when it lies in a half.
pub record AreHalves (p l r : Prefix) : Type 0 where
  pub left_longer : l.bits ≡ p.bits + 1
  pub right_longer : r.bits ≡ p.bits + 1
  pub apart : Disjoint l r
  pub whole : (a : ℕ) → contains p a ≡ (contains l a || contains r a)

-- An aligned network of at most 31 bits has two halves: one bit longer, without a common address,
-- and together the network.
pub halves-AreHalves :
    (p : Prefix)
    → p.bits ≤ 31
    → masked_addr p ≡ p.addr
    → (l : Prefix) × (r : Prefix) × (halves p ≡ some (l, r)) × AreHalves p l r
halves-AreHalves p h aligned =
    let n : ℕ = 2 ^ (31 - p.bits) in
    let m : ℕ = p.addr / block p.bits in
    let shift : 32 - p.bits ≡ suc (31 - p.bits) = omega arith in
    let size : block p.bits ≡ n * 2 = ap (λ k. 2 ^ k) shift ∙ pow-suc 2 (31 - p.bits) in
    let addr : p.addr ≡ m * (n * 2) = sym aligned ∙ ap (λ k. m * k) size in
    let (low, high) = half_facts m n (pow_pos (31 - p.bits)) in
    let low_addr : p.addr / n ≡ m * 2 = ap (λ k. k / n) addr ∙ low in
    let high_addr : (p.addr + n) / n ≡ m * 2 + 1 = ap (λ k. (k + n) / n) addr ∙ high in
    (
      record p { bits = p.bits + 1 },
      record { addr = p.addr + n; bits = p.bits + 1 },
      unfold halves set_bit in ground arith,
      record {
        left_longer = refl;
        right_longer = refl;
        apart = λ a e.
            let left = contains_at (record p { bits = p.bits + 1 }) a (31 - p.bits) (omega arith) in
            let right =
              contains_at (record { addr = p.addr + n; bits = p.bits + 1 }) a (31 - p.bits)
                (omega arith) in
            ground arith;
        whole = λ a.
            let left = contains_at (record p { bits = p.bits + 1 }) a (31 - p.bits) (omega arith) in
            let right =
              contains_at (record { addr = p.addr + n; bits = p.bits + 1 }) a (31 - p.bits)
                (omega arith) in
            let both : contains p a ≡ eqb (a / n / 2) m =
              unfold contains in
              ap (λ k. eqb k m) (ap (λ k. a / k) size ∙ sym (div-div-eq-div-mul a n 2)) in
            both ∙ pair_cases (a / n) m ∙ ground arith;
      },
    )

-- how a network reaches a next hop: the next hop is another host of it
pub record Reaches (a : ℕ) (raw : String) : Type 0 where
  pub network : Prefix
  pub parsed : parse_prefix raw ≡ some network
  pub inside : contains network a ≡ true
  pub not_router : a ≢ network.addr
  pub not_network : a ≢ masked_addr network
  pub not_broadcast : network.bits < 31 → a ≢ broadcast network

text-Reaches : (a : ℕ) (raw : String) → reaches_text a raw ≡ true → Reaches a raw
text-Reaches a raw h = by_parse (parse_prefix raw) refl h
  where
    by_parse : (o : Option Prefix) → parse_prefix raw ≡ o → reaches a o ≡ true → Reaches a raw
    by_parse none e h = absurd (unfold reaches in cc h)
    by_parse (some p) e h =
        unfold reaches in
        record {
          network = p;
          parsed = e;
          inside = ground arith;
          not_router = λ k. ground arith;
          not_network = λ k. ground arith;
          not_broadcast = λ l k. ground arith;
        }

Reaches-text : (a : ℕ) (raw : String) → Reaches a raw → reaches_text a raw ≡ true
unfolding reaches
Reaches-text a raw k =
    rw k.parsed (ground (arith, k.inside, k.not_router, k.not_network, k.not_broadcast))

-- An address is reachable as a next hop exactly when some network reaches it: it is another host of
-- the network than its router, and neither its network nor, below /31, its broadcast address.
pub reachable_gateway-Reaches :
    (hop : String) (networks : List String) {a : ℕ}
    → parse_addr hop ≡ some a
    → (reachable_gateway hop networks ≡ true) ↔ Some (Reaches a) networks
unfolding reachable_gateway
reachable_gateway-Reaches hop networks {a} e = (
  (λ h.
      Some-map (text-Reaches a) networks
        (any-Some (reaches_text a) networks (rw (reachable_gateway, e) at h))),
  λ m.
      rw (reachable_gateway, e)
        (Some-any (reaches_text a) networks (Some-map (Reaches-text a) networks m)),
)

halves_below :
    (p : Prefix) {l r : Prefix}
    → halves p ≡ some (l, r)
    → (l.addr ≤ p.addr) × (r.addr ≤ p.addr + 2 ^ (31 - p.bits))
unfolding halves set_bit
halves_below p h = ground arith

-- `Children` of a text: two texts, of the two halves of the destination
pub record HasChildren (r : Intent) : Type 0 where
  pub left : String
  pub right : String
  pub result : children r.cidr ≡ some (left, right)
  pub destination : Prefix
  pub parsed : parse_prefix r.cidr ≡ some destination
  pub left_half : Prefix
  pub left_parsed : parse_prefix left ≡ some left_half
  pub right_half : Prefix
  pub right_parsed : parse_prefix right ≡ some right_half
  pub halved : AreHalves destination left_half right_half

last_fits :
    (p : Prefix)
    → p.bits ≤ 31
    → p.addr < 2 ^ 32
    → masked_addr p ≡ p.addr
    → p.addr + 2 ^ (31 - p.bits) < 2 ^ 32
last_fits p h k aligned =
    let shift : 32 - p.bits ≡ suc (31 - p.bits) = omega arith in
    let size : block p.bits ≡ 2 ^ (31 - p.bits) * 2 =
      ap (λ k. 2 ^ k) shift ∙ pow-suc 2 (31 - p.bits) in
    let below : last_address p < 2 ^ 32 = last_address-lt p (omega arith) k in
    let last : last_address p ≡ masked_addr p + (block p.bits - 1) = unfold last_address in refl in
    omega (arith, size, below, last, aligned, pow_pos (31 - p.bits))

children_of_route : (s : Map Bfd) (r : Intent) → IsRoute s r → HasChildren r
unfolding children prefix_text
children_of_route s r k =
    let p = k.destination in
    let range = parse_prefix-lt r.cidr k.parsed in
    let aligned = masked-addr_of_text r.cidr k.parsed k.canonical in
    let (l, h, split, halved) = halves-AreHalves p k.not_host aligned in
    let (low, high) = halves_below p split in
    let fits = last_fits p k.not_host range.0 aligned in
    record {
      left = prefix_text l;
      right = prefix_text h;
      result = rw (children, k.parsed, split) refl;
      destination = p;
      parsed = k.parsed;
      left_half = l;
      left_parsed =
          parse_prefix-prefix_text l (omega (arith, range.0))
            (omega (arith, k.not_host, halved.left_longer));
      right_half = h;
      right_parsed =
          parse_prefix-prefix_text h (omega arith) (omega (arith, k.not_host, halved.right_longer));
      halved = halved;
    }

-- Every route of an accepted plan has children, which are the texts of the two halves of its
-- destination.
pub compile-HasChildren :
    (hash : List Intent → String) (input : List Intent) (plan : Plan)
    → compile hash input ≡ ok plan
    → All HasChildren plan.routes
compile-HasChildren hash input plan h =
    All-map (children_of_route plan.sessions) plan.routes (compile-IsPlan hash input plan h).routes
