-- ===== src/SiteConfig/Prefix/Laws.antt =====
-- What `Prefix` and `Host` accept.
use kube_ovn_global_vpc.Prelude.{
  ℕ, ◌+◌, ◌-◌, ◌*◌, ◌/◌, ◌^◌, ◌≤◌, ◌<◌, ◌≡◌, ◌≢◌, ◌↔◌, ◌⊎◌, inl, inr, refl, sym, ap, ◌∙◌, Option,
  String, true, false, some, none, eq_iff, ok, arith, eqb_iff,
}
use kube_ovn_global_vpc.Netip.Parse.{addr_text, parse_addr}
use kube_ovn_global_vpc.Netip.Parse.Bounds.{parse_addr-lt}
use kube_ovn_global_vpc.Netip.Parse.RoundTrip.{parse_addr-addr_text}
use kube_ovn_global_vpc.Netip.Prefix.{
  Prefix, block, parse_prefix, prefix_text, masked_text, masked_addr, contains, is_global_unicast,
  is_link_local,
}
use kube_ovn_global_vpc.Netip.Prefix.Bounds.{parse_prefix-lt, masked-addr_of_text}
use kube_ovn_global_vpc.Netip.Prefix.RoundTrip.{parse_prefix-prefix_text}
use kube_ovn_global_vpc.Netip.Blocks.{pow_pos, pow-add, coarsen, contains_bounds, bounds-contains}
use kube_ovn_global_vpc.SiteConfig.Prefix.{prefix, check_prefix, check_host, host, last_address}

-- A canonical network of a usable size, whose ends are unicast addresses.
pub record IsNetwork (p : Prefix) : Type 0 where
  pub small : 8 ≤ p.bits
  pub large : p.bits ≤ 30
  pub in_range : p.addr < 2 ^ 32
  pub aligned : masked_addr p ≡ p.addr
  pub first_unicast : is_global_unicast p.addr ≡ true
  pub last_unicast : is_global_unicast (last_address p) ≡ true

check_prefix-accepts :
    (raw : String) (o : Option Prefix) {p : Prefix}
    → check_prefix raw o ≡ ok p
    → (o ≡ some p)
      × (8 ≤ p.bits)
      × (p.bits ≤ 30)
      × (masked_text p ≡ raw)
      × (is_global_unicast p.addr ≡ true)
      × (is_global_unicast (last_address p) ≡ true)
unfolding check_prefix
check_prefix-accepts raw none {p} h = cc
check_prefix-accepts raw (some q) {p} h = ground (arith, eq_iff (masked_text q) raw)

check_prefix-accepted :
    (raw : String) (p : Prefix)
    → IsNetwork p
    → prefix_text (record { addr = masked_addr p; bits = p.bits }) ≡ raw
    → check_prefix raw (some p) ≡ ok p
unfolding check_prefix is_global_unicast masked_text
check_prefix-accepted raw p n text =
    ground (arith, eq_iff (masked_text p) raw, n.first_unicast, n.last_unicast, n.small, n.large)

-- `Prefix` accepts a text exactly when it is the text of a canonical network of 8 to 30 bits whose
-- ends are unicast addresses, and returns the network.
pub prefix-IsNetwork :
    (raw : String) {p : Prefix} → (prefix raw ≡ ok p) ↔ (IsNetwork p × (prefix_text p ≡ raw))
prefix-IsNetwork raw {p} = (accepts, accepted)
  where
    accepts : prefix raw ≡ ok p → IsNetwork p × (prefix_text p ≡ raw)
    accepts h =
        let (parsed, small, large, text, first, last) =
          check_prefix-accepts raw (parse_prefix raw) {p = p} (unfold prefix in h) in
        let range = parse_prefix-lt raw parsed in
        let same = masked-addr_of_text raw parsed text in
        (
          record {
            small = small;
            large = large;
            in_range = range.0;
            aligned = same;
            first_unicast = first;
            last_unicast = last;
          },
          ap (λ n. prefix_text (record { addr = n; bits = p.bits })) (sym same)
              ∙ (unfold masked_text in text),
        )

    accepted : IsNetwork p × (prefix_text p ≡ raw) → prefix raw ≡ ok p
    accepted (n, text) =
        let parsed : parse_prefix raw ≡ some p =
          ap parse_prefix (sym text)
          ∙ parse_prefix-prefix_text p n.in_range (omega (arith, n.large)) in
        unfold prefix in
        rw parsed (
          check_prefix-accepted raw p n
            (ap (λ m. prefix_text (record { addr = m; bits = p.bits })) n.aligned ∙ text))

-- A unicast address strictly inside a network.
pub record IsHost (p : Prefix) (a : ℕ) : Type 0 where
  pub in_range : a < 2 ^ 32
  pub inside : contains p a ≡ true
  pub not_network : a ≢ p.addr
  pub not_broadcast : a ≢ last_address p
  pub unicast : is_global_unicast a ≡ true

check_host-accepts :
    (raw : String) (p : Prefix) (o : Option ℕ) {a : ℕ}
    → check_host raw p o ≡ ok a
    → (o ≡ some a)
      × (addr_text a ≡ raw)
      × (contains p a ≡ true)
      × (a ≢ p.addr)
      × (a ≢ last_address p)
      × (is_global_unicast a ≡ true)
unfolding check_host
check_host-accepts raw p none {a} h = cc
check_host-accepts raw p (some b) {a} h = ground (arith, eq_iff (addr_text b) raw)

-- `Host` accepts a text exactly when it is the text of a unicast address strictly inside the
-- network, and returns the address.
pub host-IsHost :
    (raw : String) (p : Prefix) {a : ℕ} → (host raw p ≡ ok a) ↔ (IsHost p a × (addr_text a ≡ raw))
host-IsHost raw p {a} = (accepts, accepted)
  where
    accepts : host raw p ≡ ok a → IsHost p a × (addr_text a ≡ raw)
    accepts h =
        let (parsed, text, inside, first, last, unicast) =
          check_host-accepts raw p (parse_addr raw) {a = a} (unfold host in h) in
        (
          record {
            in_range = parse_addr-lt raw parsed;
            inside = inside;
            not_network = first;
            not_broadcast = last;
            unicast = unicast;
          },
          text,
        )

    accepted : IsHost p a × (addr_text a ≡ raw) → host raw p ≡ ok a
    accepted (n, text) =
        let parsed : parse_addr raw ≡ some a =
          ap parse_addr (sym text) ∙ parse_addr-addr_text a n.in_range in
        unfold host check_host in rw parsed (ground (arith, eq_iff (addr_text a) raw))

-- A host of a network lies strictly between its first and its last address.
pub IsHost-bounds :
    (p : Prefix) (a : ℕ) → IsNetwork p → IsHost p a → (p.addr < a) × (a < last_address p)
unfolding last_address
IsHost-bounds p a n h = omega (arith, contains_bounds p a h.inside, n.aligned)

block_fits : (a b n : ℕ) → a < n * b → a / b * b + b ≤ n * b
block_fits a b n h = grind arith

pub last_address-lt : (p : Prefix) → p.bits ≤ 32 → p.addr < 2 ^ 32 → last_address p < 2 ^ 32
unfolding last_address
last_address-lt p h k =
    let whole : 32 ≡ p.bits + (32 - p.bits) = omega arith in
    let split : 2 ^ 32 ≡ 2 ^ p.bits * block p.bits =
      ap (λ n. 2 ^ n) whole ∙ pow-add p.bits (32 - p.bits) in
    omega (
      arith,
      split,
      block_fits p.addr (block p.bits) (2 ^ p.bits) (omega (arith, split)),
      pow_pos (32 - p.bits),
    )

-- No address of an accepted network is unspecified, broadcast, loopback or multicast; none is
-- link-local where the network is a /16 or longer.
pub network-unicast :
    (p : Prefix) (a : ℕ)
    → IsNetwork p
    → contains p a ≡ true
    → (16 ≤ p.bits) ⊎ (is_link_local a ≡ false)
    → is_global_unicast a ≡ true
network-unicast p a n h w =
    let bounds = contains_bounds p a h in
    let below = last_address-lt p (omega (arith, n.large)) n.in_range in
    let same : a / block p.bits ≡ p.addr / block p.bits = unfold contains in (eqb_iff _ _).0 h in
    unicast_of_ends (omega (arith, n.small)) bounds below same
  where
    unicast_of_ends :
        32 - p.bits ≤ 24
        → (masked_addr p ≤ a) × (a < masked_addr p + block p.bits)
        → last_address p < 2 ^ 32
        → a / block p.bits ≡ p.addr / block p.bits
        → is_global_unicast a ≡ true
    unicast_of_ends small bounds below same =
        unfold is_global_unicast last_address in
        ground (
          arith,
          n.aligned,
          n.first_unicast,
          n.last_unicast,
          coarsen a p.addr {j = 32 - p.bits} {k = 24} small same,
          coarsen a p.addr {j = 32 - p.bits} {k = 28} (omega arith) same,
          λ (l : 16 ≤ p.bits). coarsen a p.addr {j = 32 - p.bits} {k = 16} (omega arith) same,
        )

-- no address of a network is link-local
abbrev pub NoLinkLocal : Prefix → Type 0
NoLinkLocal p = (a : ℕ) → contains p a ≡ true → is_link_local a ≡ false

-- in an accepted network of length 16 or more none is
pub long-NoLinkLocal : (p : Prefix) → IsNetwork p → 16 ≤ p.bits → NoLinkLocal p
unfolding is_global_unicast
long-NoLinkLocal p n long a h =
    let unicast = network-unicast p a n h (inl long) in ground (arith, unicast)

-- An address strictly between the first and the last one of a network without link-local addresses
-- is a host of it.
pub between-IsHost :
    (p : Prefix) (a : ℕ)
    → IsNetwork p
    → NoLinkLocal p
    → p.addr < a
    → a < last_address p
    → IsHost p a
between-IsHost p a n clean low high =
    let top = last_address-lt p (omega (arith, n.large)) n.in_range in
    let whole : last_address p ≡ masked_addr p + (block p.bits - 1) = unfold last_address in refl in
    let inside : contains p a ≡ true =
      bounds-contains p a (omega (arith, n.aligned)) (omega (arith, n.aligned, whole)) in
    record {
      in_range = omega arith;
      inside = inside;
      not_network = λ e. omega arith;
      not_broadcast = λ e. omega arith;
      unicast = network-unicast p a n inside (inr (clean a inside));
    }
