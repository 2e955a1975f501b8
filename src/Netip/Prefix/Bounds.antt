-- ===== src/Netip/Prefix/Bounds.antt =====
-- A parsed prefix is in range.
use native.Mathlib.Nat.{div-mul-le_self}
use kube_ovn_global_vpc.Prelude.{
  ap, sym, ◌∙◌, Option, none, ◌^◌, ◌≤◌, ◌<◌, ◌≡◌, String, some, arith,
}
use kube_ovn_global_vpc.Netip.Parse.Bounds.{parse_addr-lt, parse_bits-le}
use kube_ovn_global_vpc.Netip.Prefix.{Prefix, block, masked_addr, masked_text, parse_prefix}
use kube_ovn_global_vpc.Netip.Prefix.RoundTrip.{parse_prefix-prefix_text}

-- A parsed prefix has a 32-bit address and a length of at most 32.
pub parse_prefix-lt :
    (s : String) {p : Prefix} → parse_prefix s ≡ some p → (p.addr < 2 ^ 32) × (p.bits ≤ 32)
unfolding parse_prefix
parse_prefix-lt s {p} h = grind (arith, parse_addr-lt, parse_bits-le)

-- A prefix that is read from its own masked text is masked.
pub masked-addr_of_text :
    (raw : String) {p : Prefix}
    → parse_prefix raw ≡ some p
    → masked_text p ≡ raw
    → masked_addr p ≡ p.addr
masked-addr_of_text raw {p} parsed text =
    let range = parse_prefix-lt raw parsed in
    let m : Prefix = record p { addr = masked_addr p } in
    let low : masked_addr p ≤ p.addr = div-mul-le_self p.addr (block p.bits) in
    let again : parse_prefix raw ≡ some m =
      ap parse_prefix (sym text)
      ∙ (unfold masked_text in parse_prefix-prefix_text m (omega arith) range.1) in
    ap (λ (o : Option Prefix). elim o [ none ↦ 0 | some q ↦ q.addr ]) (sym again ∙ parsed)
