-- ===== src/DestinationRoute/Reach.antt =====
-- `ReachableGateway` and `Children`. Both are called with the texts of an accepted plan, so an
-- IPv6 next hop, of which the parsers here know nothing, does not occur.
pub mod Laws
use kube_ovn_global_vpc.Prelude.{
  ℕ, ◌+◌, ◌-◌, ◌*◌, ◌/◌, ◌%◌, ◌^◌, String, Bool, true, false, not, ◌&&◌, ◌||◌, Option, none, some,
  List, [], ◌∷◌, any, ltb, eqb, if◌then◌else◌,
}
use kube_ovn_global_vpc.Netip.Parse.{addr_text, parse_addr}
use kube_ovn_global_vpc.Netip.Prefix.{
  Prefix, block, masked_addr, parse_prefix, prefix_text, contains,
}

-- `n |= uint32(1)<<(32-p.Bits()) - 1` on the masked address: the last address of the network
abbrev pub broadcast : Prefix → ℕ
broadcast p = masked_addr p + (block p.bits - 1)

-- one round of the loop: whether the network reaches the next hop
unfoldable pub reaches : ℕ → Option Prefix → Bool
reaches a none = false
reaches a (some p) =
    contains p a
    && not (eqb a p.addr)
    && not (eqb a (masked_addr p))
    && not (ltb p.bits 31 && eqb a (broadcast p))

abbrev pub reaches_text : ℕ → String → Bool
reaches_text a raw = reaches a (parse_prefix raw)

unfoldable pub reachable_gateway : String → List String → Bool
reachable_gateway hop networks = elim (parse_addr hop) [
  | none ↦ false
  | some a ↦ any (reaches_text a) networks
]

-- `n |= 1 << k`
unfoldable pub set_bit : ℕ → ℕ → ℕ
set_bit k n = if eqb (n / 2 ^ k % 2) 1 then n else n + 2 ^ k

-- the halves of a network; `none` is a panic, of `MustParsePrefix` or of a negative shift
unfoldable pub halves : Prefix → Option (Prefix × Prefix)
unfolding set_bit
halves p =
    if ltb 31 p.bits
    then none
    else some (
      record p { bits = p.bits + 1 },
      record { addr = set_bit (31 - p.bits) p.addr; bits = p.bits + 1 },
    )

abbrev half_texts : Option (Prefix × Prefix) → Option (String × String)
half_texts none = none
half_texts (some (left, right)) = some (prefix_text left, prefix_text right)

unfoldable pub children : String → Option (String × String)
children cidr = elim (parse_prefix cidr) [ none ↦ none | some p ↦ half_texts (halves p) ]
