-- ===== src/Netip/Prefix.antt =====
-- `netip.Prefix` for IPv4, and the classes of addresses.
pub mod RoundTrip
pub mod Bounds
use kube_ovn_global_vpc.Prelude.{
  ℕ, ◌+◌, ◌-◌, ◌*◌, ◌/◌, ◌^◌, String, ◌⧺◌, Bool, not, ◌&&◌, ◌||◌, Option, none, some, ltb, leb, eqb,
  if◌then◌else◌,
}
use kube_ovn_global_vpc.Netip.Parse.{addr_text, number_text, parse_addr, parse_bits, cut_slash}

pub record Prefix : Type 0 where
  pub addr : ℕ
  pub bits : ℕ

-- how many addresses a prefix of this length holds
abbrev pub block : ℕ → ℕ
block bits = 2 ^ (32 - bits)

-- `Prefix.Masked().Addr()`
abbrev pub masked_addr : Prefix → ℕ
masked_addr p = p.addr / block p.bits * block p.bits

-- `netip.ParsePrefix`, for an IPv4 prefix
unfoldable pub parse_prefix : String → Option Prefix
parse_prefix s = elim (cut_slash s) [
  | none ↦ none
  | some (ip, length) ↦ elim (parse_addr ip) [
    | none ↦ none
    | some a ↦ elim (parse_bits length) [
      | none ↦ none
      | some n ↦ some (record { addr = a; bits = n })
    ]
  ]
]

-- `Prefix.String`
unfoldable pub prefix_text : Prefix → String
prefix_text p = addr_text p.addr ⧺ "/" ⧺ number_text p.bits

-- `Prefix.Masked().String()`
unfoldable pub masked_text : Prefix → String
unfolding prefix_text
masked_text p = prefix_text (record p { addr = masked_addr p })

-- `Prefix.Contains` of an IPv4 address
unfoldable pub contains : Prefix → ℕ → Bool
contains p a = eqb (a / block p.bits) (p.addr / block p.bits)

-- `Prefix.Overlaps`: the shorter of the two lengths decides
unfoldable pub overlaps : Prefix → Prefix → Bool
overlaps p q =
    let n = if ltb p.bits q.bits then p.bits else q.bits in
    eqb (p.addr / block n) (q.addr / block n)

unfoldable pub is_loopback : ℕ → Bool
is_loopback a = eqb (a / 2 ^ 24) 127

unfoldable pub is_link_local : ℕ → Bool
is_link_local a = eqb (a / 2 ^ 16) 43518

unfoldable pub is_multicast : ℕ → Bool
is_multicast a = eqb (a / 2 ^ 28) 14

-- `Addr.IsGlobalUnicast` of an IPv4 address
unfoldable pub is_global_unicast : ℕ → Bool
unfolding is_loopback is_link_local is_multicast
is_global_unicast a =
    not (eqb a 0)
    && not (eqb a 4294967295)
    && not (is_loopback a)
    && not (is_multicast a)
    && not (is_link_local a)

-- `Addr.Next`. The address after the last one is invalid in Go; here it is 2 ^ 32, which no
-- prefix contains.
abbrev pub next : ℕ → ℕ
next a = a + 1
