-- ===== src/SiteConfig/Prefix.antt =====
-- `Prefix`, `Host` and `LastAddress` of internal/siteconfig/config.go.
pub mod Laws
pub mod Gap
use kube_ovn_global_vpc.Prelude.{
  ℕ, ◌+◌, ◌-◌, ◌*◌, ◌/◌, ◌^◌, String, Bool, not, ◌&&◌, ◌||◌, Option, none, some, ltb, eqb, ◌==◌,
  Result, ok, err, invalid, reject, ◌>>◌,
}
use kube_ovn_global_vpc.Netip.Parse.{addr_text, parse_addr}
use kube_ovn_global_vpc.Netip.Prefix.{
  Prefix, block, parse_prefix, masked_text, contains, is_global_unicast, is_loopback, is_link_local,
}

-- `v |= ^uint32(0) >> p.Bits()` sets the low `32 - p.Bits()` bits of the address
unfoldable pub last_address : Prefix → ℕ
last_address p = p.addr / block p.bits * block p.bits + (block p.bits - 1)

abbrev not_canonical : String
not_canonical = "must be a canonical IPv4 network from /8 through /30"

abbrev not_unicast : String
not_unicast = "must be a unicast subnet outside loopback and link-local ranges"

abbrev not_host : String
not_host = "must be a usable IPv4 host in its subnet, excluding network and broadcast"

check_prefix : String → Option Prefix → Result Prefix
check_prefix raw none = err (invalid not_canonical)
check_prefix raw (some p) = do
  reject (ltb p.bits 8 || ltb 30 p.bits || not (masked_text p == raw)) not_canonical
  reject
      (not (is_global_unicast p.addr)
        || not (is_global_unicast (last_address p))
        || is_loopback p.addr
        || is_link_local p.addr)
      not_unicast
  ok p

unfoldable pub prefix : String → Result Prefix
unfolding check_prefix
prefix raw = check_prefix raw (parse_prefix raw)

check_host : String → Prefix → Option ℕ → Result ℕ
check_host raw p none = err (invalid not_host)
check_host raw p (some a) = do
  reject
      (not (addr_text a == raw)
        || not (contains p a)
        || eqb a p.addr
        || eqb a (last_address p)
        || not (is_global_unicast a))
      not_host
  ok a

unfoldable pub host : String → Prefix → Result ℕ
unfolding check_host
host raw p = check_host raw p (parse_addr raw)
