-- ===== src/Netip/Prefix/RoundTrip.antt =====
-- A prefix is read back from its text, so different prefixes have different texts.
use kube_ovn_global_vpc.Prelude.{arith, ◌^◌, ◌≤◌, ◌<◌, ◌≡◌, some}
use kube_ovn_global_vpc.Netip.Parse.{number_text}
use kube_ovn_global_vpc.Netip.Parse.RoundTrip.{
  parse_addr-addr_text, cut_slash-addr_text_slash, parse_bits-number_text,
}
use kube_ovn_global_vpc.Netip.Prefix.{Prefix, parse_prefix, prefix_text}

-- The text of a prefix is read back as the prefix.
pub parse_prefix-prefix_text :
    (p : Prefix) → p.addr < 2 ^ 32 → p.bits ≤ 32 → parse_prefix (prefix_text p) ≡ some p
unfolding parse_prefix prefix_text
parse_prefix-prefix_text p h k = ground (
  arith,
  cut_slash-addr_text_slash p.addr (number_text p.bits),
  parse_addr-addr_text p.addr h,
  parse_bits-number_text p.bits k,
)
