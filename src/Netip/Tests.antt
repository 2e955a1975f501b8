-- ===== src/Netip/Tests.antt =====
-- Runs of the parsers and prints on texts.
use kube_ovn_global_vpc.Prelude.{◌≡◌, refl, some, none}
use kube_ovn_global_vpc.Netip.Parse.{
  addr_text, parse_addr, parse_bits, cut_slash, number_text, octets, octet_text, parse_uint,
}
use kube_ovn_global_vpc.Netip.Prefix.{parse_prefix, masked_text, prefix_text}

addr_text_test : addr_text 3232235786 ≡ "192.168.1.10"
unfolding addr_text octet_text
addr_text_test = refl

parse_addr_test : parse_addr "192.168.1.10" ≡ some 3232235786
unfolding parse_addr octets
parse_addr_test = refl

leading_zero_test : parse_addr "192.168.01.10" ≡ none
unfolding parse_addr octets
leading_zero_test = refl

five_octets_test : parse_addr "192.168.1.1.0" ≡ none
unfolding parse_addr octets
five_octets_test = refl

last_dot_test : parse_addr "192.168.1." ≡ none
unfolding parse_addr octets
last_dot_test = refl

parse_prefix_test : parse_prefix "10.0.0.0/24" ≡ some (record { addr = 167772160; bits = 24 })
unfolding parse_prefix parse_addr octets parse_bits parse_uint cut_slash
parse_prefix_test = refl

masked_text_test : masked_text (record { addr = 167772165; bits = 24 }) ≡ "10.0.0.0/24"
unfolding masked_text prefix_text addr_text octet_text number_text
masked_text_test = refl
