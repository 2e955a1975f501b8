-- ===== src/Examples/Routes.antt =====
-- Two destination routes that share a next hop.
use kube_ovn_global_vpc.Prelude.{
  String, some, List, [], ◌∷◌, find, put, any, contains_text, sort_by, insert_by, All, ok, ◌≡◌,
  refl,
}
use kube_ovn_global_vpc.Netip.Parse.{
  octets, octet_text, addr_text, parse_addr, cut_slash, parse_uint, parse_bits, number_text,
}
use kube_ovn_global_vpc.Netip.Prefix.{
  Prefix, parse_prefix, prefix_text, masked_text, contains, overlaps, is_loopback, is_link_local,
  is_multicast, is_global_unicast,
}
use kube_ovn_global_vpc.DestinationRoute.Types.{Bfd, Intent, Plan as RoutePlan, same_timers}
use kube_ovn_global_vpc.DestinationRoute.Compile.{
  check_destination, bad_timers, bad_hop, conflicting, check_hops, check_fields, check_route,
  check_routes, compile,
}
use kube_ovn_global_vpc.DestinationRoute.Compile.Laws.{IsPlan, compile-IsPlan}
use kube_ovn_global_vpc.DestinationRoute.Reach.Laws.{HasChildren, compile-HasChildren}

abbrev timers : Bfd
timers = record { min_rx = 300; min_tx = 300; multiplier = 3 }

abbrev intents : List Intent
intents =
    (record {
      cidr = "10.20.0.0/16";
      next_hops = "10.9.0.11" ∷ "10.9.0.10" ∷ [];
      bfd = timers;
      selection_fields = "ip_src" ∷ "ip_dst" ∷ [];
    })
    ∷ (record {
      cidr = "10.10.0.0/16";
      next_hops = "10.9.0.11" ∷ "10.9.0.12" ∷ [];
      bfd = timers;
      selection_fields = "ip_src" ∷ [];
    })
    ∷ []

abbrev no_hash : List Intent → String
no_hash _ = "hash"

abbrev compiled : RoutePlan
compiled = record {
  routes =
      (record {
        cidr = "10.10.0.0/16";
        next_hops = "10.9.0.11" ∷ "10.9.0.12" ∷ [];
        bfd = timers;
        selection_fields = "ip_src" ∷ [];
      })
      ∷ (record {
        cidr = "10.20.0.0/16";
        next_hops = "10.9.0.10" ∷ "10.9.0.11" ∷ [];
        bfd = timers;
        selection_fields = "ip_dst" ∷ "ip_src" ∷ [];
      })
      ∷ [];
  sessions = ("10.9.0.11", timers) ∷ ("10.9.0.10", timers) ∷ ("10.9.0.12", timers) ∷ [];
  hash = "hash";
}

compile-intents : compile no_hash intents ≡ ok compiled
unfolding compile check_routes check_route check_destination bad_timers check_hops bad_hop
    conflicting check_fields same_timers sort_by insert_by find put any contains_text overlaps
    contains octets octet_text addr_text parse_addr cut_slash parse_uint parse_bits number_text
    parse_prefix prefix_text masked_text is_loopback is_link_local is_multicast is_global_unicast
compile-intents = refl

compile-IsPlan_example : IsPlan intents compiled
compile-IsPlan_example = compile-IsPlan no_hash intents compiled compile-intents

compile-HasChildren_example : All HasChildren compiled.routes
compile-HasChildren_example = compile-HasChildren no_hash intents compiled compile-intents

abbrev ten : Prefix
ten = record { addr = 168427520; bits = 16 }

hop_parsed : parse_addr "10.9.0.11" ≡ some 168361995
unfolding parse_addr octets
hop_parsed = refl
