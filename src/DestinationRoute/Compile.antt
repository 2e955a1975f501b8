-- ===== src/DestinationRoute/Compile.antt =====
-- `Compile`. A loop is a function of its variables; a map used as a set is the list of its keys.
-- `hash` stands for the hexadecimal SHA-256 of the JSON of the routes: any function of them.
pub mod Hops
pub mod Laws
use kube_ovn_global_vpc.Prelude.{
  ℕ, zero, String, Bool, true, false, not, ◌&&◌, ◌||◌, Option, none, some, List, [], ◌∷◌, Map, find,
  put, length, any, is_empty, contains_text, text_ltb, sort_by, ltb, eqb, ◌==◌, Result, ok, err,
  invalid, reject, ◌>>=◌, ◌>>◌,
}
use kube_ovn_global_vpc.Netip.Parse.{addr_text, parse_addr}
use kube_ovn_global_vpc.Netip.Prefix.{
  Prefix, parse_prefix, masked_text, contains, overlaps, is_global_unicast,
}
use kube_ovn_global_vpc.DestinationRoute.Types.{Bfd, Intent, Plan, same_timers}

abbrev bad_destination : String
bad_destination = "destination must be a canonical non-default unicast IPv4 prefix with length 1-31"

-- the destination of a route
unfoldable pub check_destination : String → Option Prefix → Result Prefix
check_destination cidr none = err (invalid bad_destination)
check_destination cidr (some p) = do
  reject
      (eqb p.bits 0
        || eqb p.bits 32
        || not (masked_text p == cidr)
        || not (is_global_unicast p.addr))
      bad_destination
  ok p

unfoldable pub bad_timers : Bfd → Bool
bad_timers b =
    ltb b.min_rx 1
    || ltb 3600000 b.min_rx
    || ltb b.min_tx 1
    || ltb 3600000 b.min_tx
    || ltb b.multiplier 1
    || ltb 255 b.multiplier

unfoldable pub bad_hop : Prefix → List String → String → Option ℕ → Bool
bad_hop destination seen hop none = true
bad_hop destination seen hop (some a) =
    not (is_global_unicast a)
    || not (addr_text a == hop)
    || contains destination a
    || contains_text hop seen

unfoldable pub conflicting : Bfd → Option Bfd → Bool
unfolding same_timers
conflicting b none = false
conflicting b (some timers) = not (same_timers timers b)

-- the loop over the next hops of a route
unfoldable pub check_hops : Prefix → Bfd → List String → Map Bfd → List String → Result (Map Bfd)
check_hops destination b seen sessions [] = ok sessions
check_hops destination b seen sessions (hop ∷ rest) = do
  reject (bad_hop destination seen hop (parse_addr hop))
      "invalid, duplicated, or destination-overlapping next hop"
  reject (conflicting b (find hop sessions)) "shared next hop has conflicting BFD timers"
  check_hops destination b (hop ∷ seen) (put hop b sessions) rest

abbrev allowed : List String
allowed = "eth_src" ∷ "eth_dst" ∷ "ip_proto" ∷ "ip_src" ∷ "ip_dst" ∷ "tp_src" ∷ "tp_dst" ∷ []

-- the loop over the selection fields of a route
unfoldable pub check_fields : List String → List String → Result (Unit {0})
check_fields seen [] = ok tt
check_fields seen (field ∷ rest) = do
  reject (not (contains_text field allowed) || contains_text field seen)
      "invalid or duplicate ECMP selection field"
  check_fields (field ∷ seen) rest

-- one round of the loop over the routes: the destination, the sessions and the sorted route
unfoldable pub check_route : List Prefix → Map Bfd → Intent → Result (Prefix × Map Bfd × Intent)
check_route prefixes sessions r = do
  p ← check_destination r.cidr (parse_prefix r.cidr)
  reject (any (overlaps p) prefixes) "destination prefixes overlap"
  reject (ltb (length r.next_hops) 2 || ltb 64 (length r.next_hops))
      "destination requires 2-64 gateway next hops"
  reject (bad_timers r.bfd) "invalid BFD timers"
  with_hops ← check_hops p r.bfd [] sessions r.next_hops
  reject (is_empty r.selection_fields || ltb 7 (length r.selection_fields))
      "explicit ECMP selection fields are required"
  check_fields [] r.selection_fields
  ok (
    p,
    with_hops,
    record r {
      next_hops = sort_by text_ltb r.next_hops;
      selection_fields = sort_by text_ltb r.selection_fields;
    },
  )

unfoldable pub check_routes : List Prefix → Map Bfd → List Intent → Result (Map Bfd × List Intent)
check_routes prefixes sessions [] = ok (sessions, [])
check_routes prefixes sessions (r ∷ rest) = do
  checked ← check_route prefixes sessions r
  others ← check_routes (checked.0 ∷ prefixes) checked.1 rest
  ok (others.0, checked.2 ∷ others.1)

abbrev pub by_cidr : Intent → Intent → Bool
by_cidr a b = text_ltb a.cidr b.cidr

unfoldable pub compile : (List Intent → String) → List Intent → Result Plan
compile hash input = do
  reject (ltb 256 (length input)) "at most 256 destination prefixes are supported"
  checked ← check_routes [] [] input
  let routes = sort_by by_cidr checked.1
  ok (record { routes = routes; sessions = checked.0; hash = hash routes })
