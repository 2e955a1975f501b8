-- ===== src/SitePlan/Transit.antt =====
-- `transitExclusions`: all usable addresses of the transit network but those of the gateways.
pub mod Laws
use kube_ovn_global_vpc.Prelude.{
  ℕ, ◌+◌, ◌-◌, String, ◌⧺◌, Option, none, some, List, [], ◌∷◌, map, ltb, leb, eqb, if◌then◌else◌,
  sort_by,
}
use kube_ovn_global_vpc.Netip.Parse.{addr_text, parse_addr}
use kube_ovn_global_vpc.Netip.Prefix.{Prefix, next}
use kube_ovn_global_vpc.SiteConfig.Prefix.{last_address}

-- The loop over the sorted addresses, and the range behind the last of them. `first` is the
-- variable of that name; a range is its two ends.
unfoldable pub exclusion_ranges : ℕ → ℕ → List ℕ → List (ℕ × ℕ)
exclusion_ranges first last [] = if leb first last then (first, last) ∷ [] else []
exclusion_ranges first last (g ∷ gs) =
    let rest = exclusion_ranges (next g) last gs in
    if ltb first g then (first, g - 1) ∷ rest else rest

-- `appendRange`
unfoldable pub range_text : ℕ × ℕ → String
range_text (first, last) =
    if eqb first last then addr_text first else addr_text first ⧺ ".." ⧺ addr_text last

-- A gateway is a text that `Validate` has parsed; the address of another is not used.
abbrev or_zero : Option ℕ → ℕ
or_zero none = 0
or_zero (some a) = a

abbrev pub gateway_address : String → ℕ
gateway_address gateway = or_zero (parse_addr gateway)

-- the ranges that are excluded
unfoldable pub transit_ranges : Prefix → List String → List (ℕ × ℕ)
transit_ranges p gateways =
    exclusion_ranges (next p.addr) (last_address p - 1) (sort_by ltb (map gateway_address gateways))

unfoldable pub transit_exclusions : Prefix → List String → List String
transit_exclusions p gateways = map range_text (transit_ranges p gateways)
