-- ===== src/DestinationRoute/Compile/Laws.antt =====
-- What `Compile` returns.
use kube_ovn_global_vpc.Prelude.{
  ℕ, ◌≤◌, String, ◌||◌, Option, none, some, List, [], ◌∷◌, Map, find, ◌≡◌, ◌≢◌, suc, ◌⊎◌, inl, inr,
  refl, sym, ◌∙◌, ap, subst, arith, All, All-map, All-sort_by, Pairs, Pairs-sort_by, IsSorted,
  sort_by, sort_by-IsSorted, text_ltb_asym, text_ltb_trans, Some, here, there, Some-sort_by, In, ok,
  eq_iff, length, length-sort_by, text_ltb, >>=-eq-ok, reject-eq-ok, ok-injective, some_eq,
  is_empty, any, any-false, ltb,
}
use kube_ovn_global_vpc.Netip.Prefix.{Prefix, overlaps, parse_prefix, masked_text}
use kube_ovn_global_vpc.Netip.Prefix.Bounds.{parse_prefix-lt}
use kube_ovn_global_vpc.Netip.Blocks.{Disjoint, Disjoint-symm, overlaps-Disjoint}
use kube_ovn_global_vpc.DestinationRoute.Types.{Bfd, Intent, Plan}
use kube_ovn_global_vpc.DestinationRoute.Compile.{
  check_destination, bad_timers, check_hops, check_fields, check_route, check_routes, by_cidr,
  compile,
}
use kube_ovn_global_vpc.DestinationRoute.Compile.Hops.{Extends, IsHop, FromHops, check_hops_lem}

-- a route of an accepted plan: its destination, and its next hops with their sessions
pub record IsRoute (sessions : Map Bfd) (r : Intent) : Type 0 where
  pub destination : Prefix
  pub parsed : parse_prefix r.cidr ≡ some destination
  pub not_default : 1 ≤ destination.bits
  pub not_host : destination.bits ≤ 31
  pub canonical : masked_text destination ≡ r.cidr
  pub hops : All (IsHop destination r.bfd sessions) r.next_hops
  pub two_hops : 2 ≤ length r.next_hops

check_destination_lem :
    (cidr : String) (o : Option Prefix) {p : Prefix}
    → check_destination cidr o ≡ ok p
    → (o ≡ some p) × (1 ≤ p.bits) × (masked_text p ≡ cidr) × (p.bits ≢ 32)
unfolding check_destination
check_destination_lem cidr none h = cc
check_destination_lem cidr (some q) {p} h = ground (arith, eq_iff (masked_text q) cidr)

-- the destinations of two routes share no address
abbrev pub Separate : Intent → Intent → Type 0
Separate r s =
    (p q : Prefix) → parse_prefix r.cidr ≡ some p → parse_prefix s.cidr ≡ some q → Disjoint p q

abbrev pub Apart : List Prefix → Intent → Type 0
Apart prefixes r = (p : Prefix) → parse_prefix r.cidr ≡ some p → All (Disjoint p) prefixes

-- what one round of the loop returns
abbrev RouteChecked : List Prefix → Map Bfd → Prefix × Map Bfd × Intent → Type 0
RouteChecked prefixes s (p, t, route) =
    IsRoute t route
    × Extends s t
    × FromHops route.next_hops route.bfd s t
    × Apart prefixes route
    × (parse_prefix route.cidr ≡ some p)

FromHops-sort :
    (hops : List String) (b : Bfd) (s t : Map Bfd)
    → FromHops hops b s t
    → FromHops (sort_by text_ltb hops) b s t
FromHops-sort hops b s t from j c e = elim (from j c e) [
  | inl old ↦ inl old
  | inr (m, same) ↦ inr (Some-sort_by text_ltb hops m, same)
]

below_32 : {n : ℕ} → n ≤ 32 → n ≢ 32 → n ≤ 31
below_32 h k = omega arith

check_route_lem :
    (prefixes : List Prefix) (s : Map Bfd) (r : Intent) {checked : Prefix × Map Bfd × Intent}
    → check_route prefixes s r ≡ ok checked
    → RouteChecked prefixes s checked
unfolding check_route
check_route_lem prefixes s r h =
    let (p, destination, h₁) = >>=-eq-ok (check_destination r.cidr (parse_prefix r.cidr)) _ h in
    let (free, h₂) = reject-eq-ok (any (overlaps p) prefixes) _ _ h₁ in
    let (count, h₃) =
      reject-eq-ok (ltb (length r.next_hops) 2 || ltb 64 (length r.next_hops)) _ _ h₂ in
    let (_, h₄) = reject-eq-ok (bad_timers r.bfd) _ _ h₃ in
    let (t, hops, h₅) = >>=-eq-ok (check_hops p r.bfd [] s r.next_hops) _ h₄ in
    let (_, h₆) =
      reject-eq-ok (is_empty r.selection_fields || ltb 7 (length r.selection_fields)) _ _ h₅ in
    let (_, _, h₇) = >>=-eq-ok (check_fields [] r.selection_fields) _ h₆ in
    let (parsed, proper, canonical, not_host) =
      check_destination_lem r.cidr (parse_prefix r.cidr) destination in
    let (extends, all, from) = check_hops_lem p r.bfd [] s r.next_hops hops in
    subst (RouteChecked prefixes s) (ok-injective h₇) (
      record {
        destination = p;
        parsed = parsed;
        not_default = proper;
        not_host = below_32 (parse_prefix-lt r.cidr parsed).1 not_host;
        canonical = canonical;
        hops = All-sort_by text_ltb (IsHop p r.bfd t) r.next_hops all;
        two_hops = rw length-sort_by (ground arith);
      },
      extends,
      FromHops-sort r.next_hops r.bfd s t from,
      (λ q e.
          subst (λ d. All (Disjoint d) prefixes) (ground arith)
            (All-map (overlaps-Disjoint p) prefixes (any-false (overlaps p) prefixes free))),
      parsed,
    )

-- what the loop returns
abbrev RoutesChecked : List Prefix → Map Bfd → ℕ → Map Bfd × List Intent → Type 0
RoutesChecked prefixes s n (t, routes) =
    Extends s t
    × All (IsRoute t) routes
    × All (Apart prefixes) routes
    × Pairs Separate routes
    × ((hop : String) (c : Bfd)
        → find hop t ≡ some c
        → (find hop s ≡ some c) ⊎ Some (λ r. In hop r.next_hops × (c ≡ r.bfd)) routes)
    × (length routes ≡ n)

IsRoute-Extends : (s t : Map Bfd) (r : Intent) → Extends s t → IsRoute s r → IsRoute t r
IsRoute-Extends s t r extends k = record {
  destination = k.destination;
  parsed = k.parsed;
  not_default = k.not_default;
  not_host = k.not_host;
  canonical = k.canonical;
  hops =
      All-map
        (λ hop h. record {
          address = h.address;
          parsed = h.parsed;
          outside = h.outside;
          session = extends hop r.bfd h.session;
        })
        r.next_hops k.hops;
  two_hops = k.two_hops;
}

-- Every route of the loop's result, against the sessions at the end of the loop.
check_routes_lem :
    (prefixes : List Prefix) (s : Map Bfd) (input : List Intent) {result : Map Bfd × List Intent}
    → check_routes prefixes s input ≡ ok result
    → RoutesChecked prefixes s (length input) result
unfolding check_routes
check_routes_lem prefixes s [] h =
    subst (RoutesChecked prefixes s 0) (ok-injective h)
      ((λ j c e. e), tt, tt, tt, (λ j c e. inl e), refl)
check_routes_lem prefixes s (r ∷ rest) h =
    let ((p, t, route), first, h₁) = >>=-eq-ok (check_route prefixes s r) _ h in
    let ((u, routes), others, h₂) = >>=-eq-ok (check_routes (p ∷ prefixes) t rest) _ h₁ in
    let (is_route, extends, from, apart, parsed) = check_route_lem prefixes s r first in
    let (extends', all, aparts, separate, from', count) =
      check_routes_lem (p ∷ prefixes) t rest others in
    subst (RoutesChecked prefixes s (length (r ∷ rest))) (ok-injective h₂) (
      (λ j c e. extends' j c (extends j c e)),
      (IsRoute-Extends t u route extends' is_route, all),
      (apart, All-map (λ q a d e. (a d e).1) routes aparts),
      (
        All-map
            (λ q a p' q' e f.
              subst (λ (d : Prefix). Disjoint d q') (some_eq (sym parsed ∙ e))
                (Disjoint-symm q' p (a q' f).0))
            routes aparts,
        separate,
      ),
      (λ hop c e. elim (from' hop c e) [
        | inr m ↦ inr (there m)
        | inl old ↦ elim (from hop c old) [ inl older ↦ inl older | inr m ↦ inr (here m) ]
      ]),
      ap suc count,
    )

-- What an accepted plan is. Its routes are as many as the intents, sorted by destination, and no
-- two destinations share an address; every next hop lies outside its destination and has a session
-- with its route's timers; and every session is that of a next hop of a route.
pub record IsPlan (input : List Intent) (plan : Plan) : Type 0 where
  pub count : length plan.routes ≡ length input
  pub few : length input ≤ 256
  pub routes : All (IsRoute plan.sessions) plan.routes
  pub separate : Pairs Separate plan.routes
  pub sorted : IsSorted by_cidr plan.routes
  pub sessions :
      (hop : String) (b : Bfd)
      → find hop plan.sessions ≡ some b
      → Some (λ r. In hop r.next_hops × (b ≡ r.bfd)) plan.routes

Separate-symm : (r s : Intent) → Separate r s → Separate s r
Separate-symm r s d p q e f = Disjoint-symm q p (d q p f e)

-- If `Compile` accepts the intents, its plan has as many routes, sorted by destination; their
-- destinations share no address, every next hop lies outside its destination and has a session with
-- the timers of its route, and every session is that of a next hop.
pub compile-IsPlan :
    (hash : List Intent → String) (input : List Intent) (plan : Plan)
    → compile hash input ≡ ok plan
    → IsPlan input plan
unfolding compile
compile-IsPlan hash input plan h =
    let (few, h₁) = reject-eq-ok (ltb 256 (length input)) _ _ h in
    let ((t, routes), checked, h₂) = >>=-eq-ok (check_routes [] [] input) _ h₁ in
    let (_, all, _, separate, from, count) = check_routes_lem [] [] input checked in
    subst (IsPlan input) (ok-injective h₂) (record {
      count = length-sort_by by_cidr routes ∙ count;
      few = ground arith;
      routes = All-sort_by by_cidr (IsRoute t) routes all;
      separate = Pairs-sort_by by_cidr Separate Separate-symm routes separate;
      sorted =
          sort_by-IsSorted by_cidr (λ a b. text_ltb_asym a.cidr b.cidr)
            (λ a b c. text_ltb_trans a.cidr b.cidr c.cidr) routes;
      sessions = λ hop b e. elim (from hop b e) [
        | inl old ↦ absurd (unfold find in cc old)
        | inr m ↦ Some-sort_by by_cidr routes m
      ];
    })
