-- ===== src/DestinationRoute/Compile/Hops.antt =====
-- The next hops of an accepted route, and the BFD sessions that they share.
use kube_ovn_global_vpc.Prelude.{
  ℕ, String, true, false, Option, none, some, List, [], ◌∷◌, Map, find, find-put, put, ◌≡◌, ◌⊎◌,
  inl, inr, refl, sym, ap, subst, arith, All, here, there, In, ok, eq_refl, ◌==◌, text_eq,
  not-false, reject-eq-ok, ok-injective, Bool-cases,
}
use kube_ovn_global_vpc.Netip.Parse.{parse_addr}
use kube_ovn_global_vpc.Netip.Prefix.{Prefix, contains}
use kube_ovn_global_vpc.DestinationRoute.Types.{Bfd, same_timers}
use kube_ovn_global_vpc.DestinationRoute.Compile.{bad_hop, conflicting, check_hops}

-- every session stays, with its timers
abbrev pub Extends : Map Bfd → Map Bfd → Type 0
Extends s t = (hop : String) (b : Bfd) → find hop s ≡ some b → find hop t ≡ some b

-- a next hop outside the destination, with a session of the route's timers
pub record IsHop (destination : Prefix) (b : Bfd) (sessions : Map Bfd) (hop : String) : Type 0 where
  pub address : ℕ
  pub parsed : parse_addr hop ≡ some address
  pub outside : contains destination address ≡ false
  pub session : find hop sessions ≡ some b

good_hop :
    (p : Prefix) (seen : List String) (hop : String) (o : Option ℕ)
    → bad_hop p seen hop o ≡ false
    → (a : ℕ) × (o ≡ some a) × (contains p a ≡ false)
unfolding bad_hop
good_hop p seen hop none h = cc
good_hop p seen hop (some a) h = (a, refl, ground arith)

same_timers-eq : (a b : Bfd) → same_timers a b ≡ true → a ≡ b
unfolding same_timers
same_timers-eq a b h = ground arith

-- an entry that does not conflict keeps the session that was there
Extends-put :
    (hop : String) (b : Bfd) (s : Map Bfd)
    → conflicting b (find hop s) ≡ false
    → Extends s (put hop b s)
unfolding conflicting
Extends-put hop b s h j c e = elim (Bool-cases (hop == j)) [
  | inl same ↦
      let here_too : find hop s ≡ some c = rw (text_eq hop j same) e in
      let agree : c ≡ b = same_timers-eq c b (not-false _ (rw here_too at h)) in
      rw (find-put, same) (ap some (sym agree))
  | inr other ↦ rw (find-put, other) e
]

-- a session is one that was there, or one of these next hops with these timers
abbrev pub FromHops : List String → Bfd → Map Bfd → Map Bfd → Type 0
FromHops hops b s t =
    (hop : String) (c : Bfd) → find hop t ≡ some c → (find hop s ≡ some c) ⊎ (In hop hops × (c ≡ b))

FromHops-cons :
    (hop : String) (b : Bfd) (s : Map Bfd) (rest : List String) (t : Map Bfd)
    → FromHops rest b (put hop b s) t
    → FromHops (hop ∷ rest) b s t
FromHops-cons hop b s rest t from j c e = elim (from j c e) [
  | inr (m, same) ↦ inr (there m, same)
  | inl new ↦ elim (Bool-cases (hop == j)) [
    | inl same ↦
        let stored : some b ≡ some c = rw (find-put, same) at new in
        let timers : c ≡ b = cc stored in inr (here (text_eq hop j same), timers)
    | inr other ↦ let old : find j s ≡ some c = rw (find-put, other) at new in inl old
  ]
]

module _ (p : Prefix) (b : Bfd) where
  pub check_hops_lem :
      (seen : List String) (s : Map Bfd) (hops : List String) {t : Map Bfd}
      → check_hops p b seen s hops ≡ ok t
      → Extends s t × All (IsHop p b t) hops × FromHops hops b s t
  unfolding check_hops
  check_hops_lem seen s [] {t} h =
      let same : s ≡ t = ok-injective h in
      (
        (λ j c e. subst (λ (m : Map Bfd). find j m ≡ some c) same e),
        tt,
        λ j c e. inl (subst (λ (m : Map Bfd). find j m ≡ some c) (sym same) e),
      )
  check_hops_lem seen s (hop ∷ rest) {t} h =
      let (good, more) = reject-eq-ok (bad_hop p seen hop (parse_addr hop)) _ _ h in
      let (agrees, others) = reject-eq-ok (conflicting b (find hop s)) _ _ more in
      let (extends, hops, from) = check_hops_lem (hop ∷ seen) (put hop b s) rest others in
      let (a, parsed, outside) = good_hop p seen hop (parse_addr hop) good in
      let stored : find hop (put hop b s) ≡ some b = rw (find-put, eq_refl) refl in
      (
        (λ j c e. extends j c (Extends-put hop b s agrees j c e)),
        (
          record {
            address = a;
            parsed = parsed;
            outside = outside;
            session = extends hop b stored;
          },
          hops,
        ),
        FromHops-cons hop b s rest t from,
      )
