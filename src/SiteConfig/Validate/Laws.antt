-- ===== src/SiteConfig/Validate/Laws.antt =====
-- What `Config.Validate` guarantees of every grant.
use kube_ovn_global_vpc.Prelude.{
  ℕ, ◌≤◌, String, true, false, not, ◌||◌, ◌&&◌, Option, some, none, List, [], ◌∷◌, ◌≡◌, ◌≢◌, refl,
  sym, ◌∙◌, ap, All, All-map, Pairs, ok, length, is_ok, contains_text, contains_text-false,
  or-false, reject-eq-ok, ok-injective, is_empty, is_empty-true, is_empty-false, subst, arith,
  any-false, Bool-cases, inl, inr, text_ne, reject_passed, ltb, ◌==◌, >>=-eq-ok,
}
use kube_ovn_global_vpc.Kube.Validation.{Validation}
use kube_ovn_global_vpc.Netip.Parse.{parse_addr}
use kube_ovn_global_vpc.Netip.Prefix.{Prefix, contains}
use kube_ovn_global_vpc.SiteConfig.Types.{Bfd, Grant, Config}
use kube_ovn_global_vpc.SiteConfig.Prefix.{prefix, host}
use kube_ovn_global_vpc.SiteConfig.Validate.{
  check_members, check_single, check_ha, command, contains_source, validate_gateways,
  check_delegated, check_source, check_grant, check_grants, validate,
}
use kube_ovn_global_vpc.SiteConfig.Validate.Delegated.{
  TextsDisjoint, check_delegated-Pairs, check_delegated-All,
}
use kube_ovn_global_vpc.Netip.Blocks.{Disjoint, Disjoint-symm}
use kube_ovn_global_vpc.SiteConfig.Validate.Members.{Distinct, IsMember, check_members-All}

-- The gateways of a grant, in a given transit network.
pub record HasGateways (g : Grant) (transit : Prefix) : Type 0 where
  pub members : All (IsMember transit [] (g.router_ip ∷ [])) g.gateways
  pub distinct : Pairs Distinct g.gateways
  pub single :
      g.gateways ≡ []
      → (g.bfd ≡ none) × (is_ok (host g.gateway_ip transit) ≡ true) × (g.router_ip ≢ g.gateway_ip)
  pub several : g.gateways ≢ [] → (g.bfd ≢ none) × (2 ≤ length g.gateways) × (length g.gateways ≤ 8)

check_single_lem :
    (g : Grant) (b : Option Bfd) (transit : Prefix)
    → check_single g b transit ≡ ok tt
    → (b ≡ none) × (is_ok (host g.gateway_ip transit) ≡ true) × (g.router_ip ≢ g.gateway_ip)
unfolding check_single
check_single_lem g none transit h =
    let (a, parsed, more) = >>=-eq-ok (host g.gateway_ip transit) _ h in
    (refl, rw parsed refl, text_ne g.router_ip g.gateway_ip (reject_passed _ _ more))
check_single_lem g (some b) transit h = cc

check_ha_lem :
    (v : Validation) (g : Grant) (b : Option Bfd) (transit : Prefix)
    → check_ha v g b transit ≡ ok tt
    → (b ≢ none)
      × (2 ≤ length g.gateways)
      × (length g.gateways ≤ 8)
      × All (IsMember transit [] (g.router_ip ∷ [])) g.gateways
      × Pairs Distinct g.gateways
unfolding check_ha
check_ha_lem v g none transit h = cc
check_ha_lem v g (some b) transit h =
    let (count, more) =
      reject-eq-ok
        (not (g.gateway_ip == "") || ltb (length g.gateways) 2 || ltb 8 (length g.gateways)) _ _
        h in
    let (_, members, _) =
      >>=-eq-ok (check_members v transit [] (g.router_ip ∷ []) g.gateways) _ more in
    let (all, pairs) = check_members-All v transit [] (g.router_ip ∷ []) g.gateways members in
    ((λ e. cc), ground arith, ground arith, all, pairs)

validate_gateways_lem :
    (v : Validation) (g : Grant) (transit : Prefix)
    → validate_gateways v g transit ≡ ok tt
    → HasGateways g transit
validate_gateways_lem v g transit h = elim (Bool-cases (is_empty g.gateways)) [
  | inl e ↦
      let alone : check_single g g.bfd transit ≡ ok tt = unfold validate_gateways in rw e at h in
      let (no_bfd, usable, differ) = check_single_lem g g.bfd transit alone in
      let none_left = is_empty-true g.gateways e in
      record {
        members = subst (All (IsMember transit [] (g.router_ip ∷ []))) (sym none_left) tt;
        distinct = subst (Pairs Distinct) (sym none_left) tt;
        single = λ _. (no_bfd, usable, differ);
        several = λ n. absurd (n none_left);
      }
  | inr e ↦
      let ha : check_ha v g g.bfd transit ≡ ok tt = unfold validate_gateways in rw e at h in
      let (with_bfd, two, eight, all, pairs) = check_ha_lem v g g.bfd transit ha in
      record {
        members = all;
        distinct = pairs;
        single = λ n. absurd (is_empty-false g.gateways e n);
        several = λ _. (with_bfd, two, eight);
      }
]

-- the networks that an accepted grant registers, and what its router, gateways and BFD source are
pub record IsSound (g : Grant) : Type 0 where
  pub networks : Pairs TextsDisjoint (g.transit_cidr ∷ g.delegated_prefixes)
  pub transit : Prefix
  pub transit_text : prefix g.transit_cidr ≡ ok transit
  pub router : is_ok (host g.router_ip transit) ≡ true
  pub gateways : HasGateways g transit
  pub delegated : g.delegated_prefixes ≢ []
  pub source :
      {b : Bfd}
      → g.bfd ≡ some b
      → {a : ℕ} → parse_addr b.source_ip ≡ some a
      → All
          (λ raw. (p : Prefix) → prefix raw ≡ ok p → contains p a ≡ false)
          (g.transit_cidr ∷ g.delegated_prefixes)

source_outside :
    (o : Option Bfd) (seen : List Prefix)
    → check_source o seen ≡ ok tt
    → (b : Bfd) → o ≡ some b
    → (a : ℕ) → parse_addr b.source_ip ≡ some a
    → All (λ p. contains p a ≡ false) seen
unfolding check_source
source_outside none seen h b e a f = cc
source_outside (some c) seen h b e a f =
    let same : parse_addr c.source_ip ≡ some a = ap parse_addr (ap source_of e) ∙ f in
    let outside = any-false (contains_source (parse_addr c.source_ip)) seen (reject_passed _ _ h) in
    subst (λ o. All (λ p. contains_source o p ≡ false) seen) same outside
  where
    source_of : Option Bfd → String
    source_of none = ""
    source_of (some d) = d.source_ip

apart_transit :
    (raw : String) (transit : Prefix) (cidr : String)
    → prefix cidr ≡ ok transit
    → ((p : Prefix) → prefix raw ≡ ok p → All (Disjoint p) (transit ∷ []))
    → TextsDisjoint cidr raw
apart_transit raw transit cidr parsed apart p q e f =
    subst (λ t. Disjoint t q) (ok-injective (sym parsed ∙ e))
      (Disjoint-symm q transit (apart q f).0)

check_grant-IsSound :
    (v : Validation) (c : Config) (ids : List String) (g : Grant)
    → check_grant v c ids g ≡ ok tt
    → IsSound g × All (λ id. id ≢ g.global_vpc_id) ids
unfolding check_grant
check_grant-IsSound v c ids g h =
    let (fresh, h₁) =
      reject-eq-ok (not (v.is_dns_subdomain g.global_vpc_id) || contains_text g.global_vpc_id ids) _
        _ h in
    let (transit, parsed, h₂) = >>=-eq-ok (prefix g.transit_cidr) _ h₁ in
    let (router, routed, h₃) = >>=-eq-ok (host g.router_ip transit) _ h₂ in
    let (_, gateways, h₄) = >>=-eq-ok (validate_gateways v g transit) _ h₃ in
    let (_, h₅) =
      reject-eq-ok (not (is_empty g.gateways) && not (command c.bfd_transaction_command)) _ _ h₄ in
    let (some_delegated, h₆) = reject-eq-ok (is_empty g.delegated_prefixes) _ _ h₅ in
    let (seen, delegated, sourced) =
      >>=-eq-ok (check_delegated (transit ∷ []) g.delegated_prefixes) _ h₆ in
    let (pairs, apart) = check_delegated-Pairs (transit ∷ []) g.delegated_prefixes delegated in
    (
      record {
        networks = (
          All-map (λ raw k p q e f. apart_transit raw transit g.transit_cidr parsed k p q e f)
              g.delegated_prefixes apart,
          pairs,
        );
        transit = transit;
        transit_text = parsed;
        router = rw routed refl;
        gateways = validate_gateways_lem v g transit gateways;
        delegated = is_empty-false g.delegated_prefixes some_delegated;
        source = λ {b} e {a} f.
            let (first, rest) =
              check_delegated-All (λ p. contains p a ≡ false) (transit ∷ []) g.delegated_prefixes
                delegated (source_outside g.bfd seen sourced b e a f) in
            (
              (λ p k. subst (λ q. contains q a ≡ false) (ok-injective (sym parsed ∙ k)) first.0),
              rest,
            );
      },
      contains_text-false g.global_vpc_id ids (or-false _ _ fresh).1,
    )

-- no two grants are for one tenant
abbrev pub OtherTenant : Grant → Grant → Type 0
OtherTenant g h = g.global_vpc_id ≢ h.global_vpc_id

check_grants-IsSound :
    (v : Validation) (c : Config) (ids : List String) (gs : List Grant)
    → check_grants v c ids gs ≡ ok tt
    → All (λ g. IsSound g × All (λ id. id ≢ g.global_vpc_id) ids) gs × Pairs OtherTenant gs
unfolding check_grants
check_grants-IsSound v c ids [] h = (tt, tt)
check_grants-IsSound v c ids (g ∷ gs) h =
    let (_, first, more) = >>=-eq-ok (check_grant v c ids g) _ h in
    let (rest, pairs) = check_grants-IsSound v c (g.global_vpc_id ∷ ids) gs more in
    (
      (check_grant-IsSound v c ids g first, All-map (λ k s. (s.0, s.1.1)) gs rest),
      (All-map (λ k s. s.1.0) gs rest, pairs),
    )

-- In an accepted configuration no two grants are for one tenant, and in every grant the transit
-- network and the delegated prefixes share no address, the router and the gateways are hosts of the
-- transit network, and the BFD source lies in none of the networks.
pub validate-IsSound :
    (v : Validation) (c : Config)
    → validate v c ≡ ok tt
    → All IsSound c.grants × Pairs OtherTenant c.grants
unfolding validate
validate-IsSound v c h =
    let grants : check_grants v c [] c.grants ≡ ok tt = ground arith in
    let (all, pairs) = check_grants-IsSound v c [] c.grants grants in
    (All-map (λ g s. s.0) c.grants all, pairs)
