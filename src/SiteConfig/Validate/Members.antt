-- ===== src/SiteConfig/Validate/Members.antt =====
-- The gateway members of an accepted grant.
use kube_ovn_global_vpc.Prelude.{
  String, true, not, ◌||◌, List, [], ◌∷◌, ◌≡◌, ◌≢◌, All, All-map, Pairs, ok, is_ok, contains_text,
  contains_text-false, or-false, not-false, reject-eq-ok,
}
use kube_ovn_global_vpc.Kube.Validation.{Validation}
use kube_ovn_global_vpc.Netip.Prefix.{Prefix}
use kube_ovn_global_vpc.SiteConfig.Types.{Gateway}
use kube_ovn_global_vpc.SiteConfig.Prefix.{host}
use kube_ovn_global_vpc.SiteConfig.Validate.{check_members}

-- two members have neither an identity nor an address in common
abbrev pub Distinct : Gateway → Gateway → Type 0
Distinct m n = (m.id ≢ n.id) × (m.ip ≢ n.ip)

-- a member is a usable host of the transit network, and its identity and address are new
pub record IsMember (transit : Prefix) (ids ips : List String) (m : Gateway) : Type 0 where
  pub usable : is_ok (host m.ip transit) ≡ true
  pub new_id : All (λ id. id ≢ m.id) ids
  pub new_ip : All (λ ip. ip ≢ m.ip) ips

module _ (v : Validation) (transit : Prefix) where
  pub check_members-All :
      (ids ips : List String) (ms : List Gateway)
      → check_members v transit ids ips ms ≡ ok tt
      → All (IsMember transit ids ips) ms × Pairs Distinct ms
  unfolding check_members
  check_members-All ids ips [] h = (tt, tt)
  check_members-All ids ips (m ∷ ms) h =
      let (id_ok, more) =
        reject-eq-ok (not (v.is_dns_label m.id) || contains_text m.id ids) _ _ h in
      let (ip_ok, others) =
        reject-eq-ok (not (is_ok (host m.ip transit)) || contains_text m.ip ips) _ _ more in
      let (members, pairs) = check_members-All (m.id ∷ ids) (m.ip ∷ ips) ms others in
      let (_, fresh_id) = or-false _ _ id_ok in
      let (usable, fresh_ip) = or-false _ _ ip_ok in
      (
        (
          record {
            usable = not-false _ usable;
            new_id = contains_text-false m.id ids fresh_id;
            new_ip = contains_text-false m.ip ips fresh_ip;
          },
          All-map weaken ms members,
        ),
        (All-map (λ n k. (k.new_id.0, k.new_ip.0)) ms members, pairs),
      )
    where
      weaken :
          (n : Gateway) → IsMember transit (m.id ∷ ids) (m.ip ∷ ips) n → IsMember transit ids ips n
      weaken n k = record { usable = k.usable; new_id = k.new_id.1; new_ip = k.new_ip.1 }
