-- ===== src/SiteConfig/Validate/Delegated.antt =====
-- The delegated prefixes of an accepted grant.
use kube_ovn_global_vpc.Prelude.{
  String, List, [], ◌∷◌, ◌≡◌, sym, ◌∙◌, any, any-false, All, All-map, Pairs, ok, >>=-eq-ok,
  reject-eq-ok, ok-injective, subst,
}
use kube_ovn_global_vpc.Netip.Prefix.{Prefix, overlaps}
use kube_ovn_global_vpc.Netip.Blocks.{Disjoint, Disjoint-symm, overlaps-Disjoint}
use kube_ovn_global_vpc.SiteConfig.Prefix.{prefix}
use kube_ovn_global_vpc.SiteConfig.Validate.{check_delegated}

-- the networks that two texts stand for share no address
abbrev pub TextsDisjoint : String → String → Type 0
TextsDisjoint r s = (p q : Prefix) → prefix r ≡ ok p → prefix s ≡ ok q → Disjoint p q

-- the network that a text stands for meets none of these
abbrev Apart : List Prefix → String → Type 0
Apart seen raw = (p : Prefix) → prefix raw ≡ ok p → All (Disjoint p) seen

pub check_delegated-Pairs :
    (seen : List Prefix) (raws : List String) {result : List Prefix}
    → check_delegated seen raws ≡ ok result
    → Pairs TextsDisjoint raws × All (Apart seen) raws
unfolding check_delegated
check_delegated-Pairs seen [] h = (tt, tt)
check_delegated-Pairs seen (raw ∷ rest) h =
    let (p, parsed, more) = >>=-eq-ok (prefix raw) _ h in
    let (free, others) = reject-eq-ok (any (overlaps p) seen) _ _ more in
    let (pairs, aparts) = check_delegated-Pairs (p ∷ seen) rest others in
    (
      (All-map (first p parsed) rest aparts, pairs),
      (
        λ q e.
            rw (ok-injective (sym e ∙ parsed))
              (All-map (overlaps-Disjoint p) seen (any-false (overlaps p) seen free)),
        All-map (λ r a q e. (a q e).1) rest aparts,
      ),
    )
  where
    first :
        (p : Prefix) → prefix raw ≡ ok p → (r : String) → Apart (p ∷ seen) r → TextsDisjoint raw r
    first p parsed r apart p' q e f =
        rw (ok-injective (sym e ∙ parsed)) (Disjoint-symm q p (apart q f).0)

-- what holds of every network that was collected holds of those of the texts
pub check_delegated-All :
    (P : Prefix → Type 0) (seen : List Prefix) (raws : List String) {result : List Prefix}
    → check_delegated seen raws ≡ ok result
    → All P result
    → All P seen × All (λ raw. (p : Prefix) → prefix raw ≡ ok p → P p) raws
unfolding check_delegated
check_delegated-All P seen [] h all = (subst (All P) (sym (ok-injective h)) all, tt)
check_delegated-All P seen (raw ∷ rest) h all =
    let (p, parsed, more) = >>=-eq-ok (prefix raw) _ h in
    let (_, others) = reject-eq-ok (any (overlaps p) seen) _ _ more in
    let (holds, texts) = check_delegated-All P (p ∷ seen) rest others all in
    (holds.1, ((λ q e. subst P (ok-injective (sym parsed ∙ e)) holds.0), texts))
