-- ===== src/GlobalPlan/Mesh.antt =====
-- A plan connects every attachment to every other.
use kube_ovn_global_vpc.Prelude.{
  String, not, ◌||◌, some, List, [], ◌∷◌, map, find, length, eqb, ◌==◌, sort_by, All, All-map,
  Pairs, In, Some, here, there, ◌≡◌, ◌≢◌, refl, sym, ◌∙◌, ap, subst, Bool-cases, inl, inr, text_eq,
  text_ne, ok, >>=-eq-ok, reject-eq-ok, ok-injective, ◌⊎◌, eqb_iff, not-false,
}
use kube_ovn_global_vpc.Kube.Json.{Value, Items, arr, empty_array, element, at, field_of}
use kube_ovn_global_vpc.Netip.Prefix.{Prefix}
use kube_ovn_global_vpc.Netip.Blocks.{Disjoint}
use kube_ovn_global_vpc.SiteConfig.Prefix.{prefix}
use kube_ovn_global_vpc.SitePlan.Resources.{resource}
use kube_ovn_global_vpc.GlobalPlan.Config.{Cluster, Config, validate}
use kube_ovn_global_vpc.GlobalPlan.Types.{Attachment, GlobalVpc, Site, Plan}
use kube_ovn_global_vpc.GlobalPlan.Intents.{bad_scope, register, cluster_of, check_intents}
use kube_ovn_global_vpc.GlobalPlan.Intents.Laws.{Separate, check_intents-All}
use kube_ovn_global_vpc.GlobalPlan.Build.{
  Libraries, by_cluster, route, routes, site_of, sites_of, plan_of, provider_of, build,
}

-- an element of a JSON array
pub data HasItem (v : Value) : Items → Type 0 where
  first : {w : Value} {items : Items} → w ≡ v → HasItem v (element w items)
  later : {w : Value} {items : Items} → HasItem v items → HasItem v (element w items)

item_cases : {v w : Value} {items : Items} → HasItem v (element w items) → (w ≡ v) ⊎ HasItem v items
item_cases (first e) = inl e
item_cases (later m) = inr m

no_items : {v : Value} → HasItem v empty_array → ⊥
no_items m = elim m [ ]

-- the routes of an attachment lead exactly to the attachments of other clusters
routes-all :
    (intent : Attachment) (intents : List Attachment) (remote : Attachment)
    → In remote intents
    → remote.cluster_ref ≢ intent.cluster_ref
    → HasItem (route remote) (routes intent intents)
unfolding routes
routes-all intent [] remote m other = elim m [ ]
routes-all intent (a ∷ rest) remote m other =
    elim (Bool-cases (a.cluster_ref == intent.cluster_ref)) [
      | inr e ↦ rw e (elim m [
        | here same ↦ first (ap route same)
        | there n ↦ later (routes-all intent rest remote n other)
      ])
      | inl e ↦ rw e (elim m [
        | here same ↦
            absurd (other (sym (ap (λ (b : Attachment). b.cluster_ref) same) ∙ text_eq _ _ e))
        | there n ↦ routes-all intent rest remote n other
      ])
    ]

routes-only :
    (intent : Attachment) (intents : List Attachment) (v : Value)
    → HasItem v (routes intent intents)
    → Some (λ remote. (remote.cluster_ref ≢ intent.cluster_ref) × (v ≡ route remote)) intents
unfolding routes
routes-only intent [] v m = absurd (no_items m)
routes-only intent (a ∷ rest) v m = elim (Bool-cases (a.cluster_ref == intent.cluster_ref)) [
  | inl e ↦ there (routes-only intent rest v (rw e at m))
  | inr e ↦ elim (item_cases (rw e at m)) [
    | inl same ↦ here (text_ne _ _ e, sym same)
    | inr more ↦ there (routes-only intent rest v more)
  ]
]

-- The sites of a plan: one for each attachment, whose VPC has a static route to each attachment of
-- another cluster and no other.
pub record IsSite (intents : List Attachment) (s : Site) : Type 0 where
  pub listed : In s.intent intents
  pub items : Items
  pub static_routes : at ("spec" ∷ "staticRoutes" ∷ []) (some s.vpc) ≡ some (arr items)
  pub reaches :
      (remote : Attachment)
      → In remote intents
      → remote.cluster_ref ≢ s.intent.cluster_ref
      → HasItem (route remote) items
  pub only :
      (v : Value)
      → HasItem v items
      → Some (λ remote. (remote.cluster_ref ≢ s.intent.cluster_ref) × (v ≡ route remote)) intents

module _ (lib : Libraries) (uid : String) (transit : Prefix) (intents : List Attachment) where
  site_of-IsSite :
      (c : Cluster) (a : Attachment)
      → In a intents
      → IsSite intents (site_of lib uid transit intents c a)
  unfolding site_of resource at field_of
  site_of-IsSite c a m = record {
    listed = m;
    items = routes a intents;
    static_routes = refl;
    reaches = routes-all a intents;
    only = routes-only a intents;
  }

  sites_of-all :
      (clusters : List Cluster) (rest : List Attachment)
      → ((a : Attachment) → In a rest → In a intents)
      → All (λ a. (c : Cluster) × (cluster_of a.cluster_ref clusters ≡ some c)) rest
      → (map (λ (s : Site). s.intent) (sites_of lib uid transit intents clusters rest) ≡ rest)
        × All (IsSite intents) (sites_of lib uid transit intents clusters rest)
  unfolding sites_of site_of
  sites_of-all clusters [] among known = (refl, tt)
  sites_of-all clusters (a ∷ rest) among known =
      let (c, found) = known.0 in
      let (intents_of, sites) = sites_of-all clusters rest (λ b m. among b (there m)) known.1 in
      rw found (
        ap (λ (t : List Attachment). a ∷ t) intents_of,
        (site_of-IsSite c a (among a (here refl)), sites),
      )

-- A plan over a domain: its sites are those of the attachments, sorted by cluster, one for each;
-- the attachments share neither clusters nor addresses, and the sites form a full mesh.
pub record IsMesh (v : GlobalVpc) (c : Config) (plan : Plan) : Type 0 where
  pub complete : length v.spec.attachments ≡ length c.clusters
  pub transit : Prefix
  pub transit_text : prefix v.spec.transit_cidr ≡ ok transit
  pub sites : map (λ (s : Site). s.intent) plan.attachments ≡ sort_by by_cluster v.spec.attachments
  pub separate : Pairs Separate (sort_by by_cluster v.spec.attachments)
  pub off_transit :
      All
        (λ a. (p : Prefix) → prefix a.cidr ≡ ok p → Disjoint p transit)
        (sort_by by_cluster v.spec.attachments)
  pub mesh : All (IsSite (sort_by by_cluster v.spec.attachments)) plan.attachments

-- A plan that `Build` returns has a site for each attachment, as many as the domain has clusters;
-- the attachments share no cluster, no address and no transit address, lie outside the transit
-- network, and every site has static routes to exactly the attachments of other clusters.
pub build-IsMesh :
    (lib : Libraries) (v : GlobalVpc) (c : Config) (plan : Plan)
    → build lib (some v) c ≡ ok plan
    → IsMesh v c plan
unfolding build
build-IsMesh lib v c plan h =
    let (_, _, h₁) = >>=-eq-ok (validate lib.validation c) _ h in
    let (_, h₂) = reject-eq-ok (v.uid == "" || not (lib.validation.is_label_value v.uid)) _ _ h₁ in
    let (_, h₃) = reject-eq-ok (not (v.spec.domain_ref == c.domain)) _ _ h₂ in
    let (command, _, h₄) =
      >>=-eq-ok (provider_of lib (find v.spec.ipam.provider_ref c.providers)) _ h₃ in
    let (_, h₅) = reject-eq-ok (bad_scope v.spec.ipam.scope_ref) _ _ h₄ in
    let (count, h₆) =
      reject-eq-ok (not (eqb (length v.spec.attachments) (length c.clusters))) _ _ h₅ in
    let (transit, transit_text, h₇) = >>=-eq-ok (prefix v.spec.transit_cidr) _ h₆ in
    let (clusters, _, h₈) = >>=-eq-ok (register lib.validation c.clusters) _ h₇ in
    let intents = sort_by by_cluster v.spec.attachments in
    let (_, checked, h₉) =
      >>=-eq-ok (check_intents clusters transit [] [] (transit ∷ []) intents) _ h₈ in
    let (all, pairs) = check_intents-All clusters transit [] [] (transit ∷ []) intents checked in
    let (sites, mesh) =
      sites_of-all lib v.uid transit intents clusters intents (λ a m. m)
        (All-map (λ a k. (k.cluster, k.found)) intents all) in
    subst (IsMesh v c) (ok-injective h₉) (
      unfold plan_of in
      record {
        complete = (eqb_iff _ _).0 (not-false _ count);
        transit = transit;
        transit_text = transit_text;
        sites = sites;
        separate = pairs;
        off_transit =
            All-map
              (λ a k p e.
                subst (λ q. Disjoint q transit) (ok-injective (sym k.parsed ∙ e)) k.new_prefix.0)
              intents all;
        mesh = mesh;
      })
