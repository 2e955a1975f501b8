-- ===== src/SitePlan/Build/Laws.antt =====
-- What `Build` returns, and on what it depends.
use kube_ovn_global_vpc.Prelude.{
  ℕ, String, true, not, ◌||◌, Option, none, some, List, [], ◌∷◌, ◌≡◌, ◌≢◌, refl, ◌∙◌, subst, arith,
  any, any-Some, Some, Some-map, here, there, is_empty, is_empty-true, is_empty-false, ◌==◌, Result,
  ok, err, >>=-eq-ok, reject-eq-ok, ok-injective, text_eq, not-false, or-false, Bool-cases, inl,
  inr, some_eq,
}
use kube_ovn_global_vpc.Kube.Json.{Value, arr, empty_array, text, at, field_of}
use kube_ovn_global_vpc.Netip.Parse.{addr_text}
use kube_ovn_global_vpc.Netip.Prefix.{Prefix, prefix_text}
use kube_ovn_global_vpc.Netip.Blocks.{Covers, contains-Covers}
use kube_ovn_global_vpc.SiteConfig.Types.{Grant, Config, Bfd}
use kube_ovn_global_vpc.SiteConfig.Prefix.{prefix, host}
use kube_ovn_global_vpc.SiteConfig.Prefix.Laws.{IsHost, prefix-IsNetwork, host-IsHost}
use kube_ovn_global_vpc.SiteConfig.Validate.{validate}
use kube_ovn_global_vpc.SitePlan.Resources.{SiteVpc, Plan, resource, subnet_resource}
use kube_ovn_global_vpc.SitePlan.Build.{
  Libraries, canonical_grant, select_grant, within, delegated_by, default_route, base_plan, plan_of,
  ha_plan, selector_fields, require_grant, build, identity_of, plan_labels, names_key,
}

-- a registered network that covers another
pub record Delegates (p : Prefix) (raw : String) : Type 0 where
  pub network : Prefix
  pub registered : prefix raw ≡ ok network
  pub covering : Covers network p

delegated_by-Delegates : (p : Prefix) (raw : String) → delegated_by p raw ≡ true → Delegates p raw
delegated_by-Delegates p raw h = by_parse (prefix raw) refl (unfold delegated_by in h)
  where
    by_parse : (r : Result Prefix) → prefix raw ≡ r → within p r ≡ true → Delegates p raw
    by_parse (err e) parsed k = absurd (cc k)
    by_parse (ok q) parsed k = record {
      network = q;
      registered = parsed;
      covering = contains-Covers q p (ground arith) (ground arith);
    }

-- the selected grant is that of a registered grant of the tenant, in its canonical order
select_grant_lem :
    (id : String) (gs : List Grant) {g : Grant}
    → select_grant id gs ≡ some g
    → Some (λ h. (h.global_vpc_id ≡ id) × (canonical_grant h ≡ g)) gs
unfolding select_grant
select_grant_lem id [] e = cc
select_grant_lem id (h ∷ gs) e = elim (Bool-cases (h.global_vpc_id == id)) [
  | inl same ↦ here (text_eq _ _ same, some_eq (rw same at e))
  | inr other ↦ there (select_grant_lem id gs (rw other at e))
]

-- the static routes of a planned Vpc
abbrev pub static_routes : Plan → Option Value
static_routes plan = at ("spec" ∷ "staticRoutes" ∷ []) (some plan.vpc)

-- the gateways of a planned attachment, and its routes
pub record HasRoutes (g : Grant) (plan : Plan) : Type 0 where
  pub one :
      g.gateways ≡ []
      → (plan.gateway.version ≡ "v1")
        × (static_routes plan ≡ some (arr (default_route g.gateway_ip)))
  pub many :
      g.gateways ≢ []
      → (plan.gateway.version ≡ "v2")
        × (static_routes plan ≡ some (arr empty_array))
        × (plan.gateway.gateways ≡ g.gateways)
        × (plan.gateway.bfd ≡ g.bfd)

-- what the branches of the plan have in common
pub record Common (c : Config) (v : SiteVpc) (p : Prefix) (plan : Plan) : Type 0 where
  pub owner : plan.owner_uid ≡ v.uid
  pub tenant : plan.global_vpc_id ≡ v.spec.global_vpc_id
  pub cidr : plan.gateway.cidr ≡ prefix_text p
  pub subnet_gateway : at ("spec" ∷ "gateway" ∷ []) (some plan.subnet) ≡ some (text v.spec.gateway)
  pub subnet_cidr : at ("spec" ∷ "cidrBlock" ∷ []) (some plan.subnet) ≡ some (text (prefix_text p))
  pub linked : at ("spec" ∷ "vpc" ∷ []) (some plan.subnet) ≡ some (text plan.vpc_name)
  pub transit_linked : at ("spec" ∷ "vpc" ∷ []) (some plan.transit) ≡ some (text plan.vpc_name)

module _ (lib : Libraries) where
  base_plan-Common :
      (c : Config) (v : SiteVpc) (g : Grant) (p t : Prefix) → Common c v p (base_plan lib c v g p t)
  unfolding base_plan at field_of resource subnet_resource prefix_text plan_labels
  base_plan-Common c v g p t = record {
    owner = refl;
    tenant = refl;
    cidr = refl;
    subnet_gateway = refl;
    subnet_cidr = refl;
    linked = refl;
    transit_linked = refl;
  }

  -- either branch of the plan
  abbrev Planned : Config → SiteVpc → Grant → Prefix → Plan → Type 0
  Planned c v g p plan = Common c v p plan × HasRoutes g plan

  ha_plan-Planned :
      (c : Config) (v : SiteVpc) (g : Grant) (p t : Prefix) (b : Option Bfd) {plan : Plan}
      → g.gateways ≢ []
      → b ≡ g.bfd
      → ha_plan lib t g (plan_labels lib c v) b (base_plan lib c v g p t) ≡ ok plan
      → Planned c v g p plan
  unfolding ha_plan
  ha_plan-Planned c v g p t none several same h = cc
  ha_plan-Planned c v g p t (some b) several same h =
      let (selector, selected, more) = >>=-eq-ok (selector_fields lib b.node_selector) _ h in
      subst (Planned c v g p) (ok-injective more) (
        unfold base_plan at field_of resource subnet_resource prefix_text plan_labels in
        (
          record {
            owner = refl;
            tenant = refl;
            cidr = refl;
            subnet_gateway = refl;
            subnet_cidr = refl;
            linked = refl;
            transit_linked = refl;
          },
          record { one = λ e. absurd (several e); many = λ _. (refl, refl, refl, refl) },
        ))

  plan_of-Planned :
      (c : Config) (v : SiteVpc) (g : Grant) (p t : Prefix) {plan : Plan}
      → plan_of lib c v g p t ≡ ok plan
      → Planned c v g p plan
  plan_of-Planned c v g p t {plan} h = elim (Bool-cases (is_empty g.gateways)) [
    | inl e ↦
        let single : ok (base_plan lib c v g p t) ≡ ok plan = unfold plan_of in rw e at h in
        subst (Planned c v g p) (ok-injective single) (
          base_plan-Common c v g p t,
          record {
            one = λ _. unfold base_plan at field_of resource in (refl, refl);
            many = λ n. absurd (n (is_empty-true g.gateways e));
          },
        )
    | inr e ↦
        let several : ha_plan lib t g (plan_labels lib c v) g.bfd (base_plan lib c v g p t)
            ≡ ok plan =
          unfold plan_of in rw e at h in
        ha_plan-Planned c v g p t g.bfd (is_empty-false g.gateways e) refl several
  ]

-- A plan of an attachment: for this site and attachment, by a registered grant of its tenant, of a
-- network that a delegated prefix covers, with a gateway that is a host of the network.
pub record IsSitePlan (lib : Libraries) (v : SiteVpc) (c : Config) (plan : Plan) : Type 0 where
  pub local : (v.spec.site_id ≡ c.site_id) × (v.spec.attachment_id ≡ c.attachment_id)
  pub grant : Grant
  pub registered :
      Some (λ g. (g.global_vpc_id ≡ v.spec.global_vpc_id) × (canonical_grant g ≡ grant)) c.grants
  pub network : Prefix
  pub network_text : prefix v.spec.cidr ≡ ok network
  pub delegated : Some (Delegates network) grant.delegated_prefixes
  pub gateway : (a : ℕ) × IsHost network a × (addr_text a ≡ v.spec.gateway)
  pub common : Common c v network plan
  pub cidr : plan.gateway.cidr ≡ v.spec.cidr
  pub routes : HasRoutes grant plan
  pub hash : plan.hash ≡ lib.identity_hash (identity_of lib c v grant)

require_grant_lem : (o : Option Grant) {g : Grant} → require_grant o ≡ ok g → o ≡ some g
unfolding require_grant
require_grant_lem none h = cc
require_grant_lem (some g) h = cc

with_hash :
    (lib : Libraries) (c : Config) (v : SiteVpc) (g : Grant) (p : Prefix) (hash : String)
    (plan : Plan)
    → Planned lib c v g p plan
    → Planned lib c v g p (record plan { hash = hash })
with_hash lib c v g p hash plan (k, routes) = (
  record {
    owner = k.owner;
    tenant = k.tenant;
    cidr = k.cidr;
    subnet_gateway = k.subnet_gateway;
    subnet_cidr = k.subnet_cidr;
    linked = k.linked;
    transit_linked = k.transit_linked;
  },
  record { one = routes.one; many = routes.many },
)

-- A plan that `Build` returns is one as `IsSitePlan` says: of this attachment, by a registered
-- grant, within a delegated prefix; a single gateway gets the default route, several get none.
pub build-IsSitePlan :
    (lib : Libraries) (v : SiteVpc) (c : Config) (plan : Plan)
    → build lib (some v) c ≡ ok plan
    → IsSitePlan lib v c plan
unfolding build
build-IsSitePlan lib v c plan h =
    let (_, valid, h₁) = >>=-eq-ok (validate lib.validation c) _ h in
    let (_, h₂) = reject-eq-ok (v.uid == "" || not (lib.validation.is_label_value v.uid)) _ _ h₁ in
    let (local, h₃) =
      reject-eq-ok
        (not (v.spec.site_id == c.site_id) || not (v.spec.attachment_id == c.attachment_id)) _ _
        h₂ in
    let (same_site, same_attachment) = or-false _ _ local in
    let (g, required, h₄) =
      >>=-eq-ok (require_grant (select_grant v.spec.global_vpc_id c.grants)) _ h₃ in
    let (p, parsed, h₅) = >>=-eq-ok (prefix v.spec.cidr) _ h₄ in
    let (within, h₆) = reject-eq-ok (not (any (delegated_by p) g.delegated_prefixes)) _ _ h₅ in
    let (a, hosted, h₇) = >>=-eq-ok (host v.spec.gateway p) _ h₆ in
    let (t, transit, h₈) = >>=-eq-ok (prefix g.transit_cidr) _ h₇ in
    let (base, planned, h₉) = >>=-eq-ok (plan_of lib c v g p t) _ h₈ in
    let (common, routes) =
      with_hash lib c v g p (lib.identity_hash (identity_of lib c v g)) base
        (plan_of-Planned lib c v g p t planned) in
    let (is_host, host_text) = (host-IsHost v.spec.gateway p).0 hosted in
    subst (IsSitePlan lib v c) (ok-injective h₉) (record {
      local = (text_eq _ _ (not-false _ same_site), text_eq _ _ (not-false _ same_attachment));
      grant = g;
      registered = select_grant_lem v.spec.global_vpc_id c.grants (require_grant_lem _ required);
      network = p;
      network_text = parsed;
      delegated =
          Some-map (delegated_by-Delegates p) g.delegated_prefixes
            (any-Some (delegated_by p) g.delegated_prefixes (not-false _ within));
      gateway = (a, is_host, host_text);
      common = common;
      cidr = common.cidr ∙ ((prefix-IsNetwork v.spec.cidr).0 parsed).1;
      routes = routes;
      hash = refl;
    })

-- Other grants and the command for BFD transactions do not matter: two accepted configurations that
-- agree in the rest and in the selected grant give the same plan or the same error.
pub build-other_grants :
    (lib : Libraries) (v : SiteVpc) (c : Config) (grants : List Grant) (transaction : List String)
    → select_grant v.spec.global_vpc_id grants ≡ select_grant v.spec.global_vpc_id c.grants
    → validate lib.validation c ≡ ok tt
    → validate lib.validation (record c { grants = grants; bfd_transaction_command = transaction })
      ≡ ok tt
    → build lib (some v) (record c { grants = grants; bfd_transaction_command = transaction })
      ≡ build lib (some v) c
unfolding build plan_of identity_of base_plan plan_labels names_key
build-other_grants lib v c grants transaction same valid still = rw (valid, still, same) refl
