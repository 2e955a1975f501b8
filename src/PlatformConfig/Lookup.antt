-- ===== src/PlatformConfig/Lookup.antt =====
-- `Config.Location` finds exactly the registered locations of a project, and `AllowsCIDR` accepts
-- exactly the networks that a pool covers.
use kube_ovn_global_vpc.Prelude.{
  ◌≤◌, String, true, List, [], ◌∷◌, ◌≡◌, ◌≢◌, ◌↔◌, inl, inr, refl, sym, subst, arith, All-In, Pairs,
  Some, Some-map, Some-any, any-Some, here, there, In, contains_text, contains_text-In, eq_refl,
  ◌==◌, text_eq, Bool-cases, Result, ok, err, ok-injective,
}
use kube_ovn_global_vpc.Netip.Prefix.{Prefix, contains}
use kube_ovn_global_vpc.Netip.Blocks.{Covers, contains-Covers, Covers-bits, own_address}
use kube_ovn_global_vpc.SiteConfig.Prefix.{prefix}
use kube_ovn_global_vpc.SiteConfig.Prefix.Laws.{IsNetwork, prefix-IsNetwork}
use kube_ovn_global_vpc.Kube.Validation.{Validation}
use kube_ovn_global_vpc.PlatformConfig.{
  Location, Config, validate, location, in_pool, in_pool_text, allows_cidr,
}
use kube_ovn_global_vpc.PlatformConfig.Validate.{OtherLocation, validate-IsLocation}

-- what a location that is found is
pub location_sound :
    (name project : String) (ls : List Location) {l : Location}
    → location name project ls ≡ ok l
    → In l ls × (l.name ≡ name) × In project l.allowed_projects
unfolding location
location_sound name project [] h = cc
location_sound name project (l ∷ ls) {l = m} h = elim (Bool-cases (l.name == name)) [
  | inr other ↦
      let (member, name_too, granted) = location_sound name project ls (rw other at h) in
      (there member, name_too, granted)
  | inl same ↦ elim (Bool-cases (contains_text project l.allowed_projects)) [
    | inl allowed ↦
        let found : l ≡ m = ok-injective (rw (same, allowed) at h) in
        subst (λ (k : Location). In k (l ∷ ls) × (k.name ≡ name) × In project k.allowed_projects)
          found
          (
            here refl,
            text_eq l.name name same,
            (contains_text-In project l.allowed_projects).0 allowed,
          )
    | inr denied ↦ absurd (cc (rw (same, denied) at h))
  ]
]

location_complete :
    (project : String) (ls : List Location) (l : Location)
    → Pairs OtherLocation ls
    → In l ls
    → In project l.allowed_projects
    → location l.name project ls ≡ ok l
unfolding location
location_complete project [] l pairs m allowed = elim m [ ]
location_complete project (k ∷ ls) l pairs (here e) allowed =
    subst (λ (j : Location). location j.name project (k ∷ ls) ≡ ok j) e
      (rw
        (
          eq_refl,
          (contains_text-In project k.allowed_projects).1
              (subst (λ (j : Location). In project j.allowed_projects) (sym e) allowed),
        )
        refl)
location_complete project (k ∷ ls) l pairs (there m) allowed =
    let other : k.name ≢ l.name = (All-In (OtherLocation k) l ls pairs.0 m).0 in
    elim (Bool-cases (k.name == l.name)) [
      | inl same ↦ absurd (other (text_eq _ _ same))
      | inr differ ↦ rw differ (location_complete project ls l pairs.1 m allowed)
    ]

-- In an accepted configuration, `Location` returns a location for a name and a project exactly when
-- it is registered, has the name and grants the project.
pub location-registered :
    (v : Validation) (c : Config) (name project : String) (l : Location)
    → validate v c ≡ ok tt
    → (location name project c.locations ≡ ok l)
      ↔ (In l c.locations × (l.name ≡ name) × In project l.allowed_projects)
location-registered v c name project l h = (
  location_sound name project c.locations,
  λ k.
      subst (λ n. location n project c.locations ≡ ok l) (k.1)
        (location_complete project c.locations l (validate-IsLocation v c h).2 k.0 k.2),
)

-- a pool that covers a network
pub record Pools (p : Prefix) (raw : String) : Type 0 where
  pub pool : Prefix
  pub registered : prefix raw ≡ ok pool
  pub covering : Covers pool p

text-Pools : (p : Prefix) (raw : String) → in_pool_text p raw ≡ true → Pools p raw
text-Pools p raw h = by_parse (prefix raw) refl h
  where
    by_parse : (r : Result Prefix) → prefix raw ≡ r → in_pool p r ≡ true → Pools p raw
    by_parse (err e) parsed k = absurd (cc k)
    by_parse (ok q) parsed k = record {
      pool = q;
      registered = parsed;
      covering = contains-Covers q p (ground arith) (ground arith);
    }

Pools-text : (p : Prefix) → IsNetwork p → (raw : String) → Pools p raw → in_pool_text p raw ≡ true
Pools-text p n raw k =
    let (pool, _) = (prefix-IsNetwork raw {p = k.pool}).0 k.registered in
    let longer : k.pool.bits ≤ p.bits =
      Covers-bits k.pool p (omega (arith, pool.large)) (omega (arith, n.large)) k.covering in
    let inside : contains k.pool p.addr ≡ true = k.covering p.addr (own_address p) in
    rw (k.registered, inside) (ground (arith, longer))

-- Of the text of a network, `AllowsCIDR` holds exactly when all addresses of the network lie in one
-- of the location's pools.
pub allows_cidr-Pools :
    (l : Location) (raw : String) {p : Prefix}
    → prefix raw ≡ ok p
    → (allows_cidr l raw ≡ true) ↔ Some (Pools p) l.cidr_pools
unfolding allows_cidr
allows_cidr-Pools l raw {p} e = (
  (λ h.
      Some-map (text-Pools p) l.cidr_pools
        (any-Some (in_pool_text p) l.cidr_pools (rw (allows_cidr, e) at h))),
  λ m.
      rw (allows_cidr, e)
        (Some-any (in_pool_text p) l.cidr_pools
          (Some-map (Pools-text p ((prefix-IsNetwork raw).0 e).0) l.cidr_pools m)),
)
