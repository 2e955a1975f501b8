-- ===== src/PlatformConfig/Validate.antt =====
-- What `Config.Validate` accepts.
use kube_ovn_global_vpc.Prelude.{
  String, true, not, ◌||◌, ◌&&◌, List, [], ◌∷◌, ◌≡◌, ◌≢◌, refl, any, All, All-map, Pairs, has,
  is_empty, is_empty-false, contains_text, contains_text-false, or-false, ok, >>=-eq-ok,
  reject-eq-ok, reject_passed, ◌==◌, is_ok,
}
use kube_ovn_global_vpc.Kube.Validation.{Validation}
use kube_ovn_global_vpc.SiteConfig.Prefix.{prefix}
use kube_ovn_global_vpc.PlatformConfig.{
  Location, Config, not_label, identity, check_classes, check_pools, check_location,
  check_locations, validate,
}

-- a location that names projects and registers networks
pub record IsLocation (l : Location) : Type 0 where
  pub projects : l.allowed_projects ≢ []
  pub pools : l.cidr_pools ≢ []
  pub networks : All (λ raw. is_ok (prefix raw) ≡ true) l.cidr_pools

-- two locations have neither a name nor a namespace in common
abbrev pub OtherLocation : Location → Location → Type 0
OtherLocation l m = (l.name ≢ m.name) × (l.binding_namespace ≢ m.binding_namespace)

abbrev New : List String → List String → Location → Type 0
New seen namespaces l = All (λ s. s ≢ l.name) seen × All (λ s. s ≢ l.binding_namespace) namespaces

check_pools-All :
    (raws : List String) → check_pools raws ≡ ok tt → All (λ raw. is_ok (prefix raw) ≡ true) raws
unfolding check_pools
check_pools-All [] h = tt
check_pools-All (raw ∷ rest) h =
    let (p, parsed, more) = >>=-eq-ok (prefix raw) _ h in
    (rw parsed refl, check_pools-All rest more)

check_location_lem :
    (v : Validation) (seen namespaces : List String) (l : Location)
    → check_location v seen namespaces l ≡ ok tt
    → IsLocation l × New seen namespaces l
unfolding check_location
check_location_lem v seen namespaces l h =
    let (_, h₁) = reject-eq-ok (any (not_label v) (identity l)) _ _ h in
    let (fresh, h₂) =
      reject-eq-ok (contains_text l.name seen || contains_text l.binding_namespace namespaces) _ _
        h₁ in
    let (filled, h₃) = reject-eq-ok (is_empty l.allowed_projects || is_empty l.cidr_pools) _ _ h₂ in
    let (_, h₄) = reject-eq-ok (any (not_label v) l.allowed_projects) _ _ h₃ in
    let (fresh_name, fresh_namespace) = or-false _ _ fresh in
    let (projects, pools) = or-false _ _ filled in
    (
      record {
        projects = is_empty-false _ projects;
        pools = is_empty-false _ pools;
        networks = check_pools-All l.cidr_pools h₄;
      },
      (contains_text-false _ _ fresh_name, contains_text-false _ _ fresh_namespace),
    )

check_locations_lem :
    (v : Validation) (seen namespaces : List String) (ls : List Location)
    → check_locations v seen namespaces ls ≡ ok tt
    → All (λ l. IsLocation l × New seen namespaces l) ls × Pairs OtherLocation ls
unfolding check_locations
check_locations_lem v seen namespaces [] h = (tt, tt)
check_locations_lem v seen namespaces (l ∷ rest) h =
    let (_, first, more) = >>=-eq-ok (check_location v seen namespaces l) _ h in
    let (all, pairs) =
      check_locations_lem v (l.name ∷ seen) (l.binding_namespace ∷ namespaces) rest more in
    (
      (
        check_location_lem v seen namespaces l first,
        All-map (λ m k. (k.0, (k.1.0.1, k.1.1.1))) rest all,
      ),
      (All-map (λ m k. (k.1.0.0, k.1.1.0)) rest all, pairs),
    )

-- In an accepted configuration there is a location, every location names projects and registers
-- networks that `Prefix` accepts, and no two locations share a name or a binding namespace.
pub validate-IsLocation :
    (v : Validation) (c : Config)
    → validate v c ≡ ok tt
    → (c.locations ≢ []) × All IsLocation c.locations × Pairs OtherLocation c.locations
unfolding validate
validate-IsLocation v c h =
    let (_, h₁) =
      reject-eq-ok (not (c.registry_namespace == "") && not_label v c.registry_namespace) _ _ h in
    let (_, h₂) = reject-eq-ok (not (has "default" c.network_classes)) _ _ h₁ in
    let (_, _, h₃) = >>=-eq-ok (check_classes v c.network_classes) _ h₂ in
    let (_, locations, h₄) = >>=-eq-ok (check_locations v [] [] c.locations) _ h₃ in
    let (all, pairs) = check_locations_lem v [] [] c.locations locations in
    (is_empty-false _ (reject_passed _ _ h₄), All-map (λ l k. k.0) c.locations all, pairs)
