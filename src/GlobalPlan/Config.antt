-- ===== src/GlobalPlan/Config.antt =====
-- internal/config/config.go: the registered domain. A range over the map of providers meets its
-- entries in the order of the list.
use kube_ovn_global_vpc.Prelude.{
  String, Bool, not, ◌||◌, List, [], ◌∷◌, Map, any, is_empty, length, ltb, ◌==◌, contains_text,
  Result, ok, reject, ◌>>◌,
}
use kube_ovn_global_vpc.Kube.Validation.{Validation}

pub record DeploymentReference : Type 0 where
  pub namespace : String
  pub name : String
  pub uid : String

pub record Cluster : Type 0 where
  pub name : String
  pub uid : String
  pub region : String
  pub site : String
  pub dc : String
  pub kubeconfig : String
  pub nb_command : List String
  pub sb_command : List String
  pub gateway_chassis : List String
  pub az_name : String
  pub ic_deployment : DeploymentReference

pub record Config : Type 0 where
  pub domain : String
  pub clusters : List Cluster
  pub icnb_command : List String
  pub providers : Map (List String)

abbrev blank : String → Bool
blank s = s == ""

abbrev incomplete : Cluster → Bool
incomplete x =
    any blank (x.name ∷ x.uid ∷ x.region ∷ x.site ∷ x.dc ∷ x.kubeconfig ∷ x.az_name ∷ [])
    || is_empty x.nb_command
    || is_empty x.sb_command
    || is_empty x.gateway_chassis

-- the loop over the clusters, with the names, identities and zones before
unfoldable pub check_clusters :
    List String → List String → List String → List Cluster → Result (Unit {0})
check_clusters names uids azs [] = ok tt
check_clusters names uids azs (x ∷ rest) = do
  reject (incomplete x) "incomplete cluster registration"
  reject (contains_text x.name names || contains_text x.uid uids || contains_text x.az_name azs)
      "duplicate cluster name, UID or availability zone"
  reject (any blank (x.ic_deployment.namespace ∷ x.ic_deployment.name ∷ x.ic_deployment.uid ∷ []))
      "dedicated native IC Deployment identity is required"
  check_clusters (x.name ∷ names) (x.uid ∷ uids) (x.az_name ∷ azs) rest

abbrev bad_provider : String × List String → Bool
bad_provider (key, command) = key == "" || is_empty command

unfoldable pub validate : Validation → Config → Result (Unit {0})
validate v c = do
  reject (not (v.is_dns_label c.domain)) "domain must be a DNS label of at most 63 characters"
  reject
      (c.domain == ""
        || ltb (length c.clusters) 2
        || ltb 32 (length c.clusters)
        || is_empty c.icnb_command
        || is_empty c.providers)
      "domain, 2-32 clusters, IC command and providers are required"
  check_clusters [] [] [] c.clusters
  reject (any bad_provider c.providers) "invalid provider command"
