-- ===== src/Kube/Validation.antt =====
-- `k8s.io/apimachinery` validation, which is not part of the repository: a parameter.
use kube_ovn_global_vpc.Prelude.{String, Bool, List}

-- `metav1.LabelSelectorRequirement`
pub record Requirement : Type 0 where
  pub key : String
  pub operator : String
  pub values : List String

-- `metav1.LabelSelector`
pub record LabelSelector : Type 0 where
  pub match_labels : List (String × String)
  pub match_expressions : List Requirement

-- Each field tells whether the library's list of complaints is empty.
pub record Validation : Type 0 where
  pub is_dns_label : String → Bool
  pub is_dns_subdomain : String → Bool
  pub is_label_value : String → Bool
  pub is_qualified_name : String → Bool
  pub is_label_selector : LabelSelector → Bool
