-- ===== src/Kube/Json.antt =====
-- The values of `unstructured.Unstructured`: JSON, with the fields of an object in a list.
use kube_ovn_global_vpc.Prelude.{
  ℕ, String, Bool, List, [], ◌∷◌, Map, Option, some, none, ◌==◌, if◌then◌else◌,
}

mutual
  pub data Value : Type 0 where
    null : Value
    bool : Bool → Value
    num : ℕ → Value
    text : String → Value
    arr : Items → Value
    obj : Fields → Value

  pub data Fields : Type 0 where
    no_field : Fields
    field : String → Value → Fields → Fields

  pub data Items : Type 0 where
    empty_array : Items
    element : Value → Items → Items

unfoldable pub texts : List String → Items
texts [] = empty_array
texts (s ∷ rest) = element (text s) (texts rest)

unfoldable pub text_fields : Map String → Fields
text_fields [] = no_field
text_fields ((key, value) ∷ rest) = field key (text value) (text_fields rest)

unfoldable pub field_of : String → Fields → Option Value
field_of k no_field = none
field_of k (field j v rest) = if j == k then some v else field_of k rest

abbrev get : String → Option Value → Option Value
get k (some (obj fields)) = field_of k fields
get k _ = none

-- the value behind a path of keys, the first of several equal keys
unfoldable pub at : List String → Option Value → Option Value
at [] v = v
at (k ∷ path) v = at path (get k v)
