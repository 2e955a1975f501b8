-- ===== src/GlobalPlan/Intents.antt =====
-- The checks of `Build`: the clusters, and the attachments in the order of their clusters. `prefix`
-- and `host` of this package have the bodies of those of internal/siteconfig.
pub mod Laws
use Prim.Native.Char.{code}
use Prim.Native.String
use kube_ovn_global_vpc.Prelude.{
  ℕ, ◌+◌, String, Bool, true, false, not, ◌&&◌, ◌||◌, Option, none, some, List, [], ◌∷◌, Map, find,
  put, has, any, ltb, leb, eqb, ◌==◌, contains_text, text_ltb, sort_by, Result, ok, err, invalid,
  reject, ◌>>=◌, ◌>>◌, if◌then◌else◌,
}
use kube_ovn_global_vpc.Kube.Validation.{Validation}
use kube_ovn_global_vpc.Netip.Prefix.{Prefix, overlaps}
use kube_ovn_global_vpc.SiteConfig.Prefix.{prefix, host}
use kube_ovn_global_vpc.GlobalPlan.Config.{Cluster}
use kube_ovn_global_vpc.GlobalPlan.Types.{Attachment}

-- `unicode.IsSpace`
abbrev is_space : ℕ → Bool
is_space n =
    (leb 9 n && leb n 13)
    || eqb n 32
    || eqb n 133
    || eqb n 160
    || eqb n 5760
    || (leb 8192 n && leb n 8202)
    || eqb n 8232
    || eqb n 8233
    || eqb n 8239
    || eqb n 8287
    || eqb n 12288

-- `strings.TrimSpace(s) == ""`
unfoldable pub is_blank : String → Bool
is_blank String.[] = true
is_blank (String.◌∷◌ c s) = let rest = is_blank s in is_space (code c) && rest

unfoldable pub ends_in_space : String → Bool
ends_in_space String.[] = false
ends_in_space (String.◌∷◌ c String.[]) = is_space (code c)
ends_in_space (String.◌∷◌ c (String.◌∷◌ d s)) = ends_in_space (String.◌∷◌ d s)

abbrev starts_with_space : String → Bool
starts_with_space String.[] = false
starts_with_space (String.◌∷◌ c s) = is_space (code c)

-- `len(s)`: the bytes of UTF-8
unfoldable pub byte_length : String → ℕ
byte_length String.[] = 0
byte_length (String.◌∷◌ c s) =
    (if ltb (code c) 128
      then 1
      else if ltb (code c) 2048
      then 2
      else if ltb (code c) 65536
      then 3
      else 4)
    + byte_length s

unfoldable pub bad_scope : String → Bool
bad_scope s = is_blank s || starts_with_space s || ends_in_space s || ltb 253 (byte_length s)

-- the chassis of a cluster, sorted: blank, or equal to the one before
unfoldable pub bad_chassis : List String → Bool
bad_chassis [] = false
bad_chassis (c ∷ []) = is_blank c
bad_chassis (c ∷ d ∷ rest) = let later = bad_chassis (d ∷ rest) in is_blank c || c == d || later

-- the loop over the registered clusters, with their chassis sorted
unfoldable pub register : Validation → List Cluster → Result (List Cluster)
register v [] = ok []
register v (c ∷ rest) = do
  reject (not (v.is_dns_subdomain c.name) || not (v.is_label_value c.uid))
      "cluster registration has an invalid name or UID label"
  let sorted = sort_by text_ltb c.gateway_chassis
  reject (bad_chassis sorted) "cluster has an empty or duplicate gateway chassis"
  others ← register v rest
  ok (record c { gateway_chassis = sorted } ∷ others)

-- `clusters[name]`: the last registration of a name
unfoldable pub cluster_of : String → List Cluster → Option Cluster
cluster_of name [] = none
cluster_of name (c ∷ rest) = elim (cluster_of name rest) [
  | some d ↦ some d
  | none ↦ if c.name == name then some c else none
]

abbrev registered : Option Cluster → Bool
registered none = false
registered (some _) = true

-- the loop over the attachments
unfoldable pub check_intents :
    List Cluster → Prefix → List String → List ℕ → List Prefix → List Attachment → Result (Unit {0})
check_intents clusters transit seen addresses prefixes [] = ok tt
check_intents clusters transit seen addresses prefixes (a ∷ rest) = do
  reject (not (registered (cluster_of a.cluster_ref clusters)))
      "attachment clusterRef is not registered"
  reject (contains_text a.cluster_ref seen) "duplicate attachment clusterRef"
  subnet ← prefix a.cidr
  reject (any (overlaps subnet) prefixes) "attachment overlaps another prefix in this GlobalVpc"
  _ ← host a.gateway subnet
  address ← host a.transit_ip transit
  reject (any (eqb address) addresses) "duplicate transitIP"
  check_intents clusters transit (a.cluster_ref ∷ seen) (address ∷ addresses) (subnet ∷ prefixes)
      rest
