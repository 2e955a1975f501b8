-- ===== src/PlatformPlan/Names.antt =====
-- The names and revisions of snapshots.
use kube_ovn_global_vpc.Prelude.{String, ◌⧺◌, false, map}
use kube_ovn_global_vpc.Binding.{PeerGateway, NetworkBindingSpec}

-- SHA-256 of a text, in 20 hexadecimal digits, and SHA-256 of a specification as JSON
pub record Hashes : Type 0 where
  pub short : String → String
  pub spec_hash : NetworkBindingSpec → String

unfoldable pub binding_name : Hashes → String → String → String
binding_name hashes uid location = "nb-" ⧺ hashes.short (uid ⧺ "/" ⧺ location)

unfoldable pub vpc_name : Hashes → String → String → String
vpc_name hashes uid location = "pv-" ⧺ hashes.short (uid ⧺ "/" ⧺ location)

unfoldable pub subnet_name : Hashes → String → String
subnet_name hashes uid = "ps-" ⧺ hashes.short uid

abbrev pub not_ready : PeerGateway → PeerGateway
not_ready p = record p { endpoint = record p.endpoint { ready = false } }

-- the revision leaves out itself and the readiness of the peers
unfoldable pub revision : Hashes → NetworkBindingSpec → String
revision hashes spec =
    hashes.spec_hash (record spec { revision = ""; peers = map not_ready spec.peers })
