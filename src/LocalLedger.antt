-- ===== src/LocalLedger.antt =====
-- `readAllocationState` of internal/localcontroller/allocation.go: the check of the retained
-- allocations of one cluster. A range over the map meets its entries in the order of the list.
pub mod Networks
pub mod Laws
pub mod Receipts
pub mod Choose
pub mod Allocate
use kube_ovn_global_vpc.Prelude.{
  ℕ, String, Bool, true, false, not, ◌||◌, Option, none, some, List, [], ◌∷◌, Map, text_at, length,
  eqb, ◌==◌, contains_text, Result, ok, err, invalid, reject, is_ok, ◌>>=◌, ◌>>◌,
}
use kube_ovn_global_vpc.Kube.Client.{ConfigMap}
use kube_ovn_global_vpc.Netip.Parse.{addr_text}
use kube_ovn_global_vpc.Netip.Prefix.{Prefix, contains, next}
use kube_ovn_global_vpc.SiteConfig.Prefix.{prefix, host, last_address}
use kube_ovn_global_vpc.LocalConfig.{Config}

pub record Allocation : Type 0 where
  pub transit_cidr : String
  pub router_ip : String
  pub bfd_source_ip : String

pub record AllocatorState : Type 0 where
  pub cluster_uid : String
  pub allocations : Map Allocation
  pub binding_uids : Map String

-- code outside the repository: the hexadecimal SHA-256 of a text, and `json.Unmarshal` into a
-- state, `none` for an error or a missing map
pub record Codec : Type 0 where
  pub digest : String → String
  pub decode : String → Option AllocatorState

-- a pool that `Prefix` refuses is the zero prefix, which contains nothing
abbrev pub in_pool : Result Prefix → ℕ → Bool
in_pool (err _) a = false
in_pool (ok pool) a = contains pool a

abbrev pub usable : Result Prefix → String → Bool
usable (err _) raw = false
usable (ok pool) raw = is_ok (host raw pool)

-- the condition on one allocation, with the transit texts, sources and identities before
unfoldable pub bad_allocation :
    Config
    → List String
    → List String
    → List String
    → String
    → String
    → Allocation
    → Result Prefix
    → Bool
bad_allocation c transits sources uids owner uid a (err _) = true
bad_allocation c transits sources uids owner uid a (ok p) =
    owner == ""
    || uid == ""
    || contains_text uid uids
    || not (usable (prefix c.bfd_source_pool) a.bfd_source_ip)
    || not (eqb p.bits c.transit_prefix_length)
    || not (in_pool (prefix c.transit_pool) p.addr)
    || not (in_pool (prefix c.transit_pool) (last_address p))
    || not (a.router_ip == addr_text (next p.addr))
    || contains_text a.transit_cidr transits
    || contains_text a.bfd_source_ip sources

unfoldable pub check_allocations :
    Config
    → Map String
    → List String
    → List String
    → List String
    → Map Allocation
    → Result (Unit {0})
check_allocations c binding_uids transits sources uids [] = ok tt
check_allocations c binding_uids transits sources uids ((owner, a) ∷ rest) = do
  reject
      (bad_allocation c transits sources uids owner (text_at owner binding_uids) a
        (prefix a.transit_cidr))
      "retained local allocation is invalid, duplicated or outside installed pools; fenced recovery required"
  check_allocations c binding_uids (a.transit_cidr ∷ transits) (a.bfd_source_ip ∷ sources)
      (text_at owner binding_uids ∷ uids) rest

abbrev corrupt : String
corrupt =
    "local allocation ledger is corrupt or belongs to another cluster; fenced recovery required"

unfoldable pub decoded : Option AllocatorState → Result AllocatorState
decoded none = err (invalid corrupt)
decoded (some state) = ok state

-- `readAllocationState`
unfoldable pub read_allocation_state : Codec → ConfigMap → Config → Result AllocatorState
read_allocation_state codec cm c = do
  reject
      (cm.uid == ""
        || not (text_at "platform.globalvpc.io/allocator" cm.labels == "true")
        || not (
            text_at "platform.globalvpc.io/allocation-digest" cm.annotations
            == codec.digest (text_at "state.json" cm.values)))
      corrupt
  state ← decoded (codec.decode (text_at "state.json" cm.values))
  reject
      (not (state.cluster_uid == c.cluster_uid)
        || not (eqb (length state.allocations) (length state.binding_uids)))
      corrupt
  check_allocations c state.binding_uids [] [] [] state.allocations
  ok state
