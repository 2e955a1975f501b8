-- ===== src/LocalSync.antt =====
-- `Syncer.binding` and `Syncer.Once` of internal/localcontroller/sync.go: the snapshot of one binding
-- at the authority is taken over locally, and the local report goes back. The generation of an
-- object is positive at the API, so it is a natural number.
pub mod Laws
pub mod Steps
pub mod Settled
pub mod Planned
use Prim.Native.Char.{code}
use kube_ovn_global_vpc.Prelude.{
  ℕ, zero, suc, ◌-◌, ◌^◌, String, ◌⧺◌, Bool, true, false, not, ◌&&◌, ◌||◌, Option, none, some, List,
  [], ◌∷◌, map, put, text_at, is_empty, ltb, eqb, ◌==◌, Result, ok, err, Error, invalid, not_found,
  reject, ◌>>=◌, ◌>>◌, if◌then◌else◌,
}
use kube_ovn_global_vpc.Netip.Parse.{number_text, parse_uint}
use kube_ovn_global_vpc.LocalConfig.{Config}
use kube_ovn_global_vpc.LocalLedger.Receipts.{source_uid_annotation, owner_of}
use kube_ovn_global_vpc.PlatformPlan.Names.{Hashes, binding_name, revision}
use kube_ovn_global_vpc.Binding.{
  ObjectIdentity, Condition, NetworkBindingSpec, NetworkBindingStatus, NetworkBinding,
}
use kube_ovn_global_vpc.Binding.Equality.{identity_equal, spec_equal, status_equal}

abbrev pub generation_annotation : String
generation_annotation = "platform.globalvpc.io/source-generation"

-- a signed number: `negsuc n` is -(n + 1)
pub data ℤ : Type 0 where
  pos : ℕ → ℤ
  negsuc : ℕ → ℤ

abbrev negated : Option ℕ → Option ℤ
negated none = none
negated (some zero) = some (pos 0)
negated (some (suc n)) = some (negsuc n)

abbrev positive : Option ℕ → Option ℤ
positive none = none
positive (some n) = some (pos n)

-- `strconv.ParseInt(s, 10, 64)`
unfoldable pub parse_int : String → Option ℤ
parse_int String.[] = none
parse_int (String.◌∷◌ c s) =
    if eqb (code c) b'-'
    then negated (parse_uint (2 ^ 63) s)
    else if eqb (code c) b'+'
    then positive (parse_uint (2 ^ 63 - 1) s)
    else positive (parse_uint (2 ^ 63 - 1) (String.◌∷◌ c s))

-- `remote.Generation < generation`, `==` and `>`
abbrev pub before : ℕ → ℤ → Bool
before g (pos n) = ltb g n
before g (negsuc n) = false

abbrev pub equals : ℕ → ℤ → Bool
equals g (pos n) = eqb g n
equals g (negsuc n) = false

abbrev pub after : ℕ → ℤ → Bool
after g (pos n) = ltb n g
after g (negsuc n) = true

-- what `binding` does with the local API, before it reports
pub data Decision : Type 0 where
  creates deletes updates keeps : NetworkBinding → Decision

-- the snapshot as it is created
unfoldable pub new_local : Config → NetworkBinding → NetworkBinding
new_local c remote = record {
  namespace = c.namespace;
  name = remote.name;
  uid = "";
  resource_version = "";
  generation = 0;
  labels = ("platform.globalvpc.io/location", c.location_ref) ∷ [];
  annotations =
      (source_uid_annotation, remote.uid)
      ∷ (generation_annotation, number_text remote.generation)
      ∷ [];
  spec = remote.spec;
  status = record {
    observed_generation = 0;
    phase = "";
    applied_revision = "";
    resources = [];
    gateways = [];
    conditions = [];
  };
}

-- the local binding has been cleaned up, so another incarnation can follow it
unfoldable pub cleaned_up : NetworkBinding → Bool
cleaned_up local =
    local.spec.deleting
    && local.status.phase == "Deleted"
    && local.status.applied_revision == local.spec.revision
    && is_empty local.status.resources
    && is_empty local.status.gateways

-- the snapshot with the specification of the authority
unfoldable pub taken_over : NetworkBinding → NetworkBinding → NetworkBinding
taken_over remote local = record local {
  spec = remote.spec;
  annotations = put generation_annotation (number_text remote.generation) local.annotations;
}

unfoldable pub by_generation : NetworkBinding → NetworkBinding → Option ℤ → Result Decision
by_generation remote local none =
    err (invalid "authority generation is older than the accepted local snapshot")
by_generation remote local (some generation) = do
  reject (before remote.generation generation)
      "authority generation is older than the accepted local snapshot"
  reject (equals remote.generation generation && not (spec_equal.test local.spec remote.spec))
      "authority changed snapshot without advancing generation"
  reject (after remote.generation generation && local.spec.deleting && not remote.spec.deleting)
      "cannot resurrect a deleting local snapshot"
  ok (if after remote.generation generation then updates (taken_over remote local) else keeps local)

unfoldable pub with_local : Config → NetworkBinding → NetworkBinding → Result Decision
with_local c remote local =
    if not (owner_of local == remote.uid)
    then (if cleaned_up local
        then ok (deletes local)
        else err (invalid "previous local binding incarnation has not completed cleanup"))
    else (reject
          (not (identity_equal.test local.spec.vpc_ref remote.spec.vpc_ref)
            || not (local.spec.location_ref == c.location_ref))
          "local snapshot belongs to another authority identity"
        >> by_generation remote local (parse_int (text_at generation_annotation local.annotations)))

unfoldable pub on_local : Config → NetworkBinding → Result NetworkBinding → Result Decision
on_local c remote (ok local) = with_local c remote local
on_local c remote (err not_found) = ok (creates (new_local c remote))
on_local c remote (err e) = err e

-- the part of `binding` up to its write to the local API, with the answer to its `Get`
unfoldable pub decide : Hashes → Config → NetworkBinding → Result NetworkBinding → Result Decision
decide hashes c remote answer = do
  reject (not (remote.spec.location_ref == c.location_ref))
      "authority snapshot belongs to another location"
  reject
      (not (remote.name == binding_name hashes remote.spec.vpc_ref.uid c.location_ref)
        || not (remote.spec.revision == revision hashes remote.spec))
      "authority snapshot identity or revision is invalid"
  on_local c remote answer

abbrev observed : ℕ → Condition → Condition
observed g k = record k { observed_generation = g }

-- the report of the local binding, for the generation that it has applied
unfoldable pub report : NetworkBinding → NetworkBinding → NetworkBindingStatus
report remote local =
    let g =
      if local.status.applied_revision == remote.spec.revision then remote.generation else 0 in
    record local.status {
      observed_generation = g;
      conditions = map (observed g) local.status.conditions;
    }

-- the status that is written to the authority, if it differs
unfoldable pub reported : NetworkBinding → NetworkBinding → Option NetworkBindingStatus
reported remote local =
    if status_equal.test remote.status (report remote local)
    then none
    else some (report remote local)

-- The rest of `binding`: the write to the local API, with the stored object it answers with, and
-- the report, where one follows.
unfoldable pub finish :
    NetworkBinding → Decision → Result NetworkBinding → Result (Option NetworkBindingStatus)
finish remote (creates local) (ok _) = ok none
finish remote (deletes local) (ok _) = ok none
finish remote (updates local) (ok stored) = ok (reported remote stored)
finish remote (keeps local) answer = ok (reported remote local)
finish remote (creates local) (err e) = err e
finish remote (deletes local) (err e) = err e
finish remote (updates local) (err e) = err e

-- `Once`: the failures of the listed bindings, of which none keeps the others from being tried
unfoldable pub failures : {A : Type 0} → List (Result A) → List Error
failures [] = []
failures (ok _ ∷ results) = failures results
failures (err e ∷ results) = e ∷ failures results

unfoldable pub once :
    {A : Type 0} → (NetworkBinding → Result A) → Result (List NetworkBinding) → Result (List Error)
once binding (err e) = err (invalid "cannot read authorized location snapshots")
once binding (ok items) = ok (failures (map binding items))
