-- ===== src/DomainGate.antt =====
-- `DomainGate` of internal/controller/domain.go: the durable lock of a domain. `SetPaused`, which
-- reads and scales Deployments, is not modelled.

pub mod Laws
pub mod Exclusion
pub mod System
use kube_ovn_global_vpc.Prelude.{
  String, Bool, true, false, not, ◌&&◌, Option, none, some, List, [], ◌∷◌, text_at, ◌==◌, Result,
  ok, err, Error, invalid, not_found, if◌then◌else◌,
}
use kube_ovn_global_vpc.Kube.Client.{ConfigMap, Call, get, create, update, Program, done, call}

-- the namespace of the lock, its name (a hash of the domain) and the domain
pub record Gate : Type 0 where
  pub namespace : String
  pub lock_name : String
  pub domain : String

abbrev pub domain_label : String
domain_label = "networking.globalvpc.io/domain"

unfoldable pub owner : ConfigMap → String
owner cm = text_at domain_label cm.labels

unfoldable pub holder_of : ConfigMap → String
holder_of cm = text_at "holder" cm.values

unfoldable pub plan_hash_of : ConfigMap → String
plan_hash_of cm = text_at "planHash" cm.values

abbrev pub held_data : String → String → List (String × String)
held_data uid hash = ("holder", uid) ∷ ("planHash", hash) ∷ []

abbrev written : String → Result ConfigMap → Result Bool
written problem (ok cm) = ok true
written problem (err e) = err (invalid problem)

abbrev released : Result ConfigMap → Result (Unit {0})
released (ok cm) = ok tt
released (err e) = err (invalid "domain release failed")

-- the lock that `Acquire` creates
abbrev pub new_lock : Gate → String → String → ConfigMap
new_lock g uid hash = record {
  namespace = g.namespace;
  name = g.lock_name;
  uid = "";
  resource_version = "";
  labels = (domain_label, g.domain) ∷ [];
  annotations = [];
  immutable = none;
  values = held_data uid hash;
}

-- `Acquire` after it has read the lock
unfoldable pub acquire_from : Gate → String → String → Result ConfigMap → Program (Result Bool)
acquire_from g uid hash (err not_found) =
    call (create (new_lock g uid hash))
      (λ answer. done (written "domain lock creation failed" answer))
acquire_from g uid hash (err _) = done (err (invalid "domain lock query failed"))
acquire_from g uid hash (ok cm) =
    if not (owner cm == g.domain)
    then done (err (invalid "domain lock ownership conflict"))
    else if not (holder_of cm == "") && not (holder_of cm == uid)
    then done (ok false)
    else if holder_of cm == uid
    then if not (plan_hash_of cm == hash)
      then done (err (invalid "locked domain configuration changed"))
      else done (ok true)
    else call (update (record cm { values = held_data uid hash }))
        (λ answer. done (written "domain lock update failed" answer))

unfoldable pub acquire : Gate → String → String → Program (Result Bool)
acquire g uid hash = call (get g.namespace g.lock_name) (acquire_from g uid hash)

unfoldable pub release_from : Gate → String → Result ConfigMap → Program (Result (Unit {0}))
release_from g uid (err _) = done (err (invalid "domain release query failed"))
release_from g uid (ok cm) =
    if not (owner cm == g.domain && holder_of cm == uid)
    then done (err (invalid "domain release ownership conflict"))
    else call (update (record cm { values = held_data "" "" })) (λ answer. done (released answer))

-- `Release`
unfoldable pub release : Gate → String → Program (Result (Unit {0}))
release g uid = call (get g.namespace g.lock_name) (release_from g uid)

unfoldable pub holder_from : Gate → Result ConfigMap → Result String
holder_from g (err not_found) = ok ""
holder_from g (err _) = err (invalid "domain lock query failed")
holder_from g (ok cm) =
    if not (owner cm == g.domain)
    then err (invalid "domain lock ownership conflict")
    else ok (holder_of cm)

-- `Holder`
unfoldable pub holder : Gate → Program (Result String)
holder g = call (get g.namespace g.lock_name) (λ answer. done (holder_from g answer))
