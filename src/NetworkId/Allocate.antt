-- ===== src/NetworkId/Allocate.antt =====
-- `networkIDs` as a program of API calls. The loop over the missing shards and the loop that
-- publishes the claims go through the shards in their sorted order.
use kube_ovn_global_vpc.Prelude.{
  ℕ, ◌+◌, ◌-◌, ◌^◌, String, ◌⧺◌, Bool, true, false, not, ◌&&◌, ◌||◌, Option, none, some, List, [],
  ◌∷◌, Map, find, put, has, text_at, is_empty, length, ltb, leb, eqb, ◌==◌, Result, ok, err,
  invalid, not_found, reject, ◌>>◌, if◌then◌else◌,
}
use kube_ovn_global_vpc.Netip.Parse.{parse_uint, number_text}
use kube_ovn_global_vpc.Kube.Client.{ConfigMap, get, list, create, update, Program, done, call}
use kube_ovn_global_vpc.NetworkId.Scan.{
  Codec, Scan, no_claims, allocator_label, claim_prefix, claims_label, max_network_id, scan,
}
use kube_ovn_global_vpc.NetworkId.Reserve.{unique, shards_of, requests, split, missing, numbers}

abbrev pub sequence_name : String
sequence_name = "network-id-sequence"

abbrev pub anchor_name : String
anchor_name = "network-id-sequence-anchor"

abbrev pub Outcome : Type 0
Outcome = Program (Result (Map ℕ))

abbrev fail : String → Outcome
fail text = done (err (invalid text))

-- `if err != nil { return nil, err }`, or on with the value
unfoldable pub and_then : {A : Type 0} → (A → Outcome) → Result A → Outcome
and_then k (ok a) = k a
and_then k (err e) = done (err e)

-- an object that is about to be created
abbrev fresh : String → String → String → Option Bool → Map String → ConfigMap
fresh namespace name label immutable values = record {
  namespace = namespace;
  name = name;
  uid = "";
  resource_version = "";
  labels = (allocator_label, label) ∷ [];
  annotations = [];
  immutable = immutable;
  values = values;
}

abbrev number_at : Option ℕ → ℕ
number_at none = 0
number_at (some n) = n

abbrev pub claims_at : Option (Map ℕ) → Map ℕ
claims_at none = []
claims_at (some ids) = ids

-- the keys of a shard without a claim, in the order of the keys
unfoldable pub unclaimed : Codec → String → Map ℕ → List String → List String
unclaimed codec shard ids [] = []
unclaimed codec shard ids (k ∷ ks) =
    let rest = unclaimed codec shard ids ks in
    if codec.shard k == shard && not (has k ids) then k ∷ rest else rest

-- `claims[shard][key] = result[key]` for these keys
unfoldable pub add_claims : Map ℕ → List String → Map ℕ → Map ℕ
add_claims result [] ids = ids
add_claims result (k ∷ ks) ids = add_claims result ks (put k (number_at (find k result)) ids)

-- the last loop; every shard has an object by then, and a missing one would be a nil dereference
unfoldable pub publish :
    Codec → Map ConfigMap → Map (Map ℕ) → List String → Map ℕ → List String → Outcome
publish codec objects claims keys result [] = done (ok result)
publish codec objects claims keys result (shard ∷ shards) =
    let rest = publish codec objects claims keys result shards in
    let ids = claims_at (find shard claims) in
    let new = add_claims result (unclaimed codec shard ids keys) ids in
    if is_empty (unclaimed codec shard ids keys)
    then rest
    else if ltb 900000 (codec.encoded_length new)
    then fail "network ID claim shard capacity exceeded"
    else elim (find shard objects) [
      | none ↦ fail "nil pointer dereference"
      | some cm ↦
          call (update (record cm { values = put "claims.json" (codec.encode new) cm.values }))
            (and_then (λ _. rest))
    ]

-- the loop that creates the missing shards, and what follows it
unfoldable pub create_shards :
    String
    → (Map ConfigMap → Map (Map ℕ) → Outcome)
    → Map ConfigMap
    → Map (Map ℕ)
    → List String
    → Outcome
create_shards namespace next objects claims [] = next objects claims
create_shards namespace next objects claims (shard ∷ shards) = elim (find shard objects) [
  | some _ ↦ create_shards namespace next objects claims shards
  | none ↦
      call
        (create
          (fresh namespace (claim_prefix ⧺ shard) claims_label none (("claims.json", "{}") ∷ [])))
        (and_then
          (λ cm. create_shards namespace next (put shard cm objects) (put shard [] claims) shards))
]

-- the update of the sequence, and the publication behind it
unfoldable pub advance :
    Codec → Scan → ℕ → ConfigMap → List String → Map ConfigMap → Map (Map ℕ) → Outcome
advance codec st next seq keys objects claims =
    call
      (update (record seq {
        values = put "next" (number_text (next + length (missing codec st keys))) seq.values;
      }))
      (and_then (λ _.
        publish codec objects claims (unique [] keys) (numbers codec st next keys)
          (shards_of codec (unique [] keys))))

-- the part behind the checks
unfoldable pub reserve : Codec → String → Scan → ℕ → ConfigMap → List String → Outcome
reserve codec namespace st next seq keys =
    if is_empty (missing codec st keys)
    then done (ok (split st.claims (requests codec keys)).0)
    else if ltb (max_network_id + 1) (next + length (missing codec st keys))
    then fail "network ID sequence exhausted"
    else create_shards namespace (advance codec st next seq keys) st.objects st.claims
        (shards_of codec (unique [] keys))

-- the identity of the sequence: `none` is a missing anchor
unfoldable pub check_anchor :
    Codec → String → Scan → Option ConfigMap → ℕ → ConfigMap → List String → Outcome
check_anchor codec namespace st (some anchor) next seq keys =
    if not (text_at "sequenceUID" anchor.values == seq.uid)
    then fail "network ID sequence identity changed"
    else reserve codec namespace st next seq keys
check_anchor codec namespace st none next seq keys =
    if not (eqb next 1) || not (eqb st.highest 0)
    then fail "network ID sequence identity anchor missing for used registry"
    else call
        (create
          (fresh namespace anchor_name anchor_name (some true) (("sequenceUID", seq.uid) ∷ [])))
        (and_then (λ _. reserve codec namespace st next seq keys))

unfoldable pub valid_next : ConfigMap → Option ℕ → Result ℕ
valid_next seq none = err (invalid "network ID sequence invalid")
valid_next seq (some next) = do
  reject
      (seq.uid == ""
        || not (text_at allocator_label seq.labels == sequence_name)
        || ltb next 1
        || ltb (max_network_id + 1) next)
      "network ID sequence invalid"
  ok next

unfoldable pub from_next :
    Codec → String → Scan → Option ConfigMap → List String → ConfigMap → ℕ → Outcome
from_next codec namespace st anchor keys seq next =
    if leb next st.highest
    then fail "network ID sequence regressed behind retained claims"
    else check_anchor codec namespace st anchor next seq keys

unfoldable pub check_sequence :
    Codec → String → Scan → Option ConfigMap → List String → ConfigMap → Outcome
check_sequence codec namespace st anchor keys seq =
    and_then (from_next codec namespace st anchor keys seq)
      (valid_next seq (parse_uint (2 ^ 32 - 1) (text_at "next" seq.values)))

abbrev pub present : Option ConfigMap → Bool
present none = false
present (some _) = true

unfoldable pub on_sequence :
    Codec → String → Scan → Option ConfigMap → List String → Result ConfigMap → Outcome
on_sequence codec namespace st anchor keys (ok seq) =
    check_sequence codec namespace st anchor keys seq
on_sequence codec namespace st anchor keys (err not_found) =
    if present anchor || not (eqb st.highest 0)
    then fail "network ID sequence missing beside retained identity or claims"
    else call (create (fresh namespace sequence_name sequence_name none (("next", "1") ∷ [])))
        (and_then (check_sequence codec namespace st anchor keys))
on_sequence codec namespace st anchor keys (err e) = done (err e)

abbrev read_sequence : Codec → String → Scan → List String → Option ConfigMap → Outcome
read_sequence codec namespace st keys anchor =
    call (get namespace sequence_name) (on_sequence codec namespace st anchor keys)

abbrev pub is_immutable : Option Bool → Bool
is_immutable (some b) = b
is_immutable none = false

unfoldable pub on_anchor : Codec → String → Scan → List String → Result ConfigMap → Outcome
on_anchor codec namespace st keys (err not_found) = read_sequence codec namespace st keys none
on_anchor codec namespace st keys (err e) = done (err e)
on_anchor codec namespace st keys (ok anchor) =
    if not (text_at allocator_label anchor.labels == anchor_name)
      || not (is_immutable anchor.immutable)
      || text_at "sequenceUID" anchor.values == ""
    then fail "network ID sequence identity anchor is invalid or foreign"
    else read_sequence codec namespace st keys (some anchor)

unfoldable pub on_items : Codec → String → List String → Result (List ConfigMap) → Outcome
on_items codec namespace keys (err e) = done (err e)
on_items codec namespace keys (ok items) =
    and_then (λ st. call (get namespace anchor_name) (on_anchor codec namespace st keys))
      (scan codec no_claims items)

abbrev pub registry : String → String
registry namespace = if namespace == "" then "global-vpc-system" else namespace

-- `networkIDs`, with the configured namespace of the registry
unfoldable pub network_ids : Codec → String → List String → Outcome
network_ids codec namespace keys =
    call (list (registry namespace)) (on_items codec (registry namespace) keys)
