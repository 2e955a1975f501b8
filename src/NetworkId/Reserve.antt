-- ===== src/NetworkId/Reserve.antt =====
-- The numbers that `networkIDs` hands out: the retained claims of the requested keys, and for the
-- others the next numbers of the sequence, in the order of the keys.
use kube_ovn_global_vpc.Prelude.{
  ℕ, ◌+◌, ◌%◌, ◌^◌, String, Option, none, some, List, [], ◌∷◌, ◌++◌, map, Map, find, put, ◌==◌,
  contains_text, text_ltb, sort_by, if◌then◌else◌,
}
use kube_ovn_global_vpc.NetworkId.Scan.{Codec, Scan}

-- the keys that the loop sees for the first time
unfoldable pub unique : List String → List String → List String
unique seen [] = []
unique seen (k ∷ ks) =
    let known = unique seen ks in
    let new = unique (k ∷ seen) ks in if contains_text k seen then known else k ∷ new

-- `groups[shard]`, each key with its shard
unfoldable pub group : Codec → String → List String → List (String × String)
group codec shard [] = []
group codec shard (k ∷ ks) =
    let rest = group codec shard ks in if codec.shard k == shard then (shard, k) ∷ rest else rest

unfoldable pub groups : Codec → List String → List String → List (String × String)
groups codec [] keys = []
groups codec (shard ∷ shards) keys = group codec shard keys ++ groups codec shards keys

unfoldable pub shards_of : Codec → List String → List String
shards_of codec keys = sort_by text_ltb (unique [] (map codec.shard keys))

-- the order in which the loops over `shards` and `groups[shard]` meet the keys
unfoldable pub requests : Codec → List String → List (String × String)
requests codec keys = groups codec (shards_of codec (unique [] keys)) (unique [] keys)

abbrev pub claim_in : String → Option (Map ℕ) → Option ℕ
claim_in key none = none
claim_in key (some ids) = find key ids

-- `claims[shard][key]`
unfoldable pub claim_of : Map (Map ℕ) → String → String → Option ℕ
claim_of claims shard key = claim_in key (find shard claims)

-- the loop that splits the keys into those with a claim and the missing ones
unfoldable pub split : Map (Map ℕ) → List (String × String) → Map ℕ × List String
split claims [] = ([], [])
split claims ((shard, key) ∷ rest) =
    let others = split claims rest in
    elim (claim_of claims shard key) [
      | some id ↦ (put key id others.0, others.1)
      | none ↦ (others.0, key ∷ others.1)
    ]

-- `result[key] = uint32(next) + uint32(i)`
unfoldable pub assign : ℕ → ℕ → List String → Map ℕ → Map ℕ
assign next i [] result = result
assign next i (key ∷ rest) result =
    assign next (i + 1) rest (put key ((next % 2 ^ 32 + i % 2 ^ 32) % 2 ^ 32) result)

abbrev pub missing : Codec → Scan → List String → List String
missing codec st keys = (split st.claims (requests codec keys)).1

unfoldable pub numbers : Codec → Scan → ℕ → List String → Map ℕ
numbers codec st next keys =
    assign next 0 (sort_by text_ltb (missing codec st keys))
      (split st.claims (requests codec keys)).0
