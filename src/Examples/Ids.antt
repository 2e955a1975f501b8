-- ===== src/Examples/Ids.antt =====
-- Numbers for three keys, of which one has a claim.
use kube_ovn_global_vpc.Prelude.{
  String, some, none, List, [], ◌∷◌, find, put, has, text_at, any, contains_text, sort_by,
  insert_by, ◌==◌, if◌then◌else◌, ok, ◌≡◌, refl, arith,
}
use kube_ovn_global_vpc.Netip.Parse.{parse_uint, number_text}
use kube_ovn_global_vpc.Kube.Client.{ConfigMap}
use kube_ovn_global_vpc.NetworkId.Scan.{
  Codec, Scan, no_claims, allocator_label, claims_label, cut_prefix, two_bytes, is_hex,
  check_entries, decoded, scan_shard, scan_item, scan,
}
use kube_ovn_global_vpc.NetworkId.Ledger.{IsLedger, scan-IsLedger}
use kube_ovn_global_vpc.NetworkId.Reserve.{
  unique, group, groups, shards_of, requests, claim_of, split, assign, missing, numbers,
}
use kube_ovn_global_vpc.NetworkId.Distinct.{IsAssignment, numbers-IsAssignment}
use kube_ovn_global_vpc.NetworkId.Allocate.{
  network_ids, and_then, publish, create_shards, advance, reserve, check_anchor, from_next,
  valid_next, check_sequence, on_sequence, on_anchor, on_items, unclaimed, add_claims,
}
use kube_ovn_global_vpc.NetworkId.Correct.{Good}
use kube_ovn_global_vpc.NetworkId.Outcome.{on_items-Allocated}
use kube_ovn_global_vpc.Examples.Api.{stored, store, in_namespace, creation, replacement, api, run}

-- a codec that knows one text, and puts every key into one shard
abbrev codec : Codec
codec = record {
  shard = λ _. "0a";
  decode = λ s. if s == "old" then some (("asn/a", 7) ∷ []) else some [];
  encode = λ _. "new";
  encoded_length = λ _. 3;
}

abbrev shard_map : ConfigMap
shard_map = record {
  namespace = "global-vpc-system";
  name = "network-id-claims-0a";
  uid = "u";
  resource_version = "1";
  labels = (allocator_label, claims_label) ∷ [];
  annotations = [];
  immutable = none;
  values = ("claims.json", "old") ∷ [];
}

abbrev scanned : Scan
scanned = record {
  objects = ("0a", shard_map) ∷ [];
  claims = ("0a", ("asn/a", 7) ∷ []) ∷ [];
  used = 7 ∷ [];
  highest = 7;
}

scan_accepts : scan codec no_claims (shard_map ∷ []) ≡ ok scanned
unfolding scan scan_item scan_shard cut_prefix text_at two_bytes is_hex decoded check_entries any
    put
scan_accepts = refl

scan-IsLedger_example : IsLedger codec scanned
scan-IsLedger_example = scan-IsLedger codec (shard_map ∷ []) scan_accepts

abbrev keys : List String
keys = "asn/b" ∷ "asn/a" ∷ "asn/b" ∷ "link/c" ∷ []

two_missing : missing codec scanned keys ≡ "asn/b" ∷ "link/c" ∷ []
unfolding split requests shards_of unique groups group claim_of find contains_text sort_by insert_by
    put
two_missing = refl

numbers_test :
    (find "asn/a" (numbers codec scanned 9 keys) ≡ some 7)
    × (find "asn/b" (numbers codec scanned 9 keys) ≡ some 9)
    × (find "link/c" (numbers codec scanned 9 keys) ≡ some 10)
unfolding numbers assign split requests shards_of unique groups group claim_of find contains_text
    sort_by insert_by put
numbers_test = (refl, refl, refl)

numbers-IsAssignment_example : IsAssignment codec scanned 9 keys (numbers codec scanned 9 keys)
numbers-IsAssignment_example =
    numbers-IsAssignment codec scanned (scan-IsLedger codec (shard_map ∷ []) scan_accepts) 9 keys
      (omega arith) (rw two_missing (omega arith))

-- from an empty registry, two keys get the numbers 1 and 2
network_ids_test :
    (run (network_ids codec "" ("b" ∷ "a" ∷ [])) []).0 ≡ ok (("a", 1) ∷ ("b", 2) ∷ [])
unfolding run network_ids on_items and_then scan in_namespace on_anchor stored on_sequence creation
    store check_sequence valid_next parse_uint text_at from_next check_anchor replacement
    number_text add_claims advance create_shards publish reserve unclaimed assign claim_of group
    groups numbers requests shards_of split unique check_entries cut_prefix decoded is_hex scan_item
    scan_shard two_bytes any has put insert_by sort_by contains_text
network_ids_test = refl

on_items-Allocated_example :
    Good api codec keys
      (shard_map ∷ [])
      (on_items codec "global-vpc-system" keys (ok (shard_map ∷ [])))
      []
on_items-Allocated_example =
    on_items-Allocated api codec keys (shard_map ∷ []) "global-vpc-system" []
