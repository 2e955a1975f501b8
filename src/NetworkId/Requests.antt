-- ===== src/NetworkId/Requests.antt =====
-- Every requested key is met once with its shard.
use kube_ovn_global_vpc.Prelude.{
  String, true, List, [], ◌∷◌, ◌++◌, map, ◌≡◌, ◌⊎◌, inl, inr, refl, sym, ap, subst, ◌==◌, text_eq,
  eq_refl, Bool-cases, All, All-append, In, here, there, Some-sort_by, contains_text,
  contains_text-In, text_ltb,
}
use kube_ovn_global_vpc.NetworkId.Scan.{Codec}
use kube_ovn_global_vpc.NetworkId.Reserve.{unique, group, groups, shards_of, requests}

-- a key that the loop over the keys has seen, or keeps
unique-In : (seen keys : List String) (k : String) → In k keys → In k seen ⊎ In k (unique seen keys)
unfolding unique
unique-In seen [] k m = elim m [ ]
unique-In seen (j ∷ keys) k (here e) = elim (Bool-cases (contains_text j seen)) [
  | inl known ↦ inl (subst (λ n. In n seen) e ((contains_text-In j seen).0 known))
  | inr new ↦ rw new (inr (here e))
]
unique-In seen (j ∷ keys) k (there m) = elim (Bool-cases (contains_text j seen)) [
  | inl known ↦ rw known (unique-In seen keys k m)
  | inr new ↦ rw new (elim (unique-In (j ∷ seen) keys k m) [
    | inl (here e) ↦ inr (here e)
    | inl (there n) ↦ inl n
    | inr n ↦ inr (there n)
  ])
]

unique-all : (keys : List String) (k : String) → In k keys → In k (unique [] keys)
unique-all keys k m = elim (unique-In [] keys k m) [ inl n ↦ elim n [ ] | inr n ↦ n ]

In-map : (f : String → String) (keys : List String) (k : String) → In k keys → In (f k) (map f keys)
In-map f [] k m = elim m [ ]
In-map f (j ∷ keys) k (here e) = here (ap f e)
In-map f (j ∷ keys) k (there m) = there (In-map f keys k m)

module _ {A : Type 0} (a : A) where
  In-left : (xs ys : List A) → In a xs → In a (xs ++ ys)
  In-left [] ys m = elim m [ ]
  In-left (x ∷ xs) ys (here e) = here e
  In-left (x ∷ xs) ys (there m) = there (In-left xs ys m)

  In-right : (xs ys : List A) → In a ys → In a (xs ++ ys)
  In-right [] ys m = m
  In-right (x ∷ xs) ys m = there (In-right xs ys m)

module _ (codec : Codec) where
  group-In :
      (keys : List String) (k : String)
      → In k keys
      → In (codec.shard k, k) (group codec (codec.shard k) keys)
  unfolding group
  group-In [] k m = elim m [ ]
  group-In (j ∷ keys) k (here e) =
      let same : (codec.shard j == codec.shard k) ≡ true = rw (ap codec.shard e, eq_refl) refl in
      rw same (here (ap (λ n. (codec.shard k, n)) e))
  group-In (j ∷ keys) k (there m) = elim (Bool-cases (codec.shard j == codec.shard k)) [
    | inl same ↦ rw same (there (group-In keys k m))
    | inr other ↦ rw other (group-In keys k m)
  ]

  groups-In :
      (shards keys : List String) (k : String)
      → In k keys
      → In (codec.shard k) shards
      → In (codec.shard k, k) (groups codec shards keys)
  unfolding groups
  groups-In [] keys k m n = elim n [ ]
  groups-In (shard ∷ shards) keys k m (here e) =
      In-left (codec.shard k, k) (group codec shard keys) (groups codec shards keys)
        (subst (λ s. In (codec.shard k, k) (group codec s keys)) (sym e) (group-In keys k m))
  groups-In (shard ∷ shards) keys k m (there n) =
      In-right (codec.shard k, k) (group codec shard keys) (groups codec shards keys)
        (groups-In shards keys k m n)

  pub requests-In :
      (keys : List String) (k : String) → In k keys → In (codec.shard k, k) (requests codec keys)
  unfolding requests shards_of
  requests-In keys k m =
      let once = unique-all keys k m in
      groups-In (shards_of codec (unique [] keys)) (unique [] keys) k once (
        Some-sort_by text_ltb (unique [] (map codec.shard (unique [] keys))) (
          unique-all (map codec.shard (unique [] keys)) (codec.shard k)
            (In-map codec.shard (unique [] keys) k once)))

  abbrev pub OwnShard : String × String → Type 0
  OwnShard (shard, key) = codec.shard key ≡ shard

  group-OwnShard : (shard : String) (keys : List String) → All OwnShard (group codec shard keys)
  unfolding group
  group-OwnShard shard [] = tt
  group-OwnShard shard (k ∷ keys) = elim (Bool-cases (codec.shard k == shard)) [
    | inl same ↦ rw same (text_eq _ _ same, group-OwnShard shard keys)
    | inr other ↦ rw other (group-OwnShard shard keys)
  ]

  groups-OwnShard : (shards keys : List String) → All OwnShard (groups codec shards keys)
  unfolding groups
  groups-OwnShard [] keys = tt
  groups-OwnShard (shard ∷ shards) keys =
      All-append OwnShard (group codec shard keys) (groups codec shards keys)
        (group-OwnShard shard keys) (groups-OwnShard shards keys)

  pub requests-OwnShard : (keys : List String) → All OwnShard (requests codec keys)
  unfolding requests
  requests-OwnShard keys = groups-OwnShard (shards_of codec (unique [] keys)) (unique [] keys)
