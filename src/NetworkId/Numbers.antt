-- ===== src/NetworkId/Numbers.antt =====
-- The numbers are complete, in range and different for different keys; a claim is kept, and a new
-- number is larger than every claimed one.
use kube_ovn_global_vpc.Prelude.{
  ℕ, String, Option, none, some, List, [], ◌∷◌, Map, find, find-put, put, ◌≡◌, ◌⊎◌, inl, inr, refl,
  sym, ◌∙◌, ap, subst, ◌==◌, text_eq, eq_refl, Bool-cases, All, In, here, there, some_eq,
}
use kube_ovn_global_vpc.NetworkId.Reserve.{claim_of, split}

abbrev pub Found : Map ℕ → String → Type 0
Found m k = (id : ℕ) × (find k m ≡ some id)

pub put-Found : (k j : String) (id : ℕ) (m : Map ℕ) → (k ≡ j) ⊎ Found m j → Found (put k id m) j
put-Found k j id m (inl e) = (id, rw (find-put, e, eq_refl) refl)
put-Found k j id m (inr (n, e)) = elim (Bool-cases (k == j)) [
  | inl same ↦ (id, rw (find-put, same) refl)
  | inr other ↦ (n, rw (find-put, other) e)
]

-- an entry after a `put` is the new one or an old one
pub put_entry :
    (k j : String) (id n : ℕ) (m : Map ℕ)
    → find j (put k id m) ≡ some n
    → ((k ≡ j) × (id ≡ n)) ⊎ (find j m ≡ some n)
put_entry k j id n m h = elim (Bool-cases (k == j)) [
  | inl e ↦ inl (text_eq k j e, some_eq (rw (find-put, e) at h))
  | inr e ↦ inr (rw (find-put, e) at h)
]

-- an `Option` that is computed, and what it is
pub claim_cases : (o : Option ℕ) → (o ≡ none) ⊎ ((id : ℕ) × (o ≡ some id))
claim_cases none = inl refl
claim_cases (some id) = inr (id, refl)

module _ (claims : Map (Map ℕ)) where
  split-none :
      (shard key : String) (rest : List (String × String))
      → claim_of claims shard key ≡ none
      → split claims ((shard, key) ∷ rest) ≡ ((split claims rest).0, key ∷ (split claims rest).1)
  unfolding split
  split-none shard key rest e = rw (split, e) refl

  split-some :
      (shard key : String) (rest : List (String × String)) (id : ℕ)
      → claim_of claims shard key ≡ some id
      → split claims ((shard, key) ∷ rest)
        ≡ (put key id (split claims rest).0, (split claims rest).1)
  unfolding split
  split-some shard key rest id e = rw (split, e) refl

  -- a key is among the claimed or among the missing
  pub split-all :
      (shard key : String) (reqs : List (String × String))
      → In (shard, key) reqs
      → Found (split claims reqs).0 key ⊎ In key (split claims reqs).1
  split-all shard key [] m = elim m [ ]
  split-all shard key ((sh, k) ∷ rest) m = elim (claim_cases (claim_of claims sh k)) [
    | inl e ↦ rw (split-none sh k rest e) (elim m [
      | here same ↦ inr (here (ap (λ r. r.1) same))
      | there n ↦ elim (split-all shard key rest n) [ inl f ↦ inl f | inr f ↦ inr (there f) ]
    ])
    | inr (id, e) ↦ rw (split-some sh k rest id e) (elim m [
      | here same ↦ inl (put-Found k key id (split claims rest).0 (inl (ap (λ r. r.1) same)))
      | there n ↦ elim (split-all shard key rest n) [
        | inl f ↦ inl (put-Found k key id (split claims rest).0 (inr f))
        | inr f ↦ inr f
      ]
    ])
  ]

  -- a missing key has no claim in its shard
  pub split-missing :
      (shard : String → String) (reqs : List (String × String))
      → All (λ r. shard r.1 ≡ r.0) reqs
      → All (λ k. claim_of claims (shard k) k ≡ none) (split claims reqs).1
  split-missing shard [] own = unfold split in tt
  split-missing shard ((sh, k) ∷ rest) own = elim (claim_cases (claim_of claims sh k)) [
    | inl e ↦
        rw (split-none sh k rest e)
          (subst (λ n. claim_of claims n k ≡ none) (sym own.0) e, split-missing shard rest own.1)
    | inr (id, e) ↦ rw (split-some sh k rest id e) (split-missing shard rest own.1)
  ]

  -- an entry of the split is a claim of its key
  pub split-claim :
      (shard : String → String) (reqs : List (String × String))
      → All (λ r. shard r.1 ≡ r.0) reqs
      → (key : String) (id : ℕ) → find key (split claims reqs).0 ≡ some id
      → claim_of claims (shard key) key ≡ some id
  split-claim shard [] own key id h = absurd (unfold split find in cc h)
  split-claim shard ((sh, k) ∷ rest) own key id h = elim (claim_cases (claim_of claims sh k)) [
    | inl e ↦ split-claim shard rest own.1 key id (rw (split-none sh k rest e) at h)
    | inr (n, e) ↦
        elim (put_entry k key n id (split claims rest).0 (rw (split-some sh k rest n e) at h)) [
          | inr old ↦ split-claim shard rest own.1 key id old
          | inl (same, number) ↦
              subst (λ j. claim_of claims (shard j) j ≡ some id) same
                (subst (λ s. claim_of claims s k ≡ some id) (sym own.0) (e ∙ ap some number))
        ]
  ]
