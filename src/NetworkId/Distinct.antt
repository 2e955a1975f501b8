-- ===== src/NetworkId/Distinct.antt =====
-- What `networkIDs` hands out.
use kube_ovn_global_vpc.Prelude.{
  ℕ, zero, suc, ◌+◌, ◌%◌, ◌^◌, ◌≤◌, ◌<◌, String, Option, none, some, List, [], ◌∷◌, Map, find, put,
  ◌≡◌, ◌⊎◌, inl, inr, refl, sym, ◌∙◌, subst, arith, All, All-In, All-tabulate, In, here, there,
  Some-sort_by, length, length-sort_by, All-sort_by, text_ltb, sort_by,
}
use kube_ovn_global_vpc.NetworkId.Scan.{Codec, Scan, max_network_id}
use kube_ovn_global_vpc.NetworkId.Ledger.{IsLedger}
use kube_ovn_global_vpc.NetworkId.Reserve.{
  requests, claim_in, claim_of, split, assign, missing, numbers,
}
use kube_ovn_global_vpc.NetworkId.Requests.{requests-In, requests-OwnShard}
use kube_ovn_global_vpc.NetworkId.Numbers.{
  Found, put-Found, put_entry, split-all, split-missing, split-claim,
}

-- the key at a place
abbrev At : ℕ → List String → String → Type 0
At n [] k = ⊥
At zero (j ∷ ks) k = j ≡ k
At (suc n) (j ∷ ks) k = At n ks k

At-In : (n : ℕ) (ks : List String) (k : String) → At n ks k → In k ks
At-In n [] k m = absurd m
At-In zero (j ∷ ks) k e = here e
At-In (suc n) (j ∷ ks) k m = there (At-In n ks k m)

At-unique : (n : ℕ) (ks : List String) (k j : String) → At n ks k → At n ks j → k ≡ j
At-unique n [] k j m m' = absurd m
At-unique zero (i ∷ ks) k j e f = sym e ∙ f
At-unique (suc n) (i ∷ ks) k j m m' = At-unique n ks k j m m'

At-length : (n : ℕ) (ks : List String) (k : String) → At n ks k → n < length ks
At-length n [] k m = absurd m
At-length zero (j ∷ ks) k e = omega arith
At-length (suc n) (j ∷ ks) k m = omega (arith, At-length n ks k m)

-- below the last number the 32-bit sum does not wrap
no_wrap : (next i : ℕ) → next + i < 2 ^ 32 → (next % 2 ^ 32 + i % 2 ^ 32) % 2 ^ 32 ≡ next + i
no_wrap next i h = omega arith

assign-Found :
    (next i : ℕ) (ks : List String) (m : Map ℕ) (k : String)
    → Found m k ⊎ In k ks
    → Found (assign next i ks m) k
unfolding assign
assign-Found next i [] m k (inl f) = f
assign-Found next i [] m k (inr n) = elim n [ ]
assign-Found next i (j ∷ ks) m k (inl f) =
    assign-Found next (i + 1) ks (put j ((next % 2 ^ 32 + i % 2 ^ 32) % 2 ^ 32) m) k
      (inl (put-Found j k _ m (inr f)))
assign-Found next i (j ∷ ks) m k (inr (here e)) =
    assign-Found next (i + 1) ks (put j ((next % 2 ^ 32 + i % 2 ^ 32) % 2 ^ 32) m) k
      (inl (put-Found j k _ m (inl e)))
assign-Found next i (j ∷ ks) m k (inr (there n)) =
    assign-Found next (i + 1) ks (put j ((next % 2 ^ 32 + i % 2 ^ 32) % 2 ^ 32) m) k (inr n)

-- an entry behind the assignment is an old one, or that of a key by its place
assign-entry :
    (next i : ℕ) (ks : List String) (m : Map ℕ) (k : String) (id : ℕ)
    → next + i + length ks ≤ 2 ^ 32
    → find k (assign next i ks m) ≡ some id
    → (find k m ≡ some id) ⊎ ((n : ℕ) × At n ks k × (id ≡ next + i + n))
unfolding assign
assign-entry next i [] m k id h e = inl e
assign-entry next i (j ∷ ks) m k id h e =
    let number : ℕ = (next % 2 ^ 32 + i % 2 ^ 32) % 2 ^ 32 in
    elim (assign-entry next (i + 1) ks (put j number m) k id (omega arith) e) [
      | inr (n, at, same) ↦ inr (suc n, at, omega arith)
      | inl old ↦ elim (put_entry j k number id m old) [
        | inr older ↦ inl older
        | inl (same, value) ↦ inr (zero, same, omega (arith, no_wrap next i (omega arith)))
      ]
    ]

-- What is handed out for the requested keys: a number for each, in range and different for
-- different keys; a claimed number for a claimed key, and one of the sequence for another.
pub record IsAssignment (codec : Codec) (st : Scan) (next : ℕ) (keys : List String) (result : Map ℕ)
    : Type 0 where
  pub complete : All (λ k. (id : ℕ) × (find k result ≡ some id)) keys
  pub bounded : (k : String) (id : ℕ) → find k result ≡ some id → (1 ≤ id) × (id ≤ max_network_id)
  pub distinct : (k j : String) (id : ℕ) → find k result ≡ some id → find j result ≡ some id → k ≡ j
  pub source :
      (k : String) (id : ℕ)
      → find k result ≡ some id
      → (claim_of st.claims (codec.shard k) k ≡ some id)
        ⊎ ((claim_of st.claims (codec.shard k) k ≡ none) × (st.highest < id) × (next ≤ id))

claim_found :
    (claims : Map (Map ℕ)) (shard key : String) (id : ℕ)
    → claim_of claims shard key ≡ some id
    → (ids : Map ℕ) × (find shard claims ≡ some ids) × (find key ids ≡ some id)
claim_found claims shard key id h = by_shard (find shard claims) refl (unfold claim_of in h)
  where
    by_shard :
        (o : Option (Map ℕ))
        → find shard claims ≡ o
        → claim_in key o ≡ some id
        → (ids : Map ℕ) × (find shard claims ≡ some ids) × (find key ids ≡ some id)
    by_shard none e k = absurd (cc k)
    by_shard (some ids) e k = (ids, e, k)

module _ (codec : Codec) (st : Scan) (ledger : IsLedger codec st) where
  claim_bounds :
      (k : String) (id : ℕ)
      → claim_of st.claims (codec.shard k) k ≡ some id
      → (1 ≤ id) × (id ≤ max_network_id) × (id ≤ st.highest)
  claim_bounds k id h =
      let (ids, e, f) = claim_found st.claims (codec.shard k) k id h in
      let c = ledger.claim (codec.shard k) k e f in (c.positive, c.bounded, c.below)

  claim_unique :
      (k j : String) (id : ℕ)
      → claim_of st.claims (codec.shard k) k ≡ some id
      → claim_of st.claims (codec.shard j) j ≡ some id
      → k ≡ j
  claim_unique k j id h h' =
      let (ids, e, f) = claim_found st.claims (codec.shard k) k id h in
      let (ids', e', f') = claim_found st.claims (codec.shard j) j id h' in
      ledger.unique (codec.shard k) (codec.shard j) k j e f e' f'

  -- Above a ledger, with a next number behind all claims and enough numbers left, the numbers of the
  -- requested keys are complete, in range and different for different keys; claims are kept, and new
  -- numbers are larger than all claims.
  pub numbers-IsAssignment :
      (next : ℕ) (keys : List String)
      → st.highest < next
      → next + length (missing codec st keys) ≤ max_network_id + 1
      → IsAssignment codec st next keys (numbers codec st next keys)
  numbers-IsAssignment next keys above room =
      let own = requests-OwnShard codec keys in
      let new : List String = sort_by text_ltb (missing codec st keys) in
      let old : Map ℕ = (split st.claims (requests codec keys)).0 in
      let fits : next + 0 + length new ≤ max_network_id + 1 =
        omega (arith, length-sort_by text_ltb (missing codec st keys), room) in
      let unclaimed : All (λ k. claim_of st.claims (codec.shard k) k ≡ none) new =
        All-sort_by text_ltb (λ k. claim_of st.claims (codec.shard k) k ≡ none)
          (missing codec st keys) (split-missing st.claims codec.shard (requests codec keys) own) in
      let from : (k : String) (id : ℕ)
          → find k (numbers codec st next keys) ≡ some id
          → (claim_of st.claims (codec.shard k) k ≡ some id)
            ⊎ ((n : ℕ) × At n new k × (id ≡ next + 0 + n)) =
        λ k id e. elim (assign-entry next 0 new old k id (omega arith) (unfold numbers in e)) [
          | inl f ↦ inl (split-claim st.claims codec.shard (requests codec keys) own k id f)
          | inr f ↦ inr f
        ] in
      record {
        complete = All-tabulate (Found (numbers codec st next keys)) keys (λ k m.
            unfold numbers in
            assign-Found next 0 new old k
              (elim (split-all st.claims (codec.shard k) k (requests codec keys)
                (requests-In codec keys k m)) [
                  | inl f ↦ inl f
                  | inr f ↦ inr (Some-sort_by text_ltb (missing codec st keys) f)
                ]));
        bounded = λ k id e. elim (from k id e) [
          | inl c ↦ let b = claim_bounds k id c in (b.0, b.1)
          | inr (n, at, same) ↦ (omega arith, omega (arith, At-length n new k at))
        ];
        distinct = λ k j id e f. elim (from k id e) [
          | inl c ↦ elim (from j id f) [
            | inl d ↦ claim_unique k j id c d
            | inr (n, at, same) ↦ absurd (too_low id n (claim_bounds k id c).2 same)
          ]
          | inr (n, at, same) ↦ elim (from j id f) [
            | inl d ↦ absurd (too_low id n (claim_bounds j id d).2 same)
            | inr (n', at', same') ↦
                At-unique n new k j at (subst (λ i. At i new j) (same_place n n' id same same') at')
          ]
        ];
        source = λ k id e. elim (from k id e) [
          | inl c ↦ inl c
          | inr (n, at, same) ↦ inr (
            All-In (λ i. claim_of st.claims (codec.shard i) i ≡ none) k new unclaimed
                (At-In n new k at),
            omega arith,
            omega arith,
          )
        ];
      }
    where
      too_low : (id n : ℕ) → id ≤ st.highest → id ≡ next + 0 + n → ⊥
      too_low id n h e = omega arith

      same_place : (n n' id : ℕ) → id ≡ next + 0 + n → id ≡ next + 0 + n' → n' ≡ n
      same_place n n' id e f = omega arith
