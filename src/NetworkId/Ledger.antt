-- ===== src/NetworkId/Ledger.antt =====
-- The claims that the scan accepts: every number in range and at most the highest, and no number
-- claimed by two keys.
use kube_ovn_global_vpc.Prelude.{
  ℕ, ◌≤◌, String, true, false, not, ◌||◌, some, List, [], ◌∷◌, ◌≡◌, ◌⊎◌, inl, inr, sym, subst,
  arith, Map, find, find-put, put, any, eqb, ◌==◌, text_eq, Bool-cases, ok, >>=-eq-ok, reject-eq-ok,
  ok-injective, some_eq, text_at,
}
use kube_ovn_global_vpc.Kube.Client.{ConfigMap}
use kube_ovn_global_vpc.NetworkId.Scan.{
  Codec, Scan, no_claims, allocator_label, claims_label, two_bytes, is_hex, check_entries, decoded,
  shard_name, unrelated, scan_shard, scan_item, scan,
}
use kube_ovn_global_vpc.NetworkId.Entries.{IsClaim, Entries, check_entries-Entries}

-- An accepted ledger: every claim is of its shard and in range, at most the highest, and no number
-- is claimed by two keys.
pub record IsLedger (codec : Codec) (st : Scan) : Type 0 where
  pub claim :
      (shard key : String) {ids : Map ℕ} {id : ℕ}
      → find shard st.claims ≡ some ids
      → find key ids ≡ some id
      → IsClaim codec shard st.used st.highest key id
  pub unique :
      (shard shard' k j : String) {ids ids' : Map ℕ} {id : ℕ}
      → find shard st.claims ≡ some ids
      → find k ids ≡ some id
      → find shard' st.claims ≡ some ids'
      → find j ids' ≡ some id
      → k ≡ j

put_cases :
    {V : Type 0} (k j : String) (v w : V) (m : Map V)
    → find j (put k v m) ≡ some w
    → (v ≡ w) × (k ≡ j) ⊎ (find j m ≡ some w)
put_cases k j v w m h = elim (Bool-cases (k == j)) [
  | inl e ↦ inl (some_eq (rw (find-put, e) at h), text_eq k j e)
  | inr e ↦ inr (rw (find-put, e) at h)
]

widen :
    (codec : Codec) (shard key : String) (used used' : List ℕ) (highest highest' id : ℕ)
    → ((n : ℕ) → any (eqb n) used ≡ true → any (eqb n) used' ≡ true)
    → highest ≤ highest'
    → IsClaim codec shard used highest key id
    → IsClaim codec shard used' highest' key id
widen codec shard key used used' highest highest' id grown higher c = record {
  of_shard = c.of_shard;
  positive = c.positive;
  bounded = c.bounded;
  below = omega (arith, c.below, higher);
  counted = grown id c.counted;
}

module _ (codec : Codec) (st : Scan) (ledger : IsLedger codec st) where
  -- a claim behind the new shard is one of it, or one from before
  put-IsLedger :
      (shard : String) (ids : Map ℕ) (objects : Map ConfigMap) (r : List ℕ × ℕ)
      → Entries codec shard st.used st.highest ids r
      → IsLedger codec (record {
        objects = objects;
        claims = put shard ids st.claims;
        used = r.0;
        highest = r.1;
      })
  put-IsLedger shard ids objects r new = record {
    claim = λ sh key {ids = m} {id} e f. elim (put_cases shard sh ids m st.claims e) [
      | inl (same, at) ↦
          subst (λ n. IsClaim codec n r.0 r.1 key id) at
            (new.claims key (subst (λ n. find key n ≡ some id) (sym same) f))
      | inr old ↦
          widen codec sh key st.used r.0 st.highest r.1 id new.grown new.higher
            (ledger.claim sh key old f)
    ];
    unique = λ sh sh' k j {ids = m} {ids' = m'} {id} e f e' f'.
        elim (put_cases shard sh ids m st.claims e) [
          | inl (same, _) ↦
              let here : find k ids ≡ some id = subst (λ n. find k n ≡ some id) (sym same) f in
              elim (put_cases shard sh' ids m' st.claims e') [
                | inl (same', _) ↦
                    new.unique k j here (subst (λ n. find j n ≡ some id) (sym same') f')
                | inr old' ↦
                    absurd (clash id (ledger.claim sh' j old' f').counted (new.fresh k here))
              ]
          | inr old ↦ elim (put_cases shard sh' ids m' st.claims e') [
            | inl (same', _) ↦ absurd (
                clash id (ledger.claim sh k old f).counted
                  (new.fresh j (subst (λ n. find j n ≡ some id) (sym same') f')))
            | inr old' ↦ ledger.unique sh sh' k j old f old' f'
          ]
        ];
  }
    where
      clash : (id : ℕ) → any (eqb id) st.used ≡ true → any (eqb id) st.used ≡ false → ⊥
      clash id e f = ground arith

  scan_shard-IsLedger :
      (cm : ConfigMap) {next : Scan} → scan_shard codec st cm ≡ ok next → IsLedger codec next
  unfolding scan_shard
  scan_shard-IsLedger cm {next} h =
      let (_, h₁) =
        reject-eq-ok
          (not (text_at allocator_label cm.labels == claims_label)
            || not (two_bytes (shard_name cm)))
          _ _ h in
      let (ids, _, h₂) =
        >>=-eq-ok (decoded (codec.decode (text_at "claims.json" cm.values))) _ h₁ in
      let (_, h₃) = reject-eq-ok (not (is_hex (shard_name cm))) _ _ h₂ in
      let (r, checked, h₄) =
        >>=-eq-ok (check_entries codec (shard_name cm) st.used st.highest ids) _ h₃ in
      subst (IsLedger codec) (ok-injective h₄) (
        put-IsLedger (shard_name cm) ids (put (shard_name cm) cm st.objects) r
          (check_entries-Entries codec (shard_name cm) st.used st.highest ids checked))

  scan_item-IsLedger :
      (cm : ConfigMap) {next : Scan} → scan_item codec st cm ≡ ok next → IsLedger codec next
  scan_item-IsLedger cm {next} h = elim (Bool-cases (unrelated cm)) [
    | inl skipped ↦
        let same : ok st ≡ ok next = unfold scan_item in rw skipped at h in
        subst (IsLedger codec) (ok-injective same) ledger
    | inr taken ↦
        let read : scan_shard codec st cm ≡ ok next = unfold scan_item in rw taken at h in
        scan_shard-IsLedger cm read
  ]

scan_from :
    (codec : Codec) (st : Scan) (items : List ConfigMap) {result : Scan}
    → IsLedger codec st
    → scan codec st items ≡ ok result
    → IsLedger codec result
unfolding scan
scan_from codec st [] ledger h = subst (IsLedger codec) (ok-injective h) ledger
scan_from codec st (cm ∷ rest) ledger h =
    let (next, first, more) = >>=-eq-ok (scan_item codec st cm) _ h in
    scan_from codec next rest (scan_item-IsLedger codec st ledger cm first) more

-- The claims of an accepted scan are a ledger: every number in range, and none claimed twice.
pub scan-IsLedger :
    (codec : Codec) (items : List ConfigMap) {result : Scan}
    → scan codec no_claims items ≡ ok result
    → IsLedger codec result
scan-IsLedger codec items h =
    scan_from codec no_claims items
      (unfold find in
        record {
          claim = λ shard key e f. absurd (cc e);
          unique = λ shard shard' k j e f e' f'. absurd (cc e);
        })
      h
