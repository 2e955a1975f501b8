-- ===== src/NetworkId/Entries.antt =====
-- The entries of one shard that the scan accepts: in range, and no number claimed by two keys.
use kube_ovn_global_vpc.Prelude.{
  ℕ, ◌≤◌, String, true, false, not, ◌||◌, some, List, [], ◌∷◌, ◌≡◌, ◌⊎◌, inl, inr, refl, sym, ◌∙◌,
  subst, arith, Map, find, any, ltb, eqb, ◌==◌, text_eq, eq_iff, Bool-cases, ok, reject-eq-ok,
  ok-injective, some_eq, if◌then◌else◌,
}
use kube_ovn_global_vpc.NetworkId.Scan.{Codec, max_network_id, check_entries}

-- an accepted claim, where `used` and `highest` are those behind it
pub record IsClaim (codec : Codec) (shard : String) (used : List ℕ) (highest : ℕ) (key : String)
    (id : ℕ) : Type 0 where
  pub of_shard : codec.shard key ≡ shard
  pub positive : 1 ≤ id
  pub bounded : id ≤ max_network_id
  pub below : id ≤ highest
  pub counted : any (eqb id) used ≡ true

-- the entries of one shard
pub record Entries (codec : Codec) (shard : String) (used : List ℕ) (highest : ℕ) (ids : Map ℕ)
    (result : List ℕ × ℕ) : Type 0 where
  pub grown : (n : ℕ) → any (eqb n) used ≡ true → any (eqb n) result.0 ≡ true
  pub higher : highest ≤ result.1
  pub claims :
      (key : String) {id : ℕ}
      → find key ids ≡ some id
      → IsClaim codec shard result.0 result.1 key id
  pub fresh : (key : String) {id : ℕ} → find key ids ≡ some id → any (eqb id) used ≡ false
  pub unique : (k j : String) {id : ℕ} → find k ids ≡ some id → find j ids ≡ some id → k ≡ j

any_cons : (n i : ℕ) (used : List ℕ) → any (eqb n) (i ∷ used) ≡ (eqb n i || any (eqb n) used)
unfolding any
any_cons n i used = refl

find_cons :
    {V : Type 0} (k j : String) (v : V) (m : Map V)
    → find k ((j, v) ∷ m) ≡ (if j == k then some v else find k m)
unfolding find
find_cons k j v m = refl

raised :
    (highest id : ℕ)
    → (highest ≤ (if ltb highest id then id else highest))
      × (id ≤ (if ltb highest id then id else highest))
raised highest id = (ground arith, ground arith)

-- the head of the entries, or one of the rest
head_or_rest :
    (k j : String) (i id : ℕ) (m : Map ℕ)
    → find k ((j, i) ∷ m) ≡ some id
    → ((j ≡ k) × (i ≡ id)) ⊎ (find k m ≡ some id)
head_or_rest k j i id m h = elim (Bool-cases (j == k)) [
  | inl e ↦ inl (text_eq j k e, some_eq (rw (find_cons, e) at h))
  | inr e ↦ inr (rw (find_cons, e) at h)
]

good_entry :
    (codec : Codec) (shard key : String) (id : ℕ)
    → (key == "" || not (codec.shard key == shard) || eqb id 0 || ltb max_network_id id) ≡ false
    → (codec.shard key ≡ shard) × (1 ≤ id) × (id ≤ max_network_id)
good_entry codec shard key id h = ground (arith, eq_iff (codec.shard key) shard)

check_entries_cons :
    (codec : Codec) (shard : String) (used : List ℕ) (highest : ℕ) (key : String) (i : ℕ)
    (rest : Map ℕ) {result : List ℕ × ℕ}
    → check_entries codec shard used highest ((key, i) ∷ rest) ≡ ok result
    → ((codec.shard key ≡ shard) × (1 ≤ i) × (i ≤ max_network_id))
      × (any (eqb i) used ≡ false)
      × (check_entries codec shard (i ∷ used) (if ltb highest i then i else highest) rest
          ≡ ok result)
unfolding check_entries
check_entries_cons codec shard used highest key i rest h =
    let (good, h₁) =
      reject-eq-ok (key == "" || not (codec.shard key == shard) || eqb i 0 || ltb max_network_id i)
        _ _ h in
    let (new, h₂) = reject-eq-ok (any (eqb i) used) _ _ h₁ in
    (good_entry codec shard key i good, new, h₂)

pub check_entries-Entries :
    (codec : Codec) (shard : String) (used : List ℕ) (highest : ℕ) (ids : Map ℕ)
    {result : List ℕ × ℕ}
    → check_entries codec shard used highest ids ≡ ok result
    → Entries codec shard used highest ids result
check_entries-Entries codec shard used highest [] {result} h =
    let same : (used, highest) ≡ result = ok-injective (unfold check_entries in h) in
    subst (Entries codec shard used highest []) same (record {
      grown = λ n e. e;
      higher = omega arith;
      claims = λ key e. absurd (unfold find in cc e);
      fresh = λ key e. absurd (unfold find in cc e);
      unique = λ k j e f. absurd (unfold find in cc e);
    })
check_entries-Entries codec shard used highest ((key, i) ∷ rest) {result} h =
    let ((of_shard, positive, bounded), new, h₂) =
      check_entries_cons codec shard used highest key i rest h in
    let high : ℕ = if ltb highest i then i else highest in
    let (up, top) = raised highest i in
    let r = check_entries-Entries codec shard (i ∷ used) high rest h₂ in
    let head : IsClaim codec shard result.0 result.1 key i = record {
      of_shard = of_shard;
      positive = positive;
      bounded = bounded;
      below = omega (arith, r.higher, top);
      counted = r.grown i (rw any_cons (ground arith));
    } in
    let later : (k : String) (id : ℕ)
        → find k rest ≡ some id
        → (any (eqb id) used ≡ false) × (eqb id i ≡ false) =
      λ k id e. split_any id i used (r.fresh k e) in
    record {
      grown = λ n e. r.grown n (rw (any_cons, e) (ground arith));
      higher = omega (arith, r.higher, up);
      claims = λ k {id} e. elim (head_or_rest k key i id rest e) [
        | inl (same, number) ↦
            subst (λ n. IsClaim codec shard result.0 result.1 k n) number
              (subst (λ j. IsClaim codec shard result.0 result.1 j i) same head)
        | inr f ↦ r.claims k f
      ];
      fresh = λ k {id} e. elim (head_or_rest k key i id rest e) [
        | inl (same, number) ↦ subst (λ n. any (eqb n) used ≡ false) number new
        | inr f ↦ (later k id f).0
      ];
      unique = λ k j {id} e f. elim (head_or_rest k key i id rest e) [
        | inl (same, number) ↦ elim (head_or_rest j key i id rest f) [
          | inl (same', _) ↦ sym same ∙ same'
          | inr g ↦ absurd (differs id i (later j id g).1 number)
        ]
        | inr g ↦ elim (head_or_rest j key i id rest f) [
          | inl (_, number) ↦ absurd (differs id i (later k id g).1 number)
          | inr g' ↦ r.unique k j g g'
        ]
      ];
    }
  where
    split_any :
        (id i : ℕ) (used : List ℕ)
        → any (eqb id) (i ∷ used) ≡ false
        → (any (eqb id) used ≡ false) × (eqb id i ≡ false)
    split_any id i used e = let f = rw any_cons at e in (ground arith, ground arith)

    differs : (id i : ℕ) → eqb id i ≡ false → i ≡ id → ⊥
    differs id i e f = ground arith
