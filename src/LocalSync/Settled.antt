-- ===== src/LocalSync/Settled.antt =====
-- A snapshot that is written once is not written again.
use native.Mathlib.Omega.{arith}
use kube_ovn_global_vpc.Prelude.{
  ◌^◌, ◌<◌, true, false, not, ◌||◌, some, text_at, text_at-put, text_at-put_other, ltb, eqb, ◌==◌,
  ◌≡◌, refl, sym, ◌∙◌, ap, Result, ok, err, not_found, reject-eq-ok, ok-injective, not-false,
  text_eq, eq_iff, subst, find, invalid, already_exists, conflict, unavailable,
}
use kube_ovn_global_vpc.Netip.Parse.{number_text}
use kube_ovn_global_vpc.LocalConfig.{Config}
use kube_ovn_global_vpc.PlatformPlan.Names.{Hashes, binding_name, revision}
use kube_ovn_global_vpc.LocalLedger.Receipts.{source_uid_annotation, owner_of}
use kube_ovn_global_vpc.Binding.{NetworkBinding}
use kube_ovn_global_vpc.Binding.Equality.{identity_equal, spec_equal}
use kube_ovn_global_vpc.LocalSync.{
  generation_annotation, pos, parse_int, Decision, creates, updates, keeps, new_local, taken_over,
  by_generation, with_local, on_local, decide,
}
use kube_ovn_global_vpc.LocalSync.Laws.{
  generation_of, parse_int-number_text, Decided, is_deleted, is_kept, is_updated,
  with_local-Decided,
}
use kube_ovn_global_vpc.LocalSync.Steps.{SameSnapshot}

module _ (c : Config) (remote b : NetworkBinding) where
  current :
      owner_of b ≡ remote.uid
      → b.spec ≡ remote.spec
      → generation_of b ≡ some (pos remote.generation)
      → remote.spec.location_ref ≡ c.location_ref
      → with_local c remote b ≡ ok (keeps b)
  unfolding with_local by_generation
  current owner spec found here =
      let own : (owner_of b == remote.uid) ≡ true = (eq_iff _ _).1 owner in
      let vpc : identity_equal.test b.spec.vpc_ref remote.spec.vpc_ref ≡ true =
        subst (λ x. identity_equal.test x.vpc_ref remote.spec.vpc_ref ≡ true) (sym spec)
          (identity_equal.same remote.spec.vpc_ref) in
      let place : (b.spec.location_ref == c.location_ref) ≡ true =
        (eq_iff _ _).1 (ap (λ x. x.location_ref) spec ∙ here) in
      let equal : spec_equal.test b.spec remote.spec ≡ true =
        subst (λ x. spec_equal.test x remote.spec ≡ true) (sym spec)
          (spec_equal.same remote.spec) in
      let not_before : ltb remote.generation remote.generation ≡ false = ground arith in
      let not_after : eqb remote.generation remote.generation ≡ true = ground arith in
      rw (own, vpc, place, found, by_generation, equal, not_before, not_after) refl

  module _ (hashes : Hashes) where
    accepted :
        (r : Result NetworkBinding) {d : Decision}
        → decide hashes c remote r ≡ ok d
        → (remote.spec.location_ref ≡ c.location_ref)
          × (on_local c remote r ≡ ok d)
          × (decide hashes c remote (ok b) ≡ with_local c remote b)
    unfolding decide on_local
    accepted r h =
        let (place, h₁) = reject-eq-ok (not (remote.spec.location_ref == c.location_ref)) _ _ h in
        let (identity, h₂) =
          reject-eq-ok
            (not (remote.name == binding_name hashes remote.spec.vpc_ref.uid c.location_ref)
              || not (remote.spec.revision == revision hashes remote.spec))
            _ _ h₁ in
        (text_eq _ _ (not-false _ place), h₂, rw (place, identity) refl)

-- the object that a decision writes
pub data Writes : Decision → NetworkBinding → Type 0 where
  by_create : {b : NetworkBinding} → Writes (creates b) b
  by_update : {b : NetworkBinding} → Writes (updates b) b

-- an object that is the snapshot of a generation at the authority
record IsSnapshot (remote b : NetworkBinding) : Type 0 where
  pub source : owner_of b ≡ remote.uid
  pub spec : b.spec ≡ remote.spec
  pub generation : generation_of b ≡ some (pos remote.generation)

module _ (hashes : Hashes) (c : Config) (remote : NetworkBinding)
    (small : remote.generation < 2 ^ 63) where
  new_local-IsSnapshot : IsSnapshot remote (new_local c remote)
  unfolding new_local text_at find
  new_local-IsSnapshot = record {
    source = refl;
    spec = refl;
    generation = parse_int-number_text remote.generation small;
  }

  taken_over-IsSnapshot :
      (l : NetworkBinding) → owner_of l ≡ remote.uid → IsSnapshot remote (taken_over remote l)
  unfolding taken_over
  taken_over-IsSnapshot l owner = record {
    source =
        text_at-put_other generation_annotation source_uid_annotation
          (number_text remote.generation) l.annotations refl
        ∙ owner;
    spec = refl;
    generation =
        ap parse_int
          (text_at-put generation_annotation (number_text remote.generation) l.annotations)
        ∙ parse_int-number_text remote.generation small;
  }

  update-IsSnapshot :
      (l : NetworkBinding) {d : Decision}
      → Decided remote l d
      → (b : NetworkBinding) → Writes d b
      → IsSnapshot remote b
  update-IsSnapshot l (is_updated owner vpc sticky z found newer) _ by_update =
      taken_over-IsSnapshot l owner
  update-IsSnapshot l (is_deleted clean other) b w = elim w [ ]
  update-IsSnapshot l (is_kept owner spec) b w = elim w [ ]

  created_only : {x b : NetworkBinding} → Writes (creates x) b → x ≡ b
  created_only by_create = refl

  on_local-IsSnapshot :
      (r : Result NetworkBinding) {d : Decision}
      → on_local c remote r ≡ ok d
      → (b : NetworkBinding) → Writes d b
      → IsSnapshot remote b
  unfolding on_local
  on_local-IsSnapshot (ok l) h b w =
      update-IsSnapshot l (with_local-Decided hashes c remote l h) b w
  on_local-IsSnapshot (err not_found) {d} h b w =
      let e : creates (new_local c remote) ≡ d = ok-injective h in
      subst (IsSnapshot remote) (created_only (subst (λ x. Writes x b) (sym e) w))
        new_local-IsSnapshot
  on_local-IsSnapshot (err (invalid s)) h b w = absurd (cc h)
  on_local-IsSnapshot (err already_exists) h b w = absurd (cc h)
  on_local-IsSnapshot (err conflict) h b w = absurd (cc h)
  on_local-IsSnapshot (err unavailable) h b w = absurd (cc h)

  -- A snapshot of a generation below 2 ^ 63 that the synchronization has created or updated, and whose
  -- specification and annotated source and generation the local controller has left alone, is kept
  -- when the same snapshot of the authority is seen again, so no second write follows.
  pub decide-settled :
      (r : Result NetworkBinding) {d : Decision} (b b' : NetworkBinding)
      → decide hashes c remote r ≡ ok d
      → Writes d b
      → SameSnapshot b b'
      → decide hashes c remote (ok b') ≡ ok (keeps b')
  decide-settled r b b' h w s =
      let (place, rest, again) = accepted c remote b' hashes r h in
      let i : IsSnapshot remote b = on_local-IsSnapshot r rest b w in
      again
      ∙ current c remote b' (s.source ∙ i.source) (s.spec ∙ i.spec)
          (ap parse_int s.generation ∙ i.generation) place
