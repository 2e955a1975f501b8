-- ===== src/LocalSync/Laws.antt =====
-- The decisions of the synchronization.
use Prim.Native.Char.{Char, code}
use native.Mathlib.Omega.{arith}
use kube_ovn_global_vpc.Prelude.{
  ℕ, ◌-◌, ◌^◌, ◌<◌, String, true, false, not, ◌&&◌, ◌||◌, Option, none, some, text_at, leb, eqb,
  ◌==◌, text_eq, text_ne, not-false, or-false, ◌≡◌, ◌≢◌, inl, inr, refl, ◌∙◌, ap, subst, Bool-cases,
  ok, reject-eq-ok, ok-injective,
}
use kube_ovn_global_vpc.Netip.Number.{number_text-cons}
use kube_ovn_global_vpc.Netip.Parse.{digits_value, number_text, parse_uint}
use kube_ovn_global_vpc.LocalConfig.{Config}
use kube_ovn_global_vpc.PlatformPlan.Names.{Hashes, binding_name, revision}
use kube_ovn_global_vpc.LocalLedger.Receipts.{owner_of}
use kube_ovn_global_vpc.Binding.{NetworkBinding}
use kube_ovn_global_vpc.Binding.Equality.{identity_equal, spec_equal}
use kube_ovn_global_vpc.LocalSync.{
  generation_annotation, ℤ, pos, negsuc, parse_int, before, equals, after, Decision, deletes,
  updates, keeps, cleaned_up, taken_over, by_generation, with_local, on_local, decide,
}

-- a generation that is written is read back
pub parse_int-number_text : (n : ℕ) → n < 2 ^ 63 → parse_int (number_text n) ≡ some (pos n)
parse_int-number_text n h =
    let (c, s, text, digit, value) = number_text-cons n (omega arith) in
    ap parse_int text ∙ signless c s digit value
  where
    signless :
        (c : Char) (s : String)
        → (leb 48 (code c) && leb (code c) 57) ≡ true
        → digits_value (String.◌∷◌ c s) 0 ≡ some n
        → parse_int (String.◌∷◌ c s) ≡ some (pos n)
    signless c s digit value =
        let minus : eqb (code c) 45 ≡ false = ground (arith, digit) in
        let plus : eqb (code c) 43 ≡ false = ground (arith, digit) in
        let low : leb n (2 ^ 63 - 1) ≡ true = ground (arith, h) in
        let read : parse_uint (2 ^ 63 - 1) (String.◌∷◌ c s) ≡ some n =
          unfold parse_uint in rw (parse_uint, value, low) refl in
        unfold parse_int in rw (minus, plus, read) refl

-- the generation that a snapshot was taken over with
abbrev pub generation_of : NetworkBinding → Option ℤ
generation_of b = parse_int (text_at generation_annotation b.annotations)

-- What a write to the local API relies on, by the decision for a stored snapshot.
pub data Decided (remote local : NetworkBinding) : Decision → Type 0 where
  is_deleted :
      cleaned_up local ≡ true → owner_of local ≢ remote.uid → Decided remote local (deletes local)
  is_kept :
      owner_of local ≡ remote.uid → local.spec ≡ remote.spec → Decided remote local (keeps local)
  is_updated :
      owner_of local ≡ remote.uid
      → local.spec.vpc_ref ≡ remote.spec.vpc_ref
      → (local.spec.deleting ≡ true → remote.spec.deleting ≡ true)
      → (z : ℤ) → generation_of local ≡ some z
      → after remote.generation z ≡ true
      → Decided remote local (updates (taken_over remote local))

module _ (hashes : Hashes) (c : Config) (remote local : NetworkBinding) where
  by_generation-Decided :
      (o : Option ℤ) {d : Decision}
      → generation_of local ≡ o
      → owner_of local ≡ remote.uid
      → local.spec.vpc_ref ≡ remote.spec.vpc_ref
      → by_generation remote local o ≡ ok d
      → Decided remote local d
  unfolding by_generation
  by_generation-Decided none found owner vpc h = absurd (cc h)
  by_generation-Decided (some z) found owner vpc h =
      let (current, h₁) = reject-eq-ok (before remote.generation z) _ _ h in
      let (same, h₂) =
        reject-eq-ok (equals remote.generation z && not (spec_equal.test local.spec remote.spec)) _
          _ h₁ in
      let (alive, h₃) =
        reject-eq-ok (after remote.generation z && local.spec.deleting && not remote.spec.deleting)
          _ _ h₂ in
      elim (Bool-cases (after remote.generation z)) [
        | inl newer ↦
            let sticky : local.spec.deleting ≡ true → remote.spec.deleting ≡ true =
              λ e. ground (arith, alive, newer) in
            subst (Decided remote local) (ok-injective (rw newer at h₃))
              (is_updated owner vpc sticky z found newer)
        | inr older ↦
            let spec : local.spec ≡ remote.spec =
              spec_equal.sound local.spec remote.spec (tested z current same older) in
            subst (Decided remote local) (ok-injective (rw older at h₃)) (is_kept owner spec)
      ]
    where
      tested :
          (z : ℤ)
          → before remote.generation z ≡ false
          → (equals remote.generation z && not (spec_equal.test local.spec remote.spec)) ≡ false
          → after remote.generation z ≡ false
          → spec_equal.test local.spec remote.spec ≡ true
      tested (pos n) b e a = ground (arith, b, e, a)
      tested (negsuc n) b e a = absurd (cc a)

  pub with_local-Decided :
      {d : Decision} → with_local c remote local ≡ ok d → Decided remote local d
  unfolding with_local
  with_local-Decided {d} h = elim (Bool-cases (owner_of local == remote.uid)) [
    | inr other ↦ elim (Bool-cases (cleaned_up local)) [
      | inl clean ↦
          subst (Decided remote local) (ok-injective (rw (other, clean) at h))
            (is_deleted clean (text_ne _ _ other))
      | inr busy ↦ absurd (cc (rw (other, busy) at h))
    ]
    | inl own ↦
        let (same, rest) =
          reject-eq-ok
            (not (identity_equal.test local.spec.vpc_ref remote.spec.vpc_ref)
              || not (local.spec.location_ref == c.location_ref))
            _ (by_generation remote local (generation_of local)) (rw own at h) in
        let (vpc, _) = or-false _ _ same in
        by_generation-Decided (generation_of local) refl (text_eq _ _ own)
          (identity_equal.sound local.spec.vpc_ref remote.spec.vpc_ref (not-false _ vpc)) rest
  ]

  -- A stored snapshot is deleted only when it is cleaned up and of another source. It is overwritten
  -- only by its own source, for the same VPC and with a later generation, and never with a live
  -- specification when it is being deleted. It is kept only when the source has the same specification.
  pub decide-Decided :
      {d : Decision} → decide hashes c remote (ok local) ≡ ok d → Decided remote local d
  unfolding decide on_local
  decide-Decided h =
      let (_, h₁) = reject-eq-ok (not (remote.spec.location_ref == c.location_ref)) _ _ h in
      let (_, h₂) =
        reject-eq-ok
          (not (remote.name == binding_name hashes remote.spec.vpc_ref.uid c.location_ref)
            || not (remote.spec.revision == revision hashes remote.spec))
          _ _ h₁ in
      with_local-Decided h₂
