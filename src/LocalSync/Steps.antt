-- ===== src/LocalSync/Steps.antt =====
-- The life of one local snapshot: the synchronization and the local controller take turns, in any
-- order, with any snapshots of the authority.
use native.Mathlib.Omega.{arith}
use kube_ovn_global_vpc.Prelude.{
  ℕ, ◌^◌, ◌≤◌, ◌<◌, true, Option, none, some, text_at, text_at-put, text_at-put_other, ltb→lt, ◌≡◌,
  refl, sym, ◌∙◌, ap, subst, ok, err, not_found, some_eq,
}
use kube_ovn_global_vpc.Netip.Parse.{number_text}
use kube_ovn_global_vpc.LocalConfig.{Config}
use kube_ovn_global_vpc.PlatformPlan.Names.{Hashes}
use kube_ovn_global_vpc.LocalLedger.Receipts.{source_uid_annotation, owner_of}
use kube_ovn_global_vpc.Binding.{NetworkBinding}
use kube_ovn_global_vpc.LocalSync.{
  generation_annotation, ℤ, pos, negsuc, parse_int, after, Decision, creates, deletes, updates,
  cleaned_up, taken_over, decide,
}
use kube_ovn_global_vpc.LocalSync.Laws.{
  generation_of, parse_int-number_text, Decided, is_deleted, is_kept, is_updated, decide-Decided,
}

infixl 20 ◌≤ℤ◌
abbrev pub ◌≤ℤ◌ : ℤ → ℤ → Type 0
pos m ≤ℤ pos n = m ≤ n
negsuc m ≤ℤ pos n = Unit
pos m ≤ℤ negsuc n = ⊥
negsuc m ≤ℤ negsuc n = n ≤ m

le_refl : (z : ℤ) → z ≤ℤ z
le_refl (pos n) = omega arith
le_refl (negsuc n) = omega arith

le_trans : (x y z : ℤ) → x ≤ℤ y → y ≤ℤ z → x ≤ℤ z
le_trans (pos x) (pos y) (pos z) h k = omega (arith, h, k)
le_trans (pos x) (pos y) (negsuc z) h k = k
le_trans (pos x) (negsuc y) z h k = absurd h
le_trans (negsuc x) (pos y) (pos z) h k = tt
le_trans (negsuc x) (pos y) (negsuc z) h k = absurd k
le_trans (negsuc x) (negsuc y) (pos z) h k = tt
le_trans (negsuc x) (negsuc y) (negsuc z) h k = omega (arith, h, k)

after-le : (g : ℕ) (z : ℤ) → after g z ≡ true → z ≤ℤ pos g
after-le g (pos n) h = omega (arith, ltb→lt n g h)
after-le g (negsuc n) h = tt

-- the stored object has the written specification, source and generation
pub record SameSnapshot (a b : NetworkBinding) : Type 0 where
  pub spec : b.spec ≡ a.spec
  pub source : owner_of b ≡ owner_of a
  pub generation :
      text_at generation_annotation b.annotations ≡ text_at generation_annotation a.annotations

-- A step of the object that is stored locally under one name.
pub data Step (hashes : Hashes) (c : Config)
    : Option NetworkBinding → Option NetworkBinding → Type 0 where
  created :
      {b b' : NetworkBinding} (remote : NetworkBinding)
      → decide hashes c remote (err not_found) ≡ ok (creates b)
      → SameSnapshot b b'
      → Step hashes c none (some b')
  updated :
      {l b b' : NetworkBinding} (remote : NetworkBinding)
      → remote.generation < 2 ^ 63
      → decide hashes c remote (ok l) ≡ ok (updates b)
      → SameSnapshot b b'
      → Step hashes c (some l) (some b')
  deleted :
      {l b : NetworkBinding} (remote : NetworkBinding)
      → decide hashes c remote (ok l) ≡ ok (deletes b)
      → Step hashes c (some l) none
  locally : {l l' : NetworkBinding} → SameSnapshot l l' → Step hashes c (some l) (some l')

pub data Steps (hashes : Hashes) (c : Config)
    : Option NetworkBinding → Option NetworkBinding → Type 0 where
  stay : {s : Option NetworkBinding} → Steps hashes c s s
  step :
      {s t u : Option NetworkBinding} → Step hashes c s t → Steps hashes c t u → Steps hashes c s u

-- A later state of the same incarnation: of the same source, not older, and still being deleted if
-- it was.
pub record Follows (l l' : NetworkBinding) : Type 0 where
  pub source : owner_of l' ≡ owner_of l
  pub vpc : l'.spec.vpc_ref ≡ l.spec.vpc_ref
  pub sticky : l.spec.deleting ≡ true → l'.spec.deleting ≡ true
  pub not_older :
      (z : ℤ) → generation_of l ≡ some z → (y : ℤ) × (generation_of l' ≡ some y) × (z ≤ℤ y)

Follows-refl : (l : NetworkBinding) → Follows l l
Follows-refl l = record {
  source = refl;
  vpc = refl;
  sticky = λ h. h;
  not_older = λ z h. (z, h, le_refl z);
}

Follows-trans : (a b c : NetworkBinding) → Follows a b → Follows b c → Follows a c
Follows-trans a b c f g = record {
  source = g.source ∙ f.source;
  vpc = g.vpc ∙ f.vpc;
  sticky = λ h. g.sticky (f.sticky h);
  not_older = λ z h.
      let (y, hy, le) = f.not_older z h in
      let (x, hx, le') = g.not_older y hy in (x, hx, le_trans z y x le le');
}

SameSnapshot-Follows : (a b : NetworkBinding) → SameSnapshot a b → Follows a b
SameSnapshot-Follows a b s = record {
  source = s.source;
  vpc = ap (λ x. x.vpc_ref) s.spec;
  sticky = λ h. ap (λ x. x.deleting) s.spec ∙ h;
  not_older = λ z h. (z, ap parse_int s.generation ∙ h, le_refl z);
}

-- taking a later specification over
taken_over-Follows :
    (remote l : NetworkBinding) (z : ℤ)
    → remote.generation < 2 ^ 63
    → l.spec.vpc_ref ≡ remote.spec.vpc_ref
    → (l.spec.deleting ≡ true → remote.spec.deleting ≡ true)
    → generation_of l ≡ some z
    → after remote.generation z ≡ true
    → Follows l (taken_over remote l)
unfolding taken_over
taken_over-Follows remote l z small vpc sticky found newer = record {
  source =
      text_at-put_other generation_annotation source_uid_annotation (number_text remote.generation)
        l.annotations refl;
  vpc = sym vpc;
  sticky = sticky;
  not_older = λ y h.
      let same : z ≡ y = some_eq (sym found ∙ h) in
      (
        pos remote.generation,
        ap parse_int
              (text_at-put generation_annotation (number_text remote.generation) l.annotations)
            ∙ parse_int-number_text remote.generation small,
        subst (λ x. x ≤ℤ pos remote.generation) same (after-le remote.generation z newer),
      );
}

-- what becomes of a stored snapshot: it was cleaned up at some time, or it is still the same one
pub data Later (l : NetworkBinding) : Option NetworkBinding → Type 0 where
  cleaned :
      {s : Option NetworkBinding} (k : NetworkBinding)
      → Follows l k
      → cleaned_up k ≡ true
      → Later l s
  followed : {l' : NetworkBinding} → Follows l l' → Later l (some l')

module _ (hashes : Hashes) (c : Config) where
  Decided-update :
      (remote l : NetworkBinding) (d : Decision) (b' : NetworkBinding)
      → remote.generation < 2 ^ 63
      → Decided remote l d
      → (b : NetworkBinding) → d ≡ updates b
      → SameSnapshot b b'
      → Follows l b'
  Decided-update remote l _ b' small (is_updated owner vpc sticky z found newer) b e s =
      let same : taken_over remote l ≡ b = updates_eq e in
      Follows-trans l b b'
        (subst (Follows l) same (taken_over-Follows remote l z small vpc sticky found newer))
        (SameSnapshot-Follows b b' s)
    where
      updates_eq : {x y : NetworkBinding} → updates x ≡ updates y → x ≡ y
      updates_eq h = cc h
  Decided-update remote l _ b' small (is_kept owner spec) b e s = absurd (cc e)
  Decided-update remote l _ b' small (is_deleted clean other) b e s = absurd (cc e)

  Decided-delete :
      (remote l : NetworkBinding) (d : Decision)
      → Decided remote l d
      → (b : NetworkBinding) → d ≡ deletes b
      → cleaned_up l ≡ true
  Decided-delete remote l _ (is_deleted clean other) b e = clean
  Decided-delete remote l _ (is_kept owner spec) b e = absurd (cc e)
  Decided-delete remote l _ (is_updated owner vpc sticky z found newer) b e = absurd (cc e)

  Later-from :
      (l k : NetworkBinding) {s t : Option NetworkBinding}
      → Follows l k
      → s ≡ some k
      → Steps hashes c s t
      → Later l t
  Later-from l k f e stay = subst (Later l) (sym e) (followed f)
  Later-from l k f e (step (created remote h s) rest) = absurd (cc e)
  Later-from l k f e (step (updated {l = l₀} {b = b} {b' = b'} remote small h s) rest) =
      let same : l₀ ≡ k = some_eq e in
      let g =
        Decided-update remote l₀ (updates b) b' small (decide-Decided hashes c remote l₀ h) b refl
          s in
      Later-from l b' (Follows-trans l k b' f (subst (λ x. Follows x b') same g)) refl rest
  Later-from l k f e (step (deleted {l = l₀} {b = b} remote h) rest) =
      let same : l₀ ≡ k = some_eq e in
      let clean =
        Decided-delete remote l₀ (deletes b) (decide-Decided hashes c remote l₀ h) b refl in
      cleaned k f (subst (λ x. cleaned_up x ≡ true) same clean)
  Later-from l k f e (step (locally {l = l₀} {l' = l'} s) rest) =
      let same : l₀ ≡ k = some_eq e in
      Later-from l l'
        (Follows-trans l k l' f (subst (λ x. Follows x l') same (SameSnapshot-Follows l₀ l' s)))
        refl rest

  -- In whatever order snapshots of the authority, of generations below 2 ^ 63, arrive and the local
  -- controller works, which leaves the specification and the annotated source and generation alone, a
  -- stored snapshot stays of its source and its VPC, its generation never goes back and a deletion is
  -- never undone, unless at some time it was completely cleaned up.
  pub Steps-Later :
      (l : NetworkBinding) {s : Option NetworkBinding} → Steps hashes c (some l) s → Later l s
  Steps-Later l h = Later-from l l (Follows-refl l) refl h
