-- ===== src/DomainGate/Laws.antt =====
-- What `Acquire` and `Release` do after they have read the lock.
use kube_ovn_global_vpc.Prelude.{
  String, Bool, true, ◌&&◌, Option, some, List, ◌≡◌, ◌≢◌, ◌⊎◌, inl, inr, refl, sym, ◌∙◌, ap, subst,
  Result, ok, err, ◌==◌, text_eq, Bool-cases, some_eq, text_at, and-true,
}
use kube_ovn_global_vpc.Kube.Client.{
  ConfigMap, create, update, done, call, Server, Creates, Updates, IsServer, Ensures,
}
use kube_ovn_global_vpc.DomainGate.{
  Gate, owner, holder_of, plan_hash_of, held_data, written, released, new_lock, acquire_from,
  release_from,
}

-- a lock that is not for this holder to change: of another domain, or held by another
abbrev pub Foreign : Gate → String → ConfigMap → Type 0
Foreign g uid cm = (owner cm ≢ g.domain) ⊎ ((holder_of cm ≢ "") × (holder_of cm ≢ uid))

module _ (s : Server) (laws : IsServer s) (g : Gate) (uid : String) where
  abbrev pub stored : s.World → Option ConfigMap
  stored w = s.stored g.namespace g.lock_name w

  -- a step that leaves a foreign lock as it is
  abbrev pub Respects : s.World → s.World → Type 0
  Respects w w' = (cm : ConfigMap) → stored w ≡ some cm → Foreign g uid cm → stored w' ≡ some cm

  -- a lock of the domain with a holder and a plan hash
  pub record HeldBy (holder hash : String) (w : s.World) : Type 0 where
    pub lock : ConfigMap
    pub present : stored w ≡ some lock
    pub of_domain : owner lock ≡ g.domain
    pub held : holder_of lock ≡ holder
    pub of_plan : plan_hash_of lock ≡ hash

  pub same-Respects : (w w' : s.World) → w' ≡ w → Respects w w'
  same-Respects w w' e cm present foreign = subst (λ v. stored v ≡ some cm) (sym e) present

  created-Respects :
      (hash : String) (w w' : s.World) → Creates s (new_lock g uid hash) w w' → Respects w w'
  created-Respects hash w w' c cm present foreign = absurd (cc (c.absent, present))

  -- the lock is one that this holder may take
  abbrev Free : ConfigMap → Type 0
  Free cm = (owner cm ≡ g.domain) × ((holder_of cm ≡ "") ⊎ (holder_of cm ≡ uid))

  Free-Foreign : (cm : ConfigMap) → Free cm → Foreign g uid cm → ⊥
  Free-Foreign cm (e, _) (inl other) = other e
  Free-Foreign cm (_, inl free) (inr (held, _)) = held free
  Free-Foreign cm (_, inr mine) (inr (_, other)) = other mine

  -- an update of a lock that was read as free: it cannot hit a lock that another took since
  update_lem :
      (cm : ConfigMap) (values : List (String × String)) (w w₁ w₂ : s.World)
      → Free cm
      → (stored w ≡ some cm) × (cm.namespace ≡ g.namespace) × (cm.name ≡ g.lock_name)
      → s.Later w w₁
      → Updates s (record cm { values = values }) w₁ w₂
      → Respects w₁ w₂
        × ((out : ConfigMap) × (stored w₂ ≡ some out)
            × (owner out ≡ g.domain)
            × (out.values ≡ values))
  update_lem cm values w w₁ w₂ free (present, same_namespace, same_name) later u =
      let here : stored w₁ ≡ some u.current = place w₁ (some u.current) u.before in
      let same : u.current ≡ cm =
        laws.versions g.namespace g.lock_name w w₁ cm u.current later present here u.version in
      (
        (λ old old_present foreign. absurd (
            Free-Foreign cm free
              (subst (Foreign g uid) (some_eq (sym old_present ∙ here) ∙ same) foreign))),
        (
          u.out,
          place w₂ (some u.out) u.after,
          ap owner u.same ∙ (unfold owner in free.0),
          ap values_of u.same,
        ),
      )
    where
      place :
          (v : s.World) (o : Option ConfigMap) → s.stored cm.namespace cm.name v ≡ o → stored v ≡ o
      place v o e =
          subst (λ n. s.stored n g.lock_name v ≡ o) same_namespace
            (subst (λ n. s.stored cm.namespace n v ≡ o) same_name e)

      values_of : ConfigMap → List (String × String)
      values_of c = c.values

  abbrev pub Acquired : String → Result Bool → s.World → Type 0
  Acquired hash r w = r ≡ ok true → HeldBy uid hash w

  Held_of_values :
      (hash : String) (w : s.World) (out : ConfigMap)
      → stored w ≡ some out
      → owner out ≡ g.domain
      → out.values ≡ held_data uid hash
      → HeldBy uid hash w
  Held_of_values hash w out present of_domain values = record {
    lock = out;
    present = present;
    of_domain = of_domain;
    held = unfold holder_of text_at in ap (text_at "holder") values;
    of_plan = unfold plan_hash_of text_at in ap (text_at "planHash") values;
  }

  created_lem :
      (hash : String) (w₁ w₂ : s.World) → Creates s (new_lock g uid hash) w₁ w₂ → HeldBy uid hash w₂
  created_lem hash w₁ w₂ c =
      Held_of_values hash w₂ c.out c.present (ap owner c.same ∙ (unfold owner text_at in refl))
        (ap values_of c.same)
    where
      values_of : ConfigMap → List (String × String)
      values_of c = c.values

  pub create-Ensures :
      (hash : String) (w : s.World)
      → Ensures s Respects
          (Acquired hash)
          (call
            (create (new_lock g uid hash))
            (λ answer. done (written "domain lock creation failed" answer)))
          w
  unfolding Ensures
  create-Ensures hash w w₁ w₂ (ok out) later answer =
      let c = laws.created (new_lock g uid hash) out w₁ w₂ answer in
      (created-Respects hash w₁ w₂ c, λ _. created_lem hash w₁ w₂ c)
  create-Ensures hash w w₁ w₂ (err e) later answer = (
    elim (laws.create_failed (new_lock g uid hash) e w₁ w₂ answer) [
      | inl same ↦ same-Respects w₁ w₂ same
      | inr c ↦ created-Respects hash w₁ w₂ c
    ],
    λ h. absurd (cc h),
  )

  mine :
      (hash : String) (cm : ConfigMap) (w : s.World)
      → stored w ≡ some cm
      → owner cm ≡ g.domain
      → holder_of cm ≡ uid
      → plan_hash_of cm ≡ hash
      → HeldBy uid hash w
  mine hash cm w present of_domain held of_plan = record {
    lock = cm;
    present = present;
    of_domain = of_domain;
    held = held;
    of_plan = of_plan;
  }

  take-Ensures :
      (hash : String) (cm : ConfigMap) (w : s.World)
      → (stored w ≡ some cm) × (cm.namespace ≡ g.namespace) × (cm.name ≡ g.lock_name)
      → Free cm
      → Ensures s Respects
          (Acquired hash)
          (call
            (update (record cm { values = held_data uid hash }))
            (λ answer. done (written "domain lock update failed" answer)))
          w
  unfolding Ensures
  take-Ensures hash cm w read free w₁ w₂ (ok out) later answer =
      let u = laws.updated (record cm { values = held_data uid hash }) out w₁ w₂ answer in
      let (respects, (now, present, of_domain, values)) =
        update_lem cm (held_data uid hash) w w₁ w₂ free read later u in
      (respects, λ _. Held_of_values hash w₂ now present of_domain values)
  take-Ensures hash cm w read free w₁ w₂ (err e) later answer = (
    elim (laws.update_failed (record cm { values = held_data uid hash }) e w₁ w₂ answer) [
      | inl same ↦ same-Respects w₁ w₂ same
      | inr u ↦ (update_lem cm (held_data uid hash) w w₁ w₂ free read later u).0
    ],
    λ h. absurd (cc h),
  )

  pub acquire_from-Ensures :
      (hash : String) (cm : ConfigMap) (w : s.World)
      → (stored w ≡ some cm) × (cm.namespace ≡ g.namespace) × (cm.name ≡ g.lock_name)
      → Ensures s Respects (Acquired hash) (acquire_from g uid hash (ok cm)) w
  unfolding acquire_from
  acquire_from-Ensures hash cm w read = elim (Bool-cases (owner cm == g.domain)) [
    | inr foreign ↦ rw foreign (unfold Ensures in λ h. absurd (cc h))
    | inl ours ↦ elim (Bool-cases (holder_of cm == uid)) [
      | inl same ↦ elim (Bool-cases (plan_hash_of cm == hash)) [
        | inl agrees ↦
            rw (ours, same, agrees)
              (elim (Bool-cases (holder_of cm == "")) [
                | inl e ↦ rw e (
                    unfold Ensures in
                    λ _.
                      mine hash cm w read.0 (text_eq _ _ ours) (text_eq _ _ same)
                        (text_eq _ _ agrees))
                | inr e ↦ rw e (
                    unfold Ensures in
                    λ _.
                      mine hash cm w read.0 (text_eq _ _ ours) (text_eq _ _ same)
                        (text_eq _ _ agrees))
              ])
        | inr differs ↦
            rw (ours, same, differs)
              (elim (Bool-cases (holder_of cm == "")) [
                | inl e ↦ rw e (unfold Ensures in λ h. absurd (cc h))
                | inr e ↦ rw e (unfold Ensures in λ h. absurd (cc h))
              ])
      ]
      | inr other ↦ elim (Bool-cases (holder_of cm == "")) [
        | inl free ↦
            rw (ours, free, other)
              (take-Ensures hash cm w read (text_eq _ _ ours, inl (text_eq _ _ free)))
        | inr held ↦ rw (ours, held, other) (unfold Ensures in λ h. absurd (cc h))
      ]
    ]
  ]

  release-Ensures :
      (cm : ConfigMap) (w : s.World)
      → (stored w ≡ some cm) × (cm.namespace ≡ g.namespace) × (cm.name ≡ g.lock_name)
      → Free cm
      → Ensures s Respects
          (λ r w'. r ≡ ok tt → HeldBy "" "" w')
          (call
            (update (record cm { values = held_data "" "" }))
            (λ answer. done (released answer)))
          w
  unfolding Ensures
  release-Ensures cm w read free w₁ w₂ (ok out) later answer =
      let u = laws.updated (record cm { values = held_data "" "" }) out w₁ w₂ answer in
      let (respects, (now, present, of_domain, values)) =
        update_lem cm (held_data "" "") w w₁ w₂ free read later u in
      (
        respects,
        λ _. record {
          lock = now;
          present = present;
          of_domain = of_domain;
          held = unfold holder_of text_at in ap (text_at "holder") values;
          of_plan = unfold plan_hash_of text_at in ap (text_at "planHash") values;
        },
      )
  release-Ensures cm w read free w₁ w₂ (err e) later answer = (
    elim (laws.update_failed (record cm { values = held_data "" "" }) e w₁ w₂ answer) [
      | inl same ↦ same-Respects w₁ w₂ same
      | inr u ↦ (update_lem cm (held_data "" "") w w₁ w₂ free read later u).0
    ],
    λ h. absurd (cc h),
  )

  pub release_from-Ensures :
      (cm : ConfigMap) (w : s.World)
      → (stored w ≡ some cm) × (cm.namespace ≡ g.namespace) × (cm.name ≡ g.lock_name)
      → Ensures s Respects (λ r w'. r ≡ ok tt → HeldBy "" "" w') (release_from g uid (ok cm)) w
  unfolding release_from
  release_from-Ensures cm w read = elim (Bool-cases (owner cm == g.domain && holder_of cm == uid)) [
    | inr foreign ↦ rw foreign (unfold Ensures in λ h. absurd (cc h))
    | inl ours ↦
        let (of_domain, held) = and-true _ _ ours in
        rw ours (release-Ensures cm w read (text_eq _ _ of_domain, inr (text_eq _ _ held)))
  ]
