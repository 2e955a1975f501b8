-- ===== src/Kube/Retained.antt =====
-- One object that a program reads, creates and updates: what the interface of a server says of it,
-- whatever others do. `accept` reads a value from the object, and `Retains` is how it may change.
use kube_ovn_global_vpc.Prelude.{
  String, false, ◌&&◌, none, some, ◌==◌, ◌≡◌, inl, inr, sym, ◌∙◌, ap, subst, Result, ok, err,
  ok-injective, some_eq,
}
use kube_ovn_global_vpc.Kube.Client.{
  ConfigMap, get, create, Server, IsServer, Creates, Updates, StoredAs,
}

module _ (server : Server) (laws : IsServer server) (namespace name : String) {R : Type 0}
    (accept : ConfigMap → Result R) (Retains : R → R → Type 0) (same : (r : R) → Retains r r) where
  -- An accepted object is stored in a state.
  pub record Stored (w : server.World) (cm : ConfigMap) (r : R) : Type 0 where
    pub present : server.stored namespace name w ≡ some cm
    pub accepted : accept cm ≡ ok r

  -- A move after which an accepted object is still one, and retains what it had.
  abbrev pub Keeps : server.World → server.World → Type 0
  Keeps w w' =
      (cm : ConfigMap) (r : R)
      → Stored w cm r
      → (cm' : ConfigMap) × (r' : R) × Stored w' cm' r' × Retains r r'

  -- The object was read, or created, in an earlier state.
  pub record Read (cm : ConfigMap) (w : server.World) : Type 0 where
    pub earlier : server.World
    pub present : server.stored namespace name earlier ≡ some cm
    pub since : server.Later earlier w
    pub in_namespace : cm.namespace ≡ namespace
    pub named : cm.name ≡ name

  pub frame-Keeps :
      (w w' : server.World)
      → server.stored namespace name w' ≡ server.stored namespace name w
      → Keeps w w'
  frame-Keeps w w' e cm r h =
      (cm, r, record { present = e ∙ h.present; accepted = h.accepted }, same r)

  pub same-Keeps : (w w' : server.World) → w' ≡ w → Keeps w w'
  same-Keeps w w' e = frame-Keeps w w' (ap (λ v. server.stored namespace name v) e)

  pub get-Keeps :
      (space key : String) (w w' : server.World) (answer : Result ConfigMap)
      → server.Answers (get space key) w answer w'
      → Keeps w w'
  get-Keeps space key w w' answer h = same-Keeps w w' (laws.read_only space key w w' answer h)

  -- an object is created only where there is none
  pub absent-Keeps :
      (cm : ConfigMap) (w w' : server.World)
      → cm.namespace ≡ namespace
      → cm.name ≡ name
      → Creates server cm w w'
      → Keeps w w'
  absent-Keeps cm w w' in_space named c old r h =
      let absent : server.stored namespace name w ≡ none =
        subst (λ n. server.stored n name w ≡ none) in_space
          (subst (λ n. server.stored cm.namespace n w ≡ none) named c.absent) in
      absurd (cc (sym absent ∙ h.present))

  pub elsewhere-Keeps :
      (cm : ConfigMap) (w w' : server.World)
      → (cm.namespace == namespace && cm.name == name) ≡ false
      → Creates server cm w w'
      → Keeps w w'
  elsewhere-Keeps cm w w' other c = frame-Keeps w w' (c.others namespace name other)

  pub create-Keeps :
      (cm : ConfigMap) (w w' : server.World) (answer : Result ConfigMap)
      → ((w w' : server.World) → Creates server cm w w' → Keeps w w')
      → server.Answers (create cm) w answer w'
      → Keeps w w'
  create-Keeps cm w w' (ok out) k h = k w w' (laws.created cm out w w' h)
  create-Keeps cm w w' (err e) k h = elim (laws.create_failed cm e w w' h) [
    | inl e ↦ same-Keeps w w' e
    | inr c ↦ k w w' c
  ]

  pub moved-Read :
      (cm : ConfigMap) (w w' : server.World) → Read cm w → server.Later w w' → Read cm w'
  moved-Read cm w w' r later = record {
    earlier = r.earlier;
    present = r.present;
    since = laws.later_trans r.earlier w w' r.since later;
    in_namespace = r.in_namespace;
    named = r.named;
  }

  pub get-Read :
      (cm : ConfigMap) (w w' : server.World)
      → server.Answers (get namespace name) w (ok cm) w'
      → Read cm w'
  get-Read cm w w' h =
      let (present, in_space, named) = laws.read namespace name w w' cm h in
      record {
        earlier = w;
        present = present;
        since = laws.later_step (get namespace name) w w' (ok cm) h;
        in_namespace = in_space;
        named = named;
      }

  pub create-Read :
      (cm out : ConfigMap) (w w' : server.World)
      → cm.namespace ≡ namespace
      → cm.name ≡ name
      → server.Answers (create cm) w (ok out) w'
      → Read out w'
  create-Read cm out w w' space key h =
      let c = laws.created cm out w w' h in
      let there = laws.returned cm out w w' h in
      let stored : StoredAs cm out = subst (StoredAs cm) (some_eq (sym c.present ∙ there)) c.same in
      record {
        earlier = w';
        present =
            subst (λ n. server.stored n name w' ≡ some out) space
              (subst (λ n. server.stored cm.namespace n w' ≡ some out) key there);
        since = laws.later_refl w';
        in_namespace = ap (λ (x : ConfigMap). x.namespace) stored ∙ space;
        named = ap (λ (x : ConfigMap). x.name) stored ∙ key;
      }

  -- An object that is written back as it was read, but for its content.
  pub record Rewrites (cm written : ConfigMap) : Type 0 where
    pub same_namespace : written.namespace ≡ cm.namespace
    pub same_name : written.name ≡ cm.name
    pub same_version : written.resource_version ≡ cm.resource_version

  module _ (cm written : ConfigMap) (r r' : R) (w w₁ w₂ : server.World) (read : Read cm w)
      (accepted : accept cm ≡ ok r) (rewrites : Rewrites cm written) (later : server.Later w w₁)
      (u : Updates server written w₁ w₂) where
    -- the update has replaced the object that was read
    pub update_current : server.stored namespace name w₁ ≡ some cm
    update_current =
        let before : server.stored namespace name w₁ ≡ some u.current =
          subst (λ n. server.stored namespace n w₁ ≡ some u.current)
            (rewrites.same_name ∙ read.named)
            (subst (λ n. server.stored n written.name w₁ ≡ some u.current)
              (rewrites.same_namespace ∙ read.in_namespace) u.before) in
        before
        ∙ ap some (
            laws.versions namespace name read.earlier w₁ cm u.current
              (laws.later_trans read.earlier w w₁ read.since later) read.present before
              (u.version ∙ rewrites.same_version))

    update_uid : u.out.uid ≡ cm.uid
    update_uid =
        let before : server.stored namespace name w₁ ≡ some u.current =
          subst (λ n. server.stored namespace n w₁ ≡ some u.current)
            (rewrites.same_name ∙ read.named)
            (subst (λ n. server.stored n written.name w₁ ≡ some u.current)
              (rewrites.same_namespace ∙ read.in_namespace) u.before) in
        u.same_uid ∙ ap (λ (x : ConfigMap). x.uid) (some_eq (sym before ∙ update_current))

    pub update-Stored :
        ((out : ConfigMap) → StoredAs written out → out.uid ≡ cm.uid → accept out ≡ ok r')
        → Stored w₂ u.out r'
    update-Stored again = record {
      present =
          subst (λ n. server.stored namespace n w₂ ≡ some u.out) (rewrites.same_name ∙ read.named)
            (subst (λ n. server.stored n written.name w₂ ≡ some u.out)
              (rewrites.same_namespace ∙ read.in_namespace) u.after);
      accepted = again u.out u.same update_uid;
    }

    pub update-Keeps : Stored w₂ u.out r' → Retains r r' → Keeps w₁ w₂
    update-Keeps stored retains cm₀ r₀ h =
        let again : accept cm ≡ ok r₀ =
          subst (λ x. accept x ≡ ok r₀) (some_eq (sym h.present ∙ update_current)) h.accepted in
        (u.out, r', stored, subst (λ x. Retains x r') (ok-injective (sym accepted ∙ again)) retains)
