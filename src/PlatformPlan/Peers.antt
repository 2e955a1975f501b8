-- ===== src/PlatformPlan/Peers.antt =====
-- The gateways that a snapshot takes from the other locations.
use kube_ovn_global_vpc.Prelude.{
  String, ◌⧺◌, true, false, ◌||◌, List, [], ◌∷◌, is_empty, contains_text, starts_with, ◌==◌,
  text_ne, ◌≡◌, ◌≢◌, inl, inr, refl, Bool-cases, All, All-append, In, here, there, ok, reject-eq-ok,
  >>=-eq-ok, subst, ok-injective, or-false, sym, ap, ◌∙◌, ◌↔◌, text_eq, arith,
}
use kube_ovn_global_vpc.Binding.{GatewayLink, GatewayEndpoint, PeerGateway, NetworkBinding}
use kube_ovn_global_vpc.PlatformPlan.Build.{
  Subnets, at, bad_endpoint, links_to, peer, peers_at, peers,
}
use kube_ovn_global_vpc.PlatformPlan.Attached.{append_before}
use kube_ovn_global_vpc.PlatformPlan.Remote.{append_after}

links_to-All :
    (name : String) (links : List GatewayLink)
    → All (λ l. starts_with l.peer_id (name ⧺ "/") ≡ true) (links_to name links)
unfolding links_to
links_to-All name [] = tt
links_to-All name (l ∷ links) = elim (Bool-cases (starts_with l.peer_id (name ⧺ "/"))) [
  | inl e ↦ rw e (e, links_to-All name links)
  | inr e ↦ rw e (links_to-All name links)
]

-- A gateway of the snapshot of the location `name`, from a valid registration at another, active
-- location. Its readiness is left out, and its links are those to `name`.
pub record IsPeer (existing : List NetworkBinding) (Active : String → Type 0) (name : String)
    (p : PeerGateway) : Type 0 where
  pub elsewhere : p.location_ref ≢ name
  pub active : Active p.location_ref
  pub binding : NetworkBinding
  pub member : In binding existing
  pub location : binding.spec.location_ref ≡ p.location_ref
  pub origin : GatewayEndpoint
  pub registered : In origin binding.status.gateways
  pub valid : bad_endpoint origin ≡ false
  pub same : peer name p.location_ref origin ≡ p
  pub links : All (λ l. starts_with l.peer_id (name ⧺ "/") ≡ true) p.endpoint.links

module _ (existing : List NetworkBinding) (by_location : Subnets) (Active : String → Type 0)
    (acts : (k : String) → (is_empty (at k by_location) ≡ false) ↔ Active k) (name : String) where
  peers_at-IsPeer :
      (b : NetworkBinding) (ids nodes : List String) (gateways : List GatewayEndpoint)
      {ps : List PeerGateway}
      → In b existing
      → b.spec.location_ref ≢ name
      → is_empty (at b.spec.location_ref by_location) ≡ false
      → ((g : GatewayEndpoint) → In g gateways → In g b.status.gateways)
      → peers_at name b.spec.location_ref ids nodes gateways ≡ ok ps
      → All (IsPeer existing Active name) ps
  unfolding peers_at
  peers_at-IsPeer b ids nodes [] m other active within h =
      subst (All (IsPeer existing Active name)) (ok-injective h) tt
  peers_at-IsPeer b ids nodes (g ∷ rest) m other active within h =
      let (fine, h₁) =
        reject-eq-ok (bad_endpoint g || contains_text g.id ids || contains_text g.node_uid nodes) _
          _ h in
      let (others, read, h₂) =
        >>=-eq-ok (peers_at name b.spec.location_ref (g.id ∷ ids) (g.node_uid ∷ nodes) rest) _ h₁ in
      let (fine₁, _) = or-false _ _ fine in
      let (valid, _) = or-false (bad_endpoint g) _ fine₁ in
      subst (All (IsPeer existing Active name)) (ok-injective h₂) (
        record {
          elsewhere = other;
          active = (acts b.spec.location_ref).0 active;
          binding = b;
          member = m;
          location = refl;
          origin = g;
          registered = within g (here refl);
          valid = valid;
          same = refl;
          links = links_to-All name g.links;
        },
        peers_at-IsPeer b (g.id ∷ ids) (g.node_uid ∷ nodes) rest m other active
            (λ k i. within k (there i)) read,
      )

  pub peers-IsPeer :
      (bs : List NetworkBinding) {ps : List PeerGateway}
      → ((b : NetworkBinding) → In b bs → In b existing)
      → peers by_location name bs ≡ ok ps
      → All (IsPeer existing Active name) ps
  unfolding peers
  peers-IsPeer [] within h = subst (All (IsPeer existing Active name)) (ok-injective h) tt
  peers-IsPeer (b ∷ bs) within h =
      let rest : (b' : NetworkBinding) → In b' bs → In b' existing = λ k i. within k (there i) in
      elim (Bool-cases
        (b.spec.location_ref == name || is_empty (at b.spec.location_ref by_location))) [
          | inl skip ↦ peers-IsPeer bs rest (rw skip at h)
          | inr taken ↦
              let (other, active) = or-false _ _ taken in
              let (own, read, h₁) =
                >>=-eq-ok (peers_at name b.spec.location_ref [] [] b.status.gateways) _
                  (rw taken at h) in
              let (others, later, h₂) = >>=-eq-ok (peers by_location name bs) _ h₁ in
              subst (All (IsPeer existing Active name)) (ok-injective h₂) (
                All-append (IsPeer existing Active name) own others
                  (peers_at-IsPeer b [] [] b.status.gateways (within b (here refl))
                    (text_ne _ _ other) active (λ g i. i) read)
                  (peers-IsPeer bs rest later))
        ]

  peers_at_complete :
      (b : NetworkBinding) (ids nodes : List String) (gateways : List GatewayEndpoint)
      {ps : List PeerGateway} (g : GatewayEndpoint)
      → In g gateways
      → peers_at name b.spec.location_ref ids nodes gateways ≡ ok ps
      → In (peer name b.spec.location_ref g) ps
  unfolding peers_at
  peers_at_complete b ids nodes [] g m h = elim m [ ]
  peers_at_complete b ids nodes (k ∷ rest) g m h =
      let (_, h₁) =
        reject-eq-ok (bad_endpoint k || contains_text k.id ids || contains_text k.node_uid nodes) _
          _ h in
      let (others, read, h₂) =
        >>=-eq-ok (peers_at name b.spec.location_ref (k.id ∷ ids) (k.node_uid ∷ nodes) rest) _ h₁ in
      subst (In (peer name b.spec.location_ref g)) (ok-injective h₂) (elim m [
        | here e ↦ here (ap (peer name b.spec.location_ref) e)
        | there i ↦ there (peers_at_complete b (k.id ∷ ids) (k.node_uid ∷ nodes) rest g i read)
      ])

  peers_complete :
      (bs : List NetworkBinding) {ps : List PeerGateway} (b : NetworkBinding) (g : GatewayEndpoint)
      → In b bs
      → b.spec.location_ref ≢ name
      → is_empty (at b.spec.location_ref by_location) ≡ false
      → In g b.status.gateways
      → peers by_location name bs ≡ ok ps
      → In (peer name b.spec.location_ref g) ps
  unfolding peers
  peers_complete [] b g m other active i h = elim m [ ]
  peers_complete (d ∷ bs) b g m other active i h =
      elim (Bool-cases
        (d.spec.location_ref == name || is_empty (at d.spec.location_ref by_location))) [
          | inl skip ↦ elim m [
            | here e ↦
                let taken : (b.spec.location_ref == name
                      || is_empty (at b.spec.location_ref by_location))
                    ≡ true =
                  subst
                    (λ x.
                      (x.spec.location_ref == name || is_empty (at x.spec.location_ref by_location))
                      ≡ true)
                    e skip in
                absurd (other (text_eq _ _ (ground (arith, taken, active))))
            | there j ↦ peers_complete bs b g j other active i (rw skip at h)
          ]
          | inr taken ↦
              let (own, read, h₁) =
                >>=-eq-ok (peers_at name d.spec.location_ref [] [] d.status.gateways) _
                  (rw taken at h) in
              let (others, later, h₂) = >>=-eq-ok (peers by_location name bs) _ h₁ in
              subst (In (peer name b.spec.location_ref g)) (ok-injective h₂) (elim m [
                | here e ↦ append_before own others (peer name b.spec.location_ref g) (
                    peers_at_complete b [] [] b.status.gateways g i (
                      subst
                        (λ x. peers_at name x.spec.location_ref [] [] x.status.gateways ≡ ok own) e
                        read))
                | there j ↦
                    append_after own others (peer name b.spec.location_ref g)
                      (peers_complete bs b g j other active i later)
              ])
        ]

  pub IsPeer-In :
      {ps : List PeerGateway} (p : PeerGateway)
      → peers by_location name existing ≡ ok ps
      → IsPeer existing Active name p
      → In p ps
  IsPeer-In {ps} p h q =
      let there_too : peer name q.binding.spec.location_ref q.origin ≡ p =
        ap (λ k. peer name k q.origin) q.location ∙ q.same in
      subst (λ x. In x ps) there_too
        (peers_complete existing q.binding q.origin q.member (λ e. q.elsewhere (sym q.location ∙ e))
          (subst (λ k. is_empty (at k by_location) ≡ false) (sym q.location)
            ((acts p.location_ref).1 q.active))
          q.registered h)
