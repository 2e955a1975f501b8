-- ===== src/ManagedGateway/Claims/Laws.antt =====
-- What the validation of published gateways accepts, and that a registry which retains more accepts
-- the same gateways.
use native.Mathlib.Omega.{arith}
use kube_ovn_global_vpc.Prelude.{
  ℕ, String, ◌⧺◌, true, false, not, ◌&&◌, ◌||◌, List, [], ◌∷◌, Map, find, text_at, text_at-find,
  eqb, eqb_iff, ◌==◌, eq_iff, text_eq, text_ne, All, ◌≡◌, ◌≢◌, ◌↔◌, refl, sym, ◌∙◌, ap, Option,
  none, some, ok, reject, reject-eq-ok, reject_passed, >>=-eq-ok, All-map, Result, inl, inr,
  Bool-cases,
}
use kube_ovn_global_vpc.Binding.{GatewayLink, GatewayEndpoint}
use kube_ovn_global_vpc.ManagedGateway.Types.{AllocationRegistry}
use kube_ovn_global_vpc.ManagedGateway.Reserve.Keeps.{Retains}
use kube_ovn_global_vpc.ManagedGateway.Claims.{
  port_at, check_link, check_links, validate_gateway_claims,
}

module _ (reg : AllocationRegistry) where
  -- The registry retains what a link was published with.
  pub record IsLink (prefix profile : String) (g : GatewayEndpoint) (link : GatewayLink)
      : Type 0 where
    pub of_peer : link.peer_id ≢ ""
    pub of_tunnel : link.tunnel_ip ≢ ""
    pub address : find (prefix ⧺ "/" ⧺ link.peer_id) reg.addresses ≡ some link.tunnel_ip
    pub port :
        profile ≡ "wireguard-bgp"
        → (link.listen_port ≢ 0)
          × (find (g.node_uid ⧺ "/" ⧺ prefix ⧺ "/" ⧺ link.peer_id) reg.ports
              ≡ some link.listen_port)

  -- The registry retains what a gateway was published with.
  pub record IsGateway (owner profile : String) (g : GatewayEndpoint) : Type 0 where
    pub of_owner : owner ≢ ""
    pub of_id : g.id ≢ ""
    pub of_node : g.node_uid ≢ ""
    pub of_health : g.health_ip ≢ ""
    pub health : find (owner ⧺ "/" ⧺ g.id ⧺ "/health") reg.addresses ≡ some g.health_ip
    pub links : All (IsLink (owner ⧺ "/" ⧺ g.id) profile g) g.links

  -- a text that is not empty is at a key exactly when the key is there with it
  found_text : (k v : String) (m : Map String) → v ≢ "" → (text_at k m ≡ v) ↔ (find k m ≡ some v)
  found_text k v m h = (by_find (find k m) refl, λ e. text_at-find k m ∙ (rw e refl))
    where
      by_find : (o : Option String) → find k m ≡ o → text_at k m ≡ v → find k m ≡ some v
      by_find none e t = absurd (h (sym t ∙ text_at-find k m ∙ (rw e refl)))
      by_find (some w) e t = e ∙ ap some (sym (text_at-find k m ∙ (rw e refl)) ∙ t)

  found_port : (o : Option ℕ) (v : ℕ) → v ≢ 0 → (port_at o ≡ v) ↔ (o ≡ some v)
  unfolding port_at
  found_port none v h = ((λ e. absurd (h (sym e))), λ e. absurd (cc e))
  found_port (some w) v h = (ap some, λ e. cc e)

  module _ (prefix profile : String) (g : GatewayEndpoint) where
    abbrev address_key : GatewayLink → String
    address_key link = prefix ⧺ "/" ⧺ link.peer_id

    abbrev port_key : GatewayLink → String
    port_key link = g.node_uid ⧺ "/" ⧺ prefix ⧺ "/" ⧺ link.peer_id

    check_link-IsLink :
        (link : GatewayLink)
        → check_link reg prefix profile g link ≡ ok tt
        → IsLink prefix profile g link
    unfolding check_link
    check_link-IsLink link h =
        let found : ℕ = port_at (find (port_key link) reg.ports) in
        let (first, h₂) =
          reject-eq-ok
            (link.peer_id == ""
              || link.tunnel_ip == ""
              || not (text_at (address_key link) reg.addresses == link.tunnel_ip))
            _ _ h in
        let second =
          reject_passed
            (profile == "wireguard-bgp"
              && (eqb link.listen_port 0 || not (eqb found link.listen_port)))
            _ h₂ in
        let tunnel : link.tunnel_ip ≢ "" = text_ne link.tunnel_ip "" (ground arith) in
        let same : text_at (address_key link) reg.addresses ≡ link.tunnel_ip =
          text_eq _ _ (ground arith) in
        record {
          of_peer = text_ne link.peer_id "" (ground arith);
          of_tunnel = tunnel;
          address = (found_text (address_key link) link.tunnel_ip reg.addresses tunnel).0 same;
          port = λ e.
              let bgp : (profile == "wireguard-bgp") ≡ true =
                (eq_iff profile "wireguard-bgp").1 e in
              let positive : link.listen_port ≢ 0 = λ z. ground (arith, second) in
              let equal : found ≡ link.listen_port = ground (arith, second) in
              (
                positive,
                (found_port (find (port_key link) reg.ports) link.listen_port positive).0 equal,
              );
        }

    accepted_link :
        (link : GatewayLink)
        → IsLink prefix profile g link
        → check_link reg prefix profile g link ≡ ok tt
    unfolding check_link
    accepted_link link l =
        let same : text_at (address_key link) reg.addresses ≡ link.tunnel_ip =
          (found_text (address_key link) link.tunnel_ip reg.addresses l.of_tunnel).1 l.address in
        let first : (link.peer_id == ""
              || link.tunnel_ip == ""
              || not (text_at (address_key link) reg.addresses == link.tunnel_ip))
            ≡ false =
          ground (
            arith,
            eq_iff link.peer_id "",
            eq_iff link.tunnel_ip "",
            eq_iff (text_at (address_key link) reg.addresses) link.tunnel_ip,
            l.of_peer,
            l.of_tunnel,
          ) in
        elim (Bool-cases (profile == "wireguard-bgp")) [
          | inr other ↦ rw (first, other) refl
          | inl bgp ↦
              let (positive, held) = l.port (text_eq profile "wireguard-bgp" bgp) in
              let equal : port_at (find (port_key link) reg.ports) ≡ link.listen_port =
                (found_port (find (port_key link) reg.ports) link.listen_port positive).1 held in
              let zero_not : eqb link.listen_port 0 ≡ false = ground (arith, positive) in
              let same_port : eqb (port_at (find (port_key link) reg.ports)) link.listen_port
                  ≡ true =
                (eqb_iff _ _).1 equal in
              rw (first, bgp, zero_not, same_port) refl
        ]

    links_iff :
        (links : List GatewayLink)
        → (check_links reg prefix profile g links ≡ ok tt) ↔ All (IsLink prefix profile g) links
    unfolding check_links
    links_iff [] = ((λ _. tt), λ _. refl)
    links_iff (link ∷ links) = (
      (λ h.
          let (_, first, rest) = >>=-eq-ok (check_link reg prefix profile g link) _ h in
          (check_link-IsLink link first, (links_iff links).0 rest)),
      (λ h. rw (accepted_link link h.0) ((links_iff links).1 h.1)),
    )

  abbrev health_key : String → GatewayEndpoint → String
  health_key owner g = owner ⧺ "/" ⧺ g.id ⧺ "/health"

  abbrev check_gateway : String → GatewayEndpoint → Result (Unit {0})
  check_gateway owner g =
      reject
        (owner == ""
          || g.id == ""
          || g.node_uid == ""
          || not (text_at (health_key owner g) reg.addresses == g.health_ip)
          || g.health_ip == "")
        "GatewayAllocationReceiptMismatch: member health identity disagrees with retained registry"

  check_gateway-IsGateway :
      (owner profile : String) (g : GatewayEndpoint)
      → check_gateway owner g ≡ ok tt
      → check_links reg (owner ⧺ "/" ⧺ g.id) profile g g.links ≡ ok tt
      → IsGateway owner profile g
  check_gateway-IsGateway owner profile g h links =
      let bad =
        reject_passed
          (owner == ""
            || g.id == ""
            || g.node_uid == ""
            || not (text_at (health_key owner g) reg.addresses == g.health_ip)
            || g.health_ip == "")
          _ h in
      let health : g.health_ip ≢ "" = text_ne g.health_ip "" (ground arith) in
      record {
        of_owner = text_ne owner "" (ground arith);
        of_id = text_ne g.id "" (ground arith);
        of_node = text_ne g.node_uid "" (ground arith);
        of_health = health;
        health =
            (found_text (health_key owner g) g.health_ip reg.addresses health).0
              (text_eq _ _ (ground arith));
        links = (links_iff (owner ⧺ "/" ⧺ g.id) profile g g.links).0 links;
      }

  accepted_gateway :
      (owner profile : String) (g : GatewayEndpoint)
      → IsGateway owner profile g
      → check_gateway owner g ≡ ok tt
  accepted_gateway owner profile g k =
      let same : text_at (health_key owner g) reg.addresses ≡ g.health_ip =
        (found_text (health_key owner g) g.health_ip reg.addresses k.of_health).1 k.health in
      let bad : (owner == ""
            || g.id == ""
            || g.node_uid == ""
            || not (text_at (health_key owner g) reg.addresses == g.health_ip)
            || g.health_ip == "")
          ≡ false =
        ground (
          arith,
          eq_iff owner "",
          eq_iff g.id "",
          eq_iff g.node_uid "",
          eq_iff g.health_ip "",
          eq_iff (text_at (health_key owner g) reg.addresses) g.health_ip,
          k.of_owner,
          k.of_id,
          k.of_node,
          k.of_health,
        ) in
      rw bad refl

  -- The validation accepts published gateways exactly when the registry retains, under the owner,
  -- the health address of each, the address of each of its links and, for WireGuard, its port.
  pub validate_gateway_claims-IsGateway :
      (owner profile : String) (gateways : List GatewayEndpoint)
      → (validate_gateway_claims reg owner profile gateways ≡ ok tt)
        ↔ All (IsGateway owner profile) gateways
  unfolding validate_gateway_claims
  validate_gateway_claims-IsGateway owner profile [] = ((λ _. tt), λ _. refl)
  validate_gateway_claims-IsGateway owner profile (g ∷ gateways) = (
    (λ h.
        let (_, first, rest) = >>=-eq-ok (check_gateway owner g) _ h in
        let (_, links, more) =
          >>=-eq-ok (check_links reg (owner ⧺ "/" ⧺ g.id) profile g g.links) _ rest in
        (
          check_gateway-IsGateway owner profile g first links,
          (validate_gateway_claims-IsGateway owner profile gateways).0 more,
        )),
    (λ h.
        let links = (links_iff (owner ⧺ "/" ⧺ g.id) profile g g.links).1 h.0.links in
        rw (accepted_gateway owner profile g h.0, links)
          ((validate_gateway_claims-IsGateway owner profile gateways).1 h.1)),
  )

-- Published gateways that a registry accepts are accepted by every registry that retains its claims.
pub validate_gateway_claims-Retains :
    (reg reg' : AllocationRegistry) (owner profile : String) (gateways : List GatewayEndpoint)
    → Retains reg reg'
    → validate_gateway_claims reg owner profile gateways ≡ ok tt
    → validate_gateway_claims reg' owner profile gateways ≡ ok tt
validate_gateway_claims-Retains reg reg' owner profile gateways r h =
    (validate_gateway_claims-IsGateway reg' owner profile gateways).1 (
      All-map gateway gateways ((validate_gateway_claims-IsGateway reg owner profile gateways).0 h))
  where
    link :
        (prefix : String) (g : GatewayEndpoint) (l : GatewayLink)
        → IsLink reg prefix profile g l
        → IsLink reg' prefix profile g l
    link prefix g l k = record {
      of_peer = k.of_peer;
      of_tunnel = k.of_tunnel;
      address = r.addresses (prefix ⧺ "/" ⧺ l.peer_id) k.address;
      port = λ e.
          let (positive, held) = k.port e in
          (positive, r.ports (g.node_uid ⧺ "/" ⧺ prefix ⧺ "/" ⧺ l.peer_id) held);
    }

    gateway : (g : GatewayEndpoint) → IsGateway reg owner profile g → IsGateway reg' owner profile g
    gateway g k = record {
      of_owner = k.of_owner;
      of_id = k.of_id;
      of_node = k.of_node;
      of_health = k.of_health;
      health = r.addresses (owner ⧺ "/" ⧺ g.id ⧺ "/health") k.health;
      links = All-map (link (owner ⧺ "/" ⧺ g.id) g) g.links k.links;
    }
