-- ===== src/ManagedGateway/Reserve/Outcome.antt =====
-- What a reservation gives: the kept or new value of the claim, in a valid registry that retains all
-- that there was.
use native.Mathlib.Omega.{arith}
use kube_ovn_global_vpc.Prelude.{
  ℕ, ◌≤◌, ◌<◌, String, ◌⧺◌, Bool, true, false, Option, none, some, [], ◌∷◌, Map, find, find-append,
  find-put, put, put_new, text_at, ◌==◌, eq_refl, text_ne, ◌≡◌, ◌≢◌, refl, sym, ◌∙◌, ap, subst, ◌⊎◌,
  Error, Bool-cases, text_eq, inl, inr, ok, err, ok-injective, reject-eq-ok,
}
use kube_ovn_global_vpc.Netip.Parse.{addr_text, number_text, cut_slash}
use kube_ovn_global_vpc.Netip.Prefix.{Prefix, parse_prefix}
use kube_ovn_global_vpc.Netip.Prefix.RoundTrip.{parse_prefix-prefix_text}
use kube_ovn_global_vpc.SiteConfig.Prefix.{last_address}
use kube_ovn_global_vpc.SiteConfig.Prefix.Laws.{NoLinkLocal, prefix-IsNetwork, between-IsHost}
use kube_ovn_global_vpc.ManagedGateway.Types.{Settings, AllocationRegistry}
use kube_ovn_global_vpc.ManagedGateway.Decode.Laws.{IsRegistry}
use kube_ovn_global_vpc.ManagedGateway.Reserve.{
  Reservation, kept, reserved, address_taken, port_taken, free_port, free_address, free_in,
  new_port, port_claim, reserve_port, new_address, address_claim, reserve_address, reserve,
}
use kube_ovn_global_vpc.ManagedGateway.Reserve.Laws.{
  free_port-IsFirst, free_port-none, free_address-IsFirst, free_address-none,
}
use kube_ovn_global_vpc.ManagedGateway.Reserve.Keeps.{
  Retains, network, address-IsRegistry, port-IsRegistry,
}

-- the registry holds this value for the claim of a request
abbrev pub Holds : AllocationRegistry → String → Bool → String → String → Type 0
Holds reg key true node v =
    (n : ℕ) × (find (node ⧺ "/" ⧺ key) reg.ports ≡ some n) × (number_text n ≡ v)
Holds reg key false node v = find key reg.addresses ≡ some v

-- What a request gets from a registry: a value that it holds, or a new registry with one.
pub data Gets (s : Settings) (pool : Prefix) (key : String) (port : Bool) (node : String)
    (reg : AllocationRegistry) : Reservation → Type 0 where
  gets_kept : {v : String} → Holds reg key port node v → Gets s pool key port node reg (kept v)
  gets_new :
      {reg' : AllocationRegistry} {v : String}
      → IsRegistry s pool reg'
      → Retains reg reg'
      → Holds reg' key port node v
      → Gets s pool key port node reg (reserved reg' v)

-- a request as `allocate` admits it
abbrev pub IsRequest : String → Bool → String → Type 0
IsRequest key true node = (key ≢ "") × (node ≢ "") × (cut_slash node ≡ none)
IsRequest key false node = key ≢ ""

find_new : {V : Type 0} (k : String) (v : V) (m : Map V) → find k (put k v m) ≡ some v
find_new k v m = rw (find-put, eq_refl) refl

retained :
    {V : Type 0} (k j : String) (v : V) (m : Map V) {w : V}
    → find k m ≡ none
    → find j m ≡ some w
    → find j (put k v m) ≡ some w
retained k j v m new h = rw (put_new k v m new) (find-append j m ((k, v) ∷ []) h)

module _ (s : Settings) (pool : Prefix) (reg : AllocationRegistry) (r : IsRegistry s pool reg) where
  pool_parsed : parse_prefix s.allocation_pool ≡ some pool
  pool_parsed =
      let (n, text) = (prefix-IsNetwork s.allocation_pool).0 r.pooled in
      ap parse_prefix (sym text) ∙ parse_prefix-prefix_text pool n.in_range (omega (arith, n.large))

  module _ (node key : String) (q : IsRequest key true node) where
    new_port-Gets :
        (o : Option ℕ)
        → free_port s node reg.ports ≡ o
        → find (node ⧺ "/" ⧺ key) reg.ports ≡ none
        → text_at key reg.addresses ≢ ""
        → {out : Reservation} → new_port (node ⧺ "/" ⧺ key) reg o ≡ ok out
        → Gets s pool key true node reg out
    unfolding new_port
    new_port-Gets none found new linked h = absurd (cc h)
    new_port-Gets (some v) found new linked h =
        let (low, high, free, _) = free_port-IsFirst s node reg.ports found in
        let claim : String = node ⧺ "/" ⧺ key in
        subst (Gets s pool key true node reg) (ok-injective h) (
          gets_new (port-IsRegistry s pool reg r node key v q.1 q.0 q.2 linked new low high free)
            (record {
              same_cluster = refl;
              addresses = λ k e. e;
              ports = λ k e. retained claim k v reg.ports new e;
            })
            (v, find_new claim v reg.ports, refl))

    port_claim-Gets :
        (o : Option ℕ)
        → find (node ⧺ "/" ⧺ key) reg.ports ≡ o
        → text_at key reg.addresses ≢ ""
        → {out : Reservation} → port_claim s node (node ⧺ "/" ⧺ key) reg o ≡ ok out
        → Gets s pool key true node reg out
    unfolding port_claim
    port_claim-Gets none found linked h =
        new_port-Gets (free_port s node reg.ports) refl found linked h
    port_claim-Gets (some v) found linked h =
        subst (Gets s pool key true node reg) (ok-injective h) (gets_kept (v, found, refl))

    reserve_port-Gets :
        {out : Reservation}
        → reserve_port s node key reg ≡ ok out
        → Gets s pool key true node reg out
    unfolding reserve_port
    reserve_port-Gets h =
        let (linked, rest) =
          reject-eq-ok (text_at key reg.addresses == "") _
            (port_claim s node (node ⧺ "/" ⧺ key) reg (find (node ⧺ "/" ⧺ key) reg.ports)) h in
        port_claim-Gets (find (node ⧺ "/" ⧺ key) reg.ports) refl (text_ne _ _ linked) rest

  module _ (key node : String) (named : key ≢ "") (clean : NoLinkLocal pool) where
    new_address-Gets :
        (o : Option ℕ)
        → free_address pool reg.addresses ≡ o
        → find key reg.addresses ≡ none
        → {out : Reservation} → new_address key reg o ≡ ok out
        → Gets s pool key false node reg out
    unfolding new_address
    new_address-Gets none found new h = absurd (cc h)
    new_address-Gets (some ip) found new h =
        let (low, high, free, _) =
          free_address-IsFirst pool (network s pool reg r) reg.addresses found in
        subst (Gets s pool key false node reg) (ok-injective h) (
          gets_new
            (address-IsRegistry s pool reg r key ip named new
              (between-IsHost pool ip (network s pool reg r) clean low high) free)
            (record {
              same_cluster = refl;
              addresses = λ k e. retained key k (addr_text ip) reg.addresses new e;
              ports = λ k e. e;
            })
            (find_new key (addr_text ip) reg.addresses))

    address_claim-Gets :
        (o : Option String)
        → find key reg.addresses ≡ o
        → {out : Reservation} → address_claim s key reg o ≡ ok out
        → Gets s pool key false node reg out
    unfolding address_claim free_in
    address_claim-Gets none found h =
        new_address-Gets (free_address pool reg.addresses) refl found (rw pool_parsed at h)
    address_claim-Gets (some v) found h =
        subst (Gets s pool key false node reg) (ok-injective h) (gets_kept found)

  -- A request that gets a value from a valid registry, whose pool has no link-local address, gets the
  -- one that is retained for it, or a new one in a registry that is valid again, so that no other
  -- claim has its address or, at its node, its port, and that retains every earlier claim.
  pub reserve-Gets :
      (key : String) (port : Bool) (node : String)
      → IsRequest key port node
      → NoLinkLocal pool
      → {out : Reservation} → reserve s key port node reg ≡ ok out
      → Gets s pool key port node reg out
  unfolding reserve reserve_address
  reserve-Gets key true node q clean h = reserve_port-Gets node key q h
  reserve-Gets key false node q clean h =
      address_claim-Gets key node q clean (find key reg.addresses) refl h

  -- What is true of a registry that refuses a request: a port's link has no retained address, or
  -- every port of the range is retained at the node, or every host of the pool is retained.
  abbrev pub NothingLeft : String → Bool → String → Type 0
  NothingLeft key true node =
      (text_at key reg.addresses ≡ "")
      ⊎ ((v : ℕ) → s.port_start ≤ v → v ≤ s.port_end → port_taken node reg.ports v ≡ true)
  NothingLeft key false node =
      (ip : ℕ) → pool.addr < ip → ip < last_address pool → address_taken reg.addresses ip ≡ true

  port_claim_refused :
      (node claim : String) (o : Option ℕ) (p : Option ℕ)
      → free_port s node reg.ports ≡ p
      → {e : Error} → port_claim s node claim reg o ≡ err e
      → p ≡ none
  unfolding port_claim new_port
  port_claim_refused node claim (some v) p found h = absurd (cc h)
  port_claim_refused node claim none none found h = refl
  port_claim_refused node claim none (some v) found h = absurd (cc (rw found at h))

  address_claim_refused :
      (key : String) (o : Option String) (p : Option ℕ)
      → free_address pool reg.addresses ≡ p
      → {e : Error} → address_claim s key reg o ≡ err e
      → p ≡ none
  unfolding address_claim new_address free_in
  address_claim_refused key (some v) p found h = absurd (cc h)
  address_claim_refused key none none found h = refl
  address_claim_refused key none (some v) found h = absurd (cc (rw (pool_parsed, found) at h))

  -- A valid registry refuses a request only where nothing is left for it: the fuel of the loops over
  -- ports and addresses is enough for all of them.
  pub reserve-NothingLeft :
      (key : String) (port : Bool) (node : String) {e : Error}
      → reserve s key port node reg ≡ err e
      → NothingLeft key port node
  unfolding reserve reserve_address reserve_port
  reserve-NothingLeft key true node {e} h = elim (Bool-cases (text_at key reg.addresses == "")) [
    | inl unlinked ↦ inl (text_eq _ _ unlinked)
    | inr linked ↦
        let claim : String = node ⧺ "/" ⧺ key in
        let refused : port_claim s node claim reg (find claim reg.ports) ≡ err e = rw linked at h in
        inr (
          free_port-none s node reg.ports (
            port_claim_refused node claim (find claim reg.ports) (free_port s node reg.ports) refl
              refused))
  ]
  reserve-NothingLeft key false node h =
      free_address-none pool (network s pool reg r) reg.addresses (
        address_claim_refused key (find key reg.addresses) (free_address pool reg.addresses) refl h)
