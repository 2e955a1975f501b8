-- ===== src/ManagedGateway/Allocate/Laws.antt =====
-- What an allocation ensures, whatever the API answers and others do between its calls.
use kube_ovn_global_vpc.Prelude.{
  ℕ, String, Bool, true, false, ◌&&◌, ◌||◌, Option, none, some, [], ◌==◌, ◌≡◌, inl, inr, refl, sym,
  ◌∙◌, subst, Bool-cases, Result, ok, err, Error, ok-injective, text_ne, or-false,
}
use kube_ovn_global_vpc.Netip.Parse.{cut_slash}
use kube_ovn_global_vpc.Netip.Prefix.{Prefix}
use kube_ovn_global_vpc.SiteConfig.Prefix.{prefix}
use kube_ovn_global_vpc.SiteConfig.Prefix.Laws.{NoLinkLocal}
use kube_ovn_global_vpc.Kube.Client.{
  ConfigMap, Program, done, on_ok, Server, IsServer, Updates, Ensures,
}
use kube_ovn_global_vpc.Kube.Ensures.{bind-Ensures, on_ok-Ensures, Repeats, Repeats-Ensures}
use kube_ovn_global_vpc.Kube.Retained.{Rewrites, same-Keeps, update-Stored, update-Keeps}
use kube_ovn_global_vpc.ManagedGateway.Types.{
  Settings, AllocationRegistry, Codec, registry_name, store_registry,
}
use kube_ovn_global_vpc.ManagedGateway.Decode.{decode_registry}
use kube_ovn_global_vpc.ManagedGateway.Decode.Laws.{IsRegistry, check_registry-IsRegistry}
use kube_ovn_global_vpc.ManagedGateway.Decode.RoundTrip.{
  IsCodec, decode_registry-IsAccepted, decode_registry-store_registry,
}
use kube_ovn_global_vpc.ManagedGateway.Reserve.{Reservation, kept, reserved, reserve}
use kube_ovn_global_vpc.ManagedGateway.Reserve.Keeps.{Retains}
use kube_ovn_global_vpc.ManagedGateway.Reserve.Outcome.{
  Holds, Gets, gets_kept, gets_new, IsRequest, reserve-Gets,
}
use kube_ovn_global_vpc.ManagedGateway.Registry.{Lists, Found, registry}
use kube_ovn_global_vpc.ManagedGateway.Registry.Laws.{
  Retains_refl, StoredRegistry, KeepsClaims, Confirmed, IsRead, registry-KeepsClaims,
}
use kube_ovn_global_vpc.ManagedGateway.Allocate.{write, on_found, attempt, has_slash, allocate}

module _ (server : Server) (laws : IsServer server) (codec : Codec) (law : IsCodec codec)
    (s : Settings)
    (clean : (pool : Prefix) → prefix s.allocation_pool ≡ ok pool → NoLinkLocal pool) where
  -- A value that is granted was held for the request by the registry in an earlier state.
  pub record Held (key : String) (port : Bool) (node : String) (v : String) (w : server.World)
      : Type 0 where
    pub earlier : server.World
    pub since : server.Later earlier w
    pub cm : ConfigMap
    pub reg : AllocationRegistry
    pub stored : StoredRegistry server laws codec s earlier cm reg
    pub held : Holds reg key port node v

  abbrev pub Granted : String → Bool → String → Result String → server.World → Type 0
  Granted key port node r w = (v : String) → r ≡ ok v → Held key port node v w

  module _ (key : String) (port : Bool) (node : String) where
    abbrev Safe : Program (Result String) → server.World → Type 0
    Safe = Ensures server (KeepsClaims server laws codec s) (Granted key port node)

    failed : (e : Error) (w : server.World) → Safe (done (err e)) w
    unfolding Ensures
    failed e w v h = absurd (cc h)

    module _ (found : Found) (cm : ConfigMap) (reg : AllocationRegistry) (w : server.World)
        (c : Confirmed server laws codec s [] found cm reg w) where
      rewrites :
          (reg' : AllocationRegistry)
          → Rewrites server laws s.namespace registry_name
              (decode_registry codec s)
              Retains
              Retains_refl
              cm
              (store_registry codec cm reg')
      unfolding store_registry
      rewrites reg' = record { same_namespace = refl; same_name = refl; same_version = refl }

      -- a valid registry that is written is accepted from then on
      after_update :
          (reg' : AllocationRegistry) (pool : Prefix) (w₁ w₂ : server.World)
          → IsRegistry s pool reg'
          → server.Later w w₁
          → (u : Updates server (store_registry codec cm reg') w₁ w₂)
          → StoredRegistry server laws codec s w₂ u.out reg'
      after_update reg' pool w₁ w₂ valid later u =
          let a = decode_registry-IsAccepted codec s cm c.accepted in
          update-Stored server laws s.namespace registry_name (decode_registry codec s) Retains
            Retains_refl cm (store_registry codec cm reg') reg reg' w w₁ w₂ c.read c.accepted
            (rewrites reg') later u
            (λ out stored uid.
              decode_registry-store_registry codec s law cm out pool reg' a.labelled stored
                (λ e. a.identified (sym uid ∙ e)) valid)

      update_claims :
          (reg' : AllocationRegistry) (pool : Prefix) (w₁ w₂ : server.World)
          → IsRegistry s pool reg'
          → Retains reg reg'
          → server.Later w w₁
          → Updates server (store_registry codec cm reg') w₁ w₂
          → KeepsClaims server laws codec s w₁ w₂
      update_claims reg' pool w₁ w₂ valid retains later u =
          update-Keeps server laws s.namespace registry_name (decode_registry codec s) Retains
            Retains_refl cm (store_registry codec cm reg') reg reg' w w₁ w₂ c.read c.accepted
            (rewrites reg') later u (after_update reg' pool w₁ w₂ valid later u) retains

      reserved-Safe :
          (reg' : AllocationRegistry) (v : String) (pool : Prefix)
          → IsRegistry s pool reg'
          → Retains reg reg'
          → Holds reg' key port node v
          → Safe (write codec cm (reserved reg' v)) w
      unfolding write Ensures on_ok
      reserved-Safe reg' v pool valid retains held w₁ w₂ (ok out) later h =
          let u = laws.updated (store_registry codec cm reg') out w₁ w₂ h in
          (
            update_claims reg' pool w₁ w₂ valid retains later u,
            (λ v' e. record {
              earlier = w₂;
              since = laws.later_refl w₂;
              cm = u.out;
              reg = reg';
              stored = after_update reg' pool w₁ w₂ valid later u;
              held = subst (Holds reg' key port node) (ok-injective e) held;
            }),
          )
      reserved-Safe reg' v pool valid retains held w₁ w₂ (err e) later h = (
        elim (laws.update_failed (store_registry codec cm reg') e w₁ w₂ h) [
          | inl same ↦
              same-Keeps server laws s.namespace registry_name (decode_registry codec s) Retains
                Retains_refl w₁ w₂ same
          | inr u ↦ update_claims reg' pool w₁ w₂ valid retains later u
        ],
        failed e w₂,
      )

      write-Safe :
          (out : Reservation) (pool : Prefix)
          → Gets s pool key port node reg out
          → Safe (write codec cm out) w
      write-Safe (kept v) pool (gets_kept held) =
          unfold write Ensures in
          λ v' h. record {
            earlier = c.read.earlier;
            since = c.read.since;
            cm = cm;
            reg = reg;
            stored = record { present = c.read.present; accepted = c.accepted };
            held = subst (Holds reg key port node) (ok-injective h) held;
          }
      write-Safe (reserved reg' v) pool (gets_new valid retains held) =
          reserved-Safe reg' v pool valid retains held

    module _ (q : IsRequest key port node) where
      on_found-Safe :
          (lists : Lists) (r : Option (ConfigMap × AllocationRegistry)) (w : server.World)
          → IsRead server laws codec s [] lists (ok r) w
          → Safe (on_found codec s key port node r) w
      unfolding on_found
      on_found-Safe lists none w h = failed _ w
      on_found-Safe lists (some (cm, reg)) w h =
          let (found, _, c) = h cm reg refl in
          let checked = (decode_registry-IsAccepted codec s cm c.accepted).checked in
          let (pool, valid) = (check_registry-IsRegistry s reg).0 checked in
          on_ok-Ensures server (KeepsClaims server laws codec s) (Granted key port node)
            (write codec cm) (reserve s key port node reg) w (λ e v k. absurd (cc k))
            (λ out e.
              write-Safe found cm reg w c out pool
                (reserve-Gets s pool reg valid key port node q (clean pool valid.pooled) e))

      result-Safe :
          (lists : Lists) (r : Result (Option (ConfigMap × AllocationRegistry))) (w : server.World)
          → IsRead server laws codec s [] lists r w
          → Safe (on_ok (on_found codec s key port node) r) w
      unfolding on_ok
      result-Safe lists (ok r) w h = on_found-Safe lists r w h
      result-Safe lists (err e) w h = failed e w

      attempt-Safe :
          (lists : Lists) (w : server.World) → Safe (attempt codec s key port node lists) w
      unfolding attempt
      attempt-Safe lists w =
          bind-Ensures server (KeepsClaims server laws codec s)
            (IsRead server laws codec s [] lists) (Granted key port node)
            (registry codec s true [] lists) (on_ok (on_found codec s key port node)) w
            (registry-KeepsClaims server laws codec s true [] lists w)
            (λ r w' h. result-Safe lists r w' h)

  request :
      (key : String) (port : Bool) (node : String)
      → (key == "" || (port && (node == "" || has_slash (cut_slash node)))) ≡ false
      → IsRequest key port node
  request key true node h =
      let (named, rest) = or-false (key == "") (node == "" || has_slash (cut_slash node)) h in
      let (of_node, clean) = or-false (node == "") (has_slash (cut_slash node)) rest in
      (text_ne key "" named, text_ne node "" of_node, uncut (cut_slash node) refl clean)
    where
      uncut :
          (o : Option (String × String))
          → cut_slash node ≡ o
          → has_slash o ≡ false
          → cut_slash node ≡ none
      uncut none e k = e
      uncut (some p) e k = absurd (cc k)
  request key false node h = text_ne key "" (or-false (key == "") false h).0

  -- Where the allocation pool has no link-local address: whatever the API answers and others do between
  -- the calls, however often a conflict is retried, no call of an allocation loses a claim of a stored
  -- registry; and where it returns an address or a port, an accepted registry has held it, stored, for
  -- the request.
  pub allocate-KeepsClaims :
      (retry : (ℕ → Program (Result String)) → Program (Result String))
      → ((attempts : ℕ → Program (Result String)) → Repeats attempts 0 (retry attempts))
      → (key : String) (port : Bool) (node : String) (lists : ℕ → Lists) (w : server.World)
      → Ensures server
          (KeepsClaims server laws codec s)
          (Granted key port node)
          (allocate retry codec s key port node lists)
          w
  unfolding allocate
  allocate-KeepsClaims retry repeats key port node lists w =
      elim (Bool-cases (key == "" || (port && (node == "" || has_slash (cut_slash node))))) [
        | inl bad ↦ rw bad (failed key port node _ w)
        | inr good ↦ rw good (
            Repeats-Ensures server (KeepsClaims server laws codec s) (Granted key port node)
              (λ i. attempt codec s key port node (lists i))
              (λ i v. attempt-Safe key port node (request key port node good) (lists i) v) 0
              (retry (λ i. attempt codec s key port node (lists i)))
              (repeats (λ i. attempt codec s key port node (lists i))) w)
      ]
