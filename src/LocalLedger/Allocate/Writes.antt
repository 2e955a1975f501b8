-- ===== src/LocalLedger/Allocate/Writes.antt =====
-- What the writes of an allocation keep: the update of the ledger and the receipt of the binding.
use kube_ovn_global_vpc.Prelude.{
  String, not, Option, none, some, List, [], ◌∷◌, Map, find, find-put, text_at, text_at-put,
  text_at-put_other, any, ◌==◌, eq_refl, text_eq, not-false, ◌≡◌, inl, inr, refl, sym, ◌∙◌, ap,
  subst, Bool-cases, All, Result, ok, err, Error, ok-injective, some_eq,
}
use kube_ovn_global_vpc.Kube.Client.{
  ConfigMap, done, on_ok, Server, IsServer, Updates, Ensures, StoredAs,
}
use kube_ovn_global_vpc.Kube.Ensures.{on_ok-Ensures}
use kube_ovn_global_vpc.Kube.Retained.{
  Stored, Keeps, Read, Rewrites, frame-Keeps, same-Keeps, update-Stored, update-Keeps,
}
use kube_ovn_global_vpc.Binding.{NetworkBinding}
use kube_ovn_global_vpc.LocalConfig.{Config}
use kube_ovn_global_vpc.LocalLedger.{Allocation, AllocatorState, decoded}
use kube_ovn_global_vpc.LocalLedger.Laws.{IsRetained}
use kube_ovn_global_vpc.LocalLedger.Receipts.{receipt_of, owner_of}
use kube_ovn_global_vpc.LocalLedger.Choose.{choose}
use kube_ovn_global_vpc.LocalLedger.Choose.Fresh.{HasPools, NoLinkLocalPools, choose-IsRetained}
use kube_ovn_global_vpc.LocalLedger.Allocate.{
  Tools, Outcome, ledger_name, write_allocation_state, with_receipt, with_allocation, commit, claim,
  confirm, confirmed,
}

-- An owner keeps its allocation and the identity of its binding.
abbrev pub Retains : AllocatorState → AllocatorState → Type 0
Retains st st' =
    (owner : String) (a : Allocation)
    → find owner st.allocations ≡ some a
    → (find owner st'.allocations ≡ some a)
      × (text_at owner st'.binding_uids ≡ text_at owner st.binding_uids)

pub Retains_refl : (st : AllocatorState) → Retains st st
Retains_refl st owner a h = (h, refl)

-- the state in an object
abbrev pub read_state : Tools → ConfigMap → Result AllocatorState
read_state t cm = decoded (t.codec.decode (text_at "state.json" cm.values))

-- what holds of all entries holds of one that is found
All-find :
    {V : Type 0} (P : String × V → Type 0) (k : String) (m : Map V) {v : V}
    → All P m
    → find k m ≡ some v
    → P (k, v)
unfolding find
All-find P k [] all h = absurd (cc h)
All-find P k ((j, x) ∷ m) {v} all h = elim (Bool-cases (j == k)) [
  | inl e ↦
      let same : x ≡ v = some_eq (rw e at h) in
      subst (λ y. P (k, y)) same (subst (λ i. P (i, x)) (text_eq j k e) all.0)
  | inr e ↦ All-find P k m all.1 (rw e at h)
]

-- an owner without an allocation gets one, and the others keep theirs
with_allocation-Retains :
    (st : AllocatorState) (b : NetworkBinding) (a : Allocation)
    → find (owner_of b) st.allocations ≡ none
    → Retains st (with_allocation st b a)
unfolding with_allocation
with_allocation-Retains st b a new owner old h = elim (Bool-cases (owner_of b == owner)) [
  | inl e ↦
      let same : find owner st.allocations ≡ none =
        subst (λ k. find k st.allocations ≡ none) (text_eq _ _ e) new in
      absurd (cc (sym same ∙ h))
  | inr e ↦ (rw (find-put, e) h, text_at-put_other (owner_of b) owner b.uid st.binding_uids e)
]

module _ (server : Server) (laws : IsServer server) (t : Tools)
    (law : (st : AllocatorState) → t.codec.decode (t.encode st) ≡ some st) (c : Config)
    (p : HasPools c) (unlinked : NoLinkLocalPools c p) (b : NetworkBinding) where
  abbrev pub StoredLedger : server.World → ConfigMap → AllocatorState → Type 0
  StoredLedger = Stored server laws c.namespace ledger_name (read_state t) Retains Retains_refl

  -- A move that keeps every allocation of a stored ledger for its owner and its binding.
  abbrev pub KeepsAllocations : server.World → server.World → Type 0
  KeepsAllocations = Keeps server laws c.namespace ledger_name (read_state t) Retains Retains_refl

  abbrev pub ReadLedger : ConfigMap → server.World → Type 0
  ReadLedger = Read server laws c.namespace ledger_name (read_state t) Retains Retains_refl

  -- The stored ledger of an earlier state has the allocation for the binding, and it is valid.
  pub record Allocated (a : Allocation) (w : server.World) : Type 0 where
    pub earlier : server.World
    pub since : server.Later earlier w
    pub cm : ConfigMap
    pub state : AllocatorState
    pub stored : StoredLedger earlier cm state
    pub held : find (owner_of b) state.allocations ≡ some a
    pub bound : text_at (owner_of b) state.binding_uids ≡ b.uid
    pub valid : IsRetained c [] [] (owner_of b, a)

  abbrev pub IsAllocated : Result Allocation → server.World → Type 0
  IsAllocated r w = (a : Allocation) → r ≡ ok a → Allocated a w

  abbrev pub Safe : Outcome → server.World → Type 0
  Safe = Ensures server KeepsAllocations IsAllocated

  pub failed : (e : Error) (w : server.World) → Safe (done (err e)) w
  unfolding Ensures
  failed e w a h = absurd (cc h)

  returned : (a : Allocation) (w : server.World) → Allocated a w → Safe (done (ok a)) w
  unfolding Ensures
  returned a w h a' e = subst (λ x. Allocated x w) (ok-injective e) h

  moved-Allocated :
      (a : Allocation) (w w' : server.World) → Allocated a w → server.Later w w' → Allocated a w'
  moved-Allocated a w w' h later = record {
    earlier = h.earlier;
    since = laws.later_trans h.earlier w w' h.since later;
    cm = h.cm;
    state = h.state;
    stored = h.stored;
    held = h.held;
    bound = h.bound;
    valid = h.valid;
  }

  -- the receipt changes the binding only
  with_receipt-Safe :
      (cm : ConfigMap) (a : Allocation) (w : server.World)
      → Allocated a w
      → Safe (with_receipt t c b cm a) w
  unfolding with_receipt
  with_receipt-Safe cm a w h = elim (Bool-cases (receipt_of b == "")) [
    | inr e ↦ rw e (returned a w h)
    | inl e ↦ rw e (
        unfold Ensures in
        λ w₁ w₂ answer later answered. (
          frame-Keeps server laws c.namespace ledger_name (read_state t) Retains Retains_refl w₁ w₂
              (laws.binding_only _ w₁ w₂ answer answered c.namespace ledger_name),
          on_ok-Ensures server KeepsAllocations IsAllocated (λ _. done (ok a)) answer w₂
              (λ problem x k. absurd (cc k))
              (λ _ _. returned a w₂ (
                moved-Allocated a w w₂ h
                  (laws.later_trans w w₁ w₂ later (laws.later_step _ w₁ w₂ answer answered)))),
        ))
  ]

  module _ (cm : ConfigMap) (st : AllocatorState) (w : server.World) (read : ReadLedger cm w)
      (state : read_state t cm ≡ ok st) (all : All (IsRetained c [] []) st.allocations) where
    rewrites :
        (new : AllocatorState)
        → Rewrites server laws c.namespace ledger_name
            (read_state t)
            Retains
            Retains_refl
            cm
            (write_allocation_state t cm new)
    unfolding write_allocation_state
    rewrites new = record { same_namespace = refl; same_name = refl; same_version = refl }

    written :
        (new : AllocatorState) (out : ConfigMap)
        → StoredAs (write_allocation_state t cm new) out
        → read_state t out ≡ ok new
    unfolding write_allocation_state
    written new out stored =
        let values : text_at "state.json" out.values ≡ t.encode new =
          ap (λ (x : ConfigMap). text_at "state.json" x.values) stored ∙ (unfold text_at in refl) in
        rw (values, law) (unfold decoded in refl)

    module _ (a : Allocation) (new : find (owner_of b) st.allocations ≡ none)
        (valid : IsRetained c [] [] (owner_of b, a)) where
      after_update :
          (w₁ w₂ : server.World)
          → server.Later w w₁
          → (u : Updates server (write_allocation_state t cm (with_allocation st b a)) w₁ w₂)
          → StoredLedger w₂ u.out (with_allocation st b a)
      after_update w₁ w₂ later u =
          update-Stored server laws c.namespace ledger_name (read_state t) Retains Retains_refl cm
            (write_allocation_state t cm (with_allocation st b a)) st (with_allocation st b a) w w₁
            w₂ read state (rewrites (with_allocation st b a)) later u
            (λ out stored _. written (with_allocation st b a) out stored)

      update_allocations :
          (w₁ w₂ : server.World)
          → server.Later w w₁
          → Updates server (write_allocation_state t cm (with_allocation st b a)) w₁ w₂
          → KeepsAllocations w₁ w₂
      update_allocations w₁ w₂ later u =
          update-Keeps server laws c.namespace ledger_name (read_state t) Retains Retains_refl cm
            (write_allocation_state t cm (with_allocation st b a)) st (with_allocation st b a) w w₁
            w₂ read state (rewrites (with_allocation st b a)) later u (after_update w₁ w₂ later u)
            (with_allocation-Retains st b a new)

      given :
          (w₁ w₂ : server.World)
          → server.Later w w₁
          → Updates server (write_allocation_state t cm (with_allocation st b a)) w₁ w₂
          → Allocated a w₂
      given w₁ w₂ later u = record {
        earlier = w₂;
        since = laws.later_refl w₂;
        cm = u.out;
        state = with_allocation st b a;
        stored = after_update w₁ w₂ later u;
        held = unfold with_allocation in rw (find-put, eq_refl) refl;
        bound = unfold with_allocation in text_at-put (owner_of b) b.uid st.binding_uids;
        valid = valid;
      }

      commit-Safe : Safe (commit t c b cm st a) w
      unfolding commit Ensures on_ok
      commit-Safe w₁ w₂ (ok out) later h =
          let u = laws.updated (write_allocation_state t cm (with_allocation st b a)) out w₁ w₂ h in
          (update_allocations w₁ w₂ later u, with_receipt-Safe out a w₂ (given w₁ w₂ later u))
      commit-Safe w₁ w₂ (err e) later h = (
        elim (laws.update_failed (write_allocation_state t cm (with_allocation st b a)) e w₁ w₂ h) [
          | inl same ↦
              same-Keeps server laws c.namespace ledger_name (read_state t) Retains Retains_refl w₁
                w₂ same
          | inr u ↦ update_allocations w₁ w₂ later u
        ],
        failed e w₂,
      )

    claim-Safe :
        (o : Option Allocation)
        → find (owner_of b) st.allocations ≡ o
        → Safe (claim t c b cm st o) w
    unfolding claim
    claim-Safe (some a) found =
        elim (Bool-cases (not (text_at (owner_of b) st.binding_uids == b.uid))) [
          | inl changed ↦ rw changed (failed _ w)
          | inr same ↦ rw same (
              with_receipt-Safe cm a w (record {
                earlier = read.earlier;
                since = read.since;
                cm = cm;
                state = st;
                stored = record { present = read.present; accepted = state };
                held = found;
                bound = text_eq _ _ (not-false _ same);
                valid = All-find (IsRetained c [] []) (owner_of b) st.allocations all found;
              }))
        ]
    claim-Safe none found =
        elim (Bool-cases (any (λ (e : String × String). e.1 == b.uid) st.binding_uids)) [
          | inl taken ↦ rw taken (failed _ w)
          | inr free ↦ rw free (
              on_ok-Ensures server KeepsAllocations IsAllocated (commit t c b cm st)
                (choose c st.allocations) w (λ e a k. absurd (cc k))
                (λ a e.
                  commit-Safe a found
                    (choose-IsRetained c p st.allocations unlinked e (owner_of b) all).0))
        ]

    pub confirmed-Safe :
        (bindings : List NetworkBinding) (identity : ConfigMap)
        → Safe (confirmed t c b bindings cm st identity) w
    unfolding confirmed
    confirmed-Safe bindings identity =
        on_ok-Ensures server KeepsAllocations IsAllocated
          (λ _. claim t c b cm st (find (owner_of b) st.allocations))
          (confirm t c b bindings cm st identity) w (λ e a k. absurd (cc k))
          (λ _ _. claim-Safe (find (owner_of b) st.allocations) refl)
