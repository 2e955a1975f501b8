-- ===== src/NetworkId/Correct.antt =====
-- The part of `networkIDs` behind its checks, whatever the server answers.
use kube_ovn_global_vpc.Prelude.{
  ℕ, ◌+◌, ◌≤◌, ◌<◌, String, Option, none, some, List, [], ◌∷◌, Map, find, put, ◌⊎◌, is_empty,
  is_empty-true, length, ltb, ◌≡◌, refl, subst, inl, inr, arith, Bool-cases, Result, ok, err, Error,
  invalid, ok-injective, sort_by, ltb→le,
}
use kube_ovn_global_vpc.Kube.Client.{ConfigMap, Call, Answer, done, call, Server, Ensures}
use kube_ovn_global_vpc.NetworkId.Scan.{Codec, Scan, no_claims, max_network_id, scan}
use kube_ovn_global_vpc.NetworkId.Ledger.{scan-IsLedger}
use kube_ovn_global_vpc.NetworkId.Reserve.{
  missing, numbers, split, assign, requests, unique, shards_of,
}
use kube_ovn_global_vpc.NetworkId.Distinct.{IsAssignment, numbers-IsAssignment}
use kube_ovn_global_vpc.NetworkId.Allocate.{
  Outcome, claims_at, and_then, publish, create_shards, advance, reserve, unclaimed, add_claims,
}

-- The listed objects are an accepted ledger, and the result is an assignment for the keys above it.
pub record Allocated (codec : Codec) (keys : List String) (items : List ConfigMap) (result : Map ℕ)
    : Type 0 where
  pub state : Scan
  pub scanned : scan codec no_claims items ≡ ok state
  pub next : ℕ
  pub assignment : IsAssignment codec state next keys result

object_cases : (o : Option ConfigMap) → (o ≡ none) ⊎ ((cm : ConfigMap) × (o ≡ some cm))
object_cases none = inl refl
object_cases (some cm) = inr (cm, refl)

module _ (s : Server) (codec : Codec) (keys : List String) (items : List ConfigMap) where
  -- the result is as above, if there is one
  abbrev pub Good : Outcome → s.World → Type 0
  Good =
      Ensures s (λ _ _. Unit {0})
        (λ r _. (result : Map ℕ) → r ≡ ok result → Allocated codec keys items result)

  pub failed : (e : Error) (w : s.World) → Good (done (err e)) w
  unfolding Ensures
  failed e w result h = absurd (cc h)

  returned :
      (result : Map ℕ) (w : s.World) → Allocated codec keys items result → Good (done (ok result)) w
  unfolding Ensures
  returned result w a other h = subst (Allocated codec keys items) (ok-injective h) a

  pub called :
      (c : Call) (k : Answer c → Outcome) (w : s.World)
      → ((answer : Answer c) (w' : s.World) → Good (k answer) w')
      → Good (call c k) w
  unfolding Ensures
  called c k w good w₁ w₂ answer later h = (tt, good answer w₂)

  pub and_then-Good :
      {A : Type 0} (k : A → Outcome) (r : Result A) (w : s.World)
      → ((a : A) → r ≡ ok a → Good (k a) w)
      → Good (and_then k r) w
  unfolding and_then
  and_then-Good k (ok a) w good = good a refl
  and_then-Good k (err e) w good = failed e w

  publish-Good :
      (objects : Map ConfigMap) (claims : Map (Map ℕ)) (known : List String) (result : Map ℕ)
      (shards : List String) (w : s.World)
      → Allocated codec keys items result
      → Good (publish codec objects claims known result shards) w
  unfolding publish
  publish-Good objects claims known result [] w a = returned result w a
  publish-Good objects claims known result (shard ∷ shards) w a =
      let ids = claims_at (find shard claims) in
      elim (Bool-cases (is_empty (unclaimed codec shard ids known))) [
        | inl e ↦ rw e (publish-Good objects claims known result shards w a)
        | inr e ↦
            elim (Bool-cases (
              ltb 900000
                (codec.encoded_length (add_claims result (unclaimed codec shard ids known) ids)))) [
                  | inl large ↦
                      rw (e, large) (failed (invalid "network ID claim shard capacity exceeded") w)
                  | inr fits ↦ elim (object_cases (find shard objects)) [
                    | inl lost ↦ rw (e, fits, lost) (failed (invalid "nil pointer dereference") w)
                    | inr (cm, found) ↦
                        rw (e, fits, found)
                          (called _
                            (and_then (λ _. publish codec objects claims known result shards)) w
                            (λ answer w'.
                              and_then-Good (λ _. publish codec objects claims known result shards)
                                answer w'
                                (λ _ _. publish-Good objects claims known result shards w' a)))
                  ]
                ]
      ]

  create_shards-Good :
      (namespace : String) (next : Map ConfigMap → Map (Map ℕ) → Outcome) (shards : List String)
      → ((objects : Map ConfigMap) (claims : Map (Map ℕ)) (w : s.World)
          → Good (next objects claims) w)
      → (objects : Map ConfigMap) (claims : Map (Map ℕ)) (w : s.World)
      → Good (create_shards namespace next objects claims shards) w
  unfolding create_shards
  create_shards-Good namespace next [] good objects claims w = good objects claims w
  create_shards-Good namespace next (shard ∷ shards) good objects claims w =
      let later : ConfigMap → Outcome =
        λ cm. create_shards namespace next (put shard cm objects) (put shard [] claims) shards in
      elim (object_cases (find shard objects)) [
        | inr (cm, found) ↦
            rw (create_shards, found)
              (create_shards-Good namespace next shards good objects claims w)
        | inl lost ↦
            rw (create_shards, lost)
              (called _ (and_then later) w (λ answer w'. and_then-Good later answer w' (λ cm _.
                create_shards-Good namespace next shards good (put shard cm objects)
                  (put shard [] claims) w')))
      ]

  advance-Good :
      (st : Scan) (next : ℕ) (seq : ConfigMap) (objects : Map ConfigMap) (claims : Map (Map ℕ))
      (w : s.World)
      → Allocated codec keys items (numbers codec st next keys)
      → Good (advance codec st next seq keys objects claims) w
  unfolding advance
  advance-Good st next seq objects claims w a =
      let last : Outcome =
        publish codec objects claims (unique [] keys) (numbers codec st next keys)
          (shards_of codec (unique [] keys)) in
      called _ (and_then (λ _. last)) w (λ answer w'.
        and_then-Good (λ _. last) answer w'
          (λ _ _.
            publish-Good objects claims (unique [] keys) (numbers codec st next keys)
              (shards_of codec (unique [] keys)) w' a))

  pub reserve-Good :
      (namespace : String) (st : Scan) (next : ℕ) (seq : ConfigMap) (w : s.World)
      → scan codec no_claims items ≡ ok st
      → st.highest < next
      → next ≤ max_network_id + 1
      → Good (reserve codec namespace st next seq keys) w
  reserve-Good namespace st next seq w scanned above top =
      let ledger = scan-IsLedger codec items scanned in
      elim (Bool-cases (is_empty (missing codec st keys))) [
        | inl e ↦
            let nothing : missing codec st keys ≡ [] = is_empty-true (missing codec st keys) e in
            let same : numbers codec st next keys ≡ (split st.claims (requests codec keys)).0 =
              unfold numbers assign sort_by in rw nothing refl in
            let few : next + length (missing codec st keys) ≤ max_network_id + 1 =
              rw nothing (omega (arith, top)) in
            unfold reserve in
            rw e (
              returned (split st.claims (requests codec keys)).0 w (
                subst (Allocated codec keys items) same (record {
                  state = st;
                  scanned = scanned;
                  next = next;
                  assignment = numbers-IsAssignment codec st ledger next keys above few;
                })))
        | inr e ↦
            elim (Bool-cases (ltb (max_network_id + 1) (next + length (missing codec st keys)))) [
              | inl full ↦
                  unfold reserve in
                  rw (e, full) (failed (invalid "network ID sequence exhausted") w)
              | inr room ↦
                  let a : Allocated codec keys items (numbers codec st next keys) = record {
                    state = st;
                    scanned = scanned;
                    next = next;
                    assignment =
                        numbers-IsAssignment codec st ledger next keys above (ltb→le _ _ room);
                  } in
                  unfold reserve in
                  rw (e, room)
                    (create_shards-Good namespace (advance codec st next seq keys)
                      (shards_of codec (unique [] keys))
                      (λ objects claims w'. advance-Good st next seq objects claims w' a) st.objects
                      st.claims w)
            ]
      ]
