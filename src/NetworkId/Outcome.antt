-- ===== src/NetworkId/Outcome.antt =====
-- What `networkIDs` returns, whatever the server answers and others do in between.
use kube_ovn_global_vpc.Prelude.{
  ℕ, ◌+◌, ◌-◌, ◌^◌, ◌≤◌, ◌<◌, String, Bool, false, not, ◌||◌, Option, none, some, List, text_at,
  ltb, leb, eqb, ◌==◌, ◌≡◌, inl, inr, arith, Bool-cases, Result, ok, err, invalid, not_found,
  already_exists, conflict, unavailable, reject-eq-ok, leb→lt, ltb→le, subst, ok-injective,
}
use kube_ovn_global_vpc.Netip.Parse.{parse_uint}
use kube_ovn_global_vpc.Kube.Client.{ConfigMap, get, call, Server}
use kube_ovn_global_vpc.NetworkId.Scan.{
  Codec, Scan, no_claims, max_network_id, scan, allocator_label,
}
use kube_ovn_global_vpc.NetworkId.Allocate.{
  Outcome, sequence_name, anchor_name, present, is_immutable, and_then, from_next, reserve,
  check_anchor, valid_next, check_sequence, on_sequence, on_anchor, on_items,
}
use kube_ovn_global_vpc.NetworkId.Correct.{Good, failed, called, and_then-Good, reserve-Good}

valid_next-bounds :
    (seq : ConfigMap) (o : Option ℕ) {next : ℕ}
    → valid_next seq o ≡ ok next
    → next ≤ max_network_id + 1
unfolding valid_next
valid_next-bounds seq none h = cc
valid_next-bounds seq (some n) {next} h =
    let (good, more) =
      reject-eq-ok
        (seq.uid == ""
          || not (text_at allocator_label seq.labels == sequence_name)
          || ltb n 1
          || ltb (max_network_id + 1) n)
        _ _ h in
    let low : n ≤ max_network_id + 1 = ltb→le _ _ (last_test (seq.uid == "") _ (ltb n 1) _ good) in
    subst (λ m. m ≤ max_network_id + 1) (ok-injective more) low
  where
    last_test : (a b c d : Bool) → (a || b || c || d) ≡ false → d ≡ false
    last_test a b c d h = ground arith

module _ (s : Server) (codec : Codec) (keys : List String) (items : List ConfigMap) where
  module _ (namespace : String) (st : Scan) (scanned : scan codec no_claims items ≡ ok st) where
    check_anchor-Good :
        (anchor : Option ConfigMap) (next : ℕ) (seq : ConfigMap) (w : s.World)
        → st.highest < next
        → next ≤ max_network_id + 1
        → Good s codec keys items (check_anchor codec namespace st anchor next seq keys) w
    unfolding check_anchor
    check_anchor-Good (some anchor) next seq w above top =
        elim (Bool-cases (text_at "sequenceUID" anchor.values == seq.uid)) [
          | inl e ↦ rw e (reserve-Good s codec keys items namespace st next seq w scanned above top)
          | inr e ↦
              rw e (failed s codec keys items (invalid "network ID sequence identity changed") w)
        ]
    check_anchor-Good none next seq w above top =
        elim (Bool-cases (not (eqb next 1) || not (eqb st.highest 0))) [
          | inl e ↦ rw e (
              failed s codec keys items
                (invalid "network ID sequence identity anchor missing for used registry") w)
          | inr e ↦
              let last : Outcome = reserve codec namespace st next seq keys in
              rw e (
                called s codec keys items _ (and_then (λ _. last)) w (λ answer w'.
                  and_then-Good s codec keys items (λ _. last) answer w'
                    (λ _ _.
                      reserve-Good s codec keys items namespace st next seq w' scanned above top)))
        ]

    check_sequence-Good :
        (anchor : Option ConfigMap) (seq : ConfigMap) (w : s.World)
        → Good s codec keys items (check_sequence codec namespace st anchor keys seq) w
    unfolding check_sequence from_next
    check_sequence-Good anchor seq w =
        and_then-Good s codec keys items (from_next codec namespace st anchor keys seq)
          (valid_next seq (parse_uint (2 ^ 32 - 1) (text_at "next" seq.values))) w
          (λ next valid. elim (Bool-cases (leb next st.highest)) [
            | inl e ↦ rw e (
                failed s codec keys items
                  (invalid "network ID sequence regressed behind retained claims") w)
            | inr e ↦ rw e (
                check_anchor-Good anchor next seq w (leb→lt _ _ e) (
                  valid_next-bounds seq (parse_uint (2 ^ 32 - 1) (text_at "next" seq.values))
                    valid))
          ])

    on_sequence-Good :
        (anchor : Option ConfigMap) (answer : Result ConfigMap) (w : s.World)
        → Good s codec keys items (on_sequence codec namespace st anchor keys answer) w
    unfolding on_sequence
    on_sequence-Good anchor (ok seq) w = check_sequence-Good anchor seq w
    on_sequence-Good anchor (err not_found) w =
        elim (Bool-cases (present anchor || not (eqb st.highest 0))) [
          | inl e ↦ rw e (
              failed s codec keys items
                (invalid "network ID sequence missing beside retained identity or claims") w)
          | inr e ↦ rw e (
              called s codec keys items _ (and_then (check_sequence codec namespace st anchor keys))
                w
                (λ answer w'.
                  and_then-Good s codec keys items (check_sequence codec namespace st anchor keys)
                    answer w' (λ seq _. check_sequence-Good anchor seq w')))
        ]
    on_sequence-Good anchor (err (invalid text)) w = failed s codec keys items (invalid text) w
    on_sequence-Good anchor (err already_exists) w = failed s codec keys items already_exists w
    on_sequence-Good anchor (err conflict) w = failed s codec keys items conflict w
    on_sequence-Good anchor (err unavailable) w = failed s codec keys items unavailable w

    read_sequence-Good :
        (anchor : Option ConfigMap) (w : s.World)
        → Good s codec keys items
            (call (get namespace sequence_name) (on_sequence codec namespace st anchor keys))
            w
    read_sequence-Good anchor w =
        called s codec keys items _ (on_sequence codec namespace st anchor keys) w
          (λ answer w'. on_sequence-Good anchor answer w')

    on_anchor-Good :
        (answer : Result ConfigMap) (w : s.World)
        → Good s codec keys items (on_anchor codec namespace st keys answer) w
    unfolding on_anchor
    on_anchor-Good (err not_found) w = read_sequence-Good none w
    on_anchor-Good (err (invalid text)) w = failed s codec keys items (invalid text) w
    on_anchor-Good (err already_exists) w = failed s codec keys items already_exists w
    on_anchor-Good (err conflict) w = failed s codec keys items conflict w
    on_anchor-Good (err unavailable) w = failed s codec keys items unavailable w
    on_anchor-Good (ok anchor) w =
        elim (Bool-cases (
          not (text_at allocator_label anchor.labels == anchor_name)
          || not (is_immutable anchor.immutable)
          || text_at "sequenceUID" anchor.values == "")) [
            | inl e ↦ rw e (
                failed s codec keys items
                  (invalid "network ID sequence identity anchor is invalid or foreign") w)
            | inr e ↦ rw e (read_sequence-Good (some anchor) w)
          ]

  -- After the API has listed these objects, whatever it answers to the further calls and others do
  -- in between, a result of `networkIDs` has a number for each requested key, in range and different
  -- for different keys; a key with a claim in the listed ledger keeps its number, and another gets
  -- a number above all claims of it.
  pub on_items-Allocated :
      (namespace : String) (w : s.World)
      → Good s codec keys items (on_items codec namespace keys (ok items)) w
  unfolding on_items
  on_items-Allocated namespace w =
      and_then-Good s codec keys items
        (λ st. call (get namespace anchor_name) (on_anchor codec namespace st keys))
        (scan codec no_claims items) w
        (λ st scanned.
          called s codec keys items _ (on_anchor codec namespace st keys) w
            (λ answer w'. on_anchor-Good namespace st scanned answer w'))
