-- ===== src/Examples/Api.antt =====
-- A server that stores its objects in a list and answers at once, as an instance of the interface
-- that Kube/Client.antt asks for.
use text.Mathlib.TextLemmas.{cons-append}
use kube_ovn_global_vpc.Prelude.{
  ℕ, suc, ◌<◌, String, ◌⧺◌, Bool, false, ◌&&◌, Option, none, some, List, [], ◌∷◌, ◌==◌, eq_refl,
  text_eq, ◌≡◌, refl, sym, ◌∙◌, ap, subst, ◌⊎◌, inl, inr, Bool-cases, and-true, Result, ok, err,
  ok-injective, arith, Error, not_found, already_exists, conflict, if◌then◌else◌, some_eq,
}
use kube_ovn_global_vpc.Kube.Client.{
  ConfigMap, Call, Answer, get, list, create, update, update_binding, Program, done, call, Server,
  Elsewhere, Creates, Updates, IsServer,
}

abbrev pub World : Type 0
World = List ConfigMap

abbrev is_at : String → String → ConfigMap → Bool
is_at namespace name cm = cm.namespace == namespace && cm.name == name

unfoldable pub stored : String → String → World → Option ConfigMap
stored namespace name [] = none
stored namespace name (cm ∷ w) =
    if is_at namespace name cm then some cm else stored namespace name w

unfoldable pub store : ConfigMap → World → World
store cm [] = cm ∷ []
store cm (c ∷ w) = if is_at cm.namespace cm.name c then cm ∷ w else c ∷ store cm w

abbrev found : Option ConfigMap → Result ConfigMap
found none = err not_found
found (some cm) = ok cm

unfoldable pub in_namespace : String → World → List ConfigMap
in_namespace namespace [] = []
in_namespace namespace (cm ∷ rest) =
    let others = in_namespace namespace rest in
    if cm.namespace == namespace then cm ∷ others else others

abbrev as_new : ConfigMap → ConfigMap
as_new cm = record cm { uid = "uid-" ⧺ cm.name; resource_version = "1" }

abbrev as_next : ConfigMap → ConfigMap
as_next cm = record cm { resource_version = cm.resource_version ⧺ "+" }

unfoldable pub creation : ConfigMap → World → Option ConfigMap → Result ConfigMap × World
creation cm w (some _) = (err already_exists, w)
creation cm w none = (ok (as_new cm), store (as_new cm) w)

unfoldable pub replacement : ConfigMap → World → Option ConfigMap → Result ConfigMap × World
replacement cm w none = (err not_found, w)
replacement cm w (some current) =
    if current.resource_version == cm.resource_version && current.uid == cm.uid
    then (ok (as_next cm), store (as_next cm) w)
    else (err conflict, w)

abbrev pub answer : (c : Call) → World → Answer c × World
answer (get namespace name) w = (found (stored namespace name w), w)
answer (list namespace) w = (ok (in_namespace namespace w), w)
answer (create cm) w = creation cm w (stored cm.namespace cm.name w)
answer (update cm) w = replacement cm w (stored cm.namespace cm.name w)
answer (update_binding b) w = (ok b, w)

unfoldable pub text_length : String → ℕ
text_length String.[] = 0
text_length (String.◌∷◌ c s) = suc (text_length s)

text_length-append : (s : String) → text_length s < text_length (s ⧺ "+")
unfolding text_length
text_length-append String.[] = omega arith
text_length-append (String.◌∷◌ c s) = rw cons-append (omega (arith, text_length-append s))

-- an object stays, or its version has grown
abbrev Grown : ConfigMap → Option ConfigMap → Type 0
Grown a o =
    (b : ConfigMap) × (o ≡ some b)
    × ((b ≡ a) ⊎ (text_length a.resource_version < text_length b.resource_version))

-- the moves of a server that only this program and others that update move
abbrev pub Later : World → World → Type 0
Later w w' =
    (namespace name : String) (a : ConfigMap)
    → stored namespace name w ≡ some a
    → Grown a (stored namespace name w')

abbrev pub api : Server
api = record {
  World = World;
  stored = stored;
  Later = Later;
  Answers = λ c w a w'. answer c w ≡ (a, w');
}

matching_names :
    (namespace name : String) (w : World) (cm : ConfigMap)
    → stored namespace name w ≡ some cm
    → (cm.namespace ≡ namespace) × (cm.name ≡ name)
unfolding stored
matching_names namespace name [] cm h = absurd (cc h)
matching_names namespace name (c ∷ w) cm h = elim (Bool-cases (is_at namespace name c)) [
  | inl e ↦
      let same : c ≡ cm = some_eq (rw e at h) in
      let (a, b) = and-true _ _ e in
      (
        ap (λ (x : ConfigMap). x.namespace) (sym same) ∙ text_eq _ _ a,
        ap (λ (x : ConfigMap). x.name) (sym same) ∙ text_eq _ _ b,
      )
  | inr e ↦ matching_names namespace name w cm (rw e at h)
]

stored_store : (cm : ConfigMap) (w : World) → stored cm.namespace cm.name (store cm w) ≡ some cm
unfolding stored store
stored_store cm [] = rw (eq_refl, eq_refl) refl
stored_store cm (c ∷ w) = elim (Bool-cases (is_at cm.namespace cm.name c)) [
  | inl e ↦ rw e (rw (stored, eq_refl, eq_refl) refl)
  | inr e ↦ rw e (rw (stored, e) (stored_store cm w))
]

store-Elsewhere : (cm : ConfigMap) (w : World) → Elsewhere api cm w (store cm w)
unfolding stored store
store-Elsewhere cm [] namespace name h = rw h refl
store-Elsewhere cm (c ∷ w) namespace name h = elim (Bool-cases (is_at cm.namespace cm.name c)) [
  | inl e ↦
      let (a, b) = and-true _ _ e in
      let n : c.namespace ≡ cm.namespace = text_eq _ _ a in
      let m : c.name ≡ cm.name = text_eq _ _ b in
      let other : is_at namespace name c ≡ false = rw (n, m) h in rw e (rw (stored, h, other) refl)
  | inr e ↦ rw e (ground (arith, store-Elsewhere cm w namespace name h))
]

stays : (a : ConfigMap) (o : Option ConfigMap) → o ≡ some a → Grown a o
stays a o h = (a, h, inl refl)

-- an object is stored that was absent, or with a later version
store-Later :
    (cm : ConfigMap) (w : World)
    → ((a : ConfigMap)
        → stored cm.namespace cm.name w ≡ some a
        → text_length a.resource_version < text_length cm.resource_version)
    → Later w (store cm w)
store-Later cm w newer namespace name a h =
    elim (Bool-cases (cm.namespace == namespace && cm.name == name)) [
      | inl e ↦
          let (e₁, e₂) = and-true _ _ e in
          let n₁ = text_eq _ _ e₁ in
          let n₂ = text_eq _ _ e₂ in
          let here : stored cm.namespace cm.name w ≡ some a = rw (n₁, n₂) h in
          let there : stored namespace name (store cm w) ≡ some cm =
            subst (λ n. stored n name (store cm w) ≡ some cm) n₁
              (subst (λ n. stored cm.namespace n (store cm w) ≡ some cm) n₂ (stored_store cm w)) in
          (cm, there, inr (newer a here))
      | inr e ↦
          stays a (stored namespace name (store cm w)) (store-Elsewhere cm w namespace name e ∙ h)
    ]

-- the two parts of an answer
answer_of :
    {A B : Type 0} {a a' : A} {w w' : B} → ◌≡◌ {A = A × B} (a, w) (a', w') → (a ≡ a') × (w' ≡ w)
answer_of h = (ap (λ p. p.0) h, sym (ap (λ p. p.1) h))

created_or_not :
    (cm : ConfigMap) (w w' : World) (o : Option ConfigMap) (r : Result ConfigMap)
    → stored cm.namespace cm.name w ≡ o
    → creation cm w o ≡ (r, w')
    → ((e : Error) × (r ≡ err e) × (w' ≡ w)) ⊎ Creates api cm w w'
unfolding creation
created_or_not cm w w' (some c) r e h = let (a, b) = answer_of h in inl (already_exists, sym a, b)
created_or_not cm w w' none r e h =
    let (a, b) = answer_of h in
    inr (record {
      absent = e;
      out = as_new cm;
      present =
          subst (λ v. stored cm.namespace cm.name v ≡ some (as_new cm)) (sym b)
            (stored_store (as_new cm) w);
      same = refl;
      others = subst (Elsewhere api cm w) (sym b) (store-Elsewhere (as_new cm) w);
    })

updated_or_not :
    (cm : ConfigMap) (w w' : World) (o : Option ConfigMap) (r : Result ConfigMap)
    → stored cm.namespace cm.name w ≡ o
    → replacement cm w o ≡ (r, w')
    → ((e : Error) × (r ≡ err e) × (w' ≡ w)) ⊎ Updates api cm w w'
unfolding replacement
updated_or_not cm w w' none r e h = let (a, b) = answer_of h in inl (not_found, sym a, b)
updated_or_not cm w w' (some c) r e h =
    elim (Bool-cases (c.resource_version == cm.resource_version && c.uid == cm.uid)) [
      | inr stale ↦ let (a, b) = answer_of (rw stale at h) in inl (conflict, sym a, b)
      | inl current ↦
          let (a, b) = answer_of (rw current at h) in
          inr (record {
            current = c;
            before = e;
            version = text_eq _ _ (and-true _ _ current).0;
            same_uid = sym (text_eq _ _ (and-true _ _ current).1);
            out = as_next cm;
            after =
                subst (λ v. stored cm.namespace cm.name v ≡ some (as_next cm)) (sym b)
                  (stored_store (as_next cm) w);
            same = refl;
            others = subst (Elsewhere api cm w) (sym b) (store-Elsewhere (as_next cm) w);
          })
    ]

same-Later : (w w' : World) → w' ≡ w → Later w w'
same-Later w w' e namespace name a h = stays a (stored namespace name w') (rw e h)

-- each answer is a move
creation-Later :
    (cm : ConfigMap) (w w' : World) (o : Option ConfigMap) (r : Result ConfigMap)
    → stored cm.namespace cm.name w ≡ o
    → creation cm w o ≡ (r, w')
    → Later w w'
unfolding creation
creation-Later cm w w' (some c) r e h = same-Later w w' (answer_of h).1
creation-Later cm w w' none r e h =
    subst (Later w) (sym (answer_of h).1) (store-Later (as_new cm) w (λ a k. absurd (cc k)))

replacement-Later :
    (cm : ConfigMap) (w w' : World) (o : Option ConfigMap) (r : Result ConfigMap)
    → stored cm.namespace cm.name w ≡ o
    → replacement cm w o ≡ (r, w')
    → Later w w'
unfolding replacement
replacement-Later cm w w' none r e h = same-Later w w' (answer_of h).1
replacement-Later cm w w' (some c) r e h =
    elim (Bool-cases (c.resource_version == cm.resource_version && c.uid == cm.uid)) [
      | inr stale ↦ same-Later w w' (answer_of (rw stale at h)).1
      | inl current ↦
          let version : c.resource_version ≡ cm.resource_version =
            text_eq _ _ (and-true _ _ current).0 in
          subst (Later w) (sym (answer_of (rw current at h)).1) (
            store-Later (as_next cm) w (λ a k.
              let same : a ≡ c = some_eq (sym k ∙ e) in
              let longer = text_length-append cm.resource_version in rw (same, version) longer))
    ]

step : (c : Call) (w : World) (a : Answer c) (w' : World) → answer c w ≡ (a, w') → Later w w'
step (get namespace name) w a w' h = same-Later w w' (answer_of h).1
step (list namespace) w a w' h = same-Later w w' (answer_of h).1
step (create cm) w a w' h = creation-Later cm w w' (stored cm.namespace cm.name w) a refl h
step (update_binding b) w a w' h = same-Later w w' (answer_of h).1
step (update cm) w a w' h = replacement-Later cm w w' (stored cm.namespace cm.name w) a refl h

not_failed : {A : Type 0} (out : ConfigMap) (e : Error) → ok out ≡ err e → A
not_failed out e h = absurd (cc h)

pub api-IsServer : IsServer api
api-IsServer = record {
  read_only = λ namespace name w w' a h. (answer_of h).1;
  read = λ namespace name w w' cm h.
      let there : stored namespace name w ≡ some cm =
        was_found (stored namespace name w) (answer_of h).0 in
      let (in_space, named) = matching_names namespace name w cm there in (there, in_space, named);
  created = λ cm out w w' h.
      elim (created_or_not cm w w' (stored cm.namespace cm.name w) (ok out) refl h) [
        | inl (e, k, _) ↦ not_failed out e k
        | inr c ↦ c
      ];
  returned = λ cm out w w' h. answered cm out w w' (stored cm.namespace cm.name w) h;
  create_failed = λ cm e w w' h.
      elim (created_or_not cm w w' (stored cm.namespace cm.name w) (err e) refl h) [
        | inl (_, _, k) ↦ inl k
        | inr c ↦ inr c
      ];
  updated = λ cm out w w' h.
      elim (updated_or_not cm w w' (stored cm.namespace cm.name w) (ok out) refl h) [
        | inl (e, k, _) ↦ not_failed out e k
        | inr u ↦ u
      ];
  update_failed = λ cm e w w' h.
      elim (updated_or_not cm w w' (stored cm.namespace cm.name w) (err e) refl h) [
        | inl (_, _, k) ↦ inl k
        | inr u ↦ inr u
      ];
  binding_only = λ b w w' a h namespace name. ap (stored namespace name) (answer_of h).1;
  later_refl = λ w. same-Later w w refl;
  later_trans = λ w₁ w₂ w₃ first second namespace name a h.
      let (b, hb, grown) = first namespace name a h in
      let (c, hc, grown') = second namespace name b hb in (c, hc, grows a b c grown grown');
  later_step = λ c w w' a h. step c w a w' h;
  versions = λ namespace name w w' a b later h h' v.
      let (c, hc, grown) = later namespace name a h in
      same_version a b c (some_eq (sym hc ∙ h')) v grown;
}
  where
    answered :
        (cm out : ConfigMap) (w w' : World) (o : Option ConfigMap)
        → creation cm w o ≡ (ok out, w')
        → stored cm.namespace cm.name w' ≡ some out
    answered cm out w w' (some c) h = absurd (unfold creation in cc (answer_of h).0)
    answered cm out w w' none h =
        let k : ◌≡◌ {A = Result ConfigMap × World} (ok (as_new cm), store (as_new cm) w)
            (ok out, w') =
          unfold creation in h in
        let (first, second) = answer_of k in
        let same : as_new cm ≡ out = ok-injective first in
        subst (λ v. stored cm.namespace cm.name v ≡ some out) (sym second)
          (stored_store (as_new cm) w ∙ ap some same)

    grows :
        (a b c : ConfigMap)
        → (b ≡ a) ⊎ (text_length a.resource_version < text_length b.resource_version)
        → (c ≡ b) ⊎ (text_length b.resource_version < text_length c.resource_version)
        → (c ≡ a) ⊎ (text_length a.resource_version < text_length c.resource_version)
    grows a b c (inl e) (inl f) = inl (f ∙ e)
    grows a b c (inl e) (inr l) = inr (rw e at l)
    grows a b c (inr l) (inl f) = inr (rw f l)
    grows a b c (inr l) (inr m) = inr (omega arith)

    same_version :
        (a b c : ConfigMap)
        → c ≡ b
        → b.resource_version ≡ a.resource_version
        → (c ≡ a) ⊎ (text_length a.resource_version < text_length c.resource_version)
        → b ≡ a
    same_version a b c e v (inl f) = sym e ∙ f
    same_version a b c e v (inr l) =
        let equal : text_length c.resource_version ≡ text_length a.resource_version =
          ap (λ (x : ConfigMap). text_length x.resource_version) e ∙ ap text_length v in
        absurd (omega (arith, l, equal))

    was_found : (o : Option ConfigMap) {cm : ConfigMap} → found o ≡ ok cm → o ≡ some cm
    was_found none h = cc
    was_found (some c) h = cc

-- the result of a program at this server, and the objects behind it
unfoldable pub run : {A : Type 0} → Program A → World → A × World
run (done a) w = (a, w)
run (call c k) w = run (k (answer c w).0) (answer c w).1
