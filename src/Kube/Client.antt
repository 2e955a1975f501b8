-- ===== src/Kube/Client.antt =====
-- Programs that call the Kubernetes API, as trees of calls: every answer of the server, and every
-- change by others between two calls, is a branch. The server is not part of the repository, so it
-- is a parameter, with its documented optimistic concurrency as hypotheses.
use kube_ovn_global_vpc.Binding.{NetworkBinding}
use kube_ovn_global_vpc.Prelude.{
  String, Bool, false, Option, none, some, List, [], Map, Result, ok, err, Error, ◌≡◌, ◌⊎◌, ◌&&◌,
  ◌==◌,
}

-- `corev1.ConfigMap`, as far as the program reads it
pub record ConfigMap : Type 0 where
  pub namespace : String
  pub name : String
  pub uid : String
  pub resource_version : String
  pub labels : Map String
  pub annotations : Map String
  pub immutable : Option Bool
  pub values : Map String

pub data Call : Type 0 where
  get : String → String → Call
  list : String → Call
  create update : ConfigMap → Call
  update_binding : NetworkBinding → Call

abbrev pub Answer : Call → Type 0
Answer (get namespace name) = Result ConfigMap
Answer (list namespace) = Result (List ConfigMap)
Answer (create cm) = Result ConfigMap
Answer (update cm) = Result ConfigMap
Answer (update_binding b) = Result NetworkBinding

pub data Program (A : Type 0) : Type 0 where
  done : A → Program A
  call : (c : Call) → (Answer c → Program A) → Program A

infixl 5 ◌>>=◌
unfoldable pub ◌>>=◌ : {A B : Type 0} → Program A → (A → Program B) → Program B
done a >>= f = f a
call c k >>= f = call c (λ answer. k answer >>= f)

-- `if err != nil { return err }` in a program, or on with the value
unfoldable pub on_ok : {A B : Type 0} → (A → Program (Result B)) → Result A → Program (Result B)
on_ok k (ok a) = k a
on_ok k (err e) = done (err e)

-- `metav1.OwnerReference`
pub record OwnerReference : Type 0 where
  pub api_version : String
  pub kind : String
  pub name : String
  pub uid : String
  pub controller : Option Bool

-- an object of a list, with its owners
pub record Item : Type 0 where
  pub object : ConfigMap
  pub owners : List OwnerReference

-- the labels and the name of an object of another kind
pub record Named : Type 0 where
  pub name : String
  pub labels : Map String

-- an object that is about to be created
unfoldable pub new_object : String → String → Map String → Option Bool → Map String → ConfigMap
new_object namespace name labels immutable values = record {
  namespace = namespace;
  name = name;
  uid = "";
  resource_version = "";
  labels = labels;
  annotations = [];
  immutable = immutable;
  values = values;
}

abbrev pub is_true : Option Bool → Bool
is_true (some b) = b
is_true none = false

-- A server: its states, what they store under a namespace and a name, how the state can move on by
-- the calls of others, and what it can answer to a call.
pub record Server : Type 1 where
  pub World : Type 0
  pub stored : String → String → World → Option ConfigMap
  pub Later : World → World → Type 0
  pub Answers : (c : Call) → World → Answer c → World → Type 0

-- an object as it is stored: with an identity and a version of the server's
abbrev pub StoredAs : ConfigMap → ConfigMap → Type 0
StoredAs cm out = out ≡ record cm { uid = out.uid; resource_version = out.resource_version }

module _ (s : Server) where
  -- objects with another namespace or name stay as they are
  abbrev pub Elsewhere : ConfigMap → s.World → s.World → Type 0
  Elsewhere cm w w' =
      (namespace name : String)
      → (cm.namespace == namespace && cm.name == name) ≡ false
      → s.stored namespace name w' ≡ s.stored namespace name w

  -- the effect of a call that creates, which needs a free name
  pub record Creates (cm : ConfigMap) (w w' : s.World) : Type 0 where
    pub absent : s.stored cm.namespace cm.name w ≡ none
    pub out : ConfigMap
    pub present : s.stored cm.namespace cm.name w' ≡ some out
    pub same : StoredAs cm out
    pub others : Elsewhere cm w w'

  -- the effect of a call that updates, which needs the current version
  pub record Updates (cm : ConfigMap) (w w' : s.World) : Type 0 where
    pub current : ConfigMap
    pub before : s.stored cm.namespace cm.name w ≡ some current
    pub version : current.resource_version ≡ cm.resource_version
    pub out : ConfigMap
    pub after : s.stored cm.namespace cm.name w' ≡ some out
    pub same : StoredAs cm out
    pub same_uid : out.uid ≡ current.uid
    pub others : Elsewhere cm w w'

  -- What the API documents: a read changes nothing and returns what is stored; a call that fails,
  -- by a lost answer, may still have had its effect; a write touches no other object; and a
  -- version stands for one content, through the moves of others and through these calls.
  pub record IsServer : Type 0 where
    pub read_only :
        (namespace name : String) (w w' : s.World) (answer : Result ConfigMap)
        → s.Answers (get namespace name) w answer w'
        → w' ≡ w
    pub read :
        (namespace name : String) (w w' : s.World) (cm : ConfigMap)
        → s.Answers (get namespace name) w (ok cm) w'
        → (s.stored namespace name w ≡ some cm) × (cm.namespace ≡ namespace) × (cm.name ≡ name)
    pub created :
        (cm out : ConfigMap) (w w' : s.World)
        → s.Answers (create cm) w (ok out) w'
        → Creates cm w w'
    pub returned :
        (cm out : ConfigMap) (w w' : s.World)
        → s.Answers (create cm) w (ok out) w'
        → s.stored cm.namespace cm.name w' ≡ some out
    pub create_failed :
        (cm : ConfigMap) (e : Error) (w w' : s.World)
        → s.Answers (create cm) w (err e) w'
        → (w' ≡ w) ⊎ Creates cm w w'
    pub updated :
        (cm out : ConfigMap) (w w' : s.World)
        → s.Answers (update cm) w (ok out) w'
        → Updates cm w w'
    pub update_failed :
        (cm : ConfigMap) (e : Error) (w w' : s.World)
        → s.Answers (update cm) w (err e) w'
        → (w' ≡ w) ⊎ Updates cm w w'
    pub binding_only :
        (b : NetworkBinding) (w w' : s.World) (answer : Result NetworkBinding)
        → s.Answers (update_binding b) w answer w'
        → (namespace name : String) → s.stored namespace name w' ≡ s.stored namespace name w
    pub later_refl : (w : s.World) → s.Later w w
    pub later_trans : (w₁ w₂ w₃ : s.World) → s.Later w₁ w₂ → s.Later w₂ w₃ → s.Later w₁ w₃
    pub later_step :
        (c : Call) (w w' : s.World) (answer : Answer c) → s.Answers c w answer w' → s.Later w w'
    pub versions :
        (namespace name : String) (w w' : s.World) (a b : ConfigMap)
        → s.Later w w'
        → s.stored namespace name w ≡ some a
        → s.stored namespace name w' ≡ some b
        → b.resource_version ≡ a.resource_version
        → b ≡ a

  -- Whatever the others do between the calls and whatever is answered, every call moves the state
  -- by a step of `P`, and the program ends with a result and a state in `Q`.
  unfoldable pub Ensures :
      {A : Type 0}
      → (s.World → s.World → Type 0)
      → (A → s.World → Type 0)
      → Program A
      → s.World
      → Type 0
  Ensures P Q (done a) w = Q a w
  Ensures P Q (call c k) w =
      (w₁ w₂ : s.World) (answer : Answer c)
      → s.Later w w₁
      → s.Answers c w₁ answer w₂
      → P w₁ w₂ × Ensures P Q (k answer) w₂
