-- ===== src/Kube/Ensures.antt =====
-- Rules for what a program ensures, whatever is answered and done in between.
use kube_ovn_global_vpc.Prelude.{
  ℕ, ◌+◌, Result, ok, err, conflict, Error, invalid, not_found, already_exists, unavailable, ◌≡◌,
  refl,
}
use kube_ovn_global_vpc.Kube.Client.{Program, done, call, ◌>>=◌, on_ok, Server, Ensures}

module _ (s : Server) (P : s.World → s.World → Type 0) where
  -- a program, and one that goes on from its result
  pub bind-Ensures :
      {A B : Type 0} (R : A → s.World → Type 0) (Q : B → s.World → Type 0) (program : Program A)
      (next : A → Program B) (w : s.World)
      → Ensures s P R program w
      → ((a : A) (w' : s.World) → R a w' → Ensures s P Q (next a) w')
      → Ensures s P Q (program >>= next) w
  unfolding Ensures ◌>>=◌
  bind-Ensures R Q (done a) next w h k = k a w h
  bind-Ensures R Q (call c more) next w h k = λ w₁ w₂ answer later answered.
      let (moved, rest) = h w₁ w₂ answer later answered in
      (moved, bind-Ensures R Q (more answer) next w₂ rest k)

  pub weaken-Ensures :
      {A : Type 0} (R Q : A → s.World → Type 0) (program : Program A) (w : s.World)
      → ((a : A) (w' : s.World) → R a w' → Q a w')
      → Ensures s P R program w
      → Ensures s P Q program w
  unfolding Ensures
  weaken-Ensures R Q (done a) w k h = k a w h
  weaken-Ensures R Q (call c more) w k h = λ w₁ w₂ answer later answered.
      let (moved, rest) = h w₁ w₂ answer later answered in
      (moved, weaken-Ensures R Q (more answer) w₂ k rest)

  -- what holds of no error holds of a failed call
  pub on_ok-Ensures :
      {A B : Type 0} (Q : Result B → s.World → Type 0) (next : A → Program (Result B))
      (r : Result A) (w : s.World)
      → ((e : Error) → Q (err e) w)
      → ((a : A) → r ≡ ok a → Ensures s P Q (next a) w)
      → Ensures s P Q (on_ok next r) w
  unfolding Ensures on_ok
  on_ok-Ensures Q next (ok a) w failed k = k a refl
  on_ok-Ensures Q next (err e) w failed k = failed e

-- `if err is a conflict { again }`
unfoldable pub retry_or : {A : Type 0} → Program (Result A) → Result A → Program (Result A)
retry_or again (err conflict) = again
retry_or again r = done r

-- What `retry.RetryOnConflict` documents: it runs the function again, with the next attempt, as long
-- as it ends with a conflict, and gives up at some attempt.
pub data Repeats {A : Type 0} (attempts : ℕ → Program (Result A))
    : ℕ → Program (Result A) → Type 1 where
  last : (i : ℕ) → Repeats attempts i (attempts i)
  again :
      (i : ℕ) (rest : Program (Result A))
      → Repeats attempts (i + 1) rest
      → Repeats attempts i (attempts i >>= retry_or rest)

module _ (s : Server) (P : s.World → s.World → Type 0) where
  retry_or-Ensures :
      {A : Type 0} (Q : Result A → s.World → Type 0) (rest : Program (Result A)) (r : Result A)
      (w : s.World)
      → Q r w
      → Ensures s P Q rest w
      → Ensures s P Q (retry_or rest r) w
  unfolding retry_or Ensures
  retry_or-Ensures Q rest (err conflict) w h k = k
  retry_or-Ensures Q rest (ok a) w h k = h
  retry_or-Ensures Q rest (err (invalid t)) w h k = h
  retry_or-Ensures Q rest (err not_found) w h k = h
  retry_or-Ensures Q rest (err already_exists) w h k = h
  retry_or-Ensures Q rest (err unavailable) w h k = h

  -- a repetition ensures what every attempt ensures
  pub Repeats-Ensures :
      {A : Type 0} (Q : Result A → s.World → Type 0) (attempts : ℕ → Program (Result A))
      → ((i : ℕ) (w : s.World) → Ensures s P Q (attempts i) w)
      → (i : ℕ) (program : Program (Result A)) → Repeats attempts i program
      → (w : s.World) → Ensures s P Q program w
  Repeats-Ensures Q attempts each i _ (last _) w = each i w
  Repeats-Ensures Q attempts each i _ (again _ rest more) w =
      bind-Ensures s P Q Q (attempts i) (retry_or rest) w (each i w) (λ r w' h.
        retry_or-Ensures Q rest r w' h (Repeats-Ensures Q attempts each (i + 1) rest more w'))
