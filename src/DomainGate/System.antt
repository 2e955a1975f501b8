-- ===== src/DomainGate/System.antt =====
-- Clients of the domain lock, which run `Acquire` and `Release` of internal/controller/domain.go call
-- by call, in any order.
use kube_ovn_global_vpc.Prelude.{
  String, Bool, true, false, List, [], ◌∷◌, ◌≡◌, ◌≢◌, inr, refl, sym, ap, ◌∙◌, some_eq, All, Result,
  ok, err,
}
use kube_ovn_global_vpc.Kube.Client.{Call, Answer, Program, done, call, Server, IsServer, Ensures}
use kube_ovn_global_vpc.DomainGate.{Gate, holder_of, acquire, release}
use kube_ovn_global_vpc.DomainGate.Laws.{Respects, HeldBy, Acquired}
use kube_ovn_global_vpc.DomainGate.Exclusion.{acquire-Respects, release-Respects}

-- a client, with what is left of its program
pub data Client : Type 0 where
  acquiring : String → String → Program (Result Bool) → Client
  releasing : String → Program (Result (Unit {0})) → Client

abbrev pub client_name : Client → String
client_name (acquiring other hash p) = other
client_name (releasing other p) = other

-- a client that was told that it has the lock
abbrev pub granted : Client → Bool
granted (acquiring other hash (done (ok true))) = true
granted _ = false

module _ (s : Server) (laws : IsServer s) (g : Gate) where
  -- A step of the system: a client of an allowed name starts, a client makes its next call or is gone,
  -- or others change what is not the lock.
  pub data Step (Allowed : String → Type 0)
      : s.World → List Client → s.World → List Client → Type 0 where
    starts_acquire :
        {w : s.World} {cs : List Client} (name hash : String)
        → Allowed name
        → Step Allowed w cs w (acquiring name hash (acquire g name hash) ∷ cs)
    starts_release :
        {w : s.World} {cs : List Client} (name : String)
        → Allowed name
        → Step Allowed w cs w (releasing name (release g name) ∷ cs)
    acquire_call :
        {w w' : s.World} {cs : List Client} (name hash : String) (c : Call)
        (k : Answer c → Program (Result Bool)) (answer : Answer c)
        → s.Answers c w answer w'
        → Step Allowed w
            (acquiring name hash (call c k) ∷ cs)
            w'
            (acquiring name hash (k answer) ∷ cs)
    release_call :
        {w w' : s.World} {cs : List Client} (name : String) (c : Call)
        (k : Answer c → Program (Result (Unit {0}))) (answer : Answer c)
        → s.Answers c w answer w'
        → Step Allowed w (releasing name (call c k) ∷ cs) w' (releasing name (k answer) ∷ cs)
    leaves : {w : s.World} {cs : List Client} (c : Client) → Step Allowed w (c ∷ cs) w cs
    another :
        {w w' : s.World} {cs cs' : List Client} (c : Client)
        → Step Allowed w cs w' cs'
        → Step Allowed w (c ∷ cs) w' (c ∷ cs')
    elsewhere :
        {w w' : s.World} {cs : List Client}
        → s.Later w w'
        → s.stored g.namespace g.lock_name w' ≡ s.stored g.namespace g.lock_name w
        → Step Allowed w cs w' cs

  pub data Run (Allowed : String → Type 0)
      : s.World → List Client → s.World → List Client → Type 0 where
    stay : {w : s.World} {cs : List Client} → Run Allowed w cs w cs
    next :
        {w w₁ w₂ : s.World} {cs cs₁ cs₂ : List Client}
        → Step Allowed w cs w₁ cs₁
        → Run Allowed w₁ cs₁ w₂ cs₂
        → Run Allowed w cs w₂ cs₂

  -- what `Acquire` and `Release` ensure holds of what is left of them, from their last call on
  abbrev InFlight : s.World → Client → Type 0
  InFlight w (acquiring name hash p) =
      (w₀ : s.World) × s.Later w₀ w
      × Ensures s (Respects s laws g name) (Acquired s laws g name hash) p w₀
  InFlight w (releasing name p) =
      (w₀ : s.World) × s.Later w₀ w
      × Ensures s (Respects s laws g name) (λ r v. r ≡ ok tt → HeldBy s laws g name "" "" v) p w₀

  InFlight-Later : (c : Client) (w w' : s.World) → s.Later w w' → InFlight w c → InFlight w' c
  InFlight-Later (acquiring name hash p) w w' l (w₀, since, h) =
      (w₀, laws.later_trans w₀ w w' since l, h)
  InFlight-Later (releasing name p) w w' l (w₀, since, h) =
      (w₀, laws.later_trans w₀ w w' since l, h)

  all-Later :
      (cs : List Client) (w w' : s.World)
      → s.Later w w'
      → All (InFlight w) cs
      → All (InFlight w') cs
  all-Later [] w w' l h = tt
  all-Later (c ∷ cs) w w' l h = (InFlight-Later c w w' l h.0, all-Later cs w w' l h.1)

  Step-Later :
      {Allowed : String → Type 0} {w w' : s.World} {cs cs' : List Client}
      → Step Allowed w cs w' cs'
      → s.Later w w'
  Step-Later {w = w} (starts_acquire name hash a) = laws.later_refl w
  Step-Later {w = w} (starts_release name a) = laws.later_refl w
  Step-Later {w = w} {w' = w'} (acquire_call name hash c k answer h) =
      laws.later_step c w w' answer h
  Step-Later {w = w} {w' = w'} (release_call name c k answer h) = laws.later_step c w w' answer h
  Step-Later {w = w} (leaves c) = laws.later_refl w
  Step-Later (another c st) = Step-Later st
  Step-Later (elsewhere l e) = l

  Step-InFlight :
      {Allowed : String → Type 0} {w w' : s.World} {cs cs' : List Client}
      → Step Allowed w cs w' cs'
      → All (InFlight w) cs
      → All (InFlight w') cs'
  unfolding Ensures
  Step-InFlight {w = w} (starts_acquire name hash a) h =
      ((w, laws.later_refl w, acquire-Respects s laws g name hash w), h)
  Step-InFlight {w = w} (starts_release name a) h =
      ((w, laws.later_refl w, release-Respects s laws g name w), h)
  Step-InFlight {w = w} {w' = w'} (acquire_call {cs = cs} name hash c k answer e) h =
      let (w₀, since, p) = h.0 in
      (
        (w', laws.later_refl w', (p w w' answer since e).1),
        all-Later cs w w' (laws.later_step c w w' answer e) h.1,
      )
  Step-InFlight {w = w} {w' = w'} (release_call {cs = cs} name c k answer e) h =
      let (w₀, since, p) = h.0 in
      (
        (w', laws.later_refl w', (p w w' answer since e).1),
        all-Later cs w w' (laws.later_step c w w' answer e) h.1,
      )
  Step-InFlight (leaves c) h = h.1
  Step-InFlight {w = w} {w' = w'} (another c st) h =
      (InFlight-Later c w w' (Step-Later st) h.0, Step-InFlight st h.1)
  Step-InFlight {w = w} {w' = w'} (elsewhere {cs = cs} l e) h = all-Later cs w w' l h

  run-InFlight :
      {Allowed : String → Type 0} {w w' : s.World} {cs cs' : List Client}
      → Run Allowed w cs w' cs'
      → All (InFlight w) cs
      → All (InFlight w') cs'
  run-InFlight stay h = h
  run-InFlight (next st rest) h = run-InFlight rest (Step-InFlight st h)

  module _ (uid hash : String) (named : uid ≢ "") where
    abbrev Held : s.World → Type 0
    Held = HeldBy s laws g uid uid hash

    -- a client of another name that was not told that it has the lock
    abbrev pub Waits : Client → Type 0
    Waits c = (client_name c ≢ uid) × (granted c ≡ false)

    Respects-Held :
        (other : String) (w w' : s.World)
        → other ≢ uid
        → Respects s laws g other w w'
        → Held w
        → Held w'
    Respects-Held other w w' differs respects h =
        let taken : holder_of h.lock ≢ "" = λ e. named (sym h.held ∙ e) in
        let foreign : holder_of h.lock ≢ other = λ e. differs (sym e ∙ h.held) in
        record {
          lock = h.lock;
          present = respects h.lock h.present (inr (taken, foreign));
          of_domain = h.of_domain;
          held = h.held;
          of_plan = h.of_plan;
        }

    -- two holders have one name
    same_holder :
        (other plan : String) (w : s.World)
        → Held w
        → HeldBy s laws g other other plan w
        → other ≡ uid
    same_holder other plan w h k =
        let same : k.lock ≡ h.lock = some_eq (sym k.present ∙ h.present) in
        sym k.held ∙ ap holder_of same ∙ h.held

    acquiring-Waits :
        (other plan : String) (p : Program (Result Bool)) (w : s.World)
        → other ≢ uid
        → Held w
        → Ensures s (Respects s laws g other) (Acquired s laws g other plan) p w
        → granted (acquiring other plan p) ≡ false
    unfolding Ensures
    acquiring-Waits other plan (done (ok true)) w differs h e =
        absurd (differs (same_holder other plan w h (e refl)))
    acquiring-Waits other plan (done (ok false)) w differs h e = refl
    acquiring-Waits other plan (done (err x)) w differs h e = refl
    acquiring-Waits other plan (call c k) w differs h e = refl

    Step-Held :
        {w w' : s.World} {cs cs' : List Client}
        → Step (λ other. other ≢ uid) w cs w' cs'
        → All (InFlight w) cs
        → All Waits cs
        → Held w
        → Held w' × All Waits cs'
    unfolding Ensures acquire release
    Step-Held (starts_acquire other plan differs) f waits h = (h, ((differs, refl), waits))
    Step-Held (starts_release other differs) f waits h = (h, ((differs, refl), waits))
    Step-Held {w = w} {w' = w'} (acquire_call other plan c k answer e) f waits h =
        let (w₀, since, p) = f.0 in
        let (respects, rest) = p w w' answer since e in
        let held = Respects-Held other w w' waits.0.0 respects h in
        (held, ((waits.0.0, acquiring-Waits other plan (k answer) w' waits.0.0 held rest), waits.1))
    Step-Held {w = w} {w' = w'} (release_call other c k answer e) f waits h =
        let (w₀, since, p) = f.0 in
        (
          Respects-Held other w w' waits.0.0 (p w w' answer since e).0 h,
          ((waits.0.0, refl), waits.1),
        )
    Step-Held (leaves c) f waits h = (h, waits.1)
    Step-Held (another c st) f waits h =
        let (held, others) = Step-Held st f.1 waits.1 h in (held, (waits.0, others))
    Step-Held (elsewhere l e) f waits h = (
      record {
        lock = h.lock;
        present = e ∙ h.present;
        of_domain = h.of_domain;
        held = h.held;
        of_plan = h.of_plan;
      },
      waits,
    )

    run-Held :
        {w w' : s.World} {cs cs' : List Client}
        → Run (λ other. other ≢ uid) w cs w' cs'
        → All (InFlight w) cs
        → All Waits cs
        → Held w
        → Held w' × All Waits cs'
    run-Held stay f waits h = (h, waits)
    run-Held (next st rest) f waits h =
        let (held, others) = Step-Held st f waits h in
        run-Held rest (Step-InFlight st f) others held

    -- At a server that keeps its documented concurrency, let clients of any names run `Acquire` and
    -- `Release`, call by call and in any order, and let nothing else change the lock, up to a state where
    -- `uid`, which is not empty, holds the lock and only calls of other names are under way, none of
    -- which was told that it has the lock. Then, as long as only other names go on or start, the lock
    -- stays held by `uid` for its plan, and none of them is told that it has it.
    pub held-stays :
        {w₀ w w' : s.World} {cs cs' : List Client}
        → Run (λ other. Unit) w₀ [] w cs
        → HeldBy s laws g uid uid hash w
        → All Waits cs
        → Run (λ other. other ≢ uid) w cs w' cs'
        → HeldBy s laws g uid uid hash w' × All Waits cs'
    held-stays before h waits after = run-Held after (run-InFlight before tt) waits h
