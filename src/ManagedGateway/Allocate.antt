-- ===== src/ManagedGateway/Allocate.antt =====
-- `allocate` of internal/managedgateway/registry.go. One attempt is a program; how often it is
-- repeated after a conflict is up to `retry.RetryOnConflict` of client-go, a parameter.
pub mod Laws
use kube_ovn_global_vpc.Prelude.{
  ℕ, String, Bool, true, false, ◌&&◌, ◌||◌, Option, none, some, List, [], ◌∷◌, ◌==◌, Result, ok,
  err, invalid, if◌then◌else◌,
}
use kube_ovn_global_vpc.Netip.Parse.{cut_slash}
use kube_ovn_global_vpc.Kube.Client.{ConfigMap, update, Program, done, call, on_ok, ◌>>=◌}
use kube_ovn_global_vpc.ManagedGateway.Types.{Settings, AllocationRegistry, Codec, store_registry}
use kube_ovn_global_vpc.ManagedGateway.Registry.{Lists, registry}
use kube_ovn_global_vpc.ManagedGateway.Reserve.{Reservation, kept, reserved, reserve}

-- the client reports the error of the update only
unfoldable pub write : Codec → ConfigMap → Reservation → Program (Result String)
write codec cm (kept v) = done (ok v)
write codec cm (reserved reg v) =
    call (update (store_registry codec cm reg)) (on_ok (λ _. done (ok v)))

-- with a registry, the choice and the update; without one, which `bootstrap` rules out, the program
-- would write to a nil map
unfoldable pub on_found :
    Codec
    → Settings
    → String
    → Bool
    → String
    → Option (ConfigMap × AllocationRegistry)
    → Program (Result String)
on_found codec s key port node none = done (err (invalid "assignment to entry in nil map"))
on_found codec s key port node (some (cm, reg)) =
    on_ok (write codec cm) (reserve s key port node reg)

-- the function that is retried
unfoldable pub attempt : Codec → Settings → String → Bool → String → Lists → Program (Result String)
attempt codec s key port node lists =
    registry codec s true [] lists >>= on_ok (on_found codec s key port node)

-- `strings.Contains(node, "/")`
abbrev has_slash : Option (String × String) → Bool
has_slash none = false
has_slash (some _) = true

-- `allocate`, where the i-th attempt gets the i-th lists
unfoldable pub allocate :
    ((ℕ → Program (Result String)) → Program (Result String))
    → Codec
    → Settings
    → String
    → Bool
    → String
    → (ℕ → Lists)
    → Program (Result String)
allocate retry codec s key port node lists =
    if key == "" || (port && (node == "" || has_slash (cut_slash node)))
    then done (err (invalid "gateway allocation identity is empty or invalid"))
    else retry (λ i. attempt codec s key port node (lists i))
