-- ===== src/ManagedGateway/Reserve.antt =====
-- The choice of `allocate` of internal/managedgateway/registry.go: a retained value is kept, and a
-- new one is the first free port of the range or the first free host of the pool.
pub mod Laws
pub mod Keeps
pub mod Outcome
use kube_ovn_global_vpc.Prelude.{
  ℕ, ◌+◌, ◌^◌, String, ◌⧺◌, Bool, true, false, ◌&&◌, Option, none, some, List, [], ◌∷◌, Map, find,
  put, text_at, any, first_free, ltb, leb, eqb, ◌==◌, starts_with, Result, ok, err, invalid, reject,
  ◌>>=◌, ◌>>◌,
}
use kube_ovn_global_vpc.Netip.Parse.{addr_text, number_text}
use kube_ovn_global_vpc.Netip.Prefix.{Prefix, parse_prefix, contains, next}
use kube_ovn_global_vpc.ManagedGateway.Types.{Settings, AllocationRegistry}

-- `result`, and the registry where it has to be written
pub data Reservation : Type 0 where
  kept : String → Reservation
  reserved : AllocationRegistry → String → Reservation

-- `used[v]`: a port of the node
unfoldable pub port_taken : String → Map ℕ → ℕ → Bool
port_taken node ports v = any (λ e. starts_with e.0 (node ⧺ "/") && eqb e.1 v) ports

unfoldable pub address_taken : Map String → ℕ → Bool
address_taken addresses ip = any (λ e. e.1 == addr_text ip) addresses

-- `for v := r.PortStart; v <= r.PortEnd; v++`
unfoldable pub free_port : Settings → String → Map ℕ → Option ℕ
free_port s node ports =
    first_free (λ v. leb v s.port_end) (port_taken node ports) (s.port_end + 1) s.port_start

-- `for ip := pool.Addr().Next(); ip.IsValid() && pool.Contains(ip.Next()); ip = ip.Next()`
unfoldable pub free_address : Prefix → Map String → Option ℕ
free_address pool addresses =
    first_free (λ ip. ltb ip (2 ^ 32) && contains pool (next ip)) (address_taken addresses) (2 ^ 32)
      (next pool.addr)

abbrev pub exhausted : Result Reservation
exhausted = err (invalid "gateway allocation pool exhausted")

unfoldable pub new_port : String → AllocationRegistry → Option ℕ → Result Reservation
new_port claim reg none = exhausted
new_port claim reg (some v) =
    ok (reserved (record reg { ports = put claim v reg.ports }) (number_text v))

unfoldable pub port_claim :
    Settings → String → String → AllocationRegistry → Option ℕ → Result Reservation
port_claim s node claim reg (some v) = ok (kept (number_text v))
port_claim s node claim reg none = new_port claim reg (free_port s node reg.ports)

unfoldable pub reserve_port : Settings → String → String → AllocationRegistry → Result Reservation
reserve_port s node key reg = do
  reject (text_at key reg.addresses == "") "gateway port needs a retained link address"
  port_claim s node (node ⧺ "/" ⧺ key) reg (find (node ⧺ "/" ⧺ key) reg.ports)

unfoldable pub new_address : String → AllocationRegistry → Option ℕ → Result Reservation
new_address key reg none = exhausted
new_address key reg (some ip) =
    ok (reserved (record reg { addresses = put key (addr_text ip) reg.addresses }) (addr_text ip))

-- a pool that does not parse is the zero prefix, which contains nothing
unfoldable pub free_in : Option Prefix → Map String → Option ℕ
free_in none addresses = none
free_in (some pool) addresses = free_address pool addresses

unfoldable pub address_claim :
    Settings → String → AllocationRegistry → Option String → Result Reservation
address_claim s key reg (some v) = ok (kept v)
address_claim s key reg none =
    new_address key reg (free_in (parse_prefix s.allocation_pool) reg.addresses)

unfoldable pub reserve_address : Settings → String → AllocationRegistry → Result Reservation
reserve_address s key reg = address_claim s key reg (find key reg.addresses)

unfoldable pub reserve : Settings → String → Bool → String → AllocationRegistry → Result Reservation
reserve s key true node reg = reserve_port s node key reg
reserve s key false node reg = reserve_address s key reg
