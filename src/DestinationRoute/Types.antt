-- ===== src/DestinationRoute/Types.antt =====
-- The intent and the compiled plan of integration/kube-ovn/destinationroute/plan.go.
use kube_ovn_global_vpc.Prelude.{ℕ, String, List, Map, Bool, ◌&&◌, eqb}

-- A negative number is refused by the same lower bound as 0, so timers are ℕ.
pub record Bfd : Type 0 where
  pub min_rx : ℕ
  pub min_tx : ℕ
  pub multiplier : ℕ

pub record Intent : Type 0 where
  pub cidr : String
  pub next_hops : List String
  pub bfd : Bfd
  pub selection_fields : List String

pub record Plan : Type 0 where
  pub routes : List Intent
  pub sessions : Map Bfd
  pub hash : String

-- Go's `==` on two values of `BFD`
unfoldable pub same_timers : Bfd → Bfd → Bool
same_timers a b = eqb a.min_rx b.min_rx && eqb a.min_tx b.min_tx && eqb a.multiplier b.multiplier
