-- ===== src/Lib.antt =====
-- Verification of the global VPC controllers, a program that joins the virtual networks of a
-- tenant over several Kubernetes clusters with Kube-OVN.
--
-- The program's parts. A site controller plans one locally owned attachment (internal/siteplan)
-- from an administrator's registration (internal/siteconfig). A domain controller plans a VPC over
-- all clusters of a domain (internal/plan, from internal/config) and takes the durable lock of the
-- domain before it changes the topology (internal/controller). The managed platform has locations
-- with CIDR pools (internal/platformconfig), a planner that makes a snapshot of a VPC, its
-- NetworkBinding, for every location (internal/platformplan), and an allocator of network
-- identifiers (internal/platformcontroller). A local installation (internal/localconfig) takes the
-- snapshots over and reports back, and retains its allocations in a ledger
-- (internal/localcontroller); its managed gateways retain their addresses and ports in a registry
-- (internal/managedgateway). An integration package compiles destination routes for Kube-OVN
-- (integration/kube-ovn/destinationroute).
--
-- The files.
--   Prelude: shared names; results (a Go value and error), lists, texts, maps and their keys, sorting,
--     the search for the first free value, checks that values are different, and equality tests.
--   Netip: the IPv4 part of Go's net/netip, as the planners use it: an address is a number below
--     2 ^ 32, a prefix an address and a length. Netip/Blocks is about what prefixes contain,
--     Netip/Number about numbers as texts.
--   Kube: the Kubernetes types; Kube/Validation is the parameter for the validation library, and
--     Kube/Client has programs as trees of API calls, the interface of a server with its
--     documented optimistic concurrency, and `Ensures`, which speaks of every answer and of every
--     change by others between two calls, with its rules in Kube/Ensures. Kube/Retained is about
--     an object whose content only grows under such changes.
--   Binding: the NetworkBinding of api/v1alpha2/types.go, and the equality of its parts.
--   SiteConfig: internal/siteconfig/config.go. `prefix`, `host` and `last_address` are Prefix, Host
--     and LastAddress; `validate` is Config.Validate, `validate_gateways` Grant.validateGateways.
--   SitePlan: internal/siteplan/plan.go. `build` is Build, `transit_exclusions` transitExclusions.
--   GlobalPlan: internal/config/config.go and internal/plan/plan.go; `build` is Build.
--   DestinationRoute: integration/kube-ovn/destinationroute/plan.go: `compile`,
--     `reachable_gateway` and `children`.
--   PlatformConfig: internal/platformconfig/config.go. LocalConfig: internal/localconfig/config.go.
--   PlatformPlan: internal/platformplan/plan.go. PlatformPlan/Names has BindingName, VpcName,
--     SubnetName and Revision, PlatformPlan/Build ValidateSubnet, withdrawn and the loops of Build,
--     PlatformPlan/Snapshots its last loop and `build`, which is Build.
--   LocalSync: internal/localcontroller/sync.go. `decide`, then the write it decides on, then
--     `finish` are Syncer.binding; `once` is Once. LocalSync/Steps has the life of a stored snapshot
--     as a step relation, LocalSync/Planned composes the planner with the synchronization.
--   LocalLedger: internal/localcontroller/allocation.go; `read_allocation_state` is the check of the
--     retained ledger, LocalLedger/Receipts that of the receipts, LocalLedger/Choose the choice of a
--     free network and source, LocalLedger/Allocate the whole of allocate.
--   ManagedGateway: internal/managedgateway/registry.go. ManagedGateway/Decode is storeRegistry's
--     inverse decodeRegistry, Claims validateGatewayClaims, Registry the read of the registry with its
--     bootstrap, Reserve the choice in allocate, Allocate the whole of it.
--   DomainGate: internal/controller/domain.go: `acquire`, `release` and `holder`. DomainGate/System
--     is a step relation of clients that run them call by call.
--   NetworkId: internal/platformcontroller/networkid.go. NetworkId/Scan is the check of the claims,
--     NetworkId/Reserve the numbers, NetworkId/Allocate the whole of networkIDs.
--   Examples: concrete inputs, with tests and the theorems applied at them. Examples/Api is a server.
--
-- Conventions. A loop over a list is a function of its variables by recursion on the list. The fuel of
-- the decimal print of a number is 20, the digits of 64 bits. The searches for a free address, port
-- or network run on fuel that is at least the number of candidates (2 ^ 32 addresses, the last port
-- and one, the networks of the pool); the theorems on exhaustion say that they end without a value
-- only when all candidates are used. A Go map is a list of pairs; a map that is a set is the list of
-- its keys; a range over a map meets the list's order, which is arbitrary. sort.Slice, which may
-- swap equal elements, keeps their order. An error is its text without the values printed in it. A
-- signed number that a lower bound of at least 0 guards is a natural number. A nil slice and an
-- empty one are one list. The answers of List calls are arguments; the repetition after a conflict
-- is a parameter, of which only that it repeats the attempt is known. SHA-256, JSON, the validation
-- library and the Kubernetes API are parameters. A network of length 8 to 14 around 169.254.0.0
-- passes the checks of a pool although it has link-local addresses; the theorems on addresses that are
-- taken from a pool say where they need that it has none. IPv6 texts, which every check of the program
-- refuses, are not parsed.
--
-- Not modelled: loading of files, and the ticker of the synchronization, which are I/O; the
-- reconcilers, which work on more kinds of objects, and with them the members of a managed gateway,
-- its rendering and its probes; the OVN and provider commands and vpcctl, which run processes; and
-- `SetPaused` and `deployment` of the domain gate, which scale Deployments.
pub mod Prelude
pub mod Netip
pub mod Kube
pub mod SiteConfig
pub mod DestinationRoute
pub mod SitePlan
pub mod PlatformConfig
pub mod PlatformPlan
pub mod LocalConfig
pub mod LocalLedger
pub mod LocalSync
pub mod Binding
pub mod ManagedGateway
pub mod DomainGate
pub mod NetworkId
pub mod GlobalPlan
mod Examples
