-- ===== src/Examples/Gateways.antt =====
-- Gateways of one installation: two addresses and a port.
use Prim.Native.Nat.{ℕ}
use native.Mathlib.Omega.{arith}
use kube_ovn_global_vpc.Prelude.{
  ◌<◌, String, true, false, Option, none, some, List, [], ◌∷◌, find, put, text_at, any, first_free,
  check_each, contains_text, ok, err, invalid, Result, ◌≡◌, ◌≢◌, ◌↔◌, refl, sym, ap, subst,
  ok-injective, ◌∙◌, eq_iff, All,
}
use kube_ovn_global_vpc.Netip.Parse.{
  cut_slash, number_text, parse_addr, octets, addr_text, octet_text, parse_bits, parse_uint,
}
use kube_ovn_global_vpc.Netip.Prefix.{
  Prefix, parse_prefix, prefix_text, masked_text, contains, is_global_unicast, is_loopback,
  is_link_local, is_multicast,
}
use kube_ovn_global_vpc.SiteConfig.Prefix.{prefix, host, last_address}
use kube_ovn_global_vpc.SiteConfig.Prefix.Laws.{
  IsNetwork, NoLinkLocal, prefix-IsNetwork, long-NoLinkLocal,
}
use kube_ovn_global_vpc.Kube.Client.{ConfigMap, StoredAs, Program, ◌>>=◌, Ensures}
use kube_ovn_global_vpc.Kube.Ensures.{Repeats, last, again, retry_or}
use kube_ovn_global_vpc.Binding.{GatewayEndpoint}
use kube_ovn_global_vpc.ManagedGateway.Types.{
  Settings, AllocationRegistry, Codec, component_label, store_registry,
}
use kube_ovn_global_vpc.ManagedGateway.Decode.{
  decode_registry, check_registry, pool_of, check_addresses, check_ports, identity_of, bad_cut,
}
use kube_ovn_global_vpc.ManagedGateway.Decode.Laws.{IsRegistry, check_registry-IsRegistry}
use kube_ovn_global_vpc.ManagedGateway.Decode.RoundTrip.{IsCodec, decode_registry-store_registry}
use kube_ovn_global_vpc.ManagedGateway.Claims.{validate_gateway_claims}
use kube_ovn_global_vpc.ManagedGateway.Claims.Laws.{IsGateway, validate_gateway_claims-IsGateway}
use kube_ovn_global_vpc.ManagedGateway.Reserve.{
  reserved, reserve, reserve_port, port_claim, new_port, free_port, free_address, port_taken,
  address_taken,
}
use kube_ovn_global_vpc.ManagedGateway.Reserve.Laws.{free_address-IsFirst}
use kube_ovn_global_vpc.ManagedGateway.Reserve.Outcome.{
  Gets, reserve-Gets, NothingLeft, reserve-NothingLeft,
}
use kube_ovn_global_vpc.ManagedGateway.Registry.{Lists, Found, collect, registry, read_items}
use kube_ovn_global_vpc.ManagedGateway.Registry.Laws.{KeepsClaims}
use kube_ovn_global_vpc.ManagedGateway.Registry.Fenced.{Definite, registry-Unchanged}
use kube_ovn_global_vpc.ManagedGateway.Allocate.{allocate}
use kube_ovn_global_vpc.ManagedGateway.Allocate.Laws.{Granted, allocate-KeepsClaims}
use kube_ovn_global_vpc.Examples.Api.{api, api-IsServer}
use kube_ovn_global_vpc.Examples.Codes.{
  Code, text_code, number_code, pair_code, list_code, value_of, value_of-enc,
}

-- the registry as a text
abbrev Parts : Type 0
Parts = (String × List (String × String)) × List (String × ℕ)

abbrev registry_code : Code Parts
registry_code =
    pair_code (pair_code text_code (list_code (pair_code text_code text_code)))
      (list_code (pair_code text_code number_code))

abbrev parts_of : AllocationRegistry → Parts
parts_of reg = ((reg.cluster_uid, reg.addresses), reg.ports)

abbrev registry_of : Option Parts → Option AllocationRegistry
registry_of none = none
registry_of (some ((uid, addresses), ports)) =
    some (record { cluster_uid = uid; addresses = addresses; ports = ports })

abbrev codec : Codec
codec = record {
  digest = λ s. s;
  short = λ s. s;
  encode = λ reg. registry_code.enc (parts_of reg);
  decode = λ s. registry_of (value_of registry_code s);
  decode_ledger = λ s. none;
}

codec-IsCodec : IsCodec codec
codec-IsCodec reg = ap registry_of (value_of-enc registry_code (parts_of reg))

abbrev settings : Settings
settings = record {
  namespace = "net";
  cluster_uid = "c";
  allocation_pool = "10.9.0.0/24";
  port_start = 20000;
  port_end = 20001;
}

abbrev pool : Prefix
pool = record { addr = 168361984; bits = 24 }

abbrev two_claims : AllocationRegistry
two_claims = record {
  cluster_uid = "c";
  addresses = ("o/g/p", "10.9.0.1") ∷ ("o/h/p", "10.9.0.2") ∷ [];
  ports = ("n/o/g/p", 20000) ∷ [];
}

pool_parsed : prefix "10.9.0.0/24" ≡ ok pool
unfolding prefix last_address octets octet_text addr_text parse_addr cut_slash parse_uint parse_bits
    parse_prefix masked_text prefix_text number_text is_global_unicast is_loopback is_link_local
    is_multicast
pool_parsed = refl

pool_network : IsNetwork pool
pool_network = ((prefix-IsNetwork "10.9.0.0/24").0 pool_parsed).0

pool_clean : NoLinkLocal pool
pool_clean = long-NoLinkLocal pool pool_network (omega arith)

two_checked : check_registry settings two_claims ≡ ok tt
unfolding check_registry pool_of check_addresses check_ports check_each prefix host last_address
    octets octet_text addr_text parse_addr cut_slash parse_uint parse_bits parse_prefix masked_text
    prefix_text number_text is_global_unicast is_loopback is_link_local is_multicast contains
    contains_text bad_cut identity_of text_at
two_checked = refl

check_registry-IsRegistry_example :
    (check_registry settings two_claims ≡ ok tt) ↔ ((p : Prefix) × IsRegistry settings p two_claims)
check_registry-IsRegistry_example = check_registry-IsRegistry settings two_claims

valid : (p : Prefix) × IsRegistry settings p two_claims
valid = (check_registry-IsRegistry settings two_claims).0 two_checked

same_pool : (p : Prefix) × IsRegistry settings p two_claims → IsRegistry settings pool two_claims
same_pool (p, r) =
    let same : p ≡ pool = ok-injective (sym r.pooled ∙ pool_parsed) in
    subst (λ q. IsRegistry settings q two_claims) same r

two_valid : IsRegistry settings pool two_claims
two_valid = same_pool valid

-- the second port of the node, and the third address
second_port :
    reserve settings "o/h/p" true "n" two_claims
    ≡ ok (
        reserved
          (record two_claims { ports = ("n/o/g/p", 20000) ∷ ("n/o/h/p", 20001) ∷ [] })
          "20001")
unfolding reserve reserve_port port_claim free_port first_free port_taken new_port find put text_at
    any number_text
second_port = refl

no_slash : cut_slash "n" ≡ none
unfolding cut_slash
no_slash = refl

unlinked :
    reserve settings "o/x/p" true "n" two_claims
    ≡ err (invalid "gateway port needs a retained link address")
unfolding reserve reserve_port text_at
unlinked = refl

reserve-Gets_example :
    Gets settings pool "o/h/p" true "n" two_claims (
      reserved (record two_claims { ports = ("n/o/g/p", 20000) ∷ ("n/o/h/p", 20001) ∷ [] }) "20001")
reserve-Gets_example =
    reserve-Gets settings pool two_claims two_valid "o/h/p" true "n"
      ((λ e. ground (arith, eq_iff "o/h/p" "")), (λ e. ground (arith, eq_iff "n" "")), no_slash)
      pool_clean second_port

reserve-NothingLeft_example : NothingLeft settings pool two_claims two_valid "o/x/p" true "n"
reserve-NothingLeft_example =
    reserve-NothingLeft settings pool two_claims two_valid "o/x/p" true "n" unlinked

third_address : free_address pool two_claims.addresses ≡ some 168361987
unfolding free_address first_free address_taken any addr_text octet_text contains
third_address = refl

free_address-IsFirst_example :
    (168361984 < 168361987)
    × (168361987 < last_address pool)
    × (address_taken two_claims.addresses 168361987 ≡ false)
    × ((u : ℕ) → 168361984 < u → u < 168361987 → address_taken two_claims.addresses u ≡ true)
free_address-IsFirst_example =
    free_address-IsFirst pool pool_network two_claims.addresses third_address

abbrev stored_object : ConfigMap
stored_object = record {
  namespace = "net";
  name = "managed-gateway-allocations";
  uid = "u";
  resource_version = "1";
  labels = (component_label, "gateway-allocator") ∷ [];
  annotations = [];
  immutable = none;
  values = [];
}

labelled : text_at component_label stored_object.labels ≡ "gateway-allocator"
unfolding text_at
labelled = refl

stored_as :
    StoredAs
      (store_registry codec stored_object two_claims)
      (store_registry codec stored_object two_claims)
unfolding store_registry
stored_as = refl

identified : (store_registry codec stored_object two_claims).uid ≢ ""
unfolding store_registry
identified e = ground (arith, eq_iff "u" "")

decode_registry-store_registry_example :
    decode_registry codec settings (store_registry codec stored_object two_claims) ≡ ok two_claims
decode_registry-store_registry_example =
    decode_registry-store_registry codec settings codec-IsCodec stored_object
      (store_registry codec stored_object two_claims) pool two_claims labelled stored_as identified
      two_valid

abbrev endpoint : GatewayEndpoint
endpoint = record {
  id = "g";
  node_name = "node";
  node_uid = "n";
  endpoint_ip = "192.0.2.1";
  transit_ip = "10.8.0.2";
  public_key = "k";
  local_asn = 4200000000;
  health_ip = "10.9.0.9";
  links =
      record { peer_id = "p"; listen_port = 20000; tunnel_ip = "10.9.0.1"; control_vni = 0 } ∷ [];
  ready = true;
}

validate_gateway_claims-IsGateway_example :
    (validate_gateway_claims two_claims "o" "wireguard-bgp" (endpoint ∷ []) ≡ ok tt)
    ↔ All (IsGateway two_claims "o" "wireguard-bgp") (endpoint ∷ [])
validate_gateway_claims-IsGateway_example =
    validate_gateway_claims-IsGateway two_claims "o" "wireguard-bgp" (endpoint ∷ [])

-- lists that show nothing, and lists with a Pod of a gateway
abbrev quiet : Lists
quiet = record { config_maps = ok []; bindings = ok []; pods = ok []; secrets = ok [] }

abbrev with_pod : Lists
with_pod = record quiet { pods = ok (record { name = "pg-1"; labels = [] } ∷ []) }

abbrev traces : Found
traces = record { evidence = true; ledgers = []; bindings = [] }

collected : collect codec settings [] with_pod ≡ ok traces
unfolding collect read_items any text_at
collected = refl

registry-Unchanged_example :
    Ensures api
      (λ v v'. v' ≡ v)
      (Definite api codec settings)
      (registry codec settings true [] with_pod)
      []
registry-Unchanged_example =
    registry-Unchanged api api-IsServer codec settings [] traces refl true with_pod [] collected

-- two attempts at most
abbrev twice : (ℕ → Program (Result String)) → Program (Result String)
twice attempts = attempts 0 >>= retry_or (attempts 1)

twice-Repeats : (attempts : ℕ → Program (Result String)) → Repeats attempts 0 (twice attempts)
twice-Repeats attempts = again 0 (attempts 1) (last 1)

clean : (p : Prefix) → prefix settings.allocation_pool ≡ ok p → NoLinkLocal p
clean p h = subst NoLinkLocal (ok-injective (sym pool_parsed ∙ h)) pool_clean

allocate-KeepsClaims_example :
    Ensures api
      (KeepsClaims api api-IsServer codec settings)
      (Granted api api-IsServer codec codec-IsCodec settings clean "o/g/p" false "")
      (allocate twice codec settings "o/g/p" false "" (λ _. quiet))
      []
allocate-KeepsClaims_example =
    allocate-KeepsClaims api api-IsServer codec codec-IsCodec settings clean twice twice-Repeats
      "o/g/p" false "" (λ _. quiet) []
