-- ===== src/Examples/Allocations.antt =====
-- Local allocations from small pools.
use Prim.Native.Nat.{ℕ}
use native.Mathlib.Omega.{arith}
use kube_ovn_global_vpc.Prelude.{
  ◌-◌, ◌^◌, ◌<◌, ◌≤◌, String, true, false, Option, none, some, List, [], ◌∷◌, Map, find, text_at,
  any, first_free, ok, err, invalid, ◌≡◌, ◌≢◌, ◌⊎◌, refl, ap, ◌∙◌, All,
}
use kube_ovn_global_vpc.Netip.Parse.{
  cut_slash, number_text, parse_addr, octets, addr_text, octet_text, parse_bits, parse_uint,
}
use kube_ovn_global_vpc.Netip.Prefix.{
  Prefix, block, parse_prefix, prefix_text, masked_text, is_global_unicast, is_loopback,
  is_link_local, is_multicast,
}
use kube_ovn_global_vpc.SiteConfig.Prefix.{prefix, last_address}
use kube_ovn_global_vpc.SiteConfig.Prefix.Laws.{prefix-IsNetwork, long-NoLinkLocal}
use kube_ovn_global_vpc.Kube.Client.{ConfigMap, Ensures}
use kube_ovn_global_vpc.Binding.{NetworkBinding}
use kube_ovn_global_vpc.LocalConfig.{Config}
use kube_ovn_global_vpc.LocalLedger.{Allocation, AllocatorState}
use kube_ovn_global_vpc.LocalLedger.Laws.{IsRetained, Separate}
use kube_ovn_global_vpc.LocalLedger.Receipts.{
  ReceiptCodec, receipt_of, same_allocation, bad_receipt, validate_allocation_receipts,
}
use kube_ovn_global_vpc.LocalLedger.Receipts.Laws.{
  IsReceipt, validate_allocation_receipts-IsReceipt,
}
use kube_ovn_global_vpc.LocalLedger.Choose.{
  ip_at, transit_at, transit_used, source_used, free_transit, free_source, chosen, choose_from,
  choose,
}
use kube_ovn_global_vpc.LocalLedger.Choose.Fresh.{
  HasPools, NoLinkLocalPools, choose-IsRetained, choose-exhausted,
}
use kube_ovn_global_vpc.LocalLedger.Allocate.{Tools, allocate}
use kube_ovn_global_vpc.LocalLedger.Allocate.Writes.{KeepsAllocations, IsAllocated}
use kube_ovn_global_vpc.LocalLedger.Allocate.Laws.{allocate-KeepsAllocations}
use kube_ovn_global_vpc.Examples.Api.{api, api-IsServer}
use kube_ovn_global_vpc.Examples.Codes.{
  Code, text_code, pair_code, list_code, value_of, value_of-enc,
}

abbrev Parts : Type 0
Parts = (String × List (String × (String × (String × String)))) × List (String × String)

abbrev state_code : Code Parts
state_code =
    pair_code
      (pair_code text_code
        (list_code (pair_code text_code (pair_code text_code (pair_code text_code text_code)))))
      (list_code (pair_code text_code text_code))

abbrev parts_of : Map Allocation → List (String × (String × (String × String)))
parts_of [] = []
parts_of ((k, a) ∷ m) = (k, (a.transit_cidr, (a.router_ip, a.bfd_source_ip))) ∷ parts_of m

abbrev allocations_of : List (String × (String × (String × String))) → Map Allocation
allocations_of [] = []
allocations_of ((k, (t, (r, s))) ∷ m) =
    (k, record { transit_cidr = t; router_ip = r; bfd_source_ip = s }) ∷ allocations_of m

allocations_back : (m : Map Allocation) → allocations_of (parts_of m) ≡ m
allocations_back [] = refl
allocations_back ((k, a) ∷ m) = ap (λ l. (k, a) ∷ l) (allocations_back m)

abbrev state_of : Option Parts → Option AllocatorState
state_of none = none
state_of (some ((uid, allocations), uids)) =
    some
      (record { cluster_uid = uid; allocations = allocations_of allocations; binding_uids = uids })

abbrev encode : AllocatorState → String
encode st = state_code.enc ((st.cluster_uid, parts_of st.allocations), st.binding_uids)

abbrev tools : Tools
tools = record {
  validation = record {
    is_dns_label = λ _. true;
    is_dns_subdomain = λ _. true;
    is_label_value = λ _. true;
    is_qualified_name = λ _. true;
    is_label_selector = λ _. true;
  };
  codec = record { digest = λ s. s; decode = λ s. state_of (value_of state_code s) };
  encode = encode;
  receipts = record { encode_receipt = λ _. "r"; decode_receipt = λ _. none };
}

decode-encode : (st : AllocatorState) → tools.codec.decode (encode st) ≡ some st
decode-encode st =
    ap state_of
      (value_of-enc state_code ((st.cluster_uid, parts_of st.allocations), st.binding_uids))
    ∙ ap
        (λ m. some (record {
          cluster_uid = st.cluster_uid;
          allocations = m;
          binding_uids = st.binding_uids;
        }))
        (allocations_back st.allocations)

-- pools with room for one allocation
abbrev pub config : Config
config = record {
  location_ref = "l";
  cluster_uid = "c";
  namespace = "net";
  authority_namespace = "auth";
  authority_kubeconfig = "kube";
  gateway_node_selector = ("role", "gateway") ∷ [];
  endpoint_annotation = "";
  transit_pool = "10.8.0.0/29";
  transit_prefix_length = 29;
  bfd_source_pool = "10.7.0.0/29";
  gateway_replicas = 2;
  gateway_image = "image";
  mtu = 1400;
  control_pool = "10.9.0.0/24";
  port_start = 20000;
  port_end = 20100;
  runtime_dir = "/run";
}

abbrev transit_pool : Prefix
transit_pool = record { addr = 168296448; bits = 29 }

abbrev source_pool : Prefix
source_pool = record { addr = 168230912; bits = 29 }

transit_parsed : prefix "10.8.0.0/29" ≡ ok transit_pool
unfolding prefix last_address octets octet_text addr_text parse_addr cut_slash parse_uint parse_bits
    number_text parse_prefix prefix_text masked_text is_loopback is_link_local is_multicast
    is_global_unicast
transit_parsed = refl

source_parsed : prefix "10.7.0.0/29" ≡ ok source_pool
unfolding prefix last_address octets octet_text addr_text parse_addr cut_slash parse_uint parse_bits
    number_text parse_prefix prefix_text masked_text is_loopback is_link_local is_multicast
    is_global_unicast
source_parsed = refl

abbrev pools : HasPools config
pools = record {
  pool = transit_pool;
  transit = transit_parsed;
  bfd = source_pool;
  source = source_parsed;
  fits = omega arith;
  short = omega arith;
}

unlinked : NoLinkLocalPools config pools
unlinked = record {
  transit =
      long-NoLinkLocal transit_pool ((prefix-IsNetwork "10.8.0.0/29").0 transit_parsed).0
        (omega arith);
  source =
      long-NoLinkLocal source_pool ((prefix-IsNetwork "10.7.0.0/29").0 source_parsed).0
        (omega arith);
}

abbrev first_allocation : Allocation
first_allocation = record {
  transit_cidr = "10.8.0.0/29";
  router_ip = "10.8.0.1";
  bfd_source_ip = "10.7.0.1";
}

first_chosen : choose config [] ≡ ok first_allocation
unfolding choose choose_from chosen free_transit free_source first_free transit_at ip_at
    transit_used source_used any octets octet_text addr_text parse_addr cut_slash parse_uint
    parse_bits number_text parse_prefix prefix_text
first_chosen = refl

choose-IsRetained_example :
    IsRetained config [] [] ("s1", first_allocation) × All (Separate ("s1", first_allocation)) []
choose-IsRetained_example = choose-IsRetained config pools [] unlinked first_chosen "s1" tt

second_refused :
    choose config (("s1", first_allocation) ∷ [])
    ≡ err (
        invalid
          "reserved local network pool exhausted; retained allocations are not automatically reused")
unfolding choose choose_from chosen free_transit free_source first_free transit_at ip_at
    transit_used source_used any octets octet_text addr_text parse_addr cut_slash parse_uint
    parse_bits number_text parse_prefix prefix_text
second_refused = refl

choose-exhausted_example :
    ((i : ℕ)
      → i < 2 ^ (config.transit_prefix_length - pools.pool.bits)
      → transit_used
          (("s1", first_allocation) ∷ [])
          (prefix_text (transit_at pools.pool config.transit_prefix_length i))
        ≡ true)
    ⊎ ((j : ℕ)
        → 1 ≤ j
        → j < block pools.bfd.bits - 1
        → source_used (("s1", first_allocation) ∷ []) (addr_text (ip_at pools.bfd j)) ≡ true)
choose-exhausted_example =
    choose-exhausted config pools (("s1", first_allocation) ∷ []) second_refused

abbrev pub binding : NetworkBinding
binding = record {
  namespace = "net";
  name = "nb-1";
  uid = "b1";
  resource_version = "1";
  generation = 1;
  labels = [];
  annotations = ("platform.globalvpc.io/source-binding-uid", "s1") ∷ [];
  spec = record {
    vpc_ref = record { namespace = "p"; name = "v"; uid = "v1" };
    network_id = 1;
    local_asn = 4200000000;
    location_ref = "l";
    network_class_ref = "default";
    native_vpc_name = "pv-1";
    transport_profile = "wireguard-bgp";
    subnets = [];
    authorized_locations = [];
    remote_subnets = [];
    peers = [];
    link_allocations = [];
    revision = "r";
    deleting = false;
  };
  status = record {
    observed_generation = 0;
    phase = "";
    applied_revision = "";
    resources = [];
    gateways = [];
    conditions = [];
  };
}

allocate-KeepsAllocations_example :
    Ensures api
      (KeepsAllocations api api-IsServer tools decode-encode config pools unlinked binding)
      (IsAllocated api api-IsServer tools decode-encode config pools unlinked binding)
      (allocate tools config binding (ok (binding ∷ [])))
      []
allocate-KeepsAllocations_example =
    allocate-KeepsAllocations api api-IsServer tools decode-encode config pools unlinked binding
      (ok (binding ∷ [])) []

-- a receipt as the ledger gives it
abbrev one_state : AllocatorState
one_state = record {
  cluster_uid = "c";
  allocations = ("s1", first_allocation) ∷ [];
  binding_uids = ("s1", "b1") ∷ [];
}

abbrev receipts : ReceiptCodec
receipts = record {
  encode_receipt = λ _. "r";
  decode_receipt = λ _. some (record {
    cluster_uid = "c";
    source_uid = "s1";
    binding_uid = "b1";
    ledger_uid = "u";
    allocation = first_allocation;
  });
}

abbrev ledger : ConfigMap
ledger = record {
  namespace = "net";
  name = "managed-network-allocations";
  uid = "u";
  resource_version = "1";
  labels = [];
  annotations = [];
  immutable = none;
  values = [];
}

abbrev received : NetworkBinding
received = record binding {
  annotations =
      ("platform.globalvpc.io/source-binding-uid", "s1")
      ∷ ("platform.globalvpc.io/allocation-receipt", "r")
      ∷ [];
}

received_valid : validate_allocation_receipts receipts ledger one_state (received ∷ []) ≡ ok tt
unfolding validate_allocation_receipts bad_receipt same_allocation text_at find
received_valid = refl

validate_allocation_receipts-IsReceipt_example :
    All (λ b. receipt_of b ≢ "" → IsReceipt receipts ledger one_state b) (received ∷ [])
validate_allocation_receipts-IsReceipt_example =
    validate_allocation_receipts-IsReceipt receipts ledger one_state (received ∷ []) received_valid
