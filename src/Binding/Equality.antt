-- ===== src/Binding/Equality.antt =====
-- The equality of specifications and of reports, as `reflect.DeepEqual` decides it.
use kube_ovn_global_vpc.Prelude.{
  refl, Equal, text_equal, number_equal, bool_equal, pair_equal, list_equal, parts_equal,
}
use kube_ovn_global_vpc.Binding.{
  ObjectIdentity, BindingSubnet, RemoteSubnet, GatewayLink, GatewayEndpoint, LinkAllocation,
  PeerGateway, NetworkBindingSpec, ResourceRecord, Condition, NetworkBindingStatus,
}

abbrev pub identity_equal : Equal ObjectIdentity
identity_equal =
    parts_equal (λ x. (x.namespace, (x.name, x.uid)))
      (λ p. record { namespace = p.0; name = p.1.0; uid = p.1.1 }) (λ x. refl)
      (pair_equal text_equal (pair_equal text_equal text_equal))

abbrev pub subnet_equal : Equal BindingSubnet
subnet_equal =
    parts_equal (λ x. (x.name, (x.uid, (x.cidr, (x.gateway, (x.native_subnet_name, x.deleting))))))
      (λ p. record {
        name = p.0;
        uid = p.1.0;
        cidr = p.1.1.0;
        gateway = p.1.1.1.0;
        native_subnet_name = p.1.1.1.1.0;
        deleting = p.1.1.1.1.1;
      })
      (λ x. refl)
      (pair_equal text_equal (
        pair_equal text_equal
          (pair_equal text_equal (pair_equal text_equal (pair_equal text_equal bool_equal)))))

abbrev pub remote_equal : Equal RemoteSubnet
remote_equal =
    parts_equal (λ x. (x.location_ref, x.cidr)) (λ p. record { location_ref = p.0; cidr = p.1 })
      (λ x. refl) (pair_equal text_equal text_equal)

abbrev pub link_equal : Equal GatewayLink
link_equal =
    parts_equal (λ x. (x.peer_id, (x.listen_port, (x.tunnel_ip, x.control_vni))))
      (λ p. record {
        peer_id = p.0;
        listen_port = p.1.0;
        tunnel_ip = p.1.1.0;
        control_vni = p.1.1.1;
      })
      (λ x. refl)
      (pair_equal text_equal (pair_equal number_equal (pair_equal text_equal number_equal)))

abbrev pub endpoint_equal : Equal GatewayEndpoint
endpoint_equal =
    parts_equal
      (λ x. (
        x.id,
        (
          x.node_name,
          (
            x.node_uid,
            (
              x.endpoint_ip,
              (x.transit_ip, (x.public_key, (x.local_asn, (x.health_ip, (x.links, x.ready))))),
            ),
          ),
        ),
      ))
      (λ p. record {
        id = p.0;
        node_name = p.1.0;
        node_uid = p.1.1.0;
        endpoint_ip = p.1.1.1.0;
        transit_ip = p.1.1.1.1.0;
        public_key = p.1.1.1.1.1.0;
        local_asn = p.1.1.1.1.1.1.0;
        health_ip = p.1.1.1.1.1.1.1.0;
        links = p.1.1.1.1.1.1.1.1.0;
        ready = p.1.1.1.1.1.1.1.1.1;
      })
      (λ x. refl)
      (pair_equal text_equal (
        pair_equal text_equal (
          pair_equal text_equal (
            pair_equal text_equal (
              pair_equal text_equal (
                pair_equal text_equal (
                  pair_equal number_equal
                    (pair_equal text_equal (pair_equal (list_equal link_equal) bool_equal)))))))))

abbrev pub allocation_equal : Equal LinkAllocation
allocation_equal =
    parts_equal (λ x. (x.peer_a, (x.peer_b, x.control_vni)))
      (λ p. record { peer_a = p.0; peer_b = p.1.0; control_vni = p.1.1 }) (λ x. refl)
      (pair_equal text_equal (pair_equal text_equal number_equal))

abbrev pub peer_equal : Equal PeerGateway
peer_equal =
    parts_equal (λ x. (x.location_ref, x.endpoint))
      (λ p. record { location_ref = p.0; endpoint = p.1 }) (λ x. refl)
      (pair_equal text_equal endpoint_equal)

abbrev pub spec_equal : Equal NetworkBindingSpec
spec_equal =
    parts_equal
      (λ x. (
        x.vpc_ref,
        (
          x.network_id,
          (
            x.local_asn,
            (
              x.location_ref,
              (
                x.network_class_ref,
                (
                  x.native_vpc_name,
                  (
                    x.transport_profile,
                    (
                      x.subnets,
                      (
                        x.authorized_locations,
                        (
                          x.remote_subnets,
                          (x.peers, (x.link_allocations, (x.revision, x.deleting))),
                        ),
                      ),
                    ),
                  ),
                ),
              ),
            ),
          ),
        ),
      ))
      (λ p. record {
        vpc_ref = p.0;
        network_id = p.1.0;
        local_asn = p.1.1.0;
        location_ref = p.1.1.1.0;
        network_class_ref = p.1.1.1.1.0;
        native_vpc_name = p.1.1.1.1.1.0;
        transport_profile = p.1.1.1.1.1.1.0;
        subnets = p.1.1.1.1.1.1.1.0;
        authorized_locations = p.1.1.1.1.1.1.1.1.0;
        remote_subnets = p.1.1.1.1.1.1.1.1.1.0;
        peers = p.1.1.1.1.1.1.1.1.1.1.0;
        link_allocations = p.1.1.1.1.1.1.1.1.1.1.1.0;
        revision = p.1.1.1.1.1.1.1.1.1.1.1.1.0;
        deleting = p.1.1.1.1.1.1.1.1.1.1.1.1.1;
      })
      (λ x. refl)
      (pair_equal identity_equal (
        pair_equal number_equal (
          pair_equal number_equal (
            pair_equal text_equal (
              pair_equal text_equal (
                pair_equal text_equal (
                  pair_equal text_equal (
                    pair_equal (list_equal subnet_equal) (
                      pair_equal (list_equal text_equal) (
                        pair_equal (list_equal remote_equal) (
                          pair_equal (list_equal peer_equal) (
                            pair_equal (list_equal allocation_equal)
                              (pair_equal text_equal bool_equal)))))))))))))

abbrev pub resource_equal : Equal ResourceRecord
resource_equal =
    parts_equal (λ x. (x.api_version, (x.kind, (x.namespace, (x.name, x.uid)))))
      (λ p. record {
        api_version = p.0;
        kind = p.1.0;
        namespace = p.1.1.0;
        name = p.1.1.1.0;
        uid = p.1.1.1.1;
      })
      (λ x. refl)
      (pair_equal text_equal
        (pair_equal text_equal (pair_equal text_equal (pair_equal text_equal text_equal))))

abbrev pub condition_equal : Equal Condition
condition_equal =
    parts_equal
      (λ x. (x.condition_type, (x.status, (x.observed_generation, (x.reason, x.message)))))
      (λ p. record {
        condition_type = p.0;
        status = p.1.0;
        observed_generation = p.1.1.0;
        reason = p.1.1.1.0;
        message = p.1.1.1.1;
      })
      (λ x. refl)
      (pair_equal text_equal
        (pair_equal text_equal (pair_equal number_equal (pair_equal text_equal text_equal))))

abbrev pub status_equal : Equal NetworkBindingStatus
status_equal =
    parts_equal
      (λ x. (
        x.observed_generation,
        (x.phase, (x.applied_revision, (x.resources, (x.gateways, x.conditions)))),
      ))
      (λ p. record {
        observed_generation = p.0;
        phase = p.1.0;
        applied_revision = p.1.1.0;
        resources = p.1.1.1.0;
        gateways = p.1.1.1.1.0;
        conditions = p.1.1.1.1.1;
      })
      (λ x. refl)
      (pair_equal number_equal (
        pair_equal text_equal (
          pair_equal text_equal (
            pair_equal (list_equal resource_equal)
              (pair_equal (list_equal endpoint_equal) (list_equal condition_equal))))))
