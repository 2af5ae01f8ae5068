-- ===== src/Node/Provision/Examples.antt =====
-- The provisioners on a concrete VPN server, cloud and node.
use public_cloud_vm_provisio.Prelude.{
  String, ◌≡◌, refl, ◌≢◌, true, false, some, [], arith, eq_iff, trim_space, is_empty,
}
use public_cloud_vm_provisio.Vpn.Allocate.{
  get_next_available_ip, search_free, search_fuel, known_peers, lookup_peer, member,
}
use public_cloud_vm_provisio.Net.{parse_cidr, increment_ip, contains, print_ip}
use public_cloud_vm_provisio.Vpn.Register.Live.{IsRead}
use public_cloud_vm_provisio.Vpn.Register.Examples.{table_wg, table_wg-IsWireGuard}
use public_cloud_vm_provisio.Kubeadm.{has_minor}
use public_cloud_vm_provisio.Node.Aws.{ok, launched, provisioned}
use public_cloud_vm_provisio.Node.Examples.{cloud_env, fresh_world}
use public_cloud_vm_provisio.Node.Provision.{api_routes, plan_peer, prepare_peer}
use public_cloud_vm_provisio.Node.Provision.Cloud.{provision_ec2_node}
use public_cloud_vm_provisio.Node.Provision.OnPrem.{new_in_cluster_provisioner}
use public_cloud_vm_provisio.Node.Provision.Plans.{prepare-succeeds}
use public_cloud_vm_provisio.Node.Provision.Peers.{IsBacked, provision_ec2_node-IsBacked}
use public_cloud_vm_provisio.Node.Provision.Leaks.{ec2_refused-leaks, again-apart}
use public_cloud_vm_provisio.Node.Provision.Skipped.{IsTunnel}
use public_cloud_vm_provisio.Node.Provision.Tunnel.{provisioner-apart}
use public_cloud_vm_provisio.Node.Provision.Samples.{
  keep_order-IsWalk, peer_env, net_spec, net_config, site, plan, scripts, node_spec, ec2_env,
  bare_plan, stale_exec, commands, cfg, field,
}

planned : plan_peer peer_env net_spec net_config (api_routes net_config) ≡ ok plan
unfolding plan_peer api_routes get_next_available_ip search_free search_fuel contains increment_ip
planned = refl

provision_ec2_node-IsBacked_example :
    IsBacked table_wg net_config
      (provision_ec2_node table_wg scripts peer_env ec2_env node_spec net_spec net_config site)
provision_ec2_node-IsBacked_example =
    provision_ec2_node-IsBacked table_wg table_wg-IsWireGuard scripts peer_env ec2_env node_spec
      net_spec net_config site keep_order-IsWalk

ec2_launched :
    (provision_ec2_node table_wg scripts peer_env ec2_env node_spec net_spec net_config site).1
    ≡ launched (record { instance_id = "i-1"; vpn_ip = "10.8.0.3"; public_key = "kb" })
unfolding provision_ec2_node get_next_available_ip search_free search_fuel contains increment_ip
ec2_launched = refl

bad_planned :
    plan_peer peer_env
      (record net_spec { kubernetes_version = "v1" })
      net_config
      (api_routes net_config)
    ≡ ok plan
unfolding plan_peer get_next_available_ip print_ip search_free search_fuel contains increment_ip
    api_routes
bad_planned = refl

ec2_refused-leaks_example :
    let (t, result) =
      provision_ec2_node table_wg scripts peer_env ec2_env node_spec
        (record net_spec { kubernetes_version = "v1" })
        net_config
        site in
    (t.server.table "10.8.0.3" ≡ some "kb")
    × ((provisioned (cloud_env true true) "EC2 provisioning failed" result fresh_world).0.net
        ≡ fresh_world.net)
unfolding has_minor provision_ec2_node table_wg
ec2_refused-leaks_example =
    ec2_refused-leaks table_wg table_wg-IsWireGuard scripts peer_env ec2_env node_spec
      (record net_spec { kubernetes_version = "v1" }) net_config site plan (cloud_env true true)
      fresh_world keep_order-IsWalk refl refl refl refl bad_planned refl

site-IsRead : IsRead table_wg peer_env.register site.server
unfolding IsRead table_wg
site-IsRead ip = refl

owned_before : site.server.table "10.8.0.2" ≡ some "ka"
unfolding known_peers lookup_peer parse_cidr print_ip
owned_before = refl

bare_planned : plan_peer peer_env net_spec net_config (ok []) ≡ ok bare_plan
unfolding plan_peer get_next_available_ip print_ip search_free search_fuel contains increment_ip
bare_planned = refl

prepared : (prepare_peer table_wg peer_env net_spec net_config (ok []) site.server).1 ≡ ok bare_plan
prepared =
    prepare-succeeds table_wg table_wg-IsWireGuard peer_env net_spec net_config (ok []) site.server
      keep_order-IsWalk refl refl refl refl bare_planned

again-apart_example :
    (bare_plan.vpn_ip ≢ "10.8.0.2")
    × (table_wg.owner
          (prepare_peer table_wg peer_env net_spec net_config (ok []) site.server).0.table
          "10.8.0.2"
        ≡ some "ka")
    × (table_wg.owner
          (prepare_peer table_wg peer_env net_spec net_config (ok []) site.server).0.table
          "10.8.0.3"
        ≡ some "kb")
unfolding table_wg lookup_peer
again-apart_example =
    again-apart table_wg table_wg-IsWireGuard peer_env net_spec net_config (ok []) site.server
      "10.8.0.2" "ka" keep_order-IsWalk site-IsRead refl owned_before
      (ground (arith, eq_iff "ka" "kb")) prepared

-- A node whose wg0 was up before: the address of another peer is answered with the new key, and the
-- server keeps it for the other peer.
bootstrapped :
    (new_in_cluster_provisioner stale_exec table_wg peer_env commands cfg net_spec net_config
      field).1
    ≡ some ("10.8.0.2", "kb")
unfolding new_in_cluster_provisioner get_next_available_ip print_ip search_free search_fuel contains
    increment_ip
bootstrapped = refl

stale-IsTunnel : IsTunnel stale_exec (λ address. address) commands
stale-IsTunnel = record {
  groups = λ label. (λ n. refl, tt);
  packages = λ version. (λ n. refl, tt);
  runtime = λ c. (λ n. refl, tt);
  read_wg0_keeps = λ n. refl;
  read_wg0_prints = λ n. refl;
  read_tunnel_prints = λ n. refl;
}

provisioner-apart_example :
    let table =
      (new_in_cluster_provisioner stale_exec table_wg peer_env commands cfg net_spec net_config
        field).0.server.table in
    ("10.8.0.2" ≡ trim_space "10.8.0.2\n")
    × (table_wg.owner table "10.8.0.2" ≡ some "ka")
    × ((vpn_ip : String) × (table_wg.owner table vpn_ip ≡ some "kb")
        × (member net_config.used_ip_addresses vpn_ip ≡ false))
unfolding table_wg lookup_peer trim_space is_empty
provisioner-apart_example =
    provisioner-apart stale_exec table_wg table_wg-IsWireGuard (λ address. address) peer_env
      commands cfg net_spec net_config field "10.8.0.2" "kb" "pb" "ka" stale-IsTunnel refl
      keep_order-IsWalk site-IsRead refl (ground (arith, eq_iff "ka" "kb")) owned_before
      bootstrapped
