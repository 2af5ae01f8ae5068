-- ===== src/Cluster/Remote.antt =====
-- What the RemoteCluster controller writes to the NodeProvisionNetConfig on the remote cluster, by
-- kubectl over SSH: `VPNRangeToCIDR`, `handleCreateUpdateNodeProvisionConfig` and
-- `patchRemoteNetConfigJoinCmd` of internal/controller/remotecluster_controller.go. Not modelled: the
-- specification that is applied (but for its VPN range), the kubeconfig, the refresh timer and the
-- pre-pull DaemonSets, whose failures are only logged.
use public_cloud_vm_provisio.Prelude.{
  String, Bool, true, false, not, ◌&&◌, ◌||◌, Option, none, some, [], ◌∷◌, ◌++◌, if◌then◌else◌,
  is_empty, append, trim_space,
}
use public_cloud_vm_provisio.Net.{parse_ip, print_ip}
use public_cloud_vm_provisio.Vpn.Allocate.{member}
use public_cloud_vm_provisio.Cluster.{World, RemoteNetConfig, RemoteCluster}

-- `VPNRangeToCIDR`
unfoldable pub vpn_range_to_cidr : String → String
unfolding trim_space append
vpn_range_to_cidr s = elim (parse_ip (trim_space s)) [
  | none ↦ ""
  | some ip ↦ append (print_ip (record ip { b3 = 0 })) "/24"
]

-- What the calls of one run of `handleCreateUpdateNodeProvisionConfig` answer.
pub record NetEnv : Type 0 where
  pub wg0 : Option String  -- ip -4 addr show wg0
  pub vpn_secret_read : Bool
  pub vpn_secret_applied : Bool
  pub pull_secret_read : Bool
  pub pull_secret_applied : Bool
  pub applied : Bool
  pub status_patched : Bool
  pub appended : Bool

-- The secrets that are copied to the remote cluster, or the error of one of them.
unfoldable pub copy_secrets : NetEnv → RemoteCluster → RemoteCluster → Bool
unfolding is_empty
copy_secrets env cluster parent =
    (is_empty cluster.vpn.credentials || (env.vpn_secret_read && env.vpn_secret_applied))
    && elim parent.pull_secret [
      | none ↦ true
      | some name ↦ env.pull_secret_read && env.pull_secret_applied
    ]

-- `kubectl apply` of the NetConfig, which makes one with an empty status where there is none.
unfoldable pub applied_config : Option RemoteNetConfig → RemoteNetConfig
applied_config none = record { join_command = ""; used_ip_addresses = [] }
applied_config (some net) = net

-- The resolved address of wg0.
unfoldable pub wg0_ip : Option String → String
unfolding trim_space
wg0_ip none = ""
wg0_ip (some output) = trim_space output

-- The action "create", and whether it returns without an error.
unfoldable pub create_node_provision_config : NetEnv → RemoteCluster → World → World × Bool
unfolding copy_secrets applied_config wg0_ip is_empty
create_node_provision_config env parent w =
    let ip = wg0_ip env.wg0 in
    let net = applied_config w.remote in
    if is_empty ip || not (copy_secrets env w.cluster parent) || not env.applied
    then (w, false)
    else if not env.status_patched
    then (record w { remote = some net }, false)
    else (
      record w {
        remote = some (record net {
          join_command = w.cluster.status.join_command;
          used_ip_addresses = ip ∷ [];
        });
      },
      true,
    )

-- The script of the action "update" on the list of used addresses; the patch fails where there is no
-- NetConfig.
unfoldable pub append_ip : String → Option RemoteNetConfig → Option RemoteNetConfig
append_ip ip none = none
append_ip ip (some net) = some (record net {
  used_ip_addresses =
      if member net.used_ip_addresses ip
      then net.used_ip_addresses
      else net.used_ip_addresses ++ ip ∷ [];
})

-- The action "update", and whether it returns without an error.
unfoldable pub update_node_provision_config : NetEnv → String → World → World × Bool
unfolding append_ip is_empty
update_node_provision_config env ip w = elim (append_ip ip w.remote) [
  | none ↦ (w, false)
  | some net ↦
      if is_empty ip || not env.appended then (w, false) else (record w { remote = some net }, true)
]

-- `patchRemoteNetConfigJoinCmd`, whose failure is only logged.
unfoldable pub patch_remote_join_cmd : Bool → String → World → World
patch_remote_join_cmd patched cmd w = elim w.remote [
  | none ↦ w
  | some net ↦ if patched then record w { remote = some (record net { join_command = cmd }) } else w
]
