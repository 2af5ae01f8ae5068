-- ===== src/Node/Provision/OnPrem.antt =====
-- `NewInClusterProvisioner` of provider/onprem/provisioner.go: the peer, and the commands on the
-- node. What the fixed commands do to the node is a parameter, and so are their texts, by the
-- label of their group.
use public_cloud_vm_provisio.Prelude.{
  String, Bool, true, false, Option, none, some, List, [], ◌∷◌, ◌++◌, if◌then◌else◌, is_empty,
  append, trim_space,
}
use public_cloud_vm_provisio.Kubeadm.{trim_v, has_minor, get_tun_ip}
use public_cloud_vm_provisio.Vpn.NetConfig.{NetConfigStatus}
use public_cloud_vm_provisio.Vpn.Register.{WireGuard, Server}
use public_cloud_vm_provisio.Node.Aws.{Answer, ok, err}
use public_cloud_vm_provisio.Node.Runtime.{Config, install_steps}
use public_cloud_vm_provisio.Node.Provision.{NetSpec, PeerEnv, Plan, prepare_peer}

-- `stepGroup`; the label of the empty group is empty.
pub record StepGroup : Type 0 where
  pub label : String
  pub cmds : List String

-- The texts of the fixed commands
pub record Commands : Type 0 where
  pub group : String → List String
  pub tunnel : Plan → List String  -- the group that sets up wg0
  pub packages : String → List String  -- kubelet, kubeadm and kubectl of a version
  pub runtime : Config → List String
  pub read_wg0 : String
  pub read_tunnel : String  -- GetTunIP
  pub reload : String
  pub restart_crio : String
  pub await_socket : String
  pub recover_crio : String
  pub restart_kubelet : String

-- The groups in their order; the tunnel's is left out where wg0 is up.
unfoldable pub tunnel_group : Commands → Plan → String → StepGroup
unfolding is_empty
tunnel_group commands plan existing =
    if is_empty existing
    then record {
      label = "installing WireGuard and configuring VPN tunnel";
      cmds = commands.tunnel plan;
    }
    else record { label = ""; cmds = [] }

unfoldable pub fixed_group : Commands → String → StepGroup
fixed_group commands label = record { label = label; cmds = commands.group label }

unfoldable pub groups_of : Commands → Config → String → Plan → String → List StepGroup
unfolding fixed_group tunnel_group install_steps append trim_v
groups_of commands cfg version plan existing =
    fixed_group commands "cleaning up previous provisioning state"
    ∷ fixed_group commands "disabling swap and configuring kernel modules"
    ∷ fixed_group commands "installing base packages (apt-get update, curl, gnupg)"
    ∷ tunnel_group commands plan existing
    ∷ record {
      label = "installing cnlab-runtime (CRI-O + CRIU + runc + crictl via OCI artifact)";
      cmds = install_steps commands.runtime cfg;
    }
    ∷ fixed_group commands "stopping CRI-O and wiping stale container storage before service enable"
    ∷ record {
      label =
          append "installing Kubernetes packages (kubelet/kubeadm/kubectl v"
            (append (trim_v version) ")");
      cmds = commands.packages (trim_v version);
    }
    ∷ []

-- The node, under commands that answer with an output and whether they succeed; and the steps
-- reported so far.
pub record Machine {ℓ} (N : Type ℓ) : Type ℓ where
  pub node : N
  pub reported : List String

module _ {ℓ} {N : Type ℓ} (exec : String → N → N × String × Bool) where
  unfoldable pub run_command : String → Machine N → Machine N × String × Bool
  run_command cmd m =
      let (node, output, fine) = exec cmd m.node in (record m { node = node }, output, fine)

  -- Commands in their order, up to the first that fails
  unfoldable pub run_commands : List String → Machine N → Machine N × Bool
  unfolding run_command
  run_commands [] m = (m, true)
  run_commands (cmd ∷ cmds) m =
      let (after, output, fine) = run_command cmd m in
      let rest = run_commands cmds after in if fine then rest else (after, false)

  unfoldable pub report_step : String → Machine N → Machine N
  report_step label m = record m { reported = m.reported ++ label ∷ [] }

  -- The loop over the groups
  unfoldable pub run_groups : List StepGroup → Machine N → Machine N × Bool
  unfolding run_commands report_step is_empty
  run_groups [] m = (m, true)
  run_groups (g ∷ groups) m =
      let skipped = run_groups groups m in
      let (after, fine) = run_commands g.cmds (report_step g.label m) in
      let rest = run_groups groups after in
      if is_empty g.label then skipped else if fine then rest else (after, false)

  -- A reported step of one command
  unfoldable pub step : String → String → Machine N × Bool → Machine N × Bool
  unfolding run_commands report_step
  step label cmd (m, false) = (m, false)
  step label cmd (m, true) = run_commands (cmd ∷ []) (report_step label m)

  -- A command of the step before
  unfoldable pub also : String → Machine N × Bool → Machine N × Bool
  unfolding run_commands
  also cmd (m, false) = (m, false)
  also cmd (m, true) = run_commands (cmd ∷ []) m

  -- From the node's address on: kubelet's environment, CRI-O, the join, kubelet.
  unfoldable pub join_node : Commands → NetConfigStatus → String → Machine N → Machine N × Bool
  unfolding step also append report_step
  join_node commands nc ip m =
      let verified = report_step (append "verifying VPN connectivity to " ip) m in
      let env_cmd =
        append "echo 'KUBELET_EXTRA_ARGS=--node-ip="
          (append ip "' | sudo tee /etc/default/kubelet") in
      let join_cmd =
        append "sudo timeout 600 "
          (append nc.cluster_join_command " --cri-socket=unix:///var/run/crio/crio.sock") in
      let configured = also commands.reload (
        step (append "writing kubelet node-ip config (" (append ip ")")) env_cmd
          (verified, true)) in
      let restarted = also commands.await_socket (
        step "restarting CRI-O and waiting for socket readiness" commands.restart_crio
          configured) in
      let recovered =
        step "checking CRI-O image cache consistency" commands.recover_crio restarted in
      let joined =
        step
          "running kubeadm join (may take several minutes — pulling images and bootstrapping TLS)"
          join_cmd recovered in
      step "restarting kubelet to apply node-ip after join" commands.restart_kubelet joined

-- The VPN server and the node
pub record Field {ℓ κ} (T : Type ℓ) (N : Type κ) : Type (ℓ ⊔ κ) where
  pub server : Server T
  pub machine : Machine N

module _ {κ} {N : Type κ} (exec : String → N → N × String × Bool) where
  -- With the tunnel's address, on to the join
  unfoldable pub join_at :
      Commands
      → NetConfigStatus
      → Plan
      → Option String
      → Machine N
      → Machine N × Option (String × String)
  unfolding join_node
  join_at commands nc plan none m = (m, none)
  join_at commands nc plan (some ip) m =
      let (after, fine) = join_node exec commands nc ip m in
      (after, if fine then some (ip, plan.public_key) else none)

  -- Behind the groups
  unfoldable pub finish_node :
      Commands → NetConfigStatus → Plan → Machine N × Bool → Machine N × Option (String × String)
  unfolding report_step run_command get_tun_ip join_at
  finish_node commands nc plan (m, false) = (m, none)
  finish_node commands nc plan (m, true) =
      let (read, output, fine) =
        run_command exec commands.read_tunnel
          (report_step exec "reading VPN tunnel IP from node" m) in
      join_at commands nc plan (get_tun_ip (if fine then some output else none)) read

  -- The commands on the node, with a plan whose peer is registered. What the command that looks for
  -- wg0 prints is taken even if it fails.
  unfoldable pub set_up_node :
      Commands
      → Config
      → NetSpec
      → NetConfigStatus
      → Plan
      → Machine N
      → Machine N × Option (String × String)
  unfolding run_command report_step run_groups groups_of trim_space finish_node is_empty append
  set_up_node commands cfg spec nc plan m =
      let (read, output, fine) = run_command exec commands.read_wg0 m in
      let existing = trim_space output in
      let noted =
        report_step exec
          (append "wg0 already configured (" (append existing ") — skipping WireGuard setup"))
          read in
      finish_node commands nc plan (
        run_groups exec (groups_of commands cfg spec.kubernetes_version plan existing)
          (if is_empty existing then read else noted))

  unfoldable pub with_plan :
      Commands
      → Config
      → NetSpec
      → NetConfigStatus
      → Answer Plan
      → Machine N
      → Machine N × Option (String × String)
  unfolding has_minor set_up_node
  with_plan commands cfg spec nc (err e) m = (m, none)
  with_plan commands cfg spec nc (ok plan) m =
      if has_minor spec.kubernetes_version
      then set_up_node commands cfg spec nc plan m
      else (m, none)

  module _ {ℓ} {T : Type ℓ} where
    -- `NewInClusterProvisioner`: the tunnel's address and the public key, `none` for an error
    unfoldable pub new_in_cluster_provisioner :
        WireGuard T
        → PeerEnv
        → Commands
        → Config
        → NetSpec
        → NetConfigStatus
        → Field T N
        → Field T N × Option (String × String)
    unfolding prepare_peer with_plan
    new_in_cluster_provisioner wg env commands cfg spec nc f =
        let (server, answer) = prepare_peer wg env spec nc (ok []) f.server in
        let (machine, result) = with_plan commands cfg spec nc answer f.machine in
        (record { server = server; machine = machine }, result)
