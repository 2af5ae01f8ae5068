-- ===== src/Cluster/Worker.antt =====
-- A worker's provisioning: `reconcileWorker` of internal/controller/remotecluster_controller.go. The
-- labels for the pre-pull DaemonSets at its end, whose failure is only logged, are not modelled.
pub mod Join
pub mod Waits
use public_cloud_vm_provisio.Prelude.{
  ℕ, ◌+◌, ◌-◌, String, Bool, true, false, not, ◌&&◌, ◌||◌, Option, none, some, [], ◌∷◌, ◌++◌,
  if◌then◌else◌, is_empty, itoa,
}
use public_cloud_vm_provisio.Kubeadm.{WorkerEnv, join_worker_node}
use public_cloud_vm_provisio.Cluster.{
  World, RemoteCluster, Result, Phase, ready, set_status, fail, update, refetch, patch_annotation,
  find_control_plane, start_phase, has_value, last_completed_phase_worker, stop, error,
  control_plane_retry_interval,
}
use public_cloud_vm_provisio.Cluster.Remote.{NetEnv, update_node_provision_config}

-- What the calls of one run of `reconcileWorker` answer.
pub record JoinEnv : Type 0 where
  pub listed : Bool
  pub synced_found : Bool
  pub synced : Bool
  pub ssh : Bool  -- to the control plane
  pub runtime : Bool
  pub answers : String → Bool  -- of the commands on the worker
  pub progress_saved : ℕ → Bool
  pub kubeadm : WorkerEnv
  pub found : Bool
  pub joined_saved : Bool
  pub ready_saved : Bool
  pub net : NetEnv
  pub failed_saved : Bool

-- The VPN server of the control plane, with the worker's own address.
unfoldable pub with_vpn_server : RemoteCluster → World → World
with_vpn_server parent w = record w {
  cluster = record w.cluster { vpn = record parent.vpn { ip = w.cluster.vpn.ip } };
}

-- Whether the VPN server is to be taken over from the control plane.
unfoldable pub needs_sync : RemoteCluster → World → Bool
unfolding is_empty
needs_sync parent w = is_empty w.cluster.vpn.credentials && not (is_empty parent.vpn.credentials)

-- The synchronisation of the VPN server, and whether it returns without an error.
unfoldable pub sync_vpn_config : JoinEnv → Option RemoteCluster → World → World × Bool
unfolding needs_sync with_vpn_server update
sync_vpn_config env none w = (w, true)
sync_vpn_config env (some parent) w =
    if not (needs_sync parent w)
    then (w, true)
    else if not env.synced_found
    then (w, false)
    else update env.synced (with_vpn_server parent (refetch w))

abbrev pub is_ready : Phase → Bool
is_ready ready = true
is_ready _ = false

-- The callback of the phases, with the phase's completion on the machine.
unfoldable pub on_worker_phase_complete : JoinEnv → ℕ → World → World
unfolding patch_annotation itoa
on_worker_phase_complete env phase w =
    patch_annotation (env.progress_saved phase) last_completed_phase_worker (itoa phase)
      (record w { completed = w.completed ++ phase ∷ [] })

-- A command on the machine.
abbrev pub run_command : JoinEnv → String → World → World × Bool
run_command env cmd w = (w, env.answers cmd)

-- The annotations of a worker that has joined.
unfoldable pub mark_joined : World → World
mark_joined w = record w {
  cluster = record w.cluster {
    annotations = record w.cluster.annotations { joined = some "true"; last_worker = some "-1" };
  };
}

-- The NetConfig's list of addresses.
unfoldable pub record_worker_ip : JoinEnv → String → World → World × Result
unfolding update_node_provision_config fail
record_worker_ip env ip w =
    let (v, ok) = update_node_provision_config env.net ip w in
    if ok then (v, stop) else fail env.failed_saved "NodeProvisionNetConfigUpdateFailed" v

-- What follows a successful join.
unfoldable pub finish_join : JoinEnv → String → World → World × Result
unfolding update set_status mark_joined record_worker_ip
finish_join env ip w =
    let (u, marked) = update env.joined_saved (mark_joined (refetch w)) in
    let (v, saved) = set_status env.ready_saved ready "WorkerJoined" false u in
    if not env.found
    then (w, error)
    else if not marked
    then (u, error)
    else if not saved
    then (v, error)
    else record_worker_ip env ip v

unfoldable pub answered_join : JoinEnv → World × Option String → World × Result
unfolding finish_join fail
answered_join env (w, none) = fail env.failed_saved "WorkerJoinFailed" w
answered_join env (w, some ip) = finish_join env ip w

-- The phases and the join, resumed behind the last completed phase.
unfoldable pub run_join : JoinEnv → String → World → World × Result
unfolding join_worker_node on_worker_phase_complete answered_join start_phase
run_join env join_command w = answered_join env (
    join_worker_node (run_command env) (on_worker_phase_complete env) env.kubeadm join_command
      (start_phase w.cluster.annotations.last_worker) w)

-- A worker that has not joined waits for its control plane.
unfoldable pub join : JoinEnv → Option RemoteCluster → World → World × Result
unfolding run_join is_empty fail
join env none w = (w, control_plane_retry_interval)
join env (some parent) w =
    if not (is_ready parent.status.phase) || is_empty parent.status.join_command
    then (w, control_plane_retry_interval)
    else if not env.ssh
    then fail env.failed_saved "SSHConnectionFailed" w
    else if not env.runtime
    then fail env.failed_saved "RuntimeConfigError" w
    else run_join env parent.status.join_command w

-- `reconcileWorker`
unfoldable pub reconcile_worker : JoinEnv → World → World × Result
unfolding sync_vpn_config join has_value find_control_plane
reconcile_worker env w =
    let parent = find_control_plane w in
    let (v, synced) = sync_vpn_config env parent w in
    if not env.listed
    then (w, error)
    else if not synced
    then (v, error)
    else if has_value v.cluster.annotations.joined "true"
    then (v, stop)
    else join env parent v
