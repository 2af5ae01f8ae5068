-- ===== src/Node/OnPrem.antt =====
-- On-premise provisioning: `reconcileOnPremProvisioning` and `pollOnPremBootstrap` of
-- internal/controller/ml/nodeprovision_controller.go, and the goroutine that they start and poll.
pub mod Outcome
use public_cloud_vm_provisio.Prelude.{
  ℕ, String, ◌≡◌, Bool, true, false, not, Option, none, some, ◌==◌, if◌then◌else◌, is_empty, append,
}
use public_cloud_vm_provisio.Vpn.NetConfig.{
  NetConfigStatus, Attempt, RetryResult, done, update_net_config_status,
}
use public_cloud_vm_provisio.Node.{
  World, Result, running, finished, error, requeue_short, validating, configuring_vpn,
  bootstrapping, joining, set_phase_status, fail_node_provision, save_and, with_status, refetch,
  status_update, requeue_joining,
}
use public_cloud_vm_provisio.Node.Joining.{JoinEnv, reconcile_joining}

-- What the calls of one run of the two handlers answer.
pub record OnPremEnv : Type 1 where
  pub now : ℕ
  pub fail_saved : Bool
  pub saved_validating : Bool
  pub found_validating : Bool
  pub ssh : Bool  -- getSSHClient
  pub sudo : Bool  -- sudo -n true
  pub net_config : Bool  -- requireNetConfig
  pub saved_vpn : Bool
  pub found_vpn : Bool
  pub vpn_server : Bool  -- getVPNServerSSHClient
  pub saved_bootstrapping : Bool
  pub found_bootstrapping : Bool
  pub merge : NetConfigStatus → NetConfigStatus → NetConfigStatus → NetConfigStatus
  pub attempts : ℕ → Attempt
  pub found : Bool  -- the fetch before the job's result is written
  pub saved : Bool  -- the update with the job's result or step
  pub join : JoinEnv

-- The goroutine is started.
unfoldable pub start_job : World → World × Result
start_job w = (record w { job = some running }, requeue_short)

-- With a connection to the VPN server, on to the goroutine
unfoldable pub launch_job : OnPremEnv → World → World × Result
unfolding set_phase_status fail_node_provision save_and start_job
launch_job env w =
    if not env.vpn_server
    then fail_node_provision env.now env.fail_saved "connecting to VPN server" w
    else save_and env.saved_bootstrapping env.found_bootstrapping start_job (
        set_phase_status env.now bootstrapping
          "Installing packages and joining cluster (background)" 25 w)

unfoldable pub connect_vpn : OnPremEnv → World → World × Result
unfolding set_phase_status save_and launch_job
connect_vpn env w =
    save_and env.saved_vpn env.found_vpn (launch_job env)
      (set_phase_status env.now configuring_vpn "Configuring WireGuard VPN" 15 w)

unfoldable pub check_node : OnPremEnv → World → World × Result
unfolding fail_node_provision connect_vpn
check_node env w =
    if not env.ssh
    then fail_node_provision env.now env.fail_saved "SSH connectivity check failed" w
    else if not env.sudo
    then fail_node_provision env.now env.fail_saved "passwordless sudo check failed" w
    else if not env.net_config
    then (w, requeue_short)
    else connect_vpn env w

-- `reconcileOnPremProvisioning`
unfoldable pub reconcile_on_prem_provisioning : OnPremEnv → World → World × Result
unfolding set_phase_status save_and check_node
reconcile_on_prem_provisioning env w = elim w.job [
  | some job ↦ (w, requeue_short)
  | none ↦
      save_and env.saved_validating env.found_validating (check_node env)
        (set_phase_status env.now validating "Validating SSH connectivity" 5 w)
]

-- The status that a finished job leads to.
unfoldable pub write_result : OnPremEnv → String → World → World × Result
write_result env ip w =
    let v = refetch w in
    let u =
      with_status
        (record v.np.status {
          phase = joining;
          message = "Node bootstrapped; waiting for cluster registration";
          ip_address = ip;
          vpn_ip = ip;
          progress = 60;
          last_updated = some env.now;
        })
        v in
    if env.found
    then (status_update env.saved u, if env.saved then requeue_joining else error)
    else (w, error)

abbrev pub is_done : RetryResult → Bool
is_done done = true
is_done _ = false

-- The result is taken out of the channel, and its entry out of the map.
unfoldable pub consume : OnPremEnv → String → String → Option String → World → World × Result
unfolding fail_node_provision write_result
consume env ip key failure v =
    let w = record v { job = none } in
    let (net, r) = update_net_config_status env.merge ip key w.np.name env.attempts w.net in
    let u = record w { net = net } in
    elim failure [
      | some e ↦ fail_node_provision env.now env.fail_saved "on-prem provisioning failed" w
      | none ↦
          if not env.net_config
          then (w, error)
          else if is_done r
          then write_result env ip u
          else (u, error)
    ]

abbrev step_of : Option String → String
step_of none = "bootstrapping node (packages and cluster join in progress)"
step_of (some s) = s

-- The job runs on: its step is shown in the status.
unfoldable pub show_step : OnPremEnv → World → World × Result
unfolding append
show_step env w =
    let msg = append "Bootstrapping: " (step_of w.step) in
    let v = with_status (record w.np.status { message = msg; last_updated = some env.now }) w in
    (if w.np.status.message == msg then w else status_update env.saved v, requeue_short)

-- `pollOnPremBootstrap`
unfoldable pub poll_on_prem_bootstrap : OnPremEnv → World → World × Result
unfolding is_empty reconcile_joining reconcile_on_prem_provisioning consume show_step
poll_on_prem_bootstrap env w =
    if not (is_empty w.np.status.vpn_ip) then reconcile_joining env.join w else elim w.job [
      | none ↦ reconcile_on_prem_provisioning env w
      | some running ↦ show_step env w
      | some (finished ip key failure) ↦ consume env ip key failure w
    ]

-- What the goroutine does meanwhile: it reports steps, and ends with its result in the channel.
pub data Background : World → World → Type 0 where
  report :
      {w : World} (s : String) → w.job ≡ some running → Background w (record w { step = some s })
  finish :
      {w : World} (ip key : String) (failure : Option String)
      → w.job ≡ some running
      → Background w (record w { step = none; job = some (finished ip key failure) })
