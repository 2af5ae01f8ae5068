-- ===== src/Node/Reconcile.antt =====
-- `Reconcile` and `reconcileProvisioning` of
-- internal/controller/ml/nodeprovision_controller.go: the handler of each phase.
pub mod Stuck
pub mod Launch
pub mod LaunchGcp
use public_cloud_vm_provisio.Prelude.{
  ℕ, String, Bool, true, false, not, ◌&&◌, ◌||◌, Option, none, some, if◌then◌else◌, is_empty,
}
use public_cloud_vm_provisio.Node.{
  NodeProvision, World, Result, Phase, Provider, aws, gcp, on_prem, stop, error, requeue_short,
  requeue_failed, unset, pending, validating, creating_instance, waiting_for_instance,
  configuring_vpn, provisioning, bootstrapping, registering_node, joining, verifying_health, ready,
  failed, deleting, pre_pulling_images, status_update, with_status, update,
}
use public_cloud_vm_provisio.Node.Aws.{AwsEnv, reconcile_aws_provisioning}
use public_cloud_vm_provisio.Node.Gcp.{reconcile_gcp_provisioning}
use public_cloud_vm_provisio.Node.Joining.{
  WaitEnv, JoinEnv, reconcile_waiting_for_instance, reconcile_joining, reconcile_np_image_prepull,
}
use public_cloud_vm_provisio.Node.OnPrem.{
  OnPremEnv, reconcile_on_prem_provisioning, poll_on_prem_bootstrap,
}
use public_cloud_vm_provisio.Node.Delete.{CleanupEnv, DeleteEnv, cleanup_vpn_peer, handle_delete}

-- What the client's cache gives for the resource; it may lag behind the API server.
pub data Fetched : Type 0 where
  fetched : NodeProvision → Fetched
  absent unreadable : Fetched

-- What the calls of one reconcile answer.
pub record Env : Type 1 where
  pub now : ℕ
  pub read : Fetched
  pub finalizer_saved : Bool
  pub secret : Bool  -- getSecret
  pub secret_copied : Bool
  pub registry_copied : Bool
  pub saved : Bool  -- the status update of this function's own
  pub fresh : Option NodeProvision  -- the second fetch, in the phase Failed
  pub upper : String → String
  pub default_type : String → String  -- DefaultInstanceTypeForLabel of GCP
  pub cloud : AwsEnv
  pub on_prem_env : OnPremEnv
  pub wait : WaitEnv
  pub join : JoinEnv
  pub cleanup : CleanupEnv
  pub delete : DeleteEnv

abbrev pub is_aws : Provider → Bool
is_aws aws = true
is_aws _ = false

abbrev pub is_on_prem : Provider → Bool
is_on_prem on_prem = true
is_on_prem _ = false

abbrev pub is_failed : Phase → Bool
is_failed failed = true
is_failed _ = false

-- The controller's copies of the user's secrets; `registry_copied` covers the NetConfig's
-- reference and the reading of the secret it names.
unfoldable pub copy_secrets : Env → World → World
unfolding is_empty
copy_secrets env w =
    let named = not (is_empty w.np.spec.credentials_ref.name) in
    record w {
      copied_secret = w.copied_secret || (named && env.secret && env.secret_copied);
      copied_registry = w.copied_registry || (is_aws w.np.spec.provider && env.registry_copied);
    }

-- `reconcileProvisioning`
unfoldable pub reconcile_provisioning : Env → Provider → World → World × Result
unfolding reconcile_aws_provisioning reconcile_gcp_provisioning reconcile_on_prem_provisioning
reconcile_provisioning env aws w = reconcile_aws_provisioning env.cloud w
reconcile_provisioning env on_prem w = reconcile_on_prem_provisioning env.on_prem_env w
reconcile_provisioning env gcp w = reconcile_gcp_provisioning env.upper env.default_type env.cloud w
reconcile_provisioning env _ w = (w, error)

unfoldable pub start_provisioning : Env → World → World × Result
unfolding reconcile_provisioning
start_provisioning env w =
    if env.secret then reconcile_provisioning env w.np.spec.provider w else (w, error)

-- The phases CreatingInstance and ConfiguringVPN
unfoldable pub await_instance : Env → World → World × Result
unfolding is_empty
await_instance env w =
    let v =
      with_status (record w.np.status { phase = waiting_for_instance; last_updated = some env.now })
        w in
    (if is_empty w.np.status.instance_id then w else status_update env.saved v, requeue_short)

-- The phase Bootstrapping
unfoldable pub bootstrap : Env → World → World × Result
unfolding poll_on_prem_bootstrap reconcile_joining
bootstrap env w =
    if not (is_on_prem w.np.spec.provider) then reconcile_joining env.join w else elim w.job [
      | some job ↦ poll_on_prem_bootstrap env.on_prem_env w
      | none ↦ if env.secret then poll_on_prem_bootstrap env.on_prem_env w else (w, error)
    ]

-- The status with which a failed resource starts again
unfoldable pub reset_failed : ℕ → NodeProvision → NodeProvision
reset_failed now np = record np {
  status = record np.status {
    phase = unset;
    vpn_ip = "";
    ip_address = "";
    message = "Retrying after failure";
    last_updated = some now;
  };
}

-- The phase Failed
unfoldable pub retry_failed : Env → World → World × Result
unfolding cleanup_vpn_peer reset_failed
retry_failed env w =
    let (v, _) = cleanup_vpn_peer env.cleanup w in
    elim env.fresh [
      | none ↦ (v, error)
      | some fresh ↦
          let u = record v { np = reset_failed env.now fresh } in
          if not (is_failed fresh.status.phase)
          then (record v { np = fresh }, stop)
          else (status_update env.saved u, if env.saved then requeue_failed else stop)
    ]

unfoldable pub reconcile_phase : Env → Phase → World → World × Result
unfolding start_provisioning await_instance reconcile_waiting_for_instance bootstrap
    reconcile_joining reconcile_np_image_prepull retry_failed
reconcile_phase env unset w = start_provisioning env w
reconcile_phase env pending w = start_provisioning env w
reconcile_phase env validating w = start_provisioning env w
reconcile_phase env provisioning w = start_provisioning env w
reconcile_phase env creating_instance w = await_instance env w
reconcile_phase env configuring_vpn w = await_instance env w
reconcile_phase env waiting_for_instance w =
    if env.secret then reconcile_waiting_for_instance env.wait w else (w, error)
reconcile_phase env bootstrapping w = bootstrap env w
reconcile_phase env joining w = reconcile_joining env.join w
reconcile_phase env registering_node w = reconcile_joining env.join w
reconcile_phase env verifying_health w = reconcile_joining env.join w
reconcile_phase env pre_pulling_images w = reconcile_np_image_prepull env.join w
reconcile_phase env ready w = (w, stop)
reconcile_phase env failed w = retry_failed env w
reconcile_phase env deleting w = (w, stop)

-- From the fetched resource on
unfoldable pub reconcile_fetched : Env → World → World × Result
unfolding handle_delete copy_secrets reconcile_phase
reconcile_fetched env w =
    let v = record w { np = record w.np { finalizer = true } } in
    if w.np.deleted
    then handle_delete env.delete w
    else if not w.np.finalizer
    then (update env.finalizer_saved v, if env.finalizer_saved then stop else error)
    else reconcile_phase env w.np.status.phase (copy_secrets env w)

-- `Reconcile`
unfoldable pub reconcile : Env → World → World × Result
unfolding reconcile_fetched
reconcile env w = elim env.read [
  | fetched np ↦ reconcile_fetched env (record w { np = np })
  | absent ↦ (w, stop)
  | unreadable ↦ (w, error)
]
