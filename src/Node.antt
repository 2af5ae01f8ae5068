-- ===== src/Node.antt =====
-- The NodeProvision resource (api/ml/v1alpha1/nodeprovision_types.go) and what its controller,
-- internal/controller/ml/nodeprovision_controller.go, shares between its handlers.
pub mod Bootstrap
pub mod Runtime
pub mod Provision
pub mod Aws
pub mod Gcp
pub mod Joining
pub mod OnPrem
pub mod Delete
pub mod JoinToken
pub mod Reconcile
pub mod Steps
pub mod Examples
use public_cloud_vm_provisio.Prelude.{ℕ, String, Bool, true, Option, some, List, if◌then◌else◌}
use public_cloud_vm_provisio.Vpn.NetConfig.{NetConfigStatus}
use public_cloud_vm_provisio.Vpn.Allocate.{PeerMap}

-- `NodeProvisionPhase`; `unset` is the empty text.
pub data Phase : Type 0 where
  unset pending validating creating_instance waiting_for_instance configuring_vpn provisioning :
      Phase
  bootstrapping registering_node joining verifying_health ready failed deleting : Phase
  pre_pulling_images : Phase

-- `CloudProvider`; `unknown` is any other text.
pub data Provider : Type 0 where
  aws gcp azure on_prem : Provider
  unknown : String → Provider

pub record CredentialsRef : Type 0 where
  pub name : String
  pub namespace : String
  pub key : String

pub record AwsConfig : Type 0 where
  pub availability_zone : String
  pub vpc_id : String
  pub subnet_id : String
  pub security_group_ids : List String
  pub ami : String
  pub key_pair_name : String

pub record GcpConfig : Type 0 where
  pub project_id : String
  pub zone : String

-- The fields of `NodeProvisionSpec` that the modelled handlers read.
pub record Spec : Type 0 where
  pub provider : Provider
  pub hardware_type : String
  pub node_label : String
  pub region : String
  pub instance_type : String
  pub spot_termination_action : String
  pub credentials_ref : CredentialsRef
  pub aws_config : Option AwsConfig
  pub gcp_config : Option GcpConfig

-- `NodeProvisionStatus`; times are seconds.
pub record Status : Type 0 where
  pub phase : Phase
  pub message : String
  pub start_time : Option ℕ
  pub completion_time : Option ℕ
  pub instance_id : String
  pub ip_address : String
  pub public_ip : String
  pub private_ip : String
  pub vpn_ip : String
  pub progress : ℕ
  pub last_updated : Option ℕ
  pub node_name : String

pub record NodeProvision : Type 0 where
  pub name : String
  pub uid : String
  pub namespace : String
  pub deleted : Bool  -- DeletionTimestamp is set
  pub finalizer : Bool  -- Finalizers holds nodeProvisionFinalizer
  pub spec : Spec
  pub status : Status

-- `onPremJobResult`, and the state of the channel that `onPremJobs` holds for this resource.
pub data Job : Type 0 where
  running : Job
  finished : String → String → Option String → Job

pub record Taint : Type 0 where
  pub key : String
  pub value : String
  pub effect : String

-- A Kubernetes node.
pub record KubeNode : Type 0 where
  pub name : String
  pub addresses : List String
  pub labels : List (String × String)
  pub taints : List Taint
  pub finalizer : Bool  -- nodeProvisionNodeFinalizer
  pub terminating : Bool

-- A condition of the image pre-pull job whose status is true.
pub data Condition : Type 0 where
  complete pull_failed other : Condition

-- All that one reconcile of one resource reads and writes: the copy that the handler holds, the
-- object on the API server, the NetConfig status there, the cluster's nodes, the maps of the
-- reconciler at this resource's key, the cloud's instances (those whose termination has not been
-- accepted), the conditions of the pre-pull job, whether
-- there is a secret with the SSH key and the controller's copies of the credentials and of the
-- registry's secret, and the VPN server's peers and the lines of its wg0.conf.
pub record World : Type 0 where
  pub np : NodeProvision
  pub stored : NodeProvision
  pub net : NetConfigStatus
  pub nodes : List KubeNode
  pub job : Option Job
  pub step : Option String
  pub instances : List String
  pub prepull : Option (List Condition)
  pub ssh_secret : Bool
  pub copied_secret : Bool
  pub copied_registry : Bool
  pub peers : PeerMap
  pub conf : List String

-- `(ctrl.Result, error)`
pub data Result : Type 0 where
  stop requeue error : Result
  requeue_after : ℕ → Result

abbrev pub requeue_short : Result
requeue_short = requeue_after 30

abbrev pub requeue_joining : Result
requeue_joining = requeue_after 15

abbrev pub requeue_failed : Result
requeue_failed = requeue_after 60

abbrev pub with_status : Status → World → World
with_status st w = record w { np = record w.np { status = st } }

-- `r.Status().Update(ctx, np)`, which the API server takes or not; it writes the status alone.
abbrev pub status_update : Bool → World → World
status_update accepted w =
    if accepted then record w { stored = record w.stored { status = w.np.status } } else w

-- `r.Update(ctx, np)`: it writes all but the status.
abbrev pub update : Bool → World → World
update accepted w =
    if accepted then record w { stored = record w.np { status = w.stored.status } } else w

-- `r.Get(ctx, …, np)`
abbrev pub refetch : World → World
refetch w = record w { np = w.stored }

-- `setPhaseStatus`
unfoldable pub set_phase_status : ℕ → Phase → String → ℕ → World → World
set_phase_status now phase msg progress w =
    with_status
      (record w.np.status {
        phase = phase;
        message = msg;
        progress = progress;
        last_updated = some now;
      })
      w

-- `failNodeProvision`
unfoldable pub fail_node_provision : ℕ → Bool → String → World → World × Result
fail_node_provision now accepted msg w = (
  status_update accepted (
      with_status (record w.np.status { phase = failed; message = msg; last_updated = some now })
        w),
  requeue_failed,
)

-- A status update whose failure makes the handler fetch the object again, and return early where
-- that fails as well; what it goes on with.
unfoldable pub save_and : Bool → Bool → (World → World × Result) → World → World × Result
save_and accepted found next w =
    if accepted then next (status_update true w) else if found then next (refetch w) else (w, error)
