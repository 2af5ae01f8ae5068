-- ===== src/Node/Joining.antt =====
-- From a running instance to a ready node: `reconcileWaitingForInstance`, `reconcileJoining`,
-- `reconcileNPImagePrepull`, `reconcileImagePrepullJob` and `markNodeProvisionReady` of
-- internal/controller/ml/nodeprovision_controller.go. The files that the handler writes on a GPU
-- node for CDI are not modelled; it goes on whether that succeeds or not.
pub mod Ready
pub mod Stamp
use public_cloud_vm_provisio.Prelude.{
  ℕ, String, Bool, true, false, not, ◌&&◌, ◌||◌, Option, none, some, List, [], ◌∷◌, ◌++◌, map, ◌==◌,
  if◌then◌else◌, any, drop_if, find_first, is_empty, append, contains_text, ◌+◌, ◌-◌, ◌/◌,
}
use public_cloud_vm_provisio.Node.{
  NodeProvision, Provider, World, Result, KubeNode, Taint, Condition, aws, gcp, azure, on_prem,
  unknown, complete, pull_failed, other, bootstrapping, registering_node, pre_pulling_images, ready,
  stop, requeue, error, unknown, pre_pulling_images, with_status, requeue_short, refetch,
  status_update, bootstrapping, ready, registering_node, requeue_joining,
}

-- What the calls of one run of `reconcileWaitingForInstance` answer: `polled` is
-- `WaitForInstanceRunning`'s private and public address, `none` its error.
pub record WaitEnv : Type 0 where
  pub now : ℕ
  pub creds : Bool
  pub polled : Option (String × String)
  pub saved : Bool

unfoldable pub poll_instance : WaitEnv → Provider → Option (String × String)
poll_instance env aws = if env.creds then env.polled else none
poll_instance env gcp = env.polled
poll_instance env _ = none

-- `reconcileWaitingForInstance`
unfoldable pub reconcile_waiting_for_instance : WaitEnv → World → World × Result
unfolding is_empty poll_instance
reconcile_waiting_for_instance env w = elim (poll_instance env w.np.spec.provider) [
  | none ↦ (w, error)
  | some (private, public) ↦
      let v =
        with_status
          (record w.np.status {
            private_ip = private;
            public_ip = public;
            phase = bootstrapping;
            message = "Instance running; cloud-init bootstrap in progress";
            progress = 50;
            last_updated = some env.now;
          })
          w in
      if is_empty private
      then (w, requeue_short)
      else (status_update env.saved v, if env.saved then requeue_joining else error)
]

-- `ImagePrepull`
pub record ImagePrepull : Type 0 where
  pub image : String
  pub node_target : String

-- What the calls of one run of `reconcileJoining` or `reconcileNPImagePrepull` answer.
pub record JoinEnv : Type 0 where
  pub now : ℕ
  pub listed : Bool
  pub patched : Bool
  pub saved : Bool
  pub found : Bool  -- the fetch of markNodeProvisionReady
  pub net_config : Option (List ImagePrepull)  -- requireNetConfig, its images
  pub gpu_hardware : Bool  -- strings.EqualFold(HardwareType, "gpu")
  pub job_read : Bool
  pub job_created : Bool
  pub job_deleted : Bool

unfoldable pub has_address : String → KubeNode → Bool
has_address ip node = any (λ a. a == ip) node.addresses

-- The first node with the address
unfoldable pub find_node : String → List KubeNode → Option KubeNode
unfolding has_address
find_node ip nodes = find_first (has_address ip) nodes

-- `labels[key] = value`
unfoldable pub set_label : String → String → List (String × String) → List (String × String)
set_label key value labels = (key, value) ∷ drop_if (λ (k, v). k == key) labels

unfoldable pub provider_name : Provider → String
provider_name aws = "AWS"
provider_name gcp = "GCP"
provider_name azure = "Azure"
provider_name on_prem = "OnPrem"
provider_name (unknown name) = name

abbrev pub gpu_label : NodeProvision → Bool
gpu_label np = contains_text np.spec.node_label "gpu"

abbrev pub gpu_taint : Taint
gpu_taint = record { key = "hardware-type"; value = "gpu"; effect = "PreferNoSchedule" }

unfoldable pub add_gpu_taint : List Taint → List Taint
add_gpu_taint taints =
    if any (λ t. t.key == gpu_taint.key && t.effect == gpu_taint.effect) taints
    then taints
    else taints ++ gpu_taint ∷ []

-- The labels, taint and finalizer that a joined node gets.
unfoldable pub stamp : Bool → NodeProvision → KubeNode → KubeNode
unfolding set_label provider_name add_gpu_taint is_empty contains_text
stamp gpu_hardware np node =
    let owned = set_label "ml.dcn.ssu.ac.kr/node-provision-uid" np.uid (
      set_label "ml.dcn.ssu.ac.kr/provider" (provider_name np.spec.provider) (
        set_label "ml.dcn.ssu.ac.kr/node-provision-namespace" np.namespace
          (set_label "ml.dcn.ssu.ac.kr/node-provision" np.name node.labels))) in
    let classed =
      if is_empty np.spec.node_label
      then owned
      else set_label "hardware-type" np.spec.node_label owned in
    let typed =
      set_label "infra.dcn.ssu.ac.kr/hardware-type"
        (if gpu_hardware || gpu_label np then "gpu" else "cpu")
        (set_label "infra.dcn.ssu.ac.kr/worker" "true" classed) in
    record node {
      labels = if gpu_label np then set_label "gpu" "on" typed else typed;
      taints = if gpu_label np then add_gpu_taint node.taints else node.taints;
      finalizer = true;
    }

unfoldable pub replace_node : KubeNode → List KubeNode → List KubeNode
replace_node node nodes = map (λ n. if n.name == node.name then node else n) nodes

-- The node is not in the cluster yet.
unfoldable pub wait_for_node : JoinEnv → World → World × Result
unfolding append
wait_for_node env w = (
  status_update env.saved (
      with_status
        (record w.np.status {
          phase = registering_node;
          message =
              append
                (append "Waiting for node to register with control plane (VPN IP: "
                  w.np.status.ip_address)
                ")";
          progress = 70;
          last_updated = some env.now;
        })
        w),
  requeue_joining,
)

-- Whether a GPU node has images to pull first.
unfoldable pub has_images : JoinEnv → Bool
has_images env = elim env.net_config [ none ↦ false | some [] ↦ false | some (x ∷ xs) ↦ true ]

-- The node is in the cluster, and stamped.
unfoldable pub joined : JoinEnv → KubeNode → World → World × Result
unfolding contains_text has_images
joined env node w =
    let st = record w.np.status { node_name = node.name; last_updated = some env.now } in
    let pulling = record st {
      phase = pre_pulling_images;
      message = "Node joined; pre-pulling GPU images in background";
      progress = 90;
    } in
    let finished = record st {
      phase = ready;
      message = "Node successfully joined cluster";
      progress = 100;
      completion_time = some env.now;
    } in
    if gpu_label w.np && has_images env
    then (status_update env.saved (with_status pulling w), if env.saved then requeue else error)
    else (status_update env.saved (with_status finished w), if env.saved then stop else error)

-- `reconcileJoining`
unfoldable pub reconcile_joining : JoinEnv → World → World × Result
unfolding find_node stamp replace_node wait_for_node joined
reconcile_joining env w =
    if not env.listed then (w, error) else elim (find_node w.np.status.ip_address w.nodes) [
      | none ↦ wait_for_node env w
      | some n ↦
          let node = stamp env.gpu_hardware w.np n in
          if env.patched
          then joined env node (record w { nodes = replace_node node w.nodes })
          else (w, error)
    ]

-- `markNodeProvisionReady`
unfoldable pub mark_node_provision_ready : JoinEnv → World → World × Result
mark_node_provision_ready env w =
    let v = refetch w in
    let done = record v.np.status {
      phase = ready;
      message = "Node successfully joined cluster";
      progress = 100;
      completion_time = some env.now;
      last_updated = some env.now;
    } in
    if env.found
    then (status_update env.saved (with_status done v), if env.saved then stop else error)
    else (w, error)

-- The loop over the job's conditions
unfoldable pub inspect_job : JoinEnv → List Condition → World → World × Result
unfolding mark_node_provision_ready
inspect_job env [] w = (w, requeue_short)
inspect_job env (complete ∷ conds) w = mark_node_provision_ready env w
inspect_job env (pull_failed ∷ conds) w =
    (if env.job_deleted then record w { prepull = none } else w, requeue_short)
inspect_job env (other ∷ conds) w = inspect_job env conds w

-- `reconcileImagePrepullJob`; a job that is created has no conditions.
unfoldable pub reconcile_image_prepull_job : JoinEnv → World → World × Result
unfolding inspect_job
reconcile_image_prepull_job env w = if not env.job_read then (w, error) else elim w.prepull [
  | none ↦ if env.job_created then (record w { prepull = some [] }, requeue_short) else (w, error)
  | some conds ↦ inspect_job env conds w
]

-- `reconcileNPImagePrepull`
unfoldable pub reconcile_np_image_prepull : JoinEnv → World → World × Result
unfolding mark_node_provision_ready reconcile_image_prepull_job
reconcile_np_image_prepull env w = elim env.net_config [
  | none ↦ (w, requeue_short)
  | some pulls ↦ elim (drop_if (λ p. p.node_target == "gpu" && not env.gpu_hardware) pulls) [
    | [] ↦ mark_node_provision_ready env w
    | p ∷ ps ↦ reconcile_image_prepull_job env w
  ]
]
