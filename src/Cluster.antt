-- ===== src/Cluster.antt =====
-- The RemoteCluster resource (api/v1/remotecluster_types.go) and what its controller,
-- internal/controller/remotecluster_controller.go, shares between its handlers: the copies of the
-- object, the writes to the API server with its resource versions, annotations, status and failure.
-- The texts of messages are not modelled.
pub mod Remote
pub mod Packages
pub mod ControlPlane
pub mod Worker
pub mod Secrets
pub mod Reconcile
pub mod Delete
pub mod Samples
pub mod Examples
use public_cloud_vm_provisio.Prelude.{
  ℕ, ◌+◌, String, Bool, true, false, not, ◌&&◌, ◌||◌, Option, none, some, List, [], ◌∷◌, ◌++◌, ◌==◌,
  eqb, if◌then◌else◌, find_first, is_empty, trim_space, atoi, ◌%◌, ◌^◌,
}

-- `nodeInfo.nodeType`
pub data NodeType : Type 0 where
  control_plane worker : NodeType
  other_type : String → NodeType

-- `status.phase`; `unset` is the empty text.
pub data Phase : Type 0 where
  unset provisioning ready failed : Phase
  other_phase : String → Phase

-- The annotations that the controller reads and writes.
pub data Annotation : Type 0 where
  pkg_variants_created worker_joined last_completed_phase_cp last_completed_phase_worker :
      Annotation
  cp_init_complete join_cmd_cache node_provision_created join_token_refreshed_at : Annotation

pub record Annotations : Type 0 where
  pub pkg_variants : Option String
  pub joined : Option String
  pub last_cp : Option String
  pub last_worker : Option String
  pub init_complete : Option String
  pub cached : Option String
  pub created : Option String
  pub refreshed_at : Option String

-- `cluster.Annotations[key]`
abbrev pub annotation : Annotation → Annotations → Option String
annotation pkg_variants_created a = a.pkg_variants
annotation worker_joined a = a.joined
annotation last_completed_phase_cp a = a.last_cp
annotation last_completed_phase_worker a = a.last_worker
annotation cp_init_complete a = a.init_complete
annotation join_cmd_cache a = a.cached
annotation node_provision_created a = a.created
annotation join_token_refreshed_at a = a.refreshed_at

abbrev pub set_annotation : Annotation → Option String → Annotations → Annotations
set_annotation pkg_variants_created v a = record a { pkg_variants = v }
set_annotation worker_joined v a = record a { joined = v }
set_annotation last_completed_phase_cp v a = record a { last_cp = v }
set_annotation last_completed_phase_worker v a = record a { last_worker = v }
set_annotation cp_init_complete v a = record a { init_complete = v }
set_annotation join_cmd_cache v a = record a { cached = v }
set_annotation node_provision_created v a = record a { created = v }
set_annotation join_token_refreshed_at v a = record a { refreshed_at = v }

-- Whether an annotation has the value; an absent one reads as the empty text.
unfoldable pub has_value : Option String → String → Bool
unfolding is_empty
has_value none text = is_empty text
has_value (some v) text = v == text

-- `VPNConfig`
pub record VpnConfig : Type 0 where
  pub ip : String
  pub server_public_ip : String
  pub server_ssh_port : String
  pub server_ssh_username : String
  pub credentials : String  -- vpnSSHCredentialsRef.name
  pub credentials_namespace : String

-- A condition that setStatus appends.
pub record Condition : Type 0 where
  pub reason : String
  pub is_true : Bool

pub record Status : Type 0 where
  pub phase : Phase
  pub join_command : String
  pub conditions : List Condition

pub record RemoteCluster : Type 0 where
  pub name : String
  pub namespace : String
  pub version : ℕ  -- the resource version
  pub deleted : Bool  -- DeletionTimestamp is set
  pub finalizer : Bool  -- Finalizers holds remoteClusterFinalizer
  pub cluster_name : String
  pub node_type : NodeType
  pub git_enabled : Bool
  pub pull_secret : Option String  -- imagePullSecretRef
  pub vpn : VpnConfig
  pub annotations : Annotations
  pub status : Status

-- The channel that `controlPlaneJobs` holds for this resource; a finished job has the join command
-- or has failed.
pub data Job : Type 0 where
  running : Job
  finished : Option String → Job

-- The status of the NodeProvisionNetConfig on the remote cluster.
pub record RemoteNetConfig : Type 0 where
  pub join_command : String
  pub used_ip_addresses : List String

-- A credential secret on the management cluster.
pub record Secret : Type 0 where
  pub finalizer : Bool
  pub data_of : List (String × String)

pub data Kind : Type 0 where
  porch_repository nephio_repository token package_variant : Kind

-- An object on the management cluster that belongs to a cluster.
pub record Resource : Type 0 where
  pub kind : Kind
  pub namespace : String
  pub name : String
  pub label : Option String  -- remoteClusterLabelKey
  pub downstream : String  -- of a PackageVariant

-- All that one reconcile of one resource reads and writes: the copy that the handler holds, the
-- object on the API server, the resources of the namespace, the maps of the reconciler at this
-- resource's key, the NetConfig on the remote cluster, the phases completed on this machine, the
-- secrets with the SSH credentials and the controller's copy, the VPN server's secret, its peers and
-- wg0.conf, and the objects on the management cluster.
pub record World : Type 0 where
  pub cluster : RemoteCluster
  pub stored : RemoteCluster
  pub siblings : List RemoteCluster
  pub job : Option Job
  pub progress : Option ℕ
  pub remote : Option RemoteNetConfig
  pub completed : List ℕ
  pub auth : Option Secret
  pub auth_copy : Option (List (String × String))
  pub vpn_secret : Option Secret
  pub peers : List (String × List String)
  pub conf : List String
  pub resources : List Resource

-- `(ctrl.Result, error)`
pub data Result : Type 0 where
  stop requeue error : Result
  requeue_after : ℕ → Result

abbrev pub repo_ready_wait : Result
repo_ready_wait = requeue_after 120

abbrev pub control_plane_retry_interval : Result
control_plane_retry_interval = requeue_after 30

abbrev pub control_plane_poll_interval : Result
control_plane_poll_interval = requeue_after 30

-- The handler's copy has the version of the object on the API server.
abbrev pub is_fresh : World → Bool
is_fresh w = eqb w.cluster.version w.stored.version

-- The object on the API server and the handler's copy after a write.
abbrev pub write : RemoteCluster → World → World
write object w = record w {
  stored = record object { version = w.stored.version + 1 };
  cluster = record object { version = w.stored.version + 1 };
}

-- `r.Status().Update(ctx, cluster)`, and whether it succeeds: the API server refuses a copy that is
-- not fresh, and may refuse for its own reasons.
unfoldable pub status_update : Bool → World → World × Bool
status_update accepted w =
    if accepted && is_fresh w
    then (write (record w.stored { status = w.cluster.status }) w, true)
    else (w, false)

-- `r.Update(ctx, cluster)`, which writes all but the status.
unfoldable pub update : Bool → World → World × Bool
update accepted w =
    if accepted && is_fresh w
    then (write (record w.cluster { status = w.stored.status }) w, true)
    else (w, false)

-- `r.Get(ctx, …, cluster)`
abbrev pub refetch : World → World
refetch w = record w { cluster = w.stored }

unfoldable pub set_annotations : List (Annotation × Option String) → Annotations → Annotations
set_annotations [] a = a
set_annotations ((key, value) ∷ kv) a = set_annotations kv (set_annotation key value a)

unfoldable pub same_value : Option String → Option String → Bool
same_value none none = true
same_value (some v) (some w) = v == w
same_value _ _ = false

-- Whether the patch is not empty.
unfoldable pub changes : List (Annotation × Option String) → Annotations → Bool
unfolding same_value
changes [] a = false
changes ((key, value) ∷ kv) a = not (same_value (annotation key a) value) || changes kv a

-- `patchAnnotations`, where its calls succeed: the handler's copy stays as it is, and an empty patch
-- leaves the version. No value removes the annotation.
unfoldable pub patch_annotations : Bool → List (Annotation × Option String) → World → World
unfolding set_annotations changes
patch_annotations patched kv w =
    let n = if changes kv w.stored.annotations then w.stored.version + 1 else w.stored.version in
    let a = set_annotations kv w.stored.annotations in
    if patched then record w { stored = record w.stored { annotations = a; version = n } } else w

-- `patchAnnotation`
unfoldable pub patch_annotation : Bool → Annotation → String → World → World
unfolding patch_annotations
patch_annotation patched key value w = patch_annotations patched ((key, some value) ∷ []) w

abbrev pub with_status : Status → World → World
with_status st w = record w { cluster = record w.cluster { status = st } }

-- `setStatus`
unfoldable pub set_status : Bool → Phase → String → Bool → World → World × Bool
unfolding status_update
set_status accepted phase reason is_error w =
    let st = w.cluster.status in
    status_update accepted (
      with_status
        (record st {
          phase = phase;
          conditions = st.conditions ++ record { reason = reason; is_true = not is_error } ∷ [];
        })
        w)

-- `fail`
unfoldable pub fail : Bool → String → World → World × Result
unfolding set_status
fail accepted reason w = ((set_status accepted failed reason true w).0, requeue_after 60)

abbrev pub is_control_plane : NodeType → Bool
is_control_plane control_plane = true
is_control_plane _ = false

-- `findControlPlane`, where the list is answered.
unfoldable pub find_control_plane : World → Option RemoteCluster
find_control_plane w =
    find_first (λ rc. rc.cluster_name == w.cluster.cluster_name && is_control_plane rc.node_type)
      w.siblings

-- The phase to start from, by the annotation with the last completed one. The addition on 64 bits
-- wraps to a negative number, which starts at the first phase as 0 does.
unfoldable pub start_phase : Option String → ℕ
unfolding atoi
start_phase none = 0
start_phase (some text) = elim (atoi text) [ none ↦ 0 | some n ↦ (n + 1) % 2 ^ 63 ]

-- `parsePort`
unfoldable pub parse_port : String → ℕ → ℕ
unfolding is_empty trim_space atoi
parse_port text default_port =
    if is_empty text then default_port else elim (atoi (trim_space text)) [
      | none ↦ default_port
      | some n ↦ if eqb n 0 then default_port else n
    ]
