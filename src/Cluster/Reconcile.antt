-- ===== src/Cluster/Reconcile.antt =====
-- `Reconcile`, `reconcileProvisioning`, `reconcilePackageVariants` and the refresh of the join token
-- of internal/controller/remotecluster_controller.go. RFC 3339 texts are Go's: `parse_time` and
-- `format_time` stand for `time.Parse` and `Format`, and times are seconds.
pub mod Token
pub mod Provision
pub mod Wedged
pub mod Stranded
use public_cloud_vm_provisio.Prelude.{
  ℕ, zero, suc, ◌+◌, ◌-◌, String, Bool, true, false, not, Option, none, some, ltb, leb,
  if◌then◌else◌, is_empty, trim_space,
}
use public_cloud_vm_provisio.Cluster.{
  World, Result, Phase, NodeType, control_plane, worker, other_type, unset, provisioning, ready,
  failed, other_phase, set_status, fail, update, status_update, refetch, patch_annotation,
  has_value, node_provision_created, join_token_refreshed_at, stop, requeue, error, requeue_after,
}
use public_cloud_vm_provisio.Cluster.Packages.{
  UpsertEnv, create_core_package_variants, create_overlay_package_variants,
}
use public_cloud_vm_provisio.Cluster.Remote.{
  NetEnv, create_node_provision_config, patch_remote_join_cmd,
}
use public_cloud_vm_provisio.Cluster.ControlPlane.{
  ControlEnv, Save, accepted, conflict, refused, with_join_command, reconcile_control_plane,
}
use public_cloud_vm_provisio.Cluster.Worker.{JoinEnv, reconcile_worker}
use public_cloud_vm_provisio.Cluster.Secrets.{ProtectEnv, protect_secrets}
use public_cloud_vm_provisio.Cluster.Delete.{DeleteEnv, handle_delete}

-- `tokenRefreshInterval`, 23 hours
abbrev pub token_refresh_interval : ℕ
token_refresh_interval = 82800

-- What the calls of one run of `refreshJoinToken` answer.
pub record RefreshEnv : Type 0 where
  pub ssh : Bool
  pub token : Option String  -- kubeadm token create
  pub found : Bool
  pub saved : Bool
  pub remote_patched : Bool
  pub stamped : Bool

-- What the calls of one run of `reconcilePackageVariants` answer.
pub record VariantsEnv : Type 0 where
  pub core : String → UpsertEnv
  pub overlays : String → UpsertEnv
  pub saves : ℕ → Save
  pub failed_saved : Bool

-- The answer to the first fetch.
pub data Fetched : Type 0 where
  found gone unreadable : Fetched

-- What the calls of one run of `Reconcile` answer.
pub record Env : Type 0 where
  pub now : ℕ
  pub fetched : Fetched
  pub finalizer_saved : Bool
  pub protect : ProtectEnv
  pub provisioning_saved : Bool
  pub worker_ssh : Bool
  pub failed_saved : Bool
  pub control : ControlEnv
  pub join : JoinEnv
  pub ready_ssh : Bool
  pub net : NetEnv
  pub created_saved : Bool
  pub refresh : RefreshEnv
  pub variants : VariantsEnv
  pub delete : DeleteEnv

-- The annotation of the package variants is written on a copy that is fetched first.
unfoldable pub save_variants : World → World
unfolding update
save_variants w =
    let v = refetch w in
    let a = record v.cluster.annotations { pkg_variants = some "true" } in
    (update true (record v { cluster = record v.cluster { annotations = a } })).0

-- `retry.RetryOnConflict`, with the attempts left, and whether it succeeds.
unfoldable pub retry_variants : (ℕ → Save) → ℕ → ℕ → World → World × Bool
unfolding save_variants
retry_variants saves round zero w = (w, false)
retry_variants saves round (suc left) w =
    let rest = retry_variants saves (round + 1) left w in
    if not (saves round).found then (w, false) else elim (saves round).answer [
      | accepted ↦ (save_variants w, true)
      | conflict ↦ rest
      | refused ↦ (w, false)
    ]

-- `reconcilePackageVariants`
unfoldable pub reconcile_package_variants : VariantsEnv → World → World × Result
unfolding create_core_package_variants create_overlay_package_variants fail retry_variants
reconcile_package_variants env w =
    let (core, core_ok) = create_core_package_variants env.core w.cluster w.resources in
    let u = record w { resources = core } in
    let (overlays, overlays_ok) = create_overlay_package_variants env.overlays w.cluster core in
    let v = record w { resources = overlays } in
    let (t, saved) = retry_variants env.saves 0 5 v in
    if not core_ok
    then fail env.failed_saved "CorePackageVariantsFailed" u
    else if not overlays_ok
    then fail env.failed_saved "OverlayPackageVariantsFailed" v
    else if saved
    then (t, stop)
    else (t, error)

-- `reconcileProvisioning`, behind the status.
unfoldable pub provision_node : Env → NodeType → World → World × Result
unfolding reconcile_control_plane reconcile_worker fail
provision_node env control_plane w = reconcile_control_plane env.control w
provision_node env worker w =
    if env.worker_ssh
    then reconcile_worker env.join w
    else fail env.failed_saved "SSHConnectionFailed" w
provision_node env (other_type text) w = fail env.failed_saved "UnknownNodeType" w

-- `reconcileProvisioning`
unfoldable pub reconcile_provisioning : Env → World → World × Result
unfolding set_status provision_node
reconcile_provisioning env w =
    provision_node env w.cluster.node_type
      (set_status env.provisioning_saved provisioning "Provisioning" false w).0

module _ (parse_time : String → Option ℕ) (format_time : ℕ → String) where
  -- `needsTokenRefresh`
  unfoldable pub needs_token_refresh : ℕ → World → Bool
  unfolding is_empty
  needs_token_refresh now w =
      if is_empty w.cluster.status.join_command
      then false
      else elim w.cluster.annotations.refreshed_at [
        | none ↦ true
        | some text ↦ elim (parse_time text) [
          | none ↦ true
          | some t ↦ leb (t + token_refresh_interval) now
        ]
      ]

  -- `refreshJoinToken`, behind the creation of the token.
  unfoldable pub store_token : RefreshEnv → ℕ → String → World → World
  unfolding status_update patch_remote_join_cmd patch_annotation
  store_token env now cmd w =
      let (v, saved) = status_update env.saved (with_join_command cmd (refetch w)) in
      if not env.found
      then w
      else if not saved
      then v
      else patch_annotation env.stamped join_token_refreshed_at (format_time now)
          (patch_remote_join_cmd env.remote_patched cmd v)

  -- `refreshJoinToken`, whose failure is only logged.
  unfoldable pub refresh_join_token : RefreshEnv → ℕ → World → World
  unfolding store_token trim_space is_empty
  refresh_join_token env now w = if not env.ssh then w else elim env.token [
    | none ↦ w
    | some output ↦
        if is_empty (trim_space output) then w else store_token env now (trim_space output) w
  ]

  unfoldable pub refresh_if_due : Env → World → World
  unfolding needs_token_refresh refresh_join_token
  refresh_if_due env w =
      if needs_token_refresh env.now w then refresh_join_token env.refresh env.now w else w

  -- The time until the next renewal of the token.
  unfoldable pub until_refresh : ℕ → Option String → ℕ
  until_refresh now none = token_refresh_interval
  until_refresh now (some text) = elim (parse_time text) [
    | none ↦ token_refresh_interval
    | some t ↦
        if ltb now (t + token_refresh_interval)
        then t + token_refresh_interval - now
        else token_refresh_interval
  ]

  -- The end of the case Ready of a control plane.
  unfoldable pub keep_ready : Env → World → World × Result
  unfolding until_refresh reconcile_package_variants has_value
  keep_ready env w =
      if has_value w.cluster.annotations.pkg_variants "true"
      then (w, requeue_after (until_refresh env.now w.cluster.annotations.refreshed_at))
      else reconcile_package_variants env.variants w

  -- The case Ready of a control plane, behind the connection that it makes without a NetConfig.
  unfoldable pub publish_late : Env → World → World × Result
  unfolding create_node_provision_config fail patch_annotation refresh_if_due keep_ready
  publish_late env w =
      let (v, created) = create_node_provision_config env.net w.cluster w in
      if not created
      then fail env.failed_saved "NodeProvisionNetConfigUpdateFailed" v
      else keep_ready env
          (refresh_if_due env (patch_annotation env.created_saved node_provision_created "true" v))

  -- The case Ready of a control plane.
  unfoldable pub reconcile_ready : Env → World → World × Result
  unfolding refresh_if_due keep_ready publish_late has_value fail
  reconcile_ready env w =
      if has_value w.cluster.annotations.created "true"
      then keep_ready env (refresh_if_due env w)
      else if not env.ready_ssh
      then fail env.failed_saved "SSHConnectionFailed" w
      else publish_late env w

  unfoldable pub reconcile_ready_node : Env → NodeType → World → World × Result
  unfolding reconcile_ready
  reconcile_ready_node env control_plane w = reconcile_ready env w
  reconcile_ready_node env _ w = (w, stop)

  -- The switch on the phase.
  unfoldable pub reconcile_phase : Env → Phase → World → World × Result
  unfolding reconcile_provisioning reconcile_ready_node
  reconcile_phase env unset w = reconcile_provisioning env w
  reconcile_phase env provisioning w = reconcile_provisioning env w
  reconcile_phase env ready w = reconcile_ready_node env w.cluster.node_type w
  reconcile_phase env failed w = reconcile_provisioning env w
  reconcile_phase env (other_phase text) w = (w, stop)

  -- `ensureFinalizer`
  unfoldable pub add_finalizer : World → World
  add_finalizer w = record w { cluster = record w.cluster { finalizer = true } }

  -- `Reconcile`, behind the fetch.
  unfoldable pub reconcile_fetched : Env → World → World × Result
  unfolding update add_finalizer protect_secrets reconcile_phase handle_delete
  reconcile_fetched env w =
      let (v, saved) = update env.finalizer_saved (add_finalizer w) in
      if w.cluster.deleted
      then handle_delete env.delete w
      else if not w.cluster.finalizer
      then (v, if saved then requeue else error)
      else reconcile_phase env w.cluster.status.phase (protect_secrets env.protect w)

  -- `Reconcile`
  unfoldable pub reconcile : Env → World → World × Result
  unfolding reconcile_fetched
  reconcile env w = elim env.fetched [
    | found ↦ reconcile_fetched env (refetch w)
    | gone ↦ (w, stop)
    | unreadable ↦ (w, error)
  ]
