-- ===== src/Cluster/ControlPlane.antt =====
-- A control plane's provisioning: `reconcileControlPlane`, its goroutine and `completeControlPlane` of
-- internal/controller/remotecluster_controller.go.
pub mod Jobs
pub mod Cycle
pub mod Complete
use public_cloud_vm_provisio.Prelude.{
  ℕ, zero, suc, ◌+◌, ◌-◌, String, Bool, true, false, not, Option, none, some, [], ◌∷◌, ◌++◌,
  if◌then◌else◌, is_empty, itoa,
}
use public_cloud_vm_provisio.Kubeadm.{ControlPlaneEnv, initialize_control_plane}
use public_cloud_vm_provisio.Cluster.{
  World, Result, Job, running, finished, set_status, fail, patch_annotations, patch_annotation,
  refetch, with_status, ready, error, repo_ready_wait, control_plane_poll_interval, start_phase,
  has_value, last_completed_phase_cp, cp_init_complete, join_cmd_cache, node_provision_created,
}
use public_cloud_vm_provisio.Cluster.Packages.{RepoEnv, create_cluster_repo}
use public_cloud_vm_provisio.Cluster.Remote.{NetEnv, create_node_provision_config}

-- The API server's answer to the update of the status to Ready; a copy that is not fresh conflicts.
pub data SaveAnswer : Type 0 where
  accepted conflict refused : SaveAnswer

pub record Save : Type 0 where
  pub found : Bool
  pub answer : SaveAnswer

-- What the calls of one run of `completeControlPlane` answer.
pub record CompleteEnv : Type 0 where
  pub ssh : Bool
  pub repo : RepoEnv
  pub net : NetEnv
  pub created_saved : Bool
  pub saves : ℕ → Save
  pub cleared : Bool
  pub failed_saved : Bool

abbrev pub with_join_command : String → World → World
with_join_command cmd w = with_status (record w.cluster.status { join_command = cmd }) w

-- One attempt to write the status Ready, on a copy that is fetched first.
unfoldable pub save_ready : String → World → World
unfolding set_status
save_ready cmd w = (set_status true ready "Provisioned" false (with_join_command cmd (refetch w))).0

-- `retry.RetryOnConflict(retry.DefaultRetry, …)`, with the attempts left, and whether it succeeds.
unfoldable pub retry_ready : String → (ℕ → Save) → ℕ → ℕ → World → World × Bool
unfolding save_ready
retry_ready cmd saves round zero w = (w, false)
retry_ready cmd saves round (suc left) w =
    let rest = retry_ready cmd saves (round + 1) left w in
    if not (saves round).found then (w, false) else elim (saves round).answer [
      | accepted ↦ (save_ready cmd w, true)
      | conflict ↦ rest
      | refused ↦ (w, false)
    ]

-- From the status Ready on; the attempts of the default retry are five.
unfoldable pub flip_ready : CompleteEnv → String → World → World × Result
unfolding retry_ready patch_annotations
flip_ready env cmd w =
    let (v, saved) = retry_ready cmd env.saves 0 5 w in
    if not saved then (v, error) else (
      patch_annotations env.cleared ((cp_init_complete, none) ∷ (join_cmd_cache, none) ∷ []) v,
      repo_ready_wait,
    )

-- From the NetConfig on.
unfoldable pub publish_config : CompleteEnv → String → World → World × Result
unfolding create_node_provision_config fail patch_annotation flip_ready
publish_config env cmd w =
    let (v, created) = create_node_provision_config env.net w.cluster w in
    if not created
    then fail env.failed_saved "NodeProvisionNetConfigUpdateFailed" v
    else flip_ready env cmd (patch_annotation env.created_saved node_provision_created "true" v)

-- `completeControlPlane`
unfoldable pub complete_control_plane : CompleteEnv → String → World → World × Result
unfolding create_cluster_repo fail publish_config
complete_control_plane env cmd w =
    let (store, ok) = create_cluster_repo env.repo w.cluster w.resources in
    let v = record w { resources = store } in
    if not env.ssh
    then fail env.failed_saved "SSHConnectionFailed" w
    else if not ok
    then fail env.failed_saved "ClusterRepoFailed" v
    else publish_config env cmd v

-- What the calls of one run of `reconcileControlPlane` answer.
pub record ControlEnv : Type 0 where
  pub ssh : Bool
  pub runtime : Bool  -- resolveCnlabRuntimeConfig
  pub progress_saved : Bool
  pub init_saved : Bool
  pub failed_saved : Bool
  pub complete : CompleteEnv

-- No job is running: the goroutine is started.
unfoldable pub start_job : ControlEnv → World → World × Result
unfolding fail
start_job env w =
    if not env.ssh
    then fail env.failed_saved "SSHConnectionFailed" w
    else if not env.runtime
    then fail env.failed_saved "RuntimeConfigError" w
    else (record w { job = some running }, control_plane_poll_interval)

-- The progress that is left behind in `controlPlaneProgress` is written to the annotation.
unfoldable pub save_progress : Bool → World → World
unfolding patch_annotation itoa
save_progress saved w = elim w.progress [
  | none ↦ w
  | some phase ↦ patch_annotation saved last_completed_phase_cp (itoa phase) w
]

-- The job's result is taken from the channel.
unfoldable pub take_job : ControlEnv → World → World
unfolding save_progress
take_job env w = record (save_progress env.progress_saved w) { job = none; progress = none }

unfoldable pub finish_job : ControlEnv → Option String → World → World × Result
unfolding fail patch_annotations complete_control_plane
finish_job env none w = fail env.failed_saved "ControlPlaneInitFailed" w
finish_job env (some cmd) w = complete_control_plane env.complete cmd (
    patch_annotations env.init_saved
      ((last_completed_phase_cp, some "-1")
        ∷ (cp_init_complete, some "true")
        ∷ (join_cmd_cache, some cmd)
        ∷ [])
      w)

-- The progress of the running job is written to the annotation unless the copy has it already.
unfoldable pub flush_progress : ControlEnv → World → World
unfolding patch_annotation itoa has_value
flush_progress env w = elim w.progress [
  | none ↦ w
  | some phase ↦
      if has_value w.cluster.annotations.last_cp (itoa phase)
      then w
      else patch_annotation env.progress_saved last_completed_phase_cp (itoa phase) w
]

unfoldable pub poll_job : ControlEnv → Option Job → World → World × Result
unfolding start_job flush_progress take_job finish_job
poll_job env none w = start_job env w
poll_job env (some running) w = (flush_progress env w, control_plane_poll_interval)
poll_job env (some (finished answer)) w = finish_job env answer (take_job env w)

abbrev pub text_or_empty : Option String → String
text_or_empty none = ""
text_or_empty (some text) = text

-- `reconcileControlPlane`
unfoldable pub reconcile_control_plane : ControlEnv → World → World × Result
unfolding complete_control_plane has_value poll_job is_empty
reconcile_control_plane env w =
    if not (is_empty w.cluster.status.join_command)
    then (w, repo_ready_wait)
    else if has_value w.cluster.annotations.init_complete "true"
    then complete_control_plane env.complete (text_or_empty w.cluster.annotations.cached) w
    else poll_job env w.job w

-- The callback of the goroutine, with the phase's completion on the machine.
unfoldable pub on_phase_complete : ℕ → World → World
on_phase_complete phase w = record w {
  progress = some phase;
  completed = w.completed ++ phase ∷ [];
}

-- A command on the machine, whose answers are given.
abbrev pub run_command : (String → Bool) → String → World → World × Bool
run_command answers cmd w = (w, answers cmd)

-- The goroutine, from the phase that `reconcileControlPlane` chose when it started it.
unfoldable pub run_job : (String → Bool) → ControlPlaneEnv → World → World
unfolding initialize_control_plane on_phase_complete start_phase
run_job answers env w =
    let (v, answer) =
      initialize_control_plane (run_command answers) on_phase_complete env
        (start_phase w.cluster.annotations.last_cp) w in
    record v { job = some (finished answer) }
