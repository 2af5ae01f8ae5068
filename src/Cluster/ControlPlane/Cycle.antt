-- ===== src/Cluster/ControlPlane/Cycle.antt =====
-- One life of a control plane's job: a reconcile starts it, it runs, and a later reconcile takes its
-- result.
use public_cloud_vm_provisio.Prelude.{
  ◌+◌, String, ◌≡◌, refl, sym, ap, ◌∙◌, inl, inr, Bool, true, false, ◌&&◌, none, some, arith,
  Bool-cases, Option-cases, is_empty, subst,
}
use public_cloud_vm_provisio.Kubeadm.{ControlPlaneEnv}
use public_cloud_vm_provisio.Cluster.{
  World, running, finished, start_phase, refetch, patch_annotation, patch_annotations, is_fresh,
  fail, set_status, status_update, has_value,
}
use public_cloud_vm_provisio.Cluster.ControlPlane.{
  ControlEnv, run_job, take_job, save_progress, start_job, poll_job, finish_job,
  reconcile_control_plane,
}
use public_cloud_vm_provisio.Kubeadm.Resume.{next_phase}
use public_cloud_vm_provisio.Cluster.ControlPlane.Jobs.{
  run_job-same, IsResumable-refetch, next_start, next_start-progress, next_start-annotation,
  start_phase-itoa, IsResumable, run_job-IsResumable,
}

-- No job, no progress in the map, and a control plane that is not initialised.
pub record IsIdle (w : World) : Type 0 where
  pub no_job : w.job ≡ none
  pub no_progress : w.progress ≡ none
  pub no_join_command : is_empty w.stored.status.join_command ≡ true
  pub not_complete : has_value w.stored.annotations.init_complete "true" ≡ false

-- The three steps.
unfoldable pub job_cycle :
    ControlEnv → (String → Bool) → ControlPlaneEnv → ControlEnv → World → World
unfolding reconcile_control_plane run_job
job_cycle start answers env poll w =
    (reconcile_control_plane poll
      (refetch (run_job answers env (reconcile_control_plane start (refetch w)).0))).0

module _ (env : ControlEnv) where
  reconcile-starts :
      (w : World)
      → IsIdle w
      → env.ssh ≡ true
      → env.runtime ≡ true
      → (reconcile_control_plane env (refetch w)).0 ≡ record (refetch w) { job = some running }
  unfolding reconcile_control_plane
  reconcile-starts w h s r =
      rw
        (
          reconcile_control_plane, h.no_join_command, h.not_complete, poll_job, h.no_job, start_job,
          s, r,
        )
        refl

  reconcile-takes :
      (w : World)
      → is_empty w.stored.status.join_command ≡ true
      → has_value w.stored.annotations.init_complete "true" ≡ false
      → w.job ≡ some (finished none)
      → (reconcile_control_plane env (refetch w)).0
        ≡ (fail env.failed_saved "ControlPlaneInitFailed" (take_job env (refetch w))).0
  unfolding reconcile_control_plane fail
  reconcile-takes w e c j = rw (reconcile_control_plane, e, c, poll_job, j, finish_job) refl

  fail-IsIdle :
      (reason : String) (w : World)
      → IsIdle w
      → w.cluster.status.join_command ≡ w.stored.status.join_command
      → IsIdle (fail env.failed_saved reason w).0
  unfolding fail set_status status_update
  fail-IsIdle reason w h e = elim (Bool-cases (env.failed_saved && is_fresh w)) [
    | inl f ↦
        rw (fail, set_status, status_update, f)
          (record {
            no_job = h.no_job;
            no_progress = h.no_progress;
            no_join_command = ap is_empty e ∙ h.no_join_command;
            not_complete = h.not_complete;
          })
    | inr f ↦
        rw (fail, set_status, status_update, f)
          (record {
            no_job = h.no_job;
            no_progress = h.no_progress;
            no_join_command = h.no_join_command;
            not_complete = h.not_complete;
          })
  ]

  fail-IsResumable :
      (reason : String) (w : World)
      → w.progress ≡ none
      → IsResumable (refetch w)
      → IsResumable (refetch (fail env.failed_saved reason w).0)
  unfolding fail set_status status_update IsResumable next_start
  fail-IsResumable reason w p h = elim (Bool-cases (env.failed_saved && is_fresh w)) [
    | inl f ↦ rw (fail, set_status, status_update, f) h
    | inr f ↦ rw (fail, set_status, status_update, f) h
  ]

  take_job-IsIdle :
      (w : World)
      → is_empty w.stored.status.join_command ≡ true
      → has_value w.stored.annotations.init_complete "true" ≡ false
      → IsIdle (take_job env w)
  unfolding take_job save_progress patch_annotation patch_annotations
  take_job-IsIdle w e c = elim (Option-cases w.progress) [
    | inl p ↦
        rw (take_job, save_progress, p)
          (record { no_job = refl; no_progress = refl; no_join_command = e; not_complete = c })
    | inr (i, p) ↦ elim (Bool-cases env.progress_saved) [
      | inl s ↦
          rw (take_job, save_progress, p, patch_annotation, patch_annotations, s)
            (record { no_job = refl; no_progress = refl; no_join_command = e; not_complete = c })
      | inr s ↦
          rw (take_job, save_progress, p, patch_annotation, patch_annotations, s)
            (record { no_job = refl; no_progress = refl; no_join_command = e; not_complete = c })
    ]
  ]

  take_job-IsResumable :
      (w : World)
      → env.progress_saved ≡ true
      → IsResumable w
      → w.cluster.annotations ≡ w.stored.annotations
      → IsResumable (refetch (take_job env w))
  unfolding take_job save_progress patch_annotation patch_annotations IsResumable next_start
  take_job-IsResumable w s (a, b, c) e = elim (Option-cases w.progress) [
    | inl p ↦
        rw (take_job, save_progress, p)
          (ap (λ x. start_phase x.last_cp) (sym e) ∙ sym (next_start-annotation w p) ∙ a, b, c)
    | inr (i, p) ↦
        let q : i + 1 ≡ next_phase w.completed = sym (next_start-progress w i p) ∙ a in
        rw (take_job, save_progress, p, patch_annotation, patch_annotations, s)
          (start_phase-itoa i (omega arith) ∙ q, b, c)
  ]

  take_job-status :
      (w : World)
      → (take_job env w).cluster.status.join_command ≡ w.cluster.status.join_command
        × (take_job env w).stored.status.join_command ≡ w.stored.status.join_command
  unfolding take_job save_progress patch_annotation patch_annotations
  take_job-status w = elim (Option-cases w.progress) [
    | inl p ↦ rw (take_job, save_progress, p) (refl, refl)
    | inr (i, p) ↦ elim (Bool-cases env.progress_saved) [
      | inl s ↦ rw (take_job, save_progress, p, patch_annotation, patch_annotations, s) (refl, refl)
      | inr s ↦ rw (take_job, save_progress, p, patch_annotation, patch_annotations, s) (refl, refl)
    ]
  ]

  poll-keeps :
      (u : World)
      → env.progress_saved ≡ true
      → is_empty u.stored.status.join_command ≡ true
      → has_value u.stored.annotations.init_complete "true" ≡ false
      → u.job ≡ some (finished none)
      → IsResumable (refetch u)
      → IsIdle (reconcile_control_plane env (refetch u)).0
        × IsResumable (refetch (reconcile_control_plane env (refetch u)).0)
  unfolding take_job
  poll-keeps u s e c j h =
      let t = take_job env (refetch u) in
      let (held, kept) = take_job-status (refetch u) in
      subst (λ v. IsIdle v × IsResumable (refetch v)) (sym (reconcile-takes u e c j))
        (
          fail-IsIdle "ControlPlaneInitFailed" t (take_job-IsIdle (refetch u) e c)
              (held ∙ sym kept),
          fail-IsResumable "ControlPlaneInitFailed" t refl
              (take_job-IsResumable (refetch u) s h refl),
        )

-- A reconcile of an idle control plane whose next start is right behind its completed phases starts the
-- job (the connection and the runtime configuration succeed), the job runs and fails, and a reconcile
-- takes its result and saves the progress. Then the control plane is idle again, its completed phases
-- are still 0, 1, … in order, none twice and none left out, and the stored annotation makes the next
-- job start right behind them.
pub job_cycle-IsResumable :
    (start poll : ControlEnv) (answers : String → Bool) (env : ControlPlaneEnv) (w : World)
    → start.ssh ≡ true
    → start.runtime ≡ true
    → poll.progress_saved ≡ true
    → IsIdle w
    → IsResumable (refetch w)
    → (run_job answers env (reconcile_control_plane start (refetch w)).0).job ≡ some (finished none)
    → IsIdle (job_cycle start answers env poll w)
      × IsResumable (refetch (job_cycle start answers env poll w))
unfolding job_cycle IsResumable next_start
job_cycle-IsResumable start poll answers env w ssh runtime saved idle resumable ended =
    let v = record (refetch w) { job = some running } in
    let began : (reconcile_control_plane start (refetch w)).0 ≡ v =
      reconcile-starts start w idle ssh runtime in
    let u = run_job answers env v in
    let (stored, held) = run_job-same answers env v in
    subst
      (λ x.
        IsIdle (reconcile_control_plane poll (refetch (run_job answers env x))).0
        × IsResumable (refetch (reconcile_control_plane poll (refetch (run_job answers env x))).0))
      (sym began)
      (poll-keeps poll u saved
        (ap (λ o. is_empty o.status.join_command) stored ∙ idle.no_join_command)
        (ap (λ o. has_value o.annotations.init_complete "true") stored ∙ idle.not_complete)
        (ap (λ x. (run_job answers env x).job) (sym began) ∙ ended)
        (IsResumable-refetch u (ap (λ o. o.annotations) (held ∙ sym stored))
          (run_job-IsResumable answers env v idle.no_progress resumable)))
