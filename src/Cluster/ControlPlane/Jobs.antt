-- ===== src/Cluster/ControlPlane/Jobs.antt =====
-- A control plane's jobs, one behind the other: each resumes behind the last completed phase.
use public_cloud_vm_provisio.Prelude.{
  ℕ, ◌+◌, ◌≤◌, String, ◌≡◌, refl, sym, ap, ◌∙◌, Bool, Option, none, some, arith, subst, ◌-◌, ◌^◌,
  ◌<◌, itoa, atoi-itoa, inl, inr, Option-cases,
}
use public_cloud_vm_provisio.Kubeadm.{ControlPlaneEnv, initialize_control_plane}
use public_cloud_vm_provisio.Kubeadm.Resume.{up_to, next_phase, next_phase-append, next_phase-up_to}
use public_cloud_vm_provisio.Kubeadm.Keep.{initialize_control_plane-keep}
use public_cloud_vm_provisio.Kubeadm.Init.{
  InitEnds-open, InitEnds, initialize_control_plane-completes,
}
use public_cloud_vm_provisio.Cluster.{World, start_phase, refetch}
use public_cloud_vm_provisio.Cluster.ControlPlane.{run_job, run_command, on_phase_complete}

-- The phase that the next job starts at: behind the progress in the reconciler's map, or by the
-- annotation on the API server.
unfoldable pub next_start : World → ℕ
unfolding start_phase
next_start w = elim w.progress [
  | none ↦ start_phase w.cluster.annotations.last_cp
  | some phase ↦ phase + 1
]

-- The phases before the next start are completed, in order, and no others.
unfoldable pub IsResumable : World → Type 0
IsResumable w =
    (next_start w ≡ next_phase w.completed)
    × (w.completed ≡ up_to (next_phase w.completed))
    × (next_phase w.completed ≤ 13)

on_phase-IsCurrent :
    (i : ℕ) (w : World)
    → next_start (on_phase_complete i w) ≡ next_phase (on_phase_complete i w).completed
unfolding next_start on_phase_complete
on_phase-IsCurrent i w = sym (next_phase-append w.completed i)

-- The annotation that the controller writes behind a phase makes the next job start at the one after it.
pub start_phase-itoa : (i : ℕ) → i < 2 ^ 63 - 1 → start_phase (some (itoa i)) ≡ i + 1
unfolding start_phase
start_phase-itoa i h = rw (start_phase, atoi-itoa i (omega arith)) (omega arith)

pub next_start-progress : (w : World) (i : ℕ) → w.progress ≡ some i → next_start w ≡ i + 1
unfolding next_start
next_start-progress w i p = rw (next_start, p) refl

pub next_start-annotation :
    (w : World) → w.progress ≡ none → next_start w ≡ start_phase w.cluster.annotations.last_cp
unfolding next_start
next_start-annotation w p = rw (next_start, p) refl

-- The goroutine's state behind the phases.
job_world : (String → Bool) → ControlPlaneEnv → World → World × Option String
job_world answers env w =
    initialize_control_plane (run_command answers) on_phase_complete env
      (start_phase w.cluster.annotations.last_cp) w

job_world-ends :
    (answers : String → Bool) (env : ControlPlaneEnv) (w : World)
    → w.progress ≡ none
    → IsResumable w
    → InitEnds (λ v. v.completed) (next_phase w.completed) (job_world answers env w)
unfolding job_world IsResumable on_phase_complete
job_world-ends answers env w p (e, l, k) =
    let start : start_phase w.cluster.annotations.last_cp ≡ next_phase w.completed =
      sym (next_start-annotation w p) ∙ e in
    subst (λ n. InitEnds (λ v. v.completed) n (job_world answers env w)) start
      (initialize_control_plane-completes (run_command answers) on_phase_complete (λ v. v.completed)
        (λ cmd s. refl) (λ i s. refl) env _ w (omega arith) (l ∙ ap up_to (sym start)))

pub run_job-IsResumable :
    (answers : String → Bool) (env : ControlPlaneEnv) (w : World)
    → w.progress ≡ none
    → IsResumable w
    → IsResumable (run_job answers env w)
unfolding run_job IsResumable next_start job_world
run_job-IsResumable answers env w p h =
    let (n, l, from, k, rest) =
      InitEnds-open _ _ (job_world answers env w) (job_world-ends answers env w p h) in
    let last : next_phase (job_world answers env w).0.completed ≡ n =
      ap next_phase l ∙ next_phase-up_to n in
    (
      initialize_control_plane-keep (run_command answers) on_phase_complete
          (λ v. next_start v ≡ next_phase v.completed) (λ cmd s e. e)
          (λ i s e. on_phase-IsCurrent i s) env _ w h.0,
      l ∙ ap up_to (sym last),
      omega arith,
    )

-- A job touches neither copy of the object.
pub run_job-same :
    (answers : String → Bool) (env : ControlPlaneEnv) (w : World)
    → (run_job answers env w).stored ≡ w.stored × (run_job answers env w).cluster ≡ w.cluster
unfolding run_job on_phase_complete
run_job-same answers env w =
    initialize_control_plane-keep (run_command answers) on_phase_complete
      (λ v. v.stored ≡ w.stored × v.cluster ≡ w.cluster) (λ cmd s e. e) (λ i s e. e) env _ w
      (refl, refl)

pub IsResumable-refetch :
    (w : World)
    → w.cluster.annotations ≡ w.stored.annotations
    → IsResumable w
    → IsResumable (refetch w)
unfolding IsResumable next_start
IsResumable-refetch w e (a, b, c) = elim (Option-cases w.progress) [
  | inl p ↦ (
    rw (next_start, p)
        (ap (λ x. start_phase x.last_cp) (sym e) ∙ sym (next_start-annotation w p) ∙ a),
    b,
    c,
  )
  | inr (i, p) ↦ (rw (next_start, p) (sym (next_start-progress w i p) ∙ a), b, c)
]
