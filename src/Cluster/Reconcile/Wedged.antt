-- ===== src/Cluster/Reconcile/Wedged.antt =====
-- A control plane with a join command that is not Ready.
use public_cloud_vm_provisio.Prelude.{
  ℕ, String, ◌≡◌, refl, sym, ap, ◌∙◌, inl, inr, Bool, false, Option, List, [], ◌∷◌, is_empty, subst,
}
use public_cloud_vm_provisio.Cluster.{
  World, RemoteCluster, control_plane, provisioning, refetch, set_status, repo_ready_wait,
}
use public_cloud_vm_provisio.Cluster.Secrets.{protect_secrets}
use public_cloud_vm_provisio.Cluster.ControlPlane.{ControlEnv, reconcile_control_plane}
use public_cloud_vm_provisio.Cluster.Reconcile.{
  Env, reconcile, reconcile_provisioning, provision_node,
}
use public_cloud_vm_provisio.Cluster.Reconcile.Provision.{
  IsRetried, protect_secrets-same, reconcile-retries, reconcile_all, next_status, set_status-cases,
  Fetched-cases,
}

-- The object of a control plane that has its join command, with a phase that is retried.
pub record IsWedged (o : RemoteCluster) : Type 0 where
  pub retried : IsRetried o
  pub is_cp : o.node_type ≡ control_plane
  pub has_command : is_empty o.status.join_command ≡ false

set_status-IsWedged :
    (accepted : Bool) (w : World)
    → w.cluster ≡ w.stored
    → IsWedged w.stored
    → IsWedged (set_status accepted provisioning "Provisioning" false w).0.stored
      × (is_empty
            (set_status accepted provisioning "Provisioning" false w).0.cluster.status.join_command
          ≡ false)
      × ((set_status accepted provisioning "Provisioning" false w).0.resources ≡ w.resources)
unfolding next_status
set_status-IsWedged accepted w e h =
    let c : is_empty w.cluster.status.join_command ≡ false =
      ap (λ o. is_empty o.status.join_command) e ∙ h.has_command in
    elim (set_status-cases accepted provisioning "Provisioning" false w) [
      | inl f ↦ rw f (
        record {
          retried = record {
            kept = h.retried.kept;
            protected = h.retried.protected;
            phase = inr refl;
          };
          is_cp = h.is_cp;
          has_command = c;
        },
        c,
        refl,
      )
      | inr f ↦ rw f (h, c, refl)
    ]

control_plane_waits :
    (env : ControlEnv) (w : World)
    → is_empty w.cluster.status.join_command ≡ false
    → reconcile_control_plane env w ≡ (w, repo_ready_wait)
unfolding reconcile_control_plane
control_plane_waits env w e = rw (reconcile_control_plane, e) refl

provision_waits :
    (env : Env) (w : World)
    → w.cluster ≡ w.stored
    → IsWedged w.stored
    → reconcile_provisioning env w
      ≡ ((set_status env.provisioning_saved provisioning "Provisioning" false w).0, repo_ready_wait)
unfolding reconcile_provisioning provision_node
provision_waits env w e h =
    let (a, b, c) = set_status-IsWedged env.provisioning_saved w e h in
    let v = (set_status env.provisioning_saved provisioning "Provisioning" false w).0 in
    ap (λ t. provision_node env t v) (ap (λ o. o.node_type) e ∙ h.is_cp)
    ∙ control_plane_waits env.control v b

module _ (parse_time : String → Option ℕ) (format_time : ℕ → String) where
  reconcile_waits :
      (env : Env) (w : World)
      → IsWedged w.stored
      → IsWedged (reconcile parse_time format_time env w).0.stored
        × ((reconcile parse_time format_time env w).0.resources ≡ w.resources)
  unfolding reconcile
  reconcile_waits env w h = elim (Fetched-cases env.fetched) [
    | inl f ↦
        let u = protect_secrets env.protect (refetch w) in
        let (c, s, r, _, _) = protect_secrets-same env.protect (refetch w) in
        let k : IsWedged u.stored = subst IsWedged (sym s) h in
        let (a, _, b) = set_status-IsWedged env.provisioning_saved u (c ∙ sym s) k in
        rw
          (
            reconcile,
            f,
            reconcile-retries parse_time format_time env w h.retried,
            provision_waits env u (c ∙ sym s) k,
          )
          (a, b ∙ r)
    | inr f ↦ elim f [ inl g ↦ rw (reconcile, g) (h, refl) | inr g ↦ rw (reconcile, g) (h, refl) ]
  ]

  -- A control plane that has its join command and whose phase is Failed or Provisioning is never Ready
  -- again: after any number of reconciles, however their calls answer, its phase is still one of the
  -- two, and no object of its packages has been made, changed or deleted.
  pub reconcile_all-IsWedged :
      (envs : List Env) (w : World)
      → IsWedged w.stored
      → IsWedged (reconcile_all parse_time format_time envs w).stored
        × ((reconcile_all parse_time format_time envs w).resources ≡ w.resources)
  unfolding reconcile_all
  reconcile_all-IsWedged [] w h = (h, refl)
  reconcile_all-IsWedged (env ∷ envs) w h =
      let (a, r) = reconcile_waits env w h in
      let (b, s) = reconcile_all-IsWedged envs (reconcile parse_time format_time env w).0 a in
      (b, s ∙ r)
