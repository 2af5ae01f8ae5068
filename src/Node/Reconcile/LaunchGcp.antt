-- ===== src/Node/Reconcile/LaunchGcp.antt =====
-- How often GCP provisioning launches an instance: `reconcileGCPProvisioning` of
-- internal/controller/ml/nodeprovision_controller.go.
use public_cloud_vm_provisio.Prelude.{
  is_empty-cases, String, ◌≡◌, refl, ◌⊎◌, inl, inr, none, some, ◌++◌, if◌then◌else◌, Option-cases,
  is_empty, is_empty-cases,
}
use public_cloud_vm_provisio.Node.{
  World, error, requeue_short, validating, configuring_vpn, creating_instance, set_phase_status,
}
use public_cloud_vm_provisio.Node.Aws.{AwsEnv}
use public_cloud_vm_provisio.Node.Gcp.{
  validate_gcp_config, resolve_gcp_defaults, launch_gcp, mark_creating_gcp, connect_gcp, create_gcp,
  reconcile_gcp_provisioning,
}
use public_cloud_vm_provisio.Node.Steps.{if-elim}
use public_cloud_vm_provisio.Node.Reconcile.Launch.{
  launched_by, Adds, save_and-Adds, fail-instances, Answer-cases, provisioned-IsAdded,
  skip_creation-instances,
}

module _ (upper default_type : String → String) (env : AwsEnv) where
  launch_gcp-Adds : (w : World) → Adds env w (launch_gcp env w)
  unfolding launch_gcp
  launch_gcp-Adds w = provisioned-IsAdded env "GCP provisioning failed" env.provision w

  mark_creating_gcp-Adds : (w : World) → Adds env w (mark_creating_gcp env w)
  unfolding mark_creating_gcp set_phase_status
  mark_creating_gcp-Adds w =
      save_and-Adds env (launch_gcp env) launch_gcp-Adds env.saved_creating env.found_creating
        (set_phase_status env.now creating_instance "Creating GCP instance" 25 w)

  connect_gcp-Adds : (w : World) → Adds env w (connect_gcp env w)
  unfolding connect_gcp set_phase_status
  connect_gcp-Adds w =
      save_and-Adds env (λ v. if env.vpn_server then mark_creating_gcp env v else (v, error))
        (λ v. if-elim (Adds env v) env.vpn_server (mark_creating_gcp-Adds v) (inl refl))
        env.saved_vpn env.found_vpn
        (set_phase_status env.now configuring_vpn "Configuring VPN client" 15 w)

  create_gcp-Adds : (w : World) → Adds env w (create_gcp upper env w)
  unfolding create_gcp set_phase_status
  create_gcp-Adds w = elim (Option-cases (validate_gcp_config upper w.np.spec)) [
    | inl valid ↦
        rw (valid, create_gcp)
          (save_and-Adds env (λ v. if env.net_config then connect_gcp env v else (v, requeue_short))
            (λ v. if-elim (Adds env v) env.net_config (connect_gcp-Adds v) (inl refl))
            env.saved_validating env.found_validating
            (set_phase_status env.now validating "Validating GCP configuration" 5 w))
    | inr (e, bad) ↦
        rw (bad, create_gcp) (inl (fail-instances env.now env.fail_saved "GCP validation failed" w))
  ]

  create_gcp-new :
      (w : World)
      → w.np.status.instance_id ≡ ""
      → Adds env w (reconcile_gcp_provisioning upper default_type env w)
  unfolding reconcile_gcp_provisioning is_empty
  create_gcp-new w none_yet =
      elim (Answer-cases (resolve_gcp_defaults default_type env.defaults.patched w.np.spec)) [
        | inl (none, e) ↦ rw (none_yet, e) (create_gcp-Adds w)
        | inl (some spec, e) ↦ rw (none_yet, e) (inl refl)
        | inr (msg, e) ↦
            rw (none_yet, e)
              (inl (fail-instances env.now env.fail_saved "resolving GCP defaults" w))
      ]

  -- One run of GCP provisioning leaves the cloud's instances as they are, or adds the one that
  -- `ProvisionGCPNode` launched; the latter only where the resource has no instance on record.
  pub reconcile_gcp-launches_once :
      (w : World)
      → let after = (reconcile_gcp_provisioning upper default_type env w).0.instances in
        after ≡ w.instances
        ⊎ (w.np.status.instance_id ≡ "" × after ≡ launched_by env.provision ++ w.instances)
  unfolding reconcile_gcp_provisioning
  reconcile_gcp-launches_once w = elim (is_empty-cases w.np.status.instance_id) [
    | inl (none_yet, e) ↦ elim (create_gcp-new w none_yet) [
      | inl same ↦ inl same
      | inr new ↦ inr (none_yet, new)
    ]
    | inr (known, e) ↦ rw e (inl (skip_creation-instances env w))
  ]
