-- ===== src/Node/Gcp.antt =====
-- GCP provisioning of a NodeProvision: `resolveGCPDefaults` and `reconcileGCPProvisioning` of
-- internal/controller/ml/nodeprovision_controller.go, and `ValidateGCPConfig` of
-- provider/gcp/compute.go.
use public_cloud_vm_provisio.Prelude.{
  String, Bool, true, false, not, ◌&&◌, Option, none, some, ◌==◌, if◌then◌else◌, is_empty,
  trim_space,
}
use public_cloud_vm_provisio.Node.{
  Spec, GcpConfig, World, Result, stop, error, requeue_short, validating, configuring_vpn,
  creating_instance, set_phase_status, fail_node_provision, save_and,
}
use public_cloud_vm_provisio.Node.Aws.{
  Answer, ok, err, AwsEnv, skip_creation, provisioned, patch_spec,
}

-- `zone`: the configured zone, without one the region.
unfoldable pub zone : Spec → String
unfolding is_empty
zone spec = elim spec.gcp_config [
  | none ↦ spec.region
  | some cfg ↦ if is_empty cfg.zone then spec.region else cfg.zone
]

-- `strings.ToUpper(strings.TrimSpace(action))` is empty, STOP or DELETE; `upper` is `ToUpper`.
unfoldable pub validate_gcp_config : (String → String) → Spec → Option String
unfolding is_empty trim_space zone
validate_gcp_config upper spec =
    let action = upper (trim_space spec.spot_termination_action) in
    if is_empty spec.instance_type
    then some "spec.instanceType is required for GCP provider"
    else elim spec.gcp_config [
      | none ↦ some "spec.gcpConfig is required for GCP provider"
      | some cfg ↦
          if is_empty cfg.project_id
          then some "spec.gcpConfig.projectId is required"
          else if is_empty (zone spec)
          then some "spec.gcpConfig.zone is required for GCP provider"
          else if not (is_empty action) && not (action == "STOP") && not (action == "DELETE")
          then some "spec.spotTerminationAction must be STOP or DELETE for GCP"
          else none
    ]

abbrev is_none : Option GcpConfig → Bool
is_none none = true
is_none (some cfg) = false

abbrev pub gcp_config_of : Spec → GcpConfig
gcp_config_of spec = elim spec.gcp_config [
  | none ↦ record { project_id = ""; zone = "" }
  | some cfg ↦ cfg
]

-- The specification with what was missing filled in; `none` where nothing is missing. The first
-- argument is `DefaultInstanceTypeForLabel`, the second whether the patch is taken.
unfoldable pub resolve_gcp_defaults : (String → String) → Bool → Spec → Answer (Option Spec)
unfolding is_empty
resolve_gcp_defaults default_type patched spec =
    let cfg = gcp_config_of spec in
    let needs_config = is_none spec.gcp_config in
    let needs_type = is_empty spec.instance_type in
    let needs_zone = not needs_config && is_empty cfg.zone && not (is_empty spec.region) in
    let it = if needs_type then default_type spec.node_label else spec.instance_type in
    let filled = record cfg { zone = if needs_zone then spec.region else cfg.zone } in
    if not needs_config && not needs_type && not needs_zone
    then ok none
    else if needs_type && is_empty it
    then err "spec.instanceType is required"
    else if patched
    then ok (some (record spec { instance_type = it; gcp_config = some filled }))
    else err "patching NodeProvision spec with resolved GCP defaults"

-- The launch, from `ProvisionGCPNode` on. The environment of a run is the one of AWS, less its
-- credentials and defaults; `patched` is whether the patch of the defaults is taken.
unfoldable pub launch_gcp : AwsEnv → World → World × Result
unfolding provisioned
launch_gcp env w = provisioned env "GCP provisioning failed" env.provision w

unfoldable pub mark_creating_gcp : AwsEnv → World → World × Result
unfolding set_phase_status save_and launch_gcp
mark_creating_gcp env w =
    save_and env.saved_creating env.found_creating (launch_gcp env)
      (set_phase_status env.now creating_instance "Creating GCP instance" 25 w)

unfoldable pub connect_gcp : AwsEnv → World → World × Result
unfolding set_phase_status save_and mark_creating_gcp
connect_gcp env w =
    save_and env.saved_vpn env.found_vpn
      (λ v. if env.vpn_server then mark_creating_gcp env v else (v, error))
      (set_phase_status env.now configuring_vpn "Configuring VPN client" 15 w)

unfoldable pub create_gcp : (String → String) → AwsEnv → World → World × Result
unfolding fail_node_provision validate_gcp_config set_phase_status save_and connect_gcp
create_gcp upper env w = elim (validate_gcp_config upper w.np.spec) [
  | some e ↦ fail_node_provision env.now env.fail_saved "GCP validation failed" w
  | none ↦
      save_and env.saved_validating env.found_validating
        (λ v. if env.net_config then connect_gcp env v else (v, requeue_short))
        (set_phase_status env.now validating "Validating GCP configuration" 5 w)
]

-- `reconcileGCPProvisioning`, over `strings.ToUpper` and `DefaultInstanceTypeForLabel`.
unfoldable pub reconcile_gcp_provisioning :
    (String → String) → (String → String) → AwsEnv → World → World × Result
unfolding is_empty fail_node_provision resolve_gcp_defaults skip_creation create_gcp
reconcile_gcp_provisioning upper default_type env w =
    if not (is_empty w.np.status.instance_id)
    then skip_creation env w
    else elim (resolve_gcp_defaults default_type env.defaults.patched w.np.spec) [
      | err e ↦ fail_node_provision env.now env.fail_saved "resolving GCP defaults" w
      | ok (some spec) ↦ (patch_spec spec w, stop)
      | ok none ↦ create_gcp upper env w
    ]
