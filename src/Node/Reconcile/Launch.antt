-- ===== src/Node/Reconcile/Launch.antt =====
-- How often an instance is launched, and what is known of it afterwards: `reconcileAWSProvisioning`
-- and `reconcileGCPProvisioning` of internal/controller/ml/nodeprovision_controller.go.
use public_cloud_vm_provisio.Prelude.{
  is_empty-cases, ℕ, String, ◌≡◌, refl, ◌∙◌, ◌⊎◌, inl, inr, Bool, none, some, List, [], ◌∷◌, ◌++◌,
  arith, if◌then◌else◌, Option-cases, is_empty, subst, ap, true, false, ◌&&◌,
}
use public_cloud_vm_provisio.Node.{
  World, Result, requeue_short, save_and, error, set_phase_status, fail_node_provision,
  waiting_for_instance,
}
use public_cloud_vm_provisio.Node.Aws.{
  AwsEnv, Answer, ok, err, Provision, ProvisionResult, launched, partly, refused, add_instance,
  record_result, finish_launch, launch, connect, create, skip_creation, reconcile_aws_provisioning,
}
use public_cloud_vm_provisio.Node.Reconcile.Stuck.{IsWaiting, Runs, Runs-stored}
use public_cloud_vm_provisio.Node.Steps.{save_and-elim, if-elim}
use public_cloud_vm_provisio.Node.Aws.{resolve_aws_defaults}
use public_cloud_vm_provisio.Node.{validating, configuring_vpn, creating_instance, error, save_and}
use public_cloud_vm_provisio.Node.Aws.{mark_creating, validate_aws_config, provisioned}

-- What a launch makes.
abbrev pub launched_by : Provision → List String
launched_by (launched r) = r.instance_id ∷ []
launched_by _ = []

-- The instances before and after: none is lost, and at most the one launched is new.
abbrev pub IsAdded : Provision → List String → List String → Type 0
IsAdded p before after = after ≡ before ⊎ after ≡ launched_by p ++ before

record_result-instances :
    (env : AwsEnv) (r : ProvisionResult) (w : World)
    → (record_result env r w).instances ≡ w.instances
unfolding record_result
record_result-instances env r w = ground arith

finish_launch-instances :
    (env : AwsEnv) (r : ProvisionResult) (w : World)
    → (finish_launch env r w).0.instances ≡ w.instances
unfolding finish_launch
finish_launch-instances env r w = ground arith

pub fail-instances :
    (now : ℕ) (saved : Bool) (msg : String) (w : World)
    → (fail_node_provision now saved msg w).0.instances ≡ w.instances
unfolding fail_node_provision
fail-instances now saved msg w = ground arith

pub Answer-cases : {A : Type 0} (a : Answer A) → ((x : A) × a ≡ ok x) ⊎ ((e : String) × a ≡ err e)
Answer-cases (ok x) = inl (x, refl)
Answer-cases (err e) = inr (e, refl)

pub provisioned-IsAdded :
    (env : AwsEnv) (msg : String) (p : Provision) (w : World)
    → IsAdded p w.instances (provisioned env msg p w).0.instances
unfolding provisioned add_instance
provisioned-IsAdded env msg (launched r) w =
    let v = add_instance (launched r) w in
    inr (finish_launch-instances env r (record_result env r v) ∙ record_result-instances env r v)
provisioned-IsAdded env msg (partly r e) w = inl (
    fail-instances env.now env.fail_saved msg (record_result env r w)
    ∙ record_result-instances env r w)
provisioned-IsAdded env msg (refused e) w = inl (fail-instances env.now env.fail_saved msg w)

launch-IsAdded :
    (env : AwsEnv) (w : World) → IsAdded env.provision w.instances (launch env w).0.instances
unfolding launch
launch-IsAdded env w = elim (Answer-cases env.creds) [
  | inl (x, good) ↦ rw good (provisioned-IsAdded env "EC2 provisioning failed" env.provision w)
  | inr (e, bad) ↦
      rw bad (inl (fail-instances env.now env.fail_saved "resolving AWS credentials" w))
]

-- The instances of a run that starts in `w`
abbrev pub Adds : AwsEnv → World → World × Result → Type 0
Adds env w r = IsAdded env.provision w.instances r.0.instances

module _ (env : AwsEnv) where
  module _ (finish : World → World × Result) (adds : (w : World) → Adds env w (finish w)) where
    pub save_and-Adds :
        (accepted found : Bool) (w : World) → Adds env w (save_and accepted found finish w)
    save_and-Adds accepted found w =
        save_and-elim (Adds env w) accepted found finish w (inl refl)
          (λ v same. subst (λ is. IsAdded env.provision is (finish v).0.instances) same (adds v))

  mark_creating-Adds : (w : World) → Adds env w (mark_creating env w)
  unfolding mark_creating set_phase_status
  mark_creating-Adds w =
      save_and-Adds (launch env) (launch-IsAdded env) env.saved_creating env.found_creating
        (set_phase_status env.now creating_instance "Creating EC2 instance" 25 w)

  connect-Adds : (w : World) → Adds env w (connect env w)
  unfolding connect set_phase_status
  connect-Adds w =
      save_and-Adds (λ v. if env.vpn_server then mark_creating env v else (v, error))
        (λ v. if-elim (Adds env v) env.vpn_server (mark_creating-Adds v) (inl refl)) env.saved_vpn
        env.found_vpn (set_phase_status env.now configuring_vpn "Configuring VPN client" 15 w)

  create-Adds : (w : World) → Adds env w (create env w)
  unfolding create set_phase_status
  create-Adds w = elim (Option-cases (validate_aws_config w.np.spec)) [
    | inl valid ↦
        rw (valid, create)
          (save_and-Adds (λ v. if env.net_config then connect env v else (v, requeue_short))
            (λ v. if-elim (Adds env v) env.net_config (connect-Adds v) (inl refl))
            env.saved_validating env.found_validating
            (set_phase_status env.now validating "Validating AWS configuration" 5 w))
    | inr (e, bad) ↦
        rw (bad, create) (inl (fail-instances env.now env.fail_saved "AWS validation failed" w))
  ]

pub skip_creation-instances :
    (env : AwsEnv) (w : World) → (skip_creation env w).0.instances ≡ w.instances
unfolding skip_creation
skip_creation-instances env w = ground arith

create-new :
    (env : AwsEnv) (w : World)
    → w.np.status.instance_id ≡ ""
    → IsAdded env.provision w.instances (reconcile_aws_provisioning env w).0.instances
unfolding reconcile_aws_provisioning is_empty
create-new env w none_yet = elim (Answer-cases (resolve_aws_defaults env.defaults w.np.spec)) [
  | inl (none, e) ↦ rw (none_yet, e) (create-Adds env w)
  | inl (some spec, e) ↦ rw (none_yet, e) (inl refl)
  | inr (msg, e) ↦
      rw (none_yet, e) (inl (fail-instances env.now env.fail_saved "resolving AWS defaults" w))
]

-- One run of AWS provisioning leaves the cloud's instances as they are, or adds the one that
-- `ProvisionEC2Node` launched; the latter only where the resource has no instance on record.
pub reconcile_aws-launches_once :
    (env : AwsEnv) (w : World)
    → (reconcile_aws_provisioning env w).0.instances ≡ w.instances
      ⊎ (w.np.status.instance_id ≡ ""
          × (reconcile_aws_provisioning env w).0.instances
            ≡ launched_by env.provision ++ w.instances)
unfolding reconcile_aws_provisioning
reconcile_aws-launches_once env w = elim (is_empty-cases w.np.status.instance_id) [
  | inl (none_yet, e) ↦ elim (create-new env w none_yet) [
    | inl same ↦ inl same
    | inr new ↦ inr (none_yet, new)
  ]
  | inr (known, e) ↦ rw e (inl (skip_creation-instances env w))
]

finish_launch-taken :
    (env : AwsEnv) (r : ProvisionResult) (w : World)
    → env.found_launched ≡ true
    → env.saved_launched ≡ true
    → (finish_launch env r w).0.stored.status.instance_id ≡ r.instance_id
      × (finish_launch env r w).0.stored.status.phase ≡ waiting_for_instance
      × (finish_launch env r w).1 ≡ requeue_short
unfolding finish_launch
finish_launch-taken env r w found saved = ground arith

finish_launch-lost :
    (env : AwsEnv) (r : ProvisionResult) (w : World)
    → env.found_launched && env.saved_launched ≡ false
    → (finish_launch env r w).0.stored ≡ w.stored × (finish_launch env r w).1 ≡ error
unfolding finish_launch
finish_launch-lost env r w lost = ground arith

record_result-stored :
    (env : AwsEnv) (r : ProvisionResult) (w : World) → (record_result env r w).stored ≡ w.stored
unfolding record_result
record_result-stored env r w = ground arith

module _ (env : AwsEnv) (w : World) {r : ProvisionResult} (creds : env.creds ≡ ok tt)
    (made : env.provision ≡ launched r) where
  recorded_world : World
  recorded_world = record_result env r (add_instance (launched r) w)

  launch-finish : launch env w ≡ finish_launch env r recorded_world
  unfolding launch provisioned recorded_world
  launch-finish = rw (creds, made)

  launch-instances : (launch env w).0.instances ≡ r.instance_id ∷ w.instances
  unfolding recorded_world add_instance
  launch-instances =
      ap (λ s. s.0.instances) launch-finish
      ∙ finish_launch-instances env r recorded_world
      ∙ record_result-instances env r (add_instance (launched r) w)

  -- Where the launch succeeds and the object can be fetched and written, the stored status names
  -- the new instance and waits for it.
  pub launch-recorded :
      env.found_launched ≡ true
      → env.saved_launched ≡ true
      → (launch env w).0.stored.status.instance_id ≡ r.instance_id
        × (launch env w).0.stored.status.phase ≡ waiting_for_instance
        × (launch env w).0.instances ≡ r.instance_id ∷ w.instances
        × (launch env w).1 ≡ requeue_short
  launch-recorded found saved =
      let (id, phase, answer) = finish_launch-taken env r recorded_world found saved in
      (
        ap (λ s. s.0.stored.status.instance_id) launch-finish ∙ id,
        ap (λ s. s.0.stored.status.phase) launch-finish ∙ phase,
        launch-instances,
        ap (λ s. s.1) launch-finish ∙ answer,
      )

  -- Where the launch succeeds and the object is not fetched or not written then, the stored object
  -- being marked as in creation without an instance, alive and with the finalizer: the handler
  -- returns an error, the instance is there, and however often the resource is reconciled
  -- afterwards, its stored object stays as it was, without the instance's ID, as long as nobody else
  -- writes to it.
  pub launch-orphaned :
      {v : World}
      → env.found_launched && env.saved_launched ≡ false
      → IsWaiting w.stored
      → Runs (launch env w).0 v
      → (launch env w).1 ≡ error
        × (launch env w).0.instances ≡ r.instance_id ∷ w.instances
        × v.stored ≡ w.stored
  unfolding recorded_world add_instance
  launch-orphaned lost waiting runs =
      let (kept, answer) = finish_launch-lost env r recorded_world lost in
      let same =
        ap (λ s. s.0.stored) launch-finish
        ∙ kept
        ∙ record_result-stored env r (add_instance (launched r) w) in
      (
        ap (λ s. s.1) launch-finish ∙ answer,
        launch-instances,
        Runs-stored runs (rw same waiting) ∙ same,
      )
