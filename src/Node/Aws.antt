-- ===== src/Node/Aws.antt =====
-- AWS provisioning of a NodeProvision: `resolveAWSDefaults` and `reconcileAWSProvisioning` of
-- internal/controller/ml/nodeprovision_controller.go, over provider/aws/ec2.go.
pub mod Defaults
pub mod Network
use public_cloud_vm_provisio.Prelude.{
  ℕ, String, Bool, true, false, not, ◌&&◌, ◌||◌, Option, none, some, List, [], ◌∷◌, if◌then◌else◌,
  is_empty, has_prefix,
}
use public_cloud_vm_provisio.Vpn.NetConfig.{NetConfigStatus, Attempt, update_net_config_status}
use public_cloud_vm_provisio.Node.{
  Spec, AwsConfig, Phase, World, Result, stop, error, requeue_short, waiting_for_instance,
  validating, configuring_vpn, creating_instance, status_update, with_status, refetch,
  set_phase_status, fail_node_provision, save_and,
}

-- `ValidateAWSConfig`: the error's text, `none` where the specification is valid.
unfoldable pub validate_aws_config : Spec → Option String
unfolding is_empty has_prefix
validate_aws_config spec =
    if is_empty spec.region
    then some "spec.region is required for AWS provider"
    else if is_empty spec.instance_type
    then some "spec.instanceType is required for AWS provider"
    else elim spec.aws_config [
      | none ↦ some "spec.awsConfig is required for AWS provider"
      | some cfg ↦
          if not (is_empty cfg.availability_zone)
            && not (has_prefix cfg.availability_zone spec.region)
          then some "spec.awsConfig.availabilityZone is not in region"
          else if is_empty cfg.ami
          then some "spec.awsConfig.ami is required"
          else if is_empty cfg.subnet_id
          then some "spec.awsConfig.subnetId is required"
          else none
    ]

-- A call that answers, or fails with a text.
pub data Answer (A : Type 0) : Type 0 where
  ok : A → Answer A
  err : String → Answer A

pub record NetworkConfig : Type 0 where
  pub vpc_id : String
  pub subnet_id : String
  pub security_group_id : String

-- What the calls of `resolveAWSDefaults` answer.
pub record DefaultsEnv : Type 0 where
  pub creds : Answer (Unit {0})
  pub default_type : String  -- DefaultInstanceTypeForLabel
  pub offered : Answer (Unit {0})  -- ValidateInstanceTypeAvailability
  pub image : Answer String  -- ResolveUbuntu22AMI
  pub network : Answer NetworkConfig  -- ResolveOrCreateNetworkConfig
  pub key_pair : Answer String  -- resolveAWSKeyPair
  pub patched : Bool

abbrev pub empty_config : AwsConfig
empty_config = record {
  availability_zone = "";
  vpc_id = "";
  subnet_id = "";
  security_group_ids = [];
  ami = "";
  key_pair_name = "";
}

abbrev pub config_of : Spec → AwsConfig
config_of spec = elim spec.aws_config [ none ↦ empty_config | some cfg ↦ cfg ]

abbrev pub is_nil : List String → Bool
is_nil [] = true
is_nil (x ∷ xs) = false

abbrev pub needs_network : AwsConfig → Bool
needs_network cfg = is_empty cfg.subnet_id || is_nil cfg.security_group_ids

-- `if old == "" { old = new }`
abbrev pub or_default : String → String → String
or_default old new = if is_empty old then new else old

unfoldable pub fill_network : AwsConfig → NetworkConfig → AwsConfig
unfolding is_empty
fill_network cfg net = record cfg {
  vpc_id = or_default cfg.vpc_id net.vpc_id;
  subnet_id = or_default cfg.subnet_id net.subnet_id;
  security_group_ids =
      if is_nil cfg.security_group_ids then net.security_group_id ∷ [] else cfg.security_group_ids;
}

infixl 5 ◌>>=◌
abbrev pub ◌>>=◌ : {A B : Type 0} → Answer A → (A → Answer B) → Answer B
ok a >>= k = k a
err e >>= k = err e

-- Nothing is missing.
unfoldable pub is_complete : Spec → Bool
unfolding is_empty
is_complete spec =
    let cfg = config_of spec in
    not (needs_network cfg)
    && not (is_empty cfg.ami)
    && not (is_empty spec.instance_type)
    && not (is_empty cfg.key_pair_name)

unfoldable pub resolve_type : DefaultsEnv → String → Answer String
unfolding is_empty
resolve_type env old =
    if not (is_empty old)
    then ok old
    else if is_empty env.default_type
    then err "spec.instanceType is required"
    else ok env.default_type

-- The old text, or where there is none the call's answer
unfoldable pub ask_if_empty : String → Answer String → Answer String
unfolding is_empty
ask_if_empty old answer = if is_empty old then answer else ok old

unfoldable pub resolve_network : DefaultsEnv → AwsConfig → Answer AwsConfig
unfolding is_empty fill_network
resolve_network env cfg =
    if needs_network cfg then (env.network >>= λ n. ok (fill_network cfg n)) else ok cfg

unfoldable pub fill_in : DefaultsEnv → Spec → Answer Spec
unfolding resolve_type ask_if_empty resolve_network
fill_in env spec =
    let cfg = config_of spec in
    do
      _ ← env.creds
      it ← resolve_type env spec.instance_type
      _ ← env.offered
      ami ← ask_if_empty cfg.ami env.image
      net ← resolve_network env cfg
      key ← ask_if_empty cfg.key_pair_name env.key_pair
      ok (record spec {
        instance_type = it;
        aws_config = some (record net { ami = ami; key_pair_name = key });
      })

-- The specification with what was missing filled in, as `resolveAWSDefaults` patches it; `none`
-- where nothing is missing.
unfoldable pub resolve_aws_defaults : DefaultsEnv → Spec → Answer (Option Spec)
unfolding is_complete fill_in
resolve_aws_defaults env spec = if is_complete spec then ok none else do
  filled ← fill_in env spec
  if env.patched then ok (some filled) else err "patching NodeProvision spec with resolved defaults"

-- What `ProvisionEC2Node` returns: an instance, or an error behind which the VPN allocation may
-- stand already.
pub record ProvisionResult : Type 0 where
  pub instance_id : String
  pub vpn_ip : String
  pub public_key : String

pub data Provision : Type 0 where
  launched : ProvisionResult → Provision
  partly : ProvisionResult → String → Provision
  refused : String → Provision

-- What the calls of one run of `reconcileAWSProvisioning` answer.
pub record AwsEnv : Type 1 where
  pub now : ℕ
  pub defaults : DefaultsEnv
  pub saved : Bool  -- the first status update, past an existing instance
  pub fail_saved : Bool  -- the update of failNodeProvision
  pub saved_validating : Bool
  pub found_validating : Bool
  pub net_config : Bool  -- requireNetConfig
  pub saved_vpn : Bool
  pub found_vpn : Bool
  pub vpn_server : Bool  -- getVPNServerSSHClient
  pub saved_creating : Bool
  pub found_creating : Bool
  pub creds : Answer (Unit {0})
  pub provision : Provision
  pub merge : NetConfigStatus → NetConfigStatus → NetConfigStatus → NetConfigStatus
  pub attempts : ℕ → Attempt
  pub found_launched : Bool  -- the fetch before InstanceID is written
  pub saved_launched : Bool

-- The instance that a launch has made is there, whatever becomes of the rest.
unfoldable pub add_instance : Provision → World → World
add_instance (launched r) w = record w { instances = r.instance_id ∷ w.instances }
add_instance _ w = w

-- `updateNetConfigStatus` for the allocation of a result, if it has one.
unfoldable pub record_result : AwsEnv → ProvisionResult → World → World
record_result env r w =
    let (net, _) =
      update_net_config_status env.merge r.vpn_ip r.public_key w.np.name env.attempts w.net in
    if is_empty r.vpn_ip then w else record w {
      net = net;
      np = record w.np { status = record w.np.status { vpn_ip = r.vpn_ip; ip_address = r.vpn_ip } };
    }

abbrev pub start_time_or : Option ℕ → ℕ → Option ℕ
start_time_or none now = some now
start_time_or (some t) now = some t

-- From the re-fetch on: the instance's ID is written to the status.
unfoldable pub finish_launch : AwsEnv → ProvisionResult → World → World × Result
finish_launch env r w =
    let v = refetch w in
    let st = v.np.status in
    if not env.found_launched then (w, error) else (
      status_update env.saved_launched (
          with_status
            (record st {
              phase = waiting_for_instance;
              message = "Waiting for instance to become running";
              instance_id = r.instance_id;
              vpn_ip = r.vpn_ip;
              ip_address = r.vpn_ip;
              progress = 30;
              last_updated = some env.now;
              start_time = start_time_or st.start_time env.now;
            })
            v),
      if env.saved_launched then requeue_short else error,
    )

-- What follows `ProvisionEC2Node` and `ProvisionGCPNode`; the text is the failure's.
unfoldable pub provisioned : AwsEnv → String → Provision → World → World × Result
unfolding add_instance record_result finish_launch fail_node_provision
provisioned env msg (launched r) w =
    finish_launch env r (record_result env r (add_instance (launched r) w))
provisioned env msg (partly r e) w =
    fail_node_provision env.now env.fail_saved msg (record_result env r w)
provisioned env msg (refused e) w = fail_node_provision env.now env.fail_saved msg w

unfoldable pub launch : AwsEnv → World → World × Result
unfolding fail_node_provision provisioned
launch env w = elim env.creds [
  | err e ↦ fail_node_provision env.now env.fail_saved "resolving AWS credentials" w
  | ok _ ↦ provisioned env "EC2 provisioning failed" env.provision w
]

-- The instance is created.
unfoldable pub mark_creating : AwsEnv → World → World × Result
unfolding set_phase_status save_and launch
mark_creating env w =
    save_and env.saved_creating env.found_creating (launch env)
      (set_phase_status env.now creating_instance "Creating EC2 instance" 25 w)

-- With a connection to the VPN server, on to the instance
unfoldable pub connect : AwsEnv → World → World × Result
unfolding set_phase_status save_and mark_creating
connect env w =
    save_and env.saved_vpn env.found_vpn
      (λ v. if env.vpn_server then mark_creating env v else (v, error))
      (set_phase_status env.now configuring_vpn "Configuring VPN client" 15 w)

unfoldable pub is_waiting : Phase → Bool
is_waiting waiting_for_instance = true
is_waiting _ = false

-- The idempotency guard: an instance is known, so nothing is created.
unfoldable pub skip_creation : AwsEnv → World → World × Result
unfolding is_waiting
skip_creation env w =
    let v =
      with_status (record w.np.status { phase = waiting_for_instance; last_updated = some env.now })
        w in
    if is_waiting w.np.status.phase
    then (w, requeue_short)
    else if env.saved
    then (status_update true v, requeue_short)
    else (v, error)

-- `resolveAWSDefaults` has patched the specification.
abbrev pub patch_spec : Spec → World → World
patch_spec spec w = record w {
  np = record w.np { spec = spec };
  stored = record w.stored { spec = spec };
}

-- From validation on: the specification is complete.
unfoldable pub create : AwsEnv → World → World × Result
unfolding fail_node_provision validate_aws_config set_phase_status save_and connect
create env w = elim (validate_aws_config w.np.spec) [
  | some e ↦ fail_node_provision env.now env.fail_saved "AWS validation failed" w
  | none ↦
      save_and env.saved_validating env.found_validating
        (λ v. if env.net_config then connect env v else (v, requeue_short))
        (set_phase_status env.now validating "Validating AWS configuration" 5 w)
]

-- `reconcileAWSProvisioning`
unfoldable pub reconcile_aws_provisioning : AwsEnv → World → World × Result
unfolding is_empty fail_node_provision resolve_aws_defaults skip_creation create
reconcile_aws_provisioning env w =
    if not (is_empty w.np.status.instance_id)
    then skip_creation env w
    else elim (resolve_aws_defaults env.defaults w.np.spec) [
      | err e ↦ fail_node_provision env.now env.fail_saved "resolving AWS defaults" w
      | ok (some spec) ↦ (patch_spec spec w, stop)
      | ok none ↦ create env w
    ]
