-- ===== src/Node/Provision/Cloud.antt =====
-- `ProvisionEC2Node` of provider/aws/ec2.go and `ProvisionGCPNode` of provider/gcp/compute.go: the
-- peer, the bootstrap script, the instance.
use public_cloud_vm_provisio.Prelude.{
  String, Bool, true, false, not, Option, none, some, List, [], ◌∷◌, ◌++◌, map, if◌then◌else◌,
  is_empty, append, split,
}
use public_cloud_vm_provisio.Kubeadm.{trim_v, has_minor}
use public_cloud_vm_provisio.Vpn.NetConfig.{NetConfigStatus}
use public_cloud_vm_provisio.Vpn.Register.{WireGuard, Server}
use public_cloud_vm_provisio.Node.Aws.{
  Answer, ok, err, Provision, ProvisionResult, launched, partly, refused,
}
use public_cloud_vm_provisio.Node.Bootstrap.{
  CloudInitParams, Scripts, build_user_data, build_startup_script,
}
use public_cloud_vm_provisio.Node.Provision.{NetSpec, PeerEnv, Plan, api_routes, prepare_peer}

-- An instance in the cloud, and the script that it boots with.
pub record Instance : Type 0 where
  pub id : String
  pub script : String

-- The VPN server and the cloud.
pub record Site {ℓ} (T : Type ℓ) : Type ℓ where
  pub server : Server T
  pub instances : List Instance

-- What is read of the NodeProvision.
pub record NodeSpec : Type 0 where
  pub name : String
  pub node_label : String
  pub ssh_username : String
  pub is_gpu : Bool  -- strings.EqualFold(NodeLabel, "gpu")

-- `fmt.Sprintf("%s.%s", parts[0], parts[1])`
unfoldable pub minor_of : List String → String
unfolding append
minor_of (major ∷ minor ∷ rest) = append major (append "." minor)
minor_of _ = ""

unfoldable pub labels_of : NodeSpec → List String
unfolding is_empty append
labels_of np = if is_empty np.node_label then [] else append "hardware-type=" np.node_label ∷ []

-- The lines of a configuration, each with its line end
unfoldable pub text_of : List String → String
unfolding append
text_of [] = ""
text_of (line ∷ lines) = append line (append "\n" (text_of lines))

unfoldable pub init_params : NodeSpec → NetSpec → NetConfigStatus → Plan → CloudInitParams
unfolding minor_of labels_of text_of trim_v split
init_params np spec nc plan = record {
  wg_config = text_of plan.wg_conf;
  vpn_ip = plan.vpn_ip;
  join_command = nc.cluster_join_command;
  kubernetes_version = trim_v spec.kubernetes_version;
  kubernetes_minor_version = minor_of (split b'.' (trim_v spec.kubernetes_version));
  node_name = np.name;
  labels = labels_of np;
  ssh_username = np.ssh_username;
  is_gpu_node = np.is_gpu;
}

-- The result that carries the allocation alone
abbrev pub allocation : Plan → ProvisionResult
allocation plan = record { instance_id = ""; vpn_ip = plan.vpn_ip; public_key = plan.public_key }

-- What the EC2 client answers: whether it is made, and the instances that `RunInstances` has made.
pub record Ec2Env : Type 0 where
  pub client : Bool
  pub run : Option (List String)

abbrev instances_of : String → List String → List Instance
instances_of script ids = map (λ id. record { id = id; script = script }) ids

module _ {ℓ} {T : Type ℓ} where
  unfoldable pub run_instances :
      Bool → Option (List String) → String → Plan → Site T → Site T × Provision
  run_instances false ids script plan site = (site, partly (allocation plan) "creating EC2 client")
  run_instances true none script plan site =
      (site, partly (allocation plan) "launching EC2 instance")
  run_instances true (some []) script plan site =
      (site, partly (allocation plan) "RunInstances returned no instances")
  run_instances true (some (id ∷ more)) script plan site = (
    record site { instances = instances_of script (id ∷ more) ++ site.instances },
    launched (record (allocation plan) { instance_id = id }),
  )

  -- From the EC2 client on. Tags that fail are only logged.
  unfoldable pub launch_ec2 : Ec2Env → String → Plan → Site T → Site T × Provision
  unfolding run_instances
  launch_ec2 env script plan site = run_instances env.client env.run script plan site

  -- What the GCP calls answer: the HTTP client, and the request that makes the instance.
  unfoldable pub launch_gcp_instance :
      Bool → Bool → String → String → Plan → Site T → Site T × Provision
  launch_gcp_instance client posted name script plan site =
      if not client
      then (site, partly (allocation plan) "creating GCP HTTP client")
      else if not posted
      then (site, partly (allocation plan) "launching GCP instance")
      else (
        record site { instances = record { id = name; script = script } ∷ site.instances },
        launched (record (allocation plan) { instance_id = name }),
      )

  -- Behind the registration: the version is looked at, and the launch follows.
  unfoldable pub with_version :
      NetSpec → (Plan → Site T → Site T × Provision) → Answer Plan → Site T → Site T × Provision
  unfolding has_minor
  with_version spec launch (err e) site = (site, refused e)
  with_version spec launch (ok plan) site =
      if has_minor spec.kubernetes_version
      then launch plan site
      else (site, refused "invalid kubernetes version")

  unfoldable pub provision_cloud :
      WireGuard T
      → PeerEnv
      → NetSpec
      → NetConfigStatus
      → (Plan → Site T → Site T × Provision)
      → Site T
      → Site T × Provision
  unfolding prepare_peer api_routes with_version
  provision_cloud wg env spec nc launch site =
      let (server, answer) = prepare_peer wg env spec nc (api_routes nc) site.server in
      with_version spec launch answer (record site { server = server })

  -- `ProvisionEC2Node`
  unfoldable pub provision_ec2_node :
      WireGuard T
      → Scripts
      → PeerEnv
      → Ec2Env
      → NodeSpec
      → NetSpec
      → NetConfigStatus
      → Site T
      → Site T × Provision
  unfolding provision_cloud launch_ec2 build_user_data init_params
  provision_ec2_node wg scripts env ec2 np spec nc site =
      provision_cloud wg env spec nc
        (λ plan s. launch_ec2 ec2 (build_user_data scripts (init_params np spec nc plan)) plan s)
        site

  -- With the startup script, on to the instance
  unfoldable pub boot_gcp :
      Bool → Bool → String → Answer String → Plan → Site T → Site T × Provision
  unfolding launch_gcp_instance
  boot_gcp client posted name (err e) plan site =
      (site, partly (allocation plan) "building startup script")
  boot_gcp client posted name (ok script) plan site =
      launch_gcp_instance client posted name script plan site

  -- `ProvisionGCPNode`
  unfoldable pub provision_gcp_node :
      WireGuard T
      → Scripts
      → PeerEnv
      → Bool
      → Bool
      → NodeSpec
      → NetSpec
      → NetConfigStatus
      → Site T
      → Site T × Provision
  unfolding provision_cloud boot_gcp build_startup_script init_params
  provision_gcp_node wg scripts env client posted np spec nc site =
      provision_cloud wg env spec nc
        (λ plan s.
          boot_gcp client posted np.name
            (build_startup_script scripts (init_params np spec nc plan)) plan s)
        site
