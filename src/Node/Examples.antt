-- ===== src/Node/Examples.antt =====
-- The handlers of a NodeProvision on a concrete resource.
use public_cloud_vm_provisio.Prelude.{
  drop_if, ℕ, String, ◌≡◌, refl, ◌⊎◌, Bool, true, false, none, some, [], ◌∷◌, find_first,
}
use public_cloud_vm_provisio.Vpn.NetConfig.{NetConfigStatus, Attempt, applied}
use public_cloud_vm_provisio.Node.{
  Spec, Status, NodeProvision, World, Phase, finished, aws, unset, ready, configuring_vpn,
  creating_instance, bootstrapping, error,
}
use public_cloud_vm_provisio.Node.Aws.{
  ok, DefaultsEnv, ProvisionResult, launched, AwsEnv, launch, connect, reconcile_aws_provisioning,
}
use public_cloud_vm_provisio.Node.Joining.{JoinEnv, reconcile_joining}
use public_cloud_vm_provisio.Node.Joining.Ready.{Finds, reconcile_joining-ready}
use public_cloud_vm_provisio.Node.OnPrem.{OnPremEnv, poll_on_prem_bootstrap}
use public_cloud_vm_provisio.Node.Delete.{CleanupEnv, DeleteEnv, terminated, taken, handle_delete}
use public_cloud_vm_provisio.Node.Delete.Cloud.{IsGone, IsTerminated}
use public_cloud_vm_provisio.Node.Delete.{cleanup_vpn_peer}
use public_cloud_vm_provisio.Node.Delete.Freed.{IsFreed, IsReleased}
use public_cloud_vm_provisio.Node.Delete.Peer.{cleanup_vpn_peer-releases}
use public_cloud_vm_provisio.Node.{failed}
use public_cloud_vm_provisio.Node.JoinToken.{TokenEnv, TokenWorld, made, require_net_config}
use public_cloud_vm_provisio.Node.JoinToken.Current.{IsServed, require_net_config-IsServed}
use public_cloud_vm_provisio.Vpn.NetConfig.{release_ip, retry, release_allocation}
use public_cloud_vm_provisio.Node.Delete.Safety.{handle_delete-safe}
use public_cloud_vm_provisio.Node.Reconcile.Stuck.{end, creating, connect-stuck}
use public_cloud_vm_provisio.Node.Reconcile.Launch.{reconcile_aws-launches_once, launch-orphaned}

abbrev spec_of : Spec
spec_of = record {
  provider = aws;
  hardware_type = "cpu";
  node_label = "";
  region = "eu-west-1";
  instance_type = "";
  spot_termination_action = "";
  credentials_ref = record { name = "creds"; namespace = ""; key = "" };
  aws_config = none;
  gcp_config = none;
}

abbrev status_at : Phase → String → String → String → Status
status_at phase instance ip node = record {
  phase = phase;
  message = "";
  start_time = none;
  completion_time = none;
  instance_id = instance;
  ip_address = ip;
  public_ip = "";
  private_ip = "";
  vpn_ip = "";
  progress = 0;
  last_updated = none;
  node_name = node;
}

abbrev resource : Status → NodeProvision
resource st = record {
  name = "vm";
  uid = "u1";
  namespace = "default";
  deleted = false;
  finalizer = true;
  spec = spec_of;
  status = st;
}

abbrev empty_net : NetConfigStatus
empty_net = record {
  used_ip_addresses = [];
  cluster_join_command = "";
  join_token_refreshed_at = none;
  vpn_peers = [];
  kubeconfig = "";
}

-- The handler holds what is stored.
abbrev world : Status → World
world st = record {
  np = resource st;
  stored = resource st;
  net = empty_net;
  nodes =
      record {
        name = "node1";
        addresses = "10.8.0.2" ∷ [];
        labels = [];
        taints = [];
        finalizer = false;
        terminating = false;
      }
      ∷ [];
  job = none;
  step = none;
  instances = "i-1" ∷ [];
  prepull = none;
  ssh_secret = false;
  copied_secret = true;
  copied_registry = false;
  peers = [];
  conf = [];
}

abbrev replace_all : NetConfigStatus → NetConfigStatus → NetConfigStatus → NetConfigStatus
replace_all base modified current = modified

abbrev at_once : ℕ → Attempt
at_once round = record { fetched = true; meanwhile = λ s. s; answer = applied }

abbrev answers : DefaultsEnv
answers = record {
  creds = ok tt;
  default_type = "t3.medium";
  offered = ok tt;
  image = ok "ami-1";
  network = ok (record { vpc_id = "vpc-1"; subnet_id = "sub-1"; security_group_id = "sg-1" });
  key_pair = ok "key-1";
  patched = true;
}

abbrev new_instance : ProvisionResult
new_instance = record { instance_id = "i-2"; vpn_ip = "10.8.0.3"; public_key = "k" }

-- All calls succeed, but those given.
abbrev pub cloud_env : Bool → Bool → AwsEnv
cloud_env vpn_server saved_launched = record {
  now = 7;
  defaults = answers;
  saved = true;
  fail_saved = true;
  saved_validating = true;
  found_validating = true;
  net_config = true;
  saved_vpn = true;
  found_vpn = true;
  vpn_server = vpn_server;
  saved_creating = true;
  found_creating = true;
  creds = ok tt;
  provision = launched new_instance;
  merge = replace_all;
  attempts = at_once;
  found_launched = true;
  saved_launched = saved_launched;
}

abbrev pub fresh_world : World
fresh_world = world (status_at unset "" "" "")

abbrev marked_world : World
marked_world = world (status_at creating_instance "" "" "")

abbrev filled_spec : Spec
filled_spec = record spec_of {
  instance_type = "t3.medium";
  aws_config = some (record {
    availability_zone = "";
    vpc_id = "vpc-1";
    subnet_id = "sub-1";
    security_group_ids = "sg-1" ∷ [];
    ami = "ami-1";
    key_pair_name = "key-1";
  });
}

abbrev complete_world : World
complete_world = record fresh_world {
  np = record (resource (status_at unset "" "" "")) { spec = filled_spec };
}

reconcile_aws-launches_once_example :
    let after = (reconcile_aws_provisioning (cloud_env true true) complete_world).0.instances in
    after ≡ "i-1" ∷ [] ⊎ (complete_world.np.status.instance_id ≡ "" × after ≡ "i-2" ∷ "i-1" ∷ [])
reconcile_aws-launches_once_example =
    reconcile_aws-launches_once (cloud_env true true) complete_world

launch-orphaned_example :
    (launch (cloud_env true false) marked_world).1 ≡ error
    × (launch (cloud_env true false) marked_world).0.instances ≡ "i-2" ∷ "i-1" ∷ []
    × (launch (cloud_env true false) marked_world).0.stored ≡ marked_world.stored
launch-orphaned_example =
    launch-orphaned (cloud_env true false) marked_world refl refl refl (creating, refl, refl, refl)
      end

connect-stuck_example :
    (connect (cloud_env false true) fresh_world).1 ≡ error
    × (connect (cloud_env false true) fresh_world).0.stored.status.phase ≡ configuring_vpn
connect-stuck_example =
    connect-stuck (cloud_env false true) fresh_world refl refl refl refl refl end

abbrev join_env : JoinEnv
join_env = record {
  now = 9;
  listed = true;
  patched = true;
  saved = true;
  found = true;
  net_config = some [];
  gpu_hardware = false;
  job_read = true;
  job_created = true;
  job_deleted = true;
}

abbrev registering_world : World
registering_world = world (status_at bootstrapping "i-1" "10.8.0.2" "")

reconcile_joining-ready_example :
    Finds join_env registering_world (reconcile_joining join_env registering_world)
unfolding reconcile_joining find_first
reconcile_joining-ready_example = reconcile_joining-ready join_env registering_world (λ e. cc) refl

abbrev on_prem_env : Bool → OnPremEnv
on_prem_env net_config = record {
  now = 9;
  fail_saved = true;
  saved_validating = true;
  found_validating = true;
  ssh = true;
  sudo = true;
  net_config = net_config;
  saved_vpn = true;
  found_vpn = true;
  vpn_server = true;
  saved_bootstrapping = true;
  found_bootstrapping = true;
  merge = replace_all;
  attempts = at_once;
  found = true;
  saved = true;
  join = join_env;
}

abbrev finished_world : World
finished_world = record (world (status_at bootstrapping "" "" "")) {
  job = some (finished "10.8.0.3" "k" none);
}

-- The result is gone where the NetConfig cannot be had, and the bootstrap begins again.
result_lost :
    poll_on_prem_bootstrap (on_prem_env false) finished_world
    ≡ (record finished_world { job = none }, error)
unfolding poll_on_prem_bootstrap
result_lost = refl

abbrev cleanup_env : CleanupEnv
cleanup_env = record {
  listed = true;
  present = true;
  vpn_server = true;
  peers_read = true;
  peer_removed = true;
  conf_cleaned = true;
  merge = replace_all;
  attempts = at_once;
}

abbrev delete_env : DeleteEnv
delete_env = record {
  now = 9;
  saved_deleting = true;
  node_read = true;
  node_patched = true;
  node_deleted = true;
  user_secret = true;
  copy_read = true;
  terminate = terminated;
  retried = false;
  saved_cleared = true;
  cleanup = cleanup_env;
  secret_read = true;
  secret_deleted = true;
  updated = taken;
}

abbrev leaving_world : World
leaving_world = world (status_at ready "i-1" "10.8.0.4" "node2")

handle_delete-safe_example :
    IsGone leaving_world
    × IsTerminated aws "i-1" (handle_delete delete_env leaving_world).0.instances
unfolding handle_delete
handle_delete-safe_example = handle_delete-safe delete_env leaving_world refl refl refl

-- The controller's node has a peer in the NetConfig.
abbrev peered_world : World
peered_world = record (world (status_at failed "" "10.8.0.4" "")) {
  net = record empty_net {
    used_ip_addresses = "10.8.0.4" ∷ [];
    vpn_peers = record { node_name = "vm"; public_key = "k"; vpn_ip = "10.8.0.4" } ∷ [];
  };
}

cleanup_vpn_peer-releases_example :
    ((cleanup_vpn_peer cleanup_env peered_world).1 ≡ true
      × ((ip : String) × IsFreed peered_world.np peered_world.net.vpn_peers ip
          × IsReleased "vm" ip peered_world.net (cleanup_vpn_peer cleanup_env peered_world).0.net))
    ⊎ ((cleanup_vpn_peer cleanup_env peered_world).1 ≡ false
        × (cleanup_vpn_peer cleanup_env peered_world).0.net ≡ peered_world.net)
cleanup_vpn_peer-releases_example =
    cleanup_vpn_peer-releases cleanup_env peered_world refl refl refl (λ base modified. refl)
      (λ round s. refl)

peer_released :
    (cleanup_vpn_peer cleanup_env peered_world).1 ≡ true
    × (cleanup_vpn_peer cleanup_env peered_world).0.net.vpn_peers ≡ []
unfolding cleanup_vpn_peer release_ip retry release_allocation drop_if
peer_released = (refl, refl)

abbrev pub joinable : NetConfigStatus
joinable = record empty_net {
  cluster_join_command =
      "kubeadm join 10.8.0.1:6443 --token abca99.aaaaaaaaaaaaaaah --discovery-token-ca-cert-hash sha256:00ff";
  join_token_refreshed_at = some 5000;
}

abbrev pub token_env : TokenEnv
token_env = record {
  listed = some (empty_net ∷ []);
  random_id = some (0 ∷ 1 ∷ 2 ∷ 36 ∷ 35 ∷ 71 ∷ []);
  random_secret = some (0 ∷ 0 ∷ 0 ∷ 0 ∷ 0 ∷ 0 ∷ 0 ∷ 0 ∷ 0 ∷ 0 ∷ 0 ∷ 0 ∷ 0 ∷ 0 ∷ 0 ∷ 7 ∷ []);
  created = made;
  cluster_info = some (some "kubeconfig");
  parse = λ text. some (("https://10.8.0.1:6443", "ca") ∷ []);
  ca_hash = λ ca. some "00ff";
  patched = true;
  refetched = some joinable;
}

abbrev token_world : TokenWorld
token_world = record { configs = empty_net ∷ []; tokens = [] }

token_refreshed : require_net_config token_env 5000 token_world ≡ (
  record (require_net_config token_env 5000 token_world).0 { configs = joinable ∷ [] },
  some joinable,
)
unfolding require_net_config
token_refreshed = refl

require_net_config-IsServed_example :
    IsServed token_env 5000 token_world (require_net_config token_env 5000 token_world)
require_net_config-IsServed_example = require_net_config-IsServed token_env 5000 token_world

-- A cache that is still behind the refresh gives the NetConfig without a join command.
stale_answered :
    (require_net_config (record token_env { refetched = some empty_net }) 5000 token_world).1
    ≡ some empty_net
unfolding require_net_config
stale_answered = refl
