-- ===== src/Cluster/Samples.antt =====
-- Concrete objects and answers, for the theorems at concrete values.
use public_cloud_vm_provisio.Prelude.{ℕ, zero, suc, String, true, false, none, some, [], ◌∷◌}
use public_cloud_vm_provisio.Kubeadm
use public_cloud_vm_provisio.Cluster.{RemoteCluster, NodeType, Phase, Annotations, VpnConfig, World}
use public_cloud_vm_provisio.Cluster.Remote.{NetEnv}
use public_cloud_vm_provisio.Cluster.Packages.{
  EnsureEnv, RepoEnv, UpsertEnv, DeleteListEnv, ResourcesEnv,
}
use public_cloud_vm_provisio.Cluster.ControlPlane.{
  Save, accepted, conflict, CompleteEnv, ControlEnv,
}
use public_cloud_vm_provisio.Cluster.Worker.{JoinEnv}
use public_cloud_vm_provisio.Cluster.Delete.{PeerEnv}
use public_cloud_vm_provisio.Cluster.Reconcile.{Env, found}

abbrev pub no_annotations : Annotations
no_annotations = record {
  pkg_variants = none;
  joined = none;
  last_cp = none;
  last_worker = none;
  init_complete = none;
  cached = none;
  created = none;
  refreshed_at = none;
}

abbrev pub sample_vpn : VpnConfig
sample_vpn = record {
  ip = "10.8.0.5";
  server_public_ip = "203.0.113.7";
  server_ssh_port = "22";
  server_ssh_username = "ubuntu";
  credentials = "vpn-ssh";
  credentials_namespace = "default";
}

abbrev pub cluster_of : NodeType → Phase → String → Annotations → RemoteCluster
cluster_of t p cmd a = record {
  name = "node-1";
  namespace = "edge";
  version = 7;
  deleted = false;
  finalizer = true;
  cluster_name = "edge-1";
  node_type = t;
  git_enabled = true;
  pull_secret = none;
  vpn = sample_vpn;
  annotations = a;
  status = record { phase = p; join_command = cmd; conditions = [] };
}

abbrev pub world_of : RemoteCluster → World
world_of c = record {
  cluster = c;
  stored = c;
  siblings = [];
  job = none;
  progress = none;
  remote = none;
  completed = [];
  auth = none;
  auth_copy = none;
  vpn_secret = none;
  peers = [];
  conf = [];
  resources = [];
}

abbrev pub net_env : NetEnv
net_env = record {
  wg0 = some "10.8.0.5\n";
  vpn_secret_read = true;
  vpn_secret_applied = true;
  pull_secret_read = true;
  pull_secret_applied = true;
  applied = true;
  status_patched = true;
  appended = true;
}

abbrev pub ensure_env : EnsureEnv
ensure_env = record { read = true; created = true }

abbrev pub repo_env : RepoEnv
repo_env = record {
  porch = ensure_env;
  nephio = ensure_env;
  porch_token = ensure_env;
  nephio_token = ensure_env;
}

-- The first attempt conflicts, the others are taken.
abbrev pub saves : ℕ → Save
saves zero = record { found = true; answer = conflict }
saves (suc n) = record { found = true; answer = accepted }

abbrev pub complete_env : CompleteEnv
complete_env = record {
  ssh = true;
  repo = repo_env;
  net = net_env;
  created_saved = true;
  saves = saves;
  cleared = true;
  failed_saved = true;
}

abbrev pub control_env : ControlEnv
control_env = record {
  ssh = true;
  runtime = true;
  progress_saved = true;
  init_saved = true;
  failed_saved = true;
  complete = complete_env;
}

abbrev pub init_env : Kubeadm.ControlPlaneEnv
init_env = record {
  tun_ip = some "10.8.0.5\n";
  version = "v1.33.1";
  commands = λ name. name ∷ [];
  argo_cd = true;
  nfs = true;
  token = some "kubeadm join 10.8.0.5:6443\n";
}

abbrev pub worker_env : Kubeadm.WorkerEnv
worker_env = record {
  tun_ip = some "10.8.0.5\n";
  parent_hardware = "cpu";
  version = "v1.33.1";
  commands = λ name. name ∷ [];
  query = λ n. some "cp-1\t10.8.0.2\nnode-1\t10.8.0.5\n";
  labelled = true;
}

abbrev pub join_env : JoinEnv
join_env = record {
  listed = true;
  synced_found = true;
  synced = true;
  ssh = true;
  runtime = true;
  answers = λ cmd. true;
  progress_saved = λ n. true;
  kubeadm = worker_env;
  found = true;
  joined_saved = true;
  ready_saved = true;
  net = net_env;
  failed_saved = true;
}

abbrev pub upsert_env : String → UpsertEnv
upsert_env name = record { created = true; fetched = true; updated = true }

abbrev pub list_env : DeleteListEnv
list_env = record { listed = true; deleted = λ o. true }

abbrev pub resources_env : ResourcesEnv
resources_env = record { repositories = list_env; tokens = list_env; variants = list_env }

abbrev pub peer_env : PeerEnv
peer_env = record {
  secret_read = true;
  key = "";
  connected = true;
  dump = none;
  peer_removed = true;
  conf_cleaned = true;
}

abbrev pub env_at : ℕ → Env
env_at now = record {
  now = now;
  fetched = found;
  finalizer_saved = true;
  protect = record {
    auth_read = true;
    auth_patched = true;
    copy_read = true;
    copy_written = true;
    vpn_read = true;
    vpn_patched = true;
  };
  provisioning_saved = true;
  worker_ssh = true;
  failed_saved = true;
  control = control_env;
  join = join_env;
  ready_ssh = true;
  net = net_env;
  created_saved = true;
  refresh = record {
    ssh = true;
    token = some "kubeadm join 10.8.0.5:6443";
    found = true;
    saved = true;
    remote_patched = true;
    stamped = true;
  };
  variants = record {
    core = upsert_env;
    overlays = upsert_env;
    saves = saves;
    failed_saved = true;
  };
  delete = record {
    listed = true;
    peer = peer_env;
    resources = resources_env;
    auth_read = true;
    auth_patched = true;
    vpn_read = true;
    vpn_patched = true;
    updated = true;
  };
}
