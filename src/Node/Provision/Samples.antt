-- ===== src/Node/Provision/Samples.antt =====
-- A VPN server, a cloud and a node for the examples.
use public_cloud_vm_provisio.Prelude.{
  String, refl, true, false, none, some, List, [], ◌∷◌, ◌==◌, if◌then◌else◌, Bool,
}
use public_cloud_vm_provisio.Vpn.Allocate.{known_peers, lookup_peer}
use public_cloud_vm_provisio.Vpn.Allocate.Free.{IsWalk}
use public_cloud_vm_provisio.Vpn.NetConfig.{NetConfigStatus}
use public_cloud_vm_provisio.Vpn.Register.Examples.{Table, dump}
use public_cloud_vm_provisio.Node.Aws.{ok}
use public_cloud_vm_provisio.Node.Bootstrap.{Scripts}
use public_cloud_vm_provisio.Node.Runtime.{Config}
use public_cloud_vm_provisio.Node.Provision.{NetSpec, PeerEnv, Plan}
use public_cloud_vm_provisio.Node.Provision.Cloud.{Site, NodeSpec, Ec2Env}
use public_cloud_vm_provisio.Node.Provision.OnPrem.{Commands, Field}

abbrev pub keep_order : List String → List String
keep_order xs = xs

pub keep_order-IsWalk : IsWalk keep_order
keep_order-IsWalk xs ip = refl

abbrev pub peer_env : PeerEnv
peer_env = record {
  iterate = keep_order;
  dump = dump;
  keys = some ("pb", "kb");
  answers = record { public_key = some "ks"; listen_port = none };
  register = record { forwarded = true; dump = dump; set = true; persist_error = none };
}

abbrev pub net_spec : NetSpec
net_spec = record {
  vpn_range = "10.8.0.0/24";
  server_ip = "203.0.113.7";
  vpn_port = "";
  kubernetes_version = "v1.35.0";
}

abbrev pub net_config : NetConfigStatus
net_config = record {
  used_ip_addresses = "10.8.0.1" ∷ [];
  cluster_join_command = "kubeadm join 192.168.1.10:6443 --token a.b";
  join_token_refreshed_at = none;
  vpn_peers = [];
  kubeconfig = "";
}

abbrev pub site : Site Table
site = record {
  server = record { table = lookup_peer (known_peers dump); conf = none };
  instances = [];
}

abbrev pub plan : Plan
plan = record {
  vpn_ip = "10.8.0.3";
  public_key = "kb";
  wg_conf =
      "[Interface]" ∷ "PrivateKey = pb" ∷ "Address = 10.8.0.3/24" ∷ "" ∷ "[Peer]" ∷ "PublicKey = ks"
      ∷ "Endpoint = 203.0.113.7:51820" ∷ "AllowedIPs = 10.8.0.0/24, 192.168.1.10/32"
      ∷ "PersistentKeepalive = 25" ∷ [];
}

abbrev pub scripts : Scripts
scripts = record { render = λ p. ok "script"; failing = λ e. "fails"; encode = λ s. s }

abbrev pub node_spec : NodeSpec
node_spec = record { name = "vm"; node_label = "gpu"; ssh_username = ""; is_gpu = true }

abbrev pub ec2_env : Ec2Env
ec2_env = record { client = true; run = some ("i-1" ∷ []) }

abbrev pub bare_plan : Plan
bare_plan = record {
  vpn_ip = "10.8.0.3";
  public_key = "kb";
  wg_conf =
      "[Interface]" ∷ "PrivateKey = pb" ∷ "Address = 10.8.0.3/24" ∷ "" ∷ "[Peer]" ∷ "PublicKey = ks"
      ∷ "Endpoint = 203.0.113.7:51820" ∷ "AllowedIPs = 10.8.0.0/24" ∷ "PersistentKeepalive = 25"
      ∷ [];
}

-- A node is the address of its wg0, with the newline; the command of the tunnel's group changes it.
abbrev pub stale_exec : String → String → String × String × Bool
stale_exec cmd address =
    (if cmd == "tunnel" then "10.8.0.3\n" else address, if cmd == "read" then address else "", true)

abbrev pub commands : Commands
commands = record {
  group = λ label. "run" ∷ [];
  tunnel = λ plan. "tunnel" ∷ [];
  packages = λ version. "install" ∷ [];
  runtime = λ cfg. "oras" ∷ [];
  read_wg0 = "read";
  read_tunnel = "read";
  reload = "reload";
  restart_crio = "restart";
  await_socket = "await";
  recover_crio = "recover";
  restart_kubelet = "kubelet";
}

abbrev pub cfg : Config
cfg = record {
  enabled = false;
  registry = "";
  repository = "";
  version = "";
  oras_version = "";
  username = "";
  token = "";
}

-- wg0 is up with the address of the peer with the key `ka`.
abbrev pub field : Field Table String
field = record { server = site.server; machine = record { node = "10.8.0.2\n"; reported = [] } }
