-- ===== src/Node/Provision.antt =====
-- The VPN part that `ProvisionEC2Node` of provider/aws/ec2.go, `ProvisionGCPNode` of
-- provider/gcp/compute.go and `NewInClusterProvisioner` of provider/onprem/provisioner.go share: an
-- address, a key pair, the node's WireGuard configuration, and the peer on the VPN server.
pub mod Cloud
pub mod OnPrem
pub mod Plans
pub mod Peers
pub mod Leaks
pub mod Tunnel
pub mod Skipped
pub mod Samples
pub mod Examples
use public_cloud_vm_provisio.Prelude.{String, Option, none, some, List, [], ◌∷◌}
use public_cloud_vm_provisio.Vpn.Allocate.{Outcome, chosen, allocate_vpn_ip}
use public_cloud_vm_provisio.Vpn.Client.{
  ServerAnswers, ClientConf, conf, route, kubernetes_api_allowed_ip, build_client_wg_config,
  parse_port,
}
use public_cloud_vm_provisio.Vpn.Register.{
  WireGuard, Server, RegisterEnv, Registered, registered, register_vpn_peer,
}
use public_cloud_vm_provisio.Vpn.NetConfig.{NetConfigStatus}
use public_cloud_vm_provisio.Node.Aws.{Answer, ok, err, ◌>>=◌}

-- What the provisioners read of the NetConfig's specification
pub record NetSpec : Type 0 where
  pub vpn_range : String
  pub server_ip : String
  pub vpn_port : String
  pub kubernetes_version : String

-- What the calls answer: the order in which Go walks the map of used addresses, the dump that the
-- allocation reads, the generated private and public key, and the VPN server.
pub record PeerEnv : Type 0 where
  pub iterate : List String → List String
  pub dump : Option String
  pub keys : Option (String × String)
  pub answers : ServerAnswers
  pub register : RegisterEnv

-- What is known of a node once its peer is registered
pub record Plan : Type 0 where
  pub vpn_ip : String
  pub public_key : String
  pub wg_conf : List String

unfoldable pub allocated : Outcome → Answer String
allocated (chosen ip) = ok ip
allocated _ = err "allocating VPN IP"

abbrev pub answer_of : {A : Type 0} → String → Option A → Answer A
answer_of msg none = err msg
answer_of msg (some a) = ok a

unfoldable pub client_conf : ClientConf → Answer (List String)
client_conf (conf lines) = ok lines
client_conf _ = err "building WireGuard client config"

-- The extra AllowedIPs of a cloud node: the route to the API server.
unfoldable pub api_routes : NetConfigStatus → Answer (List String)
unfolding kubernetes_api_allowed_ip
api_routes nc = elim (kubernetes_api_allowed_ip nc.cluster_join_command) [
  | route r ↦ ok (r ∷ [])
  | _ ↦ err "resolving Kubernetes API route"
]

-- Up to the registration; nothing is changed anywhere.
unfoldable pub plan_peer : PeerEnv → NetSpec → NetConfigStatus → Answer (List String) → Answer Plan
unfolding allocate_vpn_ip allocated client_conf build_client_wg_config parse_port
plan_peer env spec nc extras = do
  ip ← allocated (allocate_vpn_ip env.iterate env.dump spec.vpn_range nc.used_ip_addresses)
  (private_key, public_key) ← answer_of "generating WireGuard keypair" env.keys
  allowed ← extras
  lines ← client_conf (
      build_client_wg_config env.answers ip spec.vpn_range spec.server_ip
        (parse_port spec.vpn_port 51820) private_key allowed)
  ok (record { vpn_ip = ip; public_key = public_key; wg_conf = lines })

unfoldable pub registration : Plan → Registered → Answer Plan
registration plan registered = ok plan
registration plan _ = err "registering VPN peer"

module _ {ℓ} {T : Type ℓ} (wg : WireGuard T) where
  unfoldable pub register_plan : PeerEnv → Answer Plan → Server T → Server T × Answer Plan
  unfolding register_vpn_peer registration
  register_plan env (err msg) s = (s, err msg)
  register_plan env (ok plan) s =
      let (t, result) = register_vpn_peer wg env.register plan.public_key plan.vpn_ip s in
      (t, registration plan result)

  -- An address, keys, the configuration and the registered peer
  unfoldable pub prepare_peer :
      PeerEnv → NetSpec → NetConfigStatus → Answer (List String) → Server T → Server T × Answer Plan
  unfolding plan_peer register_plan
  prepare_peer env spec nc extras s = register_plan env (plan_peer env spec nc extras) s
