-- ===== src/Node/Provision/Peers.antt =====
-- What `ProvisionEC2Node` and `ProvisionGCPNode` leave on the VPN server, and what they answer.
use public_cloud_vm_provisio.Prelude.{
  String, ◌≡◌, refl, Bool, true, false, Option, none, some, List, [], ◌∷◌, if◌then◌else◌,
}
use public_cloud_vm_provisio.Kubeadm.{has_minor}
use public_cloud_vm_provisio.Vpn.Allocate.{member}
use public_cloud_vm_provisio.Vpn.Allocate.Free.{IsWalk}
use public_cloud_vm_provisio.Vpn.NetConfig.{NetConfigStatus}
use public_cloud_vm_provisio.Vpn.Register.{WireGuard, IsWireGuard, Server}
use public_cloud_vm_provisio.Node.Aws.{
  Answer, ok, err, Provision, ProvisionResult, launched, partly, refused,
}
use public_cloud_vm_provisio.Node.Bootstrap.{Scripts}
use public_cloud_vm_provisio.Node.Provision.{NetSpec, PeerEnv, Plan, api_routes}
use public_cloud_vm_provisio.Node.Provision.Plans.{prepare-owner}
use public_cloud_vm_provisio.Node.Provision.Cloud.{
  Site, NodeSpec, Ec2Env, allocation, run_instances, launch_ec2, launch_gcp_instance, with_version,
  provision_cloud, provision_ec2_node, boot_gcp, provision_gcp_node,
}

-- The result of a provisioner, against the VPN server and the NetConfig: an allocation that it
-- names is the peer's on the server, and was in nobody's use.
IsBackedBy : {T : Type 0} → WireGuard T → NetConfigStatus → ProvisionResult → Server T → Type 0
IsBackedBy wg nc r s =
    (wg.owner s.table r.vpn_ip ≡ some r.public_key) × (member nc.used_ip_addresses r.vpn_ip ≡ false)

unfoldable pub IsBacked : {T : Type 0} → WireGuard T → NetConfigStatus → Site T × Provision → Type 0
unfolding IsBackedBy
IsBacked wg nc (site, launched r) = IsBackedBy wg nc r site.server
IsBacked wg nc (site, partly r e) = IsBackedBy wg nc r site.server
IsBacked wg nc (site, refused e) = Unit

-- A launch leaves the server alone, and answers with the plan's allocation.
unfoldable IsLaunch : {T : Type 0} → Plan → Site T → Site T × Provision → Type 0
IsLaunch plan s (site, launched r) =
    (site.server ≡ s.server) × (r.vpn_ip ≡ plan.vpn_ip) × (r.public_key ≡ plan.public_key)
IsLaunch plan s (site, partly r e) =
    (site.server ≡ s.server) × (r.vpn_ip ≡ plan.vpn_ip) × (r.public_key ≡ plan.public_key)
IsLaunch plan s (site, refused e) = site.server ≡ s.server

run_instances-IsLaunch :
    {T : Type 0} (client : Bool) (ids : Option (List String)) (script : String) (plan : Plan)
    (s : Site T)
    → IsLaunch plan s (run_instances client ids script plan s)
unfolding run_instances IsLaunch
run_instances-IsLaunch false ids script plan s = (refl, refl, refl)
run_instances-IsLaunch true none script plan s = (refl, refl, refl)
run_instances-IsLaunch true (some []) script plan s = (refl, refl, refl)
run_instances-IsLaunch true (some (id ∷ more)) script plan s = (refl, refl, refl)

boot_gcp-IsLaunch :
    {T : Type 0} (client posted : Bool) (name : String) (script : Answer String) (plan : Plan)
    (s : Site T)
    → IsLaunch plan s (boot_gcp client posted name script plan s)
unfolding boot_gcp launch_gcp_instance IsLaunch
boot_gcp-IsLaunch client posted name (err e) plan s = (refl, refl, refl)
boot_gcp-IsLaunch true true name (ok script) plan s = (refl, refl, refl)
boot_gcp-IsLaunch true false name (ok script) plan s = (refl, refl, refl)
boot_gcp-IsLaunch false posted name (ok script) plan s = (refl, refl, refl)

IsLaunch-IsBacked :
    {T : Type 0} (wg : WireGuard T) (nc : NetConfigStatus) (plan : Plan) (s : Site T)
    (r : Site T × Provision)
    → IsLaunch plan s r
    → IsBackedBy wg nc (allocation plan) s.server
    → IsBacked wg nc r
unfolding IsLaunch IsBackedBy IsBacked
IsLaunch-IsBacked wg nc plan s (site, launched r) (same, ip, key) (owned, free) =
    (rw (same, ip, key) owned, rw ip free)
IsLaunch-IsBacked wg nc plan s (site, partly r e) (same, ip, key) (owned, free) =
    (rw (same, ip, key) owned, rw ip free)
IsLaunch-IsBacked wg nc plan s (site, refused e) h k = tt

module _ {T : Type 0} (wg : WireGuard T) (law : IsWireGuard wg) where
  with_version-IsBacked :
      (nc : NetConfigStatus) (spec : NetSpec) (launch : Plan → Site T → Site T × Provision)
      → ((plan : Plan) (s : Site T) → IsLaunch plan s (launch plan s))
      → (answer : Answer Plan) (s : Site T)
      → ((plan : Plan) → answer ≡ ok plan → IsBackedBy wg nc (allocation plan) s.server)
      → IsBacked wg nc (with_version spec launch answer s)
  unfolding with_version IsBacked
  with_version-IsBacked nc spec launch h (err e) s k = tt
  with_version-IsBacked nc spec launch h (ok plan) s k =
      elim (has_minor spec.kubernetes_version)
        as (λ b.
          IsBacked wg nc (if b then launch plan s else (s, refused "invalid kubernetes version"))) [
            | true ↦ IsLaunch-IsBacked wg nc plan s (launch plan s) (h plan s) (k plan refl)
            | false ↦ tt
          ]

  provision_cloud-IsBacked :
      (env : PeerEnv) (spec : NetSpec) (nc : NetConfigStatus)
      (launch : Plan → Site T → Site T × Provision) (s : Site T)
      → IsWalk env.iterate
      → ((plan : Plan) (s : Site T) → IsLaunch plan s (launch plan s))
      → IsBacked wg nc (provision_cloud wg env spec nc launch s)
  unfolding provision_cloud IsBackedBy
  provision_cloud-IsBacked env spec nc launch s walk h =
      with_version-IsBacked nc spec launch h _ _
        (λ plan e. prepare-owner wg law env spec nc (api_routes nc) s.server walk e)

  -- Whatever ProvisionEC2Node answers, an allocation that it names was not in the NetConfig's
  -- list, and belongs on the VPN server to the public key that it names.
  pub provision_ec2_node-IsBacked :
      (scripts : Scripts) (env : PeerEnv) (ec2 : Ec2Env) (np : NodeSpec) (spec : NetSpec)
      (nc : NetConfigStatus) (s : Site T)
      → IsWalk env.iterate
      → IsBacked wg nc (provision_ec2_node wg scripts env ec2 np spec nc s)
  unfolding provision_ec2_node launch_ec2
  provision_ec2_node-IsBacked scripts env ec2 np spec nc s walk =
      provision_cloud-IsBacked env spec nc _ s walk
        (λ plan t. run_instances-IsLaunch ec2.client ec2.run _ plan t)

  -- Whatever ProvisionGCPNode answers, an allocation that it names was not in the NetConfig's
  -- list, and belongs on the VPN server to the public key that it names.
  pub provision_gcp_node-IsBacked :
      (scripts : Scripts) (env : PeerEnv) (client posted : Bool) (np : NodeSpec) (spec : NetSpec)
      (nc : NetConfigStatus) (s : Site T)
      → IsWalk env.iterate
      → IsBacked wg nc (provision_gcp_node wg scripts env client posted np spec nc s)
  unfolding provision_gcp_node
  provision_gcp_node-IsBacked scripts env client posted np spec nc s walk =
      provision_cloud-IsBacked env spec nc _ s walk
        (λ plan t. boot_gcp-IsLaunch client posted np.name _ plan t)
