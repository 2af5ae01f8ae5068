-- ===== src/Node/Provision/Tunnel.antt =====
-- What `NewInClusterProvisioner` of provider/onprem/provisioner.go answers, against the VPN server.
use public_cloud_vm_provisio.Prelude.{
  ◌≢◌, is_empty, trim_space, String, ◌≡◌, refl, ap, ◌∙◌, inl, inr, Bool, true, false, Option, none,
  some, [], if◌then◌else◌, Bool-cases,
}
use public_cloud_vm_provisio.Kubeadm.{has_minor}
use public_cloud_vm_provisio.Vpn.Allocate.{member}
use public_cloud_vm_provisio.Vpn.Allocate.Free.{IsWalk}
use public_cloud_vm_provisio.Vpn.NetConfig.{NetConfigStatus}
use public_cloud_vm_provisio.Vpn.Register.{WireGuard, IsWireGuard}
use public_cloud_vm_provisio.Node.Aws.{Answer, ok, err}
use public_cloud_vm_provisio.Node.Runtime.{Config}
use public_cloud_vm_provisio.Node.Provision.{NetSpec, PeerEnv, Plan}
use public_cloud_vm_provisio.Node.Provision.Plans.{prepare-keeps, prepare-owner}
use public_cloud_vm_provisio.Vpn.Register.Live.{IsRead}
use public_cloud_vm_provisio.Node.Provision.Skipped.{IsTunnel, with_plan-address}
use public_cloud_vm_provisio.Node.Provision.OnPrem.{
  Commands, Field, Machine, join_node, join_at, finish_node, set_up_node, with_plan,
  new_in_cluster_provisioner,
}

module _ {N : Type 0} (exec : String → N → N × String × Bool) where
  if-key :
      (b : Bool) (ip : String) {key : String} {result : String × String}
      → (if b then some (ip, key) else none) ≡ some result
      → key ≡ result.1
  if-key true ip e = ap (λ o. elim o [ none ↦ "" | some r ↦ r.1 ]) e
  if-key false ip e = cc

  join_at-key :
      (commands : Commands) (nc : NetConfigStatus) (plan : Plan) (o : Option String) (m : Machine N)
      {result : String × String}
      → (join_at exec commands nc plan o m).1 ≡ some result
      → plan.public_key ≡ result.1
  unfolding join_at
  join_at-key commands nc plan none m e = cc
  join_at-key commands nc plan (some ip) m e = if-key (join_node exec commands nc ip m).1 ip e

  finish_node-key :
      (commands : Commands) (nc : NetConfigStatus) (plan : Plan) (m : Machine N × Bool)
      {result : String × String}
      → (finish_node exec commands nc plan m).1 ≡ some result
      → plan.public_key ≡ result.1
  unfolding finish_node
  finish_node-key commands nc plan (m, false) e = cc
  finish_node-key commands nc plan (m, true) e = join_at-key commands nc plan _ _ e

  with_plan-key :
      (commands : Commands) (cfg : Config) (spec : NetSpec) (nc : NetConfigStatus)
      (answer : Answer Plan) (m : Machine N) {result : String × String}
      → (with_plan exec commands cfg spec nc answer m).1 ≡ some result
      → (plan : Plan) × (answer ≡ ok plan) × (plan.public_key ≡ result.1)
  unfolding with_plan set_up_node
  with_plan-key commands cfg spec nc (err e) m h = cc
  with_plan-key commands cfg spec nc (ok plan) m h =
      elim (Bool-cases (has_minor spec.kubernetes_version)) [
        | inr bad ↦ cc (rw (with_plan, bad) at h)
        | inl good ↦ (plan, refl, finish_node-key commands nc plan _ (rw (with_plan, good) at h))
      ]

  module _ {T : Type 0} (wg : WireGuard T) (law : IsWireGuard wg) where
    -- A bootstrap that succeeds answers a public key that is registered on the VPN server for an
    -- address that was not in the NetConfig's list.
    pub provisioner-IsRegistered :
        (env : PeerEnv) (commands : Commands) (cfg : Config) (spec : NetSpec) (nc : NetConfigStatus)
        (f : Field T N) (ip key : String)
        → IsWalk env.iterate
        → (new_in_cluster_provisioner exec wg env commands cfg spec nc f).1 ≡ some (ip, key)
        → (vpn_ip : String) × (wg.owner
              (new_in_cluster_provisioner exec wg env commands cfg spec nc f).0.server.table
              vpn_ip
            ≡ some key)
          × (member nc.used_ip_addresses vpn_ip ≡ false)
    unfolding new_in_cluster_provisioner
    provisioner-IsRegistered env commands cfg spec nc f ip key walk h =
        let (plan, made, same) = with_plan-key commands cfg spec nc _ f.machine h in
        let (owned, free) = prepare-owner wg law env spec nc (ok []) f.server walk made in
        (plan.vpn_ip, owned ∙ ap some same, free)

    -- Where wg0 is up on the node, with an address that the VPN server, whose table could be read,
    -- has for another peer's key, a bootstrap that succeeds answers this address with the new key;
    -- but the server keeps it for the other key, and has the new key at an address that was not in
    -- the NetConfig's list. Of the commands only those of the tunnel's group are taken to touch wg0.
    pub provisioner-apart :
        (tunnel : N → String) (env : PeerEnv) (commands : Commands) (cfg : Config) (spec : NetSpec)
        (nc : NetConfigStatus) (f : Field T N) (ip key private other : String)
        → IsTunnel exec tunnel commands
        → is_empty (trim_space (tunnel f.machine.node)) ≡ false
        → IsWalk env.iterate
        → IsRead wg env.register f.server
        → env.keys ≡ some (private, key)
        → other ≢ key
        → wg.owner f.server.table (trim_space (tunnel f.machine.node)) ≡ some other
        → (new_in_cluster_provisioner exec wg env commands cfg spec nc f).1 ≡ some (ip, key)
        → let table =
            (new_in_cluster_provisioner exec wg env commands cfg spec nc f).0.server.table in
          (ip ≡ trim_space (tunnel f.machine.node))
          × (wg.owner table ip ≡ some other)
          × ((vpn_ip : String) × (wg.owner table vpn_ip ≡ some key)
              × (member nc.used_ip_addresses vpn_ip ≡ false))
    unfolding new_in_cluster_provisioner
    provisioner-apart tunnel env commands cfg spec nc f ip key private other effects up walk read
          made differ owned h =
        let same = with_plan-address exec tunnel commands cfg spec nc _ f.machine effects up h in
        (
          same,
          prepare-keeps wg law env spec nc (ok []) f.server private key ip other read made differ
              (ap (wg.owner f.server.table) same ∙ owned),
          provisioner-IsRegistered env commands cfg spec nc f ip key walk h,
        )
