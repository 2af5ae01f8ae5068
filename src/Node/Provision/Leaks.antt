-- ===== src/Node/Provision/Leaks.antt =====
-- Provisioning that fails behind the registration of its peer, and provisioning that is run again.
use public_cloud_vm_provisio.Prelude.{
  String, ◌≡◌, refl, sym, ap, ◌∙◌, ◌≢◌, Bool, true, false, none, some, List,
}
use public_cloud_vm_provisio.Kubeadm.{has_minor}
use public_cloud_vm_provisio.Vpn.Allocate.{known_peers, lookup_peer}
use public_cloud_vm_provisio.Vpn.Allocate.Free.{IsWalk, allocate-unknown}
use public_cloud_vm_provisio.Vpn.NetConfig.{NetConfigStatus}
use public_cloud_vm_provisio.Vpn.Register.{WireGuard, IsWireGuard, Server}
use public_cloud_vm_provisio.Vpn.Register.Live.{IsRead}
use public_cloud_vm_provisio.Node.{World, status_update, fail_node_provision}
use public_cloud_vm_provisio.Node.Aws.{Answer, ok, Provision, refused, AwsEnv, provisioned}
use public_cloud_vm_provisio.Node.Bootstrap.{Scripts}
use public_cloud_vm_provisio.Node.Provision.{
  NetSpec, PeerEnv, Plan, api_routes, plan_peer, prepare_peer,
}
use public_cloud_vm_provisio.Node.Provision.Plans.{
  plan_peer-chosen, register_plan-ok, prepare-owner, prepare-keeps, prepare-succeeds,
}
use public_cloud_vm_provisio.Node.Provision.Cloud.{
  Site, NodeSpec, Ec2Env, with_version, provision_cloud, provision_ec2_node,
}

update-net : (accepted : Bool) (v : World) → (status_update accepted v).net ≡ v.net
update-net true v = refl
update-net false v = refl

refused-net :
    (aws : AwsEnv) (msg e : String) (w : World) → (provisioned aws msg (refused e) w).0.net ≡ w.net
unfolding provisioned fail_node_provision
refused-net aws msg e w = update-net aws.fail_saved _

module _ {T : Type 0} (wg : WireGuard T) (law : IsWireGuard wg) where
  with_version-refused :
      (spec : NetSpec) (launch : Plan → Site T → Site T × Provision) (answer : Answer Plan)
      (plan : Plan) (s : Site T)
      → has_minor spec.kubernetes_version ≡ false
      → answer ≡ ok plan
      → with_version spec launch answer s ≡ (s, refused "invalid kubernetes version")
  unfolding with_version
  with_version-refused spec launch answer plan s bad e =
      ap (λ a. with_version spec launch a s) e ∙ rw (with_version, bad)

  -- Where the Kubernetes version has no minor part and all else succeeds, ProvisionEC2Node answers
  -- no allocation, so that its caller leaves the NetConfig as it was, while the server has the peer.
  pub ec2_refused-leaks :
      (scripts : Scripts) (env : PeerEnv) (ec2 : Ec2Env) (np : NodeSpec) (spec : NetSpec)
      (nc : NetConfigStatus) (s : Site T) (plan : Plan) (aws : AwsEnv) (w : World)
      → IsWalk env.iterate
      → env.register.dump ≡ env.dump
      → env.register.forwarded ≡ true
      → env.register.set ≡ true
      → env.register.persist_error ≡ none
      → plan_peer env spec nc (api_routes nc) ≡ ok plan
      → has_minor spec.kubernetes_version ≡ false
      → let (t, result) = provision_ec2_node wg scripts env ec2 np spec nc s in
        (wg.owner t.server.table plan.vpn_ip ≡ some plan.public_key)
        × ((provisioned aws "EC2 provisioning failed" result w).0.net ≡ w.net)
  unfolding provision_ec2_node provision_cloud
  ec2_refused-leaks scripts env ec2 np spec nc s plan aws w walk dumped up set saved planned bad =
      let done =
        prepare-succeeds wg law env spec nc (api_routes nc) s.server walk dumped up set saved
          planned in
      let (owned, free) = prepare-owner wg law env spec nc (api_routes nc) s.server walk done in
      let e = with_version-refused spec _ _ plan _ bad done in
      (
        ap (λ r. wg.owner r.0.server.table plan.vpn_ip) e ∙ owned,
        ap (λ r. (provisioned aws "EC2 provisioning failed" r.1 w).0.net) e ∙ refused-net aws _ _ w,
      )

  -- A run of the provisioning that reads the server's table behind an earlier registration, and
  -- registers its own new key, has another address than the earlier peer, which stays on the server.
  pub again-apart :
      (env : PeerEnv) (spec : NetSpec) (nc : NetConfigStatus) (extras : Answer (List String))
      (s : Server T) (ip key : String) {plan : Plan}
      → IsWalk env.iterate
      → IsRead wg env.register s
      → env.register.dump ≡ env.dump
      → wg.owner s.table ip ≡ some key
      → key ≢ plan.public_key
      → (prepare_peer wg env spec nc extras s).1 ≡ ok plan
      → (plan.vpn_ip ≢ ip)
        × (wg.owner (prepare_peer wg env spec nc extras s).0.table ip ≡ some key)
        × (wg.owner (prepare_peer wg env spec nc extras s).0.table plan.vpn_ip
            ≡ some plan.public_key)
  unfolding IsRead prepare_peer
  again-apart env spec nc extras s ip key {plan} walk read dumped owned other done =
      let (planned, registers, same) = register_plan-ok wg env _ s done in
      let (found, (private, made)) = plan_peer-chosen env spec nc extras planned in
      let (_, free, _) =
        allocate-unknown env.iterate walk env.dump spec.vpn_range nc.used_ip_addresses found in
      let unknown = ap (λ d. lookup_peer (known_peers d) plan.vpn_ip) dumped ∙ free in
      (
        (λ e. nobody (sym unknown ∙ read plan.vpn_ip ∙ ap (wg.owner s.table) e ∙ owned)),
        prepare-keeps wg law env spec nc extras s private plan.public_key ip key read made other
            owned,
        (prepare-owner wg law env spec nc extras s walk done).0,
      )
    where
      nobody : {k : String} → none ≢ some k
      nobody e = cc
