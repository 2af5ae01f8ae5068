-- ===== src/Node/Provision/Plans.antt =====
-- The VPN part of the provisioners: what a plan says, and what its registration leaves.
use public_cloud_vm_provisio.Prelude.{
  String, ◌≡◌, refl, sym, ap, ◌∙◌, ◌≢◌, true, false, Option, none, some, List, differs,
}
use public_cloud_vm_provisio.Vpn.Allocate.{
  Outcome, chosen, allocate_vpn_ip, member, known_peers, lookup_peer,
}
use public_cloud_vm_provisio.Vpn.Allocate.Free.{IsWalk, allocate-unknown}
use public_cloud_vm_provisio.Vpn.Client.{build_client_wg_config, parse_port}
use public_cloud_vm_provisio.Vpn.NetConfig.{NetConfigStatus}
use public_cloud_vm_provisio.Vpn.Register.{
  WireGuard, IsWireGuard, Server, Registered, registered, register_vpn_peer,
}
use public_cloud_vm_provisio.Vpn.Register.Live.{
  IsRead, register-keeps, register-IsOwner, register-succeeds,
}
use public_cloud_vm_provisio.Node.Aws.{Answer, ok, err, ◌>>=◌}
use public_cloud_vm_provisio.Node.Provision.{
  NetSpec, PeerEnv, Plan, allocated, answer_of, client_conf, plan_peer, registration, register_plan,
  prepare_peer,
}

bind-ok :
    {A B : Type 0} (o : Answer A) (f : A → Answer B) {b : B}
    → (o >>= f) ≡ ok b
    → (a : A) × (o ≡ ok a) × (f a ≡ ok b)
bind-ok (ok a) f e = (a, refl, e)
bind-ok (err msg) f e = cc

allocated-chosen : (o : Outcome) {ip : String} → allocated o ≡ ok ip → o ≡ chosen ip
unfolding allocated
allocated-chosen (chosen ip) e = cc
allocated-chosen _ e = cc

ok-plan : {a b : Plan} → ok a ≡ ok b → a ≡ b
ok-plan e = cc

-- A plan has the address that was allocated, and the public key that was generated.
pub plan_peer-chosen :
    (env : PeerEnv) (spec : NetSpec) (nc : NetConfigStatus) (extras : Answer (List String))
    {plan : Plan}
    → plan_peer env spec nc extras ≡ ok plan
    → (allocate_vpn_ip env.iterate env.dump spec.vpn_range nc.used_ip_addresses
        ≡ chosen plan.vpn_ip)
      × ((private : String) × (env.keys ≡ some (private, plan.public_key)))
unfolding plan_peer
plan_peer-chosen env spec nc extras {plan} e =
    let (ip, found, rest) =
      bind-ok (allocated (allocate_vpn_ip env.iterate env.dump spec.vpn_range nc.used_ip_addresses))
        _ e in
    let ((private, public), made, more) =
      bind-ok (answer_of "generating WireGuard keypair" env.keys) _ rest in
    let (allowed, _, conf) = bind-ok extras _ more in
    let (lines, _, last) =
      bind-ok
        (client_conf (
          build_client_wg_config env.answers ip spec.vpn_range spec.server_ip
            (parse_port spec.vpn_port 51820) private allowed))
        _ conf in
    let same = ok-plan last in
    (
      allocated-chosen _ found ∙ ap (λ p. chosen p.vpn_ip) same,
      (private, keys-some env.keys made ∙ ap (λ p. some (private, p.public_key)) same),
    )
  where
    keys-some :
        (o : Option (String × String)) {k : String × String}
        → answer_of "generating WireGuard keypair" o ≡ ok k
        → o ≡ some k
    keys-some none e = cc
    keys-some (some k) e = cc

registration-ok :
    (plan : Plan) (r : Registered) {p : Plan}
    → registration plan r ≡ ok p
    → (r ≡ registered) × (plan ≡ p)
unfolding registration
registration-ok plan registered e = (refl, ok-plan e)
registration-ok plan _ e = cc

-- The plan that is registered is the plan.
pub register_plan-ok :
    {T : Type 0} (wg : WireGuard T) (env : PeerEnv) (answer : Answer Plan) (s : Server T)
    {plan : Plan}
    → (register_plan wg env answer s).1 ≡ ok plan
    → (answer ≡ ok plan)
      × ((register_vpn_peer wg env.register plan.public_key plan.vpn_ip s).1 ≡ registered)
      × ((register_plan wg env answer s).0
          ≡ (register_vpn_peer wg env.register plan.public_key plan.vpn_ip s).0)
unfolding register_plan
register_plan-ok wg env (err msg) s e = cc
register_plan-ok wg env (ok first) s {plan} e =
    let (done, same) = registration-ok first _ e in
    (
      ap ok same,
      ap (λ p. (register_vpn_peer wg env.register p.public_key p.vpn_ip s).1) (sym same) ∙ done,
      ap (λ p. (register_vpn_peer wg env.register p.public_key p.vpn_ip s).0) same,
    )

module _ {T : Type 0} (wg : WireGuard T) (law : IsWireGuard wg) where
  -- A peer that is prepared has the plan's address, which was not in the NetConfig's list.
  pub prepare-owner :
      (env : PeerEnv) (spec : NetSpec) (nc : NetConfigStatus) (extras : Answer (List String))
      (s : Server T) {plan : Plan}
      → IsWalk env.iterate
      → (prepare_peer wg env spec nc extras s).1 ≡ ok plan
      → (wg.owner (prepare_peer wg env spec nc extras s).0.table plan.vpn_ip ≡ some plan.public_key)
        × (member nc.used_ip_addresses plan.vpn_ip ≡ false)
  unfolding prepare_peer
  prepare-owner env spec nc extras s {plan} walk e =
      let (planned, done, same) = register_plan-ok wg env _ s e in
      let (found, _) = plan_peer-chosen env spec nc extras planned in
      let (owned, _) = register-IsOwner wg law env.register plan.public_key plan.vpn_ip s done in
      let (free, _, _) =
        allocate-unknown env.iterate walk env.dump spec.vpn_range nc.used_ip_addresses found in
      (ap (λ t. wg.owner t.table plan.vpn_ip) same ∙ owned, free)

  keys-same :
      {o : Option (String × String)} {a b c d : String} → o ≡ some (a, b) → o ≡ some (c, d) → b ≡ d
  keys-same e f = cc

  register_plan-keeps :
      (env : PeerEnv) (answer : Answer Plan) (s : Server T) (jp other : String)
      → IsRead wg env.register s
      → ((plan : Plan) → answer ≡ ok plan → other ≢ plan.public_key)
      → wg.owner s.table jp ≡ some other
      → wg.owner (register_plan wg env answer s).0.table jp ≡ some other
  unfolding register_plan
  register_plan-keeps env (err e) s jp other read differs owned = owned
  register_plan-keeps env (ok plan) s jp other read differs owned =
      register-keeps wg law env.register plan.public_key plan.vpn_ip s jp other read
        (differs plan refl) owned

  -- Where the server's table could be read, every peer with another key keeps its addresses.
  pub prepare-keeps :
      (env : PeerEnv) (spec : NetSpec) (nc : NetConfigStatus) (extras : Answer (List String))
      (s : Server T) (private key jp other : String)
      → IsRead wg env.register s
      → env.keys ≡ some (private, key)
      → other ≢ key
      → wg.owner s.table jp ≡ some other
      → wg.owner (prepare_peer wg env spec nc extras s).0.table jp ≡ some other
  unfolding prepare_peer
  prepare-keeps env spec nc extras s private key jp other read made differs owned =
      register_plan-keeps env (plan_peer env spec nc extras) s jp other read
        (λ plan planned same.
          let (_, (p, k)) = plan_peer-chosen env spec nc extras planned in
          differs (same ∙ keys-same k made))
        owned

  -- With a plan and commands that succeed, the peer is prepared.
  pub prepare-succeeds :
      (env : PeerEnv) (spec : NetSpec) (nc : NetConfigStatus) (extras : Answer (List String))
      (s : Server T) {plan : Plan}
      → IsWalk env.iterate
      → env.register.dump ≡ env.dump
      → env.register.forwarded ≡ true
      → env.register.set ≡ true
      → env.register.persist_error ≡ none
      → plan_peer env spec nc extras ≡ ok plan
      → (prepare_peer wg env spec nc extras s).1 ≡ ok plan
  unfolding prepare_peer register_plan registration
  prepare-succeeds env spec nc extras s {plan} walk dumped up set saved planned =
      let (found, _) = plan_peer-chosen env spec nc extras planned in
      let (_, free, _) =
        allocate-unknown env.iterate walk env.dump spec.vpn_range nc.used_ip_addresses found in
      ap (λ a. (register_plan wg env a s).1) planned
      ∙ ap (registration plan) (
          register-succeeds wg env.register plan.public_key plan.vpn_ip s up set saved
            (ap (λ d. lookup_peer (known_peers d) plan.vpn_ip) dumped ∙ free))
