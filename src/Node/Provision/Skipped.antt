-- ===== src/Node/Provision/Skipped.antt =====
-- A node on which wg0 is up before `NewInClusterProvisioner` of provider/onprem/provisioner.go runs.
use public_cloud_vm_provisio.Prelude.{
  String, ◌≡◌, refl, sym, ap, ◌∙◌, inl, inr, Bool, true, false, Option, none, some, List, [], ◌∷◌,
  if◌then◌else◌, Bool-cases, is_empty, trim_space, append, All, arith,
}
use public_cloud_vm_provisio.Kubeadm.{has_minor, get_tun_ip}
use public_cloud_vm_provisio.Vpn.NetConfig.{NetConfigStatus}
use public_cloud_vm_provisio.Node.Aws.{Answer, ok, err}
use public_cloud_vm_provisio.Node.Runtime.{Config, install_steps}
use public_cloud_vm_provisio.Node.Provision.{NetSpec, Plan}
use public_cloud_vm_provisio.Node.Provision.OnPrem.{
  StepGroup, Commands, Machine, run_command, run_commands, run_groups, report_step, tunnel_group,
  groups_of, fixed_group, join_at, join_node, finish_node, set_up_node, with_plan,
}

-- `tunnel` is the address that wg0 has on a node, with its newline, and the empty text where it is
-- down.
module _ {N : Type 0} (exec : String → N → N × String × Bool) (tunnel : N → String) where
  -- The command leaves wg0 as it is.
  abbrev pub Keeps : String → Type 0
  Keeps cmd = (n : N) → tunnel (exec cmd n).0 ≡ tunnel n

  -- Only the commands that set up the tunnel touch wg0, and the two that read its address print it.
  pub record IsTunnel (commands : Commands) : Type 0 where
    pub groups : (label : String) → All Keeps (commands.group label)
    pub packages : (version : String) → All Keeps (commands.packages version)
    pub runtime : (cfg : Config) → All Keeps (commands.runtime cfg)
    pub read_wg0_keeps : Keeps commands.read_wg0
    pub read_wg0_prints : (n : N) → (exec commands.read_wg0 n).1 ≡ tunnel n
    pub read_tunnel_prints : (n : N) → (exec commands.read_tunnel n).1 ≡ tunnel n

  run_commands-Keeps :
      (cmds : List String) (m : Machine N)
      → All Keeps cmds
      → tunnel (run_commands exec cmds m).0.node ≡ tunnel m.node
  unfolding run_commands run_command
  run_commands-Keeps [] m h = refl
  run_commands-Keeps (cmd ∷ cmds) m (here, h) =
      let after = (run_command exec cmd m).0 in
      let first : tunnel after.node ≡ tunnel m.node = here m.node in
      elim (Bool-cases (exec cmd m.node).2) [
        | inl e ↦ rw (run_commands, run_command, e) (run_commands-Keeps cmds after h ∙ first)
        | inr e ↦ rw (run_commands, run_command, e) first
      ]

  run_groups-Keeps :
      (groups : List StepGroup) (m : Machine N)
      → All (λ (g : StepGroup). All Keeps g.cmds) groups
      → tunnel (run_groups exec groups m).0.node ≡ tunnel m.node
  unfolding run_groups report_step
  run_groups-Keeps [] m h = refl
  run_groups-Keeps (g ∷ groups) m (here, h) =
      let r = run_commands exec g.cmds (report_step exec g.label m) in
      let first : tunnel r.0.node ≡ tunnel m.node =
        run_commands-Keeps g.cmds (report_step exec g.label m) here in
      elim (Bool-cases (is_empty g.label)) [
        | inl e ↦ rw (run_groups, e) (run_groups-Keeps groups m h)
        | inr e ↦ elim (Bool-cases r.1) [
          | inl f ↦ rw (run_groups, e, f) (run_groups-Keeps groups r.0 h ∙ first)
          | inr f ↦ rw (run_groups, e, f) first
        ]
      ]

  install_steps-Keeps :
      (commands : Commands) (cfg : Config)
      → IsTunnel commands
      → All Keeps (install_steps commands.runtime cfg)
  unfolding install_steps
  install_steps-Keeps commands cfg law = elim (Bool-cases cfg.enabled) [
    | inl e ↦ rw (install_steps, e) (law.runtime _)
    | inr e ↦ rw (install_steps, e) tt
  ]

  groups_of-Keeps :
      (commands : Commands) (cfg : Config) (version : String) (plan : Plan) (existing : String)
      → IsTunnel commands
      → is_empty existing ≡ false
      → All (λ (g : StepGroup). All Keeps g.cmds) (groups_of commands cfg version plan existing)
  unfolding groups_of fixed_group tunnel_group
  groups_of-Keeps commands cfg version plan existing law up =
      let skipped : All Keeps (tunnel_group commands plan existing).cmds =
        rw (tunnel_group, up) tt in
      let installed = install_steps-Keeps commands cfg law in
      (
        law.groups _,
        (
          law.groups _,
          (law.groups _, (skipped, (installed, (law.groups _, (law.packages _, tt))))),
        ),
      )

  get_tun_ip-some :
      (text : String) {ip : String} → get_tun_ip (some text) ≡ some ip → ip ≡ trim_space text
  unfolding get_tun_ip
  get_tun_ip-some text e = ground arith

  answered-address :
      (fine : Bool) (text : String) {ip : String}
      → get_tun_ip (if fine then some text else none) ≡ some ip
      → ip ≡ trim_space text
  unfolding get_tun_ip
  answered-address true text e = get_tun_ip-some text e
  answered-address false text e = cc

  if-address :
      (b : Bool) (ip key : String) {result : String × String}
      → (if b then some (ip, key) else none) ≡ some result
      → ip ≡ result.0
  if-address true ip key e = ap (λ o. elim o [ none ↦ "" | some r ↦ r.0 ]) e
  if-address false ip key e = cc

  join_at-address :
      (commands : Commands) (nc : NetConfigStatus) (plan : Plan) (o : Option String) (m : Machine N)
      {result : String × String}
      → (join_at exec commands nc plan o m).1 ≡ some result
      → o ≡ some result.0
  unfolding join_at
  join_at-address commands nc plan none m e = cc
  join_at-address commands nc plan (some ip) m e =
      ap some (if-address (join_node exec commands nc ip m).1 ip plan.public_key e)

  finish_node-address :
      (commands : Commands) (nc : NetConfigStatus) (plan : Plan) (r : Machine N × Bool)
      {result : String × String}
      → IsTunnel commands
      → (finish_node exec commands nc plan r).1 ≡ some result
      → result.0 ≡ trim_space (tunnel r.0.node)
  unfolding finish_node run_command report_step
  finish_node-address commands nc plan (m, false) law e = cc
  finish_node-address commands nc plan (m, true) law e =
      let printed = exec commands.read_tunnel m.node in
      answered-address printed.2 printed.1 (join_at-address commands nc plan _ _ e)
      ∙ ap trim_space (law.read_tunnel_prints m.node)

  if-node : (b : Bool) (m n : Machine N) → m.node ≡ n.node → (if b then m else n).node ≡ m.node
  if-node true m n e = refl
  if-node false m n e = sym e

  -- With wg0 up, what the node answers is the address of wg0.
  set_up_node-address :
      (commands : Commands) (cfg : Config) (spec : NetSpec) (nc : NetConfigStatus) (plan : Plan)
      (m : Machine N) {result : String × String}
      → IsTunnel commands
      → is_empty (trim_space (tunnel m.node)) ≡ false
      → (set_up_node exec commands cfg spec nc plan m).1 ≡ some result
      → result.0 ≡ trim_space (tunnel m.node)
  unfolding set_up_node run_command report_step
  set_up_node-address commands cfg spec nc plan m law up e =
      let existing = trim_space (exec commands.read_wg0 m.node).1 in
      let still : is_empty existing ≡ false =
        ap (λ t. is_empty (trim_space t)) (law.read_wg0_prints m.node) ∙ up in
      let version = spec.kubernetes_version in
      let groups = groups_of commands cfg version plan existing in
      let read = (run_command exec commands.read_wg0 m).0 in
      let noted =
        report_step exec
          (append "wg0 already configured (" (append existing ") — skipping WireGuard setup"))
          read in
      let start = if is_empty existing then read else noted in
      finish_node-address commands nc plan (run_groups exec groups start) law e
      ∙ ap trim_space (
          run_groups-Keeps groups start
            (groups_of-Keeps commands cfg version plan existing law still)
          ∙ ap tunnel (if-node (is_empty existing) read noted refl)
          ∙ law.read_wg0_keeps m.node)

  pub with_plan-address :
      (commands : Commands) (cfg : Config) (spec : NetSpec) (nc : NetConfigStatus)
      (answer : Answer Plan) (m : Machine N) {result : String × String}
      → IsTunnel commands
      → is_empty (trim_space (tunnel m.node)) ≡ false
      → (with_plan exec commands cfg spec nc answer m).1 ≡ some result
      → result.0 ≡ trim_space (tunnel m.node)
  unfolding with_plan
  with_plan-address commands cfg spec nc (err e) m law up h = cc
  with_plan-address commands cfg spec nc (ok plan) m law up h =
      elim (Bool-cases (has_minor spec.kubernetes_version)) [
        | inr bad ↦ cc (rw (with_plan, bad) at h)
        | inl good ↦
            set_up_node-address commands cfg spec nc plan m law up (rw (with_plan, good) at h)
      ]
