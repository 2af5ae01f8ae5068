-- ===== src/Kubeadm.antt =====
-- pkg/kubeadm/kubeadm.go: the phases that turn a machine into a control plane or a worker, run by SSH
-- and resumed where an earlier attempt stopped. The shell commands of a phase are the parameter
-- `commands`, by the phase's name; `run` is what a command does to the state and whether it succeeds.
pub mod Resume
pub mod Init
pub mod Keep
pub mod Split
pub mod Join
use public_cloud_vm_provisio.Prelude.{
  ℕ, zero, suc, ◌+◌, ◌-◌, code, String, Bool, true, false, not, ◌&&◌, ◌||◌, Option, none, some,
  List, [], ◌∷◌, ◌==◌, ltb, leb, eqb, if◌then◌else◌, length, is_empty, trim_space, split,
}
use public_cloud_vm_provisio.Vpn.Allocate.{fields}

-- `ProvisionPhase`
pub record ProvisionPhase : Type 0 where
  pub name : String
  pub steps : List String

module _ {ℓ} {S : Type ℓ} (run : String → S → S × Bool) where
  -- The inner loop of `runPhases`: the commands up to the first that fails.
  unfoldable pub run_steps : List String → S → S × Bool
  run_steps [] s = (s, true)
  run_steps (cmd ∷ cmds) s =
      let (t, ok) = run cmd s in
      let rest = run_steps cmds t in elim ok [ true ↦ rest | false ↦ (t, false) ]

  -- `runPhases` from the index `i` on; `done` is `onPhaseComplete`.
  unfoldable pub run_phases_from : (ℕ → S → S) → ℕ → List ProvisionPhase → ℕ → S → S × Bool
  unfolding run_steps
  run_phases_from done i [] start s = (s, true)
  run_phases_from done i (phase ∷ phases) start s =
      let skipped = run_phases_from done (i + 1) phases start s in
      let (t, ok) = run_steps phase.steps s in
      let rest = run_phases_from done (i + 1) phases start (done i t) in
      elim (ltb i start) [ true ↦ skipped | false ↦ elim ok [ true ↦ rest | false ↦ (t, false) ] ]

  -- `runPhases`
  unfoldable pub run_phases : (ℕ → S → S) → List ProvisionPhase → ℕ → S → S × Bool
  run_phases done phases start s = run_phases_from done 0 phases start s

abbrev pub control_plane_phases : List String
control_plane_phases =
    "Cleanup" ∷ "NFS Server" ∷ "System Settings" ∷ "APT Repos" ∷ "CRI-O Install" ∷ "CRI-O Start"
    ∷ "K8s Install" ∷ "kubeadm Init" ∷ "Post-Init" ∷ "CNI" ∷ "Addons" ∷ []

abbrev pub cp_phase_argo_cd_configure : ℕ
cp_phase_argo_cd_configure = 11

abbrev pub cp_phase_nfs_provisioner : ℕ
cp_phase_nfs_provisioner = 12

abbrev pub worker_phases : List String
worker_phases =
    "Cleanup" ∷ "System Settings" ∷ "APT Repos" ∷ "CRI-O Install" ∷ "CRI-O Start" ∷ "K8s Install"
    ∷ "GPU CDI" ∷ "CRI-O Restart" ∷ "kubeadm Join" ∷ []

unfoldable pub phases_of : (String → List String) → List String → List ProvisionPhase
phases_of commands [] = []
phases_of commands (name ∷ names) =
    record { name = name; steps = commands name } ∷ phases_of commands names

-- `GetTunIP`, on what its command answers.
unfoldable pub get_tun_ip : Option String → Option String
unfolding trim_space is_empty
get_tun_ip none = none
get_tun_ip (some output) = if is_empty (trim_space output) then none else some (trim_space output)

-- `getJoinCommand`, on what its command answers.
unfoldable pub get_join_command : Option String → Option String
unfolding trim_space is_empty
get_join_command none = none
get_join_command (some output) =
    if is_empty (trim_space output) then none else some (trim_space output)

-- `strings.TrimPrefix(version, "v")`
unfoldable pub trim_v : String → String
trim_v String.[] = String.[]
trim_v (String.◌∷◌ c s) = if eqb (code c) b'v' then s else String.◌∷◌ c s

-- Whether the version has a minor part.
unfoldable pub has_minor : String → Bool
unfolding split trim_v
has_minor version = leb 2 (length (split b'.' (trim_v version)))

-- What the calls of one run of `InitializeControlPlane` answer, apart from the phases' commands.
pub record ControlPlaneEnv : Type 0 where
  pub tun_ip : Option String
  pub version : String
  pub commands : String → List String
  pub argo_cd : Bool  -- argocd.ConfigureArgoCD
  pub nfs : Bool  -- installNFSProvisioner
  pub token : Option String  -- kubeadm token create

module _ {ℓ} {S : Type ℓ} (run : String → S → S × Bool) (done : ℕ → S → S) where
  -- The end of `InitializeControlPlane`, behind the NFS provisioner.
  unfoldable pub finish_control_plane : ControlPlaneEnv → ℕ → S → S × Option String
  unfolding get_join_command
  finish_control_plane env start s =
      if leb start cp_phase_nfs_provisioner && not env.nfs
      then (s, none)
      else if leb start cp_phase_nfs_provisioner
      then (done cp_phase_nfs_provisioner s, get_join_command env.token)
      else (s, get_join_command env.token)

  -- From the configuration of ArgoCD on.
  unfoldable pub configure_argo_cd : ControlPlaneEnv → ℕ → S → S × Option String
  unfolding finish_control_plane
  configure_argo_cd env start s =
      if leb start cp_phase_argo_cd_configure && not env.argo_cd
      then (s, none)
      else if leb start cp_phase_argo_cd_configure
      then finish_control_plane env start (done cp_phase_argo_cd_configure s)
      else finish_control_plane env start s

  -- `InitializeControlPlane`: the join command, or none where it returns an error.
  unfoldable pub initialize_control_plane : ControlPlaneEnv → ℕ → S → S × Option String
  unfolding get_tun_ip has_minor run_phases phases_of configure_argo_cd
  initialize_control_plane env start s =
      let (t, ok) = run_phases run done (phases_of env.commands control_plane_phases) start s in
      let rest = configure_argo_cd env start t in
      elim (get_tun_ip env.tun_ip) [
        | none ↦ (s, none)
        | some ip ↦
            if not (has_minor env.version) then (s, none) else if ok then rest else (t, none)
      ]

-- The name of the node in the first line of the node table with the address.
unfoldable pub match_line : String → List String → Option String
match_line ip (name ∷ addr ∷ []) = if addr == ip then some name else none
match_line ip _ = none

unfoldable pub match_lines : String → List String → Option String
unfolding match_line fields
match_lines ip [] = none
match_lines ip (line ∷ lines) =
    let rest = match_lines ip lines in
    elim (match_line ip (fields line)) [ none ↦ rest | some name ↦ some name ]

-- The loop that waits for the node, with the attempts left; the answer of the query at each attempt.
unfoldable pub resolve_node : String → (ℕ → Option String) → ℕ → ℕ → Option String
unfolding match_lines split trim_space is_empty
resolve_node ip query attempt zero = none
resolve_node ip query attempt (suc left) =
    let rest = resolve_node ip query (attempt + 1) left in
    elim (query attempt) [
      | none ↦ none
      | some output ↦ elim (match_lines ip (split 10 (trim_space output))) [
        | none ↦ rest
        | some name ↦ if is_empty name then rest else some name
      ]
    ]

-- What the calls of one run of `JoinWorkerNode` answer, apart from the phases' commands.
pub record WorkerEnv : Type 0 where
  pub tun_ip : Option String
  pub parent_hardware : String
  pub version : String
  pub commands : String → List String
  pub query : ℕ → Option String
  pub labelled : Bool

module _ {ℓ} {S : Type ℓ} (run : String → S → S × Bool) (done : ℕ → S → S) where
  -- `JoinWorkerNode`: the worker's VPN address, or none where it returns an error.
  unfoldable pub join_worker_node : WorkerEnv → String → ℕ → S → S × Option String
  unfolding get_tun_ip has_minor run_phases phases_of resolve_node is_empty
  join_worker_node env join_cmd start s =
      let (t, ok) = run_phases run done (phases_of env.commands worker_phases) start s in
      elim (get_tun_ip env.tun_ip) [
        | none ↦ (s, none)
        | some ip ↦
            if is_empty join_cmd || is_empty env.parent_hardware || not (has_minor env.version)
            then (s, none)
            else if not ok
            then (t, none)
            else elim (resolve_node ip env.query 0 45) [
              | none ↦ (t, none)
              | some name ↦ if env.labelled then (t, some ip) else (t, none)
            ]
      ]
