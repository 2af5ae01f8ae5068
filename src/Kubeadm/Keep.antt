-- ===== src/Kubeadm/Keep.antt =====
-- What the runs of the phases keep of the state.
use public_cloud_vm_provisio.Prelude.{
  ℕ, ◌+◌, String, sym, inl, inr, Bool, List, [], ◌∷◌, arith, ltb, leb, Bool-cases, Option-cases,
  subst,
}
use public_cloud_vm_provisio.Kubeadm.Resume.{
  run_phases_from_skip, run_phases_from_go, run_phases_from_fail,
}
use public_cloud_vm_provisio.Kubeadm.{
  ControlPlaneEnv, initialize_control_plane, run_phases, run_phases_from, run_steps,
  configure_argo_cd, finish_control_plane, phases_of, control_plane_phases, ProvisionPhase,
  get_tun_ip, has_minor,
}

module _ {ℓ κ} {S : Type ℓ} (run : String → S → S × Bool) (done : ℕ → S → S) (P : S → Type κ)
    (P-run : (cmd : String) (s : S) → P s → P (run cmd s).0)
    (P-done : (i : ℕ) (s : S) → P s → P (done i s)) where
  steps-keep : (cmds : List String) (s : S) → P s → P (run_steps run cmds s).0
  unfolding run_steps
  steps-keep [] s h = h
  steps-keep (cmd ∷ cmds) s h = elim (Bool-cases (run cmd s).1) [
    | inl e ↦ rw (run_steps, e) (steps-keep cmds (run cmd s).0 (P-run cmd s h))
    | inr e ↦ rw (run_steps, e) (P-run cmd s h)
  ]

  phases-keep :
      (i start : ℕ) (phases : List ProvisionPhase) (s : S)
      → P s
      → P (run_phases_from run done i phases start s).0
  unfolding run_phases_from
  phases-keep i start [] s h = h
  phases-keep i start (phase ∷ phases) s h = elim (Bool-cases (ltb i start)) [
    | inl e ↦
        subst (λ r. P r.0)
          (sym (run_phases_from_skip run done i start phase phases s (ground arith)))
          (phases-keep (i + 1) start phases s h)
    | inr e ↦ elim (Bool-cases (run_steps run phase.steps s).1) [
      | inl f ↦
          subst (λ r. P r.0)
            (sym (run_phases_from_go run done i start phase phases s (ground arith) f))
            (phases-keep (i + 1) start phases (done i (run_steps run phase.steps s).0)
              (P-done i _ (steps-keep phase.steps s h)))
      | inr f ↦
          subst (λ r. P r.0)
            (sym (run_phases_from_fail run done i start phase phases s (ground arith) f))
            (steps-keep phase.steps s h)
    ]
  ]

  finish-keep :
      (env : ControlPlaneEnv) (start : ℕ) (s : S)
      → P s
      → P (finish_control_plane run done env start s).0
  unfolding finish_control_plane
  finish-keep env start s h = elim (Bool-cases (leb start 12)) [
    | inl e ↦ elim (Bool-cases env.nfs) [ inl f ↦ rw (e, f) (P-done 12 s h) | inr f ↦ rw (e, f) h ]
    | inr e ↦ rw e h
  ]

  configure-keep :
      (env : ControlPlaneEnv) (start : ℕ) (s : S)
      → P s
      → P (configure_argo_cd run done env start s).0
  unfolding configure_argo_cd
  configure-keep env start s h = elim (Bool-cases (leb start 11)) [
    | inl e ↦ elim (Bool-cases env.argo_cd) [
      | inl f ↦ rw (e, f) (finish-keep env start (done 11 s) (P-done 11 s h))
      | inr f ↦ rw (e, f) h
    ]
    | inr e ↦ rw e (finish-keep env start s h)
  ]

  -- What every command and every completion keeps, `InitializeControlPlane` keeps.
  pub initialize_control_plane-keep :
      (env : ControlPlaneEnv) (start : ℕ) (s : S)
      → P s
      → P (initialize_control_plane run done env start s).0
  unfolding initialize_control_plane run_phases
  initialize_control_plane-keep env start s h =
      let t = run_phases_from run done 0 (phases_of env.commands control_plane_phases) start s in
      let k : P t.0 = phases-keep 0 start (phases_of env.commands control_plane_phases) s h in
      elim (Option-cases (get_tun_ip env.tun_ip)) [
        | inl e ↦ rw (initialize_control_plane, e) h
        | inr (ip, e) ↦ elim (Bool-cases (has_minor env.version)) [
          | inr f ↦ rw (initialize_control_plane, e, f) h
          | inl f ↦ elim (Bool-cases t.1) [
            | inl g ↦ rw (initialize_control_plane, e, f, g) (configure-keep env start t.0 k)
            | inr g ↦ rw (initialize_control_plane, e, f, g) k
          ]
        ]
      ]
