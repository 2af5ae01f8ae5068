-- ===== src/Kubeadm/Init.antt =====
-- `InitializeControlPlane` resumed: its eleven phases and the two steps that it counts as phases 11
-- and 12.
use public_cloud_vm_provisio.Prelude.{
  ℕ, suc, ◌≤◌, String, ◌≡◌, refl, sym, ap, ◌∙◌, ◌⊎◌, inl, inr, Bool, true, false, Option, none,
  some, List, [], ◌∷◌, ◌++◌, arith, leb, eqb, if◌then◌else◌, Bool-cases, Option-cases, is_empty,
  trim_space, subst,
}
use public_cloud_vm_provisio.Kubeadm.{
  ProvisionPhase, run_phases, phases_of, control_plane_phases, initialize_control_plane, get_tun_ip,
  has_minor, ControlPlaneEnv, initialize_control_plane, configure_argo_cd, finish_control_plane,
  get_join_command, run_phases, phases_of, control_plane_phases, get_tun_ip, has_minor,
}
use public_cloud_vm_provisio.Kubeadm.Resume.{
  run_phases_from_beyond, Ends, Ends-open, behind, up_to, Ends, Ends-open, behind,
}

-- How a run ends that was resumed at `from`: the completed phases are the first `n`, and with a join
-- command they are all of them and the command is not empty.
unfoldable pub InitEnds {ℓ} : {S : Type ℓ} → (S → List ℕ) → ℕ → S × Option String → Type 0
InitEnds log from r =
    (n : ℕ) × (log r.0 ≡ up_to n)
    × (from ≤ n)
    × (n ≤ 13)
    × ((r.1 ≡ none) ⊎ ((cmd : String) × (r.1 ≡ some cmd) × (is_empty cmd ≡ false) × (n ≡ 13)))

pub InitEnds-open {ℓ} :
    {S : Type ℓ} (log : S → List ℕ) (from : ℕ) (r : S × Option String)
    → InitEnds log from r
    → (n : ℕ) × (log r.0 ≡ up_to n)
      × (from ≤ n)
      × (n ≤ 13)
      × ((r.1 ≡ none) ⊎ ((cmd : String) × (r.1 ≡ some cmd) × (is_empty cmd ≡ false) × (n ≡ 13)))
unfolding InitEnds
InitEnds-open log from r e = e

InitEnds-stopped {ℓ} :
    {S : Type ℓ} (log : S → List ℕ) (from n : ℕ) (s : S)
    → log s ≡ up_to n
    → from ≤ n
    → n ≤ 13
    → InitEnds log from (s, none)
unfolding InitEnds
InitEnds-stopped log from n s e h k = (n, e, h, k, inl refl)

InitEnds-from {ℓ} :
    {S : Type ℓ} (log : S → List ℕ) {from from' : ℕ} (r : S × Option String)
    → from' ≤ from
    → InitEnds log from r
    → InitEnds log from' r
unfolding InitEnds
InitEnds-from log r h (n, l, k, j, rest) = (n, l, omega arith, j, rest)

InitEnds-token {ℓ} :
    {S : Type ℓ} (log : S → List ℕ) (from : ℕ) (token : Option String) (s : S)
    → log s ≡ up_to 13
    → from ≤ 13
    → InitEnds log from (s, get_join_command token)
unfolding InitEnds get_join_command
InitEnds-token log from none s e h = (13, e, h, omega arith, inl refl)
InitEnds-token log from (some output) s e h = elim (Bool-cases (is_empty (trim_space output))) [
  | inl f ↦ rw f (13, e, h, omega arith, inl refl)
  | inr f ↦ rw f (13, e, h, omega arith, inr (trim_space output, refl, f, refl))
]

module _ {ℓ} {S : Type ℓ} (run : String → S → S × Bool) (done : ℕ → S → S) (log : S → List ℕ)
    (log-run : (cmd : String) (s : S) → log (run cmd s).0 ≡ log s)
    (log-done : (i : ℕ) (s : S) → log (done i s) ≡ log s ++ i ∷ []) (env : ControlPlaneEnv) where
  log_complete : (i : ℕ) (s : S) → log s ≡ up_to i → log (done i s) ≡ up_to (suc i)
  unfolding up_to
  log_complete i s e = log-done i s ∙ ap (λ l. l ++ i ∷ []) e

  finish-InitEnds :
      (start : ℕ) (s : S)
      → start ≤ 12
      → log s ≡ up_to 12
      → InitEnds log start (finish_control_plane run done env start s)
  unfolding finish_control_plane
  finish-InitEnds start s h e =
      let k : leb start 12 ≡ true = ground arith in
      elim (Bool-cases env.nfs) [
        | inl f ↦
            rw (k, f)
              (InitEnds-token log start env.token (done 12 s) (log_complete 12 s e) (omega arith))
        | inr f ↦ rw (k, f) (InitEnds-stopped log start 12 s e h (omega arith))
      ]

  configure-InitEnds :
      (start : ℕ) (s : S)
      → start ≤ 11
      → log s ≡ up_to 11
      → InitEnds log start (configure_argo_cd run done env start s)
  unfolding configure_argo_cd
  configure-InitEnds start s h e =
      let k : leb start 11 ≡ true = ground arith in
      elim (Bool-cases env.argo_cd) [
        | inl f ↦ rw (k, f) (finish-InitEnds start (done 11 s) (omega arith) (log_complete 11 s e))
        | inr f ↦ rw (k, f) (InitEnds-stopped log start 11 s e h (omega arith))
      ]

  finish_later :
      (start : ℕ) (s : S)
      → start ≡ 13
      → log s ≡ up_to 13
      → InitEnds log start (finish_control_plane run done env start s)
  unfolding finish_control_plane
  finish_later start s h e =
      let k : leb start 12 ≡ false = ground arith in
      rw k (InitEnds-token log start env.token s e (omega arith))

  configure_later :
      (start : ℕ) (s : S)
      → 12 ≤ start
      → start ≤ 13
      → log s ≡ up_to start
      → InitEnds log start (configure_argo_cd run done env start s)
  unfolding configure_argo_cd
  configure_later start s h k e =
      let j : leb start 11 ≡ false = ground arith in
      elim (Bool-cases (eqb start 12)) [
        | inl f ↦ rw j (finish-InitEnds start s (ground arith) (e ∙ ap up_to (ground arith)))
        | inr f ↦ rw j (finish_later start s (ground arith) (e ∙ ap up_to (ground arith)))
      ]

  phases : List ProvisionPhase
  unfolding phases_of
  phases = phases_of env.commands control_plane_phases

  -- What follows the phases.
  configured : ℕ → S × Bool → S × Option String
  unfolding configure_argo_cd
  configured start (t, ok) = if ok then configure_argo_cd run done env start t else (t, none)

  configured-InitEnds :
      (start : ℕ) (r : S × Bool)
      → start ≤ 11
      → Ends log start 11 r
      → InitEnds log start (configured start r)
  unfolding configured
  configured-InitEnds start r h e =
      let (n, l, k, ends) = Ends-open log r e in
      elim ends [
        | inl (ok, j) ↦ rw ok (configure-InitEnds start r.0 h (l ∙ ap up_to j))
        | inr (ok, j) ↦ rw ok (InitEnds-stopped log start n r.0 l k (omega arith))
      ]

  phases-InitEnds :
      (start : ℕ) (s : S)
      → start ≤ 13
      → log s ≡ up_to start
      → InitEnds log start (configured start (run_phases run done phases start s))
  unfolding run_phases phases phases_of configured
  phases-InitEnds start s h e = elim (Bool-cases (leb start 11)) [
    | inl f ↦
        configured-InitEnds start _ (ground arith)
          (behind run done log log-run log-done 0 start phases s (omega arith) (ground arith) e)
    | inr f ↦
        subst (λ r. InitEnds log start (configured start r))
          (sym (run_phases_from_beyond run done 0 start phases s (ground arith)))
          (configure_later start s (ground arith) h e)
  ]

  -- `InitializeControlPlane` that is resumed at phase `start` of 13, where the phases before it and no
  -- others are completed, leaves the completed phases 0, 1, … in order, none twice and none left out,
  -- however its calls answer; where it returns a join command, all 13 are completed and the command is
  -- not empty.
  pub initialize_control_plane-completes :
      (start : ℕ) (s : S)
      → start ≤ 13
      → log s ≡ up_to start
      → InitEnds log start (initialize_control_plane run done env start s)
  unfolding initialize_control_plane phases configured
  initialize_control_plane-completes start s h e = elim (Option-cases (get_tun_ip env.tun_ip)) [
    | inl f ↦
        rw (initialize_control_plane, f) (InitEnds-stopped log start start s e (omega arith) h)
    | inr (ip, f) ↦ elim (Bool-cases (has_minor env.version)) [
      | inl g ↦ rw (initialize_control_plane, f, g) (phases-InitEnds start s h e)
      | inr g ↦
          rw (initialize_control_plane, f, g) (InitEnds-stopped log start start s e (omega arith) h)
    ]
  ]
