-- ===== src/Kubeadm/Join.antt =====
-- `JoinWorkerNode` resumed.
use public_cloud_vm_provisio.Prelude.{
  ℕ, ◌≤◌, String, ◌≡◌, refl, sym, ap, ◌∙◌, ◌⊎◌, inl, inr, Bool, true, false, not, ◌||◌, Option,
  none, some, List, [], ◌∷◌, ◌++◌, arith, if◌then◌else◌, Bool-cases, Option-cases, is_empty,
}
use public_cloud_vm_provisio.Kubeadm.{
  WorkerEnv, ProvisionPhase, join_worker_node, run_phases, run_phases_from, phases_of,
  worker_phases, get_tun_ip, has_minor, resolve_node,
}
use public_cloud_vm_provisio.Kubeadm.Resume.{up_to, Ends-open, behind}

module _ {ℓ} {S : Type ℓ} (run : String → S → S × Bool) (done : ℕ → S → S) (log : S → List ℕ)
    (log-run : (cmd : String) (s : S) → log (run cmd s).0 ≡ log s)
    (log-done : (i : ℕ) (s : S) → log (done i s) ≡ log s ++ i ∷ []) (env : WorkerEnv) where
  -- What follows the phases, where the checks before them pass.
  unfoldable labelled : String → S × Bool → S × Option String
  labelled ip (t, ok) = if not ok then (t, none) else elim (resolve_node ip env.query 0 45) [
    | none ↦ (t, none)
    | some name ↦ if env.labelled then (t, some ip) else (t, none)
  ]

  labelled-some :
      (ip jp : String) (r : S × Bool)
      → (labelled ip r).1 ≡ some jp
      → (r.1 ≡ true) × (ip ≡ jp) × ((labelled ip r).0 ≡ r.0)
  unfolding labelled
  labelled-some ip jp (t, true) e = elim (Option-cases (resolve_node ip env.query 0 45)) [
    | inl f ↦ ground arith
    | inr (name, f) ↦ elim (Bool-cases env.labelled) [
      | inl g ↦ (refl, ground arith, rw (labelled, f, g) refl)
      | inr g ↦ ground arith
    ]
  ]
  labelled-some ip jp (t, false) e = ground arith

  phases : List ProvisionPhase
  phases = phases_of env.commands worker_phases

  join-cases :
      (join_cmd : String) (start : ℕ) (s : S)
      → ((join_worker_node run done env join_cmd start s).1 ≡ none)
        ⊎ ((ip : String) × (get_tun_ip env.tun_ip ≡ some ip)
            × (join_worker_node run done env join_cmd start s
                ≡ labelled ip (run_phases_from run done 0 phases start s)))
  unfolding join_worker_node run_phases phases labelled
  join-cases join_cmd start s = elim (Option-cases (get_tun_ip env.tun_ip)) [
    | inl e ↦ inl (rw (join_worker_node, e) refl)
    | inr (ip, e) ↦
        elim (Bool-cases
          (is_empty join_cmd || is_empty env.parent_hardware || not (has_minor env.version))) [
            | inl f ↦ inl (rw (join_worker_node, e, f) refl)
            | inr f ↦ inr (ip, e, rw (join_worker_node, e, f) refl)
          ]
  ]

  -- `JoinWorkerNode` that is resumed behind the completed phases and returns an address has completed all
  -- nine phases, 0, 1, … in order, none twice and none left out, and the address is the one of wg0.
  pub join_worker_node-completes :
      (join_cmd : String) (start : ℕ) (s : S) (ip : String)
      → start ≤ 9
      → log s ≡ up_to start
      → (join_worker_node run done env join_cmd start s).1 ≡ some ip
      → (log (join_worker_node run done env join_cmd start s).0 ≡ up_to 9)
        × (get_tun_ip env.tun_ip ≡ some ip)
  unfolding phases phases_of
  join_worker_node-completes join_cmd start s ip h e f = elim (join-cases join_cmd start s) [
    | inl g ↦ ground arith
    | inr (jp, t, g) ↦
        let r = run_phases_from run done 0 phases start s in
        let (n, l, from, ends) =
          Ends-open log r
            (behind run done log log-run log-done 0 start phases s (omega arith) (omega arith) e) in
        let (ok, same, state) = labelled-some jp ip r (ap (λ x. x.1) (sym g) ∙ f) in
        elim ends [
          | inl (k, j) ↦ (ap (λ x. log x.0) g ∙ ap log state ∙ l ∙ ap up_to j, t ∙ ap some same)
          | inr (k, j) ↦ ground arith
        ]
  ]
