-- ===== src/Kubeadm/Split.antt =====
-- An interrupted run of the phases against a run without interruption.
use public_cloud_vm_provisio.Prelude.{
  ℕ, ◌+◌, ◌≤◌, String, ◌≡◌, refl, sym, ap, ◌∙◌, inl, inr, Bool, true, false, List, [], ◌∷◌, ◌++◌,
  arith, Bool-cases, length,
}
use public_cloud_vm_provisio.Kubeadm.{ProvisionPhase, run_phases, run_phases_from, run_steps}
use public_cloud_vm_provisio.Kubeadm.Resume.{
  run_phases_from_skip, run_phases_from_go, run_phases_from_fail,
}

-- Goes on where the first part has succeeded.
unfoldable pub and_resume {ℓ} : {S : Type ℓ} → S × Bool → (S → S × Bool) → S × Bool
and_resume (s, true) next = next s
and_resume (s, false) next = (s, false)

and_resume_same {ℓ} :
    {S : Type ℓ} (r : S × Bool) (f g : S → S × Bool)
    → ((s : S) → f s ≡ g s)
    → and_resume r f ≡ and_resume r g
unfolding and_resume
and_resume_same (s, true) f g h = h s
and_resume_same (s, false) f g h = refl

module _ {ℓ} {S : Type ℓ} (run : String → S → S × Bool) (done : ℕ → S → S) where
  -- Behind the start it makes no difference where the start was.
  started :
      (i start start' : ℕ) (phases : List ProvisionPhase) (s : S)
      → start ≤ i
      → start' ≤ i
      → run_phases_from run done i phases start s ≡ run_phases_from run done i phases start' s
  unfolding run_phases_from
  started i start start' [] s h k = refl
  started i start start' (phase ∷ phases) s h k =
      elim (Bool-cases (run_steps run phase.steps s).1) [
        | inl e ↦
            run_phases_from_go run done i start phase phases s h e
            ∙ started (i + 1) start start' phases _ (omega arith) (omega arith)
            ∙ sym (run_phases_from_go run done i start' phase phases s k e)
        | inr e ↦
            run_phases_from_fail run done i start phase phases s h e
            ∙ sym (run_phases_from_fail run done i start' phase phases s k e)
      ]

  skipped :
      (i start : ℕ) (ps qs : List ProvisionPhase) (s : S)
      → i + length ps ≤ start
      → run_phases_from run done i (ps ++ qs) start s
        ≡ run_phases_from run done (i + length ps) qs start s
  skipped i start [] qs s h = ap (λ j. run_phases_from run done j qs start s) (omega arith)
  skipped i start (phase ∷ ps) qs s h =
      run_phases_from_skip run done i start phase (ps ++ qs) s (omega arith)
      ∙ skipped (i + 1) start ps qs s (omega arith)
      ∙ ap (λ j. run_phases_from run done j qs start s) (omega arith)

  split_from :
      (i start : ℕ) (ps qs : List ProvisionPhase) (s : S)
      → start ≤ i
      → run_phases_from run done i (ps ++ qs) start s
        ≡ and_resume
            (run_phases_from run done i ps start s)
            (run_phases_from run done (i + length ps) qs start)
  unfolding run_phases_from and_resume
  split_from i start [] qs s h = ap (λ j. run_phases_from run done j qs start s) (omega arith)
  split_from i start (phase ∷ ps) qs s h = elim (Bool-cases (run_steps run phase.steps s).1) [
    | inl e ↦
        run_phases_from_go run done i start phase (ps ++ qs) s h e
        ∙ split_from (i + 1) start ps qs _ (omega arith)
        ∙ ap (λ r. and_resume r (run_phases_from run done (i + 1 + length ps) qs start))
            (sym (run_phases_from_go run done i start phase ps s h e))
        ∙ ap
            (λ j.
              and_resume (run_phases_from run done i (phase ∷ ps) start s)
                (run_phases_from run done j qs start))
            (omega arith)
    | inr e ↦
        run_phases_from_fail run done i start phase (ps ++ qs) s h e
        ∙ ap (λ r. and_resume r (run_phases_from run done (i + length (phase ∷ ps)) qs start))
            (sym (run_phases_from_fail run done i start phase ps s h e))
  ]

  -- A run of all the phases does the same to the state and ends the same as a run of the first of them
  -- that, where it succeeds, is followed by a run of all that is resumed behind them.
  pub run_phases-split :
      (ps qs : List ProvisionPhase) (s : S)
      → run_phases run done (ps ++ qs) 0 s
        ≡ and_resume (run_phases run done ps 0 s) (run_phases run done (ps ++ qs) (length ps))
  unfolding run_phases
  run_phases-split ps qs s =
      split_from 0 0 ps qs s (omega arith)
      ∙ and_resume_same (run_phases_from run done 0 ps 0 s) _
          (run_phases run done (ps ++ qs) (length ps))
          (λ t.
            started (0 + length ps) 0 (length ps) qs t (omega arith) (omega arith)
            ∙ sym (skipped 0 (length ps) ps qs t (omega arith)))
