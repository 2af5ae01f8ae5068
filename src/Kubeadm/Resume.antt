-- ===== src/Kubeadm/Resume.antt =====
-- Attempts at the phases, each resumed behind the last phase that was completed, as
-- internal/controller/remotecluster_controller.go resumes them.
use public_cloud_vm_provisio.Prelude.{
  ℕ, zero, suc, ◌+◌, ◌≤◌, ◌<◌, String, ◌≡◌, refl, sym, ap, ◌∙◌, ◌⊎◌, inl, inr, Bool, true, false,
  List, [], ◌∷◌, ◌++◌, arith, ltb, Bool-cases, length, subst,
}
use public_cloud_vm_provisio.Kubeadm.{ProvisionPhase, run_steps, run_phases_from, run_phases}

-- 0, …, n - 1
unfoldable pub up_to : ℕ → List ℕ
up_to zero = []
up_to (suc n) = up_to n ++ n ∷ []

-- The phase behind the last one that was completed.
unfoldable pub next_phase : List ℕ → ℕ
next_phase [] = 0
next_phase (i ∷ []) = i + 1
next_phase (i ∷ j ∷ log) = next_phase (j ∷ log)

suc_add : (n : ℕ) → n + 1 ≡ suc n
suc_add n = omega arith

up_to_suc : (n : ℕ) → up_to n ++ n ∷ [] ≡ up_to (n + 1)
unfolding up_to
up_to_suc n = rw (suc_add n) refl

pub next_phase-append : (log : List ℕ) (i : ℕ) → next_phase (log ++ i ∷ []) ≡ i + 1
unfolding next_phase
next_phase-append [] i = refl
next_phase-append (j ∷ []) i = refl
next_phase-append (j ∷ k ∷ log) i = next_phase-append (k ∷ log) i

pub next_phase-up_to : (n : ℕ) → next_phase (up_to n) ≡ n
unfolding up_to next_phase
next_phase-up_to zero = refl
next_phase-up_to (suc n) = next_phase-append (up_to n) n ∙ omega arith

module _ {ℓ} {S : Type ℓ} (run : String → S → S × Bool) (done : ℕ → S → S) where
  pub run_phases_from_skip :
      (i start : ℕ) (phase : ProvisionPhase) (phases : List ProvisionPhase) (s : S)
      → i < start
      → run_phases_from run done i (phase ∷ phases) start s
        ≡ run_phases_from run done (i + 1) phases start s
  unfolding run_phases_from
  run_phases_from_skip i start phase phases s h = ground arith

  -- Behind the last phase there is nothing to run.
  pub run_phases_from_beyond :
      (i start : ℕ) (phases : List ProvisionPhase) (s : S)
      → i + length phases ≤ start
      → run_phases_from run done i phases start s ≡ (s, true)
  unfolding run_phases_from
  run_phases_from_beyond i start [] s h = refl
  run_phases_from_beyond i start (phase ∷ phases) s h =
      run_phases_from_skip i start phase phases s (omega arith)
      ∙ run_phases_from_beyond (i + 1) start phases s (omega arith)

  pub run_phases_from_fail :
      (i start : ℕ) (phase : ProvisionPhase) (phases : List ProvisionPhase) (s : S)
      → start ≤ i
      → (run_steps run phase.steps s).1 ≡ false
      → run_phases_from run done i (phase ∷ phases) start s
        ≡ ((run_steps run phase.steps s).0, false)
  unfolding run_phases_from
  run_phases_from_fail i start phase phases s h e = ground arith

  pub run_phases_from_go :
      (i start : ℕ) (phase : ProvisionPhase) (phases : List ProvisionPhase) (s : S)
      → start ≤ i
      → (run_steps run phase.steps s).1 ≡ true
      → run_phases_from run done i (phase ∷ phases) start s
        ≡ run_phases_from run done (i + 1) phases start (done i (run_steps run phase.steps s).0)
  unfolding run_phases_from
  run_phases_from_go i start phase phases s h e = ground arith

-- How the phases end, out of `total`: all of them completed on success, and not all on failure.
unfoldable pub Ends {ℓ} : {S : Type ℓ} → (S → List ℕ) → ℕ → ℕ → S × Bool → Type 0
Ends log from total r =
    (n : ℕ) × (log r.0 ≡ up_to n)
    × (from ≤ n)
    × ((r.1 ≡ true × n ≡ total) ⊎ (r.1 ≡ false × n < total))

Ends-from {ℓ} :
    {S : Type ℓ} (log : S → List ℕ) {from from' total total' : ℕ} (r : S × Bool)
    → (from' ≤ from)
    → total ≡ total'
    → Ends log from total r
    → Ends log from' total' r
unfolding Ends
Ends-from log r h e (n, l, k, inl (ok, m)) = (n, l, omega arith, inl (ok, omega arith))
Ends-from log r h e (n, l, k, inr (ok, m)) = (n, l, omega arith, inr (ok, omega arith))

pub Ends-open {ℓ} :
    {S : Type ℓ} (log : S → List ℕ) {from total : ℕ} (r : S × Bool)
    → Ends log from total r
    → (n : ℕ) × (log r.0 ≡ up_to n)
      × (from ≤ n)
      × ((r.1 ≡ true × n ≡ total) ⊎ (r.1 ≡ false × n < total))
unfolding Ends
Ends-open log r e = e

Ends-all {ℓ} :
    {S : Type ℓ} (log : S → List ℕ) (s : S) (n total : ℕ)
    → log s ≡ up_to n
    → n ≡ total
    → Ends log n total (s, true)
unfolding Ends
Ends-all log s n total e h = (n, e, omega arith, inl (refl, h))

Ends-some {ℓ} :
    {S : Type ℓ} (log : S → List ℕ) (s : S) (n total : ℕ)
    → log s ≡ up_to n
    → n < total
    → Ends log n total (s, false)
unfolding Ends
Ends-some log s n total e h = (n, e, omega arith, inr (refl, h))

module _ {ℓ} {S : Type ℓ} (run : String → S → S × Bool) (done : ℕ → S → S) (log : S → List ℕ)
    (log-run : (cmd : String) (s : S) → log (run cmd s).0 ≡ log s)
    (log-done : (i : ℕ) (s : S) → log (done i s) ≡ log s ++ i ∷ []) where
  log-run_steps : (cmds : List String) (s : S) → log (run_steps run cmds s).0 ≡ log s
  unfolding run_steps
  log-run_steps [] s = refl
  log-run_steps (cmd ∷ cmds) s = elim (Bool-cases (run cmd s).1) [
    | inl e ↦ ground (arith, log-run_steps cmds (run cmd s).0, log-run cmd s)
    | inr e ↦ ground (arith, log-run cmd s)
  ]

  pub ahead :
      (i start : ℕ) (phases : List ProvisionPhase) (s : S)
      → start ≤ i
      → log s ≡ up_to i
      → Ends log i (i + length phases) (run_phases_from run done i phases start s)
  unfolding run_phases_from
  ahead i start [] s h e = Ends-all log s i (i + 0) e (omega arith)
  ahead i start (phase ∷ phases) s h e = elim (Bool-cases (run_steps run phase.steps s).1) [
    | inl f ↦
        subst (Ends log i (i + suc (length phases)))
          (sym (run_phases_from_go run done i start phase phases s h f))
          (Ends-from log _ (omega arith) (omega arith) (
            ahead (i + 1) start phases (done i (run_steps run phase.steps s).0) (omega arith) (
              log-done i _
              ∙ ap (λ l. l ++ i ∷ []) (log-run_steps phase.steps s ∙ e)
              ∙ up_to_suc i)))
    | inr f ↦
        subst (Ends log i (i + suc (length phases)))
          (sym (run_phases_from_fail run done i start phase phases s h f))
          (Ends-some log (run_steps run phase.steps s).0 i (i + suc (length phases))
            (log-run_steps phase.steps s ∙ e) (omega arith))
  ]

  pub behind :
      (i start : ℕ) (phases : List ProvisionPhase) (s : S)
      → i ≤ start
      → start ≤ i + length phases
      → log s ≡ up_to start
      → Ends log start (i + length phases) (run_phases_from run done i phases start s)
  unfolding run_phases_from
  behind i start [] s h k e = Ends-all log s start (i + 0) e (omega arith)
  behind i start (phase ∷ phases) s h k e = elim (Bool-cases (ltb i start)) [
    | inl f ↦
        subst (Ends log start (i + suc (length phases)))
          (sym (run_phases_from_skip run done i start phase phases s (ground arith)))
          (Ends-from log _ (omega arith) (omega arith)
            (behind (i + 1) start phases s (ground arith) (omega arith) e))
    | inr f ↦
        Ends-from log _ (ground arith) (omega arith)
          (ahead i start (phase ∷ phases) s (ground arith) (e ∙ ap up_to (ground arith)))
  ]

  module _ (phases : List ProvisionPhase) where
    -- One attempt, begun behind the last completed phase.
    unfoldable pub attempt : S → S × Bool
    unfolding run_phases
    attempt s = run_phases run done phases (next_phase (log s)) s

    -- The first attempt and at most `retries` further ones, until one succeeds.
    unfoldable pub attempts : ℕ → S → S × Bool
    unfolding attempt
    attempts zero s = attempt s
    attempts (suc retries) s =
        let (t, ok) = attempt s in
        let rest = attempts retries t in elim ok [ true ↦ (t, true) | false ↦ rest ]

    attempt-Ends :
        (n : ℕ) (s : S)
        → n ≤ length phases
        → log s ≡ up_to n
        → Ends log n (length phases) (attempt s)
    unfolding attempt run_phases
    attempt-Ends n s h e = rw (ap next_phase e ∙ next_phase-up_to n) (
        Ends-from log _ (omega arith) (omega arith)
          (behind 0 n phases s (omega arith) (omega arith) e))

    attempts_fail :
        (retries : ℕ) (s : S)
        → (attempt s).1 ≡ false
        → attempts (suc retries) s ≡ attempts retries (attempt s).0
    unfolding attempts
    attempts_fail retries s e = ground arith

    attempts_done :
        (retries : ℕ) (s : S)
        → (attempt s).1 ≡ true
        → attempts (suc retries) s ≡ ((attempt s).0, true)
    unfolding attempts
    attempts_done retries s e = ground arith

    attempts-Ends :
        (retries n : ℕ) (s : S)
        → n ≤ length phases
        → log s ≡ up_to n
        → Ends log 0 (length phases) (attempts retries s)
    unfolding attempts
    attempts-Ends zero n s h e = Ends-from log _ (omega arith) (omega arith) (attempt-Ends n s h e)
    attempts-Ends (suc retries) n s h e =
        let (m, l, k, ends) = Ends-open log (attempt s) (attempt-Ends n s h e) in
        elim ends [
          | inl (ok, j) ↦
              subst (Ends log 0 (length phases)) (sym (attempts_done retries s ok))
                (Ends-from log _ (omega arith) j (Ends-all log (attempt s).0 m m l refl))
          | inr (ok, j) ↦
              subst (Ends log 0 (length phases)) (sym (attempts_fail retries s ok))
                (attempts-Ends retries m (attempt s).0 (omega arith) l)
        ]

    -- However the commands answer, and however often the phases are attempted again, the phases
    -- completed over all attempts are 0, 1, … in order, none twice and none left out: all of them if
    -- the last attempt succeeds, and not all of them otherwise.
    pub attempts-in_order :
        (retries : ℕ) (s : S) → log s ≡ [] → Ends log 0 (length phases) (attempts retries s)
    unfolding up_to
    attempts-in_order retries s e = attempts-Ends retries 0 s (omega arith) e
