-- ===== src/Node/Reconcile/Stuck.antt =====
-- What becomes of a resource that is marked as being created and has no instance yet: the phases
-- CreatingInstance and ConfiguringVPN of `Reconcile` in
-- internal/controller/ml/nodeprovision_controller.go.
use public_cloud_vm_provisio.Prelude.{◌≡◌, refl, ap, ◌∙◌, true, false, arith, is_empty}
use public_cloud_vm_provisio.Node.{
  NodeProvision, World, Phase, requeue_short, creating_instance, configuring_vpn, save_and,
  set_phase_status, error, status_update,
}
use public_cloud_vm_provisio.Node.Aws.{AwsEnv, connect}
use public_cloud_vm_provisio.Node.Reconcile.{
  Env, fetched, reconcile, reconcile_fetched, reconcile_phase, await_instance, copy_secrets,
}

-- The phase of a launch in progress
pub data IsMarked : Phase → Type 0 where
  creating : IsMarked creating_instance
  configuring : IsMarked configuring_vpn

-- No launch is on record, and the resource is to live.
abbrev pub IsWaiting : NodeProvision → Type 0
IsWaiting np =
    IsMarked np.status.phase × np.status.instance_id ≡ "" × np.deleted ≡ false × np.finalizer ≡ true

await-stored :
    (env : Env) (w : World)
    → w.np.status.instance_id ≡ ""
    → await_instance env w ≡ (w, requeue_short)
unfolding await_instance is_empty
await-stored env w none_yet = rw none_yet

phase-stored :
    (env : Env) (w : World) {p : Phase}
    → IsMarked p
    → w.np.status.instance_id ≡ ""
    → reconcile_phase env p w ≡ (w, requeue_short)
unfolding reconcile_phase
phase-stored env w creating none_yet = await-stored env w none_yet
phase-stored env w configuring none_yet = await-stored env w none_yet

alive-phase :
    (env : Env) (w : World)
    → w.np.deleted ≡ false
    → w.np.finalizer ≡ true
    → reconcile_fetched env w ≡ reconcile_phase env w.np.status.phase (copy_secrets env w)
unfolding reconcile_fetched
alive-phase env w alive owned = ground arith

reconcile-fetched :
    (env : Env) (w : World) {np : NodeProvision}
    → env.read ≡ fetched np
    → reconcile env w ≡ reconcile_fetched env (record w { np = np })
unfolding reconcile
reconcile-fetched env w read = rw read

reconcile-stored :
    (env : Env) (w : World)
    → env.read ≡ fetched w.stored
    → IsWaiting w.stored
    → (reconcile env w).0.stored ≡ w.stored × (reconcile env w).1 ≡ requeue_short
unfolding copy_secrets
reconcile-stored env w read (marked, none_yet, alive, owned) =
    let u = record w { np = w.stored } in
    let e =
      reconcile-fetched env w read
      ∙ alive-phase env u alive owned
      ∙ phase-stored env (copy_secrets env u) marked none_yet in
    (ap (λ r. r.0.stored) e, ap (λ r. r.1) e)

-- A run of the controller on the resource: reconciles that read the current object, and between
-- them changes of everything else.
pub data Runs : World → World → Type 1 where
  end : {w : World} → Runs w w
  reconciled :
      {w v : World} (env : Env)
      → env.read ≡ fetched w.stored
      → Runs (reconcile env w).0 v
      → Runs w v
  others : {w u v : World} → u.stored ≡ w.stored → Runs u v → Runs w v

-- However often a resource is reconciled whose stored phase is CreatingInstance or ConfiguringVPN,
-- without an instance on record, not deleted and with the finalizer: the stored object stays as it
-- is, as long as nobody else writes to it.
pub Runs-stored : {w v : World} → Runs w v → IsWaiting w.stored → v.stored ≡ w.stored
Runs-stored end waiting = refl
Runs-stored {w = w} (reconciled env read rest) waiting =
    let (kept, _) = reconcile-stored env w read waiting in Runs-stored rest (rw kept waiting) ∙ kept
Runs-stored (others same rest) waiting = Runs-stored rest (rw same waiting) ∙ same

-- AWS provisioning of a resource without an instance, not deleted and with the finalizer, that
-- reaches the VPN server step, with its phase saved, and gets no connection: it returns an error,
-- and from then on the stored phase stays ConfiguringVPN, however often the resource is reconciled,
-- as long as nobody else writes to it.
pub connect-stuck :
    (env : AwsEnv) (w : World) {v : World}
    → env.saved_vpn ≡ true
    → env.vpn_server ≡ false
    → w.np.status.instance_id ≡ ""
    → w.stored.deleted ≡ false
    → w.stored.finalizer ≡ true
    → Runs (connect env w).0 v
    → (connect env w).1 ≡ error × v.stored.status.phase ≡ configuring_vpn
unfolding connect save_and set_phase_status
connect-stuck env w saved refused none_yet alive owned runs =
    let v = set_phase_status env.now configuring_vpn "Configuring VPN client" 15 w in
    let e : connect env w ≡ (status_update true v, error) = ground arith in
    let waiting : IsWaiting (connect env w).0.stored = rw e (configuring, none_yet, alive, owned) in
    (
      ap (λ r. r.1) e,
      ap (λ np. np.status.phase) (Runs-stored runs waiting) ∙ ap (λ r. r.0.stored.status.phase) e,
    )
