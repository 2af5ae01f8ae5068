-- ===== src/Node/Delete/Peer.antt =====
-- The release of a node's VPN address, and the deletions that stop before it: `cleanupVPNPeer` and
-- `handleDelete` of internal/controller/ml/nodeprovision_controller.go.
use public_cloud_vm_provisio.Prelude.{
  sym, subst, String, ◌≡◌, refl, ap, ◌∙◌, ◌≢◌, ◌⊎◌, inl, inr, true, false, not, ◌&&◌, arith,
  Bool-cases, is_empty,
}
use public_cloud_vm_provisio.Vpn.NetConfig.{
  NetConfigStatus, RetryResult, done, fetch_failed, patch_failed, too_many_conflicts, release_ip,
}
use public_cloud_vm_provisio.Vpn.NetConfig.Retry.{IsAlone, release_alone}
use public_cloud_vm_provisio.Node.{World, aws, error}
use public_cloud_vm_provisio.Node.Delete.Freed.{
  IsFreed, IsReleased, freed_from, freed_ip, freed_from-IsFreed, release_allocation-IsReleased,
}
use public_cloud_vm_provisio.Node.Delete.Safety.{mark_deleting-kept, owned-after}
use public_cloud_vm_provisio.Node.Delete.{
  is_done, CleanupEnv, cleanup_vpn_peer, DeleteEnv, terminate_aws, answered_aws, halted, failed,
  delete_node, mark_deleting, after_node, finish_cleaned, clean_provider, handle_delete,
}

not_done : (r : RetryResult) → r ≢ done → is_done r ≡ false
not_done done other = absurd (other refl)
not_done fetch_failed other = refl
not_done patch_failed other = refl
not_done too_many_conflicts other = refl

module _ (env : CleanupEnv) (w : World) (listed : env.listed ≡ true) (present : env.present ≡ true)
    (reached : env.vpn_server ≡ true) where
  cleanup-release :
      (cleanup_vpn_peer env w).0.net
        ≡ (release_ip env.merge w.np.name (freed_ip w) env.attempts w.net).0
      × (cleanup_vpn_peer env w).1
        ≡ is_done (release_ip env.merge w.np.name (freed_ip w) env.attempts w.net).1
  unfolding cleanup_vpn_peer freed_ip freed_from
  cleanup-release = (rw (listed, present, reached), rw (listed, present, reached))

  -- With a NetConfig, a reachable VPN server and no other writer of the NetConfig, `cleanupVPNPeer`
  -- succeeds with exactly the node's entries gone from the status, those with its address, and that
  -- address; this is the one in the node's first entry, or else the VPN address in its own status, or
  -- else its machine's. Otherwise it fails and leaves the status as it was.
  pub cleanup_vpn_peer-releases :
      ((base modified : NetConfigStatus) → env.merge base modified base ≡ modified)
      → IsAlone env.attempts
      → ((cleanup_vpn_peer env w).1 ≡ true
          × ((ip : String) × IsFreed w.np w.net.vpn_peers ip
              × IsReleased w.np.name ip w.net (cleanup_vpn_peer env w).0.net))
        ⊎ ((cleanup_vpn_peer env w).1 ≡ false × (cleanup_vpn_peer env w).0.net ≡ w.net)
  cleanup_vpn_peer-releases law alone =
      let (net, answer) = cleanup-release in
      elim (release_alone env.merge law env.attempts alone (freed_ip w) w.np.name w.net) [
        | inl (ends, same) ↦ inl (
          answer ∙ ap is_done ends,
          (
            freed_ip w,
            unfold freed_ip in freed_from-IsFreed w.np w.net.vpn_peers,
            subst (IsReleased w.np.name (freed_ip w) w.net) (sym (net ∙ same))
                (release_allocation-IsReleased w.np.name (freed_ip w) w.net),
          ),
        )
        | inr (other, same) ↦ inr (answer ∙ not_done _ other, net ∙ same)
      ]

terminate_aws-failed :
    (env : DeleteEnv) (w : World)
    → is_empty w.np.status.instance_id ≡ false
    → env.terminate ≡ failed
    → terminate_aws env w ≡ halted w error
unfolding terminate_aws answered_aws
terminate_aws-failed env w known e =
    elim (Bool-cases (not env.user_secret && not (env.copy_read && w.copied_secret))) [
      | inl lacking ↦ rw (known, lacking, terminate_aws)
      | inr held ↦ rw (known, held, e, terminate_aws)
    ]

after_node-failed :
    (env : DeleteEnv) (w : World)
    → w.np.spec.provider ≡ aws
    → is_empty w.np.status.instance_id ≡ false
    → env.terminate ≡ failed
    → after_node env w true ≡ (w, error)
unfolding after_node clean_provider finish_cleaned
after_node-failed env w cloud known e =
    ap (λ p. finish_cleaned env (clean_provider env p w)) cloud
    ∙ ap (finish_cleaned env) (terminate_aws-failed env w known e)

delete_node-unnamed :
    (env : DeleteEnv) (w : World) → w.np.status.node_name ≡ "" → delete_node env w ≡ (w, true)
unfolding delete_node is_empty
delete_node-unnamed env w unnamed =
    let e : is_empty w.np.status.node_name ≡ true = ap is_empty unnamed in rw (e, delete_node)

mark_deleting-net : (env : DeleteEnv) (w : World) → (mark_deleting env w).net ≡ w.net
unfolding mark_deleting
mark_deleting-net env w = ground arith

-- Where `TerminateInstance` fails with another error than one of authentication, the deletion of an
-- AWS resource with an instance and without a node returns an error, and leaves the finalizer, the
-- instances and the NetConfig as they were, so that it is tried again.
pub handle_delete-retries :
    (env : DeleteEnv) (w : World)
    → w.np.finalizer ≡ true
    → w.np.status.node_name ≡ ""
    → w.np.spec.provider ≡ aws
    → is_empty w.np.status.instance_id ≡ false
    → env.terminate ≡ failed
    → (handle_delete env w).1 ≡ error
      × (handle_delete env w).0.stored.finalizer ≡ w.stored.finalizer
      × (handle_delete env w).0.instances ≡ w.instances
      × (handle_delete env w).0.net ≡ w.net
handle_delete-retries env w owned unnamed cloud known refused_it =
    let v = mark_deleting env w in
    let (kept, id, name, spec, _, instances) = mark_deleting-kept env w in
    let e : handle_delete env w ≡ (v, error) =
      owned-after env w owned
      ∙ ap (λ r. after_node env r.0 r.1) (delete_node-unnamed env v (name ∙ unnamed))
      ∙ after_node-failed env v (ap (λ s. s.provider) spec ∙ cloud) (ap is_empty id ∙ known)
          refused_it in
    (
      ap (λ r. r.1) e,
      ap (λ r. r.0.stored.finalizer) e ∙ kept,
      ap (λ r. r.0.instances) e ∙ instances,
      ap (λ r. r.0.net) e ∙ mark_deleting-net env w,
    )
