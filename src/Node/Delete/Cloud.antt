-- ===== src/Node/Delete/Cloud.antt =====
-- The parts of a deletion: the node, the instance and the VPN peer; `handleDelete` of
-- internal/controller/ml/nodeprovision_controller.go.
use public_cloud_vm_provisio.Prelude.{
  is_empty-cases, String, ◌≡◌, refl, ◌∙◌, ◌⊎◌, inl, inr, Bool, true, false, not, ◌&&◌, List, arith,
  ◌==◌, if◌then◌else◌, any, drop_if, any-drop_if_self,
}
use public_cloud_vm_provisio.Node.{World, Provider, aws, gcp, azure, on_prem, unknown, error}
use public_cloud_vm_provisio.Node.Delete.{
  answered_update, ApiAnswer, taken, not_found, refused, answered_aws, answered_gcp, CleanupEnv,
  remove_peer, DeleteEnv, Cleaned, cleaned, halted, Termination, terminated, auth_failed, failed,
  has_name, delete_node, clear_instance, terminate_aws, terminate_gcp, clean_provider,
  cleanup_vpn_peer, finish_delete, ApiAnswer, taken, not_found, refused,
}

-- The node is not in the cluster.
abbrev pub IsGone : World → Type 0
IsGone w = w.np.status.node_name ≡ "" ⊎ any (has_name w.np.status.node_name) w.nodes ≡ false

-- The instance on record is not in the cloud, or its termination is accepted; the other providers have
-- none.
abbrev pub IsTerminated : Provider → String → List String → Type 0
IsTerminated aws id instances = id ≡ "" ⊎ any (λ i. i == id) instances ≡ false
IsTerminated gcp id instances = id ≡ "" ⊎ any (λ i. i == id) instances ≡ false
IsTerminated _ id instances = Unit

pub delete_node-IsGone : (env : DeleteEnv) (w : World) → (delete_node env w).1 ≡ true → IsGone w
unfolding delete_node
delete_node-IsGone env w gone = elim (is_empty-cases w.np.status.node_name) [
  | inl (unnamed, e) ↦ inl unnamed
  | inr (named, e) ↦ inr (ground arith)
]

pub delete_node-kept :
    (env : DeleteEnv) (w : World)
    → (delete_node env w).0.stored ≡ w.stored
      × (delete_node env w).0.np ≡ w.np
      × (delete_node env w).0.instances ≡ w.instances
unfolding delete_node
delete_node-kept env w = ground arith

clear_instance-kept :
    (env : DeleteEnv) (w : World)
    → (clear_instance env w).instances ≡ drop_if (λ i. i == w.np.status.instance_id) w.instances
      × (clear_instance env w).stored.finalizer ≡ w.stored.finalizer
unfolding clear_instance
clear_instance-kept env w = ground arith

clear_instance-gone :
    (env : DeleteEnv) (w : World)
    → any (λ i. i == w.np.status.instance_id) (clear_instance env w).instances ≡ false
clear_instance-gone env w =
    rw (clear_instance-kept env w).0
      (any-drop_if_self (λ i. i == w.np.status.instance_id) w.instances)

-- What an answered or a refused termination comes to
abbrev Settles : DeleteEnv → World → Cleaned → Type 0
Settles env w c = c ≡ cleaned (clear_instance env w) ⊎ c ≡ halted w error

-- What becomes of the instance
abbrev Ends : DeleteEnv → World → Cleaned → Type 0
Ends env w c = (w.np.status.instance_id ≡ "" × c ≡ cleaned w) ⊎ Settles env w c

guard-Settles :
    (env : DeleteEnv) (w : World) (b : Bool) {c : Cleaned}
    → Settles env w c
    → Settles env w (if b then halted w error else c)
guard-Settles env w true s = inr refl
guard-Settles env w false s = s

retry-Settles :
    (env : DeleteEnv) (w : World) (b : Bool)
    → Settles env w (if b then cleaned (clear_instance env w) else halted w error)
retry-Settles env w true = inl refl
retry-Settles env w false = inr refl

answered_aws-Settles :
    (env : DeleteEnv) (w : World) (t : Termination) → Settles env w (answered_aws env w t)
unfolding answered_aws
answered_aws-Settles env w terminated = inl refl
answered_aws-Settles env w auth_failed = retry-Settles env w env.retried
answered_aws-Settles env w failed = inr refl

answered_gcp-Settles :
    (env : DeleteEnv) (w : World) (t : Termination) → Settles env w (answered_gcp env w t)
unfolding answered_gcp
answered_gcp-Settles env w terminated = inl refl
answered_gcp-Settles env w auth_failed = inr refl
answered_gcp-Settles env w failed = inr refl

no_secret : DeleteEnv → World → Bool
no_secret env w = not env.user_secret && not (env.copy_read && w.copied_secret)

terminate_aws-Ends : (env : DeleteEnv) (w : World) → Ends env w (terminate_aws env w)
unfolding terminate_aws no_secret
terminate_aws-Ends env w = elim (is_empty-cases w.np.status.instance_id) [
  | inl (unset, e) ↦ rw e (inl (unset, refl))
  | inr (known, e) ↦
      rw e (inr (guard-Settles env w (no_secret env w) (answered_aws-Settles env w env.terminate)))
]

terminate_gcp-Ends : (env : DeleteEnv) (w : World) → Ends env w (terminate_gcp env w)
unfolding terminate_gcp no_secret
terminate_gcp-Ends env w = elim (is_empty-cases w.np.status.instance_id) [
  | inl (unset, e) ↦ rw e (inl (unset, refl))
  | inr (known, e) ↦
      rw e (inr (guard-Settles env w (no_secret env w) (answered_gcp-Settles env w env.terminate)))
]

-- What is handed on to the rest of the deletion, and what an early return leaves
abbrev pub Hands : World → Provider → Cleaned → Type 0
Hands w p (cleaned t) =
    t.stored.finalizer ≡ w.stored.finalizer × IsTerminated p w.np.status.instance_id t.instances
Hands w p (halted t r) = t ≡ w × r ≡ error

aws-Hands : (env : DeleteEnv) (w : World) → Hands w aws (terminate_aws env w)
aws-Hands env w = elim (terminate_aws-Ends env w) [
  | inl (unset, e) ↦ rw e (refl, inl unset)
  | inr (inl e) ↦ rw e ((clear_instance-kept env w).1, inr (clear_instance-gone env w))
  | inr (inr e) ↦ rw e (refl, refl)
]

gcp-Hands : (env : DeleteEnv) (w : World) → Hands w gcp (terminate_gcp env w)
gcp-Hands env w = elim (terminate_gcp-Ends env w) [
  | inl (unset, e) ↦ rw e (refl, inl unset)
  | inr (inl e) ↦ rw e ((clear_instance-kept env w).1, inr (clear_instance-gone env w))
  | inr (inr e) ↦ rw e (refl, refl)
]

pub clean_provider-Hands :
    (env : DeleteEnv) (p : Provider) (w : World) → Hands w p (clean_provider env p w)
unfolding clean_provider
clean_provider-Hands env aws w = aws-Hands env w
clean_provider-Hands env gcp w = gcp-Hands env w
clean_provider-Hands env azure w = (refl, tt)
clean_provider-Hands env on_prem w = (refl, tt)
clean_provider-Hands env (unknown name) w = (refl, tt)

cleanup_vpn_peer-instances :
    (env : CleanupEnv) (w : World) → (cleanup_vpn_peer env w).0.instances ≡ w.instances
unfolding cleanup_vpn_peer remove_peer
cleanup_vpn_peer-instances env w = ground arith

answered_update-instances :
    (a : ApiAnswer) (w : World) → (answered_update a w).0.instances ≡ w.instances
unfolding answered_update
answered_update-instances taken w = refl
answered_update-instances not_found w = refl
answered_update-instances refused w = refl

pub finish_delete-instances :
    (env : DeleteEnv) (w : World) → (finish_delete env w).0.instances ≡ w.instances
unfolding finish_delete
finish_delete-instances env w =
    answered_update-instances env.updated _ ∙ cleanup_vpn_peer-instances env.cleanup w
