-- ===== src/Node/Delete/Safety.antt =====
-- What a deletion leaves behind: `handleDelete` of
-- internal/controller/ml/nodeprovision_controller.go.
use public_cloud_vm_provisio.Prelude.{
  String, ◌≡◌, refl, sym, ap, ◌∙◌, ◌⊎◌, Bool, true, false, List, arith, any, subst,
}
use public_cloud_vm_provisio.Node.{World, Result, Provider}
use public_cloud_vm_provisio.Node.Delete.Cloud.{
  IsGone, IsTerminated, Hands, delete_node-IsGone, delete_node-kept, clean_provider-Hands,
  finish_delete-instances,
}
use public_cloud_vm_provisio.Node.Delete.{
  mark_deleting, finish_cleaned, after_node, DeleteEnv, Cleaned, cleaned, halted, has_name,
  delete_node, clean_provider, handle_delete,
}

pub mark_deleting-kept :
    (env : DeleteEnv) (w : World)
    → (mark_deleting env w).stored.finalizer ≡ w.stored.finalizer
      × (mark_deleting env w).np.status.instance_id ≡ w.np.status.instance_id
      × (mark_deleting env w).np.status.node_name ≡ w.np.status.node_name
      × (mark_deleting env w).np.spec ≡ w.np.spec
      × (mark_deleting env w).nodes ≡ w.nodes
      × (mark_deleting env w).instances ≡ w.instances
unfolding mark_deleting
mark_deleting-kept env w = ground arith

-- What the deletion has reached once the object has lost its finalizer
abbrev IsDone : World → World × Result → Type 0
IsDone w r =
    r.0.stored.finalizer ≡ false
    → IsTerminated w.np.spec.provider w.np.status.instance_id r.0.instances

finish_cleaned-IsDone :
    (env : DeleteEnv) (w : World) (c : Cleaned)
    → w.stored.finalizer ≡ true
    → Hands w w.np.spec.provider c
    → IsDone w (finish_cleaned env c)
unfolding finish_cleaned
finish_cleaned-IsDone env w (cleaned t) owned (same, ends) dropped =
    rw (finish_delete-instances env t) ends
finish_cleaned-IsDone env w (halted t r) owned (same, _) dropped = cc

after_node-IsDone :
    (env : DeleteEnv) (w : World) (gone : Bool)
    → w.stored.finalizer ≡ true
    → (after_node env w gone).0.stored.finalizer ≡ false
    → gone ≡ true
      × IsTerminated w.np.spec.provider w.np.status.instance_id (after_node env w gone).0.instances
unfolding after_node
after_node-IsDone env w false owned dropped = cc
after_node-IsDone env w true owned dropped = (
  refl,
  finish_cleaned-IsDone env w (clean_provider env w.np.spec.provider w) owned
      (clean_provider-Hands env w.np.spec.provider w) dropped,
)

pub owned-after :
    (env : DeleteEnv) (w : World)
    → w.np.finalizer ≡ true
    → handle_delete env w
      ≡ (let (v, gone) = delete_node env (mark_deleting env w) in after_node env v gone)
unfolding handle_delete
owned-after env w owned = ground arith

IsGone-moved :
    (v w : World)
    → v.np.status.node_name ≡ w.np.status.node_name
    → v.nodes ≡ w.nodes
    → IsGone v
    → IsGone w
IsGone-moved v w name nodes gone =
    subst (λ n. n ≡ "" ⊎ any (has_name n) w.nodes ≡ false) name
      (subst (λ ns. v.np.status.node_name ≡ "" ⊎ any (has_name v.np.status.node_name) ns ≡ false)
        nodes gone)

IsTerminated-moved :
    {p q : Provider} {i j : String} {instances others : List String}
    → p ≡ q
    → i ≡ j
    → instances ≡ others
    → IsTerminated p i instances
    → IsTerminated q j others
IsTerminated-moved {q = q} {i = i} {j = j} {instances = instances} provider id same ends =
    subst (IsTerminated q j) same (
      subst (λ k. IsTerminated q k instances) id
        (subst (λ r. IsTerminated r i instances) provider ends))

-- Where a deletion, run on a copy with the finalizer, has taken the stored object's finalizer away,
-- the status names no node or one that is not in the cluster and, with AWS and GCP, the status names
-- no instance or one that is not in the cloud, where one whose termination is accepted counts as gone.
pub handle_delete-safe :
    (env : DeleteEnv) (w : World)
    → w.np.finalizer ≡ true
    → w.stored.finalizer ≡ true
    → (handle_delete env w).0.stored.finalizer ≡ false
    → IsGone w
      × IsTerminated w.np.spec.provider w.np.status.instance_id (handle_delete env w).0.instances
handle_delete-safe env w owned held dropped =
    let v = mark_deleting env w in
    let (u, gone) = delete_node env v in
    let e = owned-after env w owned in
    let (kept, id, name, spec, nodes, _) = mark_deleting-kept env w in
    let (same, np, _) = delete_node-kept env v in
    let (confirmed, ends) =
      after_node-IsDone env u gone (ap (λ o. o.finalizer) same ∙ kept ∙ held)
        (sym (ap (λ r. r.0.stored.finalizer) e) ∙ dropped) in
    let provider = ap (λ o. o.spec.provider) np ∙ ap (λ o. o.provider) spec in
    let known = ap (λ o. o.status.instance_id) np ∙ id in
    (
      IsGone-moved v w name nodes (delete_node-IsGone env v confirmed),
      IsTerminated-moved provider known (sym (ap (λ r. r.0.instances) e)) ends,
    )
