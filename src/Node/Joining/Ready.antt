-- ===== src/Node/Joining/Ready.antt =====
-- When a node counts as joined, and what it is marked with: `reconcileJoining` of
-- internal/controller/ml/nodeprovision_controller.go.
use public_cloud_vm_provisio.Prelude.{
  String, ◌≡◌, refl, sym, ap, ◌∙◌, ◌≢◌, ◌⊎◌, inl, inr, Bool, true, false, Option, none, some, List,
  [], ◌∷◌, arith, ◌==◌, eq_iff, if◌then◌else◌, Bool-cases, any, find_first,
}
use public_cloud_vm_provisio.Node.{error, World, Result, KubeNode, ready}
use public_cloud_vm_provisio.Node.Joining.{
  JoinEnv, has_address, find_node, set_label, stamp, replace_node, wait_for_node, joined,
  reconcile_joining,
}

module _ {ℓ} {A : Type ℓ} (p : A → Bool) where
  find_first-cases :
      (xs : List A)
      → (find_first p xs ≡ none × any p xs ≡ false)
        ⊎ ((x : A) × find_first p xs ≡ some x × p x ≡ true)
  unfolding find_first
  find_first-cases [] = inl (refl, refl)
  find_first-cases (x ∷ xs) = elim (Bool-cases (p x)) [
    | inl yes_it ↦ inr (x, rw (yes_it, find_first), yes_it)
    | inr no_it ↦ elim (find_first-cases xs) [
      | inl (none_at, none_of) ↦ inl (rw (no_it, find_first) none_at, rw no_it none_of)
      | inr (y, found, holds) ↦ inr (y, rw (no_it, find_first) found, holds)
    ]
  ]

-- The value of a label
unfoldable pub get_label : String → List (String × String) → Option String
get_label key [] = none
get_label key ((k, v) ∷ labels) = if k == key then some v else get_label key labels

pub get_label-set_label :
    (key value : String) (labels : List (String × String))
    → get_label key (set_label key value labels) ≡ some value
unfolding get_label set_label
get_label-set_label key value labels = rw ((eq_iff key key).1 refl)

wait_for_node-phase :
    (env : JoinEnv) (w : World)
    → (wait_for_node env w).0.stored.status.phase ≢ ready
      ⊎ (wait_for_node env w).0.stored ≡ w.stored
unfolding wait_for_node
wait_for_node-phase env w = ground arith

joined-name :
    (env : JoinEnv) (n : KubeNode) (w : World)
    → (joined env n w).0.stored ≡ w.stored ⊎ (joined env n w).0.stored.status.node_name ≡ n.name
unfolding joined
joined-name env n w = ground arith

joined-nodes : (env : JoinEnv) (n : KubeNode) (w : World) → (joined env n w).0.nodes ≡ w.nodes
unfolding joined
joined-nodes env n w = ground arith

-- How a run of `reconcileJoining` that is to end in `ready` has found its node
abbrev pub Finds : JoinEnv → World → World × Result → Type 0
Finds env w r =
    (n : KubeNode) × find_node w.np.status.ip_address w.nodes ≡ some n
    × any (λ a. a == w.np.status.ip_address) n.addresses ≡ true
    × (stamp env.gpu_hardware w.np n).finalizer ≡ true
    × r.0.stored.status.node_name ≡ n.name
    × r.0.nodes ≡ replace_node (stamp env.gpu_hardware w.np n) w.nodes

module _ (env : JoinEnv) (w : World) where
  joining-unlisted : env.listed ≡ false → reconcile_joining env w ≡ (w, error)
  unfolding reconcile_joining
  joining-unlisted e = rw e

  joining-missing :
      env.listed ≡ true
      → find_node w.np.status.ip_address w.nodes ≡ none
      → reconcile_joining env w ≡ wait_for_node env w
  unfolding reconcile_joining
  joining-missing listed e = rw (listed, e)

  joining-found :
      {n : KubeNode}
      → env.listed ≡ true
      → find_node w.np.status.ip_address w.nodes ≡ some n
      → (reconcile_joining env w ≡ (w, error))
        ⊎ (reconcile_joining env w
            ≡ joined env
                (stamp env.gpu_hardware w.np n)
                (record w { nodes = replace_node (stamp env.gpu_hardware w.np n) w.nodes }))
  unfolding reconcile_joining
  joining-found listed e = elim (Bool-cases env.patched) [
    | inl yes_it ↦ inr (rw (listed, e, yes_it))
    | inr no_it ↦ inl (rw (listed, e, no_it))
  ]

  stamped-name : (n : KubeNode) → (stamp env.gpu_hardware w.np n).name ≡ n.name
  unfolding stamp
  stamped-name n = refl

  stamped-finalizer : (n : KubeNode) → (stamp env.gpu_hardware w.np n).finalizer ≡ true
  unfolding stamp
  stamped-finalizer n = refl

  found-Finds :
      {n : KubeNode}
      → find_node w.np.status.ip_address w.nodes ≡ some n
      → any (λ a. a == w.np.status.ip_address) n.addresses ≡ true
      → reconcile_joining env w
        ≡ joined env
            (stamp env.gpu_hardware w.np n)
            (record w { nodes = replace_node (stamp env.gpu_hardware w.np n) w.nodes })
      → w.stored.status.phase ≢ ready
      → (reconcile_joining env w).0.stored.status.phase ≡ ready
      → Finds env w (reconcile_joining env w)
  found-Finds {n = n} found here e before after =
      let node = stamp env.gpu_hardware w.np n in
      let v = record w { nodes = replace_node node w.nodes } in
      (
        n,
        found,
        here,
        stamped-finalizer n,
        elim (joined-name env node v) [
          | inl same ↦ absurd (
              before (
                sym (ap (λ o. o.status.phase) same)
                ∙ sym (ap (λ r. r.0.stored.status.phase) e)
                ∙ after))
          | inr named ↦ ap (λ r. r.0.stored.status.node_name) e ∙ named ∙ stamped-name n
        ],
        ap (λ r. r.0.nodes) e ∙ joined-nodes env node v,
      )

  -- Where `reconcileJoining` turns a resource into a ready one, the cluster has a node with the
  -- resource's VPN address, the stored status names it, and it is marked as this resource's, with the
  -- controller's finalizer.
  pub reconcile_joining-ready :
      w.stored.status.phase ≢ ready
      → (reconcile_joining env w).0.stored.status.phase ≡ ready
      → Finds env w (reconcile_joining env w)
  unfolding find_node has_address
  reconcile_joining-ready before after = elim (Bool-cases env.listed) [
    | inr no_it ↦
        absurd (before (sym (ap (λ r. r.0.stored.status.phase) (joining-unlisted no_it)) ∙ after))
    | inl listed ↦ elim (find_first-cases (has_address w.np.status.ip_address) w.nodes) [
      | inl (missing, _) ↦
          let e =
            sym (ap (λ r. r.0.stored.status.phase) (joining-missing listed missing)) ∙ after in
          elim (wait_for_node-phase env w) [
            | inl other_phase ↦ absurd (other_phase e)
            | inr same ↦ absurd (before (sym (ap (λ o. o.status.phase) same) ∙ e))
          ]
      | inr (n, found, here) ↦ elim (joining-found listed found) [
        | inl failing ↦ absurd (before (sym (ap (λ r. r.0.stored.status.phase) failing) ∙ after))
        | inr e ↦ found-Finds found here e before after
      ]
    ]
  ]
