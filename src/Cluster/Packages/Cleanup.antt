-- ===== src/Cluster/Packages/Cleanup.antt =====
-- What `deleteClusterResources` leaves.
use public_cloud_vm_provisio.Prelude.{
  ◌≡◌, refl, sym, ap, ◌∙◌, inl, inr, Bool, true, false, ◌||◌, List, [], ◌∷◌, arith, Bool-cases,
  drop_if, ◌⊎◌, Option, none, some, ◌==◌, ◌&&◌, Drops, Decides, drop_if-Drops, subst, eq-cases, ◌≢◌,
  String,
}
use public_cloud_vm_provisio.Cluster.{
  nephio_repository, Resource, RemoteCluster, Kind, porch_repository, token, package_variant,
}
use public_cloud_vm_provisio.Cluster.Packages.{
  same_kind, DeleteListEnv, ResourcesEnv, delete_objects, delete_list, delete_cluster_resources,
  is_listed, and_then,
}

-- The kinds of which the objects are deleted
pub data IsDeleted : Kind → Type 0 where
  repositories : IsDeleted porch_repository
  tokens : IsDeleted token
  variants : IsDeleted package_variant

-- The object belongs to the cluster: it lies in its namespace, and its label is the cluster's name.
pub record IsOwned (c : RemoteCluster) (o : Resource) : Type 0 where
  pub kind : IsDeleted o.kind
  pub here : o.namespace ≡ c.namespace
  pub labelled : o.label ≡ some c.cluster_name

-- Whether one of the three lists has it.
abbrev is_owned : RemoteCluster → Resource → Bool
is_owned c o =
    (is_listed c porch_repository o || is_listed c token o) || is_listed c package_variant o

delete_objects-all :
    (env : DeleteListEnv) (p : Resource → Bool) (store : List Resource)
    → (delete_objects env p store).1 ≡ true
    → (delete_objects env p store).0 ≡ drop_if p store
unfolding delete_objects drop_if
delete_objects-all env p [] h = refl
delete_objects-all env p (o ∷ store) h = ground (arith, delete_objects-all env p store)

drop_if-drop_if :
    (p q : Resource → Bool) (store : List Resource)
    → drop_if q (drop_if p store) ≡ drop_if (λ o. p o || q o) store
unfolding drop_if
drop_if-drop_if p q [] = refl
drop_if-drop_if p q (o ∷ store) = ground (arith, drop_if-drop_if p q store)

delete_list-all :
    (env : DeleteListEnv) (c : RemoteCluster) (kind : Kind) (store : List Resource)
    → (delete_list env c kind store).1 ≡ true
    → (delete_list env c kind store).0 ≡ drop_if (is_listed c kind) store
unfolding delete_list
delete_list-all env c kind store h = elim (Bool-cases env.listed) [
  | inl e ↦ rw (delete_list, e) (delete_objects-all env (is_listed c kind) store (ground arith))
  | inr e ↦ ground arith
]

and_then-true :
    (r : List Resource × Bool) (next : List Resource → List Resource × Bool)
    → (and_then r next).1 ≡ true
    → (r.1 ≡ true) × ((and_then r next) ≡ next r.0)
unfolding and_then
and_then-true (store, true) next h = (refl, refl)
and_then-true (store, false) next h = ground arith

delete_cluster_resources-drop_if :
    (env : ResourcesEnv) (c : RemoteCluster) (store : List Resource)
    → (delete_cluster_resources env c store).1 ≡ true
    → (delete_cluster_resources env c store).0 ≡ drop_if (is_owned c) store
unfolding delete_cluster_resources
delete_cluster_resources-drop_if env c store h =
    let first = delete_list env.repositories c porch_repository store in
    let second = and_then first (delete_list env.tokens c token) in
    let (a, b) = and_then-true second (delete_list env.variants c package_variant) h in
    let (d, e) = and_then-true first (delete_list env.tokens c token) a in
    let x : first.0 ≡ drop_if (is_listed c porch_repository) store =
      delete_list-all env.repositories c porch_repository store d in
    let y : second.0 ≡ drop_if (is_listed c token) first.0 =
      ap (λ r. r.0) e ∙ delete_list-all env.tokens c token first.0 (ap (λ r. r.1) (sym e) ∙ a) in
    let z : (delete_cluster_resources env c store).0
        ≡ drop_if (is_listed c package_variant) second.0 =
      ap (λ r. r.0) b
      ∙ delete_list-all env.variants c package_variant second.0 (ap (λ r. r.1) (sym b) ∙ h) in
    z
    ∙ ap (drop_if (is_listed c package_variant)) (y ∙ ap (drop_if (is_listed c token)) x)
    ∙ ap (drop_if (is_listed c package_variant))
        (drop_if-drop_if (is_listed c porch_repository) (is_listed c token) store)
    ∙ drop_if-drop_if (λ o. is_listed c porch_repository o || is_listed c token o)
        (is_listed c package_variant) store

abbrev IsLabelled : RemoteCluster → Resource → Type 0
IsLabelled c o = (o.namespace ≡ c.namespace) × (o.label ≡ some c.cluster_name)

abbrev is_labelled : RemoteCluster → Resource → Bool
is_labelled c o =
    o.namespace == c.namespace
    && elim o.label [ none ↦ false | some label ↦ label == c.cluster_name ]

label-cases :
    (name : String) (l : Option String)
    → ((l ≡ some name) × (elim l [ none ↦ false | some label ↦ label == name ] ≡ true))
      ⊎ ((l ≢ some name) × (elim l [ none ↦ false | some label ↦ label == name ] ≡ false))
label-cases name none = inr (λ e. cc, refl)
label-cases name (some label) = elim (eq-cases label name) [
  | inl (same, e) ↦ inl (ap some same, e)
  | inr (other, e) ↦ inr (λ f. other cc, e)
]

is_labelled-IsLabelled : (c : RemoteCluster) → Decides (is_labelled c) (IsLabelled c)
is_labelled-IsLabelled c o = elim (eq-cases o.namespace c.namespace) [
  | inr (other, e) ↦ inr (rw e refl, λ h. other h.0)
  | inl (same, e) ↦ elim (label-cases c.cluster_name o.label) [
    | inl (label, f) ↦ inl (rw (e, f) refl, (same, label))
    | inr (other, f) ↦ inr (rw (e, f) refl, λ h. other h.1)
  ]
]

-- The three lists together, `b` being what they ask of the label and the namespace.
abbrev lists : Kind → Bool → Bool
lists k b =
    (same_kind k porch_repository && b || same_kind k token && b)
    || same_kind k package_variant && b

nephio_kept : ¬ (IsDeleted nephio_repository)
nephio_kept h = elim h [ ]

lists-cases :
    (k : Kind) (b : Bool)
    → (IsDeleted k × (lists k b ≡ b)) ⊎ ((¬ (IsDeleted k)) × (lists k b ≡ false))
lists-cases porch_repository b = inl (repositories, ground arith)
lists-cases token b = inl (tokens, ground arith)
lists-cases package_variant b = inl (variants, ground arith)
lists-cases nephio_repository b = inr (λ d. nephio_kept d, refl)

is_owned-IsOwned : (c : RemoteCluster) → Decides (is_owned c) (IsOwned c)
unfolding is_listed
is_owned-IsOwned c o = elim (lists-cases o.kind (is_labelled c o)) [
  | inr (other, e) ↦ inr (e, λ h. other h.kind)
  | inl (deleted, e) ↦ elim (is_labelled-IsLabelled c o) [
    | inl (f, (here, label)) ↦ inl (e ∙ f, record { kind = deleted; here = here; labelled = label })
    | inr (f, other) ↦ inr (e ∙ f, λ h. other (h.here, h.labelled))
  ]
]

-- Where the deletion of a cluster's resources on the management cluster succeeds, exactly these
-- objects are gone: the porch repositories, the tokens and the PackageVariants that lie in the
-- cluster's own namespace and have its name as their label. Every other object is left in its place,
-- so also a PackageVariant in another namespace.
pub delete_cluster_resources-exact :
    (env : ResourcesEnv) (c : RemoteCluster) (store : List Resource)
    → (delete_cluster_resources env c store).1 ≡ true
    → Drops (IsOwned c) store (delete_cluster_resources env c store).0
delete_cluster_resources-exact env c store h =
    subst (Drops (IsOwned c) store) (sym (delete_cluster_resources-drop_if env c store h))
      (drop_if-Drops (is_owned c) (IsOwned c) (is_owned-IsOwned c) store)
