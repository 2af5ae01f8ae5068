-- ===== src/Cluster/Packages/Repo.antt =====
-- What `createClusterRepo` leaves.
use public_cloud_vm_provisio.Prelude.{
  ◌≡◌, refl, sym, ap, ◌∙◌, ◌⊎◌, inl, inr, Bool, true, false, List, [], ◌∷◌, ◌++◌, arith, eq_iff,
  Bool-cases, any, any-append,
}
use public_cloud_vm_provisio.Cluster.{
  porch_repository, nephio_repository, token, package_variant, Resource, RemoteCluster, Kind,
}
use public_cloud_vm_provisio.Cluster.Packages.{
  EnsureEnv, RepoEnv, ensure, and_then, has_key, same_kind, porch_object, nephio_object,
  token_object, create_cluster_repo,
}

-- An object with the key of `o` is in the store.
abbrev pub has_object : Resource → List Resource → Bool
has_object o store = any (has_key o.kind o.namespace o.name) store

-- The four objects of a cluster with git integration.
pub record HasRepo (c : RemoteCluster) (store : List Resource) : Type 0 where
  pub porch : has_object (porch_object c) store ≡ true
  pub nephio : has_object (nephio_object c) store ≡ true
  pub porch_token : has_object (token_object "-access-token-porch" c) store ≡ true
  pub nephio_token : has_object (token_object "-access-token-configsync" c) store ≡ true

same_kind_self : (k : Kind) → same_kind k k ≡ true
same_kind_self porch_repository = refl
same_kind_self nephio_repository = refl
same_kind_self token = refl
same_kind_self package_variant = refl

ensure-cases :
    (env : EnsureEnv) (o : Resource) (store : List Resource)
    → ((ensure env o store).1 ≡ false)
      ⊎ ((ensure env o store ≡ (store, true)) × (has_object o store ≡ true))
      ⊎ (ensure env o store ≡ (store ++ o ∷ [], true))
unfolding ensure
ensure-cases env o store = elim (Bool-cases env.read) [
  | inr e ↦ inl (rw (ensure, e) refl)
  | inl e ↦ elim (Bool-cases (has_object o store)) [
    | inl f ↦ inr (inl (rw (ensure, e, f) refl, f))
    | inr f ↦ elim (Bool-cases env.created) [
      | inl g ↦ inr (inr (rw (ensure, e, f, g) refl))
      | inr g ↦ inl (rw (ensure, e, f, g) refl)
    ]
  ]
]

-- An object that is ensured is there, and the others stay.
ensure-has :
    (env : EnsureEnv) (o : Resource) (store : List Resource)
    → (ensure env o store).1 ≡ true
    → has_object o (ensure env o store).0 ≡ true
ensure-has env o store h = elim (ensure-cases env o store) [
  | inl e ↦ ground arith
  | inr e ↦ elim e [
    | inl (f, g) ↦ rw f g
    | inr f ↦ rw f (
        any-append (has_key o.kind o.namespace o.name) store (o ∷ [])
        ∙ ground
            (arith, same_kind_self o.kind, eq_iff o.namespace o.namespace, eq_iff o.name o.name))
  ]
]

ensure-keeps :
    (env : EnsureEnv) (o other : Resource) (store : List Resource)
    → (ensure env o store).1 ≡ true
    → has_object other store ≡ true
    → has_object other (ensure env o store).0 ≡ true
ensure-keeps env o other store h k = elim (ensure-cases env o store) [
  | inl e ↦ ground arith
  | inr e ↦ elim e [
    | inl (f, g) ↦ rw f k
    | inr f ↦
        rw f
          (any-append (has_key other.kind other.namespace other.name) store (o ∷ []) ∙ ground arith)
  ]
]

and_then-true :
    (r : List Resource × Bool) (next : List Resource → List Resource × Bool)
    → (and_then r next).1 ≡ true
    → (r.1 ≡ true) × (and_then r next ≡ next r.0)
unfolding and_then
and_then-true (store, true) next h = (refl, refl)
and_then-true (store, false) next h = ground arith

module _ (r : List Resource × Bool) (env : EnsureEnv) (o : Resource)
    (h : (and_then r (ensure env o)).1 ≡ true) where
  before : r.1 ≡ true
  before = (and_then-true r (ensure env o) h).0

  then-has : has_object o (and_then r (ensure env o)).0 ≡ true
  then-has =
      let (a, e) = and_then-true r (ensure env o) h in
      rw e (ensure-has env o r.0 (ap (λ x. x.1) (sym e) ∙ h))

  then-keeps :
      (other : Resource)
      → has_object other r.0 ≡ true
      → has_object other (and_then r (ensure env o)).0 ≡ true
  then-keeps other k =
      let (a, e) = and_then-true r (ensure env o) h in
      rw e (ensure-keeps env o other r.0 (ap (λ x. x.1) (sym e) ∙ h) k)

-- Where `createClusterRepo` succeeds for a cluster with git integration, its four objects are there.
pub create_cluster_repo-HasRepo :
    (env : RepoEnv) (c : RemoteCluster) (store : List Resource)
    → c.git_enabled ≡ true
    → (create_cluster_repo env c store).1 ≡ true
    → HasRepo c (create_cluster_repo env c store).0
unfolding create_cluster_repo
create_cluster_repo-HasRepo env c store g h =
    let o1 = porch_object c in
    let o2 = nephio_object c in
    let o3 = token_object "-access-token-porch" c in
    let o4 = token_object "-access-token-configsync" c in
    let r1 = ensure env.porch o1 store in
    let r2 = and_then r1 (ensure env.nephio o2) in
    let r3 = and_then r2 (ensure env.porch_token o3) in
    let r4 = and_then r3 (ensure env.nephio_token o4) in
    let eq : create_cluster_repo env c store ≡ r4 = rw (create_cluster_repo, g) refl in
    let h4 : r4.1 ≡ true = ap (λ r. r.1) (sym eq) ∙ h in
    let h3 = before r3 env.nephio_token o4 h4 in
    let h2 = before r2 env.porch_token o3 h3 in
    let h1 = before r1 env.nephio o2 h2 in
    let last = then-keeps r3 env.nephio_token o4 h4 in
    let third = then-keeps r2 env.porch_token o3 h3 in
    rw eq (record {
      porch =
          last o1 (third o1 (then-keeps r1 env.nephio o2 h2 o1 (ensure-has env.porch o1 store h1)));
      nephio = last o2 (third o2 (then-has r1 env.nephio o2 h2));
      porch_token = last o3 (then-has r2 env.porch_token o3 h3);
      nephio_token = then-has r3 env.nephio_token o4 h4;
    })
