-- ===== src/Cluster/Packages/Upsert.antt =====
-- What `upsertPackageVariants` leaves of the PackageVariants.
use public_cloud_vm_provisio.Prelude.{
  String, ◌≡◌, refl, sym, ap, ◌∙◌, inl, inr, Bool, true, false, not, ◌&&◌, ◌||◌, List, [], ◌∷◌,
  ◌++◌, map, arith, ◌==◌, eq_iff, Bool-cases, any, any-append,
}
use public_cloud_vm_provisio.Vpn.Allocate.{member}
use public_cloud_vm_provisio.Cluster.{Resource, RemoteCluster, package_variant}
use public_cloud_vm_provisio.Cluster.Packages.{
  UpsertEnv, upsert, upsert_package_variants, redirect, has_key, variant_object,
}

-- There is a PackageVariant of the name.
abbrev pub has_variant : String → List Resource → Bool
has_variant name store = any (has_key package_variant "default" name) store

-- It is a PackageVariant of the name that deploys to another repository than the cluster's.
abbrev pub elsewhere : RemoteCluster → String → Resource → Bool
elsewhere c name o =
    has_key package_variant "default" name o && not (o.downstream == c.cluster_name)

abbrev pub deploys_elsewhere : RemoteCluster → String → List Resource → Bool
deploys_elsewhere c name store = any (elsewhere c name) store

module _ (c : RemoteCluster) where
  redirect-has_key :
      (name jname : String) (o : Resource)
      → has_key package_variant "default" jname (redirect c name o)
        ≡ has_key package_variant "default" jname o
  unfolding redirect
  redirect-has_key name jname o = elim (Bool-cases (has_key package_variant "default" name o)) [
    | inl e ↦ rw (redirect, e) refl
    | inr e ↦ rw (redirect, e) refl
  ]

  has_variant-map :
      (name jname : String) (store : List Resource)
      → has_variant jname (map (redirect c name) store) ≡ has_variant jname store
  has_variant-map name jname [] = refl
  has_variant-map name jname (o ∷ store) =
      ground (arith, redirect-has_key name jname o, has_variant-map name jname store)

  redirect-elsewhere_self :
      (name : String) (o : Resource) → elsewhere c name (redirect c name o) ≡ false
  unfolding redirect
  redirect-elsewhere_self name o = elim (Bool-cases (has_key package_variant "default" name o)) [
    | inl e ↦ rw (redirect, e) (ground (arith, eq_iff c.cluster_name c.cluster_name))
    | inr e ↦ rw (redirect, e) (ground arith)
  ]

  redirect-elsewhere :
      (name jname : String) (o : Resource)
      → elsewhere c jname o ≡ false
      → elsewhere c jname (redirect c name o) ≡ false
  unfolding redirect
  redirect-elsewhere name jname o h = elim (Bool-cases (has_key package_variant "default" name o)) [
    | inl e ↦ rw (redirect, e) (ground (arith, eq_iff c.cluster_name c.cluster_name))
    | inr e ↦ rw (redirect, e) h
  ]

  elsewhere-map_self :
      (name : String) (store : List Resource)
      → deploys_elsewhere c name (map (redirect c name) store) ≡ false
  elsewhere-map_self name [] = refl
  elsewhere-map_self name (o ∷ store) =
      rw (redirect-elsewhere_self name o) (elsewhere-map_self name store)

  elsewhere-map :
      (name jname : String) (store : List Resource)
      → deploys_elsewhere c jname store ≡ false
      → deploys_elsewhere c jname (map (redirect c name) store) ≡ false
  elsewhere-map name jname [] h = refl
  elsewhere-map name jname (o ∷ store) h = elim (Bool-cases (elsewhere c jname o)) [
    | inl e ↦ ground arith
    | inr e ↦ rw (redirect-elsewhere name jname o e) (elsewhere-map name jname store (ground arith))
  ]

  variant_object-elsewhere :
      (name jname : String) → elsewhere c jname (variant_object c name) ≡ false
  unfolding variant_object
  variant_object-elsewhere name jname = ground (arith, eq_iff c.cluster_name c.cluster_name)

  variant_object-has_key :
      (name : String) → has_key package_variant "default" name (variant_object c name) ≡ true
  unfolding variant_object
  variant_object-has_key name = ground (arith, eq_iff name name)

  elsewhere_none :
      (name : String) (store : List Resource)
      → has_variant name store ≡ false
      → deploys_elsewhere c name store ≡ false
  elsewhere_none name [] h = refl
  elsewhere_none name (o ∷ store) h = ground (arith, elsewhere_none name store)

  -- A new object at the end of the store.
  has_variant-append :
      (name jname : String) (store : List Resource)
      → has_variant jname (store ++ variant_object c name ∷ [])
        ≡ has_variant jname store || has_variant jname (variant_object c name ∷ [])
  has_variant-append name jname store = any-append (has_key package_variant "default" jname) store _

  elsewhere-append :
      (name jname : String) (store : List Resource)
      → deploys_elsewhere c jname store ≡ false
      → deploys_elsewhere c jname (store ++ variant_object c name ∷ []) ≡ false
  elsewhere-append name jname store h =
      any-append (elsewhere c jname) store (variant_object c name ∷ [])
      ∙ ground (arith, variant_object-elsewhere name jname)

  -- One round of the loop, where it succeeds, for a name and for the others.
  upsert_self :
      (env : UpsertEnv) (name : String) (store : List Resource)
      → (upsert env c name store).1 ≡ true
      → (has_variant name (upsert env c name store).0 ≡ true)
        × ((deploys_elsewhere c name (upsert env c name store).0) ≡ false)
  unfolding upsert
  upsert_self env name store h = elim (Bool-cases (has_variant name store)) [
    | inl e ↦ elim (Bool-cases (env.fetched && env.updated)) [
      | inl f ↦
          rw (upsert, e, f) (has_variant-map name name store ∙ e, elsewhere-map_self name store)
      | inr f ↦ ground arith
    ]
    | inr e ↦ elim (Bool-cases env.created) [
      | inl f ↦
          rw (upsert, e, f)
            (
              has_variant-append name name store ∙ ground (arith, variant_object-has_key name),
              elsewhere-append name name store (elsewhere_none name store e),
            )
      | inr f ↦ ground arith
    ]
  ]

  upsert-other :
      (env : UpsertEnv) (name jname : String) (store : List Resource)
      → has_variant jname store ≡ true
      → deploys_elsewhere c jname store ≡ false
      → (has_variant jname (upsert env c name store).0 ≡ true)
        × ((deploys_elsewhere c jname (upsert env c name store).0) ≡ false)
  unfolding upsert
  upsert-other env name jname store h k = elim (Bool-cases (has_variant name store)) [
    | inl e ↦ elim (Bool-cases (env.fetched && env.updated)) [
      | inl f ↦
          rw (upsert, e, f) (has_variant-map name jname store ∙ h, elsewhere-map name jname store k)
      | inr f ↦ rw (upsert, e, f) (h, k)
    ]
    | inr e ↦ elim (Bool-cases env.created) [
      | inl f ↦
          rw (upsert, e, f)
            (
              has_variant-append name jname store ∙ ground arith,
              elsewhere-append name jname store k,
            )
      | inr f ↦ rw (upsert, e, f) (h, k)
    ]
  ]

  all-other :
      (env : String → UpsertEnv) (names : List String) (jname : String) (store : List Resource)
      → has_variant jname store ≡ true
      → deploys_elsewhere c jname store ≡ false
      → (has_variant jname (upsert_package_variants env c names store).0 ≡ true)
        × (deploys_elsewhere c jname (upsert_package_variants env c names store).0 ≡ false)
  unfolding upsert_package_variants
  all-other env [] jname store h k = (h, k)
  all-other env (name ∷ names) jname store h k =
      let (a, b) = upsert-other (env name) name jname store h k in
      elim (Bool-cases (upsert (env name) c name store).1) [
        | inl e ↦
            rw (upsert_package_variants, e)
              (all-other env names jname (upsert (env name) c name store).0 a b)
        | inr e ↦ rw (upsert_package_variants, e) (a, b)
      ]

  -- Where the upsert of a cluster's PackageVariants succeeds, there is afterwards a PackageVariant of each
  -- of its names, and each one of the name deploys to this cluster's repository: one that another
  -- cluster has made under the name is turned over to this one.
  pub upsert_package_variants-redirects :
      (env : String → UpsertEnv) (names : List String) (store : List Resource) (name : String)
      → member names name ≡ true
      → (upsert_package_variants env c names store).1 ≡ true
      → (has_variant name (upsert_package_variants env c names store).0 ≡ true)
        × (deploys_elsewhere c name (upsert_package_variants env c names store).0 ≡ false)
  unfolding upsert_package_variants member
  upsert_package_variants-redirects env [] store name m h = ground arith
  upsert_package_variants-redirects env (first ∷ names) store name m h =
      let r = upsert (env first) c first store in
      elim (Bool-cases r.1) [
        | inr e ↦
            let k : (upsert_package_variants env c (first ∷ names) store).1 ≡ false =
              rw (upsert_package_variants, e) refl in
            ground arith
        | inl e ↦
            let k : upsert_package_variants env c (first ∷ names) store
                ≡ upsert_package_variants env c names r.0 =
              rw (upsert_package_variants, e) refl in
            elim (Bool-cases (first == name)) [
              | inl f ↦
                  let same : first ≡ name = (eq_iff first name).0 f in
                  let (a, b) = upsert_self (env first) first store e in
                  rw (k, ← same) (all-other env names first r.0 a b)
              | inr f ↦ rw k (
                  upsert_package_variants-redirects env names r.0 name (ground arith)
                    (ap (λ x. x.1) (sym k) ∙ h))
            ]
      ]
