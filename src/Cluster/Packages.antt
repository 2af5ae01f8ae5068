-- ===== src/Cluster/Packages.antt =====
-- The objects that the RemoteCluster controller keeps on the management cluster: `createClusterRepo`,
-- `upsertPackageVariants` and `deleteClusterResources` of
-- internal/controller/remotecluster_controller.go. A PackageVariant is modelled by its name, its label
-- and the repository that it deploys to.
pub mod Upsert
pub mod Repo
pub mod Cleanup
use public_cloud_vm_provisio.Prelude.{
  ◌+◌, ◌-◌, String, Bool, true, false, not, ◌&&◌, none, some, List, [], ◌∷◌, ◌++◌, map, ◌==◌,
  if◌then◌else◌, any, append,
}
use public_cloud_vm_provisio.Cluster.{
  RemoteCluster, Resource, Kind, porch_repository, nephio_repository, token, package_variant,
}

abbrev pub same_kind : Kind → Kind → Bool
same_kind porch_repository porch_repository = true
same_kind nephio_repository nephio_repository = true
same_kind token token = true
same_kind package_variant package_variant = true
same_kind _ _ = false

-- The key of an object on the API server.
abbrev pub has_key : Kind → String → String → Resource → Bool
has_key kind namespace name o =
    same_kind o.kind kind && (o.namespace == namespace && o.name == name)

-- What the calls for one object answer.
pub record EnsureEnv : Type 0 where
  pub read : Bool
  pub created : Bool

-- `ensurePorchRepository` and its like: the object is created where it is missing.
unfoldable pub ensure : EnsureEnv → Resource → List Resource → List Resource × Bool
ensure env o store =
    if not env.read
    then (store, false)
    else if any (has_key o.kind o.namespace o.name) store
    then (store, true)
    else if env.created
    then (store ++ o ∷ [], true)
    else (store, false)

-- What the calls of `createClusterRepo` answer.
pub record RepoEnv : Type 0 where
  pub porch : EnsureEnv
  pub nephio : EnsureEnv
  pub porch_token : EnsureEnv
  pub nephio_token : EnsureEnv

unfoldable pub porch_object : RemoteCluster → Resource
porch_object c = record {
  kind = porch_repository;
  namespace = c.namespace;
  name = c.cluster_name;
  label = some c.cluster_name;
  downstream = "";
}

-- It has no label.
unfoldable pub nephio_object : RemoteCluster → Resource
nephio_object c = record {
  kind = nephio_repository;
  namespace = c.namespace;
  name = c.cluster_name;
  label = none;
  downstream = "";
}

unfoldable pub token_object : String → RemoteCluster → Resource
unfolding append
token_object suffix c = record {
  kind = token;
  namespace = c.namespace;
  name = append c.cluster_name suffix;
  label = some c.cluster_name;
  downstream = "";
}

-- Goes on with the next object unless one has failed.
unfoldable pub and_then :
    List Resource × Bool → (List Resource → List Resource × Bool) → List Resource × Bool
and_then (store, true) next = next store
and_then (store, false) next = (store, false)

-- `createClusterRepo`
unfoldable pub create_cluster_repo : RepoEnv → RemoteCluster → List Resource → List Resource × Bool
unfolding ensure porch_object nephio_object token_object and_then
create_cluster_repo env c store =
    if not c.git_enabled
    then (store, true)
    else and_then
        (and_then
          (and_then (ensure env.porch (porch_object c) store) (ensure env.nephio (nephio_object c)))
          (ensure env.porch_token (token_object "-access-token-porch" c)))
        (ensure env.nephio_token (token_object "-access-token-configsync" c))

-- What the calls for one PackageVariant answer; whether it exists is read off the store.
pub record UpsertEnv : Type 0 where
  pub created : Bool
  pub fetched : Bool
  pub updated : Bool

unfoldable pub variant_object : RemoteCluster → String → Resource
variant_object c name = record {
  kind = package_variant;
  namespace = "default";
  name = name;
  label = some c.cluster_name;
  downstream = c.cluster_name;
}

-- The specification of an object that exists is replaced, its labels stay.
unfoldable pub redirect : RemoteCluster → String → Resource → Resource
redirect c name o =
    if has_key package_variant "default" name o then record o { downstream = c.cluster_name } else o

-- One round of the loop of `upsertPackageVariants`.
unfoldable pub upsert : UpsertEnv → RemoteCluster → String → List Resource → List Resource × Bool
unfolding variant_object redirect
upsert env c name store =
    if any (has_key package_variant "default" name) store
    then (if env.fetched && env.updated
        then (map (redirect c name) store, true)
        else (store, false))
    else if env.created
    then (store ++ variant_object c name ∷ [], true)
    else (store, false)

-- `upsertPackageVariants`
unfoldable pub upsert_package_variants :
    (String → UpsertEnv) → RemoteCluster → List String → List Resource → List Resource × Bool
unfolding upsert
upsert_package_variants env c [] store = (store, true)
upsert_package_variants env c (name ∷ names) store =
    let (next, ok) = upsert (env name) c name store in
    let rest = upsert_package_variants env c names next in
    elim ok [ true ↦ rest | false ↦ (next, false) ]

-- The names of `createCorePackageVariants`
abbrev pub core_variants : List String
core_variants =
    "remote-cluster-provisioner-variant" ∷ "prometheus-stack-variant" ∷ "keycloak-variant"
    ∷ "hami-variant" ∷ "stateful-migration-variant" ∷ "enterprise-gateway-variant"
    ∷ "jupyter-hub-variant" ∷ "gpu-operator-variant" ∷ []

-- The names of `createOverlaysPlusPostInstallPackageVariants`
abbrev pub overlay_variants : List String
overlay_variants = "services-overlays-variant" ∷ "ml-system-variant" ∷ []

-- `createCorePackageVariants`
unfoldable pub create_core_package_variants :
    (String → UpsertEnv) → RemoteCluster → List Resource → List Resource × Bool
unfolding upsert_package_variants
create_core_package_variants env c store = upsert_package_variants env c core_variants store

-- `createOverlaysPlusPostInstallPackageVariants`
unfoldable pub create_overlay_package_variants :
    (String → UpsertEnv) → RemoteCluster → List Resource → List Resource × Bool
unfolding upsert_package_variants
create_overlay_package_variants env c store = upsert_package_variants env c overlay_variants store

-- What the calls for one list answer: whether it is listed, and for each of its objects whether the
-- deletion succeeds or the object is gone already.
pub record DeleteListEnv : Type 0 where
  pub listed : Bool
  pub deleted : Resource → Bool

-- In the cluster's namespace, of the kind, with the cluster's label.
unfoldable pub is_listed : RemoteCluster → Kind → Resource → Bool
is_listed c kind o =
    same_kind o.kind kind
    && (o.namespace == c.namespace
        && elim o.label [ none ↦ false | some label ↦ label == c.cluster_name ])

-- The loop of `deleteUnstructuredList`: the objects that are left, up to the first failure.
unfoldable pub delete_objects :
    DeleteListEnv → (Resource → Bool) → List Resource → List Resource × Bool
delete_objects env p [] = ([], true)
delete_objects env p (o ∷ store) =
    let (left, ok) = delete_objects env p store in
    if not (p o) then (o ∷ left, ok) else if env.deleted o then (left, ok) else (o ∷ store, false)

-- `deleteUnstructuredList`
unfoldable pub delete_list :
    DeleteListEnv → RemoteCluster → Kind → List Resource → List Resource × Bool
unfolding delete_objects is_listed
delete_list env c kind store =
    if env.listed then delete_objects env (is_listed c kind) store else (store, false)

-- What the calls of `deleteClusterResources` answer.
pub record ResourcesEnv : Type 0 where
  pub repositories : DeleteListEnv
  pub tokens : DeleteListEnv
  pub variants : DeleteListEnv

-- `deleteClusterResources`
unfoldable pub delete_cluster_resources :
    ResourcesEnv → RemoteCluster → List Resource → List Resource × Bool
unfolding delete_list and_then
delete_cluster_resources env c store =
    and_then
      (and_then (delete_list env.repositories c porch_repository store)
        (delete_list env.tokens c token))
      (delete_list env.variants c package_variant)
