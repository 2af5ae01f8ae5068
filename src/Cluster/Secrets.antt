-- ===== src/Cluster/Secrets.antt =====
-- The secrets with the credentials of a RemoteCluster: the finalizers and the controller's copy that
-- protect them, and the credential that `getSSHClient` takes, of
-- internal/controller/remotecluster_controller.go.
use public_cloud_vm_provisio.Prelude.{
  String, Bool, true, false, not, ◌&&◌, ◌||◌, Option, none, some, List, [], ◌∷◌, ◌==◌, eqb,
  if◌then◌else◌, length, any, is_empty,
}
use public_cloud_vm_provisio.Cluster.{World, Secret}

-- `data[key]`
unfoldable pub lookup : String → List (String × String) → Option String
lookup key [] = none
lookup key ((k, v) ∷ data_of) =
    let rest = lookup key data_of in elim (k == key) [ true ↦ some v | false ↦ rest ]

-- `secretDataEqual`
unfoldable pub secret_data_equal : List (String × String) → List (String × String) → Bool
unfolding lookup
secret_data_equal a b =
    eqb (length a) (length b)
    && not (any (λ (k, v). elim (lookup k b) [ none ↦ true | some w ↦ not (v == w) ]) a)

-- What the calls that protect the secrets answer.
pub record ProtectEnv : Type 0 where
  pub auth_read : Bool
  pub auth_patched : Bool
  pub copy_read : Bool
  pub copy_written : Bool
  pub vpn_read : Bool
  pub vpn_patched : Bool

-- `ensureAuthSecretFinalizer` and `ensureVPNSecretFinalizer`
unfoldable pub ensure_finalizer : Bool → Secret → Secret
ensure_finalizer patched s = record s { finalizer = s.finalizer || patched }

-- `ensureControllerAuthSecret`
unfoldable pub ensure_controller_auth_secret :
    ProtectEnv
    → List (String × String)
    → Option (List (String × String))
    → Option (List (String × String))
unfolding secret_data_equal
ensure_controller_auth_secret env data_of none =
    if env.copy_read && env.copy_written then some data_of else none
ensure_controller_auth_secret env data_of (some copy) =
    if env.copy_read && not (secret_data_equal copy data_of) && env.copy_written
    then some data_of
    else some copy

unfoldable pub protect_auth : ProtectEnv → World → World
unfolding ensure_finalizer ensure_controller_auth_secret
protect_auth env w = elim w.auth [
  | none ↦ w
  | some s ↦ if not env.auth_read then w else record w {
    auth = some (ensure_finalizer env.auth_patched s);
    auth_copy = ensure_controller_auth_secret env s.data_of w.auth_copy;
  }
]

unfoldable pub protect_vpn : ProtectEnv → World → World
unfolding ensure_finalizer is_empty
protect_vpn env w = elim w.vpn_secret [
  | none ↦ w
  | some s ↦
      if is_empty w.cluster.vpn.credentials || not env.vpn_read
      then w
      else record w { vpn_secret = some (ensure_finalizer env.vpn_patched s) }
]

-- The secrets' part of `Reconcile`; all of it is best effort.
unfoldable pub protect_secrets : ProtectEnv → World → World
unfolding protect_auth protect_vpn
protect_secrets env w = protect_vpn env (protect_auth env w)

-- `removeAuthSecretFinalizer` and `removeVPNSecretFinalizer` on the secret that they find.
unfoldable pub release_secret : Bool → Bool → Option Secret → Option Secret
release_secret read patched none = none
release_secret read patched (some s) =
    if read && patched then some (record s { finalizer = false }) else some s

-- The value at the key; without a key, the only value.
unfoldable pub pick_key : String → List (String × String) → Option String
unfolding lookup is_empty
pick_key key data_of = elim (lookup key data_of) [
  | some v ↦ some v
  | none ↦
      if is_empty key
      then elim data_of [ [] ↦ none | (k, v) ∷ rest ↦ elim rest [ [] ↦ some v | _ ∷ _ ↦ none ] ]
      else none
]

-- The answer to the fetch of the user's secret.
pub data Fetch : Type 0 where
  got : List (String × String) → Fetch
  not_found fetch_failed : Fetch

-- The credential of `getSSHClient`: from the user's secret, or from the controller's copy where there
-- is no user's secret.
unfoldable pub ssh_credential : String → Fetch → Option (List (String × String)) → Option String
unfolding pick_key
ssh_credential key (got data_of) copy = pick_key key data_of
ssh_credential key not_found none = none
ssh_credential key not_found (some copy) = pick_key key copy
ssh_credential key fetch_failed copy = none

-- The host that `getSSHClient` connects to.
unfoldable pub ssh_host : String → String → String
unfolding is_empty
ssh_host vpn_ip host = if is_empty vpn_ip then host else vpn_ip
