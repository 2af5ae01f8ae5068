-- ===== src/Node/JoinToken.antt =====
-- The join token of the cluster: `requireNetConfig` and `refreshLocalJoinToken` of
-- internal/controller/ml/nodeprovision_controller.go. Times are seconds, and one run reads the clock
-- once. YAML, base 64, PEM, X.509 and SHA-256 are libraries: `parse` gives the clusters of a kubeconfig
-- as server and CA data, `ca_hash` the hexadecimal hash of the CA's public key.
pub mod Route
pub mod Current
pub mod Examples
use public_cloud_vm_provisio.Prelude.{
  ℕ, ◌+◌, ◌-◌, ◌/◌, ◌%◌, String, Bool, true, false, ◌||◌, Option, none, some, List, [], ◌∷◌, ◌++◌,
  ltb, if◌then◌else◌, is_empty, append, has_prefix,
}
use Prim.Native.String.{char_at}
use public_cloud_vm_provisio.Vpn.NetConfig.{NetConfigStatus}

-- `joinTokenMaxAge`, 20 hours
abbrev pub join_token_max_age : ℕ
join_token_max_age = 72000

-- `charset`
abbrev pub charset : String
charset = "abcdefghijklmnopqrstuvwxyz0123456789"

-- The random bytes as characters of the charset.
unfoldable pub rand_text : List ℕ → String
rand_text [] = String.[]
rand_text (b ∷ bytes) = String.◌∷◌ (char_at charset (b % 36)) (rand_text bytes)

-- `randStr`, on what `rand.Read` answers.
unfoldable pub rand_str : Option (List ℕ) → Option String
unfolding rand_text
rand_str none = none
rand_str (some bytes) = some (rand_text bytes)

-- A bootstrap token's secret in kube-system.
pub record BootstrapToken : Type 0 where
  pub id : String
  pub secret : String
  pub expiration : ℕ

-- The NetConfigs on the API server, and the bootstrap tokens.
pub record TokenWorld : Type 0 where
  pub configs : List NetConfigStatus
  pub tokens : List BootstrapToken

-- The answer to the creation of the secret.
pub data Created : Type 0 where
  made already_exists not_made : Created

-- What the calls of one run answer. The manager's client reads from a cache, which may be behind the
-- API server: the list and the NetConfig fetched again are what the cache holds. The NetConfig that
-- is listed first is taken to be the first on the API server too.
pub record TokenEnv : Type 0 where
  pub listed : Option (List NetConfigStatus)
  pub random_id : Option (List ℕ)
  pub random_secret : Option (List ℕ)
  pub created : Created
  pub cluster_info : Option (Option String)  -- the config map, and its kubeconfig
  pub parse : String → Option (List (String × String))
  pub ca_hash : String → Option String
  pub patched : Bool
  pub refetched : Option NetConfigStatus

-- `strings.TrimPrefix`
unfoldable pub trim_prefix : String → String → String
unfolding has_prefix
trim_prefix s String.[] = s
trim_prefix String.[] (String.◌∷◌ d p) = String.[]
trim_prefix (String.◌∷◌ c s) (String.◌∷◌ d p) =
    if has_prefix (String.◌∷◌ c s) (String.◌∷◌ d p) then trim_prefix s p else String.◌∷◌ c s

-- The command of Step 5.
unfoldable pub join_command : String → String → String → String
unfolding append trim_prefix
join_command server token hash = append "kubeadm join " (
    append (trim_prefix (trim_prefix server "https://") "http://")
      (append " --token " (append token (append " --discovery-token-ca-cert-hash sha256:" hash))))

-- Steps 3 and 4: the server, and the hash of its CA.
unfoldable pub read_cluster_info : TokenEnv → Option (String × String)
read_cluster_info env = elim env.cluster_info [
  | none ↦ none
  | some answer ↦ elim answer [
    | none ↦ none
    | some kubeconfig ↦ elim (env.parse kubeconfig) [
      | none ↦ none
      | some clusters ↦ elim clusters [
        | [] ↦ none
        | (server, ca) ∷ rest ↦ elim (env.ca_hash ca) [
          | none ↦ none
          | some hash ↦ some (server, hash)
        ]
      ]
    ]
  ]
]

-- Step 5: the status of the NetConfig.
unfoldable pub with_command : ℕ → String → NetConfigStatus → NetConfigStatus
with_command now cmd nc = record nc {
  cluster_join_command = cmd;
  join_token_refreshed_at = some now;
}

-- Step 5, on the first of the NetConfigs.
unfoldable pub patch_first : ℕ → String → List NetConfigStatus → List NetConfigStatus
unfolding with_command
patch_first now cmd [] = []
patch_first now cmd (nc ∷ configs) = with_command now cmd nc ∷ configs

-- Step 2; the secret of a token that exists already stays.
unfoldable pub create_token : Created → BootstrapToken → TokenWorld → TokenWorld × Bool
create_token made token w = (record w { tokens = w.tokens ++ token ∷ [] }, true)
create_token already_exists token w = (w, true)
create_token not_made token w = (w, false)

-- Steps 3 to 5, and whether they succeed.
unfoldable pub publish_token : TokenEnv → ℕ → String → TokenWorld → TokenWorld × Bool
unfolding read_cluster_info join_command patch_first
publish_token env now token w = elim (read_cluster_info env) [
  | none ↦ (w, false)
  | some (server, hash) ↦
      if env.patched
      then (record w { configs = patch_first now (join_command server token hash) w.configs }, true)
      else (w, false)
]

-- `refreshLocalJoinToken`, and whether it succeeds.
unfoldable pub refresh_local_join_token : TokenEnv → ℕ → TokenWorld → TokenWorld × Bool
unfolding rand_str create_token publish_token append
refresh_local_join_token env now w = elim (rand_str env.random_id) [
  | none ↦ (w, false)
  | some id ↦ elim (rand_str env.random_secret) [
    | none ↦ (w, false)
    | some secret ↦
        let token : BootstrapToken = record {
          id = id;
          secret = secret;
          expiration = now + 86400;
        } in
        let (v, ok) = create_token env.created token w in
        let rest = publish_token env now (append id (append "." secret)) v in
        if ok then rest else (v, false)
  ]
]

-- `needsRefresh`
unfoldable pub needs_refresh : ℕ → NetConfigStatus → Bool
unfolding is_empty
needs_refresh now nc =
    is_empty nc.cluster_join_command
    || elim nc.join_token_refreshed_at [ none ↦ true | some t ↦ ltb (t + join_token_max_age) now ]

-- The NetConfig that the cache gives where the refresh succeeds; none is an error.
unfoldable pub after_refresh : TokenEnv → TokenWorld × Bool → TokenWorld × Option NetConfigStatus
after_refresh env (w, false) = (w, none)
after_refresh env (w, true) = (w, env.refetched)

-- `requireNetConfig`, behind the list.
unfoldable pub require_first :
    TokenEnv → ℕ → List NetConfigStatus → TokenWorld → TokenWorld × Option NetConfigStatus
unfolding needs_refresh refresh_local_join_token after_refresh
require_first env now [] w = (w, none)
require_first env now (nc ∷ configs) w =
    let refreshed = after_refresh env (refresh_local_join_token env now w) in
    if needs_refresh now nc then refreshed else (w, some nc)

-- `requireNetConfig`; none is an error.
unfoldable pub require_net_config : TokenEnv → ℕ → TokenWorld → TokenWorld × Option NetConfigStatus
unfolding require_first
require_net_config env now w = elim env.listed [
  | none ↦ (w, none)
  | some configs ↦ require_first env now configs w
]
