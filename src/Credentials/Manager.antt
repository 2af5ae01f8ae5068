-- ===== src/Credentials/Manager.antt =====
-- The credential manager of provider/aws/credmanager.go. Its two minutes' ticker is not modelled: a tick
-- is a call of `refresh_expiring`.
use public_cloud_vm_provisio.Prelude.{
  ℕ, ◌+◌, String, Bool, true, false, not, ◌&&◌, Option, none, some, List, [], ◌∷◌, ◌==◌, ltb,
  if◌then◌else◌, is_empty, drop_if,
}
use public_cloud_vm_provisio.Credentials.Sts.{
  AwsCredentials, MfaSession, SecretData, StsEnv, secret_val, mfa_session_grace, resolve_with_mfa,
  cached_role_session, assume_role, parse_role_duration,
}

-- `credKey`
pub record CredKey : Type 0 where
  pub namespace : String
  pub name : String
  pub region : String

unfoldable pub same_key : CredKey → CredKey → Bool
same_key a b = a.namespace == b.namespace && (a.name == b.name && a.region == b.region)

-- `credEntry`; static credentials have no expiry.
pub record CredEntry : Type 0 where
  pub creds : AwsCredentials
  pub expiry : Option ℕ

-- `needsRefresh`
unfoldable pub needs_refresh : ℕ → CredEntry → Bool
needs_refresh now e = elim e.expiry [ none ↦ false | some t ↦ ltb t (now + mfa_session_grace) ]

-- The cache of the manager, and the secrets on the API server by namespace and name.
pub record Vault : Type 0 where
  pub cache : List (CredKey × CredEntry)
  pub secrets : String → String → Option SecretData

-- The answer of `refresh`; a missing secret is an error that the caller tells apart.
pub data Refreshed : Type 0 where
  got : AwsCredentials → Refreshed
  missing refused : Refreshed

-- What the calls of one refresh answer.
pub record CredEnv : Type 0 where
  pub read : Bool
  pub sts : StsEnv
  pub patched : Bool

-- `m.cache[key]`
unfoldable pub find_entry : CredKey → List (CredKey × CredEntry) → Option CredEntry
unfolding same_key
find_entry key [] = none
find_entry key ((k, e) ∷ cache) =
    let rest = find_entry key cache in elim (same_key k key) [ true ↦ some e | false ↦ rest ]

-- `delete(m.cache, key)`
unfoldable pub drop_entry : CredKey → List (CredKey × CredEntry) → List (CredKey × CredEntry)
unfolding same_key
drop_entry key cache = drop_if (λ (k, e). same_key k key) cache

-- `m.cache[key] = entry`
unfoldable pub store_entry : CredKey → CredEntry → Vault → Vault
unfolding drop_entry
store_entry key e w = record w { cache = (key, e) ∷ drop_entry key w.cache }

-- `patch.Data[k] = []byte(v)`
unfoldable pub put : SecretData → SecretData → SecretData
put [] data_of = data_of
put (kv ∷ kvs) data_of = kv ∷ put kvs data_of

-- `patchSecret`, whose failure is only logged.
unfoldable pub patch_secret : Bool → CredKey → SecretData → SecretData → Vault → Vault
unfolding put
patch_secret patched key kvs data_of w = if not patched then w else record w {
  secrets = λ namespace name.
      if namespace == key.namespace && name == key.name
      then some (put kvs data_of)
      else w.secrets namespace name;
}

module _ (parse_time : String → Option ℕ) (format_time : ℕ → String)
    (scan : String → Option ℕ) where
  -- Step 2a: the credentials are those of the secret, or of a new session.
  unfoldable pub cache_base :
      CredEnv
      → CredKey
      → SecretData
      → AwsCredentials
      → Option MfaSession
      → Vault
      → Vault × Refreshed
  unfolding store_entry patch_secret
  cache_base env key data_of base none w =
      (store_entry key (record { creds = base; expiry = none }) w, got base)
  cache_base env key data_of base (some s) w = (
    store_entry key (record { creds = base; expiry = some s.expiry })
        (patch_secret env.patched key
          (("awsSessionToken", s.credentials.session_token)
            ∷ ("awsSessionExpiry", format_time s.expiry)
            ∷ [])
          data_of w),
    got base,
  )

  -- What the secret is given of a role's session.
  unfoldable pub role_entries : MfaSession → SecretData
  role_entries s =
      ("roleAccessKeyId", s.credentials.access_key_id)
      ∷ ("roleSecretAccessKey", s.credentials.secret_access_key)
      ∷ ("roleSessionToken", s.credentials.session_token)
      ∷ ("roleSessionExpiry", format_time s.expiry)
      ∷ []

  -- The session of the role is persisted and cached.
  unfoldable pub cache_role :
      CredEnv → CredKey → SecretData → Option MfaSession → Vault → Vault × Refreshed
  unfolding store_entry patch_secret role_entries
  cache_role env key data_of none w = (w, refused)
  cache_role env key data_of (some s) w = (
    store_entry key (record { creds = s.credentials; expiry = some s.expiry })
        (patch_secret env.patched key (role_entries s) data_of w),
    got s.credentials,
  )

  -- The call of Step 2b.
  unfoldable pub role_answer : CredEnv → SecretData → AwsCredentials → Option MfaSession
  unfolding assume_role parse_role_duration secret_val
  role_answer env data_of base =
      assume_role env.sts base (secret_val data_of "roleArn") (secret_val data_of "roleSessionName")
        (secret_val data_of "externalId")
        (parse_role_duration scan (secret_val data_of "roleDurationSeconds"))

  -- Step 2
  unfoldable pub take_base :
      CredEnv
      → CredKey
      → SecretData
      → Option (AwsCredentials × Option MfaSession)
      → Vault
      → Vault × Refreshed
  unfolding cache_base cache_role role_answer secret_val is_empty
  take_base env key data_of none w = (w, refused)
  take_base env key data_of (some (base, session)) w =
      if is_empty (secret_val data_of "roleArn")
      then cache_base env key data_of base session w
      else cache_role env key data_of (role_answer env data_of base) w

  -- The role session that the secret holds, where a role is to be assumed.
  unfoldable pub fast_path : ℕ → SecretData → Option MfaSession
  unfolding cached_role_session secret_val is_empty
  fast_path now data_of =
      if is_empty (secret_val data_of "roleArn")
      then none
      else cached_role_session parse_time now data_of

  -- `refresh`, on the secret.
  unfoldable pub refresh_from : CredEnv → ℕ → CredKey → SecretData → Vault → Vault × Refreshed
  unfolding fast_path take_base resolve_with_mfa store_entry
  refresh_from env now key data_of w =
      let rest = take_base env key data_of (resolve_with_mfa parse_time env.sts now data_of) w in
      elim (fast_path now data_of) [
        | some s ↦ (
          store_entry key (record { creds = s.credentials; expiry = some s.expiry }) w,
          got s.credentials,
        )
        | none ↦ rest
      ]

  -- `refresh`
  unfoldable pub refresh : CredEnv → ℕ → CredKey → Vault → Vault × Refreshed
  unfolding refresh_from
  refresh env now key w =
      if not env.read then (w, refused) else elim (w.secrets key.namespace key.name) [
        | none ↦ (w, missing)
        | some data_of ↦ refresh_from env now key data_of w
      ]

  -- `Get`
  unfoldable pub get : CredEnv → ℕ → CredKey → Vault → Vault × Refreshed
  unfolding refresh find_entry needs_refresh
  get env now key w =
      let fresh = refresh env now key w in
      elim (find_entry key w.cache) [
        | none ↦ fresh
        | some e ↦ if needs_refresh now e then fresh else (w, got e.creds)
      ]

  -- A refresh in the background; the entry of a missing secret is dropped.
  unfoldable pub refresh_one : CredEnv → ℕ → CredKey → Vault → Vault
  unfolding refresh drop_entry
  refresh_one env now key w =
      let (v, r) = refresh env now key w in
      elim r [ got c ↦ v | missing ↦ record v { cache = drop_entry key v.cache } | refused ↦ v ]

  unfoldable pub refresh_all : (CredKey → CredEnv) → ℕ → List CredKey → Vault → Vault
  unfolding refresh_one
  refresh_all env now [] w = w
  refresh_all env now (key ∷ keys) w = refresh_all env now keys (refresh_one (env key) now key w)

  -- The keys of the entries that are near their expiry, in the order of the cache.
  unfoldable pub to_refresh : ℕ → List (CredKey × CredEntry) → List CredKey
  unfolding needs_refresh
  to_refresh now [] = []
  to_refresh now ((k, e) ∷ cache) =
      let rest = to_refresh now cache in if needs_refresh now e then k ∷ rest else rest

  -- `refreshExpiring`
  unfoldable pub refresh_expiring : (CredKey → CredEnv) → ℕ → Vault → Vault
  unfolding refresh_all to_refresh
  refresh_expiring env now w = refresh_all env now (to_refresh now w.cache) w

-- `Evict`
unfoldable pub evict : String → String → Vault → Vault
evict namespace name w = record w {
  cache = drop_if (λ (k, e). k.namespace == namespace && k.name == name) w.cache;
}
