-- ===== src/Credentials/Restart.antt =====
-- The credential manager behind a restart: its cache is empty, the secrets hold the sessions.
use public_cloud_vm_provisio.Prelude.{
  ℕ, ◌+◌, ◌≤◌, String, ◌≡◌, refl, ap, ◌∙◌, true, false, Option, none, some, [], arith, eq_iff, ltb,
  drop_if, is_empty, trim_space,
}
use public_cloud_vm_provisio.Cluster.Secrets.{lookup}
use public_cloud_vm_provisio.Credentials.Sts.{
  AwsCredentials, MfaSession, SecretData, secret_val, mfa_session_grace, resolve_with_mfa,
  cached_role_session, usable, is_expired, saved_session, is_mfa_configured, role_session,
}
use public_cloud_vm_provisio.Credentials.Manager.{
  CredKey, role_entries, CredEnv, Vault, got, find_entry, store_entry, needs_refresh, cache_base,
  cache_role, role_answer, take_base, fast_path, refresh_from, refresh, get, drop_entry,
  patch_secret, put, refresh_expiring, refresh_all, to_refresh,
}
use public_cloud_vm_provisio.Credentials.Fresh.{find_entry-store_entry}

module _ (parse_time : String → Option ℕ) (format_time : ℕ → String)
    (scan : String → Option ℕ) where
  get-refreshes :
      (env : CredEnv) (now : ℕ) (key : CredKey) (w : Vault)
      → w.cache ≡ []
      → get parse_time format_time scan env now key w
        ≡ refresh parse_time format_time scan env now key w
  unfolding get find_entry
  get-refreshes env now key w h =
      let k : find_entry key w.cache ≡ none = ap (find_entry key) h in rw (get, k) refl

  -- An entry without an expiry is never renewed.
  get-kept :
      (env : CredEnv) (t : ℕ) (key : CredKey) (c : AwsCredentials) (w : Vault)
      → get parse_time format_time scan env t key
          (store_entry key (record { creds = c; expiry = none }) w)
        ≡ (store_entry key (record { creds = c; expiry = none }) w, got c)
  unfolding get needs_refresh
  get-kept env t key c w =
      let k = find_entry-store_entry key (record { creds = c; expiry = none }) w in rw (get, k) refl

  refresh_expiring-kept :
      (env : CredKey → CredEnv) (t : ℕ) (key : CredKey) (c : AwsCredentials) (w : Vault)
      → w.cache ≡ []
      → refresh_expiring parse_time format_time scan env t
          (store_entry key (record { creds = c; expiry = none }) w)
        ≡ store_entry key (record { creds = c; expiry = none }) w
  unfolding refresh_expiring to_refresh store_entry drop_entry needs_refresh refresh_all drop_if
  refresh_expiring-kept env t key c w h =
      let v = store_entry key (record { creds = c; expiry = none }) w in
      let k : to_refresh parse_time format_time scan t v.cache ≡ [] =
        ap (λ cache. to_refresh parse_time format_time scan t (drop_entry key cache)) h in
      ap (λ keys. refresh_all parse_time format_time scan env t keys v) k

  refresh_reused :
      (env : CredEnv) (now : ℕ) (key : CredKey) (w : Vault) (data_of : SecretData) (s : MfaSession)
      → env.read ≡ true
      → w.secrets key.namespace key.name ≡ some data_of
      → is_empty (secret_val data_of "roleArn") ≡ true
      → is_mfa_configured data_of ≡ true
      → usable parse_time now (saved_session parse_time data_of) ≡ some s
      → refresh parse_time format_time scan env now key w
        ≡ (store_entry key (record { creds = s.credentials; expiry = none }) w, got s.credentials)
  unfolding refresh refresh_from fast_path take_base resolve_with_mfa cache_base
  refresh_reused env now key w data_of s a b c d e =
      rw (refresh, a, b, refresh_from, fast_path, c, resolve_with_mfa, d, e, take_base, c) refl

  -- Behind a restart, a secret without a role whose MFA session is still usable is answered from the
  -- secret, and from then on for good: at any later time, expired or not, a `Get` gives the session's
  -- credentials again, and the refresh in the background leaves them as they are.
  pub reused_for_good :
      (env later : CredEnv) (background : CredKey → CredEnv) (now t : ℕ) (key : CredKey) (w : Vault)
      (data_of : SecretData) (s : MfaSession)
      → w.cache ≡ []
      → env.read ≡ true
      → w.secrets key.namespace key.name ≡ some data_of
      → is_empty (secret_val data_of "roleArn") ≡ true
      → is_mfa_configured data_of ≡ true
      → usable parse_time now (saved_session parse_time data_of) ≡ some s
      → (get parse_time format_time scan later t key
            (get parse_time format_time scan env now key w).0
          ≡ ((get parse_time format_time scan env now key w).0, got s.credentials))
        × (refresh_expiring parse_time format_time scan background t
              (get parse_time format_time scan env now key w).0
            ≡ (get parse_time format_time scan env now key w).0)
  reused_for_good env later background now t key w data_of s h a b c d e =
      let k = get-refreshes env now key w h ∙ refresh_reused env now key w data_of s a b c d e in
      rw k (
        get-kept later t key s.credentials w,
        refresh_expiring-kept background t key s.credentials w h,
      )

  -- The text is the one that `secretVal` gives back.
  unfoldable pub IsTrimmed : MfaSession → Type 0
  IsTrimmed s =
      (trim_space s.credentials.access_key_id ≡ s.credentials.access_key_id)
      × (trim_space s.credentials.secret_access_key ≡ s.credentials.secret_access_key)
      × (trim_space s.credentials.session_token ≡ s.credentials.session_token)
      × (trim_space (format_time s.expiry) ≡ format_time s.expiry)

  secret_val-put :
      (data_of : SecretData) (s : MfaSession)
      → IsTrimmed s
      → (secret_val (put (role_entries parse_time format_time scan s) data_of) "roleAccessKeyId"
          ≡ s.credentials.access_key_id)
        × (secret_val
              (put (role_entries parse_time format_time scan s) data_of)
              "roleSecretAccessKey"
            ≡ s.credentials.secret_access_key)
        × (secret_val (put (role_entries parse_time format_time scan s) data_of) "roleSessionToken"
            ≡ s.credentials.session_token)
        × (secret_val (put (role_entries parse_time format_time scan s) data_of) "roleSessionExpiry"
            ≡ format_time s.expiry)
  unfolding role_entries put secret_val lookup IsTrimmed
  secret_val-put data_of s h = h

  secret_val-put_other :
      (data_of : SecretData) (s : MfaSession)
      → secret_val (put (role_entries parse_time format_time scan s) data_of) "roleArn"
        ≡ secret_val data_of "roleArn"
  unfolding role_entries put secret_val lookup
  secret_val-put_other data_of s = refl

  role_session-put :
      (data_of : SecretData) (s : MfaSession)
      → IsTrimmed s
      → is_empty s.credentials.session_token ≡ false
      → parse_time (format_time s.expiry) ≡ some s.expiry
      → role_session parse_time (put (role_entries parse_time format_time scan s) data_of) ≡ some s
  unfolding role_session
  role_session-put data_of s h e f =
      let (a, b, c, d) = secret_val-put data_of s h in
      rw (role_session, c, e, d, f, a, b)
        (ap
          (λ token. some (record {
            credentials = record s.credentials { session_token = token };
            expiry = s.expiry;
          }))
          c)

  -- What a refresh that assumes the role leaves: the session, in the secret.
  refresh_assumed :
      (env : CredEnv) (now : ℕ) (key : CredKey) (w : Vault) (data_of : SecretData)
      (base : AwsCredentials) (session : Option MfaSession) (s : MfaSession)
      → env.read ≡ true
      → env.patched ≡ true
      → w.secrets key.namespace key.name ≡ some data_of
      → is_empty (secret_val data_of "roleArn") ≡ false
      → cached_role_session parse_time now data_of ≡ none
      → resolve_with_mfa parse_time env.sts now data_of ≡ some (base, session)
      → role_answer parse_time format_time scan env data_of base ≡ some s
      → ((refresh parse_time format_time scan env now key w).1 ≡ got s.credentials)
        × ((refresh parse_time format_time scan env now key w).0.secrets key.namespace key.name
            ≡ some (put (role_entries parse_time format_time scan s) data_of))
  unfolding refresh refresh_from fast_path take_base cache_role patch_secret store_entry
  refresh_assumed env now key w data_of base session s a p b c d e g =
      rw
        (
          refresh, a, b, refresh_from, fast_path, c, d, e, take_base, c, g, cache_role,
          patch_secret, p,
        )
        (
          refl,
          rw ((eq_iff key.namespace key.namespace).1 refl, (eq_iff key.name key.name).1 refl) refl,
        )

  fast_path-put :
      (t : ℕ) (data_of : SecretData) (s : MfaSession)
      → is_empty (secret_val data_of "roleArn") ≡ false
      → IsTrimmed s
      → is_empty s.credentials.session_token ≡ false
      → parse_time (format_time s.expiry) ≡ some s.expiry
      → t + mfa_session_grace ≤ s.expiry
      → fast_path parse_time format_time scan t
          (put (role_entries parse_time format_time scan s) data_of)
        ≡ some s
  unfolding fast_path cached_role_session usable is_expired
  fast_path-put t data_of s c h e f g =
      let a = secret_val-put_other data_of s in
      let b = role_session-put data_of s h e f in
      let x : ltb s.expiry (t + mfa_session_grace) ≡ false = ground arith in
      rw (fast_path, a, c, cached_role_session, b, usable, is_expired, x) refl

  refresh_fast :
      (env : CredEnv) (t : ℕ) (key : CredKey) (w : Vault) (data_of : SecretData) (s : MfaSession)
      → env.read ≡ true
      → w.secrets key.namespace key.name ≡ some data_of
      → fast_path parse_time format_time scan t data_of ≡ some s
      → refresh parse_time format_time scan env t key w ≡ (
        store_entry key (record { creds = s.credentials; expiry = some s.expiry }) w,
        got s.credentials,
      )
  unfolding refresh refresh_from
  refresh_fast env t key w data_of s a b c = rw (refresh, a, b, refresh_from, c) refl

  -- Behind a restart, a `Get` for a secret whose role is assumed anew, where the write of the secret
  -- succeeds, stores the session: behind a second restart, up to five minutes before the session expires,
  -- a `Get` that reads the secret answers with the same session without a call of STS, and caches it with
  -- its expiry. The session's texts are as `secretVal` reads them, its token is not empty, and the text
  -- of its expiry parses to it.
  pub assumed_session-survives :
      (env later : CredEnv) (now t : ℕ) (key : CredKey) (w : Vault) (data_of : SecretData)
      (base : AwsCredentials) (session : Option MfaSession) (s : MfaSession)
      → w.cache ≡ []
      → env.read ≡ true
      → env.patched ≡ true
      → later.read ≡ true
      → w.secrets key.namespace key.name ≡ some data_of
      → is_empty (secret_val data_of "roleArn") ≡ false
      → cached_role_session parse_time now data_of ≡ none
      → resolve_with_mfa parse_time env.sts now data_of ≡ some (base, session)
      → role_answer parse_time format_time scan env data_of base ≡ some s
      → IsTrimmed s
      → is_empty s.credentials.session_token ≡ false
      → parse_time (format_time s.expiry) ≡ some s.expiry
      → t + mfa_session_grace ≤ s.expiry
      → ((get parse_time format_time scan env now key w).1 ≡ got s.credentials)
        × (get parse_time format_time scan later t key
              (record (get parse_time format_time scan env now key w).0 { cache = [] })
            ≡ (
              store_entry key
                  (record { creds = s.credentials; expiry = some s.expiry })
                  (record (get parse_time format_time scan env now key w).0 { cache = [] }),
              got s.credentials,
            ))
  assumed_session-survives env later now t key w data_of base session s h a p l b c d e g i j k m =
      let q = get-refreshes env now key w h in
      let (x, y) = refresh_assumed env now key w data_of base session s a p b c d e g in
      let v = record (refresh parse_time format_time scan env now key w).0 { cache = [] } in
      rw q (
        x,
        get-refreshes later t key v refl
            ∙ refresh_fast later t key v (put (role_entries parse_time format_time scan s) data_of)
                s l y (fast_path-put t data_of s c i j k m),
      )
