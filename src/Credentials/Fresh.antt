-- ===== src/Credentials/Fresh.antt =====
-- What a `Get` that succeeds leaves in the cache.
use public_cloud_vm_provisio.Prelude.{
  ℕ, String, ◌≡◌, refl, sym, ap, ◌∙◌, inl, inr, true, false, Option, none, some, [], ◌∷◌, arith,
  eq_iff, Bool-cases, Option-cases, is_empty,
}
use public_cloud_vm_provisio.Credentials.Sts.{
  AwsCredentials, MfaSession, SecretData, secret_val, resolve_with_mfa, cached_role_session,
  role_session,
}
use public_cloud_vm_provisio.Credentials.Lasting.{
  IsOutlasting, Lasts, IsNew, usable-Lasts, role_answer-Lasts, resolve-IsNew,
}
use public_cloud_vm_provisio.Credentials.Manager.{
  CredKey, role_entries, CredEntry, CredEnv, Vault, Refreshed, got, missing, refused, same_key,
  find_entry, store_entry, needs_refresh, cache_base, cache_role, role_answer, take_base, fast_path,
  refresh_from, refresh, get, patch_secret,
}

pub same_key_self : (key : CredKey) → same_key key key ≡ true
unfolding same_key
same_key_self key =
    rw
      (
        (eq_iff key.namespace key.namespace).1 refl,
        (eq_iff key.name key.name).1 refl,
        (eq_iff key.region key.region).1 refl,
      )
      refl

pub find_entry-store_entry :
    (key : CredKey) (e : CredEntry) (w : Vault)
    → find_entry key (store_entry key e w).cache ≡ some e
unfolding find_entry store_entry
find_entry-store_entry key e w = rw (find_entry, same_key_self key) refl

-- The cache has an entry with the answered credentials that is not near its expiry.
unfoldable pub IsCached : ℕ → CredKey → Vault × Refreshed → Type 0
IsCached now key (w, got c) =
    (e : CredEntry) × (find_entry key w.cache ≡ some e)
    × (e.creds ≡ c)
    × (needs_refresh now e ≡ false)
IsCached now key (w, missing) = Unit
IsCached now key (w, refused) = Unit

stored-IsCached :
    (now : ℕ) (key : CredKey) (e : CredEntry) (w : Vault)
    → needs_refresh now e ≡ false
    → IsCached now key (store_entry key e w, got e.creds)
unfolding IsCached
stored-IsCached now key e w h = (e, find_entry-store_entry key e w, refl, h)

missing-IsCached : (now : ℕ) (key : CredKey) (w : Vault) → IsCached now key (w, missing)
unfolding IsCached
missing-IsCached now key w = tt

refused-IsCached : (now : ℕ) (key : CredKey) (w : Vault) → IsCached now key (w, refused)
unfolding IsCached
refused-IsCached now key w = tt

module _ (parse_time : String → Option ℕ) (format_time : ℕ → String)
    (scan : String → Option ℕ) where
  lasting :
      (now : ℕ) (s : MfaSession) (c : AwsCredentials)
      → Lasts now s
      → needs_refresh now (record { creds = c; expiry = some s.expiry }) ≡ false
  unfolding Lasts needs_refresh
  lasting now s c h = ground arith

  base-IsCached :
      (env : CredEnv) (now : ℕ) (key : CredKey) (data_of : SecretData) (base : AwsCredentials)
      (session : Option MfaSession) (w : Vault)
      → IsNew now (some (base, session))
      → IsCached now key (cache_base parse_time format_time scan env key data_of base session w)
  unfolding cache_base IsNew needs_refresh
  base-IsCached env now key data_of base none w n =
      stored-IsCached now key (record { creds = base; expiry = none }) w refl
  base-IsCached env now key data_of base (some s) w (l, k) =
      stored-IsCached now key (record { creds = base; expiry = some s.expiry })
        (patch_secret env.patched key
          (("awsSessionToken", s.credentials.session_token)
            ∷ ("awsSessionExpiry", format_time s.expiry)
            ∷ [])
          data_of w)
        (lasting now s base l)

  role-IsCached :
      (env : CredEnv) (now : ℕ) (key : CredKey) (data_of : SecretData) (o : Option MfaSession)
      (w : Vault)
      → ((s : MfaSession) → o ≡ some s → Lasts now s)
      → IsCached now key (cache_role parse_time format_time scan env key data_of o w)
  unfolding cache_role role_entries IsCached
  role-IsCached env now key data_of none w n = tt
  role-IsCached env now key data_of (some s) w n =
      stored-IsCached now key (record { creds = s.credentials; expiry = some s.expiry })
        (patch_secret env.patched key (role_entries parse_time format_time scan s) data_of w)
        (lasting now s s.credentials (n s refl))

  take_base-IsCached :
      (env : CredEnv) (now : ℕ) (key : CredKey) (data_of : SecretData)
      (o : Option (AwsCredentials × Option MfaSession)) (w : Vault)
      → IsOutlasting env.sts now
      → IsNew now o
      → IsCached now key (take_base parse_time format_time scan env key data_of o w)
  unfolding take_base IsCached
  take_base-IsCached env now key data_of none w h n = tt
  take_base-IsCached env now key data_of (some (base, session)) w h n =
      elim (Bool-cases (is_empty (secret_val data_of "roleArn"))) [
        | inl e ↦ rw (take_base, e) (base-IsCached env now key data_of base session w n)
        | inr e ↦
            rw (take_base, e)
              (role-IsCached env now key data_of
                (role_answer parse_time format_time scan env data_of base) w
                (λ s g. role_answer-Lasts parse_time format_time scan env now data_of base s h g))
      ]

  fast_path-Lasts :
      (now : ℕ) (data_of : SecretData) (s : MfaSession)
      → fast_path parse_time format_time scan now data_of ≡ some s
      → Lasts now s
  unfolding fast_path cached_role_session
  fast_path-Lasts now data_of s e = elim (Bool-cases (is_empty (secret_val data_of "roleArn"))) [
    | inl f ↦
        let k : fast_path parse_time format_time scan now data_of ≡ none = rw (fast_path, f) refl in
        ground arith
    | inr f ↦
        let k : fast_path parse_time format_time scan now data_of
            ≡ cached_role_session parse_time now data_of =
          rw (fast_path, f) refl in
        usable-Lasts parse_time now (role_session parse_time data_of) s (sym k ∙ e)
  ]

  refresh-IsCached :
      (env : CredEnv) (now : ℕ) (key : CredKey) (w : Vault)
      → IsOutlasting env.sts now
      → IsCached now key (refresh parse_time format_time scan env now key w)
  unfolding refresh refresh_from
  refresh-IsCached env now key w h = elim (Bool-cases env.read) [
    | inr e ↦ rw (refresh, e) (refused-IsCached now key w)
    | inl e ↦ elim (Option-cases (w.secrets key.namespace key.name)) [
      | inl f ↦ rw (refresh, e, f) (missing-IsCached now key w)
      | inr (data_of, f) ↦ elim (Option-cases (fast_path parse_time format_time scan now data_of)) [
        | inl g ↦
            rw (refresh, e, f, refresh_from, g)
              (take_base-IsCached env now key data_of
                (resolve_with_mfa parse_time env.sts now data_of) w h
                (resolve-IsNew parse_time env.sts now data_of h))
        | inr (s, g) ↦
            rw (refresh, e, f, refresh_from, g)
              (stored-IsCached now key (record { creds = s.credentials; expiry = some s.expiry }) w
                (lasting now s s.credentials (fast_path-Lasts now data_of s g)))
      ]
    ]
  ]

  get-IsCached :
      (env : CredEnv) (now : ℕ) (key : CredKey) (w : Vault)
      → IsOutlasting env.sts now
      → IsCached now key (get parse_time format_time scan env now key w)
  unfolding get IsCached
  get-IsCached env now key w h = elim (Option-cases (find_entry key w.cache)) [
    | inl e ↦ rw (get, e) (refresh-IsCached env now key w h)
    | inr (entry, e) ↦ elim (Bool-cases (needs_refresh now entry)) [
      | inl f ↦ rw (get, e, f) (refresh-IsCached env now key w h)
      | inr f ↦ rw (get, e, f) (entry, e, refl, f)
    ]
  ]

  again :
      (env : CredEnv) (now : ℕ) (key : CredKey) (r : Vault × Refreshed) (c : AwsCredentials)
      → IsCached now key r
      → r.1 ≡ got c
      → get parse_time format_time scan env now key r.0 ≡ (r.0, got c)
  unfolding get IsCached
  again env now key (w, got d) c (entry, e, f, g) h =
      rw (get, e, g) (ap (λ x. (w, x)) (ap got f ∙ h))
  again env now key (w, missing) c k h = ground arith
  again env now key (w, refused) c k h = ground arith

  -- Where AWS issues sessions for at least the time that was asked for, a `Get` that answers with
  -- credentials leaves them in the cache: another `Get` for the same secret at that time, however its
  -- calls would answer, gives the same credentials and changes neither the cache nor a secret.
  pub get-caches :
      (env other : CredEnv) (now : ℕ) (key : CredKey) (w : Vault) (c : AwsCredentials)
      → IsOutlasting env.sts now
      → (get parse_time format_time scan env now key w).1 ≡ got c
      → get parse_time format_time scan other now key
          (get parse_time format_time scan env now key w).0
        ≡ ((get parse_time format_time scan env now key w).0, got c)
  get-caches env other now key w c h e =
      again other now key (get parse_time format_time scan env now key w) c
        (get-IsCached env now key w h) e
