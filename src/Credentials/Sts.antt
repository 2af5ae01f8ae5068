-- ===== src/Credentials/Sts.antt =====
-- The sessions of provider/aws/mfa.go: what a secret holds of them, and how new ones are made. RFC 3339
-- texts and `fmt.Sscan` are Go's: `parse_time` stands for `time.Parse`, and `scan` for the number that
-- Sscan reads where it is not negative.
use public_cloud_vm_provisio.Prelude.{
  ℕ, ◌+◌, String, Bool, not, ◌&&◌, ◌||◌, Option, none, some, List, ltb, eqb, if◌then◌else◌,
  is_empty, trim_space, atoi,
}
use public_cloud_vm_provisio.Cluster.Secrets.{lookup}

-- `AWSCredentials`
pub record AwsCredentials : Type 0 where
  pub access_key_id : String
  pub secret_access_key : String
  pub session_token : String

-- `MFASession`
pub record MfaSession : Type 0 where
  pub credentials : AwsCredentials
  pub expiry : ℕ

abbrev pub SecretData : Type 0
SecretData = List (String × String)

-- `secretVal`
unfoldable pub secret_val : SecretData → String → String
unfolding lookup trim_space
secret_val data_of key = elim (lookup key data_of) [ none ↦ "" | some v ↦ trim_space v ]

-- `mfaSessionGrace`, five minutes
abbrev pub mfa_session_grace : ℕ
mfa_session_grace = 300

-- `IsExpired`
unfoldable pub is_expired : ℕ → MfaSession → Bool
is_expired now s = ltb s.expiry (now + mfa_session_grace)

-- `IsMFAConfigured`
unfoldable pub is_mfa_configured : SecretData → Bool
unfolding secret_val is_empty
is_mfa_configured data_of =
    not (is_empty (secret_val data_of "mfaSerialNumber"))
    && not (is_empty (secret_val data_of "mfaTotpSecret"))

-- The long-lived key pair with the given session token.
unfoldable pub with_token : SecretData → String → AwsCredentials
unfolding secret_val
with_token data_of token = record {
  access_key_id = secret_val data_of "awsAccessKeyId";
  secret_access_key = secret_val data_of "awsSecretAccessKey";
  session_token = token;
}

-- `ResolveAWSCredentials`
unfoldable pub resolve_aws_credentials : SecretData → AwsCredentials
unfolding with_token
resolve_aws_credentials data_of = with_token data_of (secret_val data_of "awsSessionToken")

-- The lifetime that is asked of GetSessionToken.
unfoldable pub mfa_duration : SecretData → ℕ
unfolding secret_val is_empty atoi
mfa_duration data_of = elim (atoi (secret_val data_of "mfaDurationSeconds")) [
  | none ↦ 43200
  | some d ↦ if ltb d 900 || ltb 129600 d then 43200 else d
]

-- What the calls of one run answer.
pub record StsEnv : Type 0 where
  pub totp : String → Option String  -- generateTOTPCode
  pub get_session_token : String → String → String → String → ℕ → Option MfaSession
  pub assume_role : AwsCredentials → String → String → String → ℕ → Option MfaSession

-- A new session by GetSessionToken.
unfoldable pub fresh_session : StsEnv → SecretData → Option MfaSession
unfolding secret_val mfa_duration
fresh_session env data_of = elim (env.totp (secret_val data_of "mfaTotpSecret")) [
  | none ↦ none
  | some token_code ↦
      env.get_session_token (secret_val data_of "awsAccessKeyId")
        (secret_val data_of "awsSecretAccessKey") (secret_val data_of "mfaSerialNumber") token_code
        (mfa_duration data_of)
]

-- `AssumeRole`
unfoldable pub assume_role :
    StsEnv → AwsCredentials → String → String → String → ℕ → Option MfaSession
unfolding is_empty
assume_role env base role_arn session_name external_id duration =
    env.assume_role base role_arn
      (if is_empty session_name then "remote-cluster-provisioner" else session_name) external_id
      (if eqb duration 0 then 3600 else duration)

-- `parseRoleDuration`
unfoldable pub parse_role_duration : (String → Option ℕ) → String → ℕ
unfolding is_empty
parse_role_duration scan text =
    if is_empty text
    then 0
    else elim (scan text) [ none ↦ 0 | some d ↦ if ltb d 900 || ltb 43200 d then 0 else d ]

module _ (parse_time : String → Option ℕ) where
  -- The session by GetSessionToken that the secret holds.
  unfoldable pub saved_session : SecretData → Option MfaSession
  unfolding secret_val with_token is_empty
  saved_session data_of =
      let token = secret_val data_of "awsSessionToken" in
      let raw = secret_val data_of "awsSessionExpiry" in
      if is_empty token || is_empty raw then none else elim (parse_time raw) [
        | none ↦ none
        | some t ↦ some (record { credentials = with_token data_of token; expiry = t })
      ]

  unfoldable pub usable : ℕ → Option MfaSession → Option MfaSession
  unfolding is_expired
  usable now none = none
  usable now (some s) = if is_expired now s then none else some s

  -- The credentials, with the session where it is new.
  unfoldable pub with_session : Option MfaSession → Option (AwsCredentials × Option MfaSession)
  with_session none = none
  with_session (some s) = some (s.credentials, some s)

  -- `ResolveAWSCredentialsWithMFA`
  unfoldable pub resolve_with_mfa :
      StsEnv → ℕ → SecretData → Option (AwsCredentials × Option MfaSession)
  unfolding is_mfa_configured resolve_aws_credentials usable saved_session with_session
      fresh_session
  resolve_with_mfa env now data_of =
      if not (is_mfa_configured data_of)
      then some (resolve_aws_credentials data_of, none)
      else elim (usable now (saved_session data_of)) [
        | some s ↦ some (s.credentials, none)
        | none ↦ with_session (fresh_session env data_of)
      ]

  -- The session by AssumeRole that the secret holds.
  unfoldable pub role_session : SecretData → Option MfaSession
  unfolding secret_val is_empty
  role_session data_of =
      let token = secret_val data_of "roleSessionToken" in
      if is_empty token then none else elim (parse_time (secret_val data_of "roleSessionExpiry")) [
        | none ↦ none
        | some t ↦ some (record {
          credentials = record {
            access_key_id = secret_val data_of "roleAccessKeyId";
            secret_access_key = secret_val data_of "roleSecretAccessKey";
            session_token = token;
          };
          expiry = t;
        })
      ]

  -- `CachedRoleSession`, with the grace of the manager.
  unfoldable pub cached_role_session : ℕ → SecretData → Option MfaSession
  unfolding usable role_session
  cached_role_session now data_of = usable now (role_session data_of)
