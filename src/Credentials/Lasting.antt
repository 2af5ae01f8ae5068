-- ===== src/Credentials/Lasting.antt =====
-- How long the sessions last that STS issues and that a secret holds.
use public_cloud_vm_provisio.Prelude.{
  ℕ, ◌+◌, ◌≤◌, String, ◌≡◌, refl, sym, ◌∙◌, inl, inr, Option, none, some, arith, eqb, if◌then◌else◌,
  Bool-cases, Option-cases, atoi,
}
use public_cloud_vm_provisio.Credentials.Sts.{
  AwsCredentials, MfaSession, SecretData, StsEnv, secret_val, mfa_session_grace, resolve_with_mfa,
  assume_role, parse_role_duration, mfa_duration, usable, fresh_session, with_session,
  saved_session, is_mfa_configured,
}
use public_cloud_vm_provisio.Credentials.Manager.{CredEnv, role_answer}

-- AWS issues a session for the time that was asked for.
pub record IsOutlasting (env : StsEnv) (now : ℕ) : Type 0 where
  pub mfa :
      (key_id secret serial token_code : String) (d : ℕ) (s : MfaSession)
      → env.get_session_token key_id secret serial token_code d ≡ some s
      → now + d ≤ s.expiry
  pub role :
      (base : AwsCredentials) (arn name external : String) (d : ℕ) (s : MfaSession)
      → env.assume_role base arn name external d ≡ some s
      → now + d ≤ s.expiry

mfa_duration_le : (data_of : SecretData) → 900 ≤ mfa_duration data_of
unfolding mfa_duration
mfa_duration_le data_of = elim (Option-cases (atoi (secret_val data_of "mfaDurationSeconds"))) [
  | inl e ↦ rw (mfa_duration, e) (omega arith)
  | inr (d, e) ↦ rw (mfa_duration, e) (ground arith)
]

-- The duration that is asked of AssumeRole.
role_duration_le :
    (scan : String → Option ℕ) (text : String)
    → 900 ≤ (if eqb (parse_role_duration scan text) 0 then 3600 else parse_role_duration scan text)
unfolding parse_role_duration
role_duration_le scan text = elim (Option-cases (scan text)) [
  | inl e ↦ rw (parse_role_duration, e) (ground arith)
  | inr (d, e) ↦ rw (parse_role_duration, e) (ground arith)
]

-- The session is not near its expiry.
unfoldable pub Lasts : ℕ → MfaSession → Type 0
Lasts now s = now + mfa_session_grace ≤ s.expiry

pub usable-Lasts :
    (parse_time : String → Option ℕ) (now : ℕ) (o : Option MfaSession) (s : MfaSession)
    → usable parse_time now o ≡ some s
    → Lasts now s
unfolding usable Lasts
usable-Lasts parse_time now none s h = ground arith
usable-Lasts parse_time now (some t) s h = ground arith

fresh_session-Lasts :
    (env : StsEnv) (now : ℕ) (data_of : SecretData) (s : MfaSession)
    → IsOutlasting env now
    → fresh_session env data_of ≡ some s
    → Lasts now s
unfolding fresh_session Lasts
fresh_session-Lasts env now data_of s h e =
    elim (Option-cases (env.totp (secret_val data_of "mfaTotpSecret"))) [
      | inl f ↦
          let k : fresh_session env data_of ≡ none = rw (fresh_session, f) refl in ground arith
      | inr (token_code, f) ↦
          let asked =
            env.get_session_token (secret_val data_of "awsAccessKeyId")
              (secret_val data_of "awsSecretAccessKey") (secret_val data_of "mfaSerialNumber")
              token_code (mfa_duration data_of) in
          let k : fresh_session env data_of ≡ asked = rw (fresh_session, f) refl in
          let l = h.mfa _ _ _ _ _ s (sym k ∙ e) in let d = mfa_duration_le data_of in omega arith
    ]

pub role_answer-Lasts :
    (parse_time : String → Option ℕ) (format_time : ℕ → String) (scan : String → Option ℕ)
    (env : CredEnv) (now : ℕ) (data_of : SecretData) (base : AwsCredentials) (s : MfaSession)
    → IsOutlasting env.sts now
    → role_answer parse_time format_time scan env data_of base ≡ some s
    → Lasts now s
unfolding role_answer assume_role Lasts
role_answer-Lasts parse_time format_time scan env now data_of base s h e =
    let l = h.role _ _ _ _ _ s e in
    let d = role_duration_le scan (secret_val data_of "roleDurationSeconds") in omega arith

-- A new session is not near its expiry.
unfoldable pub IsNew : ℕ → Option (AwsCredentials × Option MfaSession) → Type 0
IsNew now none = Unit
IsNew now (some (base, none)) = Unit
IsNew now (some (base, some s)) = Lasts now s × (base ≡ s.credentials)

with_session-IsNew :
    (parse_time : String → Option ℕ) (now : ℕ) (o : Option MfaSession)
    → ((s : MfaSession) → o ≡ some s → Lasts now s)
    → IsNew now (with_session parse_time o)
unfolding IsNew with_session
with_session-IsNew parse_time now none h = tt
with_session-IsNew parse_time now (some s) h = (h s refl, refl)

pub resolve-IsNew :
    (parse_time : String → Option ℕ) (env : StsEnv) (now : ℕ) (data_of : SecretData)
    → IsOutlasting env now
    → IsNew now (resolve_with_mfa parse_time env now data_of)
unfolding resolve_with_mfa IsNew
resolve-IsNew parse_time env now data_of h = elim (Bool-cases (is_mfa_configured data_of)) [
  | inr e ↦ rw (resolve_with_mfa, e) tt
  | inl e ↦ elim (Option-cases (usable parse_time now (saved_session parse_time data_of))) [
    | inr (s, f) ↦ rw (resolve_with_mfa, e, f) tt
    | inl f ↦
        rw (resolve_with_mfa, e, f)
          (with_session-IsNew parse_time now (fresh_session env data_of)
            (λ s g. fresh_session-Lasts env now data_of s h g))
  ]
]
