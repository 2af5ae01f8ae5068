-- ===== src/Credentials/Examples.antt =====
-- The theorems on the credential manager at concrete values, and tests.
use public_cloud_vm_provisio.Prelude.{
  ℕ, itoa, digits, ◌+◌, ◌≡◌, refl, true, none, some, [], ◌∷◌, arith, drop_if,
}
use public_cloud_vm_provisio.Credentials.Sts.{
  MfaSession, SecretData, StsEnv, secret_val, resolve_with_mfa, usable, saved_session,
  is_mfa_configured, cached_role_session,
}
use public_cloud_vm_provisio.Credentials.Manager.{
  CredKey, CredEnv, Vault, got, get, refresh_expiring, role_answer, store_entry, evict,
}
use public_cloud_vm_provisio.Credentials.Lasting.{IsOutlasting}
use public_cloud_vm_provisio.Credentials.Fresh.{get-caches}
use public_cloud_vm_provisio.Credentials.Restart.{
  IsTrimmed, reused_for_good, assumed_session-survives,
}

abbrev key : CredKey
key = record { namespace = "infra"; name = "aws"; region = "eu-west-1" }

abbrev issued : ℕ → MfaSession
issued d = record {
  credentials = record {
    access_key_id = "ASIA";
    secret_access_key = "temporary";
    session_token = "token";
  };
  expiry = 1000 + d;
}

abbrev sts : StsEnv
sts = record {
  totp = λ seed. some "123456";
  get_session_token = λ key_id secret serial token_code d. some (issued d);
  assume_role = λ base arn name external d. some (issued d);
}

abbrev env : CredEnv
env = record { read = true; sts = sts; patched = true }

abbrev mfa_secret : SecretData
mfa_secret =
    ("awsAccessKeyId", "AKIA")
    ∷ ("awsSecretAccessKey", "static")
    ∷ ("mfaSerialNumber", "arn:mfa")
    ∷ ("mfaTotpSecret", "SEED")
    ∷ []

abbrev saved_secret : SecretData
saved_secret = ("awsSessionToken", "old") ∷ ("awsSessionExpiry", "5000") ∷ mfa_secret

abbrev role_secret : SecretData
role_secret =
    ("awsAccessKeyId", "AKIA") ∷ ("awsSecretAccessKey", "static") ∷ ("roleArn", "arn:role") ∷ []

abbrev vault_of : SecretData → Vault
vault_of data_of = record { cache = []; secrets = λ namespace name. some data_of }

outlasting : IsOutlasting sts 1000
outlasting = record {
  mfa = λ key_id secret serial token_code d s e. ground arith;
  role = λ base arn name external d s e. ground arith;
}

-- A new session by GetSessionToken, for twelve hours.
t1 : (get digits itoa digits env 1000 key (vault_of mfa_secret)).1 ≡ got (issued 43200).credentials
unfolding get
t1 = refl

-- 4000 seconds behind its expiry the session of the secret is still given out.
t2 :
    (get digits itoa digits env 9000 key
      (get digits itoa digits env 1000 key (vault_of saved_secret)).0).1
    ≡ got (record { access_key_id = "AKIA"; secret_access_key = "static"; session_token = "old" })
unfolding get
t2 = refl

-- An evicted session is renewed.
t3 :
    (get digits itoa digits env 9000 key
      (evict "infra" "aws" (get digits itoa digits env 1000 key (vault_of saved_secret)).0)).1
    ≡ got (issued 43200).credentials
unfolding get evict drop_if
t3 = refl

get-caches_example :
    get digits itoa digits env 1000 key
      (get digits itoa digits env 1000 key (vault_of mfa_secret)).0
    ≡ (
      (get digits itoa digits env 1000 key (vault_of mfa_secret)).0,
      got (issued 43200).credentials,
    )
get-caches_example =
    get-caches digits itoa digits env env 1000 key (vault_of mfa_secret) (issued 43200).credentials
      outlasting t1

abbrev old_session : MfaSession
old_session = record {
  credentials = record {
    access_key_id = "AKIA";
    secret_access_key = "static";
    session_token = "old";
  };
  expiry = 5000;
}

reused_for_good_example :
    (get digits itoa digits env 9000 key
        (get digits itoa digits env 1000 key (vault_of saved_secret)).0
      ≡ (
        (get digits itoa digits env 1000 key (vault_of saved_secret)).0,
        got old_session.credentials,
      ))
    × (refresh_expiring digits itoa digits
          (λ k. env)
          9000
          (get digits itoa digits env 1000 key (vault_of saved_secret)).0
        ≡ (get digits itoa digits env 1000 key (vault_of saved_secret)).0)
unfolding secret_val is_mfa_configured usable saved_session digits
reused_for_good_example =
    reused_for_good digits itoa digits env env (λ k. env) 1000 9000 key (vault_of saved_secret)
      saved_secret old_session refl refl refl refl refl refl

abbrev restarted : Vault
restarted = record (get digits itoa digits env 1000 key (vault_of role_secret)).0 { cache = [] }

assumed_session-survives_example :
    ((get digits itoa digits env 1000 key (vault_of role_secret)).1 ≡ got (issued 3600).credentials)
    × (get digits itoa digits env 4000 key restarted ≡ (
      store_entry key (record { creds = (issued 3600).credentials; expiry = some 4600 }) restarted,
      got (issued 3600).credentials,
    ))
unfolding secret_val cached_role_session resolve_with_mfa role_answer IsTrimmed itoa
assumed_session-survives_example =
    assumed_session-survives digits itoa digits env env 1000 4000 key (vault_of role_secret)
      role_secret
      (record { access_key_id = "AKIA"; secret_access_key = "static"; session_token = "" }) none
      (issued 3600) refl refl refl refl refl refl refl refl refl (refl, refl, refl, refl) refl refl
      (omega arith)
