-- ===== src/Node/JoinToken/Current.antt =====
-- The NetConfig that a handler works with.
use public_cloud_vm_provisio.Prelude.{
  ◌⊎◌, ℕ, ◌+◌, ◌≤◌, String, ◌≡◌, refl, sym, ap, ◌∙◌, inl, inr, Bool, true, false, Option, none,
  some, List, [], ◌∷◌, arith, Bool-cases, Option-cases, is_empty, append, subst,
}
use public_cloud_vm_provisio.Vpn.NetConfig.{NetConfigStatus}
use public_cloud_vm_provisio.Node.JoinToken.{
  TokenEnv, TokenWorld, BootstrapToken, join_command, with_command, patch_first, create_token,
  publish_token, read_cluster_info, refresh_local_join_token, needs_refresh, after_refresh,
  require_first, require_net_config, rand_str,
}

-- It has a join command that is at most 20 hours old.
pub record IsCurrent (now : ℕ) (nc : NetConfigStatus) : Type 0 where
  pub has_command : is_empty nc.cluster_join_command ≡ false
  pub at : ℕ
  pub refreshed : nc.join_token_refreshed_at ≡ some at
  pub recent : now ≤ at + 72000

-- The first NetConfig, where there is one, is current.
unfoldable pub IsFirstCurrent : ℕ → List NetConfigStatus → Type 0
IsFirstCurrent now [] = Unit
IsFirstCurrent now (nc ∷ rest) = IsCurrent now nc

-- The first of the listed NetConfigs is current.
abbrev pub ListsCurrent : TokenEnv → ℕ → Type 0
ListsCurrent env now =
    (first : NetConfigStatus) × (rest : List NetConfigStatus) × (env.listed ≡ some (first ∷ rest))
    × IsCurrent now first

-- Where an answer comes from: the cache's list, where it is current, or else the cache behind a
-- refresh, which has left a current NetConfig as the first on the API server, where there is one. An error comes
-- only where none is listed, or the first is not current.
unfoldable pub IsServed : TokenEnv → ℕ → TokenWorld → TokenWorld × Option NetConfigStatus → Type 0
IsServed env now w (v, none) = ¬ (ListsCurrent env now)
IsServed env now w (v, some nc) =
    (first : NetConfigStatus) × (rest : List NetConfigStatus) × (env.listed ≡ some (first ∷ rest))
    × ((IsCurrent now first × (nc ≡ first) × (v ≡ w))
        ⊎ ((¬ (IsCurrent now first)) × (env.refetched ≡ some nc) × IsFirstCurrent now v.configs))

kept-IsCurrent : (now : ℕ) (nc : NetConfigStatus) → needs_refresh now nc ≡ false → IsCurrent now nc
unfolding needs_refresh
kept-IsCurrent now nc h = elim (Bool-cases (is_empty nc.cluster_join_command)) [
  | inl e ↦ ground arith
  | inr e ↦ elim (Option-cases nc.join_token_refreshed_at) [
    | inl f ↦ ground arith
    | inr (t, f) ↦ record { has_command = e; at = t; refreshed = f; recent = ground arith }
  ]
]

patch_first-IsFirstCurrent :
    (now : ℕ) (server token hash : String) (configs : List NetConfigStatus)
    → IsFirstCurrent now (patch_first now (join_command server token hash) configs)
unfolding IsFirstCurrent patch_first with_command join_command append is_empty
patch_first-IsFirstCurrent now server token hash [] = tt
patch_first-IsFirstCurrent now server token hash (nc ∷ configs) = record {
  has_command = refl;
  at = now;
  refreshed = refl;
  recent = omega arith;
}

publish_token-IsFirstCurrent :
    (env : TokenEnv) (now : ℕ) (token : String) (w : TokenWorld)
    → (publish_token env now token w).1 ≡ true
    → IsFirstCurrent now (publish_token env now token w).0.configs
unfolding publish_token
publish_token-IsFirstCurrent env now token w h = elim (Option-cases (read_cluster_info env)) [
  | inl e ↦
      let p : publish_token env now token w ≡ (w, false) = rw (publish_token, e) refl in
      let q = ap (λ r. r.1) (sym p) ∙ h in ground arith
  | inr ((server, hash), e) ↦ elim (Bool-cases env.patched) [
    | inl f ↦ rw (publish_token, e, f) (patch_first-IsFirstCurrent now server token hash w.configs)
    | inr f ↦
        let p : publish_token env now token w ≡ (w, false) = rw (publish_token, e, f) refl in
        let q = ap (λ r. r.1) (sym p) ∙ h in ground arith
  ]
]

refresh-IsFirstCurrent :
    (env : TokenEnv) (now : ℕ) (w : TokenWorld)
    → (refresh_local_join_token env now w).1 ≡ true
    → IsFirstCurrent now (refresh_local_join_token env now w).0.configs
unfolding refresh_local_join_token
refresh-IsFirstCurrent env now w h = elim (Option-cases (rand_str env.random_id)) [
  | inl e ↦
      let p : refresh_local_join_token env now w ≡ (w, false) =
        rw (refresh_local_join_token, e) refl in
      let q = ap (λ r. r.1) (sym p) ∙ h in ground arith
  | inr (id, e) ↦ elim (Option-cases (rand_str env.random_secret)) [
    | inl f ↦
        let p : refresh_local_join_token env now w ≡ (w, false) =
          rw (refresh_local_join_token, e, f) refl in
        let q = ap (λ r. r.1) (sym p) ∙ h in ground arith
    | inr (secret, f) ↦
        let token : BootstrapToken = record {
          id = id;
          secret = secret;
          expiration = now + 86400;
        } in
        let c = create_token env.created token w in
        elim (Bool-cases c.1) [
          | inl g ↦
              let p : refresh_local_join_token env now w
                  ≡ publish_token env now (append id (append "." secret)) c.0 =
                rw (refresh_local_join_token, e, f, g) refl in
              rw p (
                publish_token-IsFirstCurrent env now (append id (append "." secret)) c.0
                  (ap (λ r. r.1) (sym p) ∙ h))
          | inr g ↦
              let p : refresh_local_join_token env now w ≡ (c.0, false) =
                rw (refresh_local_join_token, e, f, g) refl in
              let q = ap (λ r. r.1) (sym p) ∙ h in ground arith
        ]
  ]
]

stale-IsCurrent :
    (now : ℕ) (nc : NetConfigStatus) → needs_refresh now nc ≡ true → ¬ (IsCurrent now nc)
unfolding needs_refresh
stale-IsCurrent now nc h c =
    let old = rw (needs_refresh, c.has_command, c.refreshed) at h in
    absurd (ground (arith, c.recent))

old-ListsCurrent :
    (env : TokenEnv) (now : ℕ) (first : NetConfigStatus) (rest : List NetConfigStatus)
    → env.listed ≡ some (first ∷ rest)
    → ¬ (IsCurrent now first)
    → ¬ (ListsCurrent env now)
old-ListsCurrent env now first rest listed old (nc, more, e, c) =
    let same : nc ≡ first = cc in old (subst (IsCurrent now) same c)

after_refresh-IsServed :
    (env : TokenEnv) (now : ℕ) (w : TokenWorld) (r : TokenWorld × Bool) (first : NetConfigStatus)
    (rest : List NetConfigStatus)
    → env.listed ≡ some (first ∷ rest)
    → ¬ (IsCurrent now first)
    → (r.1 ≡ true → IsFirstCurrent now r.0.configs)
    → IsServed env now w (after_refresh env r)
unfolding IsServed after_refresh
after_refresh-IsServed env now w (v, false) first rest listed old h =
    old-ListsCurrent env now first rest listed old
after_refresh-IsServed env now w (v, true) first rest listed old h = fetched env.refetched refl
  where
    fetched : (o : Option NetConfigStatus) → env.refetched ≡ o → IsServed env now w (v, o)
    fetched none e = old-ListsCurrent env now first rest listed old
    fetched (some nc) e = (first, rest, listed, inr (old, e, h refl))

require_first-IsServed :
    (env : TokenEnv) (now : ℕ) (configs : List NetConfigStatus) (w : TokenWorld)
    → env.listed ≡ some configs
    → IsServed env now w (require_first env now configs w)
unfolding require_first IsServed
require_first-IsServed env now [] w e = λ (nc, more, f, c). cc
require_first-IsServed env now (nc ∷ rest) w e = elim (Bool-cases (needs_refresh now nc)) [
  | inl f ↦
      rw (require_first, f)
        (after_refresh-IsServed env now w (refresh_local_join_token env now w) nc rest e
          (stale-IsCurrent now nc f) (refresh-IsFirstCurrent env now w))
  | inr f ↦ rw (require_first, f) (nc, rest, e, inl (kept-IsCurrent now nc f, refl, refl))
]

-- A NetConfig that `requireNetConfig` answers is the first of the listed ones where that has a join
-- command that is not empty and at most 20 hours old. Else it is what the cache gives behind a
-- refresh, which has left such a command in the first NetConfig on the API server, where there is
-- one. An error comes only where none is listed, or the first listed one has no such command.
pub require_net_config-IsServed :
    (env : TokenEnv) (now : ℕ) (w : TokenWorld) → IsServed env now w (require_net_config env now w)
unfolding require_net_config IsServed
require_net_config-IsServed env now w = from env.listed refl
  where
    from :
        (o : Option (List NetConfigStatus))
        → env.listed ≡ o
        → IsServed env now w
            (elim o [ none ↦ (w, none) | some configs ↦ require_first env now configs w ])
    from none e = λ (nc, more, f, c). cc
    from (some configs) e = require_first-IsServed env now configs w e
