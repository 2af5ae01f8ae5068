-- ===== src/Cluster/Reconcile/Provision.antt =====
-- The retries of a node whose phase is Failed or Provisioning: what any number of reconciles leaves of
-- a control plane that has its join command, and of a worker that has joined.
use public_cloud_vm_provisio.Prelude.{
  ℕ, String, ◌≡◌, refl, ◌∙◌, ◌⊎◌, inl, inr, true, false, not, ◌||◌, Option, Bool-cases,
  Option-cases, is_empty, Bool, ◌&&◌, List, [], ◌∷◌, ◌++◌,
}
use public_cloud_vm_provisio.Cluster.{
  World, RemoteCluster, provisioning, failed, refetch, set_status, Phase, status_update, Status,
  write, with_status, is_fresh, update,
}
use public_cloud_vm_provisio.Cluster.Secrets.{
  ProtectEnv, protect_secrets, protect_auth, protect_vpn,
}
use public_cloud_vm_provisio.Cluster.Reconcile.{
  Env, Fetched, found, gone, unreadable, reconcile_fetched, reconcile_phase, reconcile_provisioning,
  reconcile,
}

-- The object that a retry works on: it is there, with our finalizer, and its phase is one of the two.
pub record IsRetried (o : RemoteCluster) : Type 0 where
  pub kept : o.deleted ≡ false
  pub protected : o.finalizer ≡ true
  pub phase : (o.status.phase ≡ failed) ⊎ (o.status.phase ≡ provisioning)

protect_auth-same :
    (env : ProtectEnv) (w : World)
    → (protect_auth env w).cluster ≡ w.cluster
      × (protect_auth env w).stored ≡ w.stored
      × (protect_auth env w).resources ≡ w.resources
      × (protect_auth env w).remote ≡ w.remote
      × (protect_auth env w).completed ≡ w.completed
unfolding protect_auth
protect_auth-same env w = elim (Option-cases w.auth) [
  | inl e ↦ rw (protect_auth, e) (refl, refl, refl, refl, refl)
  | inr (s, e) ↦ elim (Bool-cases env.auth_read) [
    | inl f ↦ rw (protect_auth, e, f) (refl, refl, refl, refl, refl)
    | inr f ↦ rw (protect_auth, e, f) (refl, refl, refl, refl, refl)
  ]
]

protect_vpn-same :
    (env : ProtectEnv) (w : World)
    → (protect_vpn env w).cluster ≡ w.cluster
      × (protect_vpn env w).stored ≡ w.stored
      × (protect_vpn env w).resources ≡ w.resources
      × (protect_vpn env w).remote ≡ w.remote
      × (protect_vpn env w).completed ≡ w.completed
unfolding protect_vpn
protect_vpn-same env w = elim (Option-cases w.vpn_secret) [
  | inl e ↦ rw (protect_vpn, e) (refl, refl, refl, refl, refl)
  | inr (s, e) ↦ elim (Bool-cases (is_empty w.cluster.vpn.credentials || not env.vpn_read)) [
    | inl f ↦ rw (protect_vpn, e, f) (refl, refl, refl, refl, refl)
    | inr f ↦ rw (protect_vpn, e, f) (refl, refl, refl, refl, refl)
  ]
]

pub protect_secrets-same :
    (env : ProtectEnv) (w : World)
    → (protect_secrets env w).cluster ≡ w.cluster
      × (protect_secrets env w).stored ≡ w.stored
      × (protect_secrets env w).resources ≡ w.resources
      × (protect_secrets env w).remote ≡ w.remote
      × (protect_secrets env w).completed ≡ w.completed
unfolding protect_secrets
protect_secrets-same env w =
    let (a, b, c, d, e) = protect_auth-same env w in
    let (p, q, r, s, t) = protect_vpn-same env (protect_auth env w) in
    (p ∙ a, q ∙ b, r ∙ c, s ∙ d, t ∙ e)

module _ (parse_time : String → Option ℕ) (format_time : ℕ → String) where
  pub reconcile-retries :
      (env : Env) (w : World)
      → IsRetried w.stored
      → reconcile_fetched parse_time format_time env (refetch w)
        ≡ reconcile_provisioning env (protect_secrets env.protect (refetch w))
  unfolding reconcile_fetched reconcile_phase
  reconcile-retries env w h = elim h.phase [
    | inl e ↦ rw (reconcile_fetched, h.kept, h.protected, e) refl
    | inr e ↦ rw (reconcile_fetched, h.kept, h.protected, e) refl
  ]

  -- Any number of reconciles, one behind the other.
  unfoldable pub reconcile_all : List Env → World → World
  unfolding reconcile
  reconcile_all [] w = w
  reconcile_all (env ∷ envs) w = reconcile_all envs (reconcile parse_time format_time env w).0

-- The status that `setStatus` makes of the handler's copy.
unfoldable pub next_status : Phase → String → Bool → World → Status
next_status phase reason is_error w = record w.cluster.status {
  phase = phase;
  conditions =
      w.cluster.status.conditions ++ record { reason = reason; is_true = not is_error } ∷ [];
}

-- `setStatus` writes it to both copies, or to the handler's alone.
pub set_status-cases :
    (accepted : Bool) (phase : Phase) (reason : String) (is_error : Bool) (w : World)
    → ((set_status accepted phase reason is_error w).0
        ≡ write (record w.stored { status = next_status phase reason is_error w }) w)
      ⊎ ((set_status accepted phase reason is_error w).0
          ≡ with_status (next_status phase reason is_error w) w)
unfolding set_status status_update next_status
set_status-cases accepted phase reason is_error w = elim (Bool-cases (accepted && is_fresh w)) [
  | inl f ↦ inl (rw (set_status, status_update, f) refl)
  | inr f ↦ inr (rw (set_status, status_update, f) refl)
]

pub Fetched-cases : (f : Fetched) → (f ≡ found) ⊎ ((f ≡ gone) ⊎ (f ≡ unreadable))
Fetched-cases found = inl refl
Fetched-cases gone = inr (inl refl)
Fetched-cases unreadable = inr (inr refl)

-- `r.Update` writes the handler's copy with the stored status, or nothing.
pub update-cases :
    (accepted : Bool) (w : World)
    → ((update accepted w).0 ≡ write (record w.cluster { status = w.stored.status }) w)
      ⊎ ((update accepted w).0 ≡ w)
unfolding update
update-cases accepted w = elim (Bool-cases (accepted && is_fresh w)) [
  | inl f ↦ inl (rw (update, f) refl)
  | inr f ↦ inr (rw (update, f) refl)
]
