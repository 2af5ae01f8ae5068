-- ===== src/Cluster/Reconcile/Stranded.antt =====
-- A worker that has joined and is not Ready.
use public_cloud_vm_provisio.Prelude.{
  ℕ, String, ◌≡◌, refl, sym, ap, ◌∙◌, ◌⊎◌, inl, inr, Bool, true, false, Option, none, some, List,
  [], ◌∷◌, Bool-cases, subst,
}
use public_cloud_vm_provisio.Cluster.{
  World, Phase, RemoteCluster, worker, provisioning, failed, refetch, set_status, fail, has_value,
  find_control_plane,
}
use public_cloud_vm_provisio.Cluster.Secrets.{protect_secrets}
use public_cloud_vm_provisio.Cluster.Worker.{
  JoinEnv, reconcile_worker, sync_vpn_config, needs_sync, with_vpn_server,
}
use public_cloud_vm_provisio.Cluster.Reconcile.{Env, reconcile, provision_node}
use public_cloud_vm_provisio.Cluster.Reconcile.Provision.{
  IsRetried, protect_secrets-same, reconcile-retries, reconcile_all, next_status, set_status-cases,
  update-cases, Fetched-cases,
}

-- The object of a worker that has joined, with a phase that is retried.
pub record IsStranded (o : RemoteCluster) : Type 0 where
  pub retried : IsRetried o
  pub is_worker : o.node_type ≡ worker
  pub has_joined : has_value o.annotations.joined "true" ≡ true

-- What every step keeps, of the world `w` that the reconcile began with.
record Keeps (w v : World) : Type 0 where
  pub stranded : IsStranded v.stored
  pub joined : has_value v.cluster.annotations.joined "true" ≡ true
  pub completed : v.completed ≡ w.completed
  pub remote : v.remote ≡ w.remote

set_status-Keeps :
    (accepted : Bool) (phase : Phase) (reason : String) (is_error : Bool) (w v : World)
    → (phase ≡ failed) ⊎ (phase ≡ provisioning)
    → Keeps w v
    → Keeps w (set_status accepted phase reason is_error v).0
unfolding next_status
set_status-Keeps accepted phase reason is_error w v p h =
    elim (set_status-cases accepted phase reason is_error v) [
      | inl f ↦ rw f (record {
        stranded = record {
          retried = record {
            kept = h.stranded.retried.kept;
            protected = h.stranded.retried.protected;
            phase = p;
          };
          is_worker = h.stranded.is_worker;
          has_joined = h.stranded.has_joined;
        };
        joined = h.stranded.has_joined;
        completed = h.completed;
        remote = h.remote;
      })
      | inr f ↦ rw f (record {
        stranded = h.stranded;
        joined = h.joined;
        completed = h.completed;
        remote = h.remote;
      })
    ]

sync_vpn_config-Keeps :
    (env : JoinEnv) (parent : Option RemoteCluster) (w v : World)
    → Keeps w v
    → Keeps w (sync_vpn_config env parent v).0
unfolding sync_vpn_config with_vpn_server
sync_vpn_config-Keeps env none w v h = h
sync_vpn_config-Keeps env (some parent) w v h = elim (Bool-cases (needs_sync parent v)) [
  | inr e ↦ rw (sync_vpn_config, e) h
  | inl e ↦ elim (Bool-cases env.synced_found) [
    | inr f ↦ rw (sync_vpn_config, e, f) h
    | inl f ↦ elim (update-cases env.synced (with_vpn_server parent (refetch v))) [
      | inl g ↦
          rw (sync_vpn_config, e, f, g)
            (record {
              stranded = record {
                retried = record {
                  kept = h.stranded.retried.kept;
                  protected = h.stranded.retried.protected;
                  phase = h.stranded.retried.phase;
                };
                is_worker = h.stranded.is_worker;
                has_joined = h.stranded.has_joined;
              };
              joined = h.stranded.has_joined;
              completed = h.completed;
              remote = h.remote;
            })
      | inr g ↦
          rw (sync_vpn_config, e, f, g)
            (record {
              stranded = h.stranded;
              joined = h.stranded.has_joined;
              completed = h.completed;
              remote = h.remote;
            })
    ]
  ]
]

reconcile_worker-Keeps :
    (env : JoinEnv) (w v : World) → Keeps w v → Keeps w (reconcile_worker env v).0
unfolding reconcile_worker
reconcile_worker-Keeps env w v h =
    let s = sync_vpn_config env (find_control_plane v) v in
    let k : Keeps w s.0 = sync_vpn_config-Keeps env (find_control_plane v) w v h in
    elim (Bool-cases env.listed) [
      | inr e ↦ rw (reconcile_worker, e) h
      | inl e ↦ elim (Bool-cases s.1) [
        | inr f ↦ rw (reconcile_worker, e, f) k
        | inl f ↦ rw (reconcile_worker, e, f, k.joined) k
      ]
    ]

provision_node-Keeps :
    (env : Env) (w v : World) → Keeps w v → Keeps w (provision_node env worker v).0
unfolding provision_node fail
provision_node-Keeps env w v h = elim (Bool-cases env.worker_ssh) [
  | inl e ↦ rw (provision_node, e) (reconcile_worker-Keeps env.join w v h)
  | inr e ↦
      rw (provision_node, e, fail)
        (set_status-Keeps env.failed_saved failed "SSHConnectionFailed" true w v (inl refl) h)
]

module _ (parse_time : String → Option ℕ) (format_time : ℕ → String) where
  reconcile-IsStranded :
      (env : Env) (w : World)
      → IsStranded w.stored
      → IsStranded (reconcile parse_time format_time env w).0.stored
        × ((reconcile parse_time format_time env w).0.completed ≡ w.completed)
        × ((reconcile parse_time format_time env w).0.remote ≡ w.remote)
  unfolding reconcile
  reconcile-IsStranded env w h = elim (Fetched-cases env.fetched) [
    | inl f ↦
        let u = protect_secrets env.protect (refetch w) in
        let (c, s, _, r, m) = protect_secrets-same env.protect (refetch w) in
        let t : u.cluster.node_type ≡ worker = ap (λ o. o.node_type) c ∙ h.is_worker in
        let v = (set_status env.provisioning_saved provisioning "Provisioning" false u).0 in
        let k : Keeps w v =
          set_status-Keeps env.provisioning_saved provisioning "Provisioning" false w u (inr refl)
            (record {
              stranded = subst IsStranded (sym s) h;
              joined = ap (λ o. has_value o.annotations.joined "true") c ∙ h.has_joined;
              completed = m;
              remote = r;
            }) in
        let e : reconcile parse_time format_time env w ≡ provision_node env worker v =
          rw (reconcile, f, reconcile-retries parse_time format_time env w h.retried)
            (ap (λ t. provision_node env t v) t) in
        let z : Keeps w (provision_node env worker v).0 = provision_node-Keeps env w v k in
        rw e (z.stranded, z.completed, z.remote)
    | inr f ↦ elim f [
      | inl g ↦ rw (reconcile, g) (h, refl, refl)
      | inr g ↦ rw (reconcile, g) (h, refl, refl)
    ]
  ]

  -- A worker that has joined and whose phase is Failed or Provisioning is never Ready again: after any
  -- number of reconciles, however their calls answer, its phase is still one of the two, no phase has
  -- been run on the machine, and its address has not been added to the NetConfig.
  pub reconcile_all-IsStranded :
      (envs : List Env) (w : World)
      → IsStranded w.stored
      → IsStranded (reconcile_all parse_time format_time envs w).stored
        × ((reconcile_all parse_time format_time envs w).completed ≡ w.completed)
        × ((reconcile_all parse_time format_time envs w).remote ≡ w.remote)
  unfolding reconcile_all
  reconcile_all-IsStranded [] w h = (h, refl, refl)
  reconcile_all-IsStranded (env ∷ envs) w h =
      let (a, r, s) = reconcile-IsStranded env w h in
      let (b, t, u) = reconcile_all-IsStranded envs (reconcile parse_time format_time env w).0 a in
      (b, t ∙ r, u ∙ s)
