-- ===== src/Cluster/Worker/Waits.antt =====
-- When a worker's phases run.
use public_cloud_vm_provisio.Prelude.{
  String, ◌≡◌, refl, ◌∙◌, ◌⊎◌, inl, inr, Bool, true, false, ◌&&◌, Option, none, some, Bool-cases,
  is_empty,
}
use public_cloud_vm_provisio.Cluster.{
  World, RemoteCluster, fail, set_status, status_update, is_fresh, update, refetch, has_value,
  find_control_plane,
}
use public_cloud_vm_provisio.Cluster.Worker.{
  JoinEnv, join, reconcile_worker, sync_vpn_config, needs_sync, with_vpn_server, is_ready,
}

-- The control plane of the worker's cluster is Ready and has its join command.
pub record IsAvailable (w : World) (parent : RemoteCluster) : Type 0 where
  pub found : find_control_plane w ≡ some parent
  pub ready : is_ready parent.status.phase ≡ true
  pub has_command : is_empty parent.status.join_command ≡ false

fail-completed :
    (saved : Bool) (reason : String) (w : World) → (fail saved reason w).0.completed ≡ w.completed
unfolding fail set_status status_update
fail-completed saved reason w = elim (Bool-cases (saved && is_fresh w)) [
  | inl f ↦ rw (fail, set_status, status_update, f) refl
  | inr f ↦ rw (fail, set_status, status_update, f) refl
]

update-completed : (accepted : Bool) (w : World) → (update accepted w).0.completed ≡ w.completed
unfolding update
update-completed accepted w = elim (Bool-cases (accepted && is_fresh w)) [
  | inl f ↦ rw (update, f) refl
  | inr f ↦ rw (update, f) refl
]

sync-completed :
    (env : JoinEnv) (parent : Option RemoteCluster) (w : World)
    → (sync_vpn_config env parent w).0.completed ≡ w.completed
unfolding sync_vpn_config with_vpn_server
sync-completed env none w = refl
sync-completed env (some parent) w = elim (Bool-cases (needs_sync parent w)) [
  | inr e ↦ rw (sync_vpn_config, e) refl
  | inl e ↦ elim (Bool-cases env.synced_found) [
    | inr f ↦ rw (sync_vpn_config, e, f) refl
    | inl f ↦
        rw (sync_vpn_config, e, f)
          (update-completed env.synced (with_vpn_server parent (refetch w)))
  ]
]

join-waits :
    (env : JoinEnv) (parent : Option RemoteCluster) (w : World)
    → ((join env parent w).0.completed ≡ w.completed)
      ⊎ ((cp : RemoteCluster) × (parent ≡ some cp)
          × (is_ready cp.status.phase ≡ true)
          × (is_empty cp.status.join_command ≡ false))
unfolding join
join-waits env none w = inl refl
join-waits env (some cp) w = elim (Bool-cases (is_ready cp.status.phase)) [
  | inr e ↦ inl (rw (join, e) refl)
  | inl e ↦ elim (Bool-cases (is_empty cp.status.join_command)) [
    | inl f ↦ inl (rw (join, e, f) refl)
    | inr f ↦ inr (cp, refl, e, f)
  ]
]

-- A reconcile of a worker completes no phase on the machine, or else it holds that the worker's copy,
-- behind the synchronisation of the VPN server, is not marked as joined, and that the control plane of
-- its cluster is found, is Ready and has a join command.
pub reconcile_worker-waits :
    (env : JoinEnv) (w : World)
    → ((reconcile_worker env w).0.completed ≡ w.completed)
      ⊎ ((has_value
              (sync_vpn_config env (find_control_plane w) w).0.cluster.annotations.joined
              "true"
            ≡ false)
          × (cp : RemoteCluster) × IsAvailable w cp)
unfolding reconcile_worker
reconcile_worker-waits env w =
    let s = sync_vpn_config env (find_control_plane w) w in
    let c : s.0.completed ≡ w.completed = sync-completed env (find_control_plane w) w in
    elim (Bool-cases env.listed) [
      | inr e ↦ inl (rw (reconcile_worker, e) refl)
      | inl e ↦ elim (Bool-cases s.1) [
        | inr f ↦ inl (rw (reconcile_worker, e, f) c)
        | inl f ↦ elim (Bool-cases (has_value s.0.cluster.annotations.joined "true")) [
          | inl g ↦ inl (rw (reconcile_worker, e, f, g) c)
          | inr g ↦ elim (join-waits env (find_control_plane w) s.0) [
            | inl k ↦ inl (rw (reconcile_worker, e, f, g) (k ∙ c))
            | inr (cp, a, b, d) ↦ inr (g, cp, record { found = a; ready = b; has_command = d })
          ]
        ]
      ]
    ]
