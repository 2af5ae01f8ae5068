-- ===== src/Cluster/ControlPlane/Complete.antt =====
-- What `completeControlPlane` leaves where it succeeds.
use public_cloud_vm_provisio.Prelude.{
  ℕ, zero, suc, ◌+◌, String, ◌≡◌, refl, sym, ap, ◌∙◌, ◌⊎◌, inl, inr, Bool, true, false, not, ◌||◌,
  Option, none, some, List, [], ◌∷◌, arith, eqb, Bool-cases, is_empty, subst,
}
use public_cloud_vm_provisio.Cluster.{
  cp_init_complete, join_cmd_cache, World, RemoteCluster, ready, Annotation, set_status,
  status_update, fail, patch_annotation, patch_annotations, repo_ready_wait, error,
  node_provision_created,
}
use public_cloud_vm_provisio.Cluster.Packages.{create_cluster_repo}
use public_cloud_vm_provisio.Cluster.Packages.Repo.{HasRepo, create_cluster_repo-HasRepo}
use public_cloud_vm_provisio.Cluster.Remote.{
  NetEnv, create_node_provision_config, wg0_ip, copy_secrets,
}
use public_cloud_vm_provisio.Cluster.ControlPlane.{
  CompleteEnv, Save, complete_control_plane, publish_config, flip_ready, retry_ready, save_ready,
}

-- The stored object is Ready and has the join command.
pub record IsComplete (cmd : String) (o : RemoteCluster) : Type 0 where
  pub is_ready : o.status.phase ≡ ready
  pub has_command : o.status.join_command ≡ cmd

-- The NetConfig has the one address, and the join command of the handler's copy.
pub record IsPublished (w : World) (ip : String) (v : World) : Type 0 where
  pub given : is_empty ip ≡ false
  pub net :
      v.remote
      ≡ some (record { join_command = w.cluster.status.join_command; used_ip_addresses = ip ∷ [] })

save_ready-IsComplete :
    (cmd : String) (w : World)
    → IsComplete cmd (save_ready cmd w).stored
      × ((save_ready cmd w).remote ≡ w.remote)
      × ((save_ready cmd w).resources ≡ w.resources)
unfolding save_ready set_status status_update
save_ready-IsComplete cmd w =
    let e : eqb w.stored.version w.stored.version ≡ true = ground arith in
    rw (save_ready, set_status, status_update, e)
      (record { is_ready = refl; has_command = refl }, refl, refl)

retry_ready-saved :
    (cmd : String) (saves : ℕ → Save) (round left : ℕ) (w : World)
    → (retry_ready cmd saves round left w).1 ≡ true
    → (retry_ready cmd saves round left w).0 ≡ save_ready cmd w
unfolding retry_ready
retry_ready-saved cmd saves round zero w h = ground arith
retry_ready-saved cmd saves round (suc left) w h =
    ground (arith, retry_ready-saved cmd saves (round + 1) left w)

patch-same :
    (patched : Bool) (kv : List (Annotation × Option String)) (w : World)
    → ((patch_annotations patched kv w).stored.status ≡ w.stored.status)
      × ((patch_annotations patched kv w).remote ≡ w.remote)
      × ((patch_annotations patched kv w).resources ≡ w.resources)
unfolding patch_annotations
patch-same true kv w = (refl, refl, refl)
patch-same false kv w = (refl, refl, refl)

create-cases :
    (env : NetEnv) (c : RemoteCluster) (w : World)
    → ((create_node_provision_config env c w).1 ≡ false)
      ⊎ (((create_node_provision_config env c w).1 ≡ true)
          × IsPublished w (wg0_ip env.wg0) (create_node_provision_config env c w).0
          × ((create_node_provision_config env c w).0.resources ≡ w.resources))
unfolding create_node_provision_config
create-cases env c w = elim (Bool-cases (is_empty (wg0_ip env.wg0))) [
  | inl e ↦ inl (rw (create_node_provision_config, e) refl)
  | inr e ↦ elim (Bool-cases (not (copy_secrets env w.cluster c) || not env.applied)) [
    | inl f ↦ inl (rw (create_node_provision_config, e, f) refl)
    | inr f ↦ elim (Bool-cases env.status_patched) [
      | inr g ↦ inl (rw (create_node_provision_config, e, f, g) refl)
      | inl g ↦ inr (
          rw (create_node_provision_config, e, f, g) (refl, record { given = e; net = refl }, refl))
    ]
  ]
]

fail_not_wait {ℓ} :
    {A : Type ℓ} (saved : Bool) (reason : String) (w : World)
    → (fail saved reason w).1 ≡ repo_ready_wait
    → A
unfolding fail
fail_not_wait saved reason w e = ground arith

flip_ready-IsComplete :
    (env : CompleteEnv) (cmd : String) (w : World)
    → (flip_ready env cmd w).1 ≡ repo_ready_wait
    → IsComplete cmd (flip_ready env cmd w).0.stored
      × ((flip_ready env cmd w).0.remote ≡ w.remote)
      × ((flip_ready env cmd w).0.resources ≡ w.resources)
unfolding flip_ready
flip_ready-IsComplete env cmd w h =
    let r = retry_ready cmd env.saves 0 5 w in
    elim (Bool-cases r.1) [
      | inr e ↦ let k : (flip_ready env cmd w).1 ≡ error = rw (flip_ready, e) refl in ground arith
      | inl e ↦
          let v =
            patch_annotations env.cleared ((cp_init_complete, none) ∷ (join_cmd_cache, none) ∷ [])
              r.0 in
          let k : flip_ready env cmd w ≡ (v, repo_ready_wait) = rw (flip_ready, e) refl in
          let s : r.0 ≡ save_ready cmd w = retry_ready-saved cmd env.saves 0 5 w e in
          let (a, b, c) = save_ready-IsComplete cmd w in
          let (x, y, z) =
            patch-same env.cleared ((cp_init_complete, none) ∷ (join_cmd_cache, none) ∷ []) r.0 in
          rw k (
            record {
              is_ready = ap (λ t. t.phase) x ∙ ap (λ t. t.stored.status.phase) s ∙ a.is_ready;
              has_command =
                  ap (λ t. t.join_command) x
                  ∙ ap (λ t. t.stored.status.join_command) s
                  ∙ a.has_command;
            },
            y ∙ ap (λ t. t.remote) s ∙ b,
            z ∙ ap (λ t. t.resources) s ∙ c,
          )
    ]

publish_config-IsComplete :
    (env : CompleteEnv) (cmd : String) (w : World)
    → (publish_config env cmd w).1 ≡ repo_ready_wait
    → IsComplete cmd (publish_config env cmd w).0.stored
      × IsPublished w (wg0_ip env.net.wg0) (publish_config env cmd w).0
      × ((publish_config env cmd w).0.resources ≡ w.resources)
unfolding publish_config patch_annotation
publish_config-IsComplete env cmd w h =
    let r = create_node_provision_config env.net w.cluster w in
    elim (create-cases env.net w.cluster w) [
      | inl e ↦
          let k : publish_config env cmd w
              ≡ fail env.failed_saved "NodeProvisionNetConfigUpdateFailed" r.0 =
            rw (publish_config, e) refl in
          fail_not_wait env.failed_saved "NodeProvisionNetConfigUpdateFailed" r.0
            (ap (λ t. t.1) (sym k) ∙ h)
      | inr (e, p, q) ↦
          let v =
            patch_annotations env.created_saved ((node_provision_created, some "true") ∷ []) r.0 in
          let k : publish_config env cmd w ≡ flip_ready env cmd v = rw (publish_config, e) refl in
          let (x, y, z) =
            patch-same env.created_saved ((node_provision_created, some "true") ∷ []) r.0 in
          let (a, b, c) = flip_ready-IsComplete env cmd v (ap (λ t. t.1) (sym k) ∙ h) in
          rw k (a, record { given = p.given; net = b ∙ y ∙ p.net }, c ∙ z ∙ q)
    ]

-- Where `completeControlPlane` succeeds, the stored object is Ready and has the given join command; the
-- NetConfig of the remote cluster lists the one address that wg0 has, which is not empty, with the join
-- command that the handler's copy had before; and with git integration the cluster's two repositories
-- and two tokens are there.
pub complete_control_plane-IsComplete :
    (env : CompleteEnv) (cmd : String) (w : World)
    → (complete_control_plane env cmd w).1 ≡ repo_ready_wait
    → IsComplete cmd (complete_control_plane env cmd w).0.stored
      × IsPublished w (wg0_ip env.net.wg0) (complete_control_plane env cmd w).0
      × ((w.cluster.git_enabled ≡ false)
          ⊎ HasRepo w.cluster (complete_control_plane env cmd w).0.resources)
unfolding complete_control_plane
complete_control_plane-IsComplete env cmd w h =
    let r = create_cluster_repo env.repo w.cluster w.resources in
    let v = record w { resources = r.0 } in
    elim (Bool-cases env.ssh) [
      | inr e ↦
          let k : complete_control_plane env cmd w ≡ fail env.failed_saved "SSHConnectionFailed" w =
            rw (complete_control_plane, e) refl in
          fail_not_wait env.failed_saved "SSHConnectionFailed" w (ap (λ t. t.1) (sym k) ∙ h)
      | inl e ↦ elim (Bool-cases r.1) [
        | inr f ↦
            let k : complete_control_plane env cmd w ≡ fail env.failed_saved "ClusterRepoFailed" v =
              rw (complete_control_plane, e, f) refl in
            fail_not_wait env.failed_saved "ClusterRepoFailed" v (ap (λ t. t.1) (sym k) ∙ h)
        | inl f ↦
            let k : complete_control_plane env cmd w ≡ publish_config env cmd v =
              rw (complete_control_plane, e, f) refl in
            let (a, b, c) = publish_config-IsComplete env cmd v (ap (λ t. t.1) (sym k) ∙ h) in
            rw k (
              a,
              record { given = b.given; net = b.net },
              elim (Bool-cases w.cluster.git_enabled) [
                | inr g ↦ inl g
                | inl g ↦ inr (
                    subst (HasRepo w.cluster) (sym c)
                      (create_cluster_repo-HasRepo env.repo w.cluster w.resources g f))
              ],
            )
      ]
    ]
