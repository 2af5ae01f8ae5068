-- ===== src/Cluster/Examples.antt =====
-- The RemoteCluster controller and the phases of kubeadm at concrete values.
use public_cloud_vm_provisio.Prelude.{
  Drops, ℕ, String, ◌≡◌, refl, ◌⊎◌, Bool, true, false, not, some, List, [], ◌∷◌, ◌++◌, arith, ◌==◌,
  is_empty, ◌+◌, inl, none, digits, itoa,
}
use public_cloud_vm_provisio.Vpn.Allocate.{member}
use public_cloud_vm_provisio.Kubeadm.{
  ProvisionPhase, run_phases, initialize_control_plane, run_phases_from,
}
use public_cloud_vm_provisio.Kubeadm.Resume.{up_to, next_phase}
use public_cloud_vm_provisio.Kubeadm.Init.{InitEnds, initialize_control_plane-completes}
use public_cloud_vm_provisio.Kubeadm.Split.{and_resume, run_phases-split}
use public_cloud_vm_provisio.Kubeadm.{get_tun_ip}
use public_cloud_vm_provisio.Kubeadm.Resume.{up_to}
use public_cloud_vm_provisio.Cluster.{
  RemoteCluster, Resource, worker, failed, ready, find_control_plane, has_value, requeue_after,
  repo_ready_wait, package_variant, start_phase,
}
use public_cloud_vm_provisio.Cluster.Packages.{
  upsert_package_variants, delete_cluster_resources, core_variants,
}
use public_cloud_vm_provisio.Cluster.Packages.Upsert.{
  has_variant, deploys_elsewhere, upsert_package_variants-redirects,
}
use public_cloud_vm_provisio.Cluster.Packages.Cleanup.{IsOwned, delete_cluster_resources-exact}
use public_cloud_vm_provisio.Cluster.Worker.{run_join, reconcile_worker, sync_vpn_config}
use public_cloud_vm_provisio.Cluster.Worker.Join.{IsJoined, IsRecorded, run_join-joins}
use public_cloud_vm_provisio.Cluster.Worker.Waits.{IsAvailable, reconcile_worker-waits}
use public_cloud_vm_provisio.Cluster.Reconcile.{
  reconcile, keep_ready, needs_token_refresh, until_refresh,
}
use public_cloud_vm_provisio.Cluster.Reconcile.Provision.{reconcile_all}
use public_cloud_vm_provisio.Cluster.Reconcile.Token.{keep_ready-renews}
use public_cloud_vm_provisio.Cluster.Reconcile.Wedged.{IsWedged, reconcile_all-IsWedged}
use public_cloud_vm_provisio.Cluster.Reconcile.Stranded.{IsStranded, reconcile_all-IsStranded}
use public_cloud_vm_provisio.Cluster.Samples.{saves, join_env, upsert_env, resources_env, env_at}
use public_cloud_vm_provisio.Cluster.{
  World, control_plane, provisioning, refetch, has_value, worker, Resource, ready, failed,
  package_variant,
}
use public_cloud_vm_provisio.Cluster.Packages.Repo.{HasRepo}
use public_cloud_vm_provisio.Cluster.ControlPlane.{
  run_job, reconcile_control_plane, complete_control_plane,
}
use public_cloud_vm_provisio.Cluster.ControlPlane.Jobs.{IsResumable, next_start}
use public_cloud_vm_provisio.Cluster.ControlPlane.Cycle.{IsIdle, job_cycle, job_cycle-IsResumable}
use public_cloud_vm_provisio.Cluster.ControlPlane.Complete.{
  IsComplete, IsPublished, complete_control_plane-IsComplete,
}
use public_cloud_vm_provisio.Cluster.Samples.{
  no_annotations, cluster_of, world_of, complete_env, control_env, init_env,
}

-- A machine that is only its log of completed phases.
abbrev run_any : String → List ℕ → List ℕ × Bool
run_any cmd log = (log, true)

abbrev log_phase : ℕ → List ℕ → List ℕ
log_phase i log = log ++ i ∷ []

initialize_control_plane-completes_example :
    InitEnds (λ log. log) 3 (initialize_control_plane run_any log_phase init_env 3 (0 ∷ 1 ∷ 2 ∷ []))
unfolding up_to
initialize_control_plane-completes_example =
    initialize_control_plane-completes run_any log_phase (λ log. log) (λ cmd s. refl) (λ i s. refl)
      init_env 3 (0 ∷ 1 ∷ 2 ∷ []) (omega arith) refl

t1 :
    initialize_control_plane run_any log_phase init_env 3 (0 ∷ 1 ∷ 2 ∷ [])
    ≡ (0 ∷ 1 ∷ 2 ∷ 3 ∷ 4 ∷ 5 ∷ 6 ∷ 7 ∷ 8 ∷ 9 ∷ 10 ∷ 11 ∷ 12 ∷ [], some "kubeadm join 10.8.0.5:6443")
unfolding initialize_control_plane run_phases_from
t1 = refl

abbrev phase : String → ProvisionPhase
phase name = record { name = name; steps = name ∷ [] }

run_phases-split_example :
    run_phases run_any log_phase ((phase "a" ∷ phase "b" ∷ []) ++ phase "c" ∷ []) 0 []
    ≡ and_resume
        (run_phases run_any log_phase (phase "a" ∷ phase "b" ∷ []) 0 [])
        (run_phases run_any log_phase ((phase "a" ∷ phase "b" ∷ []) ++ phase "c" ∷ []) 2)
run_phases-split_example =
    run_phases-split run_any log_phase (phase "a" ∷ phase "b" ∷ []) (phase "c" ∷ []) []

-- A new control plane, whose job fails in its phase 6.
abbrev new_cp : World
new_cp = world_of (cluster_of control_plane provisioning "" no_annotations)

abbrev fails_at_k8s : String → Bool
fails_at_k8s cmd = not (cmd == "K8s Install")

new_cp-IsIdle : IsIdle new_cp
unfolding is_empty has_value
new_cp-IsIdle = record {
  no_job = refl;
  no_progress = refl;
  no_join_command = refl;
  not_complete = refl;
}

new_cp-IsResumable : IsResumable (refetch new_cp)
unfolding IsResumable next_phase next_start up_to
new_cp-IsResumable = (refl, refl, omega arith)

job_cycle-IsResumable_example :
    IsIdle (job_cycle control_env fails_at_k8s init_env control_env new_cp)
    × IsResumable (refetch (job_cycle control_env fails_at_k8s init_env control_env new_cp))
unfolding run_job run_phases_from reconcile_control_plane
job_cycle-IsResumable_example =
    job_cycle-IsResumable control_env control_env fails_at_k8s init_env new_cp refl refl refl
      new_cp-IsIdle new_cp-IsResumable refl

t2 :
    (job_cycle control_env fails_at_k8s init_env control_env new_cp).stored.annotations.last_cp
    ≡ some "5"
unfolding job_cycle run_phases_from
t2 = refl

t3 :
    (job_cycle control_env fails_at_k8s init_env control_env new_cp).completed
    ≡ 0 ∷ 1 ∷ 2 ∷ 3 ∷ 4 ∷ 5 ∷ []
unfolding job_cycle run_phases_from
t3 = refl

complete_control_plane-IsComplete_example :
    IsComplete "kubeadm join" (complete_control_plane complete_env "kubeadm join" new_cp).0.stored
    × IsPublished new_cp "10.8.0.5" (complete_control_plane complete_env "kubeadm join" new_cp).0
    × ((true ≡ false)
        ⊎ HasRepo new_cp.cluster
            (complete_control_plane complete_env "kubeadm join" new_cp).0.resources)
unfolding complete_control_plane
complete_control_plane-IsComplete_example =
    complete_control_plane-IsComplete complete_env "kubeadm join" new_cp refl

-- A worker whose earlier attempt has completed three phases.
abbrev resumed_worker : World
resumed_worker =
    record (world_of
      (cluster_of worker provisioning "" (record no_annotations { last_worker = some "2" }))) {
        completed = 0 ∷ 1 ∷ 2 ∷ [];
        remote = some (record { join_command = ""; used_ip_addresses = "10.8.0.2" ∷ [] });
        siblings = cluster_of control_plane ready "kubeadm join" no_annotations ∷ [];
      }

run_join-joins_example :
    IsJoined (run_join join_env "kubeadm join" resumed_worker).0.stored
    × ((run_join join_env "kubeadm join" resumed_worker).0.completed ≡ up_to 9)
    × (ip : String) × (get_tun_ip (some "10.8.0.5\n") ≡ some ip)
    × IsRecorded ip (run_join join_env "kubeadm join" resumed_worker).0.remote
unfolding start_phase up_to run_join run_phases_from
run_join-joins_example =
    run_join-joins join_env "kubeadm join" resumed_worker (omega arith) refl refl

t4 :
    (run_join join_env "kubeadm join" resumed_worker).0.remote
    ≡ some (record { join_command = ""; used_ip_addresses = "10.8.0.2" ∷ "10.8.0.5" ∷ [] })
unfolding run_join run_phases_from member
t4 = refl

reconcile_worker-waits_example :
    ((reconcile_worker join_env resumed_worker).0.completed ≡ 0 ∷ 1 ∷ 2 ∷ [])
    ⊎ ((has_value
            (sync_vpn_config join_env
              (find_control_plane resumed_worker)
              resumed_worker).0.cluster.annotations.joined
            "true"
          ≡ false)
        × (cp : RemoteCluster) × IsAvailable resumed_worker cp)
reconcile_worker-waits_example = reconcile_worker-waits join_env resumed_worker

-- A control plane whose packages failed when it was Ready.
abbrev broken_cp : World
broken_cp = world_of (cluster_of control_plane failed "kubeadm join" no_annotations)

broken_cp-IsWedged : IsWedged broken_cp.stored
unfolding is_empty
broken_cp-IsWedged = record {
  retried = record { kept = refl; protected = refl; phase = inl refl };
  is_cp = refl;
  has_command = refl;
}

reconcile_all-IsWedged_example :
    IsWedged (reconcile_all digits itoa (env_at 5 ∷ env_at 125 ∷ []) broken_cp).stored
    × ((reconcile_all digits itoa (env_at 5 ∷ env_at 125 ∷ []) broken_cp).resources ≡ [])
reconcile_all-IsWedged_example =
    reconcile_all-IsWedged digits itoa (env_at 5 ∷ env_at 125 ∷ []) broken_cp broken_cp-IsWedged

-- How a control plane comes to be wedged: its last PackageVariants fail when it is Ready.
t5 :
    (reconcile digits itoa
      (record (env_at 5) {
        variants = record {
          core = λ name. record { created = false; fetched = false; updated = false };
          overlays = upsert_env;
          saves = saves;
          failed_saved = true;
        };
      })
      (world_of (
        cluster_of control_plane ready "kubeadm join" (record no_annotations {
          created = some "true";
          refreshed_at = some "4";
        })))).0.stored.status.phase
    ≡ failed
unfolding reconcile
t5 = refl

t6 : (reconcile digits itoa (env_at 5) broken_cp).1 ≡ repo_ready_wait
unfolding reconcile
t6 = refl

-- A worker whose address was not recorded when it had joined.
abbrev half_joined : World
half_joined =
    world_of (cluster_of worker failed "" (record no_annotations { joined = some "true" }))

half_joined-IsStranded : IsStranded half_joined.stored
unfolding has_value
half_joined-IsStranded = record {
  retried = record { kept = refl; protected = refl; phase = inl refl };
  is_worker = refl;
  has_joined = refl;
}

reconcile_all-IsStranded_example :
    IsStranded (reconcile_all digits itoa (env_at 5 ∷ env_at 65 ∷ []) half_joined).stored
    × ((reconcile_all digits itoa (env_at 5 ∷ env_at 65 ∷ []) half_joined).completed ≡ [])
    × ((reconcile_all digits itoa (env_at 5 ∷ env_at 65 ∷ []) half_joined).remote ≡ none)
reconcile_all-IsStranded_example =
    reconcile_all-IsStranded digits itoa (env_at 5 ∷ env_at 65 ∷ []) half_joined
      half_joined-IsStranded

-- How a worker comes to be stranded: the recording of its address fails behind the join.
t7 :
    (run_join
      (record join_env { net = record join_env.net { appended = false } })
      "kubeadm join"
      resumed_worker).0.stored.status.phase
    ≡ failed
unfolding run_join run_phases_from
t7 = refl

-- A control plane with its packages, whose token was renewed at the time 1000.
abbrev kept_cp : World
kept_cp = world_of (
    cluster_of control_plane ready "kubeadm join" (record no_annotations {
      pkg_variants = some "true";
      created = some "true";
      refreshed_at = some "1000";
    }))

keep_ready-renews_example :
    (keep_ready digits itoa (env_at 3800) kept_cp
      ≡ (kept_cp, requeue_after (until_refresh digits itoa 3800 (some "1000"))))
    × (needs_token_refresh digits itoa (3800 + 79999) kept_cp ≡ false)
    × (needs_token_refresh digits itoa (3800 + until_refresh digits itoa 3800 (some "1000")) kept_cp
        ≡ true)
unfolding is_empty has_value needs_token_refresh digits until_refresh
keep_ready-renews_example =
    keep_ready-renews digits itoa (env_at 3800) kept_cp 79999 refl refl refl (omega arith)

t8 : until_refresh digits itoa 3800 (some "1000") ≡ 80000
unfolding until_refresh digits
t8 = refl

-- A PackageVariant that another cluster has made.
abbrev foreign_variant : Resource
foreign_variant = record {
  kind = package_variant;
  namespace = "default";
  name = "keycloak-variant";
  label = some "edge-2";
  downstream = "edge-2";
}

upsert_package_variants-redirects_example :
    (has_variant "keycloak-variant"
        (upsert_package_variants upsert_env new_cp.cluster core_variants (foreign_variant ∷ [])).0
      ≡ true)
    × (deploys_elsewhere new_cp.cluster "keycloak-variant"
          (upsert_package_variants upsert_env new_cp.cluster core_variants (foreign_variant ∷ [])).0
        ≡ false)
unfolding member upsert_package_variants
upsert_package_variants-redirects_example =
    upsert_package_variants-redirects new_cp.cluster upsert_env core_variants (foreign_variant ∷ [])
      "keycloak-variant" refl refl

-- A PackageVariant of the cluster, which is in the namespace "default" and not in the cluster's.
abbrev own_variant : Resource
own_variant = record {
  kind = package_variant;
  namespace = "default";
  name = "hami-variant";
  label = some "edge-1";
  downstream = "edge-1";
}

delete_cluster_resources-exact_example :
    Drops
      (IsOwned new_cp.cluster)
      (own_variant ∷ [])
      (delete_cluster_resources resources_env new_cp.cluster (own_variant ∷ [])).0
unfolding delete_cluster_resources
delete_cluster_resources-exact_example =
    delete_cluster_resources-exact resources_env new_cp.cluster (own_variant ∷ []) refl

t9 : (delete_cluster_resources resources_env new_cp.cluster (own_variant ∷ [])).0 ≡ own_variant ∷ []
unfolding delete_cluster_resources
t9 = refl
