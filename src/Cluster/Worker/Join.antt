-- ===== src/Cluster/Worker/Join.antt =====
-- What a worker's join leaves behind.
use public_cloud_vm_provisio.Prelude.{
  ◌≤◌, String, ◌≡◌, refl, sym, ap, ◌∙◌, ◌⊎◌, inl, inr, Bool, true, false, not, ◌&&◌, ◌||◌, Option,
  none, some, [], ◌∷◌, ◌++◌, arith, eq_iff, Bool-cases, Option-cases, is_empty, subst, itoa,
}
use public_cloud_vm_provisio.Vpn.Allocate.{member}
use public_cloud_vm_provisio.Vpn.Allocate.Free.{member-append}
use public_cloud_vm_provisio.Kubeadm.{join_worker_node, get_tun_ip}
use public_cloud_vm_provisio.Kubeadm.Resume.{up_to}
use public_cloud_vm_provisio.Kubeadm.Join.{join_worker_node-completes}
use public_cloud_vm_provisio.Cluster.{
  last_completed_phase_worker, World, RemoteNetConfig, RemoteCluster, Annotation, ready, stop,
  error, update, set_status, fail, has_value, patch_annotation, patch_annotations, start_phase,
  status_update, is_fresh, write, refetch,
}
use public_cloud_vm_provisio.Cluster.Remote.{NetEnv, append_ip, update_node_provision_config}
use public_cloud_vm_provisio.Cluster.Worker.{
  JoinEnv, run_join, answered_join, finish_join, record_worker_ip, mark_joined,
  on_worker_phase_complete, run_command,
}

-- The address is on the list of used addresses of the remote NetConfig.
unfoldable pub IsRecorded : String → Option RemoteNetConfig → Type 0
IsRecorded ip none = ⊥
IsRecorded ip (some net) = member net.used_ip_addresses ip ≡ true

-- The stored object is a joined worker's.
pub record IsJoined (o : RemoteCluster) : Type 0 where
  pub is_ready : o.status.phase ≡ ready
  pub joined : has_value o.annotations.joined "true" ≡ true

patch-completed :
    (patched : Bool) (key : Annotation) (value : String) (w : World)
    → (patch_annotation patched key value w).completed ≡ w.completed
unfolding patch_annotation patch_annotations
patch-completed true key value w = refl
patch-completed false key value w = refl

member_self : (ip : String) → member (ip ∷ []) ip ≡ true
unfolding member
member_self ip = ground (arith, eq_iff ip ip)

append_ip-IsRecorded :
    (ip : String) (net : RemoteNetConfig) → IsRecorded ip (append_ip ip (some net))
unfolding append_ip IsRecorded
append_ip-IsRecorded ip net = elim (Bool-cases (member net.used_ip_addresses ip)) [
  | inl e ↦ rw (append_ip, e) e
  | inr e ↦
      rw (append_ip, e)
        (member-append net.used_ip_addresses (ip ∷ []) ip ∙ ground (arith, member_self ip))
]

fail_not_stop {ℓ} :
    {A : Type ℓ} (saved : Bool) (reason : String) (w : World) → (fail saved reason w).1 ≡ stop → A
unfolding fail
fail_not_stop saved reason w e = ground arith

error_not_stop {ℓ} : {A : Type ℓ} → error ≡ stop → A
error_not_stop e = ground arith

update_config-cases :
    (env : NetEnv) (ip : String) (w : World)
    → ((update_node_provision_config env ip w).1 ≡ false)
      ⊎ ((net : RemoteNetConfig) × (update_node_provision_config env ip w
            ≡ (record w { remote = append_ip ip (some net) }, true)))
unfolding update_node_provision_config append_ip
update_config-cases env ip w = elim (Option-cases w.remote) [
  | inl e ↦ inl (rw (update_node_provision_config, e) refl)
  | inr (net, e) ↦ elim (Bool-cases (is_empty ip || not env.appended)) [
    | inl f ↦ inl (rw (update_node_provision_config, e, f) refl)
    | inr f ↦ inr (net, rw (update_node_provision_config, e, f) refl)
  ]
]

-- What the recording of the address leaves, where it succeeds.
record_worker_ip-stop :
    (env : JoinEnv) (ip : String) (w : World)
    → (record_worker_ip env ip w).1 ≡ stop
    → ((record_worker_ip env ip w).0.stored ≡ w.stored)
      × ((record_worker_ip env ip w).0.completed ≡ w.completed)
      × IsRecorded ip (record_worker_ip env ip w).0.remote
unfolding record_worker_ip
record_worker_ip-stop env ip w e = elim (update_config-cases env.net ip w) [
  | inl f ↦
      let v = (update_node_provision_config env.net ip w).0 in
      let k : record_worker_ip env ip w
          ≡ fail env.failed_saved "NodeProvisionNetConfigUpdateFailed" v =
        rw (record_worker_ip, f) refl in
      let c : (fail env.failed_saved "NodeProvisionNetConfigUpdateFailed" v).1 ≡ stop =
        ap (λ r. r.1) (sym k) ∙ e in
      fail_not_stop env.failed_saved "NodeProvisionNetConfigUpdateFailed" v c
  | inr (net, f) ↦ rw (record_worker_ip, f) (refl, refl, append_ip-IsRecorded ip net)
]

update-saved :
    (accepted : Bool) (w : World)
    → (update accepted w).1 ≡ true
    → (update accepted w).0 ≡ write (record w.cluster { status = w.stored.status }) w
unfolding update
update-saved accepted w e = elim (Bool-cases (accepted && is_fresh w)) [
  | inl f ↦ rw (update, f) refl
  | inr f ↦ ground arith
]

set_status-saved :
    (accepted : Bool) (reason : String) (w : World)
    → (set_status accepted ready reason false w).1 ≡ true
    → ((set_status accepted ready reason false w).0.stored.status.phase ≡ ready)
      × ((set_status accepted ready reason false w).0.stored.annotations ≡ w.stored.annotations)
      × ((set_status accepted ready reason false w).0.completed ≡ w.completed)
unfolding set_status status_update
set_status-saved accepted reason w e = elim (Bool-cases (accepted && is_fresh w)) [
  | inl f ↦ rw (set_status, status_update, f) (refl, refl, refl)
  | inr f ↦ ground arith
]

-- What follows the join, where it succeeds.
finish_join-stop :
    (env : JoinEnv) (ip : String) (w : World)
    → (finish_join env ip w).1 ≡ stop
    → IsJoined (finish_join env ip w).0.stored
      × ((finish_join env ip w).0.completed ≡ w.completed)
      × IsRecorded ip (finish_join env ip w).0.remote
unfolding finish_join mark_joined has_value
finish_join-stop env ip w e =
    let u = update env.joined_saved (mark_joined (refetch w)) in
    let v = set_status env.ready_saved ready "WorkerJoined" false u.0 in
    elim (Bool-cases env.found) [
      | inr f ↦
          (let k : (finish_join env ip w).1 ≡ error = rw (finish_join, f) refl in
            error_not_stop (sym k ∙ e))
      | inl f ↦ elim (Bool-cases u.1) [
        | inr g ↦
            (let k : (finish_join env ip w).1 ≡ error = rw (finish_join, f, g) refl in
              error_not_stop (sym k ∙ e))
        | inl g ↦ elim (Bool-cases v.1) [
          | inr h ↦
              (let k : (finish_join env ip w).1 ≡ error = rw (finish_join, f, g, h) refl in
                error_not_stop (sym k ∙ e))
          | inl h ↦
              let k : finish_join env ip w ≡ record_worker_ip env ip v.0 =
                rw (finish_join, f, g, h) refl in
              let (st, c, r) = record_worker_ip-stop env ip v.0 (ap (λ x. x.1) (sym k) ∙ e) in
              let (p, an, d) = set_status-saved env.ready_saved "WorkerJoined" u.0 h in
              let us = update-saved env.joined_saved (mark_joined (refetch w)) g in
              let done : IsJoined v.0.stored = record {
                is_ready = p;
                joined =
                    ap (λ a. has_value a.joined "true") (an ∙ ap (λ x. x.stored.annotations) us);
              } in
              rw k (subst IsJoined (sym st) done, c ∙ d ∙ ap (λ x. x.completed) us, r)
        ]
      ]
    ]

-- The join of a worker that is resumed behind its completed phases (the annotation of its copy gives
-- their number, at most nine), where it returns without an error and without a retry, leaves the stored
-- object Ready and marked as joined, all nine phases completed in order, none twice and none left out,
-- and the address that wg0 of the worker has on the list of used addresses of the remote NetConfig.
pub run_join-joins :
    (env : JoinEnv) (join_command : String) (w : World)
    → start_phase w.cluster.annotations.last_worker ≤ 9
    → w.completed ≡ up_to (start_phase w.cluster.annotations.last_worker)
    → (run_join env join_command w).1 ≡ stop
    → IsJoined (run_join env join_command w).0.stored
      × ((run_join env join_command w).0.completed ≡ up_to 9)
      × (ip : String) × (get_tun_ip env.kubeadm.tun_ip ≡ some ip)
      × IsRecorded ip (run_join env join_command w).0.remote
unfolding run_join answered_join on_worker_phase_complete
run_join-joins env join_command w h c e =
    let start = start_phase w.cluster.annotations.last_worker in
    let r =
      join_worker_node (run_command env) (on_worker_phase_complete env) env.kubeadm join_command
        start w in
    elim (Option-cases r.1) [
      | inl f ↦
          let k : run_join env join_command w ≡ fail env.failed_saved "WorkerJoinFailed" r.0 =
            rw (answered_join, f) refl in
          fail_not_stop env.failed_saved "WorkerJoinFailed" r.0 (ap (λ x. x.1) (sym k) ∙ e)
      | inr (ip, f) ↦
          let k : run_join env join_command w ≡ finish_join env ip r.0 =
            rw (answered_join, f) refl in
          let (l, t) =
            join_worker_node-completes (run_command env) (on_worker_phase_complete env)
              (λ v. v.completed) (λ cmd s. refl)
              (λ i s.
                patch-completed (env.progress_saved i) last_completed_phase_worker (itoa i)
                  (record s { completed = s.completed ++ i ∷ [] }))
              env.kubeadm join_command start w ip h c f in
          let (a, b, d) = finish_join-stop env ip r.0 (ap (λ x. x.1) (sym k) ∙ e) in
          rw k (a, b ∙ l, ip, t, d)
    ]
