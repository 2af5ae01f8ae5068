-- ===== src/Node/Delete.antt =====
-- Deletion of a NodeProvision: `handleDelete`, `cleanupVPNPeer` and `cleanupOnPremNode` of
-- internal/controller/ml/nodeprovision_controller.go. Not modelled: what the reset script does on
-- the physical node (its failure changes nothing), and the credential cache that an authentication
-- failure evicts from.
pub mod Cloud
pub mod Peer
pub mod Freed
pub mod Safety
use public_cloud_vm_provisio.Prelude.{
  ℕ, String, Bool, true, false, not, ◌&&◌, ◌||◌, none, some, List, map, ◌==◌, if◌then◌else◌, any,
  drop_if, find_first, is_empty,
}
use public_cloud_vm_provisio.Vpn.Allocate.{PeerMap, lookup_peer}
use public_cloud_vm_provisio.Vpn.NetConfig.{
  NetConfigStatus, VpnPeerStatus, Attempt, RetryResult, done, release_ip,
}
use public_cloud_vm_provisio.Vpn.Conf.{clean_conf}
use public_cloud_vm_provisio.Node.{
  NodeProvision, World, Result, KubeNode, Provider, aws, gcp, deleting, stop, error, requeue_after,
  update, status_update, with_status,
}

-- What the calls of one run of `cleanupVPNPeer` answer.
pub record CleanupEnv : Type 0 where
  pub listed : Bool
  pub present : Bool  -- there is a NodeProvisionNetConfig
  pub vpn_server : Bool
  pub peers_read : Bool  -- ReadVPNServerPeers
  pub peer_removed : Bool  -- wg set wg0 peer … remove
  pub conf_cleaned : Bool
  pub merge : NetConfigStatus → NetConfigStatus → NetConfigStatus → NetConfigStatus
  pub attempts : ℕ → Attempt

-- The loop condition of step 1
unfoldable pub is_own_peer : NodeProvision → VpnPeerStatus → Bool
is_own_peer np p = p.node_name == np.name || p.vpn_ip == np.status.vpn_ip

-- The recorded key and address of the node's peer, empty without one.
unfoldable pub recorded_peer : NodeProvision → List VpnPeerStatus → String × String
unfolding is_own_peer
recorded_peer np peers = elim (find_first (is_own_peer np) peers) [
  | none ↦ ("", "")
  | some p ↦ (p.public_key, p.vpn_ip)
]

-- The address that is released.
unfoldable pub resolve_vpn_ip : NodeProvision → String → String
unfolding is_empty
resolve_vpn_ip np resolved =
    if not (is_empty resolved)
    then resolved
    else if not (is_empty np.status.vpn_ip)
    then np.status.vpn_ip
    else np.status.ip_address

-- Step 3: the key of the peer on the live server, where the status has none.
unfoldable pub live_key : Bool → PeerMap → String → String → String
unfolding is_empty lookup_peer
live_key read peers key ip =
    if is_empty key && not (is_empty ip) && read
    then elim (lookup_peer peers ip) [ none ↦ key | some k ↦ k ]
    else key

-- Steps 4 and 5: the peer leaves the running server and its wg0.conf.
unfoldable pub remove_peer : CleanupEnv → String → World → World
unfolding is_empty clean_conf
remove_peer env key w = if is_empty key then w else record w {
  peers = if env.peer_removed then drop_if (λ (ip, k). k == key) w.peers else w.peers;
  conf = if env.conf_cleaned then clean_conf key w.conf else w.conf;
}

abbrev pub is_done : RetryResult → Bool
is_done done = true
is_done _ = false

-- `cleanupVPNPeer`; the answer is whether it returns without an error.
unfoldable pub cleanup_vpn_peer : CleanupEnv → World → World × Bool
unfolding recorded_peer resolve_vpn_ip live_key remove_peer
cleanup_vpn_peer env w =
    let (recorded, resolved) = recorded_peer w.np w.net.vpn_peers in
    let ip = resolve_vpn_ip w.np resolved in
    let key = live_key env.peers_read w.peers recorded ip in
    let (net, r) = release_ip env.merge w.np.name ip env.attempts w.net in
    let v = remove_peer env key w in
    if not env.listed
    then (w, false)
    else if not env.present
    then (w, true)
    else if not env.vpn_server
    then (w, false)
    else (record v { net = net }, is_done r)

-- The answers to `r.Get` and `r.Update` that the handlers tell apart.
pub data ApiAnswer : Type 0 where
  taken not_found refused : ApiAnswer

pub data Termination : Type 0 where
  terminated auth_failed failed : Termination

-- What the calls of one run of `handleDelete` answer. `node_read` is whether the fetch of the
-- node answers; whether there is one is read off the cluster.
pub record DeleteEnv : Type 1 where
  pub now : ℕ
  pub saved_deleting : Bool
  pub node_read : Bool
  pub node_patched : Bool
  pub node_deleted : Bool
  pub user_secret : Bool
  pub copy_read : Bool  -- getControllerCredsSecret, where there is a copy
  pub terminate : Termination
  pub retried : Bool  -- the second TerminateInstance, without the session
  pub saved_cleared : Bool
  pub cleanup : CleanupEnv
  pub secret_read : Bool
  pub secret_deleted : Bool
  pub updated : ApiAnswer

abbrev pub has_name : String → KubeNode → Bool
has_name name node = node.name == name

-- Our finalizer is stripped, and the node deleted unless it is terminating. A terminating node
-- without finalizers is removed by the API server, in its own time.
unfoldable pub remove_node : DeleteEnv → KubeNode → KubeNode
remove_node env node = record node {
  finalizer = if env.node_patched then false else node.finalizer;
  terminating = node.terminating || env.node_deleted;
}

-- The cluster's nodes after the first part, and whether the node is confirmed gone.
unfoldable pub delete_node : DeleteEnv → World → World × Bool
unfolding is_empty remove_node
delete_node env w =
    let name = w.np.status.node_name in
    let removed = map (λ n. if has_name name n then remove_node env n else n) w.nodes in
    if is_empty name
    then (w, true)
    else if not env.node_read
    then (w, false)
    else if any (has_name name) w.nodes
    then (record w { nodes = removed }, false)
    else (w, true)

-- Termination is accepted: the instance counts as gone from here on, although EC2 and GCP shut it down
-- in their own time; its ID is cleared.
unfoldable pub clear_instance : DeleteEnv → World → World
clear_instance env w =
    let v = record w { instances = drop_if (λ i. i == w.np.status.instance_id) w.instances } in
    status_update env.saved_cleared (with_status (record w.np.status { instance_id = "" }) v)

-- What is left to do after the cloud: nothing where the handler returns early.
pub data Cleaned : Type 0 where
  cleaned : World → Cleaned
  halted : World → Result → Cleaned

-- The answer to `TerminateInstance`. AWS tries once more without the session token.
unfoldable pub answered_aws : DeleteEnv → World → Termination → Cleaned
unfolding clear_instance
answered_aws env w terminated = cleaned (clear_instance env w)
answered_aws env w auth_failed =
    if env.retried then cleaned (clear_instance env w) else halted w error
answered_aws env w failed = halted w error

unfoldable pub answered_gcp : DeleteEnv → World → Termination → Cleaned
unfolding clear_instance
answered_gcp env w terminated = cleaned (clear_instance env w)
answered_gcp env w _ = halted w error

-- The AWS case
unfoldable pub terminate_aws : DeleteEnv → World → Cleaned
unfolding is_empty answered_aws
terminate_aws env w =
    if is_empty w.np.status.instance_id
    then cleaned w
    else if not env.user_secret && not (env.copy_read && w.copied_secret)
    then halted w error
    else answered_aws env w env.terminate

-- The GCP case
unfoldable pub terminate_gcp : DeleteEnv → World → Cleaned
unfolding is_empty answered_gcp
terminate_gcp env w =
    if is_empty w.np.status.instance_id
    then cleaned w
    else if not env.user_secret && not (env.copy_read && w.copied_secret)
    then halted w error
    else answered_gcp env w env.terminate

unfoldable pub clean_provider : DeleteEnv → Provider → World → Cleaned
unfolding terminate_aws terminate_gcp
clean_provider env aws w = terminate_aws env w
clean_provider env gcp w = terminate_gcp env w
clean_provider env _ w = cleaned w

-- The last update: a resource that is gone already is not an error.
unfoldable pub answered_update : ApiAnswer → World → World × Result
answered_update taken w = (update true w, stop)
answered_update not_found w = (w, stop)
answered_update refused w = (w, error)

-- From the removal of the VPN peer on
unfoldable pub finish_delete : DeleteEnv → World → World × Result
unfolding cleanup_vpn_peer answered_update
finish_delete env w =
    let (v, _) = cleanup_vpn_peer env.cleanup w in
    answered_update env.updated (record v {
      ssh_secret = v.ssh_secret && not (env.secret_read && env.secret_deleted);
      np = record v.np { finalizer = false };
    })

-- The phase Deleting is written first.
unfoldable pub mark_deleting : DeleteEnv → World → World
mark_deleting env w =
    status_update env.saved_deleting
      (with_status (record w.np.status { phase = deleting; last_updated = some env.now }) w)

unfoldable pub finish_cleaned : DeleteEnv → Cleaned → World × Result
unfolding finish_delete
finish_cleaned env (cleaned w) = finish_delete env w
finish_cleaned env (halted w r) = (w, r)

-- The cloud is left alone until the node is confirmed gone.
unfoldable pub after_node : DeleteEnv → World → Bool → World × Result
unfolding clean_provider finish_cleaned
after_node env w false = (w, requeue_after 5)
after_node env w true = finish_cleaned env (clean_provider env w.np.spec.provider w)

-- `handleDelete`
unfoldable pub handle_delete : DeleteEnv → World → World × Result
unfolding delete_node mark_deleting after_node
handle_delete env w =
    let (v, gone) = delete_node env (mark_deleting env w) in
    if w.np.finalizer then after_node env v gone else (w, stop)
