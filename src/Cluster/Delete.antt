-- ===== src/Cluster/Delete.antt =====
-- Deletion of a RemoteCluster: `handleDelete` and `removeVPNPeer` of
-- internal/controller/remotecluster_controller.go. Not modelled: the drain of a worker and the reset
-- script on the machine, whose failures are only logged.
use public_cloud_vm_provisio.Prelude.{
  String, Bool, true, false, not, ◌&&◌, ◌||◌, Option, none, some, List, [], ◌∷◌, ◌==◌,
  if◌then◌else◌, drop_if, is_empty, trim_space, split, cut,
}
use public_cloud_vm_provisio.Vpn.Allocate.{fields}
use public_cloud_vm_provisio.Vpn.Conf.{clean_conf}
use public_cloud_vm_provisio.Cluster.{
  World, Result, NodeType, worker, update, stop, error, find_control_plane,
}
use public_cloud_vm_provisio.Cluster.Packages.{ResourcesEnv, delete_cluster_resources}
use public_cloud_vm_provisio.Cluster.Secrets.{lookup, release_secret}
use public_cloud_vm_provisio.Cluster.Worker.{with_vpn_server}

-- The address before the first slash.
unfoldable pub before_slash : String → String
unfolding cut
before_slash text = elim (cut b'/' text) [ none ↦ text | some (ip, _) ↦ ip ]

-- `for _, cidr := range strings.Split(fields[3], ",")`
unfoldable pub has_ip : String → List String → Bool
unfolding before_slash trim_space
has_ip ip [] = false
has_ip ip (cidr ∷ cidrs) = before_slash (trim_space cidr) == ip || has_ip ip cidrs

-- The key of a line of the dump whose fourth field has the address.
unfoldable pub line_key : String → List String → Option String
unfolding has_ip split
line_key ip (key ∷ _ ∷ _ ∷ allowed ∷ _) = if has_ip ip (split b',' allowed) then some key else none
line_key ip _ = none

-- The loop of `removeVPNPeer`, behind the first line.
unfoldable pub peer_key : String → List String → String
unfolding line_key fields
peer_key ip [] = ""
peer_key ip (line ∷ lines) =
    let rest = peer_key ip lines in
    elim (line_key ip (fields line)) [ none ↦ rest | some key ↦ key ]

-- The lines behind the first, which is the interface's own.
unfoldable pub peer_lines : String → List String
unfolding split trim_space
peer_lines dump = elim (split 10 (trim_space dump)) [ [] ↦ [] | _ ∷ lines ↦ lines ]

-- What the calls of one run of `removeVPNPeer` answer; `dump` is the text of `wg show wg0 dump`.
pub record PeerEnv : Type 0 where
  pub secret_read : Bool
  pub key : String
  pub connected : Bool
  pub dump : Option String
  pub peer_removed : Bool
  pub conf_cleaned : Bool

-- The peer with the key leaves the running server and its wg0.conf.
unfoldable pub remove_key : PeerEnv → String → World → World
unfolding clean_conf is_empty
remove_key env key w = if is_empty key then w else record w {
  peers = if env.peer_removed then drop_if (λ (k, ips). k == key) w.peers else w.peers;
  conf = if env.conf_cleaned then clean_conf key w.conf else w.conf;
}

-- The credential of the VPN server: at the key, or the only one.
unfoldable pub server_credential : String → List (String × String) → Option String
unfolding lookup is_empty
server_credential key data_of =
    if not (is_empty key)
    then lookup key data_of
    else elim data_of [ [] ↦ none | (k, v) ∷ rest ↦ elim rest [ [] ↦ some v | _ ∷ _ ↦ none ] ]

unfoldable pub has_credential : PeerEnv → World → Bool
unfolding server_credential
has_credential env w = elim w.vpn_secret [
  | none ↦ false
  | some s ↦ elim (server_credential env.key s.data_of) [ none ↦ false | some v ↦ true ]
]

-- `removeVPNPeer`, whose error is only logged.
unfoldable pub remove_vpn_peer : PeerEnv → World → World
unfolding has_credential remove_key peer_key peer_lines
remove_vpn_peer env w =
    if not env.secret_read || not (has_credential env w) || not env.connected
    then w
    else elim env.dump [
      | none ↦ w
      | some dump ↦ remove_key env (peer_key w.cluster.vpn.ip (peer_lines dump)) w
    ]

-- What the calls of one run of `handleDelete` answer.
pub record DeleteEnv : Type 0 where
  pub listed : Bool
  pub peer : PeerEnv
  pub resources : ResourcesEnv
  pub auth_read : Bool
  pub auth_patched : Bool
  pub vpn_read : Bool
  pub vpn_patched : Bool
  pub updated : Bool

abbrev pub is_worker : NodeType → Bool
is_worker worker = true
is_worker _ = false

-- A worker without a VPN server of its own takes the control plane's.
unfoldable pub fall_back : DeleteEnv → World → World
unfolding is_empty find_control_plane with_vpn_server
fall_back env w =
    if is_worker w.cluster.node_type && is_empty w.cluster.vpn.credentials && env.listed
    then elim (find_control_plane w) [
      | none ↦ w
      | some parent ↦ if is_empty parent.vpn.credentials then w else with_vpn_server parent w
    ]
    else w

-- Step 3
unfoldable pub clean_vpn : DeleteEnv → World → World
unfolding fall_back remove_vpn_peer is_empty
clean_vpn env w =
    let v = fall_back env w in
    if is_empty v.cluster.vpn.ip || is_empty v.cluster.vpn.credentials
    then v
    else remove_vpn_peer env.peer v

-- Steps 4 and 5
unfoldable pub release_resources : DeleteEnv → World → World
unfolding delete_cluster_resources release_secret is_empty
release_resources env w = record w {
  resources = (delete_cluster_resources env.resources w.cluster w.resources).0;
  auth = release_secret env.auth_read env.auth_patched w.auth;
  vpn_secret =
      if is_empty w.cluster.vpn.credentials
      then w.vpn_secret
      else release_secret env.vpn_read env.vpn_patched w.vpn_secret;
}

-- Step 6
unfoldable pub drop_finalizer : DeleteEnv → World → World × Result
unfolding update
drop_finalizer env w =
    let (v, saved) =
      update env.updated (record w { cluster = record w.cluster { finalizer = false } }) in
    if saved then (v, stop) else (v, error)

-- `handleDelete`
unfoldable pub handle_delete : DeleteEnv → World → World × Result
unfolding clean_vpn release_resources drop_finalizer
handle_delete env w =
    if not w.cluster.finalizer
    then (w, stop)
    else drop_finalizer env (release_resources env (clean_vpn env w))
