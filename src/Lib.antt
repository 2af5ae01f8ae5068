-- ===== src/Lib.antt =====
-- Verification of the VM provisioner: a Kubernetes controller that turns NodeProvision resources
-- into cluster nodes on AWS, on GCP or on existing machines, each joined to the cluster over a
-- WireGuard VPN whose server it configures by SSH.
--
-- The parts, and the files that model them:
--
-- - Net: IPv4 addresses and ranges, as far as provider/onprem/provisioner.go uses Go's net package,
--   and its incrementIP (increment_ip). Children: Order (the address as a number), Print.
-- - Vpn/Allocate: getNextAvailableIP, readVPNServerPeers and allocateVPNIP of
--   provider/onprem/provisioner.go. The order in which Go walks a map is the parameter iterate. The
--   search runs on fuel, 2^32 + 1 rounds; the loop of the program has no bound. Children: Loop (the
--   rounds), Free (what a found address is), Ends (how the search ends).
-- - Vpn/NetConfig: the allocations in the NodeProvisionNetConfig status, as updateNetConfigStatus
--   and the last step of cleanupVPNPeer in internal/controller/ml/nodeprovision_controller.go change
--   them. A merge patch is the parameter merge; the rounds of the retry loop, five of them, are
--   given by what the API server answers. Children: Distinct, Release, Retry.
-- - Vpn/Filter: the awk program that drops peer blocks from wg0.conf, over the flags that it keeps of
--   a block; its two forms are cleanup_rules of Vpn/Conf (cleanupVPNPeer) and stale_rules of
--   Vpn/Register (registerVPNPeer). Child: Blocks (its effect on a file of lines and blocks).
-- - Vpn/Conf: the removal of a peer's block by cleanupVPNPeer. Child: Blocks.
-- - Vpn/Register: registerVPNPeer of provider/onprem/provisioner.go on a Server, the table of the
--   interface and the lines of wg0.conf. The interface is the parameter WireGuard, with what wg set is
--   documented to do as IsWireGuard. Children: Layout (files), Persist, Live (the table).
-- - Vpn/Client: KubernetesAPIAllowedIP, buildClientWGConfig and parsePort of the same file. Children:
--   Allowed (the AllowedIPs), Route (the route out of a join command).
-- - Node: the NodeProvision resource (api/ml/v1alpha1/nodeprovision_types.go), the World that a
--   reconcile reads and writes, and the shared steps setPhaseStatus and failNodeProvision. A World
--   holds the copy of the handler and the object on the API server apart: status_update, update and
--   refetch move between them.
-- - Node/Aws, Node/Gcp, Node/OnPrem, Node/Joining, Node/Delete, Node/Reconcile: the handlers of
--   internal/controller/ml/nodeprovision_controller.go. A handler takes an environment, a record
--   with the answer of each call that leaves the process, and a World, and gives back the World and
--   the (ctrl.Result, error) pair as a Result. Node/Reconcile composes them as Reconcile does.
-- - Node/Aws/Network: ResolveOrCreateNetworkConfig of provider/aws/ec2.go, the EC2 API being the
--   parameter Ec2Api, of which nothing is assumed.
-- - Node/Provision: what ProvisionEC2Node of provider/aws/ec2.go, ProvisionGCPNode of
--   provider/gcp/compute.go and NewInClusterProvisioner of provider/onprem/provisioner.go share: an
--   address, keys, client configuration, registration (prepare_peer). Children: Cloud and OnPrem (the
--   provisioners; the effects of the commands on a node are the parameter exec), Plans, Peers, Leaks,
--   Skipped, Tunnel (what they leave on the VPN server).
-- - Node/Bootstrap: the parameters of the cloud-init script of provider/aws/cloudinit.go and their
--   validation, the template being a parameter. Node/Runtime: pkg/runtime/config.go and InstallSteps.
-- - Node/JoinToken: requireNetConfig and refreshLocalJoinToken of the same file, on a TokenWorld of
--   NetConfigs and bootstrap tokens. The list and the re-fetch answer from the cache of the manager's
--   client, which may be behind the API server. The handlers take its answer from their environments. Children:
--   Current, Route (the command that it publishes, as KubernetesAPIAllowedIP reads it).
-- - Kubeadm: runPhases, InitializeControlPlane and JoinWorkerNode of pkg/kubeadm/kubeadm.go, over any
--   state: the parameter run is what a shell command does to it, the parameter done what the callback
--   does at the end of a phase, and the commands of a phase are given by its name. Children: Resume
--   (a run that skips the phases before its start), Split, Init, Join, Keep.
-- - Cluster: the RemoteCluster resource (api/v1/remotecluster_types.go) and its own World, with the
--   writes that internal/controller/remotecluster_controller.go shares between its handlers. An object
--   has a resource version, and a status_update or update of a copy with another version is refused;
--   patch_annotations changes the stored object and leaves the copy.
-- - Cluster/ControlPlane, Cluster/Worker, Cluster/Remote, Cluster/Packages, Cluster/Secrets,
--   Cluster/Delete, Cluster/Reconcile: the handlers of that controller, as those of Node. The goroutine
--   of a control plane is the step run_job; Cluster/ControlPlane/Cycle sets it between two reconciles.
--   Cluster/Reconcile composes the handlers as Reconcile does, and Cluster/Reconcile/Provision any
--   number of reconciles. Loops that the program bounds keep their bounds: the five attempts of
--   retry.DefaultRetry (retry_ready, retry_variants) and the 45 of resolve_node.
-- - Credentials: provider/aws/mfa.go (Sts) and provider/aws/credmanager.go (Manager): the sessions that a
--   secret holds, how new ones are made, and the cache of the manager. A Vault holds the cache and the
--   secrets. Children for the proofs: Lasting, Fresh, Restart.
-- - The files named Examples: the theorems at concrete values; those named Samples have the values.
-- - Prelude: the names of the libraries, Boolean tests, lists with native lengths, and text.
--
-- How the parts meet: the handlers of Node record an address by Vpn/NetConfig's
-- update_net_config_status when a launch or a bootstrap answers with it, and cleanup_vpn_peer gives
-- it back by release_ip and cleans wg0.conf by Vpn/Conf. The address itself comes out of
-- Node/Provision, whose result is the Provision that the cloud handlers take from their
-- environments. Cluster prepares what Node works on: complete_control_plane publishes the NetConfig on
-- the remote cluster, a worker's join adds its address to the list there, and both run the phases of Kubeadm behind the last one that an annotation records.
--
-- Not modelled: what runs on the machines and in the clouds (SSH, kubectl, EC2, Compute Engine), which
-- the environments answer for; the shell commands of the phases; the texts of failures beyond their
-- first words; logging; of the RemoteCluster controller the drain and the reset of a machine, the node
-- labels, the kubeconfig with its timer and the pre-pull DaemonSets, whose failures are only logged,
-- and all of a PackageVariant but its key, its label and the repository it deploys to; ArgoCD,
-- generateTOTPCode, the generation of WireGuard keys, and the cloud-init template; IPv6 addresses, so
-- that an API server with one counts as no address; of the cloud requests all but the script, and the
-- look-ups of images and instance types and the making of key pairs.
pub mod Prelude
pub mod Net
pub mod Vpn
pub mod Node
pub mod Kubeadm
pub mod Cluster
pub mod Credentials
