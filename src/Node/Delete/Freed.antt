-- ===== src/Node/Delete/Freed.antt =====
-- What `cleanupVPNPeer` of internal/controller/ml/nodeprovision_controller.go is to release, said
-- without its loops, and that its changes of the status do so.
use public_cloud_vm_provisio.Prelude.{
  List, [], ◌∷◌, sym, subst, find_first, Drops, Decides, drop_if-Drops, eq-cases, is_empty-cases,
  String, ◌≡◌, refl, ◌≢◌, ◌⊎◌, inl, inr, true, false, is_empty,
}
use public_cloud_vm_provisio.Vpn.NetConfig.{
  VpnPeerStatus, released_peer, released_ip, NetConfigStatus, release_allocation,
}
use public_cloud_vm_provisio.Node.{NodeProvision, World}
use public_cloud_vm_provisio.Node.Delete.{is_own_peer, recorded_peer, resolve_vpn_ip}

-- The address in the status of a node that the NetConfig has no entry with an address for: the VPN
-- address, or else the one of the machine.
pub data IsFallback (np : NodeProvision) : String → Type 0 where
  vpn_address : np.status.vpn_ip ≢ "" → IsFallback np np.status.vpn_ip
  machine_address : np.status.vpn_ip ≡ "" → IsFallback np np.status.ip_address

-- The entry bears the node's name, or the VPN address of its status.
abbrev pub IsOwn : NodeProvision → VpnPeerStatus → Type 0
IsOwn np p = (p.node_name ≡ np.name) ⊎ (p.vpn_ip ≡ np.status.vpn_ip)

-- The address that a cleanup frees: that of the node's first entry.
pub data IsFreed (np : NodeProvision) : List VpnPeerStatus → String → Type 0 where
  unrecorded : {ip : String} → IsFallback np ip → IsFreed np [] ip
  recorded :
      {p : VpnPeerStatus} {ps : List VpnPeerStatus}
      → IsOwn np p
      → p.vpn_ip ≢ ""
      → IsFreed np (p ∷ ps) p.vpn_ip
  blank :
      {p : VpnPeerStatus} {ps : List VpnPeerStatus} {ip : String}
      → IsOwn np p
      → p.vpn_ip ≡ ""
      → IsFallback np ip
      → IsFreed np (p ∷ ps) ip
  foreign :
      {p : VpnPeerStatus} {ps : List VpnPeerStatus} {ip : String}
      → ¬ (IsOwn np p)
      → IsFreed np ps ip
      → IsFreed np (p ∷ ps) ip

-- The entries of the node and of the address have left the status, and the address its list; every
-- other entry and address is in its place, and the rest of the status is as before.
pub record IsReleased (node ip : String) (s t : NetConfigStatus) : Type 0 where
  pub peers :
      Drops (λ (p : VpnPeerStatus). (p.node_name ≡ node) ⊎ (p.vpn_ip ≡ ip)) s.vpn_peers t.vpn_peers
  pub addresses :
      Drops (λ (used : String). (ip ≢ "") × (used ≡ ip)) s.used_ip_addresses t.used_ip_addresses
  pub others : t ≡ record s { vpn_peers = t.vpn_peers; used_ip_addresses = t.used_ip_addresses }

either-Decides :
    (node ip : String)
    → Decides
        (released_peer node ip)
        (λ (p : VpnPeerStatus). (p.node_name ≡ node) ⊎ (p.vpn_ip ≡ ip))
either-Decides node ip p = elim (eq-cases p.node_name node) [
  | inl (same, e) ↦ inl (rw e refl, inl same)
  | inr (other, e) ↦ elim (eq-cases p.vpn_ip ip) [
    | inl (same, f) ↦ inl (rw (e, f) refl, inr same)
    | inr (another, f) ↦ inr (rw (e, f) refl, λ h. elim h [ inl x ↦ other x | inr x ↦ another x ])
  ]
]

released_ip-Decides :
    (ip : String) → Decides (released_ip ip) (λ (used : String). (ip ≢ "") × (used ≡ ip))
released_ip-Decides ip used = elim (is_empty-cases ip) [
  | inl (none_given, e) ↦ inr (rw e refl, λ h. h.0 none_given)
  | inr (given, e) ↦ elim (eq-cases used ip) [
    | inl (same, f) ↦ inl (rw (e, f) refl, (given, same))
    | inr (other, f) ↦ inr (rw (e, f) refl, λ h. other h.1)
  ]
]

pub release_allocation-IsReleased :
    (node ip : String) (s : NetConfigStatus) → IsReleased node ip s (release_allocation node ip s)
unfolding release_allocation
release_allocation-IsReleased node ip s = record {
  peers = drop_if-Drops (released_peer node ip) _ (either-Decides node ip) s.vpn_peers;
  addresses = drop_if-Drops (released_ip ip) _ (released_ip-Decides ip) s.used_ip_addresses;
  others = refl;
}

-- The address that a cleanup releases, with these entries
unfoldable pub freed_from : NodeProvision → List VpnPeerStatus → String
freed_from np peers = resolve_vpn_ip np (recorded_peer np peers).1

unfoldable pub freed_ip : World → String
unfolding freed_from
freed_ip w = freed_from w.np w.net.vpn_peers

resolve-IsFallback : (np : NodeProvision) → IsFallback np (resolve_vpn_ip np "")
unfolding resolve_vpn_ip is_empty
resolve-IsFallback np = elim (is_empty-cases np.status.vpn_ip) [
  | inl (blank_ip, e) ↦ rw e (machine_address blank_ip)
  | inr (given, e) ↦ rw e (vpn_address given)
]

freed_own :
    (np : NodeProvision) (p : VpnPeerStatus) (ps : List VpnPeerStatus)
    → released_peer np.name np.status.vpn_ip p ≡ true
    → freed_from np (p ∷ ps) ≡ resolve_vpn_ip np p.vpn_ip
unfolding freed_from recorded_peer find_first is_own_peer
freed_own np p ps e = rw (freed_from, recorded_peer, find_first, is_own_peer, e) refl

freed_foreign :
    (np : NodeProvision) (p : VpnPeerStatus) (ps : List VpnPeerStatus)
    → released_peer np.name np.status.vpn_ip p ≡ false
    → freed_from np (p ∷ ps) ≡ freed_from np ps
unfolding freed_from recorded_peer find_first is_own_peer
freed_foreign np p ps e = rw (freed_from, recorded_peer, find_first, is_own_peer, e) refl

resolve-recorded : (np : NodeProvision) (ip : String) → ip ≢ "" → resolve_vpn_ip np ip ≡ ip
unfolding resolve_vpn_ip
resolve-recorded np ip given = elim (is_empty-cases ip) [
  | inl (none_given, e) ↦ absurd (given none_given)
  | inr (_, e) ↦ rw e refl
]

pub freed_from-IsFreed :
    (np : NodeProvision) (peers : List VpnPeerStatus) → IsFreed np peers (freed_from np peers)
unfolding freed_from recorded_peer find_first
freed_from-IsFreed np [] = unrecorded (resolve-IsFallback np)
freed_from-IsFreed np (p ∷ ps) = elim (either-Decides np.name np.status.vpn_ip p) [
  | inr (e, other) ↦
      subst (IsFreed np (p ∷ ps)) (sym (freed_foreign np p ps e))
        (foreign other (freed_from-IsFreed np ps))
  | inl (e, own) ↦ subst (IsFreed np (p ∷ ps)) (sym (freed_own np p ps e)) (own_freed own)
]
  where
    own_freed : IsOwn np p → IsFreed np (p ∷ ps) (resolve_vpn_ip np p.vpn_ip)
    own_freed own = elim (is_empty-cases p.vpn_ip) [
      | inl (none_given, _) ↦ blank own none_given (
          subst (λ ip. IsFallback np (resolve_vpn_ip np ip)) (sym none_given)
            (resolve-IsFallback np))
      | inr (given, _) ↦
          subst (IsFreed np (p ∷ ps)) (sym (resolve-recorded np p.vpn_ip given))
            (recorded own given)
    ]
