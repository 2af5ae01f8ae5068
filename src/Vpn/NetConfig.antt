-- ===== src/Vpn/NetConfig.antt =====
-- The NodeProvisionNetConfig status (api/ml/v1alpha1/nodeprovisionnetconfig_types.go), and how
-- internal/controller/ml/nodeprovision_controller.go records an allocation in it
-- (`updateNetConfigStatus`) and releases one (the last step of `cleanupVPNPeer`).
pub mod Distinct
pub mod Release
pub mod Retry
use public_cloud_vm_provisio.Prelude.{
  ℕ, zero, suc, ◌+◌, String, Bool, false, not, ◌&&◌, ◌||◌, Option, List, [], ◌∷◌, ◌++◌, ◌==◌,
  if◌then◌else◌, any, drop_if, is_empty,
}
use public_cloud_vm_provisio.Vpn.Allocate.{member}

pub record VpnPeerStatus : Type 0 where
  pub node_name : String
  pub public_key : String
  pub vpn_ip : String

-- Times are seconds.
pub record NetConfigStatus : Type 0 where
  pub used_ip_addresses : List String
  pub cluster_join_command : String
  pub join_token_refreshed_at : Option ℕ
  pub vpn_peers : List VpnPeerStatus
  pub kubeconfig : String

-- `p.PublicKey == publicKey || p.VPNIP == vpnIP`
abbrev pub same_peer : String → String → VpnPeerStatus → Bool
same_peer key ip p = p.public_key == key || p.vpn_ip == ip

abbrev pub peer_exists : String → String → NetConfigStatus → Bool
peer_exists key ip s = any (same_peer key ip) s.vpn_peers

-- The body of the loop of `updateNetConfigStatus`, up to the patch.
unfoldable pub record_allocation : String → String → String → NetConfigStatus → NetConfigStatus
record_allocation ip key node s = record s {
  used_ip_addresses =
      if member s.used_ip_addresses ip then s.used_ip_addresses else s.used_ip_addresses ++ ip ∷ [];
  vpn_peers =
      if peer_exists key ip s
      then s.vpn_peers
      else s.vpn_peers ++ record { node_name = node; public_key = key; vpn_ip = ip } ∷ [];
}

-- `p.NodeName == np.Name || p.VPNIP == vpnIP`
abbrev pub released_peer : String → String → VpnPeerStatus → Bool
released_peer node ip p = p.node_name == node || p.vpn_ip == ip

-- `vpnIP != "" && ip == vpnIP`
abbrev pub released_ip : String → String → Bool
released_ip ip used = not (is_empty ip) && used == ip

-- The body of the loop of `cleanupVPNPeer`, up to the patch.
unfoldable pub release_allocation : String → String → NetConfigStatus → NetConfigStatus
unfolding is_empty
release_allocation node ip s = record s {
  used_ip_addresses = drop_if (released_ip ip) s.used_ip_addresses;
  vpn_peers = drop_if (released_peer node ip) s.vpn_peers;
}

-- The API server's answer to a patch.
pub data PatchAnswer : Type 0 where
  applied conflict failed : PatchAnswer

-- What happens in one round: whether the object is fetched, what others write to the object
-- between the fetch and the patch, and how the patch is answered. The answer may be any: whether the
-- patch carries a resource version, on which a conflict depends, does not show here.
pub record Attempt : Type 0 where
  pub fetched : Bool
  pub meanwhile : NetConfigStatus → NetConfigStatus
  pub answer : PatchAnswer

pub data RetryResult : Type 0 where
  done fetch_failed patch_failed too_many_conflicts : RetryResult

-- `merge base modified current` is the object after the merge patch from `base` to `modified`, on
-- the API server's `current`.
module _ (merge : NetConfigStatus → NetConfigStatus → NetConfigStatus → NetConfigStatus) where
  -- The rounds left, the number of the round, the status on the API server.
  unfoldable pub retry :
      (NetConfigStatus → NetConfigStatus)
      → (NetConfigStatus → Bool)
      → (ℕ → Attempt)
      → ℕ
      → ℕ
      → NetConfigStatus
      → NetConfigStatus × RetryResult
  retry change settled attempts zero round s = (s, too_many_conflicts)
  retry change settled attempts (suc left) round s =
      let a = attempts round in
      let next = retry change settled attempts left (round + 1) (a.meanwhile s) in
      if not a.fetched then (s, fetch_failed) else if settled s then (s, done) else elim a.answer [
        | applied ↦ (merge s (change s) (a.meanwhile s), done)
        | conflict ↦ next
        | failed ↦ (a.meanwhile s, patch_failed)
      ]

  -- `updateNetConfigStatus`
  unfoldable pub update_net_config_status :
      String → String → String → (ℕ → Attempt) → NetConfigStatus → NetConfigStatus × RetryResult
  update_net_config_status ip key node attempts s =
      retry (record_allocation ip key node)
        (λ t. member t.used_ip_addresses ip && peer_exists key ip t) attempts 5 0 s

  -- Step 6 of `cleanupVPNPeer`
  unfoldable pub release_ip :
      String → String → (ℕ → Attempt) → NetConfigStatus → NetConfigStatus × RetryResult
  release_ip node ip attempts s = retry (release_allocation node ip) (λ t. false) attempts 5 0 s
