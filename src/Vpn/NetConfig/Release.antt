-- ===== src/Vpn/NetConfig/Release.antt =====
-- Recording an allocation and releasing it: `updateNetConfigStatus` and `cleanupVPNPeer` of
-- internal/controller/ml/nodeprovision_controller.go.
use public_cloud_vm_provisio.Prelude.{
  String, ◌≡◌, refl, ◌≢◌, inl, inr, true, false, List, [], ◌∷◌, ◌++◌, arith, ◌==◌, eq_iff,
  if◌then◌else◌, Bool-cases, any, drop_if, any-append, drop_if-append, any-drop_if_self, is_empty,
  ◌&&◌,
}
use text.Mathlib.TextPositions.{eq_refl}
use mathlib.Core.List.{append-nil}
use public_cloud_vm_provisio.Vpn.Allocate.Free.{member-append}
use mathlib.Core.Bool.{and-eq-true_iff}
use public_cloud_vm_provisio.Vpn.Allocate.{member}
use public_cloud_vm_provisio.Vpn.NetConfig.{
  VpnPeerStatus, NetConfigStatus, same_peer, peer_exists, record_allocation, released_peer,
  released_ip, release_allocation,
}

pub member-drop_released :
    (ip : String) (xs : List String) (jp : String)
    → is_empty ip ≡ false
    → member (drop_if (released_ip ip) xs) jp ≡ (if jp == ip then false else member xs jp)
unfolding member drop_if
member-drop_released ip [] jp h = ground arith
member-drop_released ip (x ∷ xs) jp h =
    ground (arith, member-drop_released ip xs jp h, eq_iff x ip, eq_iff jp ip, eq_iff x jp)

drop_released_none :
    (ip : String) (xs : List String) → member xs ip ≡ false → drop_if (released_ip ip) xs ≡ xs
unfolding member drop_if
drop_released_none ip [] h = refl
drop_released_none ip (x ∷ xs) h = ground (arith, drop_released_none ip xs)

drop_released_one : (ip : String) → is_empty ip ≡ false → drop_if (released_ip ip) (ip ∷ []) ≡ []
unfolding drop_if
drop_released_one ip h = ground (arith, h, eq_iff ip ip)

member_self : (ip : String) → member (ip ∷ []) ip ≡ true
unfolding member
member_self ip = ground (arith, eq_iff ip ip)

drop_recorded_ip :
    (ip : String) (xs : List String)
    → is_empty ip ≡ false
    → member xs ip ≡ false
    → drop_if (released_ip ip) (xs ++ ip ∷ []) ≡ xs
drop_recorded_ip ip xs given h =
    simp (drop_if-append, drop_released_none ip xs h, drop_released_one ip given, append-nil)

drop_recorded_peer :
    (ip key node : String) (ps : List VpnPeerStatus)
    → any (released_peer node ip) ps ≡ false
    → drop_if
        (released_peer node ip)
        (ps ++ record { node_name = node; public_key = key; vpn_ip = ip } ∷ [])
      ≡ ps
unfolding drop_if
drop_recorded_peer ip key node [] h = ground (arith, eq_iff node node)
drop_recorded_peer ip key node (p ∷ ps) h = ground (arith, drop_recorded_peer ip key node ps)

pub recorded_ip :
    (ip : String) (xs : List String) → member (if member xs ip then xs else xs ++ ip ∷ []) ip ≡ true
recorded_ip ip xs = elim (Bool-cases (member xs ip)) [
  | inl old ↦ rw (old, old)
  | inr new ↦
      rw new (rw (member-append xs (ip ∷ []) ip) (ground (arith, eq_iff ip ip, member_self ip)))
]

recorded_peer :
    (ip key node : String) (ps : List VpnPeerStatus)
    → any (same_peer key ip) (
        if any (same_peer key ip) ps
        then ps
        else ps ++ record { node_name = node; public_key = key; vpn_ip = ip } ∷ [])
      ≡ true
recorded_peer ip key node ps = elim (Bool-cases (any (same_peer key ip) ps)) [
  | inl old ↦ rw (old, old)
  | inr new ↦ rw new (rw (any-append (same_peer key ip) ps _) (ground (arith, eq_iff key key)))
]

module _ (ip key node : String) (s : NetConfigStatus) (given : is_empty ip ≡ false) where
  -- Releasing what was just recorded gives the status back, where the address is not the empty text
  -- and the status held neither the address nor the key nor an entry of the node.
  pub release-record :
      member s.used_ip_addresses ip ≡ false
      → peer_exists key ip s ≡ false
      → any (released_peer node ip) s.vpn_peers ≡ false
      → release_allocation node ip (record_allocation ip key node s) ≡ s
  unfolding release_allocation record_allocation
  release-record new_ip new_peer new_node =
      rw (new_ip, new_peer)
        (λ i. record s {
          used_ip_addresses = drop_recorded_ip ip s.used_ip_addresses given new_ip i;
          vpn_peers = drop_recorded_peer ip key node s.vpn_peers new_node i;
        })

  -- After a release the status holds no entry of the node and not the address; every other address
  -- is held as before.
  pub release_clears :
      (any (released_peer node ip) (release_allocation node ip s).vpn_peers ≡ false)
      × (member (release_allocation node ip s).used_ip_addresses ip ≡ false)
      × ((jp : String)
          → jp ≢ ip
          → member (release_allocation node ip s).used_ip_addresses jp
            ≡ member s.used_ip_addresses jp)
  unfolding release_allocation
  release_clears = (
    any-drop_if_self _ s.vpn_peers,
    rw (member-drop_released ip s.used_ip_addresses ip given, eq_refl),
    λ jp other. ground (arith, member-drop_released ip s.used_ip_addresses jp given, eq_iff jp ip),
  )

  -- After an allocation of an address that is not the empty text is recorded, the status holds the
  -- address and a peer with the key or the address; recording it again changes nothing.
  pub record_settles :
      let t = record_allocation ip key node s in
      (member t.used_ip_addresses ip ≡ true)
      × (peer_exists key ip t ≡ true)
      × (record_allocation ip key node t ≡ t)
  unfolding record_allocation
  record_settles =
      let listed = recorded_ip ip s.used_ip_addresses in
      let registered = recorded_peer ip key node s.vpn_peers in
      (listed, registered, rw (listed, registered))

pub record_settled :
    (ip key node : String) (s : NetConfigStatus)
    → (member s.used_ip_addresses ip && peer_exists key ip s) ≡ true
    → record_allocation ip key node s ≡ s
unfolding record_allocation
record_settled ip key node s h =
    let both = (and-eq-true_iff (member s.used_ip_addresses ip) (peer_exists key ip s)).0 h in
    rw (both.0, both.1)

-- A new address makes the list another one.
pub recorded_ne :
    (ip key node : String) (s : NetConfigStatus)
    → member s.used_ip_addresses ip ≡ false
    → s.used_ip_addresses ≢ (record_allocation ip key node s).used_ip_addresses
unfolding record_allocation
recorded_ne ip key node s new e =
    let listed = recorded_ip ip s.used_ip_addresses in cc (rw (← e) at listed)

pub recorded_new :
    (ip key node : String) (s : NetConfigStatus)
    → member s.used_ip_addresses ip ≡ false
    → (record_allocation ip key node s).used_ip_addresses ≡ s.used_ip_addresses ++ ip ∷ []
unfolding record_allocation
recorded_new ip key node s new = rw new
