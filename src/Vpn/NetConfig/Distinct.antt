-- ===== src/Vpn/NetConfig/Distinct.antt =====
-- Consistency of the NetConfig status, under the changes that
-- internal/controller/ml/nodeprovision_controller.go makes.
use public_cloud_vm_provisio.Prelude.{
  ◌==◌, ◌||◌, String, ◌≡◌, refl, inl, inr, true, false, List, [], ◌∷◌, ◌++◌, arith, eq_iff,
  if◌then◌else◌, Bool-cases, any, drop_if, any-append, any-drop_if_le, is_empty,
}
use public_cloud_vm_provisio.Vpn.Allocate.{member}
use public_cloud_vm_provisio.Vpn.Allocate.Free.{member-append}
use public_cloud_vm_provisio.Vpn.NetConfig.{
  VpnPeerStatus, NetConfigStatus, same_peer, record_allocation, released_peer, released_ip,
  release_allocation,
}
use public_cloud_vm_provisio.Vpn.NetConfig.Release.{member-drop_released, recorded_ip}

abbrev pub NoRepeat : List String → Type 0
NoRepeat [] = Unit
NoRepeat (x ∷ xs) = (member xs x ≡ false) × NoRepeat xs

-- No later entry has the key of an entry, nor its address.
abbrev pub OneOwner : List VpnPeerStatus → Type 0
OneOwner [] = Unit
OneOwner (p ∷ ps) =
    (any (λ (q : VpnPeerStatus). q.public_key == p.public_key || q.vpn_ip == p.vpn_ip) ps ≡ false)
    × OneOwner ps

abbrev pub Covers : List String → List VpnPeerStatus → Type 0
Covers xs [] = Unit
Covers xs (p ∷ ps) = (member xs p.vpn_ip ≡ true) × Covers xs ps

pub record IsConsistent (s : NetConfigStatus) : Type 0 where
  pub addresses : NoRepeat s.used_ip_addresses
  pub owners : OneOwner s.vpn_peers
  pub covered : Covers s.used_ip_addresses s.vpn_peers

pub NoRepeat-append :
    (xs : List String) (ip : String) → member xs ip ≡ false → NoRepeat xs → NoRepeat (xs ++ ip ∷ [])
unfolding member
NoRepeat-append [] ip new h = (refl, tt)
NoRepeat-append (x ∷ xs) ip new (here, h) = (
  ground (arith, member-append xs (ip ∷ []) x, eq_iff x ip, eq_iff ip x),
  NoRepeat-append xs ip (ground arith) h,
)

OneOwner-append :
    (ps : List VpnPeerStatus) (q : VpnPeerStatus)
    → any (same_peer q.public_key q.vpn_ip) ps ≡ false
    → OneOwner ps
    → OneOwner (ps ++ q ∷ [])
OneOwner-append [] q new h = (refl, tt)
OneOwner-append (p ∷ ps) q new (here, h) = (
  ground (
    arith,
    any-append (same_peer p.public_key p.vpn_ip) ps (q ∷ []),
    eq_iff p.public_key q.public_key,
    eq_iff q.public_key p.public_key,
    eq_iff p.vpn_ip q.vpn_ip,
    eq_iff q.vpn_ip p.vpn_ip,
  ),
  OneOwner-append ps q (ground arith) h,
)

Covers-mono :
    (xs ys : List String) (ps : List VpnPeerStatus)
    → ((ip : String) → member xs ip ≡ true → member ys ip ≡ true)
    → Covers xs ps
    → Covers ys ps
Covers-mono xs ys [] sub h = tt
Covers-mono xs ys (p ∷ ps) sub (here, h) = (sub p.vpn_ip here, Covers-mono xs ys ps sub h)

Covers-append :
    (xs : List String) (ps qs : List VpnPeerStatus)
    → Covers xs ps
    → Covers xs qs
    → Covers xs (ps ++ qs)
Covers-append xs [] qs _ k = k
Covers-append xs (p ∷ ps) qs (here, h) k = (here, Covers-append xs ps qs h k)

NoRepeat-grown :
    (ip : String) (xs : List String)
    → NoRepeat xs
    → NoRepeat (if member xs ip then xs else xs ++ ip ∷ [])
NoRepeat-grown ip xs h = elim (Bool-cases (member xs ip)) [
  | inl old ↦ rw old h
  | inr new ↦ rw new (NoRepeat-append xs ip new h)
]

member_grown :
    (ip : String) (xs : List String) (jp : String)
    → member xs jp ≡ true
    → member (if member xs ip then xs else xs ++ ip ∷ []) jp ≡ true
member_grown ip xs jp h = elim (Bool-cases (member xs ip)) [
  | inl old ↦ rw old h
  | inr new ↦ rw new (ground (arith, member-append xs (ip ∷ []) jp))
]

module _ (ip key node : String) where
  abbrev new_peer : VpnPeerStatus
  new_peer = record { node_name = node; public_key = key; vpn_ip = ip }

  OneOwner-grown :
      (ps : List VpnPeerStatus)
      → OneOwner ps
      → OneOwner (if any (same_peer key ip) ps then ps else ps ++ new_peer ∷ [])
  OneOwner-grown ps h = elim (Bool-cases (any (same_peer key ip) ps)) [
    | inl old ↦ rw old h
    | inr new ↦ rw new (OneOwner-append ps new_peer new h)
  ]

  Covers-grown :
      (xs : List String) (ps : List VpnPeerStatus)
      → member xs ip ≡ true
      → Covers xs ps
      → Covers xs (if any (same_peer key ip) ps then ps else ps ++ new_peer ∷ [])
  Covers-grown xs ps listed h = elim (Bool-cases (any (same_peer key ip) ps)) [
    | inl old ↦ rw old h
    | inr new ↦ rw new (Covers-append xs ps (new_peer ∷ []) h (listed, tt))
  ]

-- Recording an allocation keeps the status consistent: no address is listed twice, no two peers share
-- a key or an address, and each peer's address is listed.
pub record-IsConsistent :
    (ip key node : String) (s : NetConfigStatus)
    → IsConsistent s
    → IsConsistent (record_allocation ip key node s)
unfolding record_allocation
record-IsConsistent ip key node s h = record {
  addresses = NoRepeat-grown ip s.used_ip_addresses h.addresses;
  owners = OneOwner-grown ip key node s.vpn_peers h.owners;
  covered = Covers-grown ip key node _ s.vpn_peers (recorded_ip ip s.used_ip_addresses) (
      Covers-mono s.used_ip_addresses _ s.vpn_peers (member_grown ip s.used_ip_addresses)
        h.covered);
}

NoRepeat-drop :
    (ip : String) (xs : List String)
    → is_empty ip ≡ false
    → NoRepeat xs
    → NoRepeat (drop_if (released_ip ip) xs)
unfolding drop_if
NoRepeat-drop ip [] given h = tt
NoRepeat-drop ip (x ∷ xs) given (here, h) =
    ground (arith, NoRepeat-drop ip xs given h, member-drop_released ip xs x given)

OneOwner-drop :
    (node ip : String) (ps : List VpnPeerStatus)
    → OneOwner ps
    → OneOwner (drop_if (released_peer node ip) ps)
unfolding drop_if
OneOwner-drop node ip [] h = tt
OneOwner-drop node ip (p ∷ ps) (here, h) = ground (
  arith,
  OneOwner-drop node ip ps h,
  any-drop_if_le (released_peer node ip) (same_peer p.public_key p.vpn_ip) ps here,
)

Covers-drop :
    (node ip : String) (xs : List String) (ps : List VpnPeerStatus)
    → is_empty ip ≡ false
    → Covers xs ps
    → Covers (drop_if (released_ip ip) xs) (drop_if (released_peer node ip) ps)
unfolding drop_if
Covers-drop node ip xs [] given h = tt
Covers-drop node ip xs (p ∷ ps) given (here, h) =
    ground (arith, Covers-drop node ip xs ps given h, member-drop_released ip xs p.vpn_ip given)

-- Releasing an address that is not the empty text keeps the status consistent: no address is listed
-- twice, no two peers share a key or an address, and each peer's address is listed.
pub release-IsConsistent :
    (ip node : String) (s : NetConfigStatus)
    → is_empty ip ≡ false
    → IsConsistent s
    → IsConsistent (release_allocation node ip s)
unfolding release_allocation
release-IsConsistent ip node s given h = record {
  addresses = NoRepeat-drop ip s.used_ip_addresses given h.addresses;
  owners = OneOwner-drop node ip s.vpn_peers h.owners;
  covered = Covers-drop node ip s.used_ip_addresses s.vpn_peers given h.covered;
}
