-- ===== src/Vpn/Examples.antt =====
-- The VPN part on concrete ranges, statuses and files.
use public_cloud_vm_provisio.Prelude.{
  Option, ◌⊎◌, ◌+◌, ◌%◌, String, ◌≡◌, refl, false, none, some, List, [], ◌∷◌, arith, drop_if,
  is_empty, has_prefix, contains_text,
}
use public_cloud_vm_provisio.Net.{
  contains, print_ip, parse_ip, Ip, IpNet, value, increment_ip, parse_cidr,
}
use public_cloud_vm_provisio.Net.Order.{value-increment_ip}
use public_cloud_vm_provisio.Vpn.Allocate.{
  chosen, exhausted, member, allocate_vpn_ip, known_peers, lookup_peer, get_next_available_ip,
  start_ip, search_free, search_fuel, last_used, check_taken, peer_ips, PeerMap,
  read_vpn_server_peers,
}
use public_cloud_vm_provisio.Vpn.Allocate.Free.{IsInRange, allocate-free}
use public_cloud_vm_provisio.Vpn.NetConfig.{NetConfigStatus, record_allocation, release_allocation}
use public_cloud_vm_provisio.Vpn.NetConfig.Distinct.{
  IsConsistent, record-IsConsistent, release-IsConsistent,
}
use public_cloud_vm_provisio.Vpn.Filter.{is_blank}
use public_cloud_vm_provisio.Vpn.Conf.{clean_conf}
use public_cloud_vm_provisio.Vpn.Filter.Blocks.{Block}
use public_cloud_vm_provisio.Vpn.Conf.Blocks.{clean_conf-blocks, clean_conf-loses}

-- The order in which the map is walked
abbrev keep_order : List String → List String
keep_order xs = xs

abbrev one_used : List String
one_used = "10.8.0.1" ∷ []

-- What `wg show wg0 dump` prints: the interface, and a peer that no status records.
abbrev dump : Option String
dump = some "private public 51820 off\nkc (none) (none) 10.8.0.2/32 0 0 0 off"

abbrev dumped : PeerMap
dumped = ("10.8.0.2", "kc") ∷ []

dump_read : read_vpn_server_peers dump ≡ some dumped
unfolding read_vpn_server_peers parse_cidr print_ip parse_ip
dump_read = refl

allocated : allocate_vpn_ip keep_order dump "10.8.0.0/24" one_used ≡ chosen "10.8.0.3"
unfolding allocate_vpn_ip get_next_available_ip parse_cidr start_ip search_free search_fuel
    check_taken known_peers peer_ips lookup_peer increment_ip contains print_ip parse_ip last_used
    member
allocated = refl

allocate-free_example :
    (member one_used "10.8.0.3" ≡ false)
    × IsInRange "10.8.0.0/24" "10.8.0.3"
    × ((read_vpn_server_peers dump ≡ none)
        ⊎ ((peers : PeerMap) × (read_vpn_server_peers dump ≡ some peers)
            × (lookup_peer peers "10.8.0.3" ≡ none)))
allocate-free_example =
    allocate-free keep_order (λ xs ip. refl) dump "10.8.0.0/24" one_used allocated

-- Where the server cannot be read, the address that an unrecorded peer has is chosen.
unread : allocate_vpn_ip keep_order none "10.8.0.0/24" one_used ≡ chosen "10.8.0.2"
unfolding allocate_vpn_ip get_next_available_ip parse_cidr start_ip search_free search_fuel
    check_taken known_peers peer_ips lookup_peer increment_ip contains print_ip parse_ip last_used
    member
unread = refl

abbrev vpn_net : IpNet
vpn_net = record { base = record { b0 = 10; b1 = 8; b2 = 0; b3 = 0 }; bits = 30 }

abbrev third : Ip
third = record { b0 = 10; b1 = 8; b2 = 0; b3 = 3 }

abbrev second : Ip
second = record { b0 = 10; b1 = 8; b2 = 0; b3 = 2 }

abbrev both_used : List String
both_used = "10.8.0.3" ∷ "10.8.0.2" ∷ []

-- Only the addresses behind the last entry are tried: 10.8.0.1 and 10.8.0.2 are free.
misses_free : get_next_available_ip "10.8.0.0/30" ("10.8.0.3" ∷ []) ≡ exhausted
unfolding get_next_available_ip search_free search_fuel contains increment_ip parse_cidr
misses_free = refl

value-increment_ip_example : value (increment_ip third) ≡ (value third + 1) % 4294967296
value-increment_ip_example = value-increment_ip third (ground arith)

abbrev held : NetConfigStatus
held = record {
  used_ip_addresses = "10.8.0.2" ∷ [];
  cluster_join_command = "";
  join_token_refreshed_at = none;
  vpn_peers = record { node_name = "a"; public_key = "ka"; vpn_ip = "10.8.0.2" } ∷ [];
  kubeconfig = "";
}

held-IsConsistent : IsConsistent held
unfolding member
held-IsConsistent = record { addresses = (refl, tt); owners = (refl, tt); covered = (refl, tt) }

record-IsConsistent_example : IsConsistent (record_allocation "10.8.0.3" "kb" "b" held)
record-IsConsistent_example = record-IsConsistent "10.8.0.3" "kb" "b" held held-IsConsistent

release-IsConsistent_example : IsConsistent (release_allocation "a" "10.8.0.2" held)
unfolding is_empty
release-IsConsistent_example = release-IsConsistent "10.8.0.2" "a" held refl held-IsConsistent

abbrev peer_block : String → Block
peer_block line = record { head = "[Peer]"; body = line ∷ []; blank = "" }

clean_conf-blocks_example :
    clean_conf "kb"
      ("[Interface]" ∷ "[Peer]" ∷ "PublicKey = ka" ∷ "" ∷ "[Peer]" ∷ "PublicKey = kb" ∷ "" ∷ [])
    ≡ "[Interface]" ∷ "[Peer]" ∷ "PublicKey = ka" ∷ "" ∷ []
unfolding has_prefix is_blank contains_text drop_if
clean_conf-blocks_example =
    clean_conf-blocks "kb" ("[Interface]" ∷ [])
      (peer_block "PublicKey = ka" ∷ peer_block "PublicKey = kb" ∷ []) (refl, tt)
      (
        (refl, ((refl, refl, refl), tt), refl, refl, refl),
        ((refl, ((refl, refl, refl), tt), refl, refl, refl), tt),
      )

clean_conf-loses_example :
    clean_conf "kb"
      ("[Interface]" ∷ "[Peer]" ∷ "PublicKey = ka" ∷ "[Peer]" ∷ "PublicKey = kb" ∷ "" ∷ [])
    ≡ clean_conf "kb" ("[Interface]" ∷ "[Peer]" ∷ "PublicKey = kb" ∷ "" ∷ [])
unfolding has_prefix is_blank
clean_conf-loses_example =
    clean_conf-loses "kb" ("[Interface]" ∷ []) "[Peer]" ("PublicKey = ka" ∷ []) "[Peer]"
      ("PublicKey = kb" ∷ "" ∷ []) (refl, tt) refl ((refl, refl, refl), tt) refl
