-- ===== src/Vpn/Register/Examples.antt =====
-- The registration of a peer on concrete files and tables.
use public_cloud_vm_provisio.Prelude.{
  String, ◌≡◌, refl, ap, ◌∙◌, ◌≢◌, true, false, Option, none, some, List, [], ◌∷◌, arith, ◌==◌,
  eq_iff, if◌then◌else◌, has_prefix,
}
use public_cloud_vm_provisio.Vpn.Allocate.{
  chosen, allocate_vpn_ip, get_next_available_ip, start_ip, search_free, search_fuel, check_taken,
  known_peers, peer_ips, lookup_peer, last_used, member,
}
use public_cloud_vm_provisio.Net.{parse_cidr, increment_ip, contains, print_ip, parse_ip}
use public_cloud_vm_provisio.Vpn.Filter.{is_blank, filter_conf}
use public_cloud_vm_provisio.Vpn.Filter.Blocks.{plain, peer}
use public_cloud_vm_provisio.Vpn.Register.{
  WireGuard, IsWireGuard, Server, RegisterEnv, register_vpn_peer, persist_peer, append_peer,
  stale_rules, has_peer, new_block,
}
use public_cloud_vm_provisio.Vpn.Register.Layout.{Layout, layout_lines}
use public_cloud_vm_provisio.Vpn.Register.Persist.{IsStart, persist-idempotent}
use public_cloud_vm_provisio.Vpn.Register.Live.{IsRead, register-keeps}

abbrev pub Table : Type 0
Table = String → Option String

-- What is left of an owner's address when its key gets another one
unfoldable without : String → Option String → Option String
without key none = none
without key (some other) = if other == key then none else some other

unfoldable pub table_wg : WireGuard Table
unfolding without
table_wg = record {
  owner = λ t ip. t ip;
  set_peer = λ key ip t jp. if jp == ip then some key else without key (t jp);
}

eq_self : (s : String) → (s == s) ≡ true
eq_self s = (eq_iff s s).1 refl

eq_other : (s t : String) → s ≢ t → (s == t) ≡ false
eq_other s t h = ground (arith, eq_iff s t)

pub table_wg-IsWireGuard : IsWireGuard table_wg
unfolding without table_wg
table_wg-IsWireGuard = record {
  set_owner = λ key ip t. rw (eq_self ip);
  set_other = λ key ip t jp other h g owned.
      rw (eq_other jp ip h) (ap (without key) owned ∙ rw (eq_other other key g));
}

abbrev pub dump : Option String
dump = some "private public 51820 off\nka (none) 1.2.3.4:51820 10.8.0.2/32 0 0 0 25"

abbrev env : RegisterEnv
env = record { forwarded = true; dump = dump; set = true; persist_error = none }

abbrev server : Server Table
server = record { table = lookup_peer (known_peers dump); conf = none }

server-IsRead : IsRead table_wg env server
unfolding IsRead table_wg lookup_peer
server-IsRead ip = refl

server-owner : server.table "10.8.0.2" ≡ some "ka"
unfolding known_peers lookup_peer parse_cidr print_ip
server-owner = refl

register-keeps_example :
    (register_vpn_peer table_wg env "kb" "10.8.0.3" server).0.table "10.8.0.2" ≡ some "ka"
unfolding table_wg lookup_peer
register-keeps_example =
    register-keeps table_wg table_wg-IsWireGuard env "kb" "10.8.0.3" server "10.8.0.2" "ka"
      server-IsRead (ground (arith, eq_iff "ka" "kb")) server-owner

abbrev keep_order : List String → List String
keep_order xs = xs

allocated : allocate_vpn_ip keep_order dump "10.8.0.0/24" ("10.8.0.1" ∷ []) ≡ chosen "10.8.0.3"
unfolding allocate_vpn_ip get_next_available_ip parse_cidr start_ip search_free search_fuel
    check_taken known_peers peer_ips lookup_peer increment_ip contains print_ip parse_ip last_used
    member
allocated = refl

-- A file with a stale block for the address, and the block of another peer at its end
abbrev layout : Layout
layout = record {
  parts =
      plain "[Interface]"
      ∷ peer (record {
        head = "[Peer]";
        body = "PublicKey = ko" ∷ "AllowedIPs = 10.8.0.3/32" ∷ [];
        blank = "";
      })
      ∷ [];
  last = "[Peer]" ∷ "PublicKey = ka" ∷ "AllowedIPs = 10.8.0.2/32" ∷ [];
}

layout-IsStart : IsStart (some layout)
unfolding IsStart has_prefix is_blank
layout-IsStart = record {
  closed = (refl, ((refl, ((refl, refl, refl), ((refl, refl, refl), tt)), refl, refl, refl), tt));
  last = (refl, ((refl, refl, refl), ((refl, refl, refl), tt)));
}

stale_removed :
    persist_peer "kb" "10.8.0.3" (some (layout_lines layout))
    ≡ "[Interface]" ∷ "[Peer]" ∷ "PublicKey = ka" ∷ "AllowedIPs = 10.8.0.2/32" ∷ "" ∷ "[Peer]"
      ∷ "PublicKey = kb" ∷ "AllowedIPs = 10.8.0.3/32" ∷ "PersistentKeepalive = 25" ∷ []
unfolding persist_peer append_peer has_peer new_block stale_rules filter_conf
stale_removed = refl

persist-idempotent_example :
    persist_peer "kb" "10.8.0.3" (some (persist_peer "kb" "10.8.0.3" (some (layout_lines layout))))
    ≡ persist_peer "kb" "10.8.0.3" (some (layout_lines layout))
persist-idempotent_example = persist-idempotent "kb" "10.8.0.3" (some layout) layout-IsStart
