-- ===== src/Vpn/Allocate.antt =====
-- provider/onprem/provisioner.go: the peer table of the VPN server, and the choice of an address.
pub mod Loop
pub mod Free
pub mod Ends
pub mod Fields
use public_cloud_vm_provisio.Prelude.{
  zero, ℕ, List, is_empty, String, Option, is_space, split, trim_space, append, ◌++◌, some,
  if◌then◌else◌, ◌∷◌, suc, none, Bool, [], ◌==◌, false, ◌||◌, not,
}
use public_cloud_vm_provisio.Net.{Ip, IpNet, parse_ip, parse_cidr, print_ip, contains, increment_ip}

-- `for _, ip := range usedIPs { if ip == nextIPStr { return true } }`
unfoldable pub member : List String → String → Bool
member [] ip = false
member (used ∷ rest) ip = used == ip || member rest ip

-- The last entry, `""` where there is none.
unfoldable pub last_used : List String → String
last_used [] = ""
last_used (ip ∷ []) = ip
last_used (ip ∷ jp ∷ rest) = last_used (jp ∷ rest)

-- How an allocation ends. `diverged` is the loop that has run out of its fuel.
pub data Outcome : Type 0 where
  chosen : String → Outcome
  invalid_range : Outcome
  invalid_last : String → Outcome
  exhausted : Outcome
  taken : String → String → Outcome
  diverged : Outcome

-- The loop of `getNextAvailableIP`, with fuel.
unfoldable pub search_free : ℕ → IpNet → List String → Ip → Outcome
search_free zero net used ip = diverged
search_free (suc fuel) net used ip =
    let next = increment_ip ip in
    let rest = search_free fuel net used next in
    if not (contains net next)
    then exhausted
    else if member used (print_ip next)
    then rest
    else chosen (print_ip next)

-- One round for each 32-bit number, and one to leave the range.
unfoldable pub search_fuel : ℕ
search_fuel = 4294967297

-- The address that the loop starts behind.
unfoldable pub start_ip : IpNet → List String → Option Ip
unfolding is_empty last_used
start_ip net used = if is_empty (last_used used) then some net.base else parse_ip (last_used used)

-- `getNextAvailableIP`
unfoldable pub get_next_available_ip : String → List String → Outcome
unfolding start_ip
get_next_available_ip vpn_range used = elim (parse_cidr vpn_range) [
  | none ↦ invalid_range
  | some net ↦ elim (start_ip net used) [
    | none ↦ invalid_last (last_used used)
    | some ip ↦ search_free search_fuel net used ip
  ]
]

-- A Go map from addresses to public keys: the first entry for a key counts.
abbrev pub PeerMap : Type 0
PeerMap = List (String × String)

unfoldable pub lookup_peer : PeerMap → String → Option String
lookup_peer [] ip = none
lookup_peer ((jp, key) ∷ peers) ip = if jp == ip then some key else lookup_peer peers ip

-- `strings.Fields` of one line
fields_from : String → String → List String
unfolding is_space is_empty append
fields_from cur String.[] = if is_empty cur then [] else cur ∷ []
fields_from cur (String.◌∷◌ c s) =
    let closed = fields_from "" s in
    let longer = fields_from (append cur (String.◌∷◌ c String.[])) s in
    if is_space c then (if is_empty cur then closed else cur ∷ closed) else longer

unfoldable pub fields : String → List String
unfolding fields_from
fields s = fields_from "" s

-- `net.ParseCIDR(cidr)`, and `net.ParseIP(cidr)` where that fails
parse_allowed : String → Option Ip
parse_allowed cidr = elim (parse_cidr cidr) [ none ↦ parse_ip cidr | some net ↦ some net.base ]

-- The entries that one peer's allowed-ips field adds.
add_cidrs : String → List String → PeerMap → PeerMap
unfolding trim_space is_empty parse_allowed
add_cidrs key [] peers = peers
add_cidrs key (cidr ∷ cidrs) peers =
    let text = trim_space cidr in
    let skip = is_empty text || text == "(none)" in
    add_cidrs key cidrs (
      if skip
      then peers
      else elim (parse_allowed text) [ none ↦ peers | some ip ↦ (print_ip ip, key) ∷ peers ])

add_line : List String → PeerMap → PeerMap
unfolding add_cidrs split
add_line (key ∷ psk ∷ endpoint ∷ allowed ∷ more) peers = add_cidrs key (split b',' allowed) peers
add_line _ peers = peers

add_lines : List String → PeerMap → PeerMap
unfolding add_line is_empty fields
add_lines [] peers = peers
add_lines (line ∷ lines) peers =
    add_lines lines (if is_empty line then peers else add_line (fields line) peers)

-- What `readVPNServerPeers` makes of the dump; the first line is the interface's.
unfoldable pub parse_dump : String → PeerMap
unfolding add_lines split trim_space
parse_dump out = elim (split 10 (trim_space out)) [ [] ↦ [] | header ∷ lines ↦ add_lines lines [] ]

-- `readVPNServerPeers` over the answer of the SSH command, `none` for an error
unfoldable pub read_vpn_server_peers : Option String → Option PeerMap
unfolding parse_dump
read_vpn_server_peers none = none
read_vpn_server_peers (some out) = some (parse_dump out)

-- The peers that the allocation goes by: none where the server could not be read.
unfoldable pub known_peers : Option String → PeerMap
unfolding read_vpn_server_peers
known_peers answer = elim (read_vpn_server_peers answer) [ none ↦ [] | some peers ↦ peers ]

unfoldable pub peer_ips : PeerMap → List String
peer_ips [] = []
peer_ips ((ip, key) ∷ peers) = ip ∷ peer_ips peers

-- The final check of `allocateVPNIP`.
unfoldable pub check_taken : PeerMap → Outcome → Outcome
unfolding lookup_peer
check_taken peers (chosen ip) = elim (lookup_peer peers ip) [
  | none ↦ chosen ip
  | some key ↦ taken ip key
]
check_taken peers o = o

-- `allocateVPNIP`. `iterate` is the order in which Go walks the map `usedSet`.
unfoldable pub allocate_vpn_ip :
    (List String → List String) → Option String → String → List String → Outcome
unfolding known_peers peer_ips check_taken
allocate_vpn_ip iterate answer vpn_range cr_used =
    let peers = known_peers answer in
    check_taken peers (get_next_available_ip vpn_range (iterate (cr_used ++ peer_ips peers)))
