-- ===== src/Vpn/Allocate/Free.antt =====
-- An allocated address is free on both sides and lies in the range; when the allocation fails.
use public_cloud_vm_provisio.Prelude.{
  ℕ, String, List, ◌≡◌, false, Option-cases, some, none, inl, inr, zero, suc, refl, sym, ◌∙◌, ◌≢◌,
  ◌⊎◌, true, ◌||◌, Option, [], ◌∷◌, ◌++◌, arith, Bool-cases, is_empty,
}
use public_cloud_vm_provisio.Net.{Ip, IpNet, IsIp, parse_cidr, print_ip, contains, increment_ip}
use public_cloud_vm_provisio.Net.Order.{parse_ip-IsIp, parse_cidr-IsIp, increment_ip-IsIp}
use public_cloud_vm_provisio.Vpn.Allocate.{
  Outcome, chosen, taken, search_free, member, last_used, start_ip, search_fuel,
  get_next_available_ip, PeerMap, lookup_peer, known_peers, peer_ips, check_taken, allocate_vpn_ip,
  read_vpn_server_peers,
}
use public_cloud_vm_provisio.Vpn.Allocate.Loop.{
  advance, InRange, IsFirstFree, search_free-IsFirstFree,
}

-- A walk over the keys of a map, in any order, sees each of them and nothing else.
abbrev pub IsWalk : (List String → List String) → Type 0
IsWalk iterate = (xs : List String) (ip : String) → member (iterate xs) ip ≡ member xs ip

pub member-append :
    (xs ys : List String) (ip : String) → member (xs ++ ys) ip ≡ member xs ip || member ys ip
unfolding member
member-append [] ys ip = refl
member-append (x ∷ xs) ys ip = ground (arith, member-append xs ys ip)

append-free :
    (xs ys : List String) (ip : String)
    → member (xs ++ ys) ip ≡ false
    → (member xs ip ≡ false) × (member ys ip ≡ false)
append-free xs ys ip h = ground (arith, member-append xs ys ip)

member-peer_ips :
    (peers : PeerMap) (ip : String)
    → member (peer_ips peers) ip ≡ false
    → lookup_peer peers ip ≡ none
unfolding member peer_ips lookup_peer
member-peer_ips [] ip h = refl
member-peer_ips ((jp, key) ∷ peers) ip h = ground (arith, member-peer_ips peers ip)

-- What the search chooses from the range and the list of addresses in use.
pub record IsChosen (vpn_range : String) (used : List String) (text : String) : Type 0 where
  pub net : IpNet
  pub start : Ip
  pub parsed : parse_cidr vpn_range ≡ some net
  pub started : start_ip net used ≡ some start
  pub first : IsFirstFree net used start text

get_next-IsChosen :
    (vpn_range : String) (used : List String) {text : String}
    → get_next_available_ip vpn_range used ≡ chosen text
    → IsChosen vpn_range used text
unfolding get_next_available_ip
get_next-IsChosen vpn_range used {text} e = elim (Option-cases (parse_cidr vpn_range)) [
  | inl bad ↦ cc (rw (bad, get_next_available_ip) at e)
  | inr (net, parsed) ↦ elim (Option-cases (start_ip net used)) [
    | inl bad ↦ cc (rw (parsed, bad, get_next_available_ip) at e)
    | inr (ip, started) ↦ record {
      net = net;
      start = ip;
      parsed = parsed;
      started = started;
      first =
          search_free-IsFirstFree search_fuel net used ip
            (rw (parsed, started, get_next_available_ip) at e);
    }
  ]
]

advance-IsIp : (n : ℕ) (ip : Ip) → IsIp ip → IsIp (advance n ip)
advance-IsIp zero ip h = h
advance-IsIp (suc n) ip h = advance-IsIp n (increment_ip ip) (increment_ip-IsIp ip h)

advance-contains :
    (net : IpNet) (n : ℕ) (ip : Ip)
    → InRange net (suc n) ip
    → contains net (advance (suc n) ip) ≡ true
advance-contains net zero ip (h, _) = h
advance-contains net (suc n) ip (_, h) = advance-contains net n (increment_ip ip) h

check_taken-chosen :
    (peers : PeerMap) (o : Outcome) {text : String}
    → check_taken peers o ≡ chosen text
    → (o ≡ chosen text) × (lookup_peer peers text ≡ none)
unfolding check_taken
check_taken-chosen peers (chosen ip) e = ground arith
check_taken-chosen peers _ e = cc

check_taken-taken :
    (peers : PeerMap) (o : Outcome) {ip key : String}
    → check_taken peers o ≡ taken ip key
    → ((o ≡ chosen ip) × (lookup_peer peers ip ≡ some key)) ⊎ (o ≡ taken ip key)
unfolding check_taken
check_taken-taken peers (chosen ip) e = ground arith
check_taken-taken peers (taken ip key) e = inr e
check_taken-taken peers _ e = cc

search_free-ne-taken :
    (fuel : ℕ) (net : IpNet) (used : List String) (start : Ip) {ip key : String}
    → search_free fuel net used start ≢ taken ip key
unfolding search_free
search_free-ne-taken zero net used start = λ e. cc
search_free-ne-taken (suc fuel) net used start {ip} {key} =
    ground (arith, search_free-ne-taken fuel net used (increment_ip start) {ip = ip} {key = key})

get_next-ne-taken :
    (vpn_range : String) (used : List String) {ip key : String}
    → get_next_available_ip vpn_range used ≢ taken ip key
unfolding get_next_available_ip
get_next-ne-taken vpn_range used e = elim (Option-cases (parse_cidr vpn_range)) [
  | inl bad ↦ cc (rw (bad, get_next_available_ip) at e)
  | inr (net, parsed) ↦ elim (Option-cases (start_ip net used)) [
    | inl bad ↦ cc (rw (parsed, bad, get_next_available_ip) at e)
    | inr (ip, started) ↦
        search_free-ne-taken search_fuel net used ip
          (rw (parsed, started, get_next_available_ip) at e)
  ]
]

-- The text of an address of the range.
pub record IsInRange (vpn_range text : String) : Type 0 where
  pub net : IpNet
  pub ip : Ip
  pub parsed : parse_cidr vpn_range ≡ some net
  pub bytes : IsIp ip
  pub inside : contains net ip ≡ true
  pub printed : text ≡ print_ip ip

pub start_ip-IsIp :
    (net : IpNet) (used : List String) {ip : Ip}
    → IsIp net.base
    → start_ip net used ≡ some ip
    → IsIp ip
unfolding start_ip
start_ip-IsIp net used {ip} h e = elim (Bool-cases (is_empty (last_used used))) [
  | inl blank ↦ ground arith
  | inr last ↦ parse_ip-IsIp (last_used used) (rw (last, start_ip) at e)
]

IsChosen-IsInRange :
    {vpn_range : String} {used : List String} {text : String}
    → IsChosen vpn_range used text
    → IsInRange vpn_range text
IsChosen-IsInRange c = record {
  net = c.net;
  ip = advance (suc c.first.skipped) c.start;
  parsed = c.parsed;
  bytes =
      advance-IsIp (suc c.first.skipped) c.start
        (start_ip-IsIp c.net _ (parse_cidr-IsIp _ c.parsed) c.started);
  inside = advance-contains c.net c.first.skipped c.start c.first.inside;
  printed = c.first.printed;
}

module _ (iterate : List String → List String) (walk : IsWalk iterate) where
  -- An allocated address is in neither list that the allocation goes by, which is the NetConfig's
  -- alone where the server could not be read; and it lies in the range.
  pub allocate-unknown :
      (answer : Option String) (vpn_range : String) (cr_used : List String) {text : String}
      → allocate_vpn_ip iterate answer vpn_range cr_used ≡ chosen text
      → (member cr_used text ≡ false)
        × (lookup_peer (known_peers answer) text ≡ none)
        × IsInRange vpn_range text
  unfolding allocate_vpn_ip
  allocate-unknown answer vpn_range cr_used e =
      let (found, unknown) = check_taken-chosen (known_peers answer) _ e in
      let c = get_next-IsChosen vpn_range _ found in
      let free = sym (walk _ _) ∙ c.first.free in
      ((append-free cr_used _ _ free).0, unknown, IsChosen-IsInRange c)

  -- An allocated address is not recorded in the NetConfig status, and it is the text of an address
  -- of the range; and either the VPN server's peer table could not be read, or that table has no
  -- peer with the address. This holds whatever the order in which Go walks the map.
  pub allocate-free :
      (answer : Option String) (vpn_range : String) (cr_used : List String) {text : String}
      → allocate_vpn_ip iterate answer vpn_range cr_used ≡ chosen text
      → (member cr_used text ≡ false)
        × IsInRange vpn_range text
        × ((read_vpn_server_peers answer ≡ none)
            ⊎ ((peers : PeerMap) × (read_vpn_server_peers answer ≡ some peers)
                × (lookup_peer peers text ≡ none)))
  unfolding known_peers
  allocate-free answer vpn_range cr_used {text} e =
      let (fresh, unknown, inside) = allocate-unknown answer vpn_range cr_used e in
      (
        fresh,
        inside,
        elim (Option-cases (read_vpn_server_peers answer)) [
          | inl failed ↦ inl failed
          | inr (peers, read) ↦ inr (peers, read, rw (known_peers, read) at unknown)
        ],
      )

  -- The last check of the allocation never fails: no address that the server has is chosen.
  pub allocate-ne-taken :
      (answer : Option String) (vpn_range : String) (cr_used : List String) (ip key : String)
      → allocate_vpn_ip iterate answer vpn_range cr_used ≢ taken ip key
  unfolding allocate_vpn_ip
  allocate-ne-taken answer vpn_range cr_used ip key e =
      elim (check_taken-taken (known_peers answer) _ e) [
        | inl (found, known) ↦
            let c = get_next-IsChosen vpn_range _ found in
            let free = sym (walk _ _) ∙ c.first.free in
            let unknown =
              member-peer_ips (known_peers answer) ip ((append-free cr_used _ ip free).1) in
            cc
        | inr old ↦ get_next-ne-taken vpn_range _ old
      ]
