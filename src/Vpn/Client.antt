-- ===== src/Vpn/Client.antt =====
-- provider/onprem/provisioner.go: the WireGuard configuration of a node that joins, as
-- `KubernetesAPIAllowedIP`, `buildClientWGConfig` and `parsePort` make it. An IPv6 endpoint is no
-- address here, as in Net.
pub mod Allowed
pub mod Route
pub mod Examples
use public_cloud_vm_provisio.Prelude.{
  ℕ, ◌+◌, ◌-◌, ◌*◌, ◌/◌, code, String, true, false, ◌||◌, Option, none, some, List, [], ◌∷◌, ◌++◌,
  ◌==◌, eqb, if◌then◌else◌, is_empty, append, is_digit, trim_space, contains_text, cut, itoa, atoi,
}
use public_cloud_vm_provisio.Net.{parse_ip, parse_cidr, print_ip}
use public_cloud_vm_provisio.Vpn.Allocate.{fields, member}

-- `net.SplitHostPort` on a text without brackets: exactly one colon.
unfoldable pub split_host_port : String → Option (String × String)
unfolding cut contains_text
split_host_port s = elim (cut b':' s) [
  | none ↦ none
  | some (host, port) ↦ if contains_text port ":" then none else some (host, port)
]

-- How `KubernetesAPIAllowedIP` ends
pub data ApiRoute : Type 0 where
  route : String → ApiRoute
  bad_endpoint : String → ApiRoute
  not_address : String → ApiRoute
  no_endpoint : ApiRoute

unfoldable pub host_route : String → ApiRoute
unfolding split_host_port parse_ip print_ip append contains_text
host_route endpoint =
    if contains_text endpoint "[" || contains_text endpoint "]"
    then bad_endpoint endpoint
    else elim (split_host_port endpoint) [
      | none ↦ bad_endpoint endpoint
      | some (host, port) ↦ elim (parse_ip host) [
        | none ↦ not_address host
        | some ip ↦ route (append (print_ip ip) "/32")
      ]
    ]

-- The loop: the field behind the first `join` that is not the last
unfoldable pub find_route : List String → ApiRoute
unfolding host_route
find_route [] = no_endpoint
find_route (word ∷ []) = no_endpoint
find_route (word ∷ next ∷ rest) =
    let later = find_route (next ∷ rest) in if word == "join" then host_route next else later

-- `KubernetesAPIAllowedIP`
unfoldable pub kubernetes_api_allowed_ip : String → ApiRoute
unfolding fields find_route
kubernetes_api_allowed_ip join_command = find_route (fields join_command)

-- `parsePort`; a number that is not positive counts as none.
unfoldable pub parse_port : String → ℕ → ℕ
unfolding is_empty atoi trim_space
parse_port s default =
    if is_empty s
    then default
    else elim (atoi (trim_space s)) [ none ↦ default | some n ↦ if eqb n 0 then default else n ]

-- `fmt.Sscanf(p, "%d", &port)` on a port that is 0 before: the digits in front, none of them is 0.
-- The listen port has no sign and fits an `int`.
unfoldable scan_from : ℕ → String → ℕ
unfolding is_digit
scan_from n String.[] = n
scan_from n (String.◌∷◌ c s) =
    let rest = scan_from (n * 10 + (code c - b'0')) s in
    elim (is_digit c) [ true ↦ rest | false ↦ n ]

-- What the two commands on the VPN server answer, `none` for an error
pub record ServerAnswers : Type 0 where
  pub public_key : Option String
  pub listen_port : Option String

-- The port of the endpoint: the listen port that the server names, the given one where it names
-- none, 51820 where that is 0.
unfoldable pub endpoint_port : Option String → ℕ → ℕ
unfolding scan_from trim_space is_empty
endpoint_port answer port =
    let read : ℕ = elim answer [
      | none ↦ port
      | some out ↦
          let p = trim_space out in if is_empty p || p == "(none)" then port else scan_from 0 p
    ] in
    if eqb read 0 then 51820 else read

-- The loop over the extra ranges; `none` for one that does not parse.
unfoldable pub add_allowed : List String → List String → Option (List String)
unfolding trim_space is_empty member parse_cidr
add_allowed allowed [] = some allowed
add_allowed allowed (extra ∷ extras) =
    let cidr = trim_space extra in
    let skipped = add_allowed allowed extras in
    let added = add_allowed (allowed ++ cidr ∷ []) extras in
    if is_empty cidr || member allowed cidr
    then skipped
    else elim (parse_cidr cidr) [ none ↦ none | some net ↦ added ]

-- `strings.Join(texts, sep)`
unfoldable pub join_texts : String → List String → String
unfolding append
join_texts sep [] = ""
join_texts sep (s ∷ []) = s
join_texts sep (s ∷ t ∷ rest) = append s (append sep (join_texts sep (t ∷ rest)))

-- How `buildClientWGConfig` ends
pub data ClientConf : Type 0 where
  conf : List String → ClientConf
  no_public_key : ClientConf
  bad_allowed : ClientConf

-- The lines of the node's wg0.conf
unfoldable pub client_lines : String → String → String → String → ℕ → List String → List String
unfolding append itoa join_texts
client_lines private_key vpn_ip server_key server_ip port allowed =
    "[Interface]"
    ∷ append "PrivateKey = " private_key
    ∷ append "Address = " (append vpn_ip "/24")
    ∷ ""
    ∷ "[Peer]"
    ∷ append "PublicKey = " server_key
    ∷ append "Endpoint = " (append server_ip (append ":" (itoa port)))
    ∷ append "AllowedIPs = " (join_texts ", " allowed)
    ∷ "PersistentKeepalive = 25"
    ∷ []

-- `buildClientWGConfig`
unfoldable pub build_client_wg_config :
    ServerAnswers → String → String → String → ℕ → String → List String → ClientConf
unfolding endpoint_port add_allowed client_lines trim_space is_empty
build_client_wg_config answers vpn_ip vpn_range server_ip port private_key extras =
    elim answers.public_key [
      | none ↦ no_public_key
      | some out ↦
          if is_empty (trim_space out)
          then no_public_key
          else elim (add_allowed (vpn_range ∷ []) extras) [
            | none ↦ bad_allowed
            | some allowed ↦ conf (
                client_lines private_key vpn_ip (trim_space out) server_ip
                  (endpoint_port answers.listen_port port) allowed)
          ]
    ]
