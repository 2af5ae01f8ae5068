-- ===== src/Vpn/Client/Examples.antt =====
-- The client's configuration on concrete answers.
use public_cloud_vm_provisio.Prelude.{String, ◌≡◌, refl, some, List, [], ◌∷◌, trim_space}
use public_cloud_vm_provisio.Vpn.NetConfig.Distinct.{NoRepeat}
use public_cloud_vm_provisio.Vpn.Client.{
  ServerAnswers, conf, client_lines, endpoint_port, build_client_wg_config, route,
  kubernetes_api_allowed_ip, parse_port,
}
use public_cloud_vm_provisio.Vpn.Client.Allowed.{IsCollected, build-IsCollected}

abbrev answers : ServerAnswers
answers = record { public_key = some "ks\n"; listen_port = some "51820\n" }

abbrev made_lines : List String
made_lines =
    "[Interface]" ∷ "PrivateKey = kp" ∷ "Address = 10.8.0.3/24" ∷ "" ∷ "[Peer]" ∷ "PublicKey = ks"
    ∷ "Endpoint = 203.0.113.7:51820" ∷ "AllowedIPs = 10.8.0.0/24, 192.168.1.10/32"
    ∷ "PersistentKeepalive = 25" ∷ []

made :
    build_client_wg_config answers "10.8.0.3" "10.8.0.0/24" "203.0.113.7" 0 "kp"
      ("192.168.1.10/32" ∷ " " ∷ "10.8.0.0/24" ∷ [])
    ≡ conf made_lines
unfolding build_client_wg_config
made = refl

build-IsCollected_example :
    (key : String) × (allowed : List String) × (answers.public_key ≡ some key)
    × (made_lines
        ≡ client_lines "kp" "10.8.0.3"
            (trim_space key)
            "203.0.113.7"
            (endpoint_port answers.listen_port 0)
            allowed)
    × IsCollected ("10.8.0.0/24" ∷ []) ("192.168.1.10/32" ∷ " " ∷ "10.8.0.0/24" ∷ []) allowed
    × NoRepeat allowed
build-IsCollected_example =
    build-IsCollected answers "10.8.0.3" "10.8.0.0/24" "203.0.113.7" 0 "kp"
      ("192.168.1.10/32" ∷ " " ∷ "10.8.0.0/24" ∷ []) made

routed :
    kubernetes_api_allowed_ip "kubeadm join 192.168.1.10:6443 --token a.b" ≡ route "192.168.1.10/32"
unfolding kubernetes_api_allowed_ip
routed = refl

port_default : parse_port " 0" 51820 ≡ 51820
unfolding parse_port
port_default = refl

port_read : parse_port " 51821 " 51820 ≡ 51821
unfolding parse_port
port_read = refl
