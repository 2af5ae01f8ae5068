-- ===== src/Node/JoinToken/Examples.antt =====
-- The published join command, and a script's parameters, on concrete texts.
use public_cloud_vm_provisio.Prelude.{◌≡◌, refl, arith, append, is_digit, all_chars}
use public_cloud_vm_provisio.Net.{Ip, print_ip}
use public_cloud_vm_provisio.Vpn.Client.{route, kubernetes_api_allowed_ip}
use public_cloud_vm_provisio.Node.JoinToken.{join_command}
use public_cloud_vm_provisio.Node.JoinToken.Route.{join_command-route}

abbrev server : Ip
server = record { b0 = 192; b1 = 168; b2 = 1; b3 = 10 }

join_command-route_example :
    kubernetes_api_allowed_ip
      (join_command (append "https://" (append (print_ip server) (append ":" "6443"))) "a.b" "c")
    ≡ route (append (print_ip server) "/32")
unfolding all_chars is_digit
join_command-route_example = join_command-route server "6443" "a.b" "c" (ground arith) refl
