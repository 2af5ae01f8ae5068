-- ===== src/Node/JoinToken/Route.antt =====
-- The join command that `refreshLocalJoinToken` of
-- internal/controller/ml/nodeprovision_controller.go publishes, as the provisioners read it.
use public_cloud_vm_provisio.Prelude.{
  String, ◌≡◌, refl, ap, ◌∙◌, true, arith, append, is_digit, has_prefix, all_chars,
}
use public_cloud_vm_provisio.Net.{Ip, IsIp, print_ip}
use public_cloud_vm_provisio.Net.Print.{is_ip_char, print_ip-chars}
use public_cloud_vm_provisio.Vpn.Client.{route, kubernetes_api_allowed_ip}
use public_cloud_vm_provisio.Vpn.Client.Route.{route-command}
use public_cloud_vm_provisio.Node.JoinToken.{trim_prefix, join_command}

-- No scheme stands in front of an address.
trim-other :
    (s t : String)
    → all_chars is_ip_char s ≡ true
    → trim_prefix (append s (append ":" t)) "http://" ≡ append s (append ":" t)
unfolding trim_prefix has_prefix append all_chars
trim-other String.[] t h = refl
trim-other (String.◌∷◌ c s) t h = ground arith

trim-https : (s : String) → trim_prefix (append "https://" s) "https://" ≡ s
unfolding trim_prefix has_prefix append
trim-https s = refl

-- From the join command that is published for an API server at an address and a port of digits,
-- the provisioners read the host route of that address.
pub join_command-route :
    (ip : Ip) (port token hash : String)
    → IsIp ip
    → all_chars is_digit port ≡ true
    → kubernetes_api_allowed_ip
        (join_command (append "https://" (append (print_ip ip) (append ":" port))) token hash)
      ≡ route (append (print_ip ip) "/32")
unfolding join_command append
join_command-route ip port token hash bytes number =
    ap
      (λ s. kubernetes_api_allowed_ip (
        append "kubeadm join " (
          append s (
            append " --token "
              (append token (append " --discovery-token-ca-cert-hash sha256:" hash))))))
      (ap (λ s. trim_prefix s "http://") (trim-https (append (print_ip ip) (append ":" port)))
        ∙ trim-other (print_ip ip) port (print_ip-chars ip bytes))
    ∙ route-command ip port
        (append "--token " (append token (append " --discovery-token-ca-cert-hash sha256:" hash)))
        bytes number
