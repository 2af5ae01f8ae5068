-- ===== src/Vpn/Client/Route.antt =====
-- The join command that the NodeProvision controller publishes, and the route that
-- `KubernetesAPIAllowedIP` of provider/onprem/provisioner.go reads out of it.
use public_cloud_vm_provisio.Prelude.{
  Char, code, String, ◌≡◌, refl, ap, ◌∙◌, Bool, true, false, ◌||◌, some, ◌∷◌, arith, eqb, is_empty,
  append, is_space, is_digit, contains_text, all_chars, differs, all_chars-append, all_chars_imp,
  contains_text_lacks, cut-append,
}
use public_cloud_vm_provisio.Net.{Ip, IsIp, parse_ip, print_ip}
use public_cloud_vm_provisio.Net.Print.{is_ip_char, print_ip-chars, parse-print_ip}
use public_cloud_vm_provisio.Vpn.Allocate.{fields}
use public_cloud_vm_provisio.Vpn.Allocate.Fields.{is_word_char, fields-word}
use public_cloud_vm_provisio.Vpn.Client.{
  split_host_port, route, host_route, find_route, kubernetes_api_allowed_ip,
}

is_endpoint_char : Char → Bool
is_endpoint_char c = eqb (code c) b':' || is_ip_char c

digit-ip : (c : Char) → is_digit c ≡ true → is_ip_char c ≡ true
unfolding is_digit
digit-ip c h = ground arith

ip-endpoint : (c : Char) → is_ip_char c ≡ true → is_endpoint_char c ≡ true
unfolding is_endpoint_char
ip-endpoint c h = ground arith

ip-colon : (c : Char) → is_ip_char c ≡ true → differs b':' c ≡ true
ip-colon c h = ground arith

endpoint-word : (c : Char) → is_endpoint_char c ≡ true → is_word_char c ≡ true
unfolding is_endpoint_char is_space
endpoint-word c h = ground arith

endpoint-open : (c : Char) → is_endpoint_char c ≡ true → differs b'[' c ≡ true
unfolding is_endpoint_char
endpoint-open c h = ground arith

endpoint-close : (c : Char) → is_endpoint_char c ≡ true → differs b']' c ≡ true
unfolding is_endpoint_char
endpoint-close c h = ground arith

append-full : (s port : String) → is_empty (append s (append ":" port)) ≡ false
unfolding append is_empty
append-full String.[] port = refl
append-full (String.◌∷◌ c s) port = refl

-- The word behind `kubeadm join`
command-route :
    (w rest : String)
    → all_chars is_word_char w ≡ true
    → is_empty w ≡ false
    → kubernetes_api_allowed_ip (append "kubeadm join " (append w (append " " rest))) ≡ host_route w
unfolding kubernetes_api_allowed_ip find_route fields append
command-route w rest h full =
    ap (λ l. find_route ("kubeadm" ∷ "join" ∷ l)) (fields-word w rest h full)

lacks-colon : (s : String) → all_chars is_ip_char s ≡ true → all_chars (differs b':') s ≡ true
lacks-colon s h = all_chars_imp is_ip_char (differs b':') ip-colon s h

module _ (host port : String) (named : all_chars is_ip_char host ≡ true)
    (number : all_chars is_digit port ≡ true) where
  port-ip : all_chars is_ip_char port ≡ true
  port-ip = all_chars_imp is_digit is_ip_char digit-ip port number

  endpoint-chars : all_chars is_endpoint_char (append host (append ":" port)) ≡ true
  unfolding all_chars is_endpoint_char append
  endpoint-chars =
      all_chars-append is_endpoint_char host (append ":" port)
        (all_chars_imp is_ip_char is_endpoint_char ip-endpoint host named)
        (all_chars_imp is_ip_char is_endpoint_char ip-endpoint port port-ip)

  split-endpoint : split_host_port (append host (append ":" port)) ≡ some (host, port)
  unfolding split_host_port append
  split-endpoint = rw (
    split_host_port,
    cut-append host ":" port (lacks-colon host named),
    contains_text_lacks ":" port (lacks-colon port port-ip),
  )

  bare-endpoint :
      (contains_text (append host (append ":" port)) "["
        || contains_text (append host (append ":" port)) "]")
      ≡ false
  bare-endpoint = rw (
    contains_text_lacks "[" (append host (append ":" port))
        (all_chars_imp is_endpoint_char (differs b'[') endpoint-open _ endpoint-chars),
    contains_text_lacks "]" (append host (append ":" port))
        (all_chars_imp is_endpoint_char (differs b']') endpoint-close _ endpoint-chars),
  )

  full-endpoint : is_empty (append host (append ":" port)) ≡ false
  full-endpoint = append-full host port

  route-endpoint :
      (ip : Ip)
      → parse_ip host ≡ some ip
      → host_route (append host (append ":" port)) ≡ route (append (print_ip ip) "/32")
  unfolding host_route
  route-endpoint ip parsed = rw (host_route, bare-endpoint, split-endpoint, parsed)

-- From a join command to an address and a port of digits, the host route of that address is read.
pub route-command :
    (ip : Ip) (port rest : String)
    → IsIp ip
    → all_chars is_digit port ≡ true
    → kubernetes_api_allowed_ip
        (append "kubeadm join " (append (append (print_ip ip) (append ":" port)) (append " " rest)))
      ≡ route (append (print_ip ip) "/32")
route-command ip port rest bytes number =
    let named = print_ip-chars ip bytes in
    command-route (append (print_ip ip) (append ":" port)) rest
      (all_chars_imp is_endpoint_char is_word_char endpoint-word _
        (endpoint-chars (print_ip ip) port named number))
      (full-endpoint (print_ip ip) port named number)
    ∙ route-endpoint (print_ip ip) port named number ip (parse-print_ip ip bytes)
