-- ===== src/Node/Bootstrap.antt =====
-- provider/aws/cloudinit.go: the parameters of a cloud node's bootstrap script, their validation,
-- and the two ways the script is handed over. The template itself (text/template over a shell
-- script), gzip and base64 are parameters.
pub mod Valid
use public_cloud_vm_provisio.Prelude.{
  ℕ, suc, ◌-◌, ◌/◌, Char, code, String, Bool, true, false, not, ◌&&◌, ◌||◌, Option, none, some,
  List, [], ◌∷◌, leb, eqb, if◌then◌else◌, length, is_empty, append, is_digit, trim_space,
  contains_text, split, all_chars,
}
use public_cloud_vm_provisio.Kubeadm.{trim_v}
use public_cloud_vm_provisio.Node.Aws.{Answer, ok, err}

pub record CloudInitParams : Type 0 where
  pub wg_config : String
  pub vpn_ip : String
  pub join_command : String
  pub kubernetes_version : String
  pub kubernetes_minor_version : String
  pub node_name : String
  pub labels : List String
  pub ssh_username : String
  pub is_gpu_node : Bool

abbrev is_lower : Char → Bool
is_lower c = leb b'a' (code c) && leb (code c) b'z'

abbrev is_upper : Char → Bool
is_upper c = leb b'A' (code c) && leb (code c) b'Z'

is_number : String → Bool
unfolding is_empty all_chars is_digit
is_number s = not (is_empty s) && all_chars is_digit s

all_numbers : List String → Bool
unfolding is_number
all_numbers [] = true
all_numbers (s ∷ parts) = is_number s && all_numbers parts

-- `versionRE`, `^[0-9]+\.[0-9]+\.[0-9]+$`
unfoldable pub is_version : String → Bool
unfolding all_numbers split
is_version s = let parts = split b'.' s in eqb (length parts) 3 && all_numbers parts

-- `minorRE`, `^[0-9]+\.[0-9]+$`
unfoldable pub is_minor : String → Bool
unfolding all_numbers split
is_minor s = let parts = split b'.' s in eqb (length parts) 2 && all_numbers parts

abbrev pub is_address_char : Char → Bool
is_address_char c =
    is_digit c
    || (leb b'A' (code c) && leb (code c) b'F')
    || (leb b'a' (code c) && leb (code c) b'f')
    || eqb (code c) b':'
    || eqb (code c) b'.'

-- `ipRE`, `^[0-9A-Fa-f:.]+$`
unfoldable pub is_address_text : String → Bool
unfolding is_empty all_chars is_digit
is_address_text s = not (is_empty s) && all_chars is_address_char s

abbrev is_alphanumeric : Char → Bool
is_alphanumeric c = is_lower c || is_upper c || is_digit c

-- The rest of a name: it ends in a letter or digit.
ends_name : String → Bool
unfolding is_digit
ends_name String.[] = true
ends_name (String.◌∷◌ c String.[]) = is_alphanumeric c
ends_name (String.◌∷◌ c (String.◌∷◌ d s)) =
    let rest = ends_name (String.◌∷◌ d s) in
    (is_alphanumeric c || eqb (code c) b'.' || eqb (code c) b'-') && rest

text_length : String → ℕ
text_length String.[] = 0
text_length (String.◌∷◌ c s) = suc (text_length s)

-- `nameRE.MatchString(strings.ToLower(name))` on ASCII text, the expression being
-- `^[a-z0-9]([a-z0-9.-]{0,61}[a-z0-9])?$`
unfoldable pub is_host_name : String → Bool
unfolding ends_name text_length is_digit
is_host_name String.[] = false
is_host_name (String.◌∷◌ c s) = is_alphanumeric c && ends_name s && leb (text_length s) 62

abbrev is_user_char : Char → Bool
is_user_char c = is_lower c || is_digit c || eqb (code c) b'_' || eqb (code c) b'-'

-- `userRE`, `^[a-z_][a-z0-9_-]{0,31}$`
unfoldable pub is_user_name : String → Bool
unfolding text_length all_chars is_digit
is_user_name String.[] = false
is_user_name (String.◌∷◌ c s) =
    (is_lower c || eqb (code c) b'_') && all_chars is_user_char s && leb (text_length s) 31

-- `validateParams`, with the text of its error
unfoldable pub validate_params : CloudInitParams → Option String
unfolding trim_space is_empty trim_v contains_text is_address_text is_version is_minor is_host_name
    is_user_name
validate_params p =
    if is_empty (trim_space p.wg_config)
    then some "WGConfig must not be empty"
    else if not (is_address_text (trim_space p.vpn_ip))
    then some "VpnIP contains invalid characters"
    else if not (is_version (trim_v (trim_space p.kubernetes_version)))
    then some "KubernetesVersion must be a full semantic version such as 1.35.0"
    else if not (is_minor (trim_v (trim_space p.kubernetes_minor_version)))
    then some "KubernetesMinorVersion must be a minor version such as 1.35"
    else if is_empty (trim_space p.join_command)
    then some "JoinCommand must not be empty"
    else if contains_text (trim_space p.join_command) "--cri-socket"
    then some "JoinCommand must not already contain --cri-socket"
    else if not (is_empty p.node_name) && not (is_host_name p.node_name)
    then some "NodeName is not a valid Kubernetes/DNS hostname"
    else if not (is_empty p.ssh_username) && not (is_user_name p.ssh_username)
    then some "SSHUsername is not a valid Linux username"
    else none

-- `kubeletNodeLabels`
unfoldable pub kubelet_node_labels : CloudInitParams → String
kubelet_node_labels p =
    if p.is_gpu_node then "hardware-type=gpu,gpu=on,ml.dcn.ssu.ac.kr/provider=OnPrem" else ""

-- The template executed on the parameters (`renderBootstrapScript`), the script that prints an
-- error and ends with exit code 2, and gzip with base64 (`encodeScript`)
pub record Scripts : Type 0 where
  pub render : CloudInitParams → Answer String
  pub failing : String → String
  pub encode : String → String

-- `BuildUserData`
unfoldable pub build_user_data : Scripts → CloudInitParams → String
unfolding validate_params append
build_user_data scripts p = elim (validate_params p) [
  | some e ↦ scripts.encode (scripts.failing (append "invalid cloud-init parameters: " e))
  | none ↦ elim (scripts.render p) [
    | err e ↦ scripts.encode (scripts.failing (append "failed to render cloud-init: " e))
    | ok script ↦ scripts.encode script
  ]
]

-- `BuildStartupScript`
unfoldable pub build_startup_script : Scripts → CloudInitParams → Answer String
unfolding validate_params append
build_startup_script scripts p = elim (validate_params p) [
  | some e ↦ err (append "invalid cloud-init parameters: " e)
  | none ↦ scripts.render p
]
