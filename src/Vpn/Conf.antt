-- ===== src/Vpn/Conf.antt =====
-- The removal of a peer's block from the VPN server's wg0.conf: the awk program that
-- `cleanupVPNPeer` of internal/controller/ml/nodeprovision_controller.go runs there.
-- The key is not empty there (awk's `index` finds no empty text).
pub mod Blocks
use public_cloud_vm_provisio.Prelude.{String, Bool, false, ◌&&◌, ◌||◌, List, contains_text}
use public_cloud_vm_provisio.Vpn.Filter.{Rules, filter_conf}

-- `$0 ~ "PublicKey" && index($0, our_key)`
abbrev pub names_key : String → String → Bool
names_key key line = contains_text line "PublicKey" && contains_text line key

-- The flag is `has_key`.
unfoldable pub cleanup_rules : String → Rules Bool
unfolding contains_text
cleanup_rules key = record {
  unset = false;
  see = λ line has_key. has_key || names_key key line;
  drops = λ has_key. has_key;
}

unfoldable pub clean_conf : String → List String → List String
unfolding cleanup_rules filter_conf
clean_conf key lines = filter_conf (cleanup_rules key) lines
