-- ===== src/Vpn/Register.antt =====
-- provider/onprem/provisioner.go: `registerVPNPeer`, which adds a WireGuard peer to the table of
-- the VPN server's interface wg0 and to its /etc/wireguard/wg0.conf.
pub mod Layout
pub mod Persist
pub mod Live
pub mod Examples
use public_cloud_vm_provisio.Prelude.{
  ◌+◌, ◌/◌, String, ◌≡◌, ◌≢◌, Bool, false, not, ◌&&◌, ◌||◌, Option, none, some, List, [], ◌∷◌, ◌++◌,
  ◌==◌, if◌then◌else◌, any, append, contains_text,
}
use public_cloud_vm_provisio.Vpn.Allocate.{known_peers, lookup_peer}
use public_cloud_vm_provisio.Vpn.Conf.{names_key}
use public_cloud_vm_provisio.Vpn.Filter.{Rules, filter_conf}

-- The flags of Step A's awk program
pub record Flags : Type 0 where
  pub has_ip : Bool
  pub has_key : Bool

-- `$0 ~ "AllowedIPs" && index($0, target_ip)`
abbrev pub names_ip : String → String → Bool
names_ip target line = contains_text line "AllowedIPs" && contains_text line target

unfoldable pub stale_rules : String → String → Rules Flags
unfolding contains_text
stale_rules target key = record {
  unset = record { has_ip = false; has_key = false };
  see = λ line f. record {
    has_ip = f.has_ip || names_ip target line;
    has_key = f.has_key || names_key key line;
  };
  drops = λ f. f.has_ip && not f.has_key;
}

-- What Step B prints behind the blank line
unfoldable pub new_block : String → String → List String
unfolding append
new_block key ip =
    "[Peer]"
    ∷ append "PublicKey = " key
    ∷ append "AllowedIPs = " (append ip "/32")
    ∷ "PersistentKeepalive = 25"
    ∷ []

-- `grep -qF 'PublicKey = <key>'`
unfoldable pub has_peer : String → List String → Bool
unfolding append contains_text
has_peer key lines = any (λ line. contains_text line (append "PublicKey = " key)) lines

-- Step B on the lines of the file
unfoldable pub append_peer : String → String → List String → List String
unfolding has_peer new_block
append_peer key ip lines = if has_peer key lines then lines else lines ++ "" ∷ new_block key ip

-- The script of step 4, on a wg0.conf that may be missing
unfoldable pub persist_peer : String → String → Option (List String) → List String
unfolding append_peer stale_rules filter_conf append
persist_peer key ip none = append_peer key ip []
persist_peer key ip (some lines) =
    append_peer key ip (filter_conf (stale_rules (append ip "/32") key) lines)

-- The WireGuard interface of the server, which is no code of the repository: its table says which
-- peer's allowed addresses an address is among.
pub record WireGuard {ℓ} (T : Type ℓ) : Type ℓ where
  pub owner : T → String → Option String
  -- `wg set wg0 peer <key> allowed-ips <ip>/32`
  pub set_peer : String → String → T → T

-- The documented behaviour of `wg set`: the address goes to the peer, from another that had it,
-- and is the only one that the peer keeps.
pub record IsWireGuard {ℓ} {T : Type ℓ} (wg : WireGuard T) : Type ℓ where
  pub set_owner : (key ip : String) (t : T) → wg.owner (wg.set_peer key ip t) ip ≡ some key
  pub set_other :
      (key ip : String) (t : T) (jp other : String)
      → jp ≢ ip
      → other ≢ key
      → wg.owner t jp ≡ some other
      → wg.owner (wg.set_peer key ip t) jp ≡ some other

-- The VPN server: the interface's table, and the lines of wg0.conf.
pub record Server {ℓ} (T : Type ℓ) : Type ℓ where
  pub table : T
  pub conf : Option (List String)

-- What the commands on the server answer: an error of the script of step 4 leaves some file.
pub record RegisterEnv : Type 0 where
  pub forwarded : Bool
  pub dump : Option String
  pub set : Bool
  pub persist_error : Option (Option (List String) → Option (List String))

pub data Registered : Type 0 where
  registered : Registered
  forward_failed : Registered
  already_assigned : String → Registered
  set_failed : Registered
  persist_failed : Registered

module _ {ℓ} {T : Type ℓ} (wg : WireGuard T) where
  -- Step 4
  unfoldable pub persist_step : RegisterEnv → String → String → Server T → Server T × Registered
  unfolding persist_peer
  persist_step env key ip s = elim env.persist_error [
    | none ↦ (record s { conf = some (persist_peer key ip s.conf) }, registered)
    | some left ↦ (record s { conf = left s.conf }, persist_failed)
  ]

  -- Steps 3 and 4
  unfoldable pub set_step : RegisterEnv → String → String → Server T → Server T × Registered
  unfolding persist_step
  set_step env key ip s =
      if env.set
      then persist_step env key ip (record s { table = wg.set_peer key ip s.table })
      else (s, set_failed)

  -- `registerVPNPeer`; a table that cannot be read counts as empty.
  unfoldable pub register_vpn_peer :
      RegisterEnv → String → String → Server T → Server T × Registered
  unfolding known_peers lookup_peer set_step
  register_vpn_peer env key ip s =
      let go = set_step env key ip s in
      if not env.forwarded
      then (s, forward_failed)
      else elim (lookup_peer (known_peers env.dump) ip) [
        | none ↦ go
        | some existing ↦ if existing == key then go else (s, already_assigned existing)
      ]
