-- ===== src/Vpn/Filter.antt =====
-- The awk program that removes peer blocks from the VPN server's wg0.conf, in the two forms of the
-- code: `cleanupVPNPeer` of internal/controller/ml/nodeprovision_controller.go and
-- `registerVPNPeer` of provider/onprem/provisioner.go. They differ in the flags they keep of a
-- block, and in the flags for which they drop it; the rest is the same text.
pub mod Blocks
use public_cloud_vm_provisio.Prelude.{
  ◌+◌, String, Bool, true, false, not, ◌&&◌, List, [], ◌∷◌, ◌++◌, if◌then◌else◌, is_space,
  has_prefix,
}

-- `/^[[:space:]]*$/`
unfoldable pub is_blank : String → Bool
unfolding is_space
is_blank String.[] = true
is_blank (String.◌∷◌ c s) = is_space c && is_blank s

-- How a program goes by the lines of a block: the flags at its head, after a line, and those for
-- which the block is dropped.
pub record Rules {ℓ} (F : Type ℓ) : Type ℓ where
  pub unset : F
  pub see : String → F → F
  pub drops : F → Bool

-- The variables of the program, and the lines printed so far.
pub record Filter {ℓ} (F : Type ℓ) : Type ℓ where
  pub in_peer : Bool
  pub buf : List String
  pub flags : F
  pub out : List String

module _ {ℓ} {F : Type ℓ} where
  -- One line of the file; the first rule that ends in `next` is taken.
  unfoldable pub filter_line : Rules F → Filter F → String → Filter F
  unfolding is_blank has_prefix
  filter_line rules s line =
      let buf = s.buf ++ line ∷ [] in
      let flags = rules.see line s.flags in
      let out = if rules.drops flags then s.out else s.out ++ buf in
      if has_prefix line "[Peer]"
      then record s { in_peer = true; buf = line ∷ []; flags = rules.unset }
      else if not s.in_peer
      then record s { out = s.out ++ line ∷ [] }
      else if has_prefix line "["
      then record { in_peer = false; buf = line ∷ []; flags = rules.unset; out = out }
      else if is_blank line
      then record { in_peer = false; buf = []; flags = flags; out = out }
      else record s { buf = buf; flags = flags }

  unfoldable pub filter_lines : Rules F → Filter F → List String → Filter F
  unfolding filter_line
  filter_lines rules s [] = s
  filter_lines rules s (line ∷ lines) = filter_lines rules (filter_line rules s line) lines

  -- The `END` rule
  unfoldable pub filter_end : Rules F → Filter F → List String
  filter_end rules s = if s.in_peer && not (rules.drops s.flags) then s.out ++ s.buf else s.out

  unfoldable pub filter_conf : Rules F → List String → List String
  unfolding filter_lines filter_end
  filter_conf rules lines =
      let start : Filter F = record { in_peer = false; buf = []; flags = rules.unset; out = [] } in
      filter_end rules (filter_lines rules start lines)
