-- ===== src/Net.antt =====
-- IPv4 addresses and ranges: what provider/onprem/provisioner.go uses of Go's `net` package
-- (`net.ParseIP`, `net.ParseCIDR`, `IP.String`, `IPNet.Contains`), and its own `incrementIP`.
-- An IPv6 text is no address here: `parse_ip` and `parse_cidr` answer `none` on it.
pub mod Order
pub mod Print
use public_cloud_vm_provisio.Prelude.{
  ℕ, ◌+◌, ◌*◌, ◌-◌, ◌/◌, ◌%◌, ◌^◌, Bool, false, ◌&&◌, List, [], ◌∷◌, Option, none, some, String,
  Char, code, ltb, leb, eqb, not, if◌then◌else◌, split, digits, cut, append, ◌<◌,
}

-- `ip.To4()`: four bytes.
pub record Ip : Type 0 where
  pub b0 : ℕ
  pub b1 : ℕ
  pub b2 : ℕ
  pub b3 : ℕ

-- A `net.IPNet`: the prefix length, and the address that stood before the slash.
pub record IpNet : Type 0 where
  pub base : Ip
  pub bits : ℕ

pub record IsIp (ip : Ip) : Type 0 where
  pub byte0 : ip.b0 < 256
  pub byte1 : ip.b1 < 256
  pub byte2 : ip.b2 < 256
  pub byte3 : ip.b3 < 256

-- The address as a 32-bit number.
abbrev pub value : Ip → ℕ
value ip = ((ip.b0 * 256 + ip.b1) * 256 + ip.b2) * 256 + ip.b3

infixl 5 ◌>>=◌
abbrev ◌>>=◌ {ℓ κ} : {A : Type ℓ} {B : Type κ} → Option A → (A → Option B) → Option B
none >>= k = none
some a >>= k = k a

-- `001` and the like: refused by `net.ParseIP`.
has_leading_zero : String → Bool
has_leading_zero (String.◌∷◌ c (String.◌∷◌ d s)) = eqb (code c) b'0'
has_leading_zero s = false

-- One decimal field of an address.
parse_byte : String → Option ℕ
unfolding has_leading_zero digits
parse_byte s = elim (digits s) [
  | none ↦ none
  | some n ↦ if ltb n 256 && not (has_leading_zero s) then some n else none
]

parse_fields : List String → Option Ip
unfolding parse_byte
parse_fields (a ∷ b ∷ c ∷ d ∷ []) = do
  w ← parse_byte a
  x ← parse_byte b
  y ← parse_byte c
  z ← parse_byte d
  some (record { b0 = w; b1 = x; b2 = y; b3 = z })
parse_fields _ = none

-- `net.ParseIP`
unfoldable pub parse_ip : String → Option Ip
unfolding parse_fields split
parse_ip s = parse_fields (split b'.' s)

-- `net.ParseCIDR`
unfoldable pub parse_cidr : String → Option IpNet
unfolding parse_ip cut digits
parse_cidr s = do
  (addr, mask) ← cut b'/' s
  ip ← parse_ip addr
  n ← digits mask
  (if leb n 32 then some (record { base = ip; bits = n }) else none)

digit : ℕ → Char
digit n =
    if eqb n 0
    then "0"
    else if eqb n 1
    then "1"
    else if eqb n 2
    then "2"
    else if eqb n 3
    then "3"
    else if eqb n 4
    then "4"
    else if eqb n 5
    then "5"
    else if eqb n 6
    then "6"
    else if eqb n 7
    then "7"
    else if eqb n 8
    then "8"
    else "9"

print_byte : ℕ → String
unfolding digit
print_byte n =
    let units = String.◌∷◌ (digit (n % 10)) String.[] in
    let tens = String.◌∷◌ (digit (n / 10 % 10)) units in
    if ltb n 10 then units else if ltb n 100 then tens else String.◌∷◌ (digit (n / 100)) tens

-- `IP.String`
unfoldable pub print_ip : Ip → String
unfolding print_byte append
print_ip ip = append (print_byte ip.b0) (
    append "." (
      append (print_byte ip.b1)
        (append "." (append (print_byte ip.b2) (append "." (print_byte ip.b3))))))

-- `ipNet.Contains(ip)`: the first `bits` bits agree.
unfoldable pub contains : IpNet → Ip → Bool
contains net ip = eqb (value ip / 2 ^ (32 - net.bits)) (value net.base / 2 ^ (32 - net.bits))

-- `ip[i]++` on a byte
abbrev bump : ℕ → ℕ
bump b = (b + 1) % 256

-- `incrementIP`: the bytes from the last one, until one does not wrap to 0.
unfoldable pub increment_ip : Ip → Ip
increment_ip ip =
    let d = bump ip.b3 in
    let c = bump ip.b2 in
    let b = bump ip.b1 in
    let a = bump ip.b0 in
    if not (eqb d 0)
    then record ip { b3 = d }
    else if not (eqb c 0)
    then record ip { b3 = d; b2 = c }
    else if not (eqb b 0)
    then record ip { b3 = d; b2 = c; b1 = b }
    else record ip { b3 = d; b2 = c; b1 = b; b0 = a }
