-- ===== src/Net/Order.antt =====
-- The arithmetic of addresses: `increment_ip` against the 32-bit number, and ranges.
use public_cloud_vm_provisio.Prelude.{
  ◌+◌, ◌%◌, ◌<◌, ◌≡◌, arith, ℕ, String, refl, Bool, true, false, Option, none, some, List, [], ◌∷◌,
  leb, if◌then◌else◌, split, digits, cut,
}
use public_cloud_vm_provisio.Net.{
  ◌>>=◌, Ip, IsIp, value, increment_ip, parse_fields, parse_byte, parse_ip, parse_cidr, IpNet,
}

pub value-lt : (ip : Ip) → IsIp ip → value ip < 4294967296
value-lt ip h = ground arith

-- Going to the next address keeps the bytes in range.
pub increment_ip-IsIp : (ip : Ip) → IsIp ip → IsIp (increment_ip ip)
unfolding increment_ip
increment_ip-IsIp ip h = ground arith

-- Going to the next address byte by byte adds one to the 32-bit number, modulo 2^32.
pub value-increment_ip : (ip : Ip) → IsIp ip → value (increment_ip ip) ≡ (value ip + 1) % 4294967296
unfolding increment_ip
value-increment_ip ip h = ground arith

parse_byte-lt : (s : String) {n : ℕ} → parse_byte s ≡ some n → n < 256
unfolding parse_byte
parse_byte-lt s e = ground arith

parse_fields-IsIp : (l : List String) {ip : Ip} → parse_fields l ≡ some ip → IsIp ip
unfolding parse_fields
parse_fields-IsIp (a ∷ b ∷ c ∷ d ∷ []) e = ground arith
parse_fields-IsIp _ e = cc

bind-some {ℓ κ} :
    {A : Type ℓ} {B : Type κ} (o : Option A) (f : A → Option B) {b : B}
    → (o >>= f) ≡ some b
    → (a : A) × (o ≡ some a) × (f a ≡ some b)
bind-some none f e = cc
bind-some (some a) f e = (a, refl, e)

some_if {ℓ} : {A : Type ℓ} (b : Bool) {x y : A} → (if b then some x else none) ≡ some y → x ≡ y
some_if true e = cc
some_if false e = cc

-- A parsed address has four bytes.
pub parse_ip-IsIp : (s : String) {ip : Ip} → parse_ip s ≡ some ip → IsIp ip
unfolding parse_ip
parse_ip-IsIp s e = parse_fields-IsIp (split b'.' s) e

pub parse_cidr-IsIp : (s : String) {net : IpNet} → parse_cidr s ≡ some net → IsIp net.base
unfolding parse_cidr
parse_cidr-IsIp s {net} e =
    let ((addr, mask), _, rest) = bind-some (cut b'/' s) _ e in
    let (ip, parsed, last) = bind-some (parse_ip addr) _ rest in
    let (n, _, made) = bind-some (digits mask) _ last in
    rw (← some_if (leb n 32) made) (parse_ip-IsIp addr parsed)
