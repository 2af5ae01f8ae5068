-- ===== src/Vpn/Allocate/Loop.antt =====
-- The rounds of the search loop of `getNextAvailableIP`, provider/onprem/provisioner.go.
use public_cloud_vm_provisio.Prelude.{
  ℕ, zero, suc, ◌≤◌, ◌≡◌, List, true, String, false, ◌+◌, Bool-cases, inr, inl, ◌≢◌, arith, ◌^◌,
  ◌<◌, ◌/◌, ◌%◌, ◌-◌, eqb_iff, ◌∙◌, sym,
}
use public_cloud_vm_provisio.Net.{Ip, IpNet, IsIp, value, contains, increment_ip, print_ip}
use native.Mathlib.Nat.{one-le-pow, pow-le-pow_right}
use public_cloud_vm_provisio.Net.Order.{value-lt, increment_ip-IsIp, value-increment_ip}
use public_cloud_vm_provisio.Vpn.Allocate.{chosen, diverged, exhausted, search_free, member}

-- The n-th address behind `ip`.
abbrev pub advance : ℕ → Ip → Ip
advance zero ip = ip
advance (suc n) ip = advance n (increment_ip ip)

-- The first n addresses behind `ip` lie in the range.
abbrev pub InRange : IpNet → ℕ → Ip → Type 0
InRange net zero ip = Unit
InRange net (suc n) ip = (contains net (increment_ip ip) ≡ true) × InRange net n (increment_ip ip)

-- The first n addresses behind `ip` are in use.
abbrev pub InUse : List String → ℕ → Ip → Type 0
InUse used zero ip = Unit
InUse used (suc n) ip =
    (member used (print_ip (increment_ip ip)) ≡ true) × InUse used n (increment_ip ip)

-- `text` is the first address behind `ip` that no entry of `used` spells, and the range holds it.
pub record IsFirstFree (net : IpNet) (used : List String) (ip : Ip) (text : String) : Type 0 where
  pub skipped : ℕ
  pub printed : text ≡ print_ip (advance (suc skipped) ip)
  pub inside : InRange net (suc skipped) ip
  pub busy : InUse used skipped ip
  pub free : member used text ≡ false

pub search_free-IsFirstFree :
    (fuel : ℕ) (net : IpNet) (used : List String) (ip : Ip) {text : String}
    → search_free fuel net used ip ≡ chosen text
    → IsFirstFree net used ip text
unfolding search_free
search_free-IsFirstFree zero net used ip e = cc
search_free-IsFirstFree (suc fuel) net used ip {text} e =
    let next = increment_ip ip in
    elim (Bool-cases (contains net next)) [
      | inr out ↦ cc (rw out at e)
      | inl inside ↦ elim (Bool-cases (member used (print_ip next))) [
        | inl old ↦
            let r : IsFirstFree net used next text =
              search_free-IsFirstFree fuel net used next (rw (inside, old) at e) in
            record {
              skipped = suc r.skipped;
              printed = r.printed;
              inside = (inside, r.inside);
              busy = (old, r.busy);
              free = r.free;
            }
        | inr new ↦
            let same : text ≡ print_ip next = ground arith in
            record {
              skipped = 0;
              printed = same;
              inside = (inside, tt);
              busy = tt;
              free = rw same new;
            }
      ]
    ]

-- The loop gives up only where every address from `ip` to the end of the range is in use.
pub search_free-exhausted :
    (fuel : ℕ) (net : IpNet) (used : List String) (ip : Ip)
    → search_free fuel net used ip ≡ exhausted
    → (n : ℕ) → InRange net n ip
    → InUse used n ip
unfolding search_free
search_free-exhausted fuel net used ip e zero r = tt
search_free-exhausted zero net used ip e (suc n) r = cc
search_free-exhausted (suc fuel) net used ip e (suc n) (here, later) =
    elim (Bool-cases (member used (print_ip (increment_ip ip)))) [
      | inl old ↦
          (old, search_free-exhausted fuel net used (increment_ip ip) (rw (here, old) at e) n later)
      | inr new ↦ cc (rw (here, new) at e)
    ]

no_wrap :
    (q v : ℕ)
    → 1 ≤ q
    → q ≤ 2147483648
    → v < 4294967296
    → v / q ≡ (v + 1) % 4294967296 / q
    → v + 1 < 4294967296
no_wrap q v pos small h e = grind arith

size_bounds : (n : ℕ) → 1 ≤ n → (1 ≤ 2 ^ (32 - n)) × (2 ^ (32 - n) ≤ 2147483648)
size_bounds n p = (
  one-le-pow (32 - n) 2 (omega arith),
  pow-le-pow_right {n = 2} (omega arith) {i = 32 - n} {j = 31} (omega arith),
)

-- Behind 255.255.255.255 the count wraps to 0.0.0.0, which a range with a prefix does not hold too.
wrap-contains :
    (net : IpNet) (ip : Ip)
    → IsIp ip
    → 1 ≤ net.bits
    → contains net ip ≡ true
    → contains net (increment_ip ip) ≡ true
    → value (increment_ip ip) ≡ value ip + 1
unfolding contains
wrap-contains net ip h p here next =
    let (pos, small) = size_bounds net.bits p in
    let same : value ip / 2 ^ (32 - net.bits) ≡ (value ip + 1) % 4294967296 / 2 ^ (32 - net.bits) =
      rw (← value-increment_ip ip h) ((eqb_iff _ _).0 here ∙ sym ((eqb_iff _ _).0 next)) in
    omega (arith, value-increment_ip ip h, no_wrap _ _ pos small (value-lt ip h) same)

pub search_free-ne-diverged :
    (fuel : ℕ) (net : IpNet) (used : List String) (ip : Ip)
    → IsIp ip
    → 1 ≤ net.bits
    → contains net ip ≡ true
    → 4294967296 ≤ fuel + value ip
    → search_free fuel net used ip ≢ diverged
unfolding search_free
search_free-ne-diverged zero net used ip h p here f = absurd (omega (arith, value-lt ip h))
search_free-ne-diverged (suc fuel) net used ip h p here f =
    elim (Bool-cases (contains net (increment_ip ip))) [
      | inr out ↦ λ e. cc (rw out at e)
      | inl inside ↦
          let rest =
            search_free-ne-diverged fuel net used (increment_ip ip) (increment_ip-IsIp ip h) p
              inside (omega (arith, wrap-contains net ip h p here inside)) in
          ground (arith, rest)
    ]
