-- ===== src/Net/Print.antt =====
-- Printing an address and reading it back.
use public_cloud_vm_provisio.Prelude.{
  ℕ, zero, suc, ◌<◌, Char, code, String, ◌≡◌, refl, sym, ap, ◌∙◌, inl, inr, Bool, true, false, ◌&&◌,
  ◌||◌, Option, none, some, [], ◌∷◌, arith, leb, eqb, eqb_iff, Bool-cases, append, split, subst,
  all_chars, differs, all_chars-append,
}
use public_cloud_vm_provisio.Net.{
  Ip, IsIp, parse_ip, parse_fields, parse_byte, print_ip, print_byte,
}

-- No character of the text is the separator.
abbrev lacks : ℕ → String → Bool
lacks sep s = all_chars (differs sep) s

-- The characters of a printed address
abbrev pub is_ip_char : Char → Bool
is_ip_char c = eqb (code c) b'.' || (leb b'0' (code c) && leb (code c) b'9')

split-lacks : (sep : ℕ) (s : String) → lacks sep s ≡ true → split sep s ≡ s ∷ []
unfolding split all_chars
split-lacks sep String.[] h = refl
split-lacks sep (String.◌∷◌ c s) h = ground (arith, split-lacks sep s)

split-append :
    (s : String) (c : Char) (t : String)
    → lacks (code c) s ≡ true
    → split (code c) (append s (String.◌∷◌ c t)) ≡ s ∷ split (code c) t
unfolding split all_chars append
split-append String.[] c t h = ground arith
split-append (String.◌∷◌ d s) c t h = ground (arith, split-append s c t)

-- A byte is read back, and its text has no dot.
is_read_back : ℕ → Bool
unfolding all_chars print_byte parse_byte
is_read_back n =
    lacks b'.' (print_byte n)
    && all_chars is_ip_char (print_byte n)
    && elim (parse_byte (print_byte n)) [ none ↦ false | some m ↦ eqb m n ]

all_below : (ℕ → Bool) → ℕ → Bool
all_below p zero = true
all_below p (suc n) = p n && all_below p n

bytes-all_below : all_below is_read_back 256 ≡ true
unfolding all_below is_read_back
bytes-all_below = refl

and-cases : (a b : Bool) → (a && b) ≡ true → (a ≡ true) × (b ≡ true)
and-cases true b h = (refl, h)
and-cases false b h = ground arith

below : (n k : ℕ) → n < suc k → eqb n k ≡ false → n < k
below n k lt e = ground arith

all_below-lt : (p : ℕ → Bool) (k n : ℕ) → n < k → all_below p k ≡ true → p n ≡ true
unfolding all_below
all_below-lt p zero n lt h = ground arith
all_below-lt p (suc k) n lt h = elim (Bool-cases (eqb n k)) [
  | inl e ↦ subst (λ m. p m ≡ true) (sym ((eqb_iff n k).0 e)) (and-cases (p k) _ h).0
  | inr e ↦ all_below-lt p k n (below n k lt e) (and-cases (p k) _ h).1
]

byte-read_back :
    (n : ℕ)
    → n < 256
    → ((lacks b'.' (print_byte n) && all_chars is_ip_char (print_byte n)) ≡ true)
      × (elim (parse_byte (print_byte n)) [ none ↦ false | some m ↦ eqb m n ] ≡ true)
unfolding is_read_back
byte-read_back n lt = and-cases _ _ (all_below-lt is_read_back 256 n lt bytes-all_below)

byte-lacks : (n : ℕ) → n < 256 → lacks b'.' (print_byte n) ≡ true
byte-lacks n lt = (and-cases _ _ (byte-read_back n lt).0).0

byte-chars : (n : ℕ) → n < 256 → all_chars is_ip_char (print_byte n) ≡ true
byte-chars n lt = (and-cases _ _ (byte-read_back n lt).0).1

dotted :
    (n : ℕ) (t : String)
    → n < 256
    → all_chars is_ip_char t ≡ true
    → all_chars is_ip_char (append (print_byte n) (append "." t)) ≡ true
unfolding all_chars
dotted n t lt h =
    all_chars-append is_ip_char (print_byte n) (append "." t) (byte-chars n lt)
      (all_chars-append is_ip_char "." t refl h)

-- A printed address is digits and dots.
pub print_ip-chars : (ip : Ip) → IsIp ip → all_chars is_ip_char (print_ip ip) ≡ true
unfolding print_ip all_chars
print_ip-chars ip h =
    let t2 = append (print_byte ip.b2) (append "." (print_byte ip.b3)) in
    let t1 = append (print_byte ip.b1) (append "." t2) in
    dotted ip.b0 t1 h.byte0
      (dotted ip.b1 t2 h.byte1 (dotted ip.b2 (print_byte ip.b3) h.byte2 (byte-chars ip.b3 h.byte3)))

same-some : (o : Option ℕ) (n : ℕ) → elim o [ none ↦ false | some m ↦ eqb m n ] ≡ true → o ≡ some n
same-some none n h = ground arith
same-some (some m) n h = ap some ((eqb_iff m n).0 h)

parse-print_byte : (n : ℕ) → n < 256 → parse_byte (print_byte n) ≡ some n
parse-print_byte n lt = same-some (parse_byte (print_byte n)) n (byte-read_back n lt).1

split-print_ip :
    (ip : Ip)
    → IsIp ip
    → split b'.' (print_ip ip)
      ≡ print_byte ip.b0 ∷ print_byte ip.b1 ∷ print_byte ip.b2 ∷ print_byte ip.b3 ∷ []
unfolding print_ip append
split-print_ip ip h =
    split-append (print_byte ip.b0) "." _ (byte-lacks ip.b0 h.byte0)
    ∙ ap (λ l. print_byte ip.b0 ∷ l)
        (split-append (print_byte ip.b1) "." _ (byte-lacks ip.b1 h.byte1)
          ∙ ap (λ l. print_byte ip.b1 ∷ l)
              (split-append (print_byte ip.b2) "." _ (byte-lacks ip.b2 h.byte2)
                ∙ ap (λ l. print_byte ip.b2 ∷ l)
                    (split-lacks b'.' (print_byte ip.b3) (byte-lacks ip.b3 h.byte3))))

-- The text of an address is read back as the address.
pub parse-print_ip : (ip : Ip) → IsIp ip → parse_ip (print_ip ip) ≡ some ip
unfolding parse_ip parse_fields
parse-print_ip ip h =
    ap parse_fields (split-print_ip ip h)
    ∙ rw (
      parse-print_byte ip.b0 h.byte0,
      parse-print_byte ip.b1 h.byte1,
      parse-print_byte ip.b2 h.byte2,
      parse-print_byte ip.b3 h.byte3,
    )
