-- ===== src/Prelude/Chars.antt =====
-- Texts all of whose characters pass a test.
use mathlib.Core.Path.{◌≡◌, refl}
use Prim.Native.Nat.{ℕ}
use Prim.Native.Char.{Char, code}
use Prim.Native.String.{String, [], ◌∷◌}
use mathlib.Core.Bool.{Bool, true, false, ◌&&◌, not}
use mathlib.Core.Option.{some}
use native.Mathlib.Omega.{arith}
use package.public_cloud_vm_provisio.Prelude.Tests.{eqb}
use package.public_cloud_vm_provisio.Prelude.Text.{append, has_prefix, contains_text, cut}

unfoldable pub all_chars : (Char → Bool) → String → Bool
all_chars p [] = true
all_chars p (c ∷ s) = p c && all_chars p s

-- Not the separator
abbrev pub differs : ℕ → Char → Bool
differs sep c = not (eqb (code c) sep)

pub all_chars-append :
    (p : Char → Bool) (s t : String)
    → all_chars p s ≡ true
    → all_chars p t ≡ true
    → all_chars p (append s t) ≡ true
unfolding all_chars append
all_chars-append p [] t h k = k
all_chars-append p (c ∷ s) t h k = ground (arith, all_chars-append p s t)

pub all_chars_imp :
    (p q : Char → Bool)
    → ((c : Char) → p c ≡ true → q c ≡ true)
    → (s : String) → all_chars p s ≡ true
    → all_chars q s ≡ true
unfolding all_chars
all_chars_imp p q f [] h = refl
all_chars_imp p q f (c ∷ s) h = ground (arith, f c, all_chars_imp p q f s)

pub contains_text_lacks :
    (d : Char) (s : String)
    → all_chars (differs (code d)) s ≡ true
    → contains_text s (d ∷ []) ≡ false
unfolding all_chars contains_text has_prefix
contains_text_lacks d [] h = refl
contains_text_lacks d (c ∷ s) h = ground (arith, contains_text_lacks d s)

pub cut-append :
    (s : String) (c : Char) (t : String)
    → all_chars (differs (code c)) s ≡ true
    → cut (code c) (append s (c ∷ t)) ≡ some (s, t)
unfolding all_chars cut append
cut-append [] c t h = ground arith
cut-append (d ∷ s) c t h = ground (arith, cut-append s c t)

pub append_associative : (s t u : String) → append (append s t) u ≡ append s (append t u)
unfolding append
append_associative [] t u = refl
append_associative (c ∷ s) t u = ground (arith, append_associative s t u)
