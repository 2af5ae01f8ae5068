-- ===== src/Prelude/Contains.antt =====
-- A text contains itself, wherever it stands.
use mathlib.Core.Path.{◌≡◌, refl}
use Prim.Native.String.{String, [], ◌∷◌}
use mathlib.Core.Bool.{true}
use native.Mathlib.Omega.{arith}
use package.public_cloud_vm_provisio.Prelude.Text.{append, has_prefix, contains_text}

has_prefix_self : (s : String) → has_prefix s s ≡ true
unfolding has_prefix
has_prefix_self [] = refl
has_prefix_self (c ∷ s) = ground (arith, has_prefix_self s)

pub contains_text_self : (s : String) → contains_text s s ≡ true
unfolding contains_text
contains_text_self [] = refl
contains_text_self (c ∷ s) = ground (arith, has_prefix_self (c ∷ s))

pub contains_text-append : (s t : String) → contains_text (append s t) t ≡ true
unfolding contains_text append
contains_text-append [] t = contains_text_self t
contains_text-append (c ∷ s) t = ground (arith, contains_text-append s t)
