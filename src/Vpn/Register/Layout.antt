-- ===== src/Vpn/Register/Layout.antt =====
-- wg0.conf as `registerVPNPeer` of provider/onprem/provisioner.go keeps it: lines and blocks, the
-- last block without a blank line at its end; and the script of step 4 on such a file.
use public_cloud_vm_provisio.Prelude.{
  String, ◌≡◌, refl, sym, ap, ◌∙◌, Bool, true, false, some, List, [], ◌∷◌, ◌++◌, if◌then◌else◌,
  drop_if, All, All-append, append, has_prefix,
}
use mathlib.Core.List.{append_assoc, append-nil}
use public_cloud_vm_provisio.Vpn.Filter.{Rules, filter_conf, filter_lines, filter_end, is_blank}
use public_cloud_vm_provisio.Vpn.Filter.Blocks.{
  Part, plain, peer, part_lines, all_parts, IsInside, IsPart, flags_after, drops_part, printed,
  parts-lines, open-lines, conf-printed,
}
use public_cloud_vm_provisio.Vpn.Register.{
  Flags, stale_rules, new_block, has_peer, append_peer, persist_peer,
}

-- The file's closed parts, and the lines of the block that it ends in, if it ends in one.
pub record Layout : Type 0 where
  pub parts : List Part
  pub last : List String

abbrev pub layout_lines : Layout → List String
layout_lines l = all_parts l.parts ++ l.last

abbrev IsLast : List String → Type 0
IsLast [] = Unit
IsLast (head ∷ body) = has_prefix head "[Peer]" ≡ true × All IsInside body

pub record IsLayout (l : Layout) : Type 0 where
  pub closed : All IsPart l.parts
  pub last : IsLast l.last

-- Whether the block at the end of the file goes
abbrev pub drops_last : Rules Flags → List String → Bool
drops_last rules [] = false
drops_last rules (head ∷ body) = rules.drops (flags_after rules rules.unset body)

-- Step A: the blocks that hold the address and not the key go.
abbrev pub strip_layout : Rules Flags → Layout → Layout
strip_layout rules l = record {
  parts = drop_if (drops_part rules) l.parts;
  last = if drops_last rules l.last then [] else l.last;
}

-- The blank line in front of a new block ends the last one.
abbrev pub close_last : List String → List Part
close_last [] = plain "" ∷ []
close_last (head ∷ body) = peer (record { head = head; body = body; blank = "" }) ∷ []

-- Step B
abbrev pub add_layout : String → String → Layout → Layout
add_layout key ip l =
    if has_peer key (layout_lines l)
    then l
    else record { parts = l.parts ++ close_last l.last; last = new_block key ip }

abbrev pub register_layout : String → String → Layout → Layout
register_layout key ip l = add_layout key ip (strip_layout (stale_rules (append ip "/32") key) l)

drop_if-All :
    {A : Type 0} (P : A → Type 0) (p : A → Bool) (xs : List A) → All P xs → All P (drop_if p xs)
unfolding drop_if
drop_if-All P p [] h = tt
drop_if-All P p (x ∷ xs) (e, es) =
    elim (p x) as (λ b. All P (elim b [ true ↦ drop_if p xs | false ↦ x ∷ drop_if p xs ])) [
      | true ↦ drop_if-All P p xs es
      | false ↦ (e, drop_if-All P p xs es)
    ]

kept-IsLast : (drop : Bool) (last : List String) → IsLast last → IsLast (if drop then [] else last)
kept-IsLast true last h = tt
kept-IsLast false last h = h

strip-IsLayout : (rules : Rules Flags) (l : Layout) → IsLayout l → IsLayout (strip_layout rules l)
strip-IsLayout rules l h = record {
  closed = drop_if-All IsPart (drops_part rules) l.parts h.closed;
  last = kept-IsLast (drops_last rules l.last) l.last h.last;
}

close-IsPart : (last : List String) → IsLast last → All IsPart (close_last last)
unfolding has_prefix is_blank
close-IsPart [] h = (refl, tt)
close-IsPart (head ∷ body) (e, es) = ((e, es, refl, refl, refl), tt)

new_block-IsLast : (key ip : String) → IsLast (new_block key ip)
unfolding new_block has_prefix append is_blank
new_block-IsLast key ip =
    (refl, ((refl, refl, refl), ((refl, refl, refl), ((refl, refl, refl), tt))))

add-IsLayout : (key ip : String) (l : Layout) → IsLayout l → IsLayout (add_layout key ip l)
add-IsLayout key ip l h = pick (has_peer key (layout_lines l)) l _ h (record {
  closed = All-append IsPart l.parts (close_last l.last) h.closed (close-IsPart l.last h.last);
  last = new_block-IsLast key ip;
})
  where
    pick : (b : Bool) (x y : Layout) → IsLayout x → IsLayout y → IsLayout (if b then x else y)
    pick true x y hx hy = hx
    pick false x y hx hy = hy

-- Registering a peer keeps the file one of lines and blocks.
pub register-IsLayout :
    (key ip : String) (l : Layout) → IsLayout l → IsLayout (register_layout key ip l)
register-IsLayout key ip l h =
    add-IsLayout key ip _ (strip-IsLayout (stale_rules (append ip "/32") key) l h)

last-lines :
    (rules : Rules Flags) (out last : List String)
    → IsLast last
    → printed rules out last ≡ out ++ (if drops_last rules last then [] else last)
unfolding filter_lines filter_end
last-lines rules out [] h = sym (append-nil out)
last-lines rules out (head ∷ body) (e, es) =
    open-lines rules out head body e es
    ∙ out-if (rules.drops (flags_after rules rules.unset body)) out (head ∷ body)
  where
    out-if :
        (b : Bool) (xs ys : List String)
        → (if b then xs else xs ++ ys) ≡ xs ++ (if b then [] else ys)
    out-if true xs ys = sym (append-nil xs)
    out-if false xs ys = refl

pub filter-layout :
    (rules : Rules Flags) (l : Layout)
    → IsLayout l
    → filter_conf rules (layout_lines l) ≡ layout_lines (strip_layout rules l)
filter-layout rules l h =
    conf-printed rules (layout_lines l)
    ∙ parts-lines rules [] l.parts l.last h.closed
    ∙ last-lines rules (all_parts (drop_if (drops_part rules) l.parts)) l.last h.last

all_parts-append : (ps qs : List Part) → all_parts (ps ++ qs) ≡ all_parts ps ++ all_parts qs
all_parts-append [] qs = refl
all_parts-append (p ∷ ps) qs =
    ap (λ l. part_lines p ++ l) (all_parts-append ps qs)
    ∙ sym (append_assoc (part_lines p) (all_parts ps) (all_parts qs))

close-lines : (last : List String) → all_parts (close_last last) ≡ last ++ "" ∷ []
close-lines [] = refl
close-lines (head ∷ body) = append-nil (head ∷ (body ++ "" ∷ []))

pub add-layout :
    (key ip : String) (l : Layout)
    → append_peer key ip (layout_lines l) ≡ layout_lines (add_layout key ip l)
unfolding append_peer
add-layout key ip l = over (has_peer key (layout_lines l)) l _ (
    append_assoc (all_parts l.parts) l.last ("" ∷ new_block key ip)
    ∙ ap (λ x. all_parts l.parts ++ x)
        (sym (append_assoc l.last ("" ∷ []) (new_block key ip))
          ∙ ap (λ x. x ++ new_block key ip) (sym (close-lines l.last)))
    ∙ sym (append_assoc (all_parts l.parts) (all_parts (close_last l.last)) (new_block key ip))
    ∙ ap (λ x. x ++ new_block key ip) (sym (all_parts-append l.parts (close_last l.last))))
  where
    over :
        (b : Bool) (x y : Layout) {lines : List String}
        → lines ≡ layout_lines y
        → (if b then layout_lines x else lines) ≡ layout_lines (if b then x else y)
    over true x y e = refl
    over false x y e = e

-- On a file of lines and blocks, the last one open perhaps, the script removes the blocks that hold
-- the address and not the key, and adds a block for the peer unless the key is in the file.
pub persist-layout :
    (key ip : String) (l : Layout)
    → IsLayout l
    → persist_peer key ip (some (layout_lines l)) ≡ layout_lines (register_layout key ip l)
unfolding persist_peer
persist-layout key ip l h =
    ap (append_peer key ip) (filter-layout (stale_rules (append ip "/32") key) l h)
    ∙ add-layout key ip (strip_layout (stale_rules (append ip "/32") key) l)
