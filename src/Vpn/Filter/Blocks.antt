-- ===== src/Vpn/Filter/Blocks.antt =====
-- What the awk program of Vpn/Filter does to a wg0.conf of peer blocks that each end in a blank
-- line, with other lines around them, the last block without one perhaps.
use public_cloud_vm_provisio.Prelude.{
  String, ◌≡◌, refl, sym, ap, ◌∙◌, inl, inr, Bool, true, false, not, ◌&&◌, List, [], ◌∷◌, ◌++◌,
  if◌then◌else◌, Bool-cases, drop_if, All, has_prefix,
}
use mathlib.Core.List.{append_assoc, append-nil}
use public_cloud_vm_provisio.Vpn.Filter.{
  Rules, Filter, filter_line, filter_lines, filter_end, filter_conf, is_blank,
}

pub record Block : Type 0 where
  pub head : String
  pub body : List String
  pub blank : String

abbrev pub block_lines : Block → List String
block_lines b = b.head ∷ (b.body ++ (b.blank ∷ []))

-- A part of the file: a line outside the blocks, or a block with the blank line at its end.
pub data Part : Type 0 where
  plain : String → Part
  peer : Block → Part

abbrev pub part_lines : Part → List String
part_lines (plain line) = line ∷ []
part_lines (peer b) = block_lines b

abbrev pub all_parts : List Part → List String
all_parts [] = []
all_parts (p ∷ ps) = part_lines p ++ all_parts ps

-- A line inside a block
abbrev pub IsInside : String → Type 0
IsInside line =
    has_prefix line "[" ≡ false × has_prefix line "[Peer]" ≡ false × is_blank line ≡ false

abbrev pub IsBlock : Block → Type 0
IsBlock b =
    has_prefix b.head "[Peer]" ≡ true
    × All IsInside b.body
    × is_blank b.blank ≡ true
    × has_prefix b.blank "[" ≡ false
    × has_prefix b.blank "[Peer]" ≡ false

-- A line outside the blocks
abbrev pub IsBefore : String → Type 0
IsBefore line = has_prefix line "[Peer]" ≡ false

abbrev pub IsPart : Part → Type 0
IsPart (plain line) = IsBefore line
IsPart (peer b) = IsBlock b

not-if {ℓ} :
    {A : Type ℓ} (b : Bool) (x y : A) → (if true && not b then y else x) ≡ (if b then x else y)
not-if true x y = refl
not-if false x y = refl

module _ {ℓ} {F : Type ℓ} (rules : Rules F) where
  -- The flags behind some lines of a block
  abbrev pub flags_after : F → List String → F
  flags_after f [] = f
  flags_after f (line ∷ lines) = flags_after (rules.see line f) lines

  abbrev pub drops_block : Block → Bool
  drops_block b = rules.drops (flags_after rules.unset (b.body ++ b.blank ∷ []))

  abbrev pub drops_part : Part → Bool
  drops_part (plain line) = false
  drops_part (peer b) = drops_block b

  abbrev outside : List String → F → List String → Filter F
  outside buf f out = record { in_peer = false; buf = buf; flags = f; out = out }

  abbrev inside : List String → F → List String → Filter F
  inside buf f out = record { in_peer = true; buf = buf; flags = f; out = out }

  after-append :
      (f : F) (xs ys : List String) → flags_after f (xs ++ ys) ≡ flags_after (flags_after f xs) ys
  after-append f [] ys = refl
  after-append f (x ∷ xs) ys = after-append (rules.see x f) xs ys

  -- What is printed in all, where the rest of the file is read outside a block.
  abbrev pub printed : List String → List String → List String
  printed out lines = filter_end rules (filter_lines rules (outside [] rules.unset out) lines)

  filter_lines-append :
      (s : Filter F) (xs ys : List String)
      → filter_lines rules s (xs ++ ys) ≡ filter_lines rules (filter_lines rules s xs) ys
  unfolding filter_lines
  filter_lines-append s [] ys = refl
  filter_lines-append s (x ∷ xs) ys = filter_lines-append (filter_line rules s x) xs ys

  line-plain :
      (buf : List String) (f : F) (out : List String) (line : String)
      → IsBefore line
      → filter_line rules (outside buf f out) line ≡ outside buf f (out ++ line ∷ [])
  unfolding filter_line
  line-plain buf f out line e = rw e

  line-head :
      (s : Filter F) (line : String)
      → has_prefix line "[Peer]" ≡ true
      → filter_line rules s line ≡ inside (line ∷ []) rules.unset s.out
  unfolding filter_line
  line-head s line e = rw e

  line-inside :
      (buf : List String) (f : F) (out : List String) (line : String)
      → IsInside line
      → filter_line rules (inside buf f out) line ≡ inside (buf ++ line ∷ []) (rules.see line f) out
  unfolding filter_line
  line-inside buf f out line (bare, head, blank) = rw (head, bare, blank)

  line-blank :
      (buf : List String) (f : F) (out : List String) (line : String)
      → has_prefix line "[" ≡ false
      → has_prefix line "[Peer]" ≡ false
      → is_blank line ≡ true
      → filter_line rules (inside buf f out) line
        ≡ outside []
            (rules.see line f)
            (if rules.drops (rules.see line f) then out else out ++ (buf ++ (line ∷ [])))
  unfolding filter_line
  line-blank buf f out line bare head blank = rw (head, bare, blank)

  lines-inside :
      (buf : List String) (f : F) (out lines : List String)
      → All IsInside lines
      → filter_lines rules (inside buf f out) lines
        ≡ inside (buf ++ lines) (flags_after f lines) out
  unfolding filter_lines
  lines-inside buf f out [] _ = ap (λ b. inside b f out) (sym (append-nil buf))
  lines-inside buf f out (line ∷ lines) (e, es) =
      ap (λ s. filter_lines rules s lines) (line-inside buf f out line e)
      ∙ lines-inside (buf ++ line ∷ []) (rules.see line f) out lines es
      ∙ ap (λ b. inside b (flags_after (rules.see line f) lines) out)
          (append_assoc buf (line ∷ []) lines)

  -- Outside a block the buffer and the flags of the last one no longer matter.
  forgets :
      (buf : List String) (f : F) (out lines : List String)
      → filter_end rules (filter_lines rules (outside buf f out) lines) ≡ printed out lines
  unfolding filter_lines filter_end
  forgets buf f out [] = refl
  forgets buf f out (line ∷ lines) = elim (Bool-cases (has_prefix line "[Peer]")) [
    | inl head ↦
        ap (λ s. filter_end rules (filter_lines rules s lines))
          (line-head (outside buf f out) line head
            ∙ sym (line-head (outside [] rules.unset out) line head))
    | inr other ↦
        ap (λ s. filter_end rules (filter_lines rules s lines)) (line-plain buf f out line other)
        ∙ forgets buf f (out ++ line ∷ []) lines
        ∙ sym (
            ap (λ s. filter_end rules (filter_lines rules s lines))
              (line-plain [] rules.unset out line other))
  ]

  kept-append :
      (out : List String) (lines : List String) (ps : List Part) (p : Part) (dropped : Bool)
      → part_lines p ≡ lines
      → (if dropped then out else out ++ lines) ++ all_parts ps
        ≡ out ++ all_parts (elim dropped [ true ↦ ps | false ↦ p ∷ ps ])
  kept-append out lines ps p true e = refl
  kept-append out lines ps p false e = append_assoc out lines (all_parts ps) ∙ rw e

  block-lines :
      (out : List String) (b : Block) (rest : List String)
      → IsBlock b
      → printed out (block_lines b ++ rest)
        ≡ printed (if drops_block b then out else out ++ block_lines b) rest
  unfolding filter_lines
  block-lines out b rest (head, body, blank, bare, other) =
      let kept = if drops_block b then out else out ++ block_lines b in
      ap (filter_end rules) (
        filter_lines-append (outside [] rules.unset out) (block_lines b) rest
        ∙ ap (λ s. filter_lines rules s rest)
            (ap (λ s. filter_lines rules s (b.body ++ b.blank ∷ []))
                (line-head (outside [] rules.unset out) b.head head)
              ∙ filter_lines-append (inside (b.head ∷ []) rules.unset out) b.body (b.blank ∷ [])
              ∙ ap (λ s. filter_line rules s b.blank)
                  (lines-inside (b.head ∷ []) rules.unset out b.body body)
              ∙ line-blank (b.head ∷ b.body) (flags_after rules.unset b.body) out b.blank bare other
                  blank
              ∙ ap (λ f. outside [] f (if rules.drops f then out else out ++ block_lines b))
                  (sym (after-append rules.unset b.body (b.blank ∷ [])))))
      ∙ forgets [] (flags_after rules.unset (b.body ++ b.blank ∷ [])) kept rest

  -- The blocks that the rules drop go, all other lines stay, and the rest is read outside a block.
  pub parts-lines :
      (out : List String) (ps : List Part) (rest : List String)
      → All IsPart ps
      → printed out (all_parts ps ++ rest) ≡ printed (out ++ all_parts (drop_if drops_part ps)) rest
  unfolding filter_lines drop_if
  parts-lines out [] rest _ = ap (λ o. printed o rest) (sym (append-nil out))
  parts-lines out (plain line ∷ ps) rest (e, es) =
      ap (λ s. filter_end rules (filter_lines rules s (all_parts ps ++ rest)))
        (line-plain [] rules.unset out line e)
      ∙ parts-lines (out ++ line ∷ []) ps rest es
      ∙ ap (λ o. printed o rest) (append_assoc out (line ∷ []) (all_parts (drop_if drops_part ps)))
  parts-lines out (peer b ∷ ps) rest (e, es) =
      ap (printed out) (append_assoc (block_lines b) (all_parts ps) rest)
      ∙ block-lines out b (all_parts ps ++ rest) e
      ∙ parts-lines (if drops_block b then out else out ++ block_lines b) ps rest es
      ∙ ap (λ o. printed o rest)
          (kept-append out (block_lines b) (drop_if drops_part ps) (peer b) (drops_block b) refl)

  -- A block that the file ends in, without a blank line
  pub open-lines :
      (out : List String) (head : String) (body : List String)
      → has_prefix head "[Peer]" ≡ true
      → All IsInside body
      → printed out (head ∷ body)
        ≡ (if rules.drops (flags_after rules.unset body) then out else out ++ head ∷ body)
  unfolding filter_lines filter_end
  open-lines out head body e inner =
      ap (λ s. filter_end rules (filter_lines rules s body))
        (line-head (outside [] rules.unset out) head e)
      ∙ ap (filter_end rules) (lines-inside (head ∷ []) rules.unset out body inner)
      ∙ not-if (rules.drops (flags_after rules.unset body)) out (out ++ head ∷ body)

  -- A block that the next one follows without a blank line is lost.
  pub loses-lines :
      (out : List String) (head : String) (body : List String) (next : String) (rest : List String)
      → has_prefix head "[Peer]" ≡ true
      → All IsInside body
      → has_prefix next "[Peer]" ≡ true
      → printed out (head ∷ body ++ next ∷ rest) ≡ printed out (next ∷ rest)
  unfolding filter_lines
  loses-lines out head body next rest first inner second =
      let start = outside [] rules.unset out in
      ap (filter_end rules) (
        ap (λ s. filter_lines rules s (body ++ next ∷ rest)) (line-head start head first)
        ∙ filter_lines-append (inside (head ∷ []) rules.unset out) body (next ∷ rest)
        ∙ ap (λ s. filter_lines rules s (next ∷ rest))
            (lines-inside (head ∷ []) rules.unset out body inner)
        ∙ ap (λ s. filter_lines rules s rest)
            (line-head (inside (head ∷ body) (flags_after rules.unset body) out) next second
              ∙ sym (line-head start next second)))

  pub conf-printed : (lines : List String) → filter_conf rules lines ≡ printed [] lines
  unfolding filter_conf
  conf-printed lines = refl
